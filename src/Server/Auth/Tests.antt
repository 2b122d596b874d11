-- ===== src/Server/Auth/Tests.antt =====
-- auth.hpp on concrete requests.
use cxxmcp.Prelude.{◌≡◌, refl, true, [], ◌∷◌, ◌++◌, codes, bytes_eq, ok, none, replicate, List}
use cxxmcp.Server.Auth.{constant_time_string_equal, AuthRequest, AuthIdentity, Entry, add_token}
use cxxmcp.Server.Auth.Tokens.{authorization, first_entry}
use cxxmcp.Server.Auth.Padded.{constant_time_string_equal-zeros}

abbrev reader : AuthIdentity
reader = record { subject = codes "reader"; claims = [] }

abbrev writer : AuthIdentity
writer = record { subject = codes "writer"; claims = [] }

abbrev table : List Entry
unfolding add_token
table = add_token (codes "key2") writer (add_token (codes "key1") reader [])

abbrev request : AuthRequest
request = record {
  headers =
      (codes "Host", codes "h")
      ∷ (codes "AUTHORIZATION", authorization (codes " ") (codes "key2") (codes " "))
      ∷ [];
  remote_address = [];
  http_method = none;
  http_url = none;
}

the_entry : first_entry (codes "key2") table ≡ ok writer
unfolding bytes_eq table add_token
the_entry = refl

constant_time_string_equal-zeros_example :
    constant_time_string_equal (codes "key1" ++ replicate 256 0) (codes "key1") ≡ true
constant_time_string_equal-zeros_example = constant_time_string_equal-zeros (codes "key1")

-- ===== src/Auth/OAuthUrl/Reader.antt =====
-- A reader of the query of a URL, which the repository has not.
use cxxmcp.Prelude.{Bool, false, not, ◌||◌, ◌==◌, if◌then◌else◌, Bytes, List, [], ◌∷◌}
use cxxmcp.Auth.WwwAuth.Scan.{span}
use cxxmcp.Auth.OAuthUrl.Decoding.{character, percent_decode}

-- The pieces between the bytes `&`.
abbrev pub pieces : Bytes → Bytes × List Bytes
pieces [] = ([], [])
pieces (ch ∷ s) =
    let (piece, others) = pieces s in
    if ch == b'&' then ([], piece ∷ others) else (ch ∷ piece, others)

abbrev pub behind : Bytes → Bytes
behind [] = []
behind (_ ∷ s) = s

-- A name and a value, around the first `=`.
abbrev pub read_pair : Bytes → Bytes × Bytes
read_pair piece =
    let (name, rest) = span (λ ch. not (ch == b'=')) piece in
    (percent_decode character name, percent_decode character (behind rest))

abbrev pub read_pairs : List Bytes → List (Bytes × Bytes)
read_pairs [] = []
read_pairs (piece ∷ others) = read_pair piece ∷ read_pairs others

-- What stands behind the first `?`.
abbrev pub query_pairs : Bytes → List (Bytes × Bytes)
query_pairs [] = []
query_pairs (ch ∷ s) =
    let later = query_pairs s in
    if ch == b'?' then read_pairs ((pieces s).0 ∷ (pieces s).1) else later

-- A URL up to its fragment.
abbrev pub before_fragment : Bytes → Bytes
before_fragment [] = []
before_fragment (ch ∷ s) = let rest = before_fragment s in if ch == b'#' then [] else ch ∷ rest

abbrev pub has_fragment : Bytes → Bool
has_fragment [] = false
has_fragment (ch ∷ s) = ch == b'#' || has_fragment s

-- The parameters of the query of a URL, as RFC 3986 splits it: a `#` ends the query.
abbrev pub query_parameters : Bytes → List (Bytes × Bytes)
query_parameters url = query_pairs (before_fragment url)

-- ===== src/Auth/ConstantTime/Tests.antt =====
-- The comparison at concrete texts.
use cxxmcp.Prelude.{◌≡◌, ◌↔◌, true, text}
use cxxmcp.Auth.ConstantTime.{constant_time_string_equal, constant_time_string_equal_iff}

constant_time_string_equal_iff_example :
    (constant_time_string_equal (text "secret") (text "secrets") ≡ true)
    ↔ (text "secret" ≡ text "secrets")
constant_time_string_equal_iff_example =
    constant_time_string_equal_iff (text "secret") (text "secrets")

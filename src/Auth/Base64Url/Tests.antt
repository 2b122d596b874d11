-- ===== src/Auth/Base64Url/Tests.antt =====
-- The codec at concrete texts.
use cxxmcp.Prelude.{◌≡◌, ◌↔◌, text, [], ◌∷◌, ok, All, IsByte}
use cxxmcp.Auth.Base64Url.{encode_bytes, decode}
use cxxmcp.Auth.Base64Url.Canonical.{decode-eq-ok_iff}

decode-eq-ok_iff_example :
    (decode (text "_-8") ≡ ok (255 ∷ 239 ∷ []))
    ↔ ((text "_-8" ≡ encode_bytes (255 ∷ 239 ∷ [])) × All IsByte (255 ∷ 239 ∷ []))
decode-eq-ok_iff_example = decode-eq-ok_iff (text "_-8") (255 ∷ 239 ∷ [])

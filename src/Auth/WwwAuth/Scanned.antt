-- ===== src/Auth/WwwAuth/Scanned.antt =====
-- What the scanners make of a known text.
use cxxmcp.Prelude.{ℕ, ◌≡◌, refl, ap, Bool, true, false, ◌==◌, Bytes, [], ◌∷◌, ◌++◌, ok, All}
use cxxmcp.Auth.WwwAuth.Scan.{span, quoted_rest}

-- The scanner stops at the end and at a byte it does not take.
abbrev pub Stops : (ℕ → Bool) → Bytes → Type 0
Stops p [] = Unit
Stops p (c ∷ s) = p c ≡ false

pub span-append :
    (p : ℕ → Bool) (taken rest : Bytes)
    → All (λ c. p c ≡ true) taken
    → Stops p rest
    → span p (taken ++ rest) ≡ (taken, rest)
unfolding span
span-append p [] [] hs stop = refl
span-append p [] (c ∷ rest) hs stop = rw stop refl
span-append p (c ∷ taken) rest (h, hs) stop = rw (span-append p taken rest hs stop) (rw h refl)

pub rest-span : (p : ℕ → Bool) (c : ℕ) (s : Bytes) → p c ≡ false → (span p (c ∷ s)).1 ≡ c ∷ s
rest-span p c s stop = ap (λ (r : Bytes × Bytes). r.1) (span-append p [] (c ∷ s) tt stop)

-- Neither a quote nor a backslash.
abbrev pub IsPlain : ℕ → Type 0
IsPlain c = ((c == b'"') ≡ false) × ((c == b'\\') ≡ false)

pub quoted_rest-append :
    (s rest : Bytes) → All IsPlain s → quoted_rest false (s ++ (b'"' ∷ rest)) ≡ ok (s, rest)
unfolding quoted_rest
quoted_rest-append [] rest hs = refl
quoted_rest-append (c ∷ s) rest ((no_quote, no_escape), hs) =
    rw no_quote (rw no_escape (rw (quoted_rest-append s rest hs) refl))

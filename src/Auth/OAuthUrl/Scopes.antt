-- ===== src/Auth/OAuthUrl/Scopes.antt =====
-- Scope lists through their text.
use cxxmcp.Prelude.{
  ℕ, ◌≡◌, refl, sym, ap, ◌∙◌, false, Bytes, List, [], ◌∷◌, ◌++◌, append_assoc, append-nil, All,
}
use cxxmcp.Auth.WwwAuth.Decision.{is_space, keep, scopes_from, split_scopes}
use cxxmcp.Auth.OAuthUrl.{join_loop, join_scopes}

-- A text without white space.
abbrev pub IsWord : Bytes → Type 0
IsWord s = All (λ c. is_space c ≡ false) s

-- the scopes that are not empty
abbrev pub given_scopes : List Bytes → List Bytes
given_scopes [] = []
given_scopes (scope ∷ scopes) = keep scope (given_scopes scopes)

-- The scopes, each behind a blank.
abbrev spaced : List Bytes → Bytes
spaced [] = []
spaced ([] ∷ scopes) = spaced scopes
spaced ((ch ∷ scope) ∷ scopes) = b' ' ∷ ((ch ∷ scope) ++ spaced scopes)

join_loop_lem :
    (ch : ℕ) (joined : Bytes) (scopes : List Bytes)
    → join_loop (ch ∷ joined) scopes ≡ (ch ∷ joined) ++ spaced scopes
unfolding join_loop
join_loop_lem ch joined [] = sym (append-nil (ch ∷ joined))
join_loop_lem ch joined ([] ∷ scopes) = join_loop_lem ch joined scopes
join_loop_lem ch joined ((d ∷ scope) ∷ scopes) =
    join_loop_lem ch ((joined ++ (b' ' ∷ [])) ++ (d ∷ scope)) scopes ∙ (simp append_assoc)

scopes_from-append :
    (word rest : Bytes)
    → IsWord word
    → scopes_from (word ++ rest) ≡ (word ++ (scopes_from rest).0, (scopes_from rest).1)
scopes_from-append [] rest hs = refl
scopes_from-append (ch ∷ word) rest (h, hs) = rw (scopes_from-append word rest hs) (rw h refl)

abbrev kept : Bytes × List Bytes → List Bytes
kept (scope, scopes) = keep scope scopes

kept_lem :
    (ch : ℕ) (scope : Bytes) (scopes : List Bytes)
    → IsWord (ch ∷ scope)
    → scopes_from (spaced scopes) ≡ ([], given_scopes scopes)
    → kept (scopes_from ((ch ∷ scope) ++ spaced scopes)) ≡ (ch ∷ scope) ∷ given_scopes scopes
kept_lem ch scope scopes h later =
    ap kept (scopes_from-append (ch ∷ scope) (spaced scopes) h)
    ∙ ap (λ (p : Bytes × List Bytes). kept ((ch ∷ scope) ++ p.0, p.1)) later
    ∙ ap (λ (s : Bytes). s ∷ given_scopes scopes) (append-nil (ch ∷ scope))

scopes_from-spaced :
    (scopes : List Bytes)
    → All IsWord scopes
    → scopes_from (spaced scopes) ≡ ([], given_scopes scopes)
scopes_from-spaced [] hs = refl
scopes_from-spaced ([] ∷ scopes) (h, hs) = scopes_from-spaced scopes hs
scopes_from-spaced ((ch ∷ scope) ∷ scopes) (h, hs) =
    ap (λ (l : List Bytes). ([], l)) (kept_lem ch scope scopes h (scopes_from-spaced scopes hs))

-- A list of scopes without white space, joined and split again, is the list without its empty scopes.
pub split_scopes-join_scopes :
    (scopes : List Bytes)
    → All IsWord scopes
    → split_scopes (join_scopes scopes) ≡ given_scopes scopes
unfolding join_scopes join_loop split_scopes
split_scopes-join_scopes [] hs = refl
split_scopes-join_scopes ([] ∷ scopes) (h, hs) = split_scopes-join_scopes scopes hs
split_scopes-join_scopes ((ch ∷ scope) ∷ scopes) (h, hs) =
    ap split_scopes (join_loop_lem ch scope scopes)
    ∙ kept_lem ch scope scopes h (scopes_from-spaced scopes hs)

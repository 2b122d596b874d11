-- ===== src/Auth/OAuthUrl/Query.antt =====
-- The parameters that `append_query_param` adds, as a reader of the query finds them.
use cxxmcp.Prelude.{
  ℕ, ◌/◌, ◌%◌, ◌≡◌, ◌<◌, refl, sym, ap, ◌∙◌, Bool, true, false, not, ◌||◌, ◌==◌, Bool-cases, inl,
  inr, Bytes, List, [], ◌∷◌, ◌++◌, append_assoc, append-nil, All, IsByte, arith,
}
use cxxmcp.Auth.WwwAuth.Scanned.{span-append}
use cxxmcp.Auth.OAuthUrl.{
  is_unreserved, hex_digit, escape, oauth_url_encode, has_query, append_query_param,
}
use cxxmcp.Auth.OAuthUrl.Decoding.{percent_decode-oauth_url_encode}
use cxxmcp.Auth.OAuthUrl.Reader.{
  pieces, read_pair, read_pairs, query_pairs, before_fragment, has_fragment, query_parameters,
}

-- A byte that neither ends a parameter nor a name, and begins no query and no fragment.
abbrev IsInner : ℕ → Type 0
IsInner ch =
    ((ch == b'&') ≡ false)
    × ((ch == b'=') ≡ false)
    × ((ch == b'?') ≡ false)
    × ((ch == b'#') ≡ false)

unreserved-IsInner : (ch : ℕ) → is_unreserved ch ≡ true → IsInner ch
unfolding is_unreserved
unreserved-IsInner ch h = (ground arith, ground arith, ground arith, ground arith)

hex_digit-IsInner : (n : ℕ) → n < 16 → IsInner (hex_digit n)
hex_digit-IsInner n h = (ground arith, ground arith, ground arith, ground arith)

escape-IsInner :
    (ch : ℕ) (rest : Bytes) → ch < 256 → All IsInner rest → All IsInner (escape ch rest)
escape-IsInner ch rest h later = (
  (refl, refl, refl, refl),
  (hex_digit-IsInner (ch / 16) (omega arith), (hex_digit-IsInner (ch % 16) (omega arith), later)),
)

encode-IsInner : (s : Bytes) → All IsByte s → All IsInner (oauth_url_encode s)
unfolding oauth_url_encode
encode-IsInner [] hs = tt
encode-IsInner (ch ∷ s) (h, hs) =
    let later = encode-IsInner s hs in
    elim (Bool-cases (is_unreserved ch)) [
      | inl e ↦ rw e (unreserved-IsInner ch e, later)
      | inr e ↦ rw e (escape-IsInner ch (oauth_url_encode s) h later)
    ]

abbrev pub append_params : Bytes → List (Bytes × Bytes) → Bytes
append_params url [] = url
append_params url ((name, value) ∷ params) =
    append_params (append_query_param url name value) params

abbrev pub IsParam : Bytes × Bytes → Type 0
IsParam (name, value) = All IsByte name × All IsByte value

abbrev encoded : Bytes → Bytes → Bytes
encoded name value = oauth_url_encode name ++ (b'=' ∷ oauth_url_encode value)

abbrev more : List (Bytes × Bytes) → Bytes
more [] = []
more ((name, value) ∷ params) = b'&' ∷ (encoded name value ++ more params)

has_query-append : (url rest : Bytes) → has_query (url ++ (b'?' ∷ rest)) ≡ true
has_query-append [] rest = refl
has_query-append (ch ∷ url) rest = elim (Bool-cases (ch == b'?')) [
  | inl e ↦ rw e refl
  | inr e ↦ rw e (has_query-append url rest)
]

-- With a query there, every parameter goes behind a `&`.
append_params-more :
    (base query : Bytes) (params : List (Bytes × Bytes))
    → append_params (base ++ (b'?' ∷ query)) params ≡ base ++ (b'?' ∷ (query ++ more params))
unfolding append_query_param
append_params-more base query [] = rw (append-nil query) refl
append_params-more base query ((name, value) ∷ params) = rw (has_query-append base query) (
    ap (λ u. append_params u params) (simp append_assoc)
    ∙ append_params-more base (query ++ (b'&' ∷ encoded name value)) params
    ∙ (simp append_assoc))

no_more_ands :
    (s rest : Bytes) → All IsInner s → pieces (s ++ rest) ≡ (s ++ (pieces rest).0, (pieces rest).1)
no_more_ands [] rest hs = refl
no_more_ands (ch ∷ s) rest ((no_and, _, _, _), hs) = rw (no_more_ands s rest hs) (rw no_and refl)

abbrev texts : List (Bytes × Bytes) → List Bytes
texts [] = []
texts ((name, value) ∷ params) = encoded name value ∷ texts params

pieces-encoded :
    (name value rest : Bytes)
    → IsParam (name, value)
    → pieces (encoded name value ++ rest) ≡ (encoded name value ++ (pieces rest).0, (pieces rest).1)
pieces-encoded name value rest (is_name, is_value) =
    ap pieces (append_assoc (oauth_url_encode name) (b'=' ∷ oauth_url_encode value) rest)
    ∙ no_more_ands (oauth_url_encode name) (b'=' ∷ (oauth_url_encode value ++ rest))
        (encode-IsInner name is_name)
    ∙ rw (no_more_ands (oauth_url_encode value) rest (encode-IsInner value is_value)) (
        rw (append_assoc (oauth_url_encode name) (b'=' ∷ oauth_url_encode value) (pieces rest).0)
          refl)

pieces-more :
    (params : List (Bytes × Bytes)) → All IsParam params → pieces (more params) ≡ ([], texts params)
pieces-more [] hs = refl
pieces-more ((name, value) ∷ params) (h, hs) =
    rw (pieces-encoded name value (more params) h)
      (rw (pieces-more params hs) (rw (append-nil (encoded name value)) refl))

inner_is_not_equals : (s : Bytes) → All IsInner s → All (λ ch. not (ch == b'=') ≡ true) s
inner_is_not_equals [] hs = tt
inner_is_not_equals (ch ∷ s) ((_, no_equals, _, _), hs) =
    (rw no_equals refl, inner_is_not_equals s hs)

read_pair-encoded :
    (name value : Bytes) → IsParam (name, value) → read_pair (encoded name value) ≡ (name, value)
read_pair-encoded name value (is_name, is_value) =
    rw
      (span-append (λ ch. not (ch == b'=')) (oauth_url_encode name) (b'=' ∷ oauth_url_encode value)
        (inner_is_not_equals _ (encode-IsInner name is_name)) refl)
      (rw (percent_decode-oauth_url_encode name is_name)
        (rw (percent_decode-oauth_url_encode value is_value) refl))

read_pairs-texts :
    (params : List (Bytes × Bytes)) → All IsParam params → read_pairs (texts params) ≡ params
read_pairs-texts [] hs = refl
read_pairs-texts ((name, value) ∷ params) (h, hs) =
    rw (read_pair-encoded name value h) (rw (read_pairs-texts params hs) refl)

or_first : (a b : Bool) → a ≡ true → (a || b) ≡ false → ⊥
or_first a b e h = ground arith

or_second : (a b : Bool) → a ≡ false → (a || b) ≡ false → b ≡ false
or_second a b e h = ground arith

-- The query begins behind the base.
query_lem :
    (base query : Bytes)
    → has_query base ≡ false
    → query_pairs (base ++ (b'?' ∷ query)) ≡ read_pairs ((pieces query).0 ∷ (pieces query).1)
query_lem [] query h = refl
query_lem (ch ∷ base) query h = elim (Bool-cases (ch == b'?')) [
  | inl e ↦ absurd (or_first (ch == b'?') (has_query base) e h)
  | inr e ↦ rw e (query_lem base query (or_second (ch == b'?') (has_query base) e h))
]

-- No fragment begins in the base or in what is added to it.
before_fragment-append :
    (s rest : Bytes)
    → has_fragment s ≡ false
    → before_fragment (s ++ rest) ≡ s ++ before_fragment rest
before_fragment-append [] rest h = refl
before_fragment-append (ch ∷ s) rest h = elim (Bool-cases (ch == b'#')) [
  | inl e ↦ absurd (or_first (ch == b'#') (has_fragment s) e h)
  | inr e ↦
      rw e
        (ap (◌∷◌ ch) (before_fragment-append s rest (or_second (ch == b'#') (has_fragment s) e h)))
]

has_fragment-append :
    (s t : Bytes) → has_fragment s ≡ false → has_fragment t ≡ false → has_fragment (s ++ t) ≡ false
has_fragment-append [] t h h' = h'
has_fragment-append (ch ∷ s) t h h' = ground (arith, has_fragment-append s t)

inner_is_no_fragment : (s : Bytes) → All IsInner s → has_fragment s ≡ false
inner_is_no_fragment [] hs = refl
inner_is_no_fragment (ch ∷ s) ((_, _, _, no_hash), hs) = rw no_hash (inner_is_no_fragment s hs)

has_fragment-encoded :
    (name value : Bytes) → IsParam (name, value) → has_fragment (encoded name value) ≡ false
has_fragment-encoded name value (is_name, is_value) =
    has_fragment-append (oauth_url_encode name) (b'=' ∷ oauth_url_encode value)
      (inner_is_no_fragment _ (encode-IsInner name is_name))
      (inner_is_no_fragment _ (encode-IsInner value is_value))

has_fragment-more :
    (params : List (Bytes × Bytes)) → All IsParam params → has_fragment (more params) ≡ false
has_fragment-more [] hs = refl
has_fragment-more ((name, value) ∷ params) (h, hs) =
    has_fragment-append (encoded name value) (more params) (has_fragment-encoded name value h)
      (has_fragment-more params hs)

before_fragment_same : (s : Bytes) → has_fragment s ≡ false → before_fragment s ≡ s
before_fragment_same s h =
    ap before_fragment (sym (append-nil s)) ∙ before_fragment-append s [] h ∙ append-nil s

-- Parameters added to a URL without a `?` and without a `#` are read back from its query, in their
-- order, whatever bytes their names and values have.
pub query_parameters-append_query_param :
    (base name value : Bytes) (params : List (Bytes × Bytes))
    → has_query base ≡ false
    → has_fragment base ≡ false
    → All IsParam ((name, value) ∷ params)
    → query_parameters (append_params (append_query_param base name value) params)
      ≡ (name, value) ∷ params
unfolding append_query_param
query_parameters-append_query_param base name value params h plain (is_param, hs) =
    let added = encoded name value ++ more params in
    let start : append_query_param base name value ≡ base ++ (b'?' ∷ encoded name value) =
      rw h (simp append_assoc) in
    let no_hash : has_fragment (base ++ (b'?' ∷ added)) ≡ false =
      has_fragment-append base (b'?' ∷ added) plain (
        has_fragment-append (encoded name value) (more params)
          (has_fragment-encoded name value is_param) (has_fragment-more params hs)) in
    ap (λ u. query_parameters (append_params u params)) start
    ∙ ap query_parameters (append_params-more base (encoded name value) params)
    ∙ ap query_pairs (before_fragment_same (base ++ (b'?' ∷ added)) no_hash)
    ∙ query_lem base added h
    ∙ rw (pieces-encoded name value (more params) is_param) (
        rw (pieces-more params hs) (
          rw (append-nil (encoded name value))
            (read_pairs-texts ((name, value) ∷ params) (is_param, hs))))

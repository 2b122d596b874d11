-- ===== src/Protocol/Limits/Depth.antt =====
-- What an accepted document holds, wherever one looks into it.
use cxxmcp.Prelude.{
  ℕ, zero, suc, ◌+◌, ◌≤◌, ◌<◌, ◌≡◌, sym, ap, subst, ok_injective, List, [], ◌∷◌, ok, >>=-eq-ok, All,
  Elem, All-Elem, arith, length,
}
use cxxmcp.Prelude.Dict.{Dict}
use cxxmcp.Protocol.Json.{View, null, real, boolean, integer, string, array, object, JsonApi}
use cxxmcp.Protocol.Limits.{
  Frame, Progress, add_string, add_entries, push, push_items, push_members, visit, check_depth,
  limits_loop, validate_json_document_limits, max_json_node_count,
}

abbrev pub values : {Json : Type 0} → Dict Json → List Json
values [] = []
values ((key, value) ∷ ms) = value ∷ values ms

abbrev pub children : {Json : Type 0} → View Json → List Json
children (array items) = items
children (object ms) = values ms
children _ = []

abbrev HasShortKeys : {Json : Type 0} → Dict Json → Type 0
HasShortKeys [] = Unit
HasShortKeys ((key, value) ∷ ms) = (length key ≤ 16777216) × HasShortKeys ms

-- The limits on the texts and the size of one value.
abbrev pub IsSmall : {Json : Type 0} → View Json → Type 0
IsSmall (string s) = length s ≤ 16777216
IsSmall (array items) = length items ≤ 100000
IsSmall (object ms) = (length ms ≤ 100000) × HasShortKeys ms
IsSmall _ = Unit

module _ {Json : Type 0} (api : JsonApi Json) where
  -- `z` is reached from `x` through `n` arrays and objects.
  pub data Reaches : Json → ℕ → Json → Type 0 where
    here : {x : Json} → Reaches x zero x
    inside :
        {x y z : Json} {n : ℕ}
        → Elem y (children (api.view x))
        → Reaches y n z
        → Reaches x (suc n) z

  -- What the loop has to find out about a frame.
  abbrev IsFine : Frame Json → Type 0
  IsFine f = (n : ℕ) (z : Json) → Reaches f.value n z → (f.depth + n ≤ 128) × IsSmall (api.view z)

add_string_lem :
    {Json : Type 0} (size : ℕ) (p q : Progress Json)
    → add_string size p ≡ ok q
    → (size ≤ 16777216) × (q.stack ≡ p.stack)
unfolding add_string
add_string_lem size p q h = ground arith

add_entries_lem :
    {Json : Type 0} (size : ℕ) (p q : Progress Json)
    → add_entries size p ≡ ok q
    → (size ≤ 100000) × (q.stack ≡ p.stack)
unfolding add_entries
add_entries_lem size p q h = ground arith

module _ {Json : Type 0} (P : Frame Json → Type 0) (depth : ℕ) where
  abbrev AtDepth : Json → Type 0
  AtDepth value = P (record { value = value; depth = depth })

  push_items_lem :
      (items : List Json) (p : Progress Json)
      → All P (push_items depth items p).stack
      → All AtDepth items × All P p.stack
  unfolding push_items
  push_items_lem [] p h = (tt, h)
  push_items_lem (item ∷ items) p h =
      let (later, (this, before)) = push_items_lem items (push item depth p) h in
      ((this, later), before)

  unmoved : (p q : Progress Json) → p ≡ q → All P q.stack → All P p.stack
  unmoved p q same h = subst (λ (r : Progress Json). All P r.stack) (sym same) h

  push_members_lem :
      (ms : Dict Json) (p q : Progress Json)
      → push_members depth ms p ≡ ok q
      → All P q.stack
      → HasShortKeys ms × All AtDepth (values ms) × All P p.stack
  unfolding push_members
  push_members_lem [] p q e h =
      (tt, tt, subst (λ l. All P l) (ap (λ (r : Progress Json). r.stack) (sym (same e))) h)
    where
      same : ok p ≡ ok q → p ≡ q
      same k = cc
  push_members_lem ((key, value) ∷ ms) p q e h =
      let (r, added, rest) = >>=-eq-ok (add_string (length key) p) _ q e in
      let (short, stack_same) = add_string_lem (length key) p r added in
      let (keys, held, (this, before)) = push_members_lem ms (push value depth r) q rest h in
      ((short, keys), (this, held), subst (λ l. All P l) stack_same before)

  visit_lem :
      (v : View Json) (p q : Progress Json)
      → visit v depth p ≡ ok q
      → All P q.stack
      → IsSmall v × All AtDepth (children v) × All P p.stack
  unfolding visit
  visit_lem null p q e h = (tt, tt, unmoved p q (ok_injective e) h)
  visit_lem real p q e h = (tt, tt, unmoved p q (ok_injective e) h)
  visit_lem (boolean b) p q e h = (tt, tt, unmoved p q (ok_injective e) h)
  visit_lem (integer z) p q e h = (tt, tt, unmoved p q (ok_injective e) h)
  visit_lem (string s) p q e h =
      let (short, same) = add_string_lem (length s) p q e in
      (short, tt, subst (λ l. All P l) same h)
  visit_lem (array items) p q e h =
      let (r, added, rest) = >>=-eq-ok (add_entries (length items) p) _ q e in
      let (few, same) = add_entries_lem (length items) p r added in
      let (held, before) = push_items_lem items r (unmoved _ q (ok_injective rest) h) in
      (few, held, subst (λ l. All P l) same before)
  visit_lem (object ms) p q e h =
      let (r, added, rest) = >>=-eq-ok (add_entries (length ms) p) _ q e in
      let (few, same) = add_entries_lem (length ms) p r added in
      let (keys, held, before) = push_members_lem ms r q rest h in
      ((few, keys), held, subst (λ l. All P l) same before)

module _ {Json : Type 0} (api : JsonApi Json) where
  check_depth_lem : (depth : ℕ) → check_depth depth ≡ ok tt → depth ≤ 128
  check_depth_lem depth e = ground arith

  -- A frame is fine whose own value is, and the frames of what it holds.
  frame_lem :
      (value : Json) (depth : ℕ)
      → depth ≤ 128
      → IsSmall (api.view value)
      → All (AtDepth (IsFine api) (depth + 1)) (children (api.view value))
      → IsFine api (record { value = value; depth = depth })
  frame_lem value depth low small held zero z here = (omega arith, small)
  frame_lem value depth low small held (suc n) z (inside {y = y} there rest) =
      let (deep, small') =
        All-Elem (AtDepth (IsFine api) (depth + 1)) (children (api.view value)) y held there n z
          rest in
      (omega arith, small')

  loop_lem :
      (left : ℕ) (p : Progress Json) (stack : List (Frame Json))
      → limits_loop api left p stack ≡ ok tt
      → All (IsFine api) stack
  unfolding limits_loop
  loop_lem left p [] e = tt
  loop_lem zero p (frame ∷ rest) e =
      let (_, _, e') = >>=-eq-ok (check_depth frame.depth) _ tt e in absurd (cc e')
  loop_lem (suc left) p (frame ∷ rest) e =
      let (_, shallow, e') = >>=-eq-ok (check_depth frame.depth) _ tt e in
      let (q, visited, later) =
        >>=-eq-ok (visit (api.view frame.value) (frame.depth + 1) (record p { stack = rest })) _ tt
          e' in
      let (small, held, before) =
        visit_lem (IsFine api) (frame.depth + 1) (api.view frame.value) (record p { stack = rest })
          q visited (loop_lem left q q.stack later) in
      (
        frame_lem frame.value frame.depth (check_depth_lem frame.depth (ground (arith, shallow)))
            small held,
        before,
      )

  -- A document that passes: whatever lies inside `n` arrays and objects of it has `n` below 128, a text
  -- there or a key has at most 16 MiB, and an array or object there at most 100,000 entries.
  pub validate_json_document_limits_lem :
      (document : Json)
      → validate_json_document_limits api document ≡ ok tt
      → (n : ℕ) (z : Json) → Reaches api document n z
      → (n < 128) × IsSmall (api.view z)
  unfolding validate_json_document_limits
  validate_json_document_limits_lem document e n z there =
      let (deep, small) = (loop_lem max_json_node_count _ _ e).0 n z there in (omega arith, small)

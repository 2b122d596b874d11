-- ===== src/Server/Registry/Listing.antt =====
-- Whatever was added and listed before, `list` gives each definition once, in the order of the keys.
use cxxmcp.Prelude.{
  ◌≡◌, ◌≢◌, inl, inr, refl, ◌∙◌, Bool, true, false, Bytes, bytes_eq, bytes_eq_iff, Option, none,
  some, List, [], ◌∷◌, Result, ok, err, if◌then◌else◌, All, arith, Bool-cases, Option-cases,
}
use cxxmcp.Prelude.Dict.{Dict, find, emplace, find-emplace}
use cxxmcp.Server.Registry.Catalog.{
  less, Entry, Registry, empty, insert, definitions, place, sort, list_if, list, move, add_checked,
  add, Call, adds, lists, moves, step, run,
}

less_trans : (a b c : Bytes) → less a b ≡ true → less b c ≡ true → less a c ≡ true
unfolding less
less_trans a b [] h k = ground arith
less_trans a [] (z ∷ c) h k = ground arith
less_trans [] (y ∷ b) (z ∷ c) h k = refl
less_trans (x ∷ a) (y ∷ b) (z ∷ c) h k = ground (arith, less_trans a b c)

less_total : (a b : Bytes) → less a b ≡ false → a ≢ b → less b a ≡ true
unfolding less
less_total [] [] h ne = absurd (ne refl)
less_total (x ∷ a) [] h ne = refl
less_total [] (y ∷ b) h ne = ground arith
less_total (x ∷ a) (y ∷ b) h ne = ground (arith, less_total a b)

module _ {D : Type 0} (key_of : D → Bytes) where
  abbrev pub IsAfter : D → D → Type 0
  IsAfter d x = less (key_of d) (key_of x) ≡ true

  -- Each key is below all that follow, so no key occurs twice.
  abbrev pub Ascending : List D → Type 0
  Ascending [] = Unit
  Ascending (d ∷ l) = All (IsAfter d) l × Ascending l

  -- the first definition with a key
  unfoldable pub lookup : Bytes → List D → Option D
  lookup k [] = none
  lookup k (d ∷ l) = if bytes_eq (key_of d) k then some d else lookup k l

  All-place : (P : D → Type 0) (d : D) (l : List D) → P d → All P l → All P (place key_of d l)
  unfolding place
  All-place P d [] h hs = (h, tt)
  All-place P d (x ∷ l) h (hx, hs) = elim (Bool-cases (less (key_of d) (key_of x))) [
    | inl e ↦ rw (e, place) (h, (hx, hs))
    | inr e ↦ rw (e, place) (hx, All-place P d l h hs)
  ]

  All-IsAfter : (d x : D) (l : List D) → IsAfter d x → All (IsAfter x) l → All (IsAfter d) l
  All-IsAfter d x [] h hs = tt
  All-IsAfter d x (y ∷ l) h (hy, hs) =
      (less_trans (key_of d) (key_of x) (key_of y) h hy, All-IsAfter d x l h hs)

  place-Ascending :
      (d : D) (l : List D) → lookup (key_of d) l ≡ none → Ascending l → Ascending (place key_of d l)
  unfolding place lookup
  place-Ascending d [] h a = (tt, tt)
  place-Ascending d (x ∷ l) h (ax, a) =
      let (apart, absent) = absent_parts in
      elim (Bool-cases (less (key_of d) (key_of x))) [
        | inl e ↦ rw (e, place) ((e, All-IsAfter d x l e ax), (ax, a))
        | inr e ↦
            rw (e, place)
              (
                All-place (IsAfter x) d l (less_total (key_of d) (key_of x) e apart) ax,
                place-Ascending d l absent a,
              )
      ]
    where
      absent_parts : (key_of d ≢ key_of x) × (lookup (key_of d) l ≡ none)
      absent_parts = ground (arith, h, bytes_eq_iff (key_of x) (key_of d))

  lookup-place :
      (k : Bytes) (d : D) (l : List D)
      → lookup (key_of d) l ≡ none
      → lookup k (place key_of d l) ≡ (if bytes_eq (key_of d) k then some d else lookup k l)
  unfolding place lookup
  lookup-place k d [] h = refl
  lookup-place k d (x ∷ l) h = ground (
    arith,
    lookup-place k d l,
    bytes_eq_iff (key_of x) (key_of d),
    bytes_eq_iff (key_of x) k,
    bytes_eq_iff (key_of d) k,
  )

module _ {D H : Type 0} (key_of : D → Bytes) where
  abbrev pub definition_at : Option (Entry D H) → Option D
  definition_at none = none
  definition_at (some entry) = some entry.definition

  -- Every entry stands under its definition's key, and no key occurs twice.
  abbrev pub Keyed : Dict (Entry D H) → Type 0
  Keyed [] = Unit
  Keyed ((k, entry) ∷ m) = (k ≡ key_of entry.definition) × (find k m ≡ none) × Keyed m

  sort_lem :
      (m : Dict (Entry D H))
      → Keyed m
      → Ascending key_of (sort key_of (definitions m))
        × ((k : Bytes) → lookup key_of k (sort key_of (definitions m)) ≡ definition_at (find k m))
  unfolding sort definitions lookup find
  sort_lem [] h = (tt, λ k. refl)
  sort_lem ((j, entry) ∷ m) (same, absent, h) =
      let (up, at) = sort_lem m h in
      let d = entry.definition in
      let l = sort key_of (definitions m) in
      let alone : lookup key_of (key_of d) l ≡ none = at (key_of d) ∙ rw (← same, absent) refl in
      (
        place-Ascending key_of d l alone up,
        λ k. lookup-place key_of k d l alone ∙ rw (at k, same) (choice (bytes_eq (key_of d) k) k),
      )
    where
      choice :
          (b : Bool) (k : Bytes)
          → (if b then some entry.definition else definition_at (find k m))
            ≡ definition_at (if b then some entry else find k m)
      choice true k = refl
      choice false k = refl

module _ {D H : Type 0} (key_of : D → Bytes) (check : D → Option H → Result (Unit {0}))
    (exists : Bytes) where
  record IsConsistent (r : Registry D H) : Type 0 where
    pub keyed : Keyed key_of r.entries
    pub cached : r.cache_dirty ≡ false → r.sorted_cache ≡ sort key_of (definitions r.entries)

  emplace-Keyed :
      (d : D) (h : Option H) (m : Dict (Entry D H))
      → find (key_of d) m ≡ none
      → Keyed key_of m
      → Keyed key_of (emplace (key_of d) (record { definition = d; handler = h }) m)
  unfolding emplace find
  emplace-Keyed d h [] absent k = (refl, refl, tt)
  emplace-Keyed d h ((j, w) ∷ m) absent (same, alone, k) =
      elim (Bool-cases (bytes_eq j (key_of d))) [
        | inl e ↦ rw (e, emplace) (same, alone, k)
        | inr e ↦
            rw (e, emplace)
              (
                same,
                ground (
                  arith,
                  alone,
                  e,
                  bytes_eq_iff (key_of d) j,
                  bytes_eq_iff j (key_of d),
                  find-emplace (key_of d) j (record { definition = d; handler = h }) m,
                ),
                emplace-Keyed d h m (ground (arith, absent, e)) k,
              )
      ]

  insert-IsConsistent :
      (d : D) (h : Option H) (r : Registry D H)
      → IsConsistent r
      → IsConsistent (insert (key_of d) (record { definition = d; handler = h }) exists r).0
  unfolding insert
  insert-IsConsistent d h r c = elim (Option-cases (find (key_of d) r.entries)) [
    | inl e ↦
        rw (e, insert)
          (record {
            keyed = emplace-Keyed d h r.entries e c.keyed;
            cached = λ clean. absurd (cc clean);
          })
    | inr (w, e) ↦ rw (e, insert) c
  ]

  add_checked-IsConsistent :
      (d : D) (h : Option H) (checked : Result (Unit {0})) (r : Registry D H)
      → IsConsistent r
      → IsConsistent (add_checked key_of check exists d h checked r).0
  unfolding add_checked
  add_checked-IsConsistent d h (err e) r c = c
  add_checked-IsConsistent d h (ok _) r c = insert-IsConsistent d h r c

  list_if-IsConsistent :
      (dirty : Bool) (r : Registry D H) → IsConsistent r → IsConsistent (list_if key_of dirty r).0
  unfolding list_if
  list_if-IsConsistent true r c = record { keyed = c.keyed; cached = λ clean. refl }
  list_if-IsConsistent false r c = c

  step-IsConsistent :
      (r : Registry D H) (c : Call D H)
      → IsConsistent r
      → IsConsistent (step key_of check exists r c)
  unfolding step add list move
  step-IsConsistent r (adds d h) c = add_checked-IsConsistent d h (check d h) r c
  step-IsConsistent r lists c = list_if-IsConsistent r.cache_dirty r c
  step-IsConsistent r moves c = c

  run-IsConsistent :
      (r : Registry D H) (cs : List (Call D H))
      → IsConsistent r
      → IsConsistent (run key_of check exists r cs)
  unfolding run
  run-IsConsistent r [] h = h
  run-IsConsistent r (c ∷ cs) h =
      run-IsConsistent (step key_of check exists r c) cs (step-IsConsistent r c h)

  list_if_result :
      (dirty : Bool) (r : Registry D H)
      → r.cache_dirty ≡ dirty
      → IsConsistent r
      → (list_if key_of dirty r).1 ≡ sort key_of (definitions r.entries)
  unfolding list_if
  list_if_result true r e c = refl
  list_if_result false r e c = c.cached e

  -- From an empty registry, after any additions, listings and moves: what `list` returns is in strictly
  -- ascending order of the keys, and has under each key the definition that the map holds under it, or
  -- none where the map has none; so the cache is never stale.
  pub list_is_current :
      (cs : List (Call D H))
      → let r = run key_of check exists empty cs in
        Ascending key_of (list key_of r).1
        × ((k : Bytes)
            → lookup key_of k (list key_of r).1 ≡ definition_at key_of (find k r.entries))
  unfolding list
  list_is_current cs =
      let c =
        run-IsConsistent empty cs
          (unfold empty in record { keyed = tt; cached = λ clean. absurd (cc clean) }) in
      let r = run key_of check exists empty cs in
      rw (list_if_result r.cache_dirty r refl c) (sort_lem key_of r.entries c.keyed)

-- ===== src/Prelude/Dict.antt =====
-- `std::unordered_map<std::string, V>` as an association list; the list's order stands for the
-- order, which the standard leaves open, in which a loop visits the map.

use mathlib.Core.Path.{◌≡◌, refl}
use mathlib.Core.Option.{Option, none, some}
use mathlib.Core.List.{List, [], ◌∷◌}
use native.Mathlib.Omega.{arith}
use cxxmcp.Prelude.Text.{Bytes, bytes_eq, bytes_eq_iff}
use cxxmcp.Prelude.Tests.{if◌then◌else◌}

abbrev pub Dict {ℓ} : Type ℓ → Type ℓ
Dict V = List (Bytes × V)

module _ {ℓ} {V : Type ℓ} where
  -- find
  unfoldable pub find : Bytes → Dict V → Option V
  find k [] = none
  find k ((j, v) ∷ m) = if bytes_eq j k then some v else find k m

  -- emplace: an entry that is there stays as it is
  unfoldable pub emplace : Bytes → V → Dict V → Dict V
  emplace k v [] = (k, v) ∷ []
  emplace k v ((j, w) ∷ m) = if bytes_eq j k then (j, w) ∷ m else (j, w) ∷ emplace k v m

  -- `m[k] = v`
  unfoldable pub assign : Bytes → V → Dict V → Dict V
  assign k v [] = (k, v) ∷ []
  assign k v ((j, w) ∷ m) = if bytes_eq j k then (j, v) ∷ m else (j, w) ∷ assign k v m

  -- erase by key
  unfoldable pub erase : Bytes → Dict V → Dict V
  erase k [] = []
  erase k ((j, w) ∷ m) = let rest = erase k m in if bytes_eq j k then rest else (j, w) ∷ rest

  -- `it->second = f(it->second)` through an iterator that `find` gave
  unfoldable pub update : Bytes → (V → V) → Dict V → Dict V
  update k f [] = []
  update k f ((j, w) ∷ m) = (j, if bytes_eq j k then f w else w) ∷ update k f m

  -- a loop that may change each value
  unfoldable pub map_values : (V → V) → Dict V → Dict V
  map_values f [] = []
  map_values f ((j, w) ∷ m) = (j, f w) ∷ map_values f m

  pub find-emplace :
      (k j : Bytes) (v : V) (m : Dict V)
      → find j (emplace k v m)
        ≡ (if bytes_eq k j then (elim (find k m) [ none ↦ some v | some w ↦ some w ]) else find j m)
  unfolding find emplace
  find-emplace k j v [] = refl
  find-emplace k j v ((i, w) ∷ m) =
      ground (arith, find-emplace k j v m, bytes_eq_iff k j, bytes_eq_iff i k, bytes_eq_iff i j)

  pub find-assign :
      (k j : Bytes) (v : V) (m : Dict V)
      → find j (assign k v m) ≡ (if bytes_eq k j then some v else find j m)
  unfolding find assign
  find-assign k j v [] = refl
  find-assign k j v ((i, w) ∷ m) =
      ground (arith, find-assign k j v m, bytes_eq_iff k j, bytes_eq_iff i k, bytes_eq_iff i j)

  pub find-erase :
      (k j : Bytes) (m : Dict V) → find j (erase k m) ≡ (if bytes_eq k j then none else find j m)
  unfolding find erase
  find-erase k j [] = ground arith
  find-erase k j ((i, w) ∷ m) =
      ground (arith, find-erase k j m, bytes_eq_iff k j, bytes_eq_iff i k, bytes_eq_iff i j)

  abbrev pub map_option : (V → V) → Option V → Option V
  map_option f none = none
  map_option f (some v) = some (f v)

  pub find-update :
      (k j : Bytes) (f : V → V) (m : Dict V)
      → find j (update k f m) ≡ (if bytes_eq k j then map_option f (find j m) else find j m)
  unfolding find update
  find-update k j f [] = ground arith
  find-update k j f ((i, w) ∷ m) =
      ground (arith, find-update k j f m, bytes_eq_iff k j, bytes_eq_iff i k, bytes_eq_iff i j)

  pub find-map_values :
      (f : V → V) (j : Bytes) (m : Dict V) → find j (map_values f m) ≡ map_option f (find j m)
  unfolding find map_values
  find-map_values f j [] = refl
  find-map_values f j ((i, w) ∷ m) = ground (arith, find-map_values f j m)

pub ruleset dict_laws = (find-emplace, find-erase, find-update, find-map_values)

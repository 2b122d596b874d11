-- ===== src/Server/Registry/Catalog.antt =====
-- What the four registries share: a map from keys to definitions with handlers, and a sorted cache of
-- the definitions that `list` renews when it is dirty.
use cxxmcp.Prelude.{
  Bool, true, false, ◌&&◌, ◌||◌, Bytes, Option, none, some, List, [], ◌∷◌, Result, ok, err, Error,
  ErrorCode, error_code, ltb, ◌==◌, if◌then◌else◌,
}
use cxxmcp.Prelude.Dict.{Dict, find, emplace}

-- `operator<` of `std::string`, byte by byte
unfoldable pub less : Bytes → Bytes → Bool
less s [] = false
less [] (y ∷ t) = true
less (x ∷ s) (y ∷ t) = ltb x y || (x == y && less s t)

pub record Entry (D H : Type 0) : Type 0 where
  pub definition : D
  pub handler : Option H

pub record Registry (D H : Type 0) : Type 0 where
  pub entries : Dict (Entry D H)
  pub sorted_cache : List D
  pub cache_dirty : Bool

unfoldable pub registry_error : ErrorCode → Bytes → Bytes → Error
registry_error code message detail = record {
  code = error_code code;
  message = message;
  detail = detail;
  category = [];
}

module _ {D H : Type 0} where
  unfoldable pub empty : Registry D H
  empty = record { entries = []; sorted_cache = []; cache_dirty = true }

  -- The end of each `add`, from the `emplace` on.
  unfoldable pub insert :
      Bytes → Entry D H → (exists : Bytes) → Registry D H → Registry D H × Result (Unit {0})
  insert key entry exists r = elim (find key r.entries) [
    | some _ ↦ (r, err (registry_error ErrorCode.invalid_request exists []))
    | none ↦ (record r { entries = emplace key entry r.entries; cache_dirty = true }, ok tt)
  ]

  -- the loop of `list` over the map
  unfoldable pub definitions : Dict (Entry D H) → List D
  definitions [] = []
  definitions ((key, entry) ∷ m) = entry.definition ∷ definitions m

-- `std::sort` by the key; its result is determined, for the keys are distinct.
module _ {D : Type 0} (key_of : D → Bytes) where
  unfoldable pub place : D → List D → List D
  place d [] = d ∷ []
  place d (x ∷ l) =
      let rest = place d l in if less (key_of d) (key_of x) then d ∷ x ∷ l else x ∷ rest

  unfoldable pub sort : List D → List D
  sort [] = []
  sort (d ∷ l) = place d (sort l)

module _ {D H : Type 0} (key_of : D → Bytes) where
  unfoldable pub list_if : (dirty : Bool) → Registry D H → Registry D H × List D
  list_if true r = (
    record r { sorted_cache = sort key_of (definitions r.entries); cache_dirty = false },
    sort key_of (definitions r.entries),
  )
  list_if false r = (r, r.sorted_cache)

  unfoldable pub list : Registry D H → Registry D H × List D
  list r = list_if r.cache_dirty r

module _ {D H : Type 0} where
  -- The move constructor and the move assignment: the new registry, and what is left of the old.
  unfoldable pub move : Registry D H → Registry D H × Registry D H
  move other = (other, record { entries = []; sorted_cache = []; cache_dirty = true })

module _ {D H : Type 0} (key_of : D → Bytes) (check : D → Option H → Result (Unit {0}))
    (exists : Bytes) where
  unfoldable pub add_checked :
      D → Option H → Result (Unit {0}) → Registry D H → Registry D H × Result (Unit {0})
  add_checked d h (err e) r = (r, err e)
  add_checked d h (ok _) r = insert (key_of d) (record { definition = d; handler = h }) exists r

  -- `add` of each registry, which differ in the checks before the map is looked at.
  unfoldable pub add : D → Option H → Registry D H → Registry D H × Result (Unit {0})
  add d h r = add_checked d h (check d h) r

-- The calls that can change a registry, in the order of its lock; `moves` goes on with the new one.
pub data Call (D H : Type 0) : Type 0 where
  adds : D → Option H → Call D H
  lists moves : Call D H

module _ {D H : Type 0} (key_of : D → Bytes) (check : D → Option H → Result (Unit {0}))
    (exists : Bytes) where
  unfoldable pub step : Registry D H → Call D H → Registry D H
  step r (adds d h) = (add key_of check exists d h r).0
  step r lists = (list key_of r).0
  step r moves = (move r).0

  unfoldable pub run : Registry D H → List (Call D H) → Registry D H
  run r [] = r
  run r (c ∷ cs) = run (step r c) cs

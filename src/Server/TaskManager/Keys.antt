-- ===== src/Server/TaskManager/Keys.antt =====
-- Identifiers in `order_`, and how the two collections of a table fit together.
use cxxmcp.Prelude.{
  ◌≡◌, refl, Bool, true, false, ◌||◌, Bytes, bytes_eq, bytes_eq_iff, Option, none, some, List, [],
  ◌∷◌, ◌++◌, arith, if◌then◌else◌,
}
use cxxmcp.Prelude.Dict.{find}
use cxxmcp.Server.TaskManager.State.{Table}
use cxxmcp.Server.TaskManager.Operations.{remove_id}

abbrev pub mem : Bytes → List Bytes → Bool
mem id [] = false
mem id (x ∷ xs) = bytes_eq x id || mem id xs

abbrev pub is_some {ℓ} : {A : Type ℓ} → Option A → Bool
is_some none = false
is_some (some a) = true

abbrev pub Distinct : List Bytes → Type 0
Distinct [] = Unit
Distinct (x ∷ xs) = (mem x xs ≡ false) × Distinct xs

-- `order_` names each task of `tasks_` once, and no other.
pub record IsKeyed {Json : Type 0} (t : Table Json) : Type 0 where
  pub distinct : Distinct t.order
  pub keyed : (id : Bytes) → mem id t.order ≡ is_some (find id t.tasks)

pub mem_self : (id : Bytes) (ids : List Bytes) → mem id (id ∷ ids) ≡ true
mem_self id ids = ground (arith, bytes_eq_iff id id)

pub mem-append_one :
    (j id : Bytes) (ids : List Bytes) → mem j (ids ++ id ∷ []) ≡ (mem j ids || bytes_eq id j)
mem-append_one j id [] = ground arith
mem-append_one j id (x ∷ ids) = ground (arith, mem-append_one j id ids)

pub mem-remove_id :
    (j id : Bytes) (ids : List Bytes)
    → mem j (remove_id id ids) ≡ (if bytes_eq id j then false else mem j ids)
unfolding remove_id
mem-remove_id j id [] = ground arith
mem-remove_id j id (x ∷ ids) =
    ground (arith, mem-remove_id j id ids, bytes_eq_iff x id, bytes_eq_iff x j, bytes_eq_iff id j)

pub remove_id-Distinct :
    (id : Bytes) (ids : List Bytes) → Distinct ids → Distinct (remove_id id ids)
unfolding remove_id
remove_id-Distinct id [] h = tt
remove_id-Distinct id (x ∷ ids) h =
    ground (arith, mem-remove_id x id ids, remove_id-Distinct id ids h.1)

pub append_one-Distinct :
    (id : Bytes) (ids : List Bytes) → mem id ids ≡ false → Distinct ids → Distinct (ids ++ id ∷ [])
append_one-Distinct id [] h d = (refl, tt)
append_one-Distinct id (x ∷ ids) h d = (
  ground (arith, mem-append_one x id ids, bytes_eq_iff x id, bytes_eq_iff id x),
  append_one-Distinct id ids (ground arith) d.1,
)

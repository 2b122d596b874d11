-- ===== src/Server/TaskManager/Invariant.antt =====
-- What holds of every reachable processor.
use cxxmcp.Prelude.{
  ℕ, ◌≤◌, ◌<◌, ◌≡◌, inl, inr, ap, true, Bytes, text, bytes_eq, bytes_eq_iff, Option, none, some,
  arith, drop, Error, Bool-cases, Option-cases,
}
use cxxmcp.Prelude.Decimal.{to_string}
use cxxmcp.Prelude.Dict.{find, update, map_values, find-update, find-map_values}
use cxxmcp.Server.TaskManager.State.{
  TaskStatus, working, input_required, completed, failed, cancelled, TaskRecord, Options, Table,
  Processor,
}
use cxxmcp.Server.TaskManager.Cursor.{parse_task_list_cursor, parse-to_string}
use cxxmcp.Server.TaskManager.Trim.{trim_completed}
use cxxmcp.Server.TaskManager.Operations.{task_id_at}
use cxxmcp.Server.TaskManager.Keys.{is_some, IsKeyed}
use cxxmcp.Server.TaskManager.Trimmed.{trim_completed-IsKeyed, trim_completed-Survives}

-- What the status says of the rest of the record.
abbrev pub Phase : {Json : Type 0} → TaskStatus → Option ℕ → Option Json → Option Error → Type 0
Phase working since result failure = (since ≡ none) × (result ≡ none) × (failure ≡ none)
Phase input_required since result failure = ⊥
Phase completed since result failure =
    (is_some since ≡ true) × (is_some result ≡ true) × (failure ≡ none)
Phase failed since result failure =
    (is_some since ≡ true) × (result ≡ none) × (is_some failure ≡ true)
Phase cancelled since result failure =
    (is_some since ≡ true) × (result ≡ none) × (is_some failure ≡ true)

abbrev pub InPhase : {Json : Type 0} → Bytes → TaskRecord Json → Type 0
InPhase id r = (r.task.task_id ≡ id) × Phase r.task.status r.terminal_at r.result r.failure

abbrev pub index_limit : ℕ
index_limit = 18446744073709551616

pub record IsSound {Json : Type 0} (p : Processor Json) : Type 0 where
  pub keyed : IsKeyed p.table
  pub phases : (id : Bytes) (r : TaskRecord Json) → find id p.tasks ≡ some r → InPhase id r
  pub fresh : (n : ℕ) → p.next_task_index ≤ n → n < index_limit → find (task_id_at n) p.tasks ≡ none

-- Distinct indices give distinct identifiers.
pub task_id_at_injective :
    (m n : ℕ) → m < index_limit → n < index_limit → task_id_at m ≡ task_id_at n → m ≡ n
unfolding task_id_at text
task_id_at_injective m n hm hn e =
    let same : to_string m ≡ to_string n = ap (drop 5) e in
    ground (
      arith,
      parse-to_string m (omega arith),
      parse-to_string n (omega arith),
      ap (λ s. parse_task_list_cursor (some s)) same,
    )

module _ {Json : Type 0} where
  abbrev pub TableSound : ℕ → Table Json → Type 0
  TableSound next t =
      IsKeyed t
      × ((id : Bytes) (r : TaskRecord Json) → find id t.tasks ≡ some r → InPhase id r)
      × ((n : ℕ) → next ≤ n → n < index_limit → find (task_id_at n) t.tasks ≡ none)

  pub trim-TableSound :
      (next : ℕ) (o : Options) (now : ℕ) (t : Table Json)
      → TableSound next t
      → TableSound next (trim_completed o now t)
  trim-TableSound next o now t (k, ph, fr) = (
    trim_completed-IsKeyed o now t k,
    λ id r e. ph id r (ground (arith, trim_completed-Survives o now t k id)),
    λ n le lt. ground (arith, trim_completed-Survives o now t k (task_id_at n), fr n le lt),
  )

  pub IsKeyed-map_values :
      (f : TaskRecord Json → TaskRecord Json) (t : Table Json)
      → IsKeyed t
      → IsKeyed (record t { tasks = map_values f t.tasks })
  IsKeyed-map_values f t k = record {
    distinct = k.distinct;
    keyed = λ id. ground (arith, k.keyed id, find-map_values f id t.tasks);
  }

  pub IsKeyed-update :
      (id : Bytes) (f : TaskRecord Json → TaskRecord Json) (t : Table Json)
      → IsKeyed t
      → IsKeyed (record t { tasks = update id f t.tasks })
  IsKeyed-update id f t k = record {
    distinct = k.distinct;
    keyed = λ j. ground (arith, k.keyed j, find-update id j f t.tasks, bytes_eq_iff id j);
  }

  pub map-TableSound :
      (next : ℕ) (f : TaskRecord Json → TaskRecord Json) (t : Table Json)
      → ((id : Bytes) (r : TaskRecord Json) → InPhase id r → InPhase id (f r))
      → TableSound next t
      → TableSound next (record t { tasks = map_values f t.tasks })
  map-TableSound next f t keep (k, ph, fr) = (
    IsKeyed-map_values f t k,
    λ id r e. elim (Option-cases (find id t.tasks)) [
      | inl missing ↦ absurd (ground (arith, find-map_values f id t.tasks))
      | inr (r0, there) ↦
          let same : f r0 ≡ r = ground (arith, find-map_values f id t.tasks) in
          rw (← same) (keep id r0 (ph id r0 there))
    ],
    λ n le lt. ground (arith, find-map_values f (task_id_at n) t.tasks, fr n le lt),
  )

  pub update-TableSound :
      (next : ℕ) (id : Bytes) (f : TaskRecord Json → TaskRecord Json) (t : Table Json)
      (r : TaskRecord Json)
      → find id t.tasks ≡ some r
      → InPhase id (f r)
      → TableSound next t
      → TableSound next (record t { tasks = update id f t.tasks })
  update-TableSound next id f t r there keep (k, ph, fr) = (
    IsKeyed-update id f t k,
    λ j s e. elim (Bool-cases (bytes_eq id j)) [
      | inr other ↦ ph j s (ground (arith, find-update id j f t.tasks))
      | inl here ↦
          let e1 : id ≡ j = (bytes_eq_iff id j).0 here in
          let same : f r ≡ s = ground (arith, find-update id j f t.tasks) in rw (← e1, ← same) keep
    ],
    λ n le lt. ground (
      arith,
      find-update id (task_id_at n) f t.tasks,
      bytes_eq_iff id (task_id_at n),
      fr n le lt,
    ),
  )

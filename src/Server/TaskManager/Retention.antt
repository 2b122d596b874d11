-- ===== src/Server/TaskManager/Retention.antt =====
-- Which terminal tasks `trim_completed_locked` keeps.
use cxxmcp.Prelude.{
  ℕ, suc, ◌-◌, ◌≤◌, ◌≡◌, refl, ap, ◌∙◌, false, inl, inr, Bool-cases, Bytes, bytes_eq_iff, List, [],
  ◌∷◌, arith, if◌then◌else◌, drop, length, length-drop, ltb,
}
use cxxmcp.Prelude.Dict.{Dict, find, erase, find-erase}
use cxxmcp.Server.TaskManager.State.{TaskRecord, Options, Table}
use cxxmcp.Server.TaskManager.Trim.{
  is_terminal_at, count_terminal, trim_excess, trim_completed, trim_aged, trim_to,
}
use cxxmcp.Server.TaskManager.Keys.{mem, Distinct, IsKeyed}
use cxxmcp.Server.TaskManager.Trimmed.{trim_aged_lem}

module _ {Json : Type 0} where
  -- The terminal tasks, oldest submission first.
  abbrev pub terminal_ids : List Bytes → Dict (TaskRecord Json) → List Bytes
  terminal_ids [] tasks = []
  terminal_ids (id ∷ ids) tasks =
      let rest = terminal_ids ids tasks in
      if is_terminal_at (find id tasks) then id ∷ rest else rest

  count_is_length :
      (ids : List Bytes) (tasks : Dict (TaskRecord Json))
      → count_terminal ids tasks ≡ length (terminal_ids ids tasks)
  unfolding count_terminal
  count_is_length [] tasks = refl
  count_is_length (id ∷ ids) tasks = ground (arith, count_is_length ids tasks)

  terminal_ids-erase :
      (id : Bytes) (ids : List Bytes) (tasks : Dict (TaskRecord Json))
      → mem id ids ≡ false
      → terminal_ids ids (erase id tasks) ≡ terminal_ids ids tasks
  terminal_ids-erase id [] tasks h = refl
  terminal_ids-erase id (x ∷ ids) tasks h = ground (
    arith,
    terminal_ids-erase id ids tasks,
    find-erase id x tasks,
    bytes_eq_iff id x,
    bytes_eq_iff x id,
  )

  trim_excess_elsewhere :
      (limit count : ℕ) (j : Bytes) (ids : List Bytes) (tasks : Dict (TaskRecord Json))
      → mem j ids ≡ false
      → find j (trim_excess limit count ids tasks).tasks ≡ find j tasks
  unfolding trim_excess
  trim_excess_elsewhere limit count j [] tasks h = refl
  trim_excess_elsewhere limit count j (id ∷ ids) tasks h = ground (
    arith,
    trim_excess_elsewhere limit (count - 1) j ids (erase id tasks),
    trim_excess_elsewhere limit count j ids tasks,
    find-erase id j tasks,
    bytes_eq_iff id j,
  )

  drop_excess :
      (limit count : ℕ) (ids : List Bytes) (tasks : Dict (TaskRecord Json))
      → Distinct ids
      → count ≡ length (terminal_ids ids tasks)
      → terminal_ids
          (trim_excess limit count ids tasks).order
          (trim_excess limit count ids tasks).tasks
        ≡ drop (count - limit) (terminal_ids ids tasks)
  unfolding trim_excess
  drop_excess limit count [] tasks d e = ground arith
  drop_excess limit count (id ∷ ids) tasks d e = elim (Bool-cases (ltb limit count)) [
    | inr done ↦ let z : count - limit ≡ 0 = ground arith in rw (done, z)
    | inl more ↦ elim (Bool-cases (is_terminal_at (find id tasks))) [
      | inl gone ↦
          let z : count - limit ≡ suc (count - 1 - limit) = ground arith in
          rw (more, gone, z)
            (drop_excess limit (count - 1) ids (erase id tasks) d.1
                (ground (arith, terminal_ids-erase id ids tasks d.0))
              ∙ ap (drop (count - 1 - limit)) (terminal_ids-erase id ids tasks d.0))
      | inr kept ↦
          rw (more, kept)
            (rw (trim_excess_elsewhere limit count id ids tasks d.0, kept)
              (drop_excess limit count ids tasks d.1 (ground arith)))
    ]
  ]

  trim_to_drops :
      (limit : ℕ) (t : Table Json)
      → Distinct t.order
      → terminal_ids (trim_to limit t).order (trim_to limit t).tasks
        ≡ drop (length (terminal_ids t.order t.tasks) - limit) (terminal_ids t.order t.tasks)
  trim_to_drops limit t d =
      rw (count_is_length t.order t.tasks)
        (drop_excess limit (length (terminal_ids t.order t.tasks)) t.order t.tasks d refl)

  trim_to_limit :
      (limit : ℕ) (t : Table Json)
      → Distinct t.order
      → length (terminal_ids (trim_to limit t).order (trim_to limit t).tasks) ≤ limit
  trim_to_limit limit t d = rw (trim_to_drops limit t d) (
      omega (
        arith,
        length-drop (length (terminal_ids t.order t.tasks) - limit) (terminal_ids t.order t.tasks),
      ))

  -- In a table whose order list names each task once: after `trim_completed_locked`, the terminal tasks are those that the age limit left, without
  -- the oldest submissions in excess of `max_completed_tasks`; so their number is within the limit.
  pub trim_completed_keeps_newest :
      (o : Options) (now : ℕ) (t : Table Json)
      → IsKeyed t
      → let aged = trim_aged o.completed_task_ttl now t in
        let kept = trim_completed o now t in
        let old = terminal_ids aged.order aged.tasks in
        (terminal_ids kept.order kept.tasks ≡ drop (length old - o.max_completed_tasks) old)
        × (length (terminal_ids kept.order kept.tasks) ≤ o.max_completed_tasks)
  unfolding trim_completed
  trim_completed_keeps_newest o now t k =
      let aged = trim_aged o.completed_task_ttl now t in
      let d = (trim_aged_lem o.completed_task_ttl now t k).0.distinct in
      (trim_to_drops o.max_completed_tasks aged d, trim_to_limit o.max_completed_tasks aged d)

-- ===== src/Server/TaskManager/Cancelling.antt =====
-- What `tasks/cancel` answers.
use cxxmcp.Prelude.{
  ℕ, ◌+◌, ◌≤◌, ◌<◌, ◌≡◌, inl, inr, refl, ◌∙◌, true, false, Bytes, bytes_eq_iff, none, some, List,
  [], ◌∷◌, arith, ok, Bool-cases, Option-cases, length,
}
use cxxmcp.Prelude.Dict.{Dict, find, update, find-update}
use cxxmcp.Server.TaskManager.State.{TaskRecord, cancelled, Table, Processor, Readings, is_terminal}
use cxxmcp.Server.TaskManager.Trim.{is_terminal_at, count_terminal, trim_completed, trim_excess}
use cxxmcp.Server.TaskManager.Operations.{refreshed, reply, dangling}
use cxxmcp.Server.TaskManager.Methods.{cancel_task, cancel_found, cancel_record}
use cxxmcp.Server.TaskManager.Keys.{mem, Distinct, IsKeyed}
use cxxmcp.Server.TaskManager.Trimmed.{trim_completed-IsKeyed, trim_completed-Survives}
use cxxmcp.Server.TaskManager.Retention.{terminal_ids, trim_completed_keeps_newest}
use cxxmcp.Server.TaskManager.Invariant.{IsSound, IsKeyed-update}
use cxxmcp.Server.TaskManager.Soundness.{refresh-IsSound}

module _ {Json : Type 0} where
  terminal_listed :
      (id : Bytes) (ids : List Bytes) (tasks : Dict (TaskRecord Json))
      → mem id ids ≡ true
      → is_terminal_at (find id tasks) ≡ true
      → mem id (terminal_ids ids tasks) ≡ true
  terminal_listed id [] tasks h k = h
  terminal_listed id (x ∷ ids) tasks h k =
      ground (arith, bytes_eq_iff x id, terminal_listed id ids tasks)

  no_terminal_left :
      (id : Bytes) (t : Table Json)
      → IsKeyed t
      → length (terminal_ids t.order t.tasks) ≤ 0
      → is_terminal_at (find id t.tasks) ≡ false
  unfolding is_terminal_at
  no_terminal_left id t k h = elim (Option-cases (find id t.tasks)) [
    | inl e ↦ rw (e, is_terminal_at)
    | inr (r, e) ↦ elim (Bool-cases (is_terminal_at (find id t.tasks))) [
      | inr fine ↦ fine
      | inl terminal ↦ absurd (
          none_listed (terminal_ids t.order t.tasks) h
            (terminal_listed id t.order t.tasks (k.keyed id ∙ rw e) terminal))
    ]
  ]
    where
      none_listed : (l : List Bytes) → length l ≤ 0 → mem id l ≡ true → ⊥
      none_listed [] h m = cc
      none_listed (x ∷ l) h m = omega arith

  cancelled_is_terminal :
      (c : Readings) (id : Bytes) (r : TaskRecord Json)
      → is_terminal_at (some (cancel_record c id r)) ≡ true
  unfolding cancel_record is_terminal_at is_terminal
  cancelled_is_terminal c id r = refl

  cancelled_there :
      (p : Processor Json) (id : Bytes) (c : Readings) (r : TaskRecord Json)
      → find id p.tasks ≡ some r
      → find id (update id (cancel_record c id) p.tasks) ≡ some (cancel_record c id r)
  cancelled_there p id c r e =
      ground (arith, find-update id id (cancel_record c id) p.tasks, bytes_eq_iff id id)

  cancelled_dropped :
      (p : Processor Json) (id : Bytes) (c : Readings) (r : TaskRecord Json)
      → IsSound p
      → p.options.max_completed_tasks ≡ 0
      → find id p.tasks ≡ some r
      → find id (cancel_found p id c).tasks ≡ none
  unfolding cancel_found
  cancelled_dropped p id c r h zero_kept e =
      let t : Table Json = record (p.table) { tasks = update id (cancel_record c id) p.tasks } in
      let k : IsKeyed t = IsKeyed-update id (cancel_record c id) p.table h.keyed in
      let kept = trim_completed-IsKeyed p.options c.trim_now t k in
      let few = (trim_completed_keeps_newest p.options c.trim_now t k).1 in
      ground (
        arith,
        no_terminal_left id (trim_completed p.options c.trim_now t) kept
            (omega (arith, few, zero_kept)),
        trim_completed-Survives p.options c.trim_now t k id,
        cancelled_there p id c r e,
        cancelled_is_terminal c id r,
      )

  -- In a sound processor that is configured to keep no completed tasks, `tasks/cancel` of a task that has
  -- not ended reads the record after the trim has erased it.
  pub cancel_dangles :
      (p : Processor Json) (id : Bytes) (c c' : Readings) (r : TaskRecord Json)
      → IsSound p
      → p.options.max_completed_tasks ≡ 0
      → find id (refreshed p c).tasks ≡ some r
      → is_terminal r.task.status ≡ false
      → (cancel_task p id c c').2 ≡ dangling
  unfolding cancel_task
  cancel_dangles p id c c' r h zero_kept e live =
      rw (e, cancel_task, live)
        (rw (cancelled_dropped (refreshed p c) id c' r (refresh-IsSound p c h) zero_kept e))

  count-update :
      (id : Bytes) (f : TaskRecord Json → TaskRecord Json) (ids : List Bytes)
      (tasks : Dict (TaskRecord Json))
      → Distinct ids
      → (count_terminal ids (update id f tasks) ≤ count_terminal ids tasks + 1)
        × (mem id ids ≡ false → count_terminal ids (update id f tasks) ≡ count_terminal ids tasks)
  unfolding count_terminal
  count-update id f [] tasks d = (omega arith, λ _. refl)
  count-update id f (x ∷ ids) tasks d =
      let (some_more, same) = count-update id f ids tasks d.1 in
      (
        ground (arith, find-update id x f tasks, bytes_eq_iff id x, d.0),
        λ absent. ground (arith, find-update id x f tasks, bytes_eq_iff id x, bytes_eq_iff x id),
      )

  within_limit :
      (limit count : ℕ) (ids : List Bytes) (tasks : Dict (TaskRecord Json))
      → count ≤ limit
      → trim_excess limit count ids tasks ≡ record { tasks = tasks; order = ids }
  unfolding trim_excess
  within_limit limit count [] tasks h = refl
  within_limit limit count (x ∷ ids) tasks h = ground arith

  cancelled_kept :
      (p : Processor Json) (id : Bytes) (c : Readings) (r : TaskRecord Json)
      → IsSound p
      → p.options.completed_task_ttl ≡ none
      → count_terminal p.order p.tasks < p.options.max_completed_tasks
      → find id p.tasks ≡ some r
      → find id (cancel_found p id c).tasks ≡ some (cancel_record c id r)
  unfolding cancel_found trim_completed
  cancelled_kept p id c r h forever room e =
      let more = count-update id (cancel_record c id) p.order p.tasks h.keyed.distinct in
      rw
        (
          forever,
          within_limit p.options.max_completed_tasks
              (count_terminal p.order (update id (cancel_record c id) p.tasks)) p.order
              (update id (cancel_record c id) p.tasks) (omega (arith, more.0)),
        )
        (cancelled_there p id c r e)

  -- In a sound processor where terminal tasks have no age limit and the table has room for one more, `tasks/cancel` of
  -- a task that has not ended answers with its snapshot as cancelled, and the table holds that
  -- record, with its token cancelled.
  pub cancel_replies :
      (p : Processor Json) (id : Bytes) (c c' : Readings) (r : TaskRecord Json)
      → IsSound p
      → p.options.completed_task_ttl ≡ none
      → count_terminal (refreshed p c).order (refreshed p c).tasks < p.options.max_completed_tasks
      → find id (refreshed p c).tasks ≡ some r
      → is_terminal r.task.status ≡ false
      → (s : TaskRecord Json) × ((cancel_task p id c c').2 ≡ reply (ok s.task))
        × (find id (cancel_task p id c c').0.tasks ≡ some s)
        × (s.task.status ≡ cancelled)
        × (s.cancellation ≡ true)
  unfolding cancel_task
  cancel_replies p id c c' r h forever room e live =
      let there = cancelled_kept (refreshed p c) id c' r (refresh-IsSound p c h) forever room e in
      (
        cancel_record c' id r,
        rw (e, cancel_task, live) (rw there),
        rw (e, cancel_task, live) there,
        unfold cancel_record in refl,
        unfold cancel_record in refl,
      )

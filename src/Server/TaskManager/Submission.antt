-- ===== src/Server/TaskManager/Submission.antt =====
-- What `submit_operation` does, accepted or refused.
use cxxmcp.Prelude.{
  ℕ, ◌<◌, ◌≡◌, ◌≢◌, refl, ap, ◌∙◌, Bool, true, false, Bytes, bytes_eq_iff, bytes_eq_refl, Option,
  none, some, List, [], ◌∷◌, ◌++◌, arith, Result, ok, err, Error, ℤ,
}
use cxxmcp.Prelude.Dict.{Dict, find, emplace, erase, find-emplace, find-erase}
use cxxmcp.Core.Executor.{Executor, enqueue, post}
use cxxmcp.Server.TaskManager.State.{
  TaskRecord, Task, Table, Processor, Job, ProgressToken, working,
}
use cxxmcp.Server.TaskManager.Operations.{
  task_id_at, remove_id, task_of, register_task, job_for, enqueue_job, withdraw_task, Descriptor,
}
use cxxmcp.Server.TaskManager.Methods.{submit_queued, submit_made, submit_operation}
use cxxmcp.Server.TaskManager.Keys.{mem, is_some}
use cxxmcp.Server.TaskManager.Invariant.{IsSound, index_limit}
use cxxmcp.Server.TaskManager.Soundness.{task_of_is_working}

remove_absent : (id : Bytes) (ids : List Bytes) → mem id ids ≡ false → remove_id id ids ≡ ids
unfolding remove_id
remove_absent id [] h = refl
remove_absent id (x ∷ ids) h = ground (arith, remove_absent id ids)

remove_added :
    (id : Bytes) (ids : List Bytes) → mem id ids ≡ false → remove_id id (ids ++ id ∷ []) ≡ ids
unfolding remove_id
remove_added id [] h = ground (arith, bytes_eq_refl id)
remove_added id (x ∷ ids) h = ground (arith, remove_added id ids)

enqueue_accepts :
    (e : Executor Job) (job : Job)
    → (enqueue e (some job)).1 ≡ ok tt
    → (enqueue e (some job)).0.default_queue ≡ e.default_queue ++ job ∷ []
unfolding enqueue post
enqueue_accepts e job h = ground arith

module _ {Json : Type 0} where
  -- The same tasks, in the same order.
  abbrev pub SameTasks : Table Json → Table Json → Type 0
  SameTasks t u = (u.order ≡ t.order) × ((id : Bytes) → find id u.tasks ≡ find id t.tasks)

  erase_added :
      (id j : Bytes) (rec : TaskRecord Json) (m : Dict (TaskRecord Json))
      → find id m ≡ none
      → find j (erase id (emplace id rec m)) ≡ find j m
  erase_added id j rec m h =
      ground (arith, find-erase id j (emplace id rec m), find-emplace id j rec m, bytes_eq_iff id j)

  pub find_added :
      (id : Bytes) (rec : TaskRecord Json) (m : Dict (TaskRecord Json))
      → find id m ≡ none
      → find id (emplace id rec m) ≡ some rec
  find_added id rec m h = ground (arith, find-emplace id id rec m, bytes_eq_refl id)

  find_beside :
      (id j : Bytes) (rec : TaskRecord Json) (m : Dict (TaskRecord Json))
      → j ≢ id
      → find j (emplace id rec m) ≡ find j m
  find_beside id j rec m ne = ground (arith, find-emplace id j rec m, bytes_eq_iff id j)

  pub unused_id :
      (p : Processor Json)
      → IsSound p
      → p.next_task_index < index_limit
      → (find (task_id_at p.next_task_index) p.tasks ≡ none)
        × (mem (task_id_at p.next_task_index) p.order ≡ false)
  unused_id p h room =
      let e = h.fresh p.next_task_index (omega arith) room in
      (e, h.keyed.keyed (task_id_at p.next_task_index) ∙ ap is_some e)

  withdraw_undoes :
      (p : Processor Json) (task : Task Json) (token : Option ProgressToken) (timeout : ℤ)
      (started_at : ℕ)
      → IsSound p
      → p.next_task_index < index_limit
      → let q = register_task p task token timeout started_at in
        SameTasks p.table
          (withdraw_task (enqueue_job q.0 (job_for q.0 q.1.task_id)).0 q.1.task_id).table
  unfolding register_task withdraw_task enqueue_job
  withdraw_undoes p task token timeout started_at h room =
      let (unused, absent) = unused_id p h room in
      (
        remove_added (task_id_at p.next_task_index) p.order absent,
        λ id. erase_added (task_id_at p.next_task_index) id _ p.tasks unused,
      )

  refused_queued :
      (d : Descriptor) (p : Processor Json) (task : Task Json) (queued : Result (Unit {0}))
      (e : Error)
      → (submit_queued d p task queued).2 ≡ err e
      → submit_queued d p task queued ≡ (withdraw_task p task.task_id, [], err e)
  unfolding submit_queued
  refused_queued d p task (err e') e refused = ground arith
  refused_queued d p task (ok _) e refused = ground arith

  refused_made :
      (p : Processor Json) (d : Descriptor) (started_at : ℕ) (made : Result (Task Json × ℤ))
      (e : Error)
      → IsSound p
      → p.next_task_index < index_limit
      → (submit_made p d started_at made).2 ≡ err e
      → SameTasks p.table (submit_made p d started_at made).0.table
        × ((submit_made p d started_at made).1 ≡ [])
  unfolding submit_made
  refused_made p d started_at (err e') e h room refused = ((refl, λ id. refl), refl)
  refused_made p d started_at (ok (blank, timeout)) e h room refused =
      rw (refused_queued d _ _ _ e refused)
        (withdraw_undoes p blank d.progress_token timeout started_at h room, refl)

  -- With no other thread between its lock sections, in a sound processor with identifiers left, a submission that is refused, for a handler that cannot be called, a negative time to live or an
  -- executor that takes no more, leaves the tasks and their order as they were, and emits nothing.
  pub submit_refused :
      (empty_object : Json) (p : Processor Json) (d : Descriptor) (callable : Bool)
      (timestamp : Bytes) (started_at : ℕ) (e : Error)
      → IsSound p
      → p.next_task_index < index_limit
      → (submit_operation empty_object p d callable timestamp started_at).2 ≡ err e
      → SameTasks p.table (submit_operation empty_object p d callable timestamp started_at).0.table
        × ((submit_operation empty_object p d callable timestamp started_at).1 ≡ [])
  unfolding submit_operation
  submit_refused empty_object p d false timestamp started_at e h room refused =
      ((refl, λ id. refl), refl)
  submit_refused empty_object p d true timestamp started_at e h room refused =
      refused_made p d started_at _ e h room refused

  pub accepted_queued :
      (d : Descriptor) (p : Processor Json) (task task' : Task Json) (queued : Result (Unit {0}))
      → (submit_queued d p task queued).2 ≡ ok task'
      → (queued ≡ ok tt) × (task' ≡ task) × ((submit_queued d p task queued).0 ≡ p)
  unfolding submit_queued
  accepted_queued d p task task' (err e') accepted = ground arith
  accepted_queued d p task task' (ok _) accepted = (refl, ground arith, refl)

  -- What an accepted submission leaves: the task under an identifier that was not in use, recorded as
  -- working, last in the order, and the job with the task's own token last in the executor's queue.
  pub record IsAccepted (p p' : Processor Json) (task : Task Json) : Type 0 where
    pub fresh : find task.task_id p.tasks ≡ none
    pub starts_working : task.status ≡ working
    pub recorded : (r : TaskRecord Json) × (find task.task_id p'.tasks ≡ some r) × (r.task ≡ task)
    pub others : (id : Bytes) → id ≢ task.task_id → find id p'.tasks ≡ find id p.tasks
    pub in_order : p'.order ≡ p.order ++ task.task_id ∷ []
    pub is_queued :
        p'.executor.default_queue
        ≡ p.executor.default_queue ++ record { task_id = task.task_id; cancellable = true } ∷ []

  job_of_registered :
      (p : Processor Json) (task : Task Json) (token : Option ProgressToken) (timeout : ℤ)
      (started_at : ℕ)
      → find (task_id_at p.next_task_index) p.tasks ≡ none
      → job_for (register_task p task token timeout started_at).0 (task_id_at p.next_task_index)
        ≡ record { task_id = task_id_at p.next_task_index; cancellable = true }
  unfolding register_task job_for
  job_of_registered p task token timeout started_at unused =
      rw (find_added (task_id_at p.next_task_index) _ p.tasks unused) refl

  enqueued-IsAccepted :
      (p : Processor Json) (blank : Task Json) (token : Option ProgressToken) (timeout : ℤ)
      (started_at : ℕ)
      → blank.status ≡ working
      → IsSound p
      → p.next_task_index < index_limit
      → let (p1, task) = register_task p blank token timeout started_at in
        let q = enqueue_job p1 (job_for p1 task.task_id) in q.1 ≡ ok tt → IsAccepted p q.0 task
  unfolding register_task enqueue_job
  enqueued-IsAccepted p blank token timeout started_at blank_working h room queued =
      let id = task_id_at p.next_task_index in
      record {
        fresh = (unused_id p h room).0;
        starts_working = blank_working;
        recorded = (_, find_added id _ p.tasks (unused_id p h room).0, refl);
        others = λ j ne. find_beside id j _ p.tasks ne;
        in_order = refl;
        is_queued =
            enqueue_accepts p.executor _ queued
            ∙ rw (job_of_registered p blank token timeout started_at (unused_id p h room).0) refl;
      }

  IsAccepted-made :
      (p : Processor Json) (d : Descriptor) (started_at : ℕ) (blank : Task Json) (timeout : ℤ)
      (task : Task Json)
      → blank.status ≡ working
      → IsSound p
      → p.next_task_index < index_limit
      → (submit_made p d started_at (ok (blank, timeout))).2 ≡ ok task
      → IsAccepted p (submit_made p d started_at (ok (blank, timeout))).0 task
  unfolding submit_made register_task enqueue_job job_for
  IsAccepted-made p d started_at blank timeout task blank_working h room accepted =
      let (queued, same, at) = accepted_queued d _ _ task _ accepted in
      rw (at, same)
        (enqueued-IsAccepted p blank d.progress_token timeout started_at blank_working h room
          queued)

  IsAccepted-from :
      (empty_object : Json) (p : Processor Json) (d : Descriptor) (timestamp : Bytes)
      (started_at : ℕ) (task : Task Json) (made : Result (Task Json × ℤ))
      → task_of empty_object p.options d timestamp ≡ made
      → IsSound p
      → p.next_task_index < index_limit
      → (submit_made p d started_at made).2 ≡ ok task
      → IsAccepted p (submit_made p d started_at made).0 task
  unfolding submit_made
  IsAccepted-from empty_object p d timestamp started_at task (err e) is_made h room accepted =
      ground arith
  IsAccepted-from empty_object p d timestamp started_at task (ok (blank, timeout)) is_made h room
        accepted =
      IsAccepted-made p d started_at blank timeout task
        (task_of_is_working empty_object p.options d timestamp blank timeout is_made) h room
        accepted

  -- With no other thread between its lock sections, in a sound processor with identifiers left, a submission that returns a task has a handler that can
  -- be called, and leaves the task under an identifier that was not in use, recorded as working and
  -- last in the order, the other records as they were, and its job, with the task's own cancellation
  -- token, last in the executor's default queue.
  pub submit-IsAccepted :
      (empty_object : Json) (p : Processor Json) (d : Descriptor) (callable : Bool)
      (timestamp : Bytes) (started_at : ℕ) (task : Task Json)
      → IsSound p
      → p.next_task_index < index_limit
      → (submit_operation empty_object p d callable timestamp started_at).2 ≡ ok task
      → (callable ≡ true)
        × IsAccepted p (submit_operation empty_object p d callable timestamp started_at).0 task
  unfolding submit_operation
  submit-IsAccepted empty_object p d false timestamp started_at task h room accepted = ground arith
  submit-IsAccepted empty_object p d true timestamp started_at task h room accepted =
      (refl, IsAccepted-from empty_object p d timestamp started_at task _ refl h room accepted)

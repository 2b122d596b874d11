-- ===== src/Server/TaskManager/LongTtl.antt =====
-- A submission with a time to live that its conversion to nanoseconds does not hold.
use cxxmcp.Prelude.{
  ℕ, ◌≤◌, ◌<◌, ◌≡◌, refl, ap, ◌∙◌, inl, inr, true, Bytes, bytes_eq, bytes_eq_iff, some, arith, ℤ,
  pos, ok, err, Result, Bool-cases, [], ◌∷◌, ◌++◌,
}
use cxxmcp.Prelude.Dict.{find}
use cxxmcp.Server.TaskManager.State.{working, TaskRecord, Task, Processor, Readings}
use cxxmcp.Server.TaskManager.Operations.{
  task_id_at, task_of, register_task, job_for, enqueue_job, refreshed, Descriptor,
}
use cxxmcp.Server.TaskManager.Methods.{submit_made, submit_operation}
use cxxmcp.Server.TaskManager.Keys.{mem, is_some, IsKeyed, append_one-Distinct, mem-append_one}
use cxxmcp.Server.TaskManager.Invariant.{IsSound, index_limit}
use cxxmcp.Server.TaskManager.Submission.{
  find_added, unused_id, accepted_queued, IsAccepted, submit-IsAccepted,
}
use cxxmcp.Server.TaskManager.Timeouts.{TimedOutOrGone, long_is_timed_out, refreshed_due}

module _ {Json : Type 0} where
  keyed_added :
      (p p' : Processor Json) (task : Task Json) (j : Bytes)
      → IsKeyed p.table
      → IsAccepted p p' task
      → mem j (p.order ++ task.task_id ∷ []) ≡ is_some (find j p'.tasks)
  keyed_added p p' task j k a = elim (Bool-cases (bytes_eq task.task_id j)) [
    | inl here ↦
        ground
          (arith, mem-append_one j task.task_id p.order, bytes_eq_iff task.task_id j, a.recorded)
    | inr other ↦
        let kept : find j p'.tasks ≡ find j p.tasks =
          a.others j (λ e. absurd (ground (arith, bytes_eq_iff task.task_id j))) in
        ground (arith, mem-append_one j task.task_id p.order, k.keyed j)
  ]

  IsKeyed-of_IsAccepted :
      (p p' : Processor Json) (task : Task Json)
      → IsKeyed p.table
      → IsAccepted p p' task
      → IsKeyed p'.table
  IsKeyed-of_IsAccepted p p' task k a = record {
    distinct = rw a.in_order (
        append_one-Distinct task.task_id p.order (k.keyed task.task_id ∙ ap is_some a.fresh)
          k.distinct);
    keyed = λ j. ap (mem j) a.in_order ∙ keyed_added p p' task j k a;
  }

  -- The record that an accepted submission leaves.
  abbrev RecordedWith : ℤ → ℕ → Task Json → Processor Json → Type 0
  RecordedWith timeout started_at task p' =
      (r : TaskRecord Json) × (find task.task_id p'.tasks ≡ some r)
      × (r.task ≡ task)
      × (r.timeout ≡ some timeout)
      × (r.started_at ≡ started_at)

  recorded_made :
      (p : Processor Json) (d : Descriptor) (started_at : ℕ) (blank : Task Json) (timeout : ℤ)
      (task : Task Json)
      → IsSound p
      → p.next_task_index < index_limit
      → (submit_made p d started_at (ok (blank, timeout))).2 ≡ ok task
      → RecordedWith timeout started_at task (submit_made p d started_at (ok (blank, timeout))).0
  unfolding submit_made register_task enqueue_job job_for
  recorded_made p d started_at blank timeout task h room accepted =
      let (queued, same, at) = accepted_queued d _ _ task _ accepted in
      rw (at, same)
        (
          _,
          find_added (task_id_at p.next_task_index) _ p.tasks (unused_id p h room).0,
          refl,
          refl,
          refl,
        )

  recorded_from :
      (p : Processor Json) (d : Descriptor) (started_at n : ℕ) (task : Task Json)
      (empty_object : Json) (timestamp : Bytes) (made : Result (Task Json × ℤ))
      → task_of empty_object p.options d timestamp ≡ made
      → d.ttl ≡ some (pos n)
      → IsSound p
      → p.next_task_index < index_limit
      → (submit_made p d started_at made).2 ≡ ok task
      → RecordedWith (pos n) started_at task (submit_made p d started_at made).0
  unfolding task_of submit_made
  recorded_from p d started_at n task empty_object timestamp (err e) is_made ttl h room accepted =
      ground arith
  recorded_from p d started_at n task empty_object timestamp (ok (blank, timeout)) is_made ttl h
        room accepted =
      let same : timeout ≡ pos n = ground arith in
      rw (← same) (recorded_made p d started_at blank timeout task h room accepted)

  submitted_record :
      (empty_object : Json) (p : Processor Json) (d : Descriptor) (timestamp : Bytes)
      (started_at n : ℕ) (task : Task Json)
      → d.ttl ≡ some (pos n)
      → IsSound p
      → p.next_task_index < index_limit
      → (submit_operation empty_object p d true timestamp started_at).2 ≡ ok task
      → RecordedWith
          (pos n)
          started_at
          task
          (submit_operation empty_object p d true timestamp started_at).0
  unfolding submit_operation
  submitted_record empty_object p d timestamp started_at n task ttl h room accepted =
      recorded_from p d started_at n task empty_object timestamp _ refl ttl h room accepted

  -- With no other thread between its lock sections, in a sound processor with identifiers left, a
  -- submission with a time to live from 9,223,372,037 to 18,446,744,073 seconds that returns a task
  -- leaves a record that the next look at the table, however early, fails as timed out, or has
  -- forgotten in its trim: the conversion to nanoseconds wraps around to a negative span.
  pub long_ttl_is_timed_out :
      (empty_object : Json) (p : Processor Json) (d : Descriptor) (timestamp : Bytes)
      (started_at n : ℕ) (task : Task Json) (c : Readings)
      → d.ttl ≡ some (pos n)
      → 9223372037 ≤ n
      → n ≤ 18446744073
      → IsSound p
      → p.next_task_index < index_limit
      → (submit_operation empty_object p d true timestamp started_at).2 ≡ ok task
      → let p' = (submit_operation empty_object p d true timestamp started_at).0 in
        (r : TaskRecord Json) × (find task.task_id p'.tasks ≡ some r)
        × (r.task ≡ task)
        × (task.status ≡ working)
        × TimedOutOrGone c r (find task.task_id (refreshed p' c).tasks)
  long_ttl_is_timed_out empty_object p d timestamp started_at n task c ttl low high h room
        accepted =
      let p' = (submit_operation empty_object p d true timestamp started_at).0 in
      let (_, a) =
        submit-IsAccepted empty_object p d true timestamp started_at task h room accepted in
      let (r, found, same, with_timeout, _) =
        submitted_record empty_object p d timestamp started_at n task ttl h room accepted in
      let busy : r.task.status ≡ working = ap (λ t. t.status) same ∙ a.starts_working in
      (
        r,
        found,
        same,
        a.starts_working,
        refreshed_due task.task_id r p' c (IsKeyed-of_IsAccepted p p' task h.keyed a) found
            (long_is_timed_out c.now n r with_timeout low high busy),
      )

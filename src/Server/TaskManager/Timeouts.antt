-- ===== src/Server/TaskManager/Timeouts.antt =====
-- When a working task runs out of time, and what the look at the table that finds it so makes of it.
use cxxmcp.Prelude.{
  ℕ, ◌-◌, ◌*◌, ◌≤◌, ◌<◌, ◌≡◌, ◌↔◌, ◌⊎◌, refl, ap, ◌∙◌, inl, inr, true, false, Bytes, text, Option,
  none, some, arith, pos, ErrorCode, Bool-cases,
}
use cxxmcp.Prelude.Dict.{find, map_values, find-map_values}
use cxxmcp.Server.TaskManager.State.{
  working, failed, TaskRecord, Processor, Readings, elapsed_at_least, is_terminal, make_task_error,
}
use cxxmcp.Server.TaskManager.Trim.{
  is_working, is_timed_out, time_out, refresh_record, refresh, is_terminal_at,
}
use cxxmcp.Server.TaskManager.Operations.{refreshed}
use cxxmcp.Server.TaskManager.Keys.{IsKeyed}
use cxxmcp.Server.TaskManager.Trimmed.{Survives, trim_completed-Survives}
use cxxmcp.Server.TaskManager.Invariant.{IsSound, IsKeyed-map_values}

-- A duration that fits 2^63 - 1 nanoseconds is compared as it is.
elapsed_in_range :
    (unit n elapsed : ℕ)
    → n * unit < 9223372036854775808
    → (elapsed_at_least unit (pos n) elapsed ≡ true) ↔ (n * unit ≤ elapsed)
unfolding elapsed_at_least
elapsed_in_range unit n elapsed h = ground arith

module _ {Json : Type 0} where
  -- Of the record `r`: it was failed as timed out by a look with the readings `c`, with its token
  -- cancelled; what the client may see of it besides is as it was.
  pub record IsTimedOut (c : Readings) (r s : TaskRecord Json) : Type 0 where
    pub fails : s.task.status ≡ failed
    pub says_so : s.task.status_message ≡ some (text "Operation timed out")
    pub is_stamped : s.task.last_updated_at ≡ c.timestamp
    pub same_task :
        (s.task.task_id ≡ r.task.task_id)
        × (s.task.created_at ≡ r.task.created_at)
        × (s.task.ttl ≡ r.task.ttl)
    pub is_cancelled : s.cancellation ≡ true
    pub ends_now : s.terminal_at ≡ some c.now
    pub no_result : s.result ≡ none
    pub has_failure :
        s.failure
        ≡ some
            (make_task_error ErrorCode.internal_error (text "Operation timed out") r.task.task_id)

  -- The record timed out, and the trim of the same look may have forgotten it.
  abbrev pub TimedOutOrGone : Readings → TaskRecord Json → Option (TaskRecord Json) → Type 0
  TimedOutOrGone c r o = ((s : TaskRecord Json) × (o ≡ some s) × IsTimedOut c r s) ⊎ (o ≡ none)

  is_timed_out_iff :
      (now n : ℕ) (r : TaskRecord Json)
      → r.timeout ≡ some (pos n)
      → n ≤ 9223372036
      → r.task.status ≡ working
      → (is_timed_out now r ≡ true) ↔ (n * 1000000000 ≤ now - r.started_at)
  unfolding is_timed_out is_working
  is_timed_out_iff now n r e fits busy =
      ground (arith, elapsed_in_range 1000000000 n (now - r.started_at) (omega arith))

  -- The seconds from 9,223,372,037 to 18,446,744,073 wrap around to a negative span.
  pub long_is_timed_out :
      (now n : ℕ) (r : TaskRecord Json)
      → r.timeout ≡ some (pos n)
      → 9223372037 ≤ n
      → n ≤ 18446744073
      → r.task.status ≡ working
      → is_timed_out now r ≡ true
  unfolding is_timed_out is_working elapsed_at_least
  long_is_timed_out now n r e low high busy = ground arith

  time_out-IsTimedOut :
      (c : Readings) (r : TaskRecord Json) → IsTimedOut c r (time_out c.now c.timestamp r)
  unfolding time_out
  time_out-IsTimedOut c r = record {
    fails = refl;
    says_so = refl;
    is_stamped = refl;
    same_task = (refl, refl, refl);
    is_cancelled = refl;
    ends_now = refl;
    no_result = refl;
    has_failure = refl;
  }

  -- The look first times records out, and the trim then may forget what is terminal.
  refreshed-Survives :
      (id : Bytes) (r : TaskRecord Json) (p : Processor Json) (c : Readings)
      → IsKeyed p.table
      → find id p.tasks ≡ some r
      → Survives (some (refresh_record c.now c.timestamp r)) (find id (refreshed p c).tasks)
  unfolding refresh
  refreshed-Survives id r p c k e =
      let mapped : find id (map_values (refresh_record c.now c.timestamp) p.tasks)
          ≡ some (refresh_record c.now c.timestamp r) =
        ground (arith, find-map_values (refresh_record c.now c.timestamp) id p.tasks) in
      rw (← mapped) (
        trim_completed-Survives p.options c.trim_now _
          (IsKeyed-map_values (refresh_record c.now c.timestamp) p.table k) id)

  pub refreshed_due :
      (id : Bytes) (r : TaskRecord Json) (p : Processor Json) (c : Readings)
      → IsKeyed p.table
      → find id p.tasks ≡ some r
      → is_timed_out c.now r ≡ true
      → TimedOutOrGone c r (find id (refreshed p c).tasks)
  refreshed_due id r p c k e due =
      let same : refresh_record c.now c.timestamp r ≡ time_out c.now c.timestamp r =
        unfold refresh_record in rw due refl in
      elim (refreshed-Survives id r p c k e) [
        | inl kept ↦ inl (_, kept ∙ ap some same, time_out-IsTimedOut c r)
        | inr (gone, _) ↦ inr gone
      ]

  refreshed_early :
      (id : Bytes) (r : TaskRecord Json) (p : Processor Json) (c : Readings)
      → IsKeyed p.table
      → find id p.tasks ≡ some r
      → r.task.status ≡ working
      → is_timed_out c.now r ≡ false
      → find id (refreshed p c).tasks ≡ some r
  unfolding refresh_record is_terminal_at is_terminal
  refreshed_early id r p c k e busy early = ground (arith, refreshed-Survives id r p c k e)

  differs :
      (c : Readings) (r : TaskRecord Json) (o : Option (TaskRecord Json))
      → r.task.status ≡ working
      → TimedOutOrGone c r o
      → o ≡ some r
      → ⊥
  differs c r o busy (inl (s, e, h)) same = ground (arith, h.fails)
  differs c r o busy (inr e) same = ground arith

  -- In a sound processor, a look at the table fails a working task as timed out, or has forgotten it
  -- in its trim, exactly if the seconds of its time to live have passed since its submission, and
  -- leaves its record as it is otherwise; for a time to live of at most 9,223,372,036 seconds, which
  -- is 2^63 - 1 nanoseconds rounded down.
  pub refreshed_times_out :
      (id : Bytes) (r : TaskRecord Json) (n : ℕ) (p : Processor Json) (c : Readings)
      → IsSound p
      → find id p.tasks ≡ some r
      → r.task.status ≡ working
      → r.timeout ≡ some (pos n)
      → n ≤ 9223372036
      → ((n * 1000000000 ≤ c.now - r.started_at)
          ↔ TimedOutOrGone c r (find id (refreshed p c).tasks))
        × ((c.now - r.started_at < n * 1000000000) ↔ (find id (refreshed p c).tasks ≡ some r))
  refreshed_times_out id r n p c h e busy ttl fits =
      let guard = is_timed_out_iff c.now n r ttl fits busy in
      elim (Bool-cases (is_timed_out c.now r)) [
        | inl due ↦
            let late = guard.0 due in
            let out = refreshed_due id r p c h.keyed e due in
            (
              (λ _. out, λ _. late),
              (λ lt. absurd (omega arith), λ same. absurd (differs c r _ busy out same)),
            )
        | inr early ↦
            let same = refreshed_early id r p c h.keyed e busy early in
            let lt : c.now - r.started_at < n * 1000000000 = ground (arith, guard) in
            (
              (λ le. absurd (omega arith), λ out. absurd (differs c r _ busy out same)),
              (λ _. same, λ _. lt),
            )
      ]

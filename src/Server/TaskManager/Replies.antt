-- ===== src/Server/TaskManager/Replies.antt =====
-- What `tasks/result` answers.
use cxxmcp.Prelude.{
  ℕ, ◌≡◌, refl, Bytes, text, Option, none, some, Result, ok, err, ErrorCode, Error,
}
use cxxmcp.Prelude.Dict.{find}
use cxxmcp.Server.TaskManager.State.{
  TaskRecord, TaskStatus, working, input_required, completed, failed, cancelled, Processor,
  Readings, make_task_error, task_not_found_error,
}
use cxxmcp.Server.TaskManager.Operations.{refreshed}
use cxxmcp.Server.TaskManager.Methods.{task_result, stored_outcome, stored_result}
use cxxmcp.Server.TaskManager.Invariant.{IsSound, InPhase, Phase}
use cxxmcp.Server.TaskManager.Soundness.{refresh-IsSound}

module _ {Json : Type 0} where
  -- The answer that the record calls for.
  abbrev pub AnswersStatus : Bytes → TaskStatus → Option Json → Option Error → Result Json → Type 0
  AnswersStatus id completed result failure res = (j : Json) × (result ≡ some j) × (res ≡ ok j)
  AnswersStatus id failed result failure res = (e : Error) × (failure ≡ some e) × (res ≡ err e)
  AnswersStatus id cancelled result failure res = (e : Error) × (failure ≡ some e) × (res ≡ err e)
  AnswersStatus id _ result failure res =
      res ≡ err (make_task_error ErrorCode.invalid_request (text "task result is not available") id)

  abbrev pub Answers : Bytes → Option (TaskRecord Json) → Result Json → Type 0
  Answers id none res = res ≡ err (task_not_found_error id)
  Answers id (some r) res = AnswersStatus id r.task.status r.result r.failure res

  answers_status :
      (id : Bytes) (s : TaskStatus) (since : Option ℕ) (result : Option Json)
      (failure : Option Error)
      → Phase s since result failure
      → AnswersStatus id s result failure (stored_outcome id result failure)
  answers_status id working since none none h = refl
  answers_status id input_required since result failure h = absurd h
  answers_status id completed since (some j) failure h = (j, refl, refl)
  answers_status id failed since none (some e) h = (e, refl, refl)
  answers_status id cancelled since none (some e) h = (e, refl, refl)
  answers_status id working since (some j) failure h = absurd (cc (h.1))
  answers_status id working since none (some e) h = absurd (cc (h.2))
  answers_status id completed since none failure h = absurd (cc (h.1))
  answers_status id failed since (some j) failure h = absurd (cc (h.1))
  answers_status id failed since none none h = absurd (cc (h.2))
  answers_status id cancelled since (some j) failure h = absurd (cc (h.1))
  answers_status id cancelled since none none h = absurd (cc (h.2))

  -- After the refresh of a sound processor, `tasks/result` answers "task not found" for an unknown
  -- task, "not available" for a working one, the stored result for a completed one, and the
  -- stored failure for a failed or cancelled one.
  pub task_result-Answers :
      (p : Processor Json) (id : Bytes) (c : Readings)
      → IsSound p
      → Answers id (find id (refreshed p c).tasks) (task_result p id c).2
  unfolding task_result
  task_result-Answers p id c h = answers_record (find id (refreshed p c).tasks) (sound.phases id)
    where
      sound : IsSound (refreshed p c)
      sound = refresh-IsSound p c h

      answers_record :
          (o : Option (TaskRecord Json))
          → ((r : TaskRecord Json) → o ≡ some r → InPhase id r)
          → Answers id o (stored_result id o)
      answers_record none ph = refl
      answers_record (some r) ph =
          answers_status id r.task.status r.terminal_at r.result r.failure (ph r refl).1

-- ===== src/Runner.antt =====
-- run.py: `run_task` with an approval queue. The compiled graph is a parameter, the result that it
-- gives after some decisions. What a wait sees of the server is given with it, since humans and
-- other runs act on the server meanwhile.
pub mod Resumed
pub mod Traced
pub mod Terminal
pub mod Compiled
use agent_orchestration_syst.Common.{
  ℕ, String, Bool, true, false, Option, none, some, List, [], ◌∷◌, ◌++◌, if◌then◌else◌,
}
use agent_orchestration_syst.Schemas.{EscalationLevel, EscalationRequest, HumanDecision}
use agent_orchestration_syst.HumanLoop.Models.{ApprovalStatus, PendingApproval}
use agent_orchestration_syst.HumanLoop.Store.{Codec, Redis}
use agent_orchestration_syst.HumanLoop.Queue.{ok, raise, Error, notify, submit, wait_for_decision}

-- The payload of `interrupt`.
pub record Payload : Type 0 where
  pub escalation : EscalationRequest
  pub source : String

-- What `app.invoke` gives, as far as the runner reads it.
pub record InvokeResult : Type 0 where
  pub interrupt : Option Payload
  pub escalation : Option EscalationRequest

-- The result after the run was resumed with some decisions, in order, or none where it raises.
abbrev pub App : Type 0
App = List HumanDecision → Option InvokeResult

-- How a run stands: it waits, it raised in the queue or in the graph, or it returned.
pub data Running (A : Type 0) : Type 0 where
  waiting : Running A
  queue_error : Error → Running A
  graph_error : Running A
  returned : A → Running A

-- One wait: when the entry is made, what the polls see after the submission, and the server when
-- the run goes on.
pub record Wait (S : Type 0) : Type 0 where
  pub utcnow : ℕ
  pub polls : S → List (S × ℕ)
  pub after : S → S

-- The entry that is submitted.
abbrev pub entry_of : (task_id : String) → Payload → (utcnow : ℕ) → PendingApproval
entry_of task_id payload utcnow = record {
  task_id = task_id;
  escalation = payload.escalation;
  source = payload.source;
  status = ApprovalStatus.pending;
  decision = none;
  messages = [];
  created_at = utcnow;
  resolved_at = none;
}

abbrev pub is_notify : EscalationLevel → Bool
is_notify EscalationLevel.notify = true
is_notify _ = false

module _ {S V : Type 0} (redis : Redis S V) (codec : Codec V) where
  -- The end of `run_task`, which records a notification.
  unfoldable pub conclude : (task_id : String) → (utcnow : ℕ) → S → InvokeResult → InvokeResult × S
  conclude task_id utcnow server result = elim result.escalation [
    | none ↦ (result, server)
    | some escalation ↦
        if is_notify escalation.level
        then (result, (notify redis codec server task_id escalation utcnow utcnow).1)
        else (result, server)
  ]

  -- The loop over the interruptions, with the result that it tests.
  unfoldable pub run_loop :
      App
      → (task_id : String) → (utcnow : ℕ) → List HumanDecision
      → InvokeResult
      → S
      → List (Wait S)
      → Running (InvokeResult × S)
  unfolding conclude
  run_loop app task_id utcnow decisions result server [] = elim result.interrupt [
    | none ↦ returned (conclude task_id utcnow server result)
    | some payload ↦ waiting
  ]
  run_loop app task_id utcnow decisions result server (w ∷ waits) = elim result.interrupt [
    | none ↦ returned (conclude task_id utcnow server result)
    | some payload ↦
        let submitted = submit redis codec server (entry_of task_id payload w.utcnow) in
        elim (wait_for_decision redis codec task_id none (w.polls submitted)) [
          | none ↦ waiting
          | some (raise e) ↦ queue_error e
          | some (ok decision) ↦ elim (app (decisions ++ decision ∷ [])) [
            | none ↦ graph_error
            | some next ↦
                run_loop app task_id utcnow (decisions ++ decision ∷ []) next (w.after submitted)
                  waits
          ]
        ]
  ]

  -- `run_task`
  unfoldable pub run_task :
      App → (task_id : String) → (utcnow : ℕ) → S → List (Wait S) → Running (InvokeResult × S)
  unfolding run_loop
  run_task app task_id utcnow server waits = elim (app []) [
    | none ↦ graph_error
    | some result ↦ run_loop app task_id utcnow [] result server waits
  ]

-- ===== src/Examples/Runner.antt =====
-- The theorem on run.py, applied to a run that is interrupted once.
use agent_orchestration_syst.Common.{◌≡◌, refl, none, some, [], ◌∷◌}
use agent_orchestration_syst.HumanLoop.Queue.{resolve, submit}
use agent_orchestration_syst.HumanLoop.Queue.Wait.{here}
use agent_orchestration_syst.Runner.{returned, App, InvokeResult, conclude, Payload, run_task, Wait}
use agent_orchestration_syst.Runner.Resumed.{done, more, resolved_with, run_task-Decided}
use agent_orchestration_syst.Examples.Queue.{approval, codec, decision, empty, redis, Server}

abbrev pub payload : Payload
payload = record { escalation = approval.escalation; source = "plan_sensitive" }

abbrev pub interrupted_result : InvokeResult
interrupted_result = record { interrupt = some payload; escalation = none }

abbrev pub last_result : InvokeResult
last_result = record { interrupt = none; escalation = none }

abbrev pub app : App
app [] = some interrupted_result
app (_ ∷ _) = some last_result

-- The entry is seen once before a human resolves it.
abbrev pub wait : Wait Server
wait = record {
  utcnow = 0;
  polls = λ s. (s, 0) ∷ ((resolve redis codec s "t-1" decision 9).1, 2) ∷ [];
  after = λ s. (resolve redis codec s "t-1" decision 9).1;
}

run_task-Decided_example :
    (run_task redis codec app "t-1" 10 empty (wait ∷ [])
      ≡ returned (
          conclude redis codec "t-1" 10
            (wait.after (submit redis codec empty approval))
            last_result))
    × (app (decision ∷ []) ≡ some last_result)
run_task-Decided_example =
    run_task-Decided redis codec app "t-1" 10 empty (wait.after (submit redis codec empty approval))
      (wait ∷ []) (decision ∷ []) interrupted_result last_result refl
      (more payload decision last_result refl
        (resolved_with ((submit redis codec empty approval, 0) ∷ []) (here, tt)
          (submit redis codec empty approval) here decision 9 2 [])
        refl (done refl))

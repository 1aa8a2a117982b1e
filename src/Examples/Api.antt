-- ===== src/Examples/Api.antt =====
-- The theorem on api.py, applied to a question about a submitted approval.
use agent_orchestration_syst.Common.{◌≡◌, refl, some}
use agent_orchestration_syst.Common.Dict.{lookup, assign}
use agent_orchestration_syst.HumanLoop.Models.{Role}
use agent_orchestration_syst.HumanLoop.Queue.{ok, get, submit, read}
use agent_orchestration_syst.Api.{ask_about_approval, success}
use agent_orchestration_syst.Api.Chat.{entry_after, ask_about_approval-answered}
use agent_orchestration_syst.Examples.Queue.{approval, codec, empty, redis, Server}

abbrev submitted : Server
submitted = submit redis codec empty approval

submitted-get : get redis codec submitted "t-1" ≡ ok (some approval)
unfolding get submit read lookup assign
submitted-get = refl

ask_about_approval-answered_example :
    let result =
      ask_about_approval redis codec (λ _ _. some "because") submitted "t-1" "why?" 3 4 in
    (result.0 ≡ success (record { role = Role.agent; content = "because"; timestamp = 4 }))
    × (get redis codec result.1 "t-1"
        ≡ ok (some (entry_after redis codec approval "why?" (some "because") 3 4)))
ask_about_approval-answered_example =
    ask_about_approval-answered redis codec (λ _ _. some "because") submitted "t-1" "why?" 3 4
      approval submitted-get

-- ===== src/Agents/Specialists/Bounds.antt =====
-- agents/specialists.py: how often an attempt calls the model, and what usage it reports.
use agent_orchestration_syst.Common.{
  ℕ, suc, ◌≤◌, ◌≡◌, refl, String, Option, none, some, arith, ap, inl, inr,
}
use agent_orchestration_syst.Common.Dict.{Dict}
use agent_orchestration_syst.Schemas.{SpecialistType, SubTask, SubtaskResult, TokenUsage}
use agent_orchestration_syst.Tools.Registry.{ToolRegistry}
use agent_orchestration_syst.Agents.Session.{
  Outside, Final, given, refused, Session, accumulate, count_call, max_tool_iterations,
}
use agent_orchestration_syst.Agents.ToolLoop.{Turn, settled, unsettled, aborted, force_answer}
use agent_orchestration_syst.Agents.Specialists.{
  conclude, give_up, after_force, after_loop, run, SpecialistAgent, opening, prompt_of,
}
use agent_orchestration_syst.Agents.Specialists.Counted.{
  Final-cases, reported, nothing, Counted, CountedTurn, iterate-CountedTurn,
  force_answer-CountedTurn,
}

-- The usage of the call with structured output.
abbrev pub usage_of : Final → Option TokenUsage
usage_of (given usage parsed) = usage
usage_of (refused error) = none

-- The total at the end: of the transcript, and of the call with structured output where the
-- attempt got to it.
pub data Usage (o : Outside) (s : Session) : Type 0 where
  aborted_early : s.last_usage ≡ some (reported s.messages nothing) → Usage o s
  concluded :
      (k : ℕ)
      → s.calls ≡ suc k
      → s.last_usage
        ≡ some (accumulate (reported s.messages nothing) (usage_of (o.structured k s.messages)))
      → Usage o s

pub record Reported (o : Outside) (limit : ℕ) (r : SubtaskResult × Session) : Type 0 where
  pub bounded : r.1.calls ≤ limit
  pub usage : Usage o r.1

conclude-Reported :
    (o : Outside) (subtask : SubTask) (specialist : SpecialistType) (limit : ℕ) (s : Session)
    → Counted limit s
    → Reported o (suc limit) (conclude o subtask specialist s)
unfolding conclude give_up count_call accumulate
conclude-Reported o subtask specialist limit s h =
    elim (Final-cases (o.structured s.calls s.messages)) [
      | inr (error, e) ↦
          rw (e, conclude)
            (record {
              bounded = ground (arith, h.bounded);
              usage = concluded s.calls refl (rw e (ap some h.total));
            })
      | inl (usage, none, e) ↦
          rw (e, conclude)
            (record {
              bounded = ground (arith, h.bounded);
              usage = concluded s.calls refl (rw e (ap (λ t. some (accumulate t usage)) h.total));
            })
      | inl (usage, some output, e) ↦
          rw (e, conclude)
            (record {
              bounded = ground (arith, h.bounded);
              usage = concluded s.calls refl (rw e (ap (λ t. some (accumulate t usage)) h.total));
            })
    ]

give_up-Reported :
    (o : Outside) (subtask : SubTask) (specialist : SpecialistType) (error : String) (limit : ℕ)
    (s : Session)
    → Counted limit s
    → Reported o limit (give_up subtask specialist error s)
unfolding give_up
give_up-Reported o subtask specialist error limit s h = record {
  bounded = h.bounded;
  usage = aborted_early (ap some h.total);
}

more-Reported :
    (o : Outside) (a b : ℕ) (r : SubtaskResult × Session) → a ≤ b → Reported o a r → Reported o b r
more-Reported o a b r le h = record { bounded = omega (arith, h.bounded, le); usage = h.usage }

after_force-Reported :
    (o : Outside) (subtask : SubTask) (specialist : SpecialistType) (limit : ℕ) (t : Turn)
    → CountedTurn limit t
    → Reported o (suc limit) (after_force o subtask specialist t)
unfolding after_force
after_force-Reported o subtask specialist limit (settled s) h =
    conclude-Reported o subtask specialist limit s h
after_force-Reported o subtask specialist limit (unsettled s) h =
    conclude-Reported o subtask specialist limit s h
after_force-Reported o subtask specialist limit (aborted error s) h =
    more-Reported o limit (suc limit) _ (omega arith)
      (give_up-Reported o subtask specialist error limit s h)

after_loop-Reported :
    (o : Outside) (subtask : SubTask) (specialist : SpecialistType) (limit : ℕ) (t : Turn)
    → CountedTurn limit t
    → Reported o (suc (suc limit)) (after_loop o subtask specialist t)
unfolding after_loop
after_loop-Reported o subtask specialist limit (settled s) h =
    more-Reported o (suc limit) (suc (suc limit)) _ (omega arith)
      (conclude-Reported o subtask specialist limit s h)
after_loop-Reported o subtask specialist limit (unsettled s) h =
    after_force-Reported o subtask specialist (suc limit) (force_answer o s)
      (force_answer-CountedTurn o s limit h)
after_loop-Reported o subtask specialist limit (aborted error s) h =
    more-Reported o limit (suc (suc limit)) _ (omega arith)
      (give_up-Reported o subtask specialist error limit s h)

-- Whatever the model answers, an attempt ends after six calls of it at most, and the usage that
-- the agent then reports is the sum over its messages in the transcript, and over the call with
-- structured output if the attempt got to it.
pub run-Reported :
    (o : Outside) (agent : SpecialistAgent) (subtask : SubTask) (context : Dict SubtaskResult)
    (feedback : Option String) (registry : ToolRegistry)
    → Reported o 6 (run o agent subtask context feedback registry)
unfolding run reported
run-Reported o agent subtask context feedback registry =
    after_loop-Reported o subtask agent.specialist_type 4 _ (
      iterate-CountedTurn o agent.specialist_type agent.lc_tools max_tool_iterations
        (opening agent (prompt_of subtask context feedback) registry) 0 4 (omega arith)
        (record { bounded = omega arith; total = refl }))

-- ===== src/Agents/Specialists/Counted.antt =====
-- agents/specialists.py: the calls of the model and the reported tokens over the loop.
use agent_orchestration_syst.Common.{
  ℕ, zero, suc, ◌+◌, ◌≤◌, ◌≡◌, refl, String, Option, List, [], ◌∷◌, ◌++◌, arith, ◌∙◌, sym, ap, inl,
  inr, ◌⊎◌, Option-cases, Sum-cases, List-cases,
}
use agent_orchestration_syst.Schemas.{SpecialistType, TokenUsage, ToolCallLog, SpecialistOutput}
use agent_orchestration_syst.Tools.Registry.{RegisteredTool, ToolRegistry}
use agent_orchestration_syst.Agents.Session.{
  AiMessage, Message, system, human, ai, tool, Outside, Reply, answered, failed, Final, given,
  refused, Session, accumulate, append, count_call, ToolCall,
}
use agent_orchestration_syst.Agents.ToolLoop.{
  Turn, settled, unsettled, aborted, call_tool_of, find_tool, force_answer, iterate, run_call,
  run_calls, must_answer,
}

pub Final-cases :
    (f : Final)
    → ((u : Option TokenUsage) × (p : Option SpecialistOutput) × (f ≡ given u p))
      ⊎ ((e : String) × (f ≡ refused e))
Final-cases (given u p) = inl (u, p, refl)
Final-cases (refused e) = inr (e, refl)

pub Reply-cases :
    (r : Reply) → ((m : AiMessage) × (r ≡ answered m)) ⊎ ((e : String) × (r ≡ failed e))
Reply-cases (answered m) = inl (m, refl)
Reply-cases (failed e) = inr (e, refl)

-- The tokens that the model messages of a transcript report.
unfoldable pub reported : List Message → TokenUsage → TokenUsage
unfolding accumulate
reported [] total = total
reported (ai m ∷ ms) total = reported ms (accumulate total m.usage)
reported (system _ ∷ ms) total = reported ms total
reported (human _ ∷ ms) total = reported ms total
reported (tool _ _ ∷ ms) total = reported ms total

reported-append :
    (ms ns : List Message) (total : TokenUsage)
    → reported (ms ++ ns) total ≡ reported ns (reported ms total)
unfolding reported
reported-append [] ns total = refl
reported-append (ai m ∷ ms) ns total = reported-append ms ns (accumulate total m.usage)
reported-append (system _ ∷ ms) ns total = reported-append ms ns total
reported-append (human _ ∷ ms) ns total = reported-append ms ns total
reported-append (tool _ _ ∷ ms) ns total = reported-append ms ns total

abbrev pub nothing : TokenUsage
nothing = record { input_tokens = 0; output_tokens = 0 }

-- The total is what the transcript reports, and at most so many calls were made.
pub record Counted (limit : ℕ) (s : Session) : Type 0 where
  pub bounded : s.calls ≤ limit
  pub total : s.total_usage ≡ reported s.messages nothing

-- What changes neither the calls nor the total, and adds messages of no model.
told-Counted :
    (limit : ℕ) (s : Session) (content id : String) (r : ToolRegistry) (made : List ToolCallLog)
    → Counted limit s
    → Counted limit (append (tool content id) (record s { registry = r; tool_calls_made = made }))
unfolding reported
told-Counted limit s content id r made h = record {
  bounded = h.bounded;
  total = h.total ∙ sym (reported-append s.messages (tool content id ∷ []) nothing);
}

asked-Counted :
    (limit : ℕ) (s : Session) (content : String)
    → Counted limit s
    → Counted limit (append (human content) s)
unfolding reported
asked-Counted limit s content h = record {
  bounded = h.bounded;
  total = h.total ∙ sym (reported-append s.messages (human content ∷ []) nothing);
}

call_tool_of-Counted :
    (o : Outside) (specialist : SpecialistType) (s : Session) (call : ToolCall) (t : RegisteredTool)
    (limit : ℕ)
    → Counted limit s
    → Counted limit (call_tool_of o specialist s call t)
unfolding call_tool_of
call_tool_of-Counted o specialist s call t limit h =
    elim (Sum-cases (o.check_args t.args_schema call.args)) [
      | inr (error, e) ↦
          rw (e, call_tool_of) (told-Counted limit s _ call.id s.registry s.tool_calls_made h)
      | inl (kwargs, e) ↦ rw (e, call_tool_of) (told-Counted limit s _ call.id _ _ h)
    ]

run_call-Counted :
    (o : Outside) (specialist : SpecialistType) (lc_tools : List RegisteredTool) (s : Session)
    (call : ToolCall) (limit : ℕ)
    → Counted limit s
    → Counted limit (run_call o specialist lc_tools s call)
unfolding run_call
run_call-Counted o specialist lc_tools s call limit h =
    elim (Option-cases (find_tool call.name lc_tools)) [
      | inl e ↦ rw (e, run_call) (told-Counted limit s _ call.id s.registry s.tool_calls_made h)
      | inr (t, e) ↦ rw (e, run_call) (call_tool_of-Counted o specialist s call t limit h)
    ]

run_calls-Counted :
    (o : Outside) (specialist : SpecialistType) (lc_tools : List RegisteredTool) (s : Session)
    (calls : List ToolCall) (limit : ℕ)
    → Counted limit s
    → Counted limit (run_calls o specialist lc_tools s calls)
unfolding run_calls
run_calls-Counted o specialist lc_tools s [] limit h = h
run_calls-Counted o specialist lc_tools s (call ∷ rest) limit h =
    run_calls-Counted o specialist lc_tools (run_call o specialist lc_tools s call) rest limit
      (run_call-Counted o specialist lc_tools s call limit h)

heard-Counted :
    (limit : ℕ) (s : Session) (message : AiMessage)
    → Counted limit s
    → Counted (suc limit) (append (ai message) (count_call message.usage s))
unfolding count_call reported
heard-Counted limit s message h = record {
  bounded = ground (arith, h.bounded);
  total =
      ap (λ t. accumulate t message.usage) h.total
      ∙ sym (reported-append s.messages (ai message ∷ []) nothing);
}

failed-Counted :
    (limit : ℕ) (s : Session)
    → Counted limit s
    → Counted (suc limit) (record s { calls = suc s.calls })
failed-Counted limit s h = record { bounded = ground (arith, h.bounded); total = h.total }

abbrev pub CountedTurn : ℕ → Turn → Type 0
CountedTurn limit (settled s) = Counted limit s
CountedTurn limit (unsettled s) = Counted limit s
CountedTurn limit (aborted error s) = Counted limit s

-- Fewer calls than a bound are fewer than a greater one.
more-Counted : (a b : ℕ) (s : Session) → a ≤ b → Counted a s → Counted b s
more-Counted a b s le h = record { bounded = ground (arith, h.bounded, le); total = h.total }

pub iterate-CountedTurn :
    (o : Outside) (specialist : SpecialistType) (lc_tools : List RegisteredTool) (n : ℕ)
    (s : Session) (limit bound : ℕ)
    → n + limit ≤ bound
    → Counted limit s
    → CountedTurn bound (iterate o specialist lc_tools n s)
unfolding iterate
iterate-CountedTurn o specialist lc_tools zero s limit bound le h =
    more-Counted limit bound s (omega (arith, le)) h
iterate-CountedTurn o specialist lc_tools (suc n) s limit bound le h =
    elim (Reply-cases (o.with_tools s.calls s.messages)) [
      | inr (error, e) ↦
          rw (e, iterate)
            (more-Counted (suc limit) bound _ (omega (arith, le)) (failed-Counted limit s h))
      | inl (message, e) ↦ elim (List-cases message.tool_calls) [
        | inl f ↦
            rw (e, f, iterate)
              (more-Counted (suc limit) bound _ (omega (arith, le))
                (heard-Counted limit s message h))
        | inr (call, rest, f) ↦
            rw (e, f, iterate)
              (iterate-CountedTurn o specialist lc_tools n _ (suc limit) bound (omega (arith, le)) (
                run_calls-Counted o specialist lc_tools _ (call ∷ rest) (suc limit)
                  (heard-Counted limit s message h)))
      ]
    ]

pub force_answer-CountedTurn :
    (o : Outside) (s : Session) (limit : ℕ)
    → Counted limit s
    → CountedTurn (suc limit) (force_answer o s)
unfolding force_answer
force_answer-CountedTurn o s limit h =
    elim (Reply-cases (o.without_tools s.calls (s.messages ++ human must_answer ∷ []))) [
      | inr (error, e) ↦
          rw (e, force_answer) (failed-Counted limit (append (human must_answer) s) asked)
      | inl (message, e) ↦
          rw (e, force_answer) (heard-Counted limit (append (human must_answer) s) message asked)
    ]
  where
    asked : Counted limit (append (human must_answer) s)
    asked = asked-Counted limit s must_answer h

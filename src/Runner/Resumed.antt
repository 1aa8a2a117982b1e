-- ===== src/Runner/Resumed.antt =====
-- run.py: with which decisions a run is resumed.
use agent_orchestration_syst.Common.{
  ℕ, ◌≡◌, refl, String, none, some, List, [], ◌∷◌, ◌++◌, All, arith,
}
use agent_orchestration_syst.Schemas.{HumanDecision}
use agent_orchestration_syst.HumanLoop.Store.{Codec, Redis}
use agent_orchestration_syst.HumanLoop.Queue.{ok, resolve, submit, wait_for_decision}
use agent_orchestration_syst.HumanLoop.Queue.Wait.{Undecided, wait-resolve}
use agent_orchestration_syst.Runner.{
  returned, App, InvokeResult, conclude, entry_of, Payload, run_loop, run_task, Wait,
}

module _ {S V : Type 0} (redis : Redis S V) (codec : Codec V) where
  -- The polls after a submission see the entry undecided, until it is resolved with a decision.
  pub data ResolvedWith (submitted : S) (task_id : String)
      : List (S × ℕ) → HumanDecision → Type 0 where
    resolved_with :
        (polls : List (S × ℕ))
        → All (λ p. Undecided redis codec task_id submitted p.0) polls
        → (s : S) → Undecided redis codec task_id submitted s
        → (d : HumanDecision) (utcnow elapsed : ℕ) (rest : List (S × ℕ))
        → ResolvedWith submitted task_id
            (polls ++ ((resolve redis codec s task_id d utcnow).1, elapsed) ∷ rest)
            d

  -- Every interruption of a run is resolved, no resumption raises, and at last the result has no
  -- interruption: the decisions, the result and the server in the end.
  pub data Decided (app : App) (task_id : String)
      : List HumanDecision
        → InvokeResult
        → S
        → List (Wait S)
        → List HumanDecision
        → InvokeResult
        → S
        → Type 0 where
    done :
        {decisions : List HumanDecision} {result : InvokeResult} {server : S}
        → result.interrupt ≡ none
        → Decided app task_id decisions result server [] decisions result server
    more :
        {decisions : List HumanDecision} {result : InvokeResult} {server : S} {w : Wait S}
        {waits : List (Wait S)} {all : List HumanDecision} {last : InvokeResult} {end : S}
        → (payload : Payload) (d : HumanDecision) (next : InvokeResult)
        → result.interrupt ≡ some payload
        → ResolvedWith
            (submit redis codec server (entry_of task_id payload w.utcnow))
            task_id
            (w.polls (submit redis codec server (entry_of task_id payload w.utcnow)))
            d
        → app (decisions ++ d ∷ []) ≡ some next
        → Decided app task_id
            (decisions ++ d ∷ [])
            next
            (w.after (submit redis codec server (entry_of task_id payload w.utcnow)))
            waits
            all
            last
            end
        → Decided app task_id decisions result server (w ∷ waits) all last end

  pub waited :
      (server : S) (task_id : String) (payload : Payload) (now : ℕ) {polls : List (S × ℕ)}
      {d : HumanDecision}
      → ResolvedWith (submit redis codec server (entry_of task_id payload now)) task_id polls d
      → wait_for_decision redis codec task_id none polls ≡ some (ok d)
  waited server task_id payload now (resolved_with polls h s u d utcnow elapsed rest) =
      wait-resolve redis codec server (entry_of task_id payload now) refl polls h s u d utcnow
        elapsed rest

  run_loop-Decided :
      (app : App) (task_id : String) (utcnow : ℕ) {decisions all : List HumanDecision}
      {result last : InvokeResult} {server end : S} {waits : List (Wait S)}
      → app decisions ≡ some result
      → Decided app task_id decisions result server waits all last end
      → (run_loop redis codec app task_id utcnow decisions result server waits
          ≡ returned (conclude redis codec task_id utcnow end last))
        × (app all ≡ some last)
  unfolding run_loop
  run_loop-Decided app task_id utcnow given (done e) = (ground (arith, e), given)
  run_loop-Decided app task_id utcnow given
        (more {server = server} {w = w} payload d next e r given' rest) =
      let (ends, last) = run_loop-Decided app task_id utcnow given' rest in
      (rw (e, waited server task_id payload w.utcnow r, given', run_loop) ends, last)

  -- If every interruption of a run is at some time resolved in the queue and no invocation raises,
  -- the run ends, with the result that the graph gives after those decisions in their order, each
  -- used for the interruption that it was given for.
  pub run_task-Decided :
      (app : App) (task_id : String) (utcnow : ℕ) (server end : S) (waits : List (Wait S))
      (all : List HumanDecision) (first last : InvokeResult)
      → app [] ≡ some first
      → Decided app task_id [] first server waits all last end
      → (run_task redis codec app task_id utcnow server waits
          ≡ returned (conclude redis codec task_id utcnow end last))
        × (app all ≡ some last)
  unfolding run_task
  run_task-Decided app task_id utcnow server end waits all first last given h =
      let (ends, given') = run_loop-Decided app task_id utcnow given h in
      (rw (given, run_task) ends, given')

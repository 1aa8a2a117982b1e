-- ===== src/Graph/Routing/Stuck.antt =====
-- The two places of graph/build.py that look for subtasks that failed too often: the router
-- `decide_next_batch`, over the plan, and the node `human_escalation`, over the retry counts.
use agent_orchestration_syst.Common.{
  ℕ, ◌<◌, ◌≡◌, refl, String, [], ◌&&◌, leb, get_or, is_some, none, some, AtSome, AtSome-of,
  AtSome-bind, sym, ap, false, List, ◌∷◌, arith, eq_iff, ◌∙◌,
}
use agent_orchestration_syst.Common.Dict.{Dict, contains, Distinct, keys, lookup}
use agent_orchestration_syst.Common.Dict.Keys.{contains-keys}
use agent_orchestration_syst.Schemas.{
  EscalationRequest, ExecutionPlan, SubtaskResult, stuck_subtask_ids,
}
use agent_orchestration_syst.Graph.State.{OrchestratorState, apply_update}
use agent_orchestration_syst.Graph.World.{GraphConfig, World}
use agent_orchestration_syst.Graph.Nodes.Effects.{Effects}
use agent_orchestration_syst.Graph.Nodes.Escalation.{
  has_failed, stuck_by_count, human_escalation, trigger, choose_trigger, plan_trigger,
  stuck_trigger, request, Trigger,
}
use agent_orchestration_syst.Graph.Nodes.Decision.{by_id}
use agent_orchestration_syst.Graph.Routing.{readiness, stuck_ids}
use agent_orchestration_syst.Graph.Routing.Batch.{contains-stuck_ids}
use agent_orchestration_syst.Graph.Routing.Complete.{InPlan}

contains-stuck_by_count :
    (limit : ℕ) (completed : Dict SubtaskResult) (counts : Dict ℕ) (id : String)
    → Distinct (keys counts)
    → contains id (stuck_by_count limit completed counts)
      ≡ is_some (lookup id counts)
        && leb limit (get_or (lookup id counts) 0)
        && has_failed (lookup id completed)
unfolding stuck_by_count lookup
contains-stuck_by_count limit completed [] id d = refl
contains-stuck_by_count limit completed ((i, n) ∷ counts) id d = ground (
  arith,
  contains-stuck_by_count limit completed counts id d.1,
  d.0,
  eq_iff i id,
  contains-keys id counts,
)

-- The comprehension over the retry counts finds the subtasks that the router finds.
stuck_by_count-stuck_ids :
    (c : GraphConfig) (s : OrchestratorState) (plan : ExecutionPlan) (id : String)
    → Distinct (keys s.retry_counts)
    → InPlan s plan
    → 0 < c.settings.max_specialist_retries
    → contains id (stuck_by_count c.settings.max_specialist_retries s.completed s.retry_counts)
      ≡ contains id (stuck_ids c s plan)
unfolding readiness
stuck_by_count-stuck_ids c s plan id d i positive =
    contains-stuck_by_count c.settings.max_specialist_retries s.completed s.retry_counts id d
    ∙ ground (
      arith,
      contains-stuck_ids c s plan id,
      i.within id,
      contains-keys id s.completed,
      contains-keys id (by_id plan),
      positive,
    )

stuck_by_count-no_results :
    (limit : ℕ) (counts : Dict ℕ) (id : String)
    → contains id (stuck_by_count limit [] counts) ≡ false
unfolding stuck_by_count lookup
stuck_by_count-no_results limit [] id = refl
stuck_by_count-no_results limit ((i, n) ∷ counts) id =
    ground (arith, stuck_by_count-no_results limit counts id)

module _ (c : GraphConfig) (s : OrchestratorState) (id : String) where
  -- Stuck subtasks are those that the comprehension finds.
  abbrev IsTold : List String → Type 0
  IsTold ids =
      contains id ids
      ≡ contains id (stuck_by_count c.settings.max_specialist_retries s.completed s.retry_counts)

  choose_trigger-IsTold :
      (completed : Dict SubtaskResult)
      → completed ≡ s.completed
      → AtSome (λ (t : Trigger). IsTold t.stuck_ids) (choose_trigger c s completed none)
  unfolding choose_trigger plan_trigger stuck_trigger
  choose_trigger-IsTold [] e =
      AtSome-bind (λ (t : Trigger). IsTold t.stuck_ids) s.plan _
        λ plan _. rw (sym e) (
          ground
            (arith, stuck_by_count-no_results c.settings.max_specialist_retries s.retry_counts id))
  choose_trigger-IsTold (r ∷ completed) e = refl

  escalated-IsTold :
      (w : World) (e : Effects)
      → s.review ≡ none
      → human_escalation c w s ≡ some e
      → AtSome
          (λ (asked : EscalationRequest). IsTold (stuck_subtask_ids asked.context))
          (apply_update s e.update).escalation
  unfolding human_escalation trigger request apply_update
  escalated-IsTold w e unreviewed done =
      AtSome-of
        (λ (e : Effects).
          AtSome (λ (asked : EscalationRequest). IsTold (stuck_subtask_ids asked.context))
            (apply_update s e.update).escalation)
        (human_escalation c w s)
        (AtSome-bind _ (trigger c s) _ λ t f.
          AtSome-of (λ (t : Trigger). IsTold t.stuck_ids) (choose_trigger c s s.completed none)
            (choose_trigger-IsTold s.completed refl)
            (ap (choose_trigger c s s.completed) (sym unreviewed) ∙ f))
        done

-- In a run without a review, where the retry counts have each subtask once, the results belong to
-- the plan and the limit is not 0, the escalation tells the human of exactly those subtasks for
-- which the router escalates.
pub human_escalation-stuck_ids :
    (c : GraphConfig) (w : World) (s : OrchestratorState) (plan : ExecutionPlan) (e : Effects)
    (asked : EscalationRequest) (id : String)
    → Distinct (keys s.retry_counts)
    → InPlan s plan
    → 0 < c.settings.max_specialist_retries
    → s.review ≡ none
    → human_escalation c w s ≡ some e
    → (apply_update s e.update).escalation ≡ some asked
    → contains id (stuck_subtask_ids asked.context) ≡ contains id (stuck_ids c s plan)
human_escalation-stuck_ids c w s plan e asked id d i positive unreviewed done escalated =
    AtSome-of (λ (a : EscalationRequest). IsTold c s id (stuck_subtask_ids a.context)) _
      (escalated-IsTold c s id w e unreviewed done) escalated
    ∙ stuck_by_count-stuck_ids c s plan id d i positive

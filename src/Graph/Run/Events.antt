-- ===== src/Graph/Run/Events.antt =====
-- The trace events over a run of graph/build.py, which the recorder reads at every interruption.
use agent_orchestration_syst.Common.{
  ℕ, ◌≡◌, refl, List, [], ◌∷◌, ◌++◌, AtSome, AtSome-bind, AtSome-of, ◌∙◌, sym, ap,
}
use mathlib.Core.List.{append-nil, append_assoc}
use agent_orchestration_syst.Graph.State.{TraceEvent, apply_update}
use agent_orchestration_syst.Graph.World.{GraphConfig, World}
use agent_orchestration_syst.Graph.Nodes.Effects.{Effects}
use agent_orchestration_syst.Graph.Routing.{Next, to, send, finish, next_of}
use agent_orchestration_syst.Graph.Run.{
  Run, Reach, here, next, advance, advance_from, merge_branches, node_effects, run_branches,
  step_node,
}

-- The second run has the events of the first, and then others.
pub record Extends (r r' : Run) : Type 0 where
  pub new : List TraceEvent
  pub extends : r'.state.trace_events ≡ r.state.trace_events ++ new

Extends-trans : (r r' r'' : Run) → Extends r r' → Extends r' r'' → Extends r r''
Extends-trans r r' r'' h k = record {
  new = h.new ++ k.new;
  extends =
      k.extends ∙ ap (λ es. es ++ k.new) h.extends ∙ append_assoc r.state.trace_events h.new k.new;
}

merge_branches-Extends : (r : Run) (es : List Effects) → Extends r (merge_branches r es)
unfolding merge_branches apply_update
merge_branches-Extends r [] = record { new = []; extends = sym (append-nil _) }
merge_branches-Extends r (e ∷ es) =
    Extends-trans r (record r { state = apply_update r.state e.update; calls = r.calls ++ e.calls })
      _ (record { new = e.update.trace_events; extends = refl })
      (merge_branches-Extends
        (record r { state = apply_update r.state e.update; calls = r.calls ++ e.calls }) es)

advance_from-Extends :
    (c : GraphConfig) (w : ℕ → World) (n : Next) (r : Run)
    → AtSome (Extends r) (advance_from c w n r)
unfolding advance_from step_node apply_update
advance_from-Extends c w (to n) r =
    AtSome-bind (Extends r) (node_effects c (w 0) n r.state) _ λ e _.
      AtSome-bind (Extends r) (next_of c n (apply_update r.state e.update)) _
        λ m _. record { new = e.update.trace_events; extends = refl }
advance_from-Extends c w (send ps) r = AtSome-bind (Extends r) (run_branches c w 0 ps) _ λ es _.
    let merged = merge_branches-Extends r es in
    record { new = merged.new; extends = merged.extends }
advance_from-Extends c w finish r = tt

-- A run only ever adds trace events: wherever it gets from a point, it has the events that it had
-- there, in the same order, and then new ones.
pub Reach-Extends : (c : GraphConfig) (r r' : Run) → Reach c r r' → Extends r r'
unfolding advance
Reach-Extends c r r' here = record { new = []; extends = sym (append-nil _) }
Reach-Extends c r r' (next {r = middle} before w e) =
    Extends-trans r middle r' (Reach-Extends c r middle before) (
      AtSome-of (Extends middle) (advance_from c w middle.at middle)
        (advance_from-Extends c w middle.at middle) e)

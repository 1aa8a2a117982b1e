-- ===== src/Examples/Tracing.antt =====
-- The theorems on tracing/, applied to a run that is interrupted once.
use agent_orchestration_syst.Common.{
  ◌≡◌, refl, true, false, none, some, List, [], ◌∷◌, ◌>>=◌, get_or, All, ◌==◌,
}
use agent_orchestration_syst.Common.Dict.{Dict, lookup}
use agent_orchestration_syst.Schemas.{ToolCallLog}
use agent_orchestration_syst.Graph.State.{
  Attributes, EventStatus, Node, of_node, run_specialist_of, Status, TraceEvent,
}
use agent_orchestration_syst.Tracing.Pricing.{Price, estimate_cost}
use agent_orchestration_syst.Tracing.Store.{
  TaskRecord, TraceStore, ended, add_span, close_task, find_task, finish_task, get_task, start_task,
  sum_spans, update_task,
}
use agent_orchestration_syst.Tracing.Recorder.{
  add_calls, cost_of, from_index, persist_all, persist_and_export, record_new_events,
  record_results,
}
use agent_orchestration_syst.Tracing.Recorder.Once.{record_results-once}
use agent_orchestration_syst.Tracing.Recorder.Totals.{finished-Totals, Totals}

abbrev pub prices : Dict Price
prices = ("_default", record { input_per_million = 1_000_000; output_per_million = 3_000_000 }) ∷ []

abbrev call : ToolCallLog
call = record {
  tool_name = "run_code";
  inputs = [];
  output = some "4";
  success = true;
  latency_ms = 1;
  error = none;
}

abbrev pub asked : TraceEvent
asked = record {
  node = of_node Node.human_escalation;
  agent = "human";
  status = EventStatus.escalated;
  started_at = 1;
  ended_at = 2;
  attributes = Attributes.nothing;
  usage = [];
}

abbrev pub worked : TraceEvent
worked = record {
  node = run_specialist_of "st-1";
  agent = "writing";
  status = EventStatus.success;
  started_at = 3;
  ended_at = 9;
  attributes = Attributes.ran "st-1" (some "out") none false (call ∷ []) none none "in_process";
  usage =
      record {
        node = run_specialist_of "st-1";
        model = "gpt-5";
        tokens = record { input_tokens = 10; output_tokens = 4 };
      }
      ∷ [];
}

-- The events of the result that is interrupted, and of the result after the resumption.
abbrev results : List (List TraceEvent)
results = (asked ∷ []) ∷ (asked ∷ worked ∷ []) ∷ []

unfoldable started : TraceStore
started = start_task (record { tasks = []; spans = [] }) "t-1" "u" "task" 0

record_results-once_example :
    record_results prices "t-1" (started, 0) results
    ≡ (persist_all prices started "t-1" (asked ∷ worked ∷ []) >>= λ s. some (s, 2))
record_results-once_example =
    record_results-once prices "t-1" started results ((asked ∷ [], refl), ((worked ∷ [], refl), tt))

unfoldable recorded : TraceStore
recorded = (get_or (record_results prices "t-1" (started, 0) results) (started, 0)).0

unfoldable finished : TraceStore
finished =
    get_or (finish_task recorded "t-1" 20 (ended Status.completed) (some "writing") 0 1) recorded

unfoldable row : TaskRecord
row = get_or (get_task finished "t-1") (record {
  task_id = "";
  user_id = "";
  task_text = "";
  task_type = none;
  status = ended Status.rejected;
  started_at = 0;
  ended_at = none;
  wall_clock = none;
  human_review = 0;
  total_input_tokens = 0;
  total_output_tokens = 0;
  total_cost = 0;
  total_tool_calls = 0;
  escalation_count = 0;
})

-- What the sample run computes to.
record Computed : Type 0 where
  no_spans : started.spans ≡ []
  records : record_results prices "t-1" (started, 0) results ≡ some (recorded, 2)
  finishes :
      finish_task recorded "t-1" 20 (ended Status.completed) (some "writing") 0 1 ≡ some finished
  finds : get_task finished "t-1" ≡ some row

computed : Computed
unfolding started recorded finished row lookup estimate_cost add_span close_task find_task
    finish_task start_task sum_spans update_task add_calls cost_of from_index persist_all
    persist_and_export record_new_events record_results
computed = record { no_spans = refl; records = refl; finishes = refl; finds = refl }

fresh : All (λ s. (s.task_id == "t-1") ≡ false) started.spans
unfolding started start_task
fresh = tt

finished-Totals_example : Totals (asked ∷ worked ∷ []) (ended Status.completed) 1 row
finished-Totals_example =
    finished-Totals prices "t-1" started recorded finished 2 results 20 (ended Status.completed)
      (some "writing") 0 1 row fresh ((asked ∷ [], refl), ((worked ∷ [], refl), tt))
      computed.records computed.finishes computed.finds

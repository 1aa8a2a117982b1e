-- ===== src/Tracing/Store.antt =====
-- tracing/store.py: the two tables as lists of rows, and each method as its SQL statement. Times
-- are in nanoseconds, and so are durations. A method that raises is `none`.
use agent_orchestration_syst.Common.{
  ℕ, ◌+◌, ◌-◌, String, not, Option, none, some, List, [], ◌∷◌, ◌++◌, ◌==◌, ◌>>=◌, if◌then◌else◌,
  keep, is_some,
}
use agent_orchestration_syst.Schemas.{ToolCallLog}
use agent_orchestration_syst.Graph.State.{Attributes, EventStatus, NodeLabel, Status}

-- A span is of a node or of one call of a tool.
pub data SpanNode : Type 0 where
  node : NodeLabel → SpanNode
  tool : String → SpanNode

pub data SpanAttributes : Type 0 where
  of_event : Attributes → SpanAttributes
  of_call : ToolCallLog → SpanAttributes

-- A row of `spans`, without its id, which is its place.
pub record SpanRecord : Type 0 where
  pub task_id : String
  pub node_name : SpanNode
  pub agent : String
  pub status : EventStatus
  pub tool_name : Option String
  pub started_at : ℕ
  pub ended_at : ℕ
  pub latency : ℕ
  pub input_tokens : ℕ
  pub output_tokens : ℕ
  pub cost : ℕ
  pub attributes : SpanAttributes

-- "running", the status of a final state, or "unknown".
pub data TaskStatus : Type 0 where
  running unknown : TaskStatus
  ended : Status → TaskStatus

-- A row of `tasks`.
pub record TaskRecord : Type 0 where
  pub task_id : String
  pub user_id : String
  pub task_text : String
  pub task_type : Option String
  pub status : TaskStatus
  pub started_at : ℕ
  pub ended_at : Option ℕ
  pub wall_clock : Option ℕ
  pub human_review : ℕ
  pub total_input_tokens : ℕ
  pub total_output_tokens : ℕ
  pub total_cost : ℕ
  pub total_tool_calls : ℕ
  pub escalation_count : ℕ

pub record TraceStore : Type 0 where
  pub tasks : List TaskRecord
  pub spans : List SpanRecord

-- `start_task`: a row of the same id is replaced, with the defaults of the schema.
unfoldable pub start_task :
    TraceStore → (task_id user_id task_text : String) → (now : ℕ) → TraceStore
start_task store task_id user_id task_text now =
    let others = keep (λ (t : TaskRecord). not (t.task_id == task_id)) store.tasks in
    record store {
      tasks =
          others
          ++ record {
            task_id = task_id;
            user_id = user_id;
            task_text = task_text;
            task_type = none;
            status = running;
            started_at = now;
            ended_at = none;
            wall_clock = none;
            human_review = 0;
            total_input_tokens = 0;
            total_output_tokens = 0;
            total_cost = 0;
            total_tool_calls = 0;
            escalation_count = 0;
          }
            ∷ [];
    }

-- `add_span`, which computes the latency.
unfoldable pub add_span :
    TraceStore
    → (task_id : String) → SpanNode
    → (agent : String) → EventStatus
    → (started_at ended_at input_tokens output_tokens cost : ℕ) → (tool_name : Option String)
    → SpanAttributes
    → TraceStore
add_span store task_id node_name agent status started_at ended_at input_tokens output_tokens cost
      tool_name attributes =
    record store {
      spans =
          store.spans
          ++ record {
            task_id = task_id;
            node_name = node_name;
            agent = agent;
            status = status;
            tool_name = tool_name;
            started_at = started_at;
            ended_at = ended_at;
            latency = ended_at - started_at;
            input_tokens = input_tokens;
            output_tokens = output_tokens;
            cost = cost;
            attributes = attributes;
          }
            ∷ [];
    }

-- `SUM(...)` of a column over the spans of a task, 0 for none.
unfoldable pub sum_spans : (SpanRecord → ℕ) → (task_id : String) → List SpanRecord → ℕ
sum_spans column task_id [] = 0
sum_spans column task_id (s ∷ rest) =
    let others = sum_spans column task_id rest in
    if s.task_id == task_id then column s + others else others

-- `CASE WHEN tool_name IS NOT NULL THEN 1 ELSE 0 END`
abbrev pub is_tool_call : SpanRecord → ℕ
is_tool_call s = if is_some s.tool_name then 1 else 0

-- `get_task`
unfoldable pub find_task : (task_id : String) → List TaskRecord → Option TaskRecord
find_task task_id [] = none
find_task task_id (t ∷ rest) = if t.task_id == task_id then some t else find_task task_id rest

abbrev pub get_task : TraceStore → (task_id : String) → Option TaskRecord
get_task store task_id = find_task task_id store.tasks

-- The `UPDATE` of `finish_task` on one row.
unfoldable pub close_task :
    List SpanRecord
    → (now : ℕ) → (started_at : ℕ) → TaskStatus
    → Option String
    → (human_review escalation_count : ℕ) → TaskRecord
    → TaskRecord
unfolding sum_spans
close_task spans now started_at status task_type human_review escalation_count t = record t {
  status = status;
  task_type = task_type;
  ended_at = some now;
  wall_clock = some (now - started_at);
  human_review = human_review;
  total_input_tokens = sum_spans (λ s. s.input_tokens) t.task_id spans;
  total_output_tokens = sum_spans (λ s. s.output_tokens) t.task_id spans;
  total_cost = sum_spans (λ s. s.cost) t.task_id spans;
  total_tool_calls = sum_spans is_tool_call t.task_id spans;
  escalation_count = escalation_count;
}

unfoldable pub update_task :
    (task_id : String) → (TaskRecord → TaskRecord) → List TaskRecord → List TaskRecord
update_task task_id f [] = []
update_task task_id f (t ∷ rest) =
    let others = update_task task_id f rest in
    if t.task_id == task_id then f t ∷ others else t ∷ others

-- `finish_task`, which raises where the task was not started.
unfoldable pub finish_task :
    TraceStore
    → (task_id : String) → (now : ℕ) → TaskStatus
    → (task_type : Option String) → (human_review escalation_count : ℕ) → Option TraceStore
unfolding update_task close_task find_task
finish_task store task_id now status task_type human_review escalation_count =
    find_task task_id store.tasks >>= λ (t : TaskRecord). some (record store {
      tasks =
          update_task task_id
            (close_task store.spans now t.started_at status task_type human_review escalation_count)
            store.tasks;
    })

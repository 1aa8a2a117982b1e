-- ===== src/Examples/Queue.antt =====
-- The theorems on human_loop/approval_queue.py, applied to a server kept as association lists.
use agent_orchestration_syst.Common.{
  ◌≡◌, refl, String, Bool, true, not, ◌&&◌, ◌||◌, none, some, [], ◌∷◌, ◌==◌, arith, get_or,
  if◌then◌else◌, eq_iff,
}
use agent_orchestration_syst.Common.Dict.{
  contains, Dict, lookup, assign, remove, keys, lookup-assign,
}
use agent_orchestration_syst.Common.Dict.Keys.{contains-assign, contains-remove}
use agent_orchestration_syst.Schemas.{DecisionAction, EscalationLevel, HumanDecision, packaged}
use agent_orchestration_syst.HumanLoop.Models.{PendingApproval, pending, Role}
use agent_orchestration_syst.HumanLoop.Store.{Codec, Redis}
use agent_orchestration_syst.HumanLoop.Queue.{
  ok, get, submit, resolve, append_message, wait_for_decision,
}
use agent_orchestration_syst.HumanLoop.Queue.Reach.{IsListed, here, then_step, Steps-IsListed}
use agent_orchestration_syst.HumanLoop.Queue.Reach
use agent_orchestration_syst.HumanLoop.Queue.Wait.{later, wait-resolve}
use agent_orchestration_syst.HumanLoop.Queue.Wait

pub record Server : Type 0 where
  pub hashes : Dict (Dict PendingApproval)
  pub sets : Dict (Dict Bool)

abbrev hash : Server → String → Dict PendingApproval
hash s name = get_or (lookup name s.hashes) []

abbrev set_of : Server → String → Dict Bool
set_of s name = get_or (lookup name s.sets) []

abbrev hset : Server → (name key : String) → PendingApproval → Server
hset s name k v = record s { hashes = assign name (assign k v (hash s name)) s.hashes }

abbrev sadd : Server → (name member : String) → Server
sadd s name m = record s { sets = assign name (assign m true (set_of s name)) s.sets }

abbrev srem : Server → (name member : String) → Server
srem s name m = record s { sets = assign name (remove m (set_of s name)) s.sets }

pub hget-hset :
    (s : Server) (name k : String) (v : PendingApproval) (k' : String)
    → lookup k' (hash (hset s name k v) name)
      ≡ (if k == k' then some v else lookup k' (hash s name))
hget-hset s name k v k' = ground (
  arith,
  lookup-assign name name (assign k v (hash s name)) s.hashes,
  eq_iff name name,
  lookup-assign k k' v (hash s name),
)

pub contains-sadd :
    (s : Server) (name m m' : String)
    → contains m' (keys (set_of (sadd s name m) name))
      ≡ (m == m') || contains m' (keys (set_of s name))
contains-sadd s name m m' = ground (
  arith,
  lookup-assign name name (assign m true (set_of s name)) s.sets,
  eq_iff name name,
  contains-assign m m' true (set_of s name),
)

pub contains-srem :
    (s : Server) (name m m' : String)
    → contains m' (keys (set_of (srem s name m) name))
      ≡ not (m == m') && contains m' (keys (set_of s name))
contains-srem s name m m' = ground (
  arith,
  lookup-assign name name (remove m (set_of s name)) s.sets,
  eq_iff name name,
  contains-remove m m' (set_of s name),
)

abbrev pub redis : Redis Server PendingApproval
redis = record {
  hset = hset;
  hget = λ s name k. lookup k (hash s name);
  hgetall = hash;
  sadd = sadd;
  srem = srem;
  smembers = λ s name. keys (set_of s name);
  hget-hset = hget-hset;
  hget-sadd = λ s name m name' k ne. refl;
  hget-srem = λ s name m name' k ne. refl;
  lookup-hgetall = λ s name k. refl;
  contains-sadd = contains-sadd;
  contains-srem = contains-srem;
  contains-hset = λ s name k v name' m ne. refl;
}

abbrev pub codec : Codec PendingApproval
codec = record {
  dump = λ a. a;
  validate = λ a. some a;
  truthy = λ _. true;
  validate-dump = λ a. refl;
  truthy-dump = λ a. refl;
}

abbrev pub empty : Server
empty = record { hashes = []; sets = [] }

abbrev pub approval : PendingApproval
approval = record {
  task_id = "t-1";
  escalation = record {
    level = EscalationLevel.approve_plan;
    reason = "";
    context = packaged (record {
      task = "task";
      user_id = none;
      plan = none;
      completed = [];
      review = none;
      memory_context = "";
      stuck_subtask_ids = [];
    });
  };
  source = "plan_sensitive";
  status = pending;
  decision = none;
  messages = [];
  created_at = 0;
  resolved_at = none;
}

abbrev pub decision : HumanDecision
decision = record { action = DecisionAction.approve; feedback = none; output = none }

-- The server after the submission, and after a message to the human.
abbrev submitted : Server
submitted = submit redis codec empty approval

abbrev asked : Server
asked = (append_message redis codec submitted "t-1" Role.agent "please look" 5).1

empty-IsListed : IsListed redis codec empty
unfolding get lookup
empty-IsListed id w = ground (arith, w)

Steps-IsListed_example : IsListed redis codec asked
Steps-IsListed_example =
    Steps-IsListed redis codec
      (then_step (then_step here (Reach.submitted approval))
        (Reach.messaged "t-1" Role.agent "please look" 5))
      empty-IsListed

wait-resolve_example :
    wait_for_decision redis codec "t-1" none
      ((submitted, 0) ∷ ((resolve redis codec asked "t-1" decision 9).1, 2) ∷ [])
    ≡ some (ok decision)
wait-resolve_example =
    wait-resolve redis codec empty approval refl ((submitted, 0) ∷ []) (Wait.here, tt) asked
      (later Wait.here (Wait.messaged "t-1" Role.agent "please look" 5)) decision 9 2 []

-- ===== src/HumanLoop/Store.antt =====
-- What human_loop/approval_queue.py uses of Redis and of pydantic's JSON, with what it relies
-- on. Redis keeps hashes and sets under names. A name that holds the one kind is not used for
-- the other.
use agent_orchestration_syst.Common.{
  ◌≡◌, String, Bool, true, false, not, ◌&&◌, ◌||◌, Option, some, List, ◌==◌, if◌then◌else◌,
}
use agent_orchestration_syst.Common.Dict.{Dict, contains, lookup}
use agent_orchestration_syst.HumanLoop.Models.{PendingApproval}

-- `S` are the states of the server, and `V` the texts it holds.
pub record Redis (S : Type 0) (V : Type 0) : Type 0 where
  pub hset : S → (name key : String) → V → S
  pub hget : S → (name key : String) → Option V
  pub hgetall : S → (name : String) → Dict V
  pub sadd : S → (name member : String) → S
  pub srem : S → (name member : String) → S
  pub smembers : S → (name : String) → List String
  pub hget-hset :
      (s : S) (name key : String) (v : V) (key' : String)
      → hget (hset s name key v) name key' ≡ (if key == key' then some v else hget s name key')
  pub hget-sadd :
      (s : S) (name member name' key : String)
      → (name == name') ≡ false
      → hget (sadd s name member) name' key ≡ hget s name' key
  pub hget-srem :
      (s : S) (name member name' key : String)
      → (name == name') ≡ false
      → hget (srem s name member) name' key ≡ hget s name' key
  pub lookup-hgetall : (s : S) (name key : String) → lookup key (hgetall s name) ≡ hget s name key
  pub contains-sadd :
      (s : S) (name member member' : String)
      → contains member' (smembers (sadd s name member) name)
        ≡ (member == member') || contains member' (smembers s name)
  pub contains-srem :
      (s : S) (name member member' : String)
      → contains member' (smembers (srem s name member) name)
        ≡ not (member == member') && contains member' (smembers s name)
  pub contains-hset :
      (s : S) (name key : String) (v : V) (name' member : String)
      → (name == name') ≡ false
      → contains member (smembers (hset s name key v) name') ≡ contains member (smembers s name')

-- `model_dump_json` and `model_validate_json`, which raises on a text that is no entry. A text
-- is tested for being empty before it is read.
pub record Codec (V : Type 0) : Type 0 where
  pub dump : PendingApproval → V
  pub validate : V → Option PendingApproval
  pub truthy : V → Bool
  pub validate-dump : (a : PendingApproval) → validate (dump a) ≡ some a
  pub truthy-dump : (a : PendingApproval) → truthy (dump a) ≡ true

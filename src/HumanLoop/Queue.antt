-- ===== src/HumanLoop/Queue.antt =====
-- human_loop/approval_queue.py: the entries in one hash and the ids of the pending ones in one
-- set. Each operation takes the server's state and returns it. Where two commands follow one
-- another, another process may act between them, which is not modelled.
pub mod Reach
pub mod Wait
use agent_orchestration_syst.Common.{
  ℕ, String, Bool, false, Option, none, some, List, [], ◌∷◌, ◌++◌, ltb, if◌then◌else◌,
}
use agent_orchestration_syst.Common.Dict.{values}
use agent_orchestration_syst.Schemas.{EscalationRequest, HumanDecision}
use agent_orchestration_syst.HumanLoop.Models.{
  resolved, notified, is_resolved, ChatMessage, PendingApproval, Role,
}
use agent_orchestration_syst.HumanLoop.Store.{Codec, Redis}

-- The exceptions: pydantic's on a text that is no entry, and those of the class.
pub data Error : Type 0 where
  validation_error key_error timeout_error : Error

pub data Answer {ℓ} (A : Type ℓ) : Type ℓ where
  ok : A → Answer A
  raise : Error → Answer A

abbrev pub key : String
key = "approvals"

abbrev pub pending_set : String
pending_set = "approvals:pending"

module _ {S V : Type 0} (redis : Redis S V) (codec : Codec V) where
  -- `submit`
  unfoldable pub submit : S → PendingApproval → S
  submit s approval =
      redis.sadd (redis.hset s key approval.task_id (codec.dump approval)) pending_set
        approval.task_id

  -- `PendingApproval.model_validate_json`
  unfoldable pub read : V → Answer PendingApproval
  read raw = elim (codec.validate raw) [
    | none ↦ raise validation_error
    | some approval ↦ ok approval
  ]

  -- `get`
  unfoldable pub get : S → (task_id : String) → Answer (Option PendingApproval)
  unfolding read
  get s task_id = elim (redis.hget s key task_id) [
    | none ↦ ok none
    | some raw ↦
        if codec.truthy raw
        then elim (read raw) [ ok approval ↦ ok (some approval) | raise e ↦ raise e ]
        else ok none
  ]

  -- `list_pending` over the members
  unfoldable pub list_from : S → List String → Answer (List PendingApproval)
  list_from s [] = ok []
  list_from s (task_id ∷ ids) =
      let rest = list_from s ids in
      elim (get s task_id) [
        | raise e ↦ raise e
        | ok none ↦ rest
        | ok (some approval) ↦ elim rest [ ok more ↦ ok (approval ∷ more) | raise e ↦ raise e ]
      ]

  abbrev pub list_pending : S → Answer (List PendingApproval)
  list_pending s = list_from s (redis.smembers s pending_set)

  -- `list_all`
  unfoldable pub read_all : List V → Answer (List PendingApproval)
  read_all [] = ok []
  read_all (raw ∷ raws) =
      let rest = read_all raws in
      elim (read raw) [
        | raise e ↦ raise e
        | ok approval ↦ elim rest [ ok more ↦ ok (approval ∷ more) | raise e ↦ raise e ]
      ]

  abbrev pub list_all : S → Answer (List PendingApproval)
  list_all s = read_all (values (redis.hgetall s key))

  -- `resolve`
  unfoldable pub resolve :
      S → (task_id : String) → HumanDecision → (utcnow : ℕ) → Answer PendingApproval × S
  resolve s task_id decision utcnow = elim (get s task_id) [
    | raise e ↦ (raise e, s)
    | ok none ↦ (raise key_error, s)
    | ok (some approval) ↦
        let approval' = record approval {
          decision = some decision;
          status = resolved;
          resolved_at = some utcnow;
        } in
        (
          ok approval',
          redis.srem (redis.hset s key task_id (codec.dump approval')) pending_set task_id,
        )
  ]

  -- The entry that `notify` writes.
  abbrev pub notified_entry :
      (task_id : String) → EscalationRequest → (created_at utcnow : ℕ) → PendingApproval
  notified_entry task_id escalation created_at utcnow = record {
    task_id = task_id;
    escalation = escalation;
    source = "notify";
    status = notified;
    decision = none;
    messages = [];
    created_at = created_at;
    resolved_at = some utcnow;
  }

  -- `notify`
  unfoldable pub notify :
      S → (task_id : String) → EscalationRequest → (created_at utcnow : ℕ) → PendingApproval × S
  notify s task_id escalation created_at utcnow =
      let approval = notified_entry task_id escalation created_at utcnow in
      (approval, redis.hset s key task_id (codec.dump approval))

  -- `append_message`
  unfoldable pub append_message :
      S → (task_id : String) → Role → (content : String) → (utcnow : ℕ) → Answer PendingApproval × S
  append_message s task_id role content utcnow = elim (get s task_id) [
    | raise e ↦ (raise e, s)
    | ok none ↦ (raise key_error, s)
    | ok (some approval) ↦
        let message : ChatMessage = record { role = role; content = content; timestamp = utcnow } in
        let approval' = record approval { messages = approval.messages ++ message ∷ [] } in
        (ok approval', redis.hset s key task_id (codec.dump approval'))
  ]

  -- The decision that ends the wait, where the entry has one.
  abbrev pub decision_of : Option PendingApproval → Option HumanDecision
  decision_of none = none
  decision_of (some approval) = if is_resolved approval.status then approval.decision else none

  -- The time is up.
  abbrev pub is_late : (timeout : Option ℕ) (elapsed : ℕ) → Bool
  is_late none elapsed = false
  is_late (some limit) elapsed = ltb limit elapsed

  -- `wait_for_decision`: the polls are what the loop sees, the server's state and the time since
  -- the start. `none` stands for a loop that still sleeps after the last of them.
  unfoldable pub wait_for_decision :
      (task_id : String) (timeout : Option ℕ) → List (S × ℕ) → Option (Answer HumanDecision)
  wait_for_decision task_id timeout [] = none
  wait_for_decision task_id timeout ((s, elapsed) ∷ polls) =
      let rest = wait_for_decision task_id timeout polls in
      elim (get s task_id) [
        | raise e ↦ some (raise e)
        | ok found ↦ elim (decision_of found) [
          | some decision ↦ some (ok decision)
          | none ↦ if is_late timeout elapsed then some (raise timeout_error) else rest
        ]
      ]

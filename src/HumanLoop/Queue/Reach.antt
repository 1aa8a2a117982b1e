-- ===== src/HumanLoop/Queue/Reach.antt =====
-- human_loop/approval_queue.py: what the operations, in any order, keep true of the server.
use agent_orchestration_syst.Common.{
  ℕ, ◌≡◌, refl, String, Bool, true, false, Option, none, some, [], ◌∷◌, ◌++◌, ◌==◌, ◌⊎◌, inl, inr,
  sym, ◌∙◌, ap, if◌then◌else◌, arith, eq_iff, subst,
}
use agent_orchestration_syst.Common.Dict.{contains}
use agent_orchestration_syst.Schemas.{EscalationRequest, HumanDecision}
use agent_orchestration_syst.HumanLoop.Models.{
  ApprovalStatus, pending, resolved, PendingApproval, Role,
}
use agent_orchestration_syst.HumanLoop.Store.{Codec, Redis}
use agent_orchestration_syst.HumanLoop.Queue.{
  Answer, Error, ok, raise, get, key, pending_set, read, submit, resolve, notify, append_message,
  notified_entry,
}

-- The three answers of `get`.
pub Found-cases :
    (x : Answer (Option PendingApproval))
    → ((e : Error) × (x ≡ raise e)) ⊎ ((x ≡ ok none) ⊎ ((a : PendingApproval) × (x ≡ ok (some a))))
Found-cases (raise e) = inl (e, refl)
Found-cases (ok none) = inr (inl refl)
Found-cases (ok (some a)) = inr (inr (a, refl))

module _ {S V : Type 0} (redis : Redis S V) (codec : Codec V) where
  -- An entry as `get` finds it in the hash.
  abbrev pub entry : Option V → Answer (Option PendingApproval)
  unfolding read
  entry o = elim o [
    | none ↦ ok none
    | some raw ↦
        if codec.truthy raw
        then elim (read redis codec raw) [ ok approval ↦ ok (some approval) | raise e ↦ raise e ]
        else ok none
  ]

  pub get-entry : (s : S) (id : String) → get redis codec s id ≡ entry (redis.hget s key id)
  unfolding get
  get-entry s id = refl

  entry-dump : (a : PendingApproval) → entry (some (codec.dump a)) ≡ ok (some a)
  unfolding read
  entry-dump a = rw (codec.truthy-dump a, codec.validate-dump a) refl

  entry-if :
      (b : Bool) (a : PendingApproval) (o : Option V)
      → entry (if b then some (codec.dump a) else o) ≡ (if b then ok (some a) else entry o)
  entry-if true a o = entry-dump a
  entry-if false a o = refl

  -- What is written under an id is found under it, and the other ids keep what they had.
  pub get-hset :
      (s : S) (id : String) (a : PendingApproval) (id' : String)
      → get redis codec (redis.hset s key id (codec.dump a)) id'
        ≡ (if id == id' then ok (some a) else get redis codec s id')
  unfolding get
  get-hset s id a id' =
      ap entry (redis.hget-hset s key id (codec.dump a) id')
      ∙ entry-if (id == id') a (redis.hget s key id')

  pub get-sadd :
      (s : S) (member id : String)
      → get redis codec (redis.sadd s pending_set member) id ≡ get redis codec s id
  unfolding get
  get-sadd s member id = ap entry (redis.hget-sadd s pending_set member key id refl)

  pub get-srem :
      (s : S) (member id : String)
      → get redis codec (redis.srem s pending_set member) id ≡ get redis codec s id
  unfolding get
  get-srem s member id = ap entry (redis.hget-srem s pending_set member key id refl)

  -- One operation on the server's state, by whichever process.
  pub data Step : S → S → Type 0 where
    submitted : {s : S} (a : PendingApproval) → Step s (submit redis codec s a)
    decided :
        {s : S} (id : String) (d : HumanDecision) (utcnow : ℕ)
        → Step s (resolve redis codec s id d utcnow).1
    informed :
        {s : S} (id : String) (e : EscalationRequest) (created_at utcnow : ℕ)
        → Step s (notify redis codec s id e created_at utcnow).1
    messaged :
        {s : S} (id : String) (role : Role) (content : String) (utcnow : ℕ)
        → Step s (append_message redis codec s id role content utcnow).1

  pub data Steps (s : S) : S → Type 0 where
    here : Steps s s
    then_step : {t u : S} → Steps s t → Step t u → Steps s u

  -- The entry waits for a decision.
  abbrev pub is_pending : ApprovalStatus → Bool
  is_pending pending = true
  is_pending _ = false

  abbrev pub is_waiting : Answer (Option PendingApproval) → Bool
  is_waiting (ok (some a)) = is_pending a.status
  is_waiting _ = false

  -- Every entry that waits for a decision has its id in the set of the pending ones.
  abbrev pub IsListed : S → Type 0
  IsListed s =
      (id : String)
      → is_waiting (get redis codec s id) ≡ true
      → contains id (redis.smembers s pending_set) ≡ true

  submit-IsListed : (s : S) (a : PendingApproval) → IsListed s → IsListed (submit redis codec s a)
  unfolding submit
  submit-IsListed s a h id w = ground (
    arith,
    h id,
    eq_iff a.task_id id,
    w,
    get-sadd (redis.hset s key a.task_id (codec.dump a)) a.task_id id,
    get-hset s a.task_id a id,
    redis.contains-sadd (redis.hset s key a.task_id (codec.dump a)) pending_set a.task_id id,
    redis.contains-hset s key a.task_id (codec.dump a) pending_set id refl,
  )

  -- An entry that does not wait may be written under any id.
  quiet-IsListed :
      (s : S) (id : String) (a : PendingApproval)
      → is_pending a.status ≡ false
      → IsListed s
      → IsListed (redis.hset s key id (codec.dump a))
  quiet-IsListed s id a q h id' w = ground (
    arith,
    h id',
    w,
    q,
    get-hset s id a id',
    redis.contains-hset s key id (codec.dump a) pending_set id' refl,
  )

  removed-IsListed :
      (s : S) (id : String) (a : PendingApproval)
      → is_pending a.status ≡ false
      → IsListed s
      → IsListed (redis.srem (redis.hset s key id (codec.dump a)) pending_set id)
  removed-IsListed s id a q h id' w = ground (
    arith,
    h id',
    w,
    q,
    eq_iff id id',
    get-hset s id a id',
    get-srem (redis.hset s key id (codec.dump a)) id id',
    redis.contains-srem (redis.hset s key id (codec.dump a)) pending_set id id',
    redis.contains-hset s key id (codec.dump a) pending_set id' refl,
  )

  -- An entry that waits as much as the one that was there may be written.
  rewritten-IsListed :
      (s : S) (id : String) (a b : PendingApproval)
      → get redis codec s id ≡ ok (some a)
      → is_pending b.status ≡ is_pending a.status
      → IsListed s
      → IsListed (redis.hset s key id (codec.dump b))
  rewritten-IsListed s id a b p q h id' w = ground (
    arith,
    h id',
    h id,
    w,
    p,
    q,
    eq_iff id id',
    get-hset s id b id',
    redis.contains-hset s key id (codec.dump b) pending_set id' refl,
  )

  -- The entry after a decision.
  abbrev pub with_decision : PendingApproval → HumanDecision → ℕ → PendingApproval
  with_decision a d utcnow = record a {
    decision = some d;
    status = resolved;
    resolved_at = some utcnow;
  }

  pub resolve-found :
      (s : S) (id : String) (d : HumanDecision) (utcnow : ℕ) (a : PendingApproval)
      → get redis codec s id ≡ ok (some a)
      → resolve redis codec s id d utcnow ≡ (
        ok (with_decision a d utcnow),
        redis.srem (redis.hset s key id (codec.dump (with_decision a d utcnow))) pending_set id,
      )
  unfolding resolve
  resolve-found s id d utcnow a p = rw (p, resolve) refl

  resolve-IsListed :
      (s : S) (id : String) (d : HumanDecision) (utcnow : ℕ)
      → IsListed s
      → IsListed (resolve redis codec s id d utcnow).1
  unfolding resolve
  resolve-IsListed s id d utcnow h = elim (Found-cases (get redis codec s id)) [
    | inl (e, p) ↦ rw (p, resolve, IsListed) h
    | inr (inl p) ↦ rw (p, resolve, IsListed) h
    | inr (inr (a, p)) ↦
        subst (λ x. IsListed x.1) (sym (resolve-found s id d utcnow a p))
          (removed-IsListed s id (with_decision a d utcnow) refl h)
  ]

  abbrev pub with_message : PendingApproval → Role → String → ℕ → PendingApproval
  with_message a role content utcnow = record a {
    messages = a.messages ++ record { role = role; content = content; timestamp = utcnow } ∷ [];
  }

  append_message-IsListed :
      (s : S) (id : String) (role : Role) (content : String) (utcnow : ℕ)
      → IsListed s
      → IsListed (append_message redis codec s id role content utcnow).1
  unfolding append_message
  append_message-IsListed s id role content utcnow h = elim (Found-cases (get redis codec s id)) [
    | inl (e, p) ↦ rw (p, append_message, IsListed) h
    | inr (inl p) ↦ rw (p, append_message, IsListed) h
    | inr (inr (a, p)) ↦
        rw (p, append_message)
          (rewritten-IsListed s id a (with_message a role content utcnow) p refl h)
  ]

  Step-IsListed : {s t : S} → Step s t → IsListed s → IsListed t
  unfolding notify
  Step-IsListed (submitted {s} a) h = submit-IsListed s a h
  Step-IsListed (decided {s} id d utcnow) h = resolve-IsListed s id d utcnow h
  Step-IsListed (informed {s} id e created_at utcnow) h =
      quiet-IsListed s id (notified_entry redis codec id e created_at utcnow) refl h
  Step-IsListed (messaged {s} id role content utcnow) h =
      append_message-IsListed s id role content utcnow h

  -- Whatever sequence of submissions, decisions, notifications and messages the processes make,
  -- from a server where every waiting entry is in the set of the pending ids, every waiting entry
  -- is in that set, so that `list_pending` reads it.
  pub Steps-IsListed : {s t : S} → Steps s t → IsListed s → IsListed t
  Steps-IsListed here h = h
  Steps-IsListed (then_step more step) h = Step-IsListed step (Steps-IsListed more h)

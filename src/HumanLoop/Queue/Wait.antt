-- ===== src/HumanLoop/Queue/Wait.antt =====
-- human_loop/approval_queue.py: `wait_for_decision` of a run that has submitted an entry.
use agent_orchestration_syst.Common.{
  ℕ, ◌≡◌, refl, String, Bool, true, false, not, Option, none, some, List, [], ◌∷◌, ◌++◌, ◌==◌, inl,
  inr, ◌∙◌, ap, if◌then◌else◌, arith, eq_refl, eq_iff, is_some, All, All-map,
}
use agent_orchestration_syst.Schemas.{EscalationRequest, HumanDecision}
use agent_orchestration_syst.HumanLoop.Models.{PendingApproval, Role}
use agent_orchestration_syst.HumanLoop.Store.{Codec, Redis}
use agent_orchestration_syst.HumanLoop.Queue.{
  Answer, ok, raise, get, key, submit, resolve, notify, append_message, decision_of,
  wait_for_decision, notified_entry,
}
use agent_orchestration_syst.HumanLoop.Queue.Reach.{
  Found-cases, get-hset, get-sadd, get-srem, resolve-found, with_decision, with_message,
}

module _ {S V : Type 0} (redis : Redis S V) (codec : Codec V) where
  -- There is an entry under the id, and it does not end a wait.
  abbrev pub is_open : Answer (Option PendingApproval) → Bool
  is_open (ok (some a)) = not (is_some (decision_of redis codec (some a)))
  is_open _ = false

  -- What other processes and the runs do between the submission under an id and the decision
  -- on it. New entries have no decision.
  pub data Meanwhile (id : String) : S → S → Type 0 where
    submitted :
        {s : S} (a : PendingApproval) → a.decision ≡ none → Meanwhile id s (submit redis codec s a)
    decided_other :
        {s : S} (other : String) (d : HumanDecision) (utcnow : ℕ)
        → (other == id) ≡ false
        → Meanwhile id s (resolve redis codec s other d utcnow).1
    informed :
        {s : S} (other : String) (e : EscalationRequest) (created_at utcnow : ℕ)
        → Meanwhile id s (notify redis codec s other e created_at utcnow).1
    messaged :
        {s : S} (other : String) (role : Role) (content : String) (utcnow : ℕ)
        → Meanwhile id s (append_message redis codec s other role content utcnow).1

  pub data Undecided (id : String) (s : S) : S → Type 0 where
    here : Undecided id s s
    later : {t u : S} → Undecided id s t → Meanwhile id t u → Undecided id s u

  hset-is_open :
      (s : S) (other id : String) (a : PendingApproval)
      → is_some (decision_of redis codec (some a)) ≡ false
      → is_open (get redis codec s id) ≡ true
      → is_open (get redis codec (redis.hset s key other (codec.dump a)) id) ≡ true
  hset-is_open s other id a n h = ground (arith, n, h, get-hset redis codec s other a id)

  open-entry :
      (a : PendingApproval) → a.decision ≡ none → is_some (decision_of redis codec (some a)) ≡ false
  open-entry a n = ground (arith, n)

  submit-keeps :
      (s : S) (a : PendingApproval) (id : String)
      → a.decision ≡ none
      → is_open (get redis codec s id) ≡ true
      → is_open (get redis codec (submit redis codec s a) id) ≡ true
  unfolding submit
  submit-keeps s a id n h =
      rw (get-sadd redis codec _ a.task_id id) (hset-is_open s a.task_id id a (open-entry a n) h)

  submit-is_open :
      (s : S) (a : PendingApproval)
      → a.decision ≡ none
      → is_open (get redis codec (submit redis codec s a) a.task_id) ≡ true
  unfolding submit
  submit-is_open s a n = ground (
    arith,
    open-entry a n,
    eq_refl a.task_id,
    get-hset redis codec s a.task_id a a.task_id,
    get-sadd redis codec (redis.hset s key a.task_id (codec.dump a)) a.task_id a.task_id,
  )

  resolve-keeps :
      (s : S) (other id : String) (d : HumanDecision) (utcnow : ℕ)
      → (other == id) ≡ false
      → is_open (get redis codec s id) ≡ true
      → is_open (get redis codec (resolve redis codec s other d utcnow).1 id) ≡ true
  unfolding resolve
  resolve-keeps s other id d utcnow ne h = elim (Found-cases (get redis codec s other)) [
    | inl (e, p) ↦ rw (p, resolve) h
    | inr (inl p) ↦ rw (p, resolve) h
    | inr (inr (a, p)) ↦ ground (
      arith,
      ne,
      h,
      ap (λ x. x.1) (resolve-found redis codec s other d utcnow a p),
      get-srem redis codec
          (redis.hset s key other (codec.dump (with_decision redis codec a d utcnow))) other id,
      get-hset redis codec s other (with_decision redis codec a d utcnow) id,
    )
  ]

  append_message-keeps :
      (s : S) (other id : String) (role : Role) (content : String) (utcnow : ℕ)
      → is_open (get redis codec s id) ≡ true
      → is_open (get redis codec (append_message redis codec s other role content utcnow).1 id)
        ≡ true
  unfolding append_message
  append_message-keeps s other id role content utcnow h =
      elim (Found-cases (get redis codec s other)) [
        | inl (e, p) ↦ rw (p, append_message) h
        | inr (inl p) ↦ rw (p, append_message) h
        | inr (inr (a, p)) ↦
            rw (p, append_message)
              (ground (
                arith,
                p,
                h,
                eq_iff other id,
                get-hset redis codec s other (with_message redis codec a role content utcnow) id,
              ))
      ]

  Meanwhile-is_open :
      {id : String} {s t : S}
      → Meanwhile id s t
      → is_open (get redis codec s id) ≡ true
      → is_open (get redis codec t id) ≡ true
  unfolding notify
  Meanwhile-is_open {id} (submitted {s} a n) h = submit-keeps s a id n h
  Meanwhile-is_open {id} (decided_other {s} other d utcnow ne) h =
      resolve-keeps s other id d utcnow ne h
  Meanwhile-is_open {id} (informed {s} other e created_at utcnow) h =
      hset-is_open s other id (notified_entry redis codec other e created_at utcnow) refl h
  Meanwhile-is_open {id} (messaged {s} other role content utcnow) h =
      append_message-keeps s other id role content utcnow h

  Undecided-is_open :
      {id : String} {s t : S}
      → Undecided id s t
      → is_open (get redis codec s id) ≡ true
      → is_open (get redis codec t id) ≡ true
  Undecided-is_open here h = h
  Undecided-is_open (later more m) h = Meanwhile-is_open m (Undecided-is_open more h)

  -- A poll of an entry that is open goes on.
  open-polls :
      (id : String) (polls rest : List (S × ℕ))
      → All (λ p. is_open (get redis codec p.0 id) ≡ true) polls
      → wait_for_decision redis codec id none (polls ++ rest)
        ≡ wait_for_decision redis codec id none rest
  unfolding wait_for_decision
  open-polls id [] rest h = refl
  open-polls id ((s, elapsed) ∷ polls) rest h = ground (arith, h.0, open-polls id polls rest h.1)

  -- The entry that `resolve` writes ends the wait with its decision.
  resolved-get :
      (s : S) (id : String) (d : HumanDecision) (utcnow : ℕ) (a : PendingApproval)
      → get redis codec s id ≡ ok (some a)
      → get redis codec (resolve redis codec s id d utcnow).1 id
        ≡ ok (some (with_decision redis codec a d utcnow))
  resolved-get s id d utcnow a p =
      ap (λ x. get redis codec x.1 id) (resolve-found redis codec s id d utcnow a p)
      ∙ get-srem redis codec _ id id
      ∙ get-hset redis codec s id (with_decision redis codec a d utcnow) id
      ∙ ap
          (λ b.
            if b then ok (some (with_decision redis codec a d utcnow)) else get redis codec s id)
          (eq_refl id)

  found-of-open :
      (x : Answer (Option PendingApproval))
      → is_open x ≡ true
      → (a : PendingApproval) × (x ≡ ok (some a))
  found-of-open (ok (some a)) h = (a, refl)
  found-of-open (ok none) h = ground (arith, h)
  found-of-open (raise e) h = ground (arith, h)

  -- A run that submits a new entry and then waits without a timeout, as the runners do, is
  -- resumed with the decision that `resolve` is given for it: the polls before it see other
  -- submissions, decisions on other entries, notifications and messages, and none of them ends
  -- the wait, also where an earlier escalation of the same run was decided. The first poll after
  -- the decision returns it.
  pub wait-resolve :
      (start : S) (a : PendingApproval)
      → a.decision ≡ none
      → (polls : List (S × ℕ))
      → All (λ p. Undecided a.task_id (submit redis codec start a) p.0) polls
      → (s : S) → Undecided a.task_id (submit redis codec start a) s
      → (d : HumanDecision) (utcnow elapsed : ℕ) (rest : List (S × ℕ))
      → wait_for_decision redis codec a.task_id none
          (polls ++ ((resolve redis codec s a.task_id d utcnow).1, elapsed) ∷ rest)
        ≡ some (ok d)
  unfolding wait_for_decision
  wait-resolve start a n polls h s u d utcnow elapsed rest =
      open-polls a.task_id polls _ (
        All-map _ (λ p. is_open (get redis codec p.0 a.task_id) ≡ true)
          (λ p k. Undecided-is_open k opened) polls h)
      ∙ ground (arith, resolved-get s a.task_id d utcnow found.0 found.1)
    where
      opened : is_open (get redis codec (submit redis codec start a) a.task_id) ≡ true
      opened = submit-is_open start a n

      found : (b : PendingApproval) × (get redis codec s a.task_id ≡ ok (some b))
      found = found-of-open (get redis codec s a.task_id) (Undecided-is_open u opened)

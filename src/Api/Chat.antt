-- ===== src/Api/Chat.antt =====
-- api.py: what a clarifying question leaves on the approval.
use agent_orchestration_syst.Common.{
  Option, none, ◌++◌, [], ◌∷◌, List, ℕ, ◌≡◌, refl, String, some, ◌∙◌, ap, eq_refl, if◌then◌else◌,
  arith,
}
use agent_orchestration_syst.Schemas.{Context}
use agent_orchestration_syst.HumanLoop.Models.{ChatMessage, PendingApproval, Role}
use agent_orchestration_syst.HumanLoop.Store.{Codec, Redis}
use agent_orchestration_syst.HumanLoop.Queue.{ok, append_message, get, key}
use agent_orchestration_syst.HumanLoop.Queue.Reach.{get-hset, with_message}
use agent_orchestration_syst.Api.{
  Response, clarifier_error, last, ask_about_approval, ask_of, get_or_404, success,
}

last-append : (ms : List ChatMessage) (m : ChatMessage) → last (ms ++ m ∷ []) ≡ some m
unfolding last
last-append [] m = refl
last-append (n ∷ []) m = refl
last-append (n ∷ k ∷ ms) m = last-append (k ∷ ms) m

module _ {S V : Type 0} (redis : Redis S V) (codec : Codec V) where
  append_message-found :
      (s : S) (id : String) (role : Role) (content : String) (now : ℕ) (a : PendingApproval)
      → get redis codec s id ≡ ok (some a)
      → append_message redis codec s id role content now ≡ (
        ok (with_message redis codec a role content now),
        redis.hset s key id (codec.dump (with_message redis codec a role content now)),
      )
  unfolding append_message
  append_message-found s id role content now a p = rw (p, append_message) refl

  append_message-get :
      (s : S) (id : String) (role : Role) (content : String) (now : ℕ) (a : PendingApproval)
      → get redis codec s id ≡ ok (some a)
      → get redis codec (append_message redis codec s id role content now).1 id
        ≡ ok (some (with_message redis codec a role content now))
  append_message-get s id role content now a p =
      ap (λ x. get redis codec x.1 id) (append_message-found s id role content now a p)
      ∙ get-hset redis codec s id (with_message redis codec a role content now) id
      ∙ ap
          (λ b.
            if b
            then ok (some (with_message redis codec a role content now))
            else get redis codec s id)
          (eq_refl id)

  -- The approval after a question, and after its answer where the clarifier gives one.
  abbrev pub entry_after :
      PendingApproval
      → (question : String) → (answer : Option String) → (asked_at answered_at : ℕ)
      → PendingApproval
  entry_after a question none asked_at answered_at =
      with_message redis codec a Role.human question asked_at
  entry_after a question (some text) asked_at answered_at =
      with_message redis codec (with_message redis codec a Role.human question asked_at) Role.agent
        text answered_at

  -- The answer that the endpoint gives.
  abbrev pub said : (answer : Option String) → (answered_at : ℕ) → Response ChatMessage
  said none answered_at = clarifier_error
  said (some text) answered_at =
      success (record { role = Role.agent; content = text; timestamp = answered_at })

  ask_of-answered :
      (s : S) (id question : String) (answer : Option String) (asked_at answered_at : ℕ)
      (a : PendingApproval)
      → get redis codec s id ≡ ok (some a)
      → let result = ask_of redis codec s id question answer asked_at answered_at in
        (result.0 ≡ said answer answered_at)
        × (get redis codec result.1 id
            ≡ ok (some (entry_after a question answer asked_at answered_at)))
  unfolding ask_of
  ask_of-answered s id question none asked_at answered_at a p =
      let one : (append_message redis codec s id Role.human question asked_at).0
          ≡ ok (with_message redis codec a Role.human question asked_at) =
        ap (λ x. x.0) (append_message-found s id Role.human question asked_at a p) in
      (
        ground (arith, one),
        ground (arith, one, append_message-get s id Role.human question asked_at a p),
      )
  ask_of-answered s id question (some text) asked_at answered_at a p =
      let first = append_message redis codec s id Role.human question asked_at in
      let between = with_message redis codec a Role.human question asked_at in
      let there : get redis codec first.1 id ≡ ok (some between) =
        append_message-get s id Role.human question asked_at a p in
      let one : first.0 ≡ ok between =
        ap (λ x. x.0) (append_message-found s id Role.human question asked_at a p) in
      let two : (append_message redis codec first.1 id Role.agent text answered_at).0
          ≡ ok (with_message redis codec between Role.agent text answered_at) =
        ap (λ x. x.0) (append_message-found first.1 id Role.agent text answered_at between there) in
      (
        ground (
          arith,
          one,
          two,
          last-append between.messages
              (record { role = Role.agent; content = text; timestamp = answered_at }),
        ),
        ground (
          arith,
          one,
          two,
          append_message-get first.1 id Role.agent text answered_at between there,
        ),
      )

  -- A question about an approval that is there is answered with the clarifier's answer, and the
  -- approval that is then found has the question and the answer after its earlier messages. Where
  -- the clarifier raises, so does the endpoint, and the approval has the question alone. In both
  -- cases it is otherwise as it was.
  pub ask_about_approval-answered :
      (clarifier : Context → String → Option String) (s : S) (id question : String)
      (asked_at answered_at : ℕ) (a : PendingApproval)
      → get redis codec s id ≡ ok (some a)
      → let answer = clarifier a.escalation.context question in
        let result = ask_about_approval redis codec clarifier s id question asked_at answered_at in
        (result.0 ≡ said answer answered_at)
        × (get redis codec result.1 id
            ≡ ok (some (entry_after a question answer asked_at answered_at)))
  unfolding ask_about_approval get_or_404
  ask_about_approval-answered clarifier s id question asked_at answered_at a p =
      rw (p, ask_about_approval, get_or_404)
        (ask_of-answered s id question (clarifier a.escalation.context question) asked_at
          answered_at a p)

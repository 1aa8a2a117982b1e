-- ===== src/Api.antt =====
-- api.py: the endpoints on the approval queue. The answers of the clarifier, which may raise, and the
-- clock are parameters.
pub mod Chat
pub mod Memories
pub mod Traces
use agent_orchestration_syst.Common.{Option, List, [], ◌∷◌, some, none, ℕ, String}
use agent_orchestration_syst.Schemas.{Context, HumanDecision}
use agent_orchestration_syst.HumanLoop.Models.{ChatMessage, PendingApproval, Role}
use agent_orchestration_syst.HumanLoop.Store.{Codec, Redis}
use agent_orchestration_syst.HumanLoop.Queue.{ok, raise, Error, append_message, get, resolve}

-- The status 404, or an exception of the queue, of an index or of the clarifier, which is the status
-- 500.
pub data Response {ℓ} (A : Type ℓ) : Type ℓ where
  success : A → Response A
  not_found : Response A
  server_error : Error → Response A
  index_error clarifier_error : Response A

-- `messages[-1]`
unfoldable pub last : List ChatMessage → Option ChatMessage
last [] = none
last (m ∷ []) = some m
last (m ∷ n ∷ rest) = last (n ∷ rest)

module _ {S V : Type 0} (redis : Redis S V) (codec : Codec V) where
  -- `_get_or_404` and `get_approval`
  unfoldable pub get_or_404 : S → (task_id : String) → Response PendingApproval
  get_or_404 s task_id = elim (get redis codec s task_id) [
    | raise e ↦ server_error e
    | ok none ↦ not_found
    | ok (some approval) ↦ success approval
  ]

  -- `decide_approval`
  unfoldable pub decide_approval :
      S → (task_id : String) → HumanDecision → (utcnow : ℕ) → Response PendingApproval × S
  unfolding get_or_404
  decide_approval s task_id decision utcnow = elim (get_or_404 s task_id) [
    | server_error e ↦ (server_error e, s)
    | index_error ↦ (index_error, s)
    | clarifier_error ↦ (clarifier_error, s)
    | not_found ↦ (not_found, s)
    | success approval ↦
        let s' = (resolve redis codec s task_id decision utcnow).1 in
        elim (resolve redis codec s task_id decision utcnow).0 [
          | raise e ↦ (server_error e, s')
          | ok resolved ↦ (success resolved, s')
        ]
  ]

  abbrev of_last : Option ChatMessage → Response ChatMessage
  of_last none = index_error
  of_last (some m) = success m

  -- `ask_about_approval`, once the approval was found. The question is recorded before the clarifier
  -- is asked, which may raise.
  unfoldable pub ask_of :
      S
      → (task_id question : String) → (answer : Option String) → (asked_at answered_at : ℕ)
      → Response ChatMessage × S
  ask_of s task_id question answer asked_at answered_at =
      let asked = append_message redis codec s task_id Role.human question asked_at in
      elim asked.0 [
        | raise e ↦ (server_error e, asked.1)
        | ok _ ↦ elim answer [
          | none ↦ (clarifier_error, asked.1)
          | some text ↦
              let answered =
                append_message redis codec asked.1 task_id Role.agent text answered_at in
              elim answered.0 [
                | raise e ↦ (server_error e, answered.1)
                | ok updated ↦ (of_last (last updated.messages), answered.1)
              ]
        ]
      ]

  -- `ask_about_approval`
  unfoldable pub ask_about_approval :
      (clarifier : Context → String → Option String)
      → S
      → (task_id question : String) → (asked_at answered_at : ℕ) → Response ChatMessage × S
  unfolding get_or_404 ask_of
  ask_about_approval clarifier s task_id question asked_at answered_at =
      elim (get_or_404 s task_id) [
        | server_error e ↦ (server_error e, s)
        | index_error ↦ (index_error, s)
        | clarifier_error ↦ (clarifier_error, s)
        | not_found ↦ (not_found, s)
        | success approval ↦
            ask_of s task_id question (clarifier approval.escalation.context question) asked_at
              answered_at
      ]

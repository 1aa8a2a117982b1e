-- ===== src/HumanLoop/Models.antt =====
-- human_loop/models.py: an entry of the approval queue. Times are in milliseconds.
use agent_orchestration_syst.Common.{ℕ, String, Bool, true, false, Option, List}
use agent_orchestration_syst.Schemas.{EscalationRequest, HumanDecision}

pub data ApprovalStatus : Type 0 where
  pending resolved notified : ApprovalStatus

abbrev pub is_resolved : ApprovalStatus → Bool
is_resolved resolved = true
is_resolved _ = false

pub data Role : Type 0 where
  human agent : Role

pub record ChatMessage : Type 0 where
  pub role : Role
  pub content : String
  pub timestamp : ℕ

-- `source` is a text: the value of one of the graph's sources, or "notify".
pub record PendingApproval : Type 0 where
  pub task_id : String
  pub escalation : EscalationRequest
  pub source : String
  pub status : ApprovalStatus
  pub decision : Option HumanDecision
  pub messages : List ChatMessage
  pub created_at : ℕ
  pub resolved_at : Option ℕ

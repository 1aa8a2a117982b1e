-- ===== src/Tools/Registry/Window.antt =====
-- The rate limit over every minute, not only the one before a call.
use agent_orchestration_syst.Common.{
  ℕ, ◌+◌, ◌≤◌, ◌≡◌, refl, Bool, true, false, List, [], ◌∷◌, ◌++◌, ◌&&◌, leb, length, keep,
  if◌then◌else◌, Bool-cases, inl, inr, arith, length-append, sym, ◌∙◌,
}
use mathlib.Core.List.{append-nil, append_assoc}
use agent_orchestration_syst.Tools.Registry.{RegisteredTool, minute}
use agent_orchestration_syst.Tools.Registry.Recent.{is_recent, IsAscending, keep-append}
use agent_orchestration_syst.Tools.Registry.RateLimit.{
  admits, admissions, answers, answers-admissions,
}

-- The history after calls at some times.
unfoldable pub history_of : (limit : ℕ) (history times : List ℕ) → List ℕ
history_of limit history [] = history
history_of limit history (now ∷ times) =
    let yes = history_of limit (history ++ now ∷ []) times in
    let no = history_of limit history times in if admits limit history now then yes else no

-- The time lies in the minute that begins at `start`.
abbrev pub is_within : (start t : ℕ) → Bool
is_within start t = leb start t && leb t (start + minute)

abbrev pub count_within : (start : ℕ) → List ℕ → ℕ
count_within start history = length (keep (is_within start) history)

-- What lies in the minute with a later time is recent at that time.
within-recent :
    (start now : ℕ) (history : List ℕ)
    → is_within start now ≡ true
    → count_within start history ≤ length (keep (is_recent now) history)
within-recent start now [] e = omega arith
within-recent start now (t ∷ ts) e = ground (arith, within-recent start now ts e, e)

count-append :
    (start now : ℕ) (history : List ℕ)
    → count_within start (history ++ now ∷ [])
      ≡ count_within start history + count_within start (now ∷ [])
count-append start now history =
    rw
      (
        keep-append (is_within start) history (now ∷ []),
        length-append (keep (is_within start) history) (keep (is_within start) (now ∷ [])),
      )
      refl

admit-count :
    (limit start now : ℕ) (history : List ℕ)
    → admits limit history now ≡ true
    → count_within start history ≤ limit
    → count_within start (history ++ now ∷ []) ≤ limit
unfolding admits
admit-count limit start now history a h = elim (Bool-cases (is_within start now)) [
  | inl e ↦ ground (arith, count-append start now history, within-recent start now history e, a, e)
  | inr e ↦ ground (arith, count-append start now history, h, e)
]

history-count :
    (limit start : ℕ) (times history : List ℕ)
    → count_within start history ≤ limit
    → count_within start (history_of limit history times) ≤ limit
unfolding history_of
history-count limit start [] history h = h
history-count limit start (now ∷ times) history h = elim (Bool-cases (admits limit history now)) [
  | inl a ↦ rw a (
      history-count limit start times (history ++ now ∷ [])
        (admit-count limit start now history a h))
  | inr a ↦ rw a (history-count limit start times history h)
]

-- The times whose answer is yes.
unfoldable pub admitted : (answers : List Bool) (times : List ℕ) → List ℕ
admitted [] times = []
admitted (a ∷ more) [] = []
admitted (true ∷ more) (t ∷ ts) = t ∷ admitted more ts
admitted (false ∷ more) (t ∷ ts) = admitted more ts

history-admitted :
    (limit : ℕ) (history times : List ℕ)
    → history ++ admitted (admissions limit history times) times ≡ history_of limit history times
unfolding history_of admissions admitted
history-admitted limit history [] = append-nil history
history-admitted limit history (now ∷ times) = elim (Bool-cases (admits limit history now)) [
  | inl a ↦ rw a (
      sym (
        append_assoc history (now ∷ [])
          (admitted (admissions limit (history ++ now ∷ []) times) times))
      ∙ history-admitted limit (history ++ now ∷ []) times)
  | inr a ↦ rw a (history-admitted limit history times)
]

-- However the calls of a newly registered tool are spaced, at times that do not go back, no
-- minute, both ends included, holds more admitted calls than the tool's limit.
pub every_minute_limited :
    (tool : RegisteredTool) (times : List ℕ) (start : ℕ)
    → tool.call_timestamps ≡ []
    → IsAscending times
    → count_within start (admitted (answers tool times) times) ≤ tool.rate_limit_per_minute
every_minute_limited tool times start e h =
    rw (answers-admissions tool times e h, history-admitted tool.rate_limit_per_minute [] times)
      (history-count tool.rate_limit_per_minute start times [] (omega arith))

-- ===== src/Tracing/Recorder/Once.antt =====
-- tracing/recorder.py: over the interruptions of a run every event is recorded once, and the
-- totals of the finished task are those of its events.
use agent_orchestration_syst.Common.{
  ◌≡◌, refl, String, Option, none, some, List, [], ◌∷◌, ◌++◌, ◌>>=◌, length, ◌∙◌, sym, ap,
}
use agent_orchestration_syst.Common.Dict.{Dict}
use agent_orchestration_syst.Graph.State.{TraceEvent}
use agent_orchestration_syst.Tracing.Pricing.{Price}
use agent_orchestration_syst.Tracing.Store.{TraceStore}
use agent_orchestration_syst.Tracing.Recorder.{
  from_index, persist_all, persist_and_export, record_new_events, record_results,
}

-- Each result has the events of the result before it, and then new ones.
abbrev pub Growing : List TraceEvent → List (List TraceEvent) → Type 0
Growing before [] = Unit
Growing before (events ∷ results) =
    ((new : List TraceEvent) × (events ≡ before ++ new)) × Growing events results

-- The events of the last result.
abbrev pub last_of : List TraceEvent → List (List TraceEvent) → List TraceEvent
last_of before [] = before
last_of before (events ∷ results) = last_of events results

pub from_index-length : (xs ys : List TraceEvent) → from_index (length xs) (xs ++ ys) ≡ ys
unfolding from_index
from_index-length [] ys = refl
from_index-length (x ∷ xs) ys = from_index-length xs ys

bind_assoc :
    {A B C : Type 0} (o : Option A) (f : A → Option B) (g : B → Option C)
    → (o >>= f) >>= g ≡ (o >>= λ a. f a >>= g)
bind_assoc none f g = refl
bind_assoc (some a) f g = refl

bind_cong :
    {A B : Type 0} (o : Option A) (f g : A → Option B)
    → ((a : A) → f a ≡ g a)
    → (o >>= f) ≡ (o >>= g)
bind_cong none f g h = refl
bind_cong (some a) f g h = h a

pub persist_all-append :
    (prices : Dict Price) (store : TraceStore) (id : String) (xs ys : List TraceEvent)
    → persist_all prices store id (xs ++ ys)
      ≡ (persist_all prices store id xs >>= λ store'. persist_all prices store' id ys)
unfolding persist_all
persist_all-append prices store id [] ys = refl
persist_all-append prices store id (x ∷ xs) ys =
    bind_cong (persist_and_export prices store id x) _ _
      (λ store'. persist_all-append prices store' id xs ys)
    ∙ sym (bind_assoc (persist_and_export prices store id x) _ _)

recorded-Growing :
    (prices : Dict Price) (id : String) (store : TraceStore) (before : List TraceEvent)
    (results : List (List TraceEvent))
    → Growing before results
    → (persist_all prices store id before >>= λ s.
        record_results prices id (s, length before) results)
      ≡ (persist_all prices store id (last_of before results) >>= λ s.
          some (s, length (last_of before results)))
unfolding record_results record_new_events
recorded-Growing prices id store before [] g = refl
recorded-Growing prices id store before (events ∷ results) ((new, e), more) =
    bind_cong (persist_all prices store id before) _ _ (λ s.
      ap
        (λ new_events.
          (persist_all prices s id new_events >>= λ s'. some (s', length events)) >>= λ next.
          record_results prices id next results)
        (ap (from_index (length before)) e ∙ from_index-length before new)
      ∙ bind_assoc (persist_all prices s id new) _ _)
    ∙ sym (bind_assoc (persist_all prices store id before) _ _)
    ∙ ap (λ o. o >>= λ s'. record_results prices id (s', length events) results)
        (sym (persist_all-append prices store id before new)
          ∙ ap (persist_all prices store id) (sym e))
    ∙ recorded-Growing prices id store events results more

-- However often a run is interrupted and resumed, as long as each result keeps the events of the
-- one before, the recorder does what recording the last result's events once, in order, would
-- do, and it raises in the same cases.
pub record_results-once :
    (prices : Dict Price) (id : String) (store : TraceStore) (results : List (List TraceEvent))
    → Growing [] results
    → record_results prices id (store, 0) results ≡ (
        persist_all prices store id (last_of [] results) >>= λ s.
        some (s, length (last_of [] results)))
unfolding persist_all
record_results-once prices id store results g = recorded-Growing prices id store [] results g

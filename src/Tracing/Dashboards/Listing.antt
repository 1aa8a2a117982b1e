-- ===== src/Tracing/Dashboards/Listing.antt =====
-- tracing/store.py: what `list_tasks` and `get_spans` show.
use agent_orchestration_syst.Common.{
  ℕ, ◌+◌, ◌≡◌, refl, ◌∙◌, String, Bool, true, false, Option, List, [], ◌∷◌, ◌==◌, keep, length, All,
  arith, ◌⊎◌, inl, inr, Bool-cases,
}
use agent_orchestration_syst.Common.Tables.{order_by, sum_of}
use agent_orchestration_syst.Common.Tables.Laws.{
  descending-IsOrder, ascending-IsOrder, IsOrdered, order_by-All, order_by-IsOrdered,
  limit-IsOrdered, sum_of-left_out, limit-All, left_out, left_out_later, length-limit_cases,
  sum_of-order_by,
}
use agent_orchestration_syst.Tracing.Store.{SpanRecord, TaskRecord, TraceStore, sum_spans}
use agent_orchestration_syst.Tracing.Dashboards.{
  get_spans, is_newer, is_of_user, list_tasks, starts_earlier,
}

keep-All {ℓ} : {A : Type ℓ} (p : A → Bool) (xs : List A) → All (λ x. p x ≡ true) (keep p xs)
keep-All p [] = tt
keep-All p (x ∷ xs) = elim (Bool-cases (p x)) [
  | inl e ↦ rw (e, All) (e, keep-All p xs)
  | inr e ↦ rw (e, All) (keep-All p xs)
]

-- The rows that are shown and those that are left out are the rows of the user, at most `count`
-- are shown, fewer only if all are, and none that is left out is newer than one that is shown.
pub record IsListing (store : TraceStore) (count : ℕ) (user_id : Option String)
    (shown others : List TaskRecord) : Type 0 where
  pub complete :
      (column : TaskRecord → ℕ)
      → sum_of column shown + sum_of column others
        ≡ sum_of column (keep (is_of_user user_id) store.tasks)
  pub of_user : All (λ t. is_of_user user_id t ≡ true) shown
  pub newest_first : IsOrdered is_newer shown
  pub newest : All (λ t. All (λ u. is_newer u t ≡ false) others) shown
  pub full : (length shown ≡ count) ⊎ (others ≡ [])

list_tasks-IsListing :
    (store : TraceStore) (count : ℕ) (user_id : Option String)
    → (others : List TaskRecord) × IsListing store count user_id
        (list_tasks store count user_id)
        others
unfolding list_tasks
list_tasks-IsListing store count user_id =
    let rows = keep (is_of_user user_id) store.tasks in
    let sorted = order_by is_newer rows in
    let ordered =
      order_by-IsOrdered is_newer (descending-IsOrder (λ (t : TaskRecord). t.started_at)) rows in
    (
      left_out count sorted,
      record {
        complete =
            λ column. sum_of-left_out column count sorted ∙ sum_of-order_by column is_newer rows;
        of_user =
            limit-All (λ t. is_of_user user_id t ≡ true) count sorted
              (order_by-All (λ t. is_of_user user_id t ≡ true) is_newer rows
                (keep-All (is_of_user user_id) store.tasks));
        newest_first = limit-IsOrdered is_newer count sorted ordered;
        newest = left_out_later is_newer count sorted ordered;
        full = length-limit_cases count sorted;
      },
    )

sum_of-keep :
    (column : SpanRecord → ℕ) (task_id : String) (spans : List SpanRecord)
    → sum_of column (keep (λ (s : SpanRecord). s.task_id == task_id) spans)
      ≡ sum_spans column task_id spans
unfolding sum_of sum_spans
sum_of-keep column task_id [] = refl
sum_of-keep column task_id (s ∷ spans) = ground (arith, sum_of-keep column task_id spans)

-- `list_tasks` shows the newest tasks, of the user where one is given, the newest first: as many as
-- asked for, or all. `get_spans` shows the spans of the task in the order of their start, and
-- every column of them adds up to what `finish_task` sums.
pub list_tasks-newest :
    (store : TraceStore) (count : ℕ) (user_id : Option String) (task_id : String)
    → ((others : List TaskRecord) × IsListing store count user_id
          (list_tasks store count user_id)
          others)
      × ((column : SpanRecord → ℕ)
          → sum_of column (get_spans store task_id) ≡ sum_spans column task_id store.spans)
      × All (λ s. (s.task_id == task_id) ≡ true) (get_spans store task_id)
      × IsOrdered starts_earlier (get_spans store task_id)
unfolding get_spans
list_tasks-newest store count user_id task_id =
    let is_of_task = λ (s : SpanRecord). s.task_id == task_id in
    let rows = keep is_of_task store.spans in
    (
      list_tasks-IsListing store count user_id,
      λ column. sum_of-order_by column starts_earlier rows ∙ sum_of-keep column task_id store.spans,
      order_by-All (λ s. (s.task_id == task_id) ≡ true) starts_earlier rows
          (keep-All is_of_task store.spans),
      order_by-IsOrdered starts_earlier (ascending-IsOrder (λ (s : SpanRecord). s.started_at)) rows,
    )

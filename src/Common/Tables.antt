-- ===== src/Common/Tables.antt =====
-- The clauses of SQL on lists of rows: ORDER BY, LIMIT and GROUP BY.
pub mod Laws
pub mod Groups
use Prim.Native.Nat.{ℕ, zero, suc, ◌+◌}
use mathlib.Core.Bool.{Bool}
use mathlib.Core.List.{List, [], ◌∷◌}
use agent_orchestration_syst.Common.Tests.{if◌then◌else◌}

module _ {ℓ} {A : Type ℓ} where
  -- A row goes before the first that does not come before it, so that equal rows keep their order.
  unfoldable pub insert_by : (before : A → A → Bool) → A → List A → List A
  insert_by before x [] = x ∷ []
  insert_by before x (y ∷ ys) =
      let rest = insert_by before x ys in if before y x then y ∷ rest else x ∷ y ∷ ys

  unfoldable pub order_by : (before : A → A → Bool) → List A → List A
  unfolding insert_by
  order_by before [] = []
  order_by before (x ∷ xs) = insert_by before x (order_by before xs)

  -- LIMIT
  unfoldable pub limit : ℕ → List A → List A
  limit zero xs = []
  limit (suc n) [] = []
  limit (suc n) (x ∷ xs) = x ∷ limit n xs

  -- SUM, and with the column 1 COUNT.
  unfoldable pub sum_of : (column : A → ℕ) → List A → ℕ
  sum_of column [] = 0
  sum_of column (x ∷ xs) = column x + sum_of column xs

-- The rows of one key. There is no group without a row.
pub record Group {ℓ κ} (K : Type κ) (A : Type ℓ) : Type (ℓ ⊔ κ) where
  pub key : K
  pub first : A
  pub others : List A

module _ {ℓ κ} {K : Type κ} {A : Type ℓ} where
  abbrev pub rows_of : Group K A → List A
  rows_of g = g.first ∷ g.others

  unfoldable pub add_row : (same : K → K → Bool) → K → A → List (Group K A) → List (Group K A)
  add_row same k x [] = record { key = k; first = x; others = [] } ∷ []
  add_row same k x (g ∷ gs) =
      let rest = add_row same k x gs in
      if same g.key k then record g { first = x; others = g.first ∷ g.others } ∷ gs else g ∷ rest

  -- GROUP BY. The groups stand in no order that a query may rely on.
  unfoldable pub group_by : (same : K → K → Bool) → (key : A → K) → List A → List (Group K A)
  unfolding add_row
  group_by same key [] = []
  group_by same key (x ∷ xs) = add_row same (key x) x (group_by same key xs)

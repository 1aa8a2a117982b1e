-- ===== src/Common/Tables/Laws.antt =====
-- What ORDER BY, LIMIT and GROUP BY keep of the rows.
use Prim.Native.Nat.{ℕ, zero, suc, ◌+◌, ◌≤◌}
use mathlib.Core.Path.{◌≡◌, refl, ap, ◌∙◌, sym}
use mathlib.Core.Bool.{Bool, true, false}
use mathlib.Core.Logic.{◌⊎◌, inl, inr}
use mathlib.Core.List.{List, [], ◌∷◌, map}
use native.Mathlib.Omega.{arith}
use agent_orchestration_syst.Common.Tests.{Bool-cases, ltb}
use agent_orchestration_syst.Common.Lists.{All, length, All-map}
use agent_orchestration_syst.Common.Tables.{
  add_row, group_by, Group, insert_by, limit, order_by, rows_of, sum_of,
}

-- What `order_by` needs of the test.
pub record IsOrder {ℓ} {A : Type ℓ} (before : A → A → Bool) : Type ℓ where
  pub asymm : (x y : A) → before x y ≡ true → before y x ≡ false
  pub trans : (x y z : A) → before y x ≡ false → before z y ≡ false → before z x ≡ false

module _ {ℓ} {A : Type ℓ} where
  pub descending-IsOrder : (key : A → ℕ) → IsOrder (λ x y. ltb (key y) (key x))
  descending-IsOrder key = record {
    asymm = λ x y h. ground arith;
    trans = λ x y z h k. ground arith;
  }

  pub ascending-IsOrder : (key : A → ℕ) → IsOrder (λ x y. ltb (key x) (key y))
  ascending-IsOrder key = record {
    asymm = λ x y h. ground arith;
    trans = λ x y z h k. ground arith;
  }

  -- No row comes before an earlier one.
  abbrev pub IsOrdered : (before : A → A → Bool) → List A → Type 0
  IsOrdered before [] = Unit
  IsOrdered before (x ∷ xs) = All (λ y. before y x ≡ false) xs × IsOrdered before xs

  insert_by-All {κ} :
      (P : A → Type κ) (before : A → A → Bool) (x : A) (xs : List A)
      → P x
      → All P xs
      → All P (insert_by before x xs)
  unfolding insert_by
  insert_by-All P before x [] h k = (h, tt)
  insert_by-All P before x (y ∷ ys) h k = elim (Bool-cases (before y x)) [
    | inl e ↦ rw e (k.0, insert_by-All P before x ys h k.1)
    | inr e ↦ rw e (h, k)
  ]

  pub order_by-All {κ} :
      (P : A → Type κ) (before : A → A → Bool) (xs : List A) → All P xs → All P (order_by before xs)
  unfolding order_by
  order_by-All P before [] h = h
  order_by-All P before (x ∷ xs) h =
      insert_by-All P before x (order_by before xs) h.0 (order_by-All P before xs h.1)

  sum_of-insert_by :
      (column : A → ℕ) (before : A → A → Bool) (x : A) (xs : List A)
      → sum_of column (insert_by before x xs) ≡ column x + sum_of column xs
  unfolding sum_of insert_by
  sum_of-insert_by column before x [] = refl
  sum_of-insert_by column before x (y ∷ ys) = ground (arith, sum_of-insert_by column before x ys)

  -- Ordering keeps every sum, and so every count.
  pub sum_of-order_by :
      (column : A → ℕ) (before : A → A → Bool) (xs : List A)
      → sum_of column (order_by before xs) ≡ sum_of column xs
  unfolding sum_of order_by
  sum_of-order_by column before [] = refl
  sum_of-order_by column before (x ∷ xs) = omega (
    arith,
    sum_of-insert_by column before x (order_by before xs),
    sum_of-order_by column before xs,
  )

  module _ (before : A → A → Bool) (order : IsOrder before) where
    insert_by-IsOrdered :
        (x : A) (xs : List A) → IsOrdered before xs → IsOrdered before (insert_by before x xs)
    unfolding insert_by
    insert_by-IsOrdered x [] h = (tt, tt)
    insert_by-IsOrdered x (y ∷ ys) h = elim (Bool-cases (before y x)) [
      | inl e ↦ rw e (
        insert_by-All (λ z. before z y ≡ false) before x ys (order.asymm y x e) h.0,
        insert_by-IsOrdered x ys h.1,
      )
      | inr e ↦ rw e (
        (
          e,
          All-map (λ z. before z y ≡ false) (λ z. before z x ≡ false) (λ z. order.trans x y z e) ys
              h.0,
        ),
        h,
      )
    ]

    pub order_by-IsOrdered : (xs : List A) → IsOrdered before (order_by before xs)
    unfolding order_by
    order_by-IsOrdered [] = tt
    order_by-IsOrdered (x ∷ xs) = insert_by-IsOrdered x (order_by before xs) (order_by-IsOrdered xs)

  pub limit-All {κ} : (P : A → Type κ) (n : ℕ) (xs : List A) → All P xs → All P (limit n xs)
  unfolding limit
  limit-All P zero xs h = tt
  limit-All P (suc n) [] h = tt
  limit-All P (suc n) (x ∷ xs) h = (h.0, limit-All P n xs h.1)

  pub limit-IsOrdered :
      (before : A → A → Bool) (n : ℕ) (xs : List A)
      → IsOrdered before xs
      → IsOrdered before (limit n xs)
  unfolding limit
  limit-IsOrdered before zero xs h = tt
  limit-IsOrdered before (suc n) [] h = tt
  limit-IsOrdered before (suc n) (x ∷ xs) h =
      (limit-All (λ y. before y x ≡ false) n xs h.0, limit-IsOrdered before n xs h.1)

  pub length-limit : (n : ℕ) (xs : List A) → length (limit n xs) ≤ n
  unfolding limit
  length-limit zero xs = omega arith
  length-limit (suc n) [] = omega arith
  length-limit (suc n) (x ∷ xs) = omega (arith, length-limit n xs)

  pub limit_all : (n : ℕ) (xs : List A) → length xs ≤ n → limit n xs ≡ xs
  unfolding limit
  limit_all zero [] h = refl
  limit_all zero (x ∷ xs) h = absurd (omega arith)
  limit_all (suc n) [] h = refl
  limit_all (suc n) (x ∷ xs) h = ap (◌∷◌ x) (limit_all n xs (omega arith))

  pub sum_of-limit :
      (column : A → ℕ) (n : ℕ) (xs : List A) → sum_of column (limit n xs) ≤ sum_of column xs
  unfolding limit sum_of
  sum_of-limit column zero xs = omega arith
  sum_of-limit column (suc n) [] = omega arith
  sum_of-limit column (suc n) (x ∷ xs) = omega (arith, sum_of-limit column n xs)

module _ {ℓ} {A : Type ℓ} where
  -- The rows that LIMIT leaves out.
  unfoldable pub left_out : ℕ → List A → List A
  left_out zero xs = xs
  left_out (suc n) [] = []
  left_out (suc n) (x ∷ xs) = left_out n xs

  pub sum_of-left_out :
      (column : A → ℕ) (n : ℕ) (xs : List A)
      → sum_of column (limit n xs) + sum_of column (left_out n xs) ≡ sum_of column xs
  unfolding limit left_out sum_of
  sum_of-left_out column zero xs = omega arith
  sum_of-left_out column (suc n) [] = omega arith
  sum_of-left_out column (suc n) (x ∷ xs) = omega (arith, sum_of-left_out column n xs)

  pub left_out-All {κ} : (P : A → Type κ) (n : ℕ) (xs : List A) → All P xs → All P (left_out n xs)
  unfolding left_out
  left_out-All P zero xs h = h
  left_out-All P (suc n) [] h = tt
  left_out-All P (suc n) (x ∷ xs) h = left_out-All P n xs h.1

  -- Of ordered rows, none that is left out comes before one that is not.
  pub left_out_later :
      (before : A → A → Bool) (n : ℕ) (xs : List A)
      → IsOrdered before xs
      → All (λ x. All (λ y. before y x ≡ false) (left_out n xs)) (limit n xs)
  unfolding left_out limit
  left_out_later before zero xs h = tt
  left_out_later before (suc n) [] h = tt
  left_out_later before (suc n) (x ∷ xs) h =
      (left_out-All (λ y. before y x ≡ false) n xs h.0, left_out_later before n xs h.1)

  pub length-limit_cases : (n : ℕ) (xs : List A) → (length (limit n xs) ≡ n) ⊎ (left_out n xs ≡ [])
  unfolding left_out limit
  length-limit_cases zero xs = inl refl
  length-limit_cases (suc n) [] = inr refl
  length-limit_cases (suc n) (x ∷ xs) = ground (arith, length-limit_cases n xs)

module _ {ℓ κ} {K : Type κ} {A : Type ℓ} where
  -- The sum of a column over all groups.
  abbrev pub sum_groups : (column : A → ℕ) → List (Group K A) → ℕ
  sum_groups column gs = sum_of (λ g. sum_of column (rows_of g)) gs

  sum_groups-add_row :
      (column : A → ℕ) (same : K → K → Bool) (k : K) (x : A) (gs : List (Group K A))
      → sum_groups column (add_row same k x gs) ≡ column x + sum_groups column gs
  unfolding add_row sum_of
  sum_groups-add_row column same k x [] = omega arith
  sum_groups-add_row column same k x (g ∷ gs) =
      ground (arith, sum_groups-add_row column same k x gs)

  -- Grouping keeps every sum.
  pub sum_groups-group_by :
      (column : A → ℕ) (same : K → K → Bool) (key : A → K) (xs : List A)
      → sum_groups column (group_by same key xs) ≡ sum_of column xs
  unfolding group_by sum_of
  sum_groups-group_by column same key [] = refl
  sum_groups-group_by column same key (x ∷ xs) = omega (
    arith,
    sum_groups-add_row column same (key x) x (group_by same key xs),
    sum_groups-group_by column same key xs,
  )

-- A column of a table that is made row by row from another.
pub sum_of-map {ℓ κ} :
    {A : Type ℓ} {B : Type κ} (column : B → ℕ) (f : A → B) (xs : List A)
    → sum_of column (map f xs) ≡ sum_of (λ x. column (f x)) xs
unfolding sum_of
sum_of-map column f [] = refl
sum_of-map column f (x ∷ xs) = omega (arith, sum_of-map column f xs)

-- A predicate on the rows that are made is one on all rows.
pub All-of_map {ℓ κ μ} :
    {A : Type ℓ} {B : Type κ} (P : B → Type μ) (f : A → B) (xs : List A)
    → ((x : A) → P (f x))
    → All P (map f xs)
All-of_map P f [] h = tt
All-of_map P f (x ∷ xs) h = (h x, All-of_map P f xs h)

sum_of-cong {ℓ} :
    {A : Type ℓ} (f g : A → ℕ) (xs : List A) → ((x : A) → f x ≡ g x) → sum_of f xs ≡ sum_of g xs
unfolding sum_of
sum_of-cong f g [] h = refl
sum_of-cong f g (x ∷ xs) h = omega (arith, h x, sum_of-cong f g xs h)

pub length-sum_of {ℓ} : {A : Type ℓ} (xs : List A) → length xs ≡ sum_of (λ _. 1) xs
unfolding sum_of
length-sum_of [] = refl
length-sum_of (x ∷ xs) = omega (arith, length-sum_of xs)

-- A table of one row for each group, ordered: a column that sums another over the group sums it
-- over all rows, and a column that counts the group counts all rows.
module _ {ℓ κ μ} {K : Type κ} {A : Type ℓ} {B : Type μ} (same : K → K → Bool) (key : A → K)
    (summary : Group K A → B) (before : B → B → Bool) (xs : List A) where
  abbrev summaries : List B
  summaries = order_by before (map summary (group_by same key xs))

  pub sum_of-summaries :
      (column : B → ℕ) (c : A → ℕ)
      → ((g : Group K A) → column (summary g) ≡ sum_of c (rows_of g))
      → sum_of column summaries ≡ sum_of c xs
  sum_of-summaries column c h =
      sum_of-order_by column before (map summary (group_by same key xs))
      ∙ sum_of-map column summary (group_by same key xs)
      ∙ sum_of-cong (λ g. column (summary g)) (λ g. sum_of c (rows_of g)) (group_by same key xs) h
      ∙ sum_groups-group_by c same key xs

  pub count-summaries :
      (column : B → ℕ)
      → ((g : Group K A) → column (summary g) ≡ length (rows_of g))
      → sum_of column summaries ≡ length xs
  count-summaries column h =
      sum_of-summaries column (λ _. 1) (λ g. h g ∙ length-sum_of (rows_of g))
      ∙ sym (length-sum_of xs)

  pub All-summaries {ν} : (P : B → Type ν) → ((g : Group K A) → P (summary g)) → All P summaries
  All-summaries P h =
      order_by-All P before (map summary (group_by same key xs))
        (All-of_map P summary (group_by same key xs) h)

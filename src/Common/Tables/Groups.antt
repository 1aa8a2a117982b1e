-- ===== src/Common/Tables/Groups.antt =====
-- What a group of GROUP BY holds: the rows of its key, all of them and no other.
use mathlib.Core.Path.{◌≡◌, refl, ap, ◌∙◌, sym}
use mathlib.Core.Bool.{Bool, true, false, not, ◌&&◌}
use mathlib.Core.Logic.{inl, inr}
use mathlib.Core.List.{List, [], ◌∷◌, map}
use native.Mathlib.Omega.{arith}
use agent_orchestration_syst.Common.Tests.{Bool-cases}
use agent_orchestration_syst.Common.Lists.{All, keep, keep-true, keep-false}
use agent_orchestration_syst.Common.Tables.{add_row, group_by, Group, order_by, rows_of}
use agent_orchestration_syst.Common.Tables.Laws.{order_by-All}

-- The test of keys is one for equality.
pub record IsEquality {κ} {K : Type κ} (same : K → K → Bool) : Type κ where
  pub reflexive : (a : K) → same a a ≡ true
  pub sound : (a b : K) → same a b ≡ true → a ≡ b

module _ {ℓ κ} {K : Type κ} {A : Type ℓ} (same : K → K → Bool) (equality : IsEquality same)
    (key : A → K) where
  same_sym : (a b : K) → same a b ≡ false → same b a ≡ false
  same_sym a b h = elim (Bool-cases (same b a)) [
    | inl e ↦ absurd (ground (arith, h, ap (same a) (equality.sound b a e) ∙ equality.reflexive a))
    | inr e ↦ e
  ]

  -- The rows of a key.
  abbrev pub rows_at : K → List A → List A
  rows_at k xs = keep (λ x. same k (key x)) xs

  -- No group has the key.
  missing : K → List (Group K A) → Bool
  missing k [] = true
  missing k (g ∷ gs) = not (same g.key k) && missing k gs

  Apart : List (Group K A) → Type 0
  Apart [] = Unit
  Apart (g ∷ gs) = (missing g.key gs ≡ true) × Apart gs

  Pinned : List A → List (Group K A) → Type (ℓ)
  Pinned xs gs = All (λ g. rows_of g ≡ rows_at g.key xs) gs

  -- Rows without a group are not there.
  Covered : List A → List (Group K A) → Type (ℓ ⊔ κ)
  Covered xs gs = (k : K) → missing k gs ≡ true → rows_at k xs ≡ []

  missing-add_row :
      (k k' : K) (x : A) (gs : List (Group K A))
      → same k k' ≡ false
      → missing k' (add_row same k x gs) ≡ missing k' gs
  unfolding missing add_row
  missing-add_row k k' x [] h = rw h refl
  missing-add_row k k' x (g ∷ gs) h = elim (Bool-cases (same g.key k)) [
    | inl e ↦ rw e refl
    | inr e ↦ rw (e, missing-add_row k k' x gs h) refl
  ]

  present-add_row :
      (k : K) (x : A) (gs : List (Group K A)) → missing k (add_row same k x gs) ≡ false
  unfolding missing add_row
  present-add_row k x [] = rw (equality.reflexive k) refl
  present-add_row k x (g ∷ gs) = elim (Bool-cases (same g.key k)) [
    | inl e ↦ rw (e, missing, e) refl
    | inr e ↦ rw (e, missing, e, present-add_row k x gs) refl
  ]

  add_row-Apart : (k : K) (x : A) (gs : List (Group K A)) → Apart gs → Apart (add_row same k x gs)
  unfolding Apart add_row missing
  add_row-Apart k x [] h = (refl, tt)
  add_row-Apart k x (g ∷ gs) h = elim (Bool-cases (same g.key k)) [
    | inl e ↦ rw e h
    | inr e ↦
        rw e (missing-add_row k g.key x gs (same_sym g.key k e) ∙ h.0, add_row-Apart k x gs h.1)
  ]

  Pinned-other :
      (x : A) (xs : List A) (gs : List (Group K A))
      → missing (key x) gs ≡ true
      → Pinned xs gs
      → Pinned (x ∷ xs) gs
  unfolding missing Pinned
  Pinned-other x xs [] m h = tt
  Pinned-other x xs (g ∷ gs) m h = (
    h.0 ∙ sym (keep-false (λ y. same g.key (key y)) x xs (ground (arith, m))),
    Pinned-other x xs gs (ground (arith, m)) h.1,
  )

  add_row-Pinned :
      (x : A) (xs : List A) (gs : List (Group K A))
      → Pinned xs gs
      → Apart gs
      → (missing (key x) gs ≡ true → rows_at (key x) xs ≡ [])
      → Pinned (x ∷ xs) (add_row same (key x) x gs)
  unfolding add_row Pinned Apart missing
  add_row-Pinned x xs [] h a c = (
    ap (◌∷◌ x) (sym (c refl))
        ∙ sym (keep-true (λ y. same (key x) (key y)) x xs (equality.reflexive (key x))),
    tt,
  )
  add_row-Pinned x xs (g ∷ gs) h a c = elim (Bool-cases (same g.key (key x))) [
    | inl e ↦ rw e (
      ap (◌∷◌ x) h.0 ∙ sym (keep-true (λ y. same g.key (key y)) x xs e),
      Pinned-other x xs gs (ap (λ k. missing k gs) (sym (equality.sound g.key (key x) e)) ∙ a.0)
          h.1,
    )
    | inr e ↦ rw e (
      h.0 ∙ sym (keep-false (λ y. same g.key (key y)) x xs e),
      add_row-Pinned x xs gs h.1 a.1 (λ m. c (ground (arith, e, m))),
    )
  ]

  add_row-Covered :
      (x : A) (xs : List A) (gs : List (Group K A))
      → Covered xs gs
      → Covered (x ∷ xs) (add_row same (key x) x gs)
  unfolding Covered
  add_row-Covered x xs gs c k m = elim (Bool-cases (same k (key x))) [
    | inl e ↦ absurd (
        ground (
          arith,
          m,
          ap (λ k. missing k (add_row same (key x) x gs)) (equality.sound k (key x) e)
              ∙ present-add_row (key x) x gs,
        ))
    | inr e ↦
        keep-false (λ y. same k (key y)) x xs e
        ∙ c k (sym (missing-add_row (key x) k x gs (same_sym k (key x) e)) ∙ m)
  ]

  group_by-holds :
      (xs : List A) → let gs = group_by same key xs in Pinned xs gs × Apart gs × Covered xs gs
  unfolding group_by Pinned Apart Covered
  group_by-holds [] = (tt, tt, λ k m. refl)
  group_by-holds (x ∷ xs) =
      let (pinned, apart, covered) = group_by-holds xs in
      let gs = group_by same key xs in
      (
        add_row-Pinned x xs gs pinned apart (covered (key x)),
        add_row-Apart (key x) x gs apart,
        add_row-Covered x xs gs covered,
      )

  -- What holds of every summary of all rows of a key holds of a table of one row for each group.
  pub All-pinned {μ ν} :
      {B : Type μ} (P : B → Type ν) (summary : Group K A → B) (before : B → B → Bool) (xs : List A)
      → ((g : Group K A) → rows_of g ≡ rows_at g.key xs → P (summary g))
      → All P (order_by before (map summary (group_by same key xs)))
  unfolding Pinned
  All-pinned P summary before xs h =
      order_by-All P before (map summary (group_by same key xs))
        (summarized (group_by same key xs) (group_by-holds xs).0)
    where
      summarized : (gs : List (Group K A)) → Pinned xs gs → All P (map summary gs)
      summarized [] p = tt
      summarized (g ∷ gs) p = (h g p.0, summarized gs p.1)

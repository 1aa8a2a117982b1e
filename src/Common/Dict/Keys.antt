-- ===== src/Common/Dict/Keys.antt =====
-- Which keys a `dict` holds, and that each is held once.
use Prim.Native.Nat.{◌≤◌, ◌<◌}
use Prim.Native.String.{String}
use mathlib.Core.Path.{◌≡◌, refl}
use mathlib.Core.Bool.{true, false}
use mathlib.Core.Logic.{inl, inr}
use mathlib.Core.List.{List, [], ◌∷◌}
use native.Mathlib.Omega.{arith}
use text.Mathlib.Text.{◌==◌}
use text.Mathlib.TextEquality.{eq_iff}
use agent_orchestration_syst.Common.Tests.{if◌then◌else◌, is_some, String-cases, Bool-cases}
use agent_orchestration_syst.Common.Lists.{length}
use agent_orchestration_syst.Common.Dict.{
  Dict, contains, Distinct, keys, lookup, assign, remove, lookup-assign, lookup-remove,
}

-- Every text of the one list is in the other.
abbrev pub Within : List String → List String → Type 0
Within xs ys = (x : String) → contains x xs ≡ true → contains x ys ≡ true

module _ {ℓ} {V : Type ℓ} where
  pub contains-keys : (k : String) (d : Dict V) → contains k (keys d) ≡ is_some (lookup k d)
  unfolding lookup
  contains-keys k [] = refl
  contains-keys k ((j, v) ∷ d) = ground (arith, contains-keys k d)

  pub contains-assign :
      (k j : String) (v : V) (d : Dict V)
      → contains j (keys (assign k v d)) ≡ (if k == j then true else contains j (keys d))
  contains-assign k j v d =
      ground (arith, contains-keys j (assign k v d), lookup-assign k j v d, contains-keys j d)

  pub contains-remove :
      (k j : String) (d : Dict V)
      → contains j (keys (remove k d)) ≡ (if k == j then false else contains j (keys d))
  contains-remove k j d =
      ground (arith, contains-keys j (remove k d), lookup-remove k j d, contains-keys j d)

  pub assign-Distinct :
      (k : String) (v : V) (d : Dict V) → Distinct (keys d) → Distinct (keys (assign k v d))
  unfolding assign
  assign-Distinct k v [] h = (refl, tt)
  assign-Distinct k v ((j, w) ∷ d) h =
      ground (arith, assign-Distinct k v d h.1, contains-assign k j v d, eq_iff j k, eq_iff k j)

  pub remove-Distinct : (k : String) (d : Dict V) → Distinct (keys d) → Distinct (keys (remove k d))
  unfolding remove
  remove-Distinct k [] h = tt
  remove-Distinct k ((j, w) ∷ d) h = ground (arith, remove-Distinct k d h.1, contains-remove k j d)

-- The text dropped from a list.
abbrev without : String → List String → List String
without k [] = []
without k (x ∷ xs) = let rest = without k xs in if x == k then rest else x ∷ rest

contains-without :
    (k j : String) (xs : List String)
    → contains j (without k xs) ≡ (if k == j then false else contains j xs)
contains-without k j [] = ground arith
contains-without k j (x ∷ xs) =
    ground (arith, contains-without k j xs, eq_iff x k, eq_iff x j, eq_iff k j)

length-without-le : (k : String) (xs : List String) → length (without k xs) ≤ length xs
length-without-le k [] = omega arith
length-without-le k (x ∷ xs) = ground (arith, length-without-le k xs)

length-without-lt :
    (k : String) (xs : List String) → contains k xs ≡ true → length (without k xs) < length xs
length-without-lt k [] h = ground arith
length-without-lt k (x ∷ xs) h = ground (arith, length-without-lt k xs, length-without-le k xs)

contains-ne :
    (x y : String) (xs : List String)
    → contains x xs ≡ false
    → contains y xs ≡ true
    → (x == y) ≡ false
contains-ne x y xs h k = elim (String-cases x y) [
  | inl (e, _) ↦ absurd (ground (arith, rw e at h))
  | inr (_, e) ↦ e
]

-- Pigeonhole: distinct texts within a list are at most as many as the list has.
pub length-Within-le : (xs ys : List String) → Distinct xs → Within xs ys → length xs ≤ length ys
length-Within-le [] ys h w = omega arith
length-Within-le (x ∷ xs) ys h w = omega (
  arith,
  length-without-lt x ys (w x (ground (arith, eq_iff x x))),
  length-Within-le xs (without x ys) h.1
      (λ y m. ground (arith, contains-without x y ys, contains-ne x y xs h.0 m, w y)),
)

-- Distinct texts within a list that is no longer are all of the list's texts.
pub Within-of_length-le :
    (xs ys : List String) → Distinct xs → Within xs ys → length ys ≤ length xs → Within ys xs
Within-of_length-le xs ys h w len y m = elim (Bool-cases (contains y xs)) [
  | inl e ↦ e
  | inr e ↦ absurd (
      omega (
        arith,
        length-without-lt y ys m,
        length-Within-le xs (without y ys) h
            (λ z k. ground (arith, contains-without y z ys, w z k, contains-ne y z xs e k)),
      ))
]

-- ===== src/Memory/LongTerm/Absorbed.antt =====
-- memory/long_term.py: what a memory keeps of those that `consolidate` merges into it.
use agent_orchestration_syst.Common.{
  ℕ, ◌≡◌, refl, String, Bool, true, false, not, ◌||◌, ◌&&◌, some, List, [], ◌∷◌, ◌++◌, ◌==◌, arith,
  eq_iff, ◌⊎◌, inl, inr, Bool-cases, AtSome, AtSome-bind, AtSome-map, String-cases,
}
use agent_orchestration_syst.Common.Dict.{contains, lookup}
use agent_orchestration_syst.Memory.Models.{MemoryRecord}
use agent_orchestration_syst.Memory.LongTerm.{Collection, absorb, absorb_all, is_far, unique_from}

contains-append :
    (x : String) (xs ys : List String) → contains x (xs ++ ys) ≡ contains x xs || contains x ys
contains-append x [] ys = refl
contains-append x (y ∷ xs) ys = ground (arith, contains-append x xs ys)

contains-unique_from :
    (x : String) (seen xs : List String)
    → contains x (unique_from seen xs) ≡ contains x xs && not (contains x seen)
unfolding unique_from
contains-unique_from x seen [] = refl
contains-unique_from x seen (y ∷ xs) =
    ground (arith, contains-unique_from x seen xs, contains-unique_from x (y ∷ seen) xs, eq_iff y x)

-- The texts of a memory: facts, preferences or tools.
pub data Kind : Type 0 where
  facts preferences tools : Kind

abbrev pub texts : Kind → MemoryRecord → List String
texts facts r = r.facts
texts preferences r = r.preferences
texts tools r = r.tools_used

pub absorb-texts :
    (k : Kind) (x : String) (r other : MemoryRecord)
    → contains x (texts k (absorb r other)) ≡ contains x (texts k r) || contains x (texts k other)
unfolding absorb
absorb-texts facts x r other = ground (
  arith,
  contains-unique_from x [] (r.facts ++ other.facts),
  contains-append x r.facts other.facts,
)
absorb-texts preferences x r other = ground (
  arith,
  contains-unique_from x [] (r.preferences ++ other.preferences),
  contains-append x r.preferences other.preferences,
)
absorb-texts tools x r other = ground (
  arith,
  contains-unique_from x [] (r.tools_used ++ other.tools_used),
  contains-append x r.tools_used other.tools_used,
)

module _ (k : Kind) (x : String) where
  abbrev pub has : MemoryRecord → Bool
  has r = contains x (texts k r)

  -- What the inner loop of one record does to a text: the record keeps it, it is not consumed
  -- itself, and a record that has the text and is consumed has given it.
  pub record Absorbed (id : String) (records : Collection) (consumed : List String)
      (r : MemoryRecord) (result : MemoryRecord × List String) : Type 0 where
    pub keeps : has r ≡ true → has result.0 ≡ true
    pub unconsumed : contains id result.1 ≡ contains id consumed
    pub grows : (j : String) → contains j result.1 ≡ false → contains j consumed ≡ false
    pub gives :
        (j : String) (other : MemoryRecord)
        → lookup j records ≡ some other
        → contains j consumed ≡ false
        → has other ≡ true
        → (contains j result.1 ≡ false) ⊎ (has result.0 ≡ true)

  pub absorb_all-Absorbed :
      (threshold : ℕ) (id : String) (records : Collection) (near : List (String × ℕ))
      (consumed : List String) (r : MemoryRecord)
      → AtSome (Absorbed id records consumed r) (absorb_all threshold id records near consumed r)
  unfolding absorb_all
  absorb_all-Absorbed threshold id records [] consumed r = record {
    keeps = λ h. h;
    unconsumed = refl;
    grows = λ j h. h;
    gives = λ j other e c h. inl c;
  }
  absorb_all-Absorbed threshold id records ((n, d) ∷ rest) consumed r =
      elim (Bool-cases (n == id || contains n consumed || is_far threshold d)) [
        | inl b ↦ rw b (absorb_all-Absorbed threshold id records rest consumed r)
        | inr b ↦ rw b (
            AtSome-bind (Absorbed id records consumed r) (lookup n records) _ λ other e.
              AtSome-map _ _ (absorb_all threshold id records rest (n ∷ consumed) (absorb r other))
                (λ result a. merged n other e b result a)
                (absorb_all-Absorbed threshold id records rest (n ∷ consumed) (absorb r other)))
      ]
    where
      merged :
          (n : String) (other : MemoryRecord)
          → lookup n records ≡ some other
          → (n == id || contains n consumed || is_far threshold d) ≡ false
          → (result : MemoryRecord × List String)
          → Absorbed id records (n ∷ consumed) (absorb r other) result
          → Absorbed id records consumed r result
      merged n other e b result a = record {
        keeps = λ h. ground (arith, a.keeps, absorb-texts k x r other, h);
        unconsumed = ground (arith, a.unconsumed, b);
        grows = λ j h. ground (arith, a.grows j h);
        gives = λ j o f c h. elim (String-cases n j) [
          | inl (p, q) ↦ inr (ground (arith, a.keeps, absorb-texts k x r other, h, e, f, p))
          | inr (p, q) ↦ a.gives j o f (ground (arith, q, c)) h
        ];
      }

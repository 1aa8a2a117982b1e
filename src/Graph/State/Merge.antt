-- ===== src/Graph/State/Merge.antt =====
-- What `_merge_optional_dict` leaves at each key, and that updates of different keys commute.
use agent_orchestration_syst.Common.{
  ◌≡◌, refl, String, true, false, Option, none, some, List, [], ◌∷◌, arith, eq_iff,
}
use agent_orchestration_syst.Common.Dict.{
  Dict, contains, Distinct, keys, lookup, assign, remove, lookup-assign, lookup-remove,
}
use agent_orchestration_syst.Common.Dict.Keys.{
  contains-keys, contains-assign, contains-remove, assign-Distinct, remove-Distinct, Within,
}
use agent_orchestration_syst.Graph.State.{merge_optional_dict}

-- The value that a write leaves: the old one where there is no write, none where it deletes.
abbrev pub written {ℓ} : {V : Type ℓ} → Option (Option V) → Option V → Option V
written none old = old
written (some new) old = new

module _ {ℓ} {V : Type ℓ} where
  -- After a merge a key has what the right dictionary writes, or else what it had.
  pub lookup-merge :
      (k : String) (left : Dict V) (right : Dict (Option V))
      → Distinct (keys right)
      → lookup k (merge_optional_dict left right) ≡ written (lookup k right) (lookup k left)
  unfolding merge_optional_dict lookup
  lookup-merge k left [] d = refl
  lookup-merge k left ((i, none) ∷ right) d = ground (
    arith,
    lookup-merge k (remove i left) right d.1,
    lookup-remove i k left,
    contains-keys i right,
    eq_iff i k,
  )
  lookup-merge k left ((i, some v) ∷ right) d = ground (
    arith,
    lookup-merge k (assign i v left) right d.1,
    lookup-assign i k v left,
    contains-keys i right,
    eq_iff i k,
  )

  pub merge-Distinct :
      (left : Dict V) (right : Dict (Option V))
      → Distinct (keys left)
      → Distinct (keys (merge_optional_dict left right))
  unfolding merge_optional_dict
  merge-Distinct left [] d = d
  merge-Distinct left ((i, none) ∷ right) d =
      merge-Distinct (remove i left) right (remove-Distinct i left d)
  merge-Distinct left ((i, some v) ∷ right) d =
      merge-Distinct (assign i v left) right (assign-Distinct i v left d)

  -- Two updates that write different keys may be merged in either order: at every key the
  -- result is the same.
  pub merge_comm :
      (left : Dict V) (first second : Dict (Option V)) (k : String)
      → Distinct (keys first)
      → Distinct (keys second)
      → ((j : String) → contains j (keys first) ≡ true → contains j (keys second) ≡ false)
      → lookup k (merge_optional_dict (merge_optional_dict left first) second)
        ≡ lookup k (merge_optional_dict (merge_optional_dict left second) first)
  merge_comm left first second k d e apart = ground (
    arith,
    lookup-merge k (merge_optional_dict left first) second e,
    lookup-merge k (merge_optional_dict left second) first d,
    lookup-merge k left first d,
    lookup-merge k left second e,
    contains-keys k first,
    contains-keys k second,
    apart k,
  )

-- The keys that an update sets, rather than deletes, are in a list.
abbrev pub Writes {ℓ} : {V : Type ℓ} → List String → Dict (Option V) → Type 0
Writes ids [] = Unit
Writes ids ((k, none) ∷ right) = Writes ids right
Writes ids ((k, some _) ∷ right) = (contains k ids ≡ true) × Writes ids right

-- Keys that lie within a list still do after an update that sets keys of the list.
pub merge-Within {ℓ} :
    {V : Type ℓ} (ids : List String) (left : Dict V) (right : Dict (Option V))
    → Within (keys left) ids
    → Writes ids right
    → Within (keys (merge_optional_dict left right)) ids
unfolding merge_optional_dict
merge-Within ids left [] h w = h
merge-Within ids left ((i, none) ∷ right) h w =
    merge-Within ids (remove i left) right (λ j m. ground (arith, contains-remove i j left, h j)) w
merge-Within ids left ((i, some v) ∷ right) h w =
    merge-Within ids (assign i v left) right
      (λ j m. ground (arith, contains-assign i j v left, h j, eq_iff i j, w.0)) w.1

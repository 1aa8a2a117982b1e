-- ===== src/Memory/LongTerm/Consolidate.antt =====
-- memory/long_term.py: what `consolidate` keeps of the memories that it merges.
use agent_orchestration_syst.Common.{
  ℕ, ◌≡◌, refl, String, true, false, none, some, List, [], ◌∷◌, ◌==◌, ◌>>=◌, ltb, if◌then◌else◌,
  length, arith, eq_iff, inl, inr, Bool-cases, AtSome, AtSome-bind, AtSome-of, ◌∙◌, String-cases,
}
use agent_orchestration_syst.Common.Dict.{
  contains, Distinct, keys, lookup, assign, remove, lookup-assign, lookup-remove,
}
use agent_orchestration_syst.Common.Dict.Keys.{contains-keys}
use agent_orchestration_syst.Memory.Models.{MemoryRecord, embedding_text}
use agent_orchestration_syst.Memory.LongTerm.{
  Collection, absorb_all, consolidate, consolidate_each, delete_ids, min, owned, Progress,
  remove_consumed, Search,
}
use agent_orchestration_syst.Memory.LongTerm.Absorbed.{
  Kind, texts, has, Absorbed, absorb_all-Absorbed,
}

module _ (k : Kind) (x : String) where
  -- A record that is not consumed has k x the text.
  record Held (p : Progress) : Type 0 where
    at : String
    holder : MemoryRecord
    among : lookup at p.records ≡ some holder
    unconsumed : contains at p.consumed ≡ false
    holds : has k x holder ≡ true

  -- The collection holds the records as they are.
  record Sound (p : Progress) : Type 0 where
    held : Held p
    written :
        (j : String) (r : MemoryRecord)
        → lookup j p.records ≡ some r
        → contains j p.consumed ≡ false
        → lookup j p.collection ≡ some r

  -- The progress after one turn of the outer loop.
  abbrev turn : Progress → String → MemoryRecord × List String → Progress
  turn p id (r', consumed) = record {
    records = assign id r' p.records;
    consumed = consumed;
    collection = if contains id consumed then p.collection else assign id r' p.collection;
  }

  turn-Sound :
      (p : Progress) (id : String) (r : MemoryRecord) (result : MemoryRecord × List String)
      → lookup id p.records ≡ some r
      → contains id p.consumed ≡ false
      → Absorbed k x id p.records p.consumed r result
      → Sound p
      → Sound (turn p id result)
  turn-Sound p id r (r', consumed) e c a s = record {
    held = elim (String-cases id s.held.at) [
      | inl (q, t) ↦ by_id (a.keeps (ground (arith, q, e, s.held.among, s.held.holds)))
      | inr (q, t) ↦
          elim (a.gives s.held.at s.held.holder s.held.among s.held.unconsumed s.held.holds) [
            | inl free ↦ record {
              at = s.held.at;
              holder = s.held.holder;
              among = ground (arith, lookup-assign id s.held.at r' p.records, t, s.held.among);
              unconsumed = free;
              holds = s.held.holds;
            }
            | inr given ↦ by_id given
          ]
    ];
    written = λ j r'' f d. ground (
      arith,
      a.unconsumed,
      c,
      f,
      lookup-assign id j r' p.records,
      lookup-assign id j r' p.collection,
      s.written j r'',
      a.grows j d,
    );
  }
    where
      by_id : has k x r' ≡ true → Held (turn p id (r', consumed))
      by_id h = record {
        at = id;
        holder = r';
        among = ground (arith, lookup-assign id id r' p.records, eq_iff id id);
        unconsumed = ground (arith, a.unconsumed, c);
        holds = h;
      }

  consolidate_each-Sound :
      (threshold : ℕ) (nearest : Search) (ids : List String) (p : Progress)
      → Sound p
      → AtSome Sound (consolidate_each threshold nearest ids p)
  unfolding consolidate_each
  consolidate_each-Sound threshold nearest [] p s = s
  consolidate_each-Sound threshold nearest (id ∷ ids) p s =
      elim (Bool-cases (contains id p.consumed)) [
        | inl c ↦ rw c (consolidate_each-Sound threshold nearest ids p s)
        | inr c ↦ rw c (
            AtSome-bind Sound (lookup id p.records) _ λ r e.
              AtSome-bind Sound (absorb_all threshold id p.records (near r) p.consumed r) _
                λ result f. consolidate_each-Sound threshold nearest ids (turn p id result) (
                  turn-Sound p id r result e c
                    (AtSome-of (Absorbed k x id p.records p.consumed r)
                      (absorb_all threshold id p.records (near r) p.consumed r)
                      (absorb_all-Absorbed k x threshold id p.records (near r) p.consumed r) f)
                    s))
      ]
    where
      near : MemoryRecord → List (String × ℕ)
      near r = nearest (embedding_text r) (min 5 (length (keys p.records)))

  lookup-delete_ids :
      (ids : List String) (j : String) (c : Collection)
      → contains j ids ≡ false
      → lookup j (delete_ids ids c) ≡ lookup j c
  unfolding delete_ids
  lookup-delete_ids [] j c h = refl
  lookup-delete_ids (i ∷ ids) j c h =
      ground (arith, lookup-delete_ids ids j (remove i c), lookup-remove i j c, h)

  -- A record of a collection has k x the text.
  pub record Kept (c : Collection) : Type 0 where
    pub at : String
    pub holder : MemoryRecord
    pub among : lookup at c ≡ some holder
    pub holds : contains x (texts k holder) ≡ true

  Sound-Kept : (p : Progress) → Sound p → Kept (remove_consumed p).1
  Sound-Kept p s = record {
    at = s.held.at;
    holder = s.held.holder;
    among =
        lookup-delete_ids p.consumed s.held.at p.collection s.held.unconsumed
        ∙ s.written s.held.at s.held.holder s.held.among s.held.unconsumed;
    holds = s.held.holds;
  }

lookup-owned :
    (user_id j : String) (c : Collection)
    → Distinct (keys c)
    → lookup j (owned user_id c)
      ≡ (lookup j c >>= λ r. if r.user_id == user_id then some r else none)
unfolding owned lookup
lookup-owned user_id j [] d = refl
lookup-owned user_id j ((i, r) ∷ c) d =
    ground (arith, lookup-owned user_id j c d.1, d.0, eq_iff i j, contains-keys j c)

-- Merging the memories of a user loses no fact, no preference and no tool: each that a record of
-- the user had is in a record of the collection afterwards, whichever neighbors the search gives
-- and whatever the threshold, where the merge does not raise.
pub consolidate-Kept :
    (k : Kind) (x : String) (threshold : ℕ) (nearest : Search) (user_id : String)
    (c c' : Collection) (n : ℕ) (id : String) (r : MemoryRecord)
    → Distinct (keys c)
    → lookup id c ≡ some r
    → r.user_id ≡ user_id
    → contains x (texts k r) ≡ true
    → consolidate threshold nearest user_id c ≡ some (n, c')
    → Kept k x c'
unfolding consolidate
consolidate-Kept k x threshold nearest user_id c c' n id r d e u h done =
    AtSome-of (λ q. Kept k x q.1) (consolidate threshold nearest user_id c)
      (elim (Bool-cases (ltb (length (keys (owned user_id c))) 2)) [
        | inl b ↦ rw (b, consolidate) (record { at = id; holder = r; among = e; holds = h })
        | inr b ↦
            rw (b, consolidate)
              (AtSome-bind (λ q. Kept k x q.1)
                (consolidate_each threshold nearest (keys (owned user_id c)) first) _
                (λ p f. Sound-Kept k x p (
                  AtSome-of (Sound k x)
                    (consolidate_each threshold nearest (keys (owned user_id c)) first)
                    (consolidate_each-Sound k x threshold nearest (keys (owned user_id c)) first
                      first-Sound)
                    f)))
      ])
      done
  where
    first : Progress
    first = record { records = owned user_id c; consumed = []; collection = c }

    first-Sound : Sound k x first
    first-Sound = record {
      held = record {
        at = id;
        holder = r;
        among = ground (arith, lookup-owned user_id id c d, e, u, eq_iff r.user_id user_id);
        unconsumed = refl;
        holds = h;
      };
      written = λ j r' f g. ground (arith, lookup-owned user_id j c d, f);
    }

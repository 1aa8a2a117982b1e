-- ===== src/Memory/LongTerm.antt =====
-- memory/long_term.py: the collection of memories, by id in the order of insertion. The nearest
-- by similarity is a parameter. The metadata of an entry is the record that it is made of, since
-- `_from_result` reads back what `_to_metadata` writes.
pub mod Absorbed
pub mod Consolidate
pub mod Expiry
pub mod Deletion
use agent_orchestration_syst.Common.{
  ℕ, ◌+◌, String, Bool, ◌||◌, Option, none, some, List, [], ◌∷◌, ◌++◌, ◌==◌, ◌>>=◌, ltb,
  if◌then◌else◌, length,
}
use agent_orchestration_syst.Common.Dict.{Dict, contains, keys, values, lookup, assign, remove}
use agent_orchestration_syst.Memory.Models.{MemoryRecord, embedding_text}

abbrev pub Collection : Type 0
Collection = Dict MemoryRecord

-- `add`. Chroma leaves an id that is there as it is.
unfoldable pub add : MemoryRecord → Collection → Collection
add r c = elim (lookup r.id c) [ none ↦ assign r.id r c | some _ ↦ c ]

-- `delete`
abbrev pub delete : (memory_id : String) → Collection → Collection
delete memory_id c = remove memory_id c

-- The entries of a user, as `list_user_memories` gives them and `consolidate` indexes them.
unfoldable pub owned : (user_id : String) → Collection → Collection
owned user_id [] = []
owned user_id ((id, r) ∷ rest) =
    let others = owned user_id rest in if r.user_id == user_id then (id, r) ∷ others else others

abbrev pub list_user_memories : (user_id : String) → Collection → List MemoryRecord
list_user_memories user_id c = values (owned user_id c)

-- The deletion of all of some ids.
unfoldable pub delete_ids : List String → Collection → Collection
delete_ids [] c = c
delete_ids (id ∷ ids) c = delete_ids ids (remove id c)

-- `delete_user_memories`: how many, and what is left.
unfoldable pub delete_user_memories : (user_id : String) → Collection → ℕ × Collection
unfolding owned
delete_user_memories user_id c =
    (length (list_user_memories user_id c), delete_ids (keys (owned user_id c)) c)

-- `_bump_access`
unfoldable pub bump_access : (now : ℕ) → MemoryRecord → MemoryRecord
bump_access now r = record r { access_count = r.access_count + 1; last_accessed_at = now }

-- `query`, given the ids that the collection finds: the records as returned, and the collection.
unfoldable pub query :
    (now : ℕ) → (found : List String) → Collection → Option (List MemoryRecord × Collection)
unfolding bump_access
query now [] c = some ([], c)
query now (id ∷ ids) c = lookup id c >>= λ r.
    let r' = bump_access now r in
    query now ids (assign id r' c) >>= λ (records, c'). some (r' ∷ records, c')

-- `list(dict.fromkeys(xs))`: the first of equal texts stays.
unfoldable pub unique_from : (seen : List String) → List String → List String
unique_from seen [] = []
unique_from seen (x ∷ xs) =
    let skipped = unique_from seen xs in
    let kept = x ∷ unique_from (x ∷ seen) xs in if contains x seen then skipped else kept

abbrev pub unique : List String → List String
unique xs = unique_from [] xs

abbrev pub max : ℕ → ℕ → ℕ
max a b = if ltb a b then b else a

-- What a record takes over from one that it is merged with.
unfoldable pub absorb : MemoryRecord → (other : MemoryRecord) → MemoryRecord
absorb r other = record r {
  facts = unique (r.facts ++ other.facts);
  preferences = unique (r.preferences ++ other.preferences);
  tools_used = unique (r.tools_used ++ other.tools_used);
  access_count = r.access_count + other.access_count;
  importance = max r.importance other.importance;
}

-- `similarity < threshold` for `similarity = 1 - distance`, in millionths.
abbrev pub is_far : (threshold distance : ℕ) → Bool
is_far threshold distance = ltb 1_000_000 (threshold + distance)

-- The inner loop of `consolidate` over the neighbors and their distances: the record, and the
-- ids that are consumed. A neighbor that is not among the records raises.
unfoldable pub absorb_all :
    (threshold : ℕ)
    → (id : String) → (records : Collection) → List (String × ℕ)
    → (consumed : List String) → MemoryRecord
    → Option (MemoryRecord × List String)
unfolding absorb
absorb_all threshold id records [] consumed r = some (r, consumed)
absorb_all threshold id records ((neighbor, distance) ∷ rest) consumed r =
    let skipped = absorb_all threshold id records rest consumed r in
    let merged = lookup neighbor records >>= λ other.
    absorb_all threshold id records rest (neighbor ∷ consumed) (absorb r other) in
    if neighbor == id || contains neighbor consumed || is_far threshold distance
    then skipped
    else merged

-- The search: the ids and distances of the entries of the user that are nearest to a text. No
-- document changes while `consolidate` runs.
abbrev pub Search : Type 0
Search = (text : String) → (n_results : ℕ) → List (String × ℕ)

pub record Progress : Type 0 where
  pub records : Collection
  pub consumed : List String
  pub collection : Collection

abbrev pub min : ℕ → ℕ → ℕ
min a b = if ltb b a then b else a

-- The outer loop of `consolidate`. The records are shared with their dictionary, so that what
-- one has absorbed is seen by those that follow.
unfoldable pub consolidate_each :
    (threshold : ℕ) → Search → List String → Progress → Option Progress
unfolding absorb_all
consolidate_each threshold nearest [] p = some p
consolidate_each threshold nearest (id ∷ ids) p =
    let skipped = consolidate_each threshold nearest ids p in
    let merged = lookup id p.records >>= λ r.
    absorb_all threshold id p.records (nearest (embedding_text r) (min 5 (length (keys p.records))))
      p.consumed r
    >>= λ (r', consumed). consolidate_each threshold nearest ids (record {
      records = assign id r' p.records;
      consumed = consumed;
      collection = if contains id consumed then p.collection else assign id r' p.collection;
    }) in
    if contains id p.consumed then skipped else merged

-- The end of `consolidate`
abbrev pub remove_consumed : Progress → ℕ × Collection
remove_consumed p = (length p.consumed, delete_ids p.consumed p.collection)

-- `consolidate`: how many records were merged away, and the collection.
unfoldable pub consolidate :
    (threshold : ℕ) → Search → (user_id : String) → Collection → Option (ℕ × Collection)
unfolding owned consolidate_each delete_ids
consolidate threshold nearest user_id c =
    let records = owned user_id c in
    if ltb (length (keys records)) 2
    then some (0, c)
    else consolidate_each threshold nearest (keys records)
        (record { records = records; consumed = []; collection = c })
      >>= λ p. some (remove_consumed p)

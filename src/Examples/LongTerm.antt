-- ===== src/Examples/LongTerm.antt =====
-- The theorems on memory/long_term.py, applied to two memories that are near to each other and to
-- one of another user.
use agent_orchestration_syst.Common.{
  ◌≡◌, refl, String, true, some, [], ◌∷◌, get_or, join, keep, length, not, leb, if◌then◌else◌, ◌+◌,
}
use agent_orchestration_syst.Common.Dict.{assign, lookup, remove}
use agent_orchestration_syst.Memory.Models.{MemoryRecord, embedding_text}
use agent_orchestration_syst.Memory.LongTerm.{
  absorb, absorb_all, Collection, consolidate, consolidate_each, delete_ids, owned, Search,
  delete_user_memories, unique_from,
}
use agent_orchestration_syst.Memory.LongTerm.Expiry.{
  Limits, Score, expire, effective_importance, candidates,
}
use agent_orchestration_syst.Memory.LongTerm.Deletion.{deletions, is_expired, is_owned}
use agent_orchestration_syst.Memory.LongTerm.Absorbed.{Kind}
use agent_orchestration_syst.Memory.LongTerm.Consolidate.{consolidate-Kept, Kept}

abbrev memory : (id fact : String) → MemoryRecord
memory id fact = record {
  id = id;
  user_id = "u";
  task = "task";
  approach_summary = "";
  tools_used = [];
  facts = fact ∷ [];
  preferences = [];
  success = true;
  importance = 500_000;
  access_count = 1;
  created_at = 0;
  last_accessed_at = 0;
}

abbrev collection : Collection
collection = ("m-1", memory "m-1" "a") ∷ ("m-2", memory "m-2" "b") ∷ []

abbrev nearest : Search
nearest _ _ = ("m-1", 0) ∷ ("m-2", 10_000) ∷ []

unfoldable merged : Collection
merged = (get_or (consolidate 900_000 nearest "u" collection) (0, [])).1

merges : consolidate 900_000 nearest "u" collection ≡ some (1, merged)
unfolding merged absorb absorb_all consolidate consolidate_each delete_ids owned unique_from assign
    lookup remove embedding_text join
merges = refl

finds : lookup "m-2" collection ≡ some (memory "m-2" "b")
unfolding lookup
finds = refl

consolidate-Kept_example : Kept Kind.facts "b" merged
consolidate-Kept_example =
    consolidate-Kept Kind.facts "b" 900_000 nearest "u" collection merged 1 "m-2" (memory "m-2" "b")
      (refl, (refl, tt)) finds refl refl merges

-- A score that loses one half per half life, in units of a thousandth.
abbrev score : Score
score = record {
  one = 1000;
  boost = λ n. 1000 + n;
  decay = λ age half_life. if leb half_life age then 500 else 1000;
}

abbrev limits : Limits
limits = record { half_life = 10; min_importance = 300_000; min_age_before_expiry = 5 }

abbrev theirs : Collection
theirs = ("m-3", record (memory "m-3" "c") { user_id = "v" }) ∷ collection

-- The memories of the one user have lost half of their importance, and are gone.
expired :
    expire score limits 20 (some "u") theirs
    ≡ (2, ("m-3", record (memory "m-3" "c") { user_id = "v" }) ∷ [])
unfolding expire effective_importance candidates owned delete_ids remove
expired = refl

deletions_example :
    (delete_user_memories "u" theirs
      ≡ (length (keep (is_owned "u") theirs), keep (λ e. not (is_owned "u" e)) theirs))
    × (expire score limits 20 (some "u") theirs ≡ (
      length (keep (is_expired score limits 20 (some "u")) theirs),
      keep (λ e. not (is_expired score limits 20 (some "u") e)) theirs,
    ))
deletions_example = deletions score limits 20 "u" (some "u") theirs (refl, (refl, (refl, tt)))

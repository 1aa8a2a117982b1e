-- ===== src/Memory/LongTerm/Deletion.antt =====
-- memory/long_term.py: what `delete_user_memories` and `expire` delete, and what they leave.
use agent_orchestration_syst.Common.{
  ℕ, ◌≡◌, refl, ap, sym, ◌∙◌, String, Bool, true, false, not, ◌&&◌, Option, List, [], ◌∷◌, ◌==◌,
  if◌then◌else◌, keep, length, keep-true, keep-false, suc, truthy, get_or, arith, Bool-cases, inl,
  inr, eq_iff, eq_refl,
}
use agent_orchestration_syst.Common.Dict.{keys, values, contains, Distinct, remove}
use agent_orchestration_syst.Memory.Models.{MemoryRecord}
use agent_orchestration_syst.Memory.LongTerm.{Collection, delete_ids, owned, delete_user_memories}
use agent_orchestration_syst.Memory.LongTerm.Expiry.{Score, Limits, candidates, expire, is_stale}

abbrev Entry : Type 0
Entry = String × MemoryRecord

owned-keep :
    (user_id : String) (c : Collection)
    → owned user_id c ≡ keep (λ (e : Entry). e.1.user_id == user_id) c
unfolding owned
owned-keep user_id [] = refl
owned-keep user_id ((id, r) ∷ c) = ground (arith, owned-keep user_id c)

remove-absent : (id : String) (c : Collection) → contains id (keys c) ≡ false → remove id c ≡ c
unfolding remove
remove-absent id [] h = refl
remove-absent id ((j, r) ∷ c) h = ground (arith, remove-absent id c)

remove-head :
    (id : String) (r : MemoryRecord) (c : Collection)
    → contains id (keys c) ≡ false
    → remove id ((id, r) ∷ c) ≡ c
unfolding remove
remove-head id r c h = ground (arith, eq_refl id, remove-absent id c h)

delete_ids-apart :
    (id : String) (r : MemoryRecord) (ids : List String) (c : Collection)
    → contains id ids ≡ false
    → delete_ids ids ((id, r) ∷ c) ≡ (id, r) ∷ delete_ids ids c
unfolding delete_ids remove
delete_ids-apart id r [] c h = refl
delete_ids-apart id r (j ∷ ids) c h =
    ground (arith, delete_ids-apart id r ids (remove j c), eq_iff j id, eq_iff id j)

contains-keep :
    (p : Entry → Bool) (id : String) (c : Collection)
    → contains id (keys c) ≡ false
    → contains id (keys (keep p c)) ≡ false
contains-keep p id [] h = refl
contains-keep p id (e ∷ c) h = ground (arith, contains-keep p id c)

-- The deletion of the ids of some entries leaves the others, in their order.
delete_ids-keep :
    (p : Entry → Bool) (c : Collection)
    → Distinct (keys c)
    → delete_ids (keys (keep p c)) c ≡ keep (λ e. not (p e)) c
unfolding delete_ids remove
delete_ids-keep p [] d = refl
delete_ids-keep p ((id, r) ∷ c) d = elim (Bool-cases (p (id, r))) [
  | inl e ↦
      ap (λ l. delete_ids (keys l) ((id, r) ∷ c)) (keep-true p (id, r) c e)
      ∙ ap (delete_ids (keys (keep p c))) (remove-head id r c d.0)
      ∙ delete_ids-keep p c d.1
      ∙ sym (keep-false (λ x. not (p x)) (id, r) c (ap not e))
  | inr e ↦
      ap (λ l. delete_ids (keys l) ((id, r) ∷ c)) (keep-false p (id, r) c e)
      ∙ delete_ids-apart id r (keys (keep p c)) c (contains-keep p id c d.0)
      ∙ ap (◌∷◌ (id, r)) (delete_ids-keep p c d.1)
      ∙ sym (keep-true (λ x. not (p x)) (id, r) c (ap not e))
]

length-keys : (c : Collection) → length (keys c) ≡ length c
length-keys [] = refl
length-keys (e ∷ c) = ap suc (length-keys c)

length-values : (c : Collection) → length (values c) ≡ length c
length-values [] = refl
length-values (e ∷ c) = ap suc (length-values c)

abbrev pub is_owned : (user_id : String) → Entry → Bool
is_owned user_id e = e.1.user_id == user_id

-- The entries that `expire` is to delete: stale, and of the user where one is given.
abbrev pub is_expired : Score → Limits → (now : ℕ) → (user_id : Option String) → Entry → Bool
is_expired score limits now user_id e =
    is_stale score limits now e.1
    && (if truthy user_id then is_owned (get_or user_id "") e else true)

keep-keep : (p q : Entry → Bool) (c : Collection) → keep p (keep q c) ≡ keep (λ e. p e && q e) c
keep-keep p q [] = refl
keep-keep p q (e ∷ c) = ground (arith, keep-keep p q c)

keep_unconditional : (p : Entry → Bool) (c : Collection) → keep (λ e. p e && true) c ≡ keep p c
keep_unconditional p [] = refl
keep_unconditional p (e ∷ c) = ground (arith, keep_unconditional p c)

delete_user_memories-keep :
    (user_id : String) (c : Collection)
    → Distinct (keys c)
    → delete_user_memories user_id c
      ≡ (length (keep (is_owned user_id) c), keep (λ e. not (is_owned user_id e)) c)
unfolding delete_user_memories
delete_user_memories-keep user_id c d =
    ap (λ l. (length (values l), delete_ids (keys l) c)) (owned-keep user_id c)
    ∙ ap (λ n. (n, delete_ids (keys (keep (is_owned user_id) c)) c))
        (length-values (keep (is_owned user_id) c))
    ∙ ap (λ l. (length (keep (is_owned user_id) c), l)) (delete_ids-keep (is_owned user_id) c d)

candidates-keep :
    (p : Entry → Bool) (one_user : Bool) (user_id : String) (c : Collection)
    → keep p (if one_user then owned user_id c else c)
      ≡ keep (λ e. p e && (if one_user then is_owned user_id e else true)) c
candidates-keep p true user_id c =
    ap (keep p) (owned-keep user_id c) ∙ keep-keep p (is_owned user_id) c
candidates-keep p false user_id c = sym (keep_unconditional p c)

expire-keep :
    (score : Score) (limits : Limits) (now : ℕ) (user_id : Option String) (c : Collection)
    → Distinct (keys c)
    → let gone = is_expired score limits now user_id in
      expire score limits now user_id c ≡ (length (keep gone c), keep (λ e. not (gone e)) c)
unfolding expire candidates
expire-keep score limits now user_id c d =
    let gone = is_expired score limits now user_id in
    ap (λ l. (length (keys l), delete_ids (keys l) c))
      (candidates-keep (λ (e : Entry). is_stale score limits now e.1) (truthy user_id)
        (get_or user_id "") c)
    ∙ ap (λ n. (n, delete_ids (keys (keep gone c)) c)) (length-keys (keep gone c))
    ∙ ap (λ l. (length (keep gone c), l)) (delete_ids-keep gone c d)

-- `delete_user_memories` deletes the memories of the user and no other, and `expire` the stale ones,
-- of the user where one is given, and no other. What is left keeps its order, and both return how
-- many are gone, where the ids are distinct.
pub deletions :
    (score : Score) (limits : Limits) (now : ℕ) (user : String) (user_id : Option String)
    (c : Collection)
    → Distinct (keys c)
    → let gone = is_expired score limits now user_id in
      (delete_user_memories user c
        ≡ (length (keep (is_owned user) c), keep (λ e. not (is_owned user e)) c))
      × (expire score limits now user_id c ≡ (length (keep gone c), keep (λ e. not (gone e)) c))
deletions score limits now user user_id c d =
    (delete_user_memories-keep user c d, expire-keep score limits now user_id c d)

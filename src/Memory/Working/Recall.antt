-- ===== src/Memory/Working/Recall.antt =====
-- memory/working.py against a map from tasks and fields to values.
use agent_orchestration_syst.Common.{
  ℕ, ◌≡◌, refl, String, Bool, true, false, ◌&&◌, Option, none, some, List, [], ◌∷◌, ◌==◌, ◌>>=◌,
  if◌then◌else◌, arith, eq_iff, ◌∙◌, ap, sym,
}
use text.Mathlib.TextLemmas.{append_cancel_left, append_cancel_right}
use agent_orchestration_syst.Common.Dict.{Dict, lookup}
use agent_orchestration_syst.Memory.Working.{
  RedisLike, JsonCodec, key_of, save, get, get_all, clear, loads_all,
}

-- No two tasks share a key.
key_of-injective : (t t' : String) → key_of t ≡ key_of t' → t ≡ t'
unfolding key_of
key_of-injective t t' e =
    append_cancel_right t t' ":working_memory" (append_cancel_left "task:" _ _ e)

key_of-same : (t t' : String) → (key_of t == key_of t') ≡ (t == t')
key_of-same t t' = ground (
  arith,
  eq_iff t t',
  eq_iff (key_of t) (key_of t'),
  key_of-injective t t',
  ap key_of {x = t} {y = t'},
)

-- What a program does to the working memory of its tasks.
pub data Command (Value : Type 0) : Type 0 where
  saves : (task_id field : String) → Value → Command Value
  clears : (task_id : String) → Command Value

-- What a field of a task holds after some commands, if it held `v`: the value that was saved
-- last, unless the task was cleared since.
unfoldable pub remembered :
    {Value : Type 0} → Option Value → (task_id field : String) → List (Command Value) → Option Value
remembered v t f [] = v
remembered v t f (saves t' f' value ∷ rest) =
    remembered (if (t' == t) && (f' == f) then some value else v) t f rest
remembered v t f (clears t' ∷ rest) = remembered (if t' == t then none else v) t f rest

module _ {S V Value : Type 0} (redis : RedisLike S V) (json : JsonCodec Value V) (ttl : ℕ) where
  unfoldable pub perform : S → List (Command Value) → S
  perform s [] = s
  perform s (saves t f v ∷ rest) = perform (save redis json ttl s t f v) rest
  perform s (clears t ∷ rest) = perform (clear redis json ttl s t) rest

  loaded : Option V → Option Value
  loaded o = o >>= λ raw. some (json.loads raw)

  loaded-if :
      (b : Bool) (v : Value) (o : Option V)
      → loaded (if b then some (json.dumps v) else o) ≡ (if b then some v else loaded o)
  unfolding loaded
  loaded-if true v o = ap some (json.loads-dumps v)
  loaded-if false v o = refl

  loaded-unless :
      (b : Bool) (o : Option V) → loaded (if b then none else o) ≡ (if b then none else loaded o)
  unfolding loaded
  loaded-unless true o = refl
  loaded-unless false o = refl

  get-save :
      (s : S) (t' f' : String) (v : Value) (t f : String)
      → get redis json ttl (save redis json ttl s t' f' v) t f
        ≡ (if (t' == t) && (f' == f) then some v else get redis json ttl s t f)
  unfolding get save loaded
  get-save s t' f' v t f =
      ap loaded (
        redis.hget-expire (redis.hset s (key_of t') f' (json.dumps v)) (key_of t') ttl (key_of t) f
        ∙ redis.hget-hset s (key_of t') f' (json.dumps v) (key_of t) f
        ∙ ap (λ b. if b && (f' == f) then some (json.dumps v) else redis.hget s (key_of t) f)
            (key_of-same t' t))
      ∙ loaded-if ((t' == t) && (f' == f)) v (redis.hget s (key_of t) f)

  get-clear :
      (s : S) (t' t f : String)
      → get redis json ttl (clear redis json ttl s t') t f
        ≡ (if t' == t then none else get redis json ttl s t f)
  unfolding get clear loaded
  get-clear s t' t f =
      ap loaded (
        redis.hget-delete s (key_of t') (key_of t) f
        ∙ ap (λ b. if b then none else redis.hget s (key_of t) f) (key_of-same t' t))
      ∙ loaded-unless (t' == t) (redis.hget s (key_of t) f)

  -- After any sequence of saves and clears, of this task and of others, `get` of a field of a
  -- task gives the value that was saved there last, or none if the task was cleared since: tasks
  -- do not disturb each other, and what is written is read back.
  pub get-perform :
      (s : S) (commands : List (Command Value)) (t f : String)
      → get redis json ttl (perform s commands) t f
        ≡ remembered (get redis json ttl s t f) t f commands
  unfolding perform remembered
  get-perform s [] t f = refl
  get-perform s (saves t' f' v ∷ rest) t f =
      get-perform (save redis json ttl s t' f' v) rest t f
      ∙ ap (λ o. remembered o t f rest) (get-save s t' f' v t f)
  get-perform s (clears t' ∷ rest) t f =
      get-perform (clear redis json ttl s t') rest t f
      ∙ ap (λ o. remembered o t f rest) (get-clear s t' t f)

  lookup-loads_all :
      (f : String) (d : Dict V) → lookup f (loads_all redis json ttl d) ≡ loaded (lookup f d)
  unfolding loads_all lookup loaded
  lookup-loads_all f [] = refl
  lookup-loads_all f ((g, raw) ∷ rest) = ground (arith, lookup-loads_all f rest)

  lookup-get_all :
      (s : S) (t f : String) → lookup f (get_all redis json ttl s t) ≡ get redis json ttl s t f
  unfolding get_all get loaded
  lookup-get_all s t f =
      lookup-loads_all f (redis.hgetall s (key_of t))
      ∙ ap loaded (redis.lookup-hgetall s (key_of t) f)

  -- After any sequence of saves and clears, of this task and of others, `get_all` of a task holds in
  -- each field the value that was saved there last since the task was cleared, and no other field.
  pub get_all-perform :
      (s : S) (commands : List (Command Value)) (t f : String)
      → lookup f (get_all redis json ttl (perform s commands) t)
        ≡ remembered (lookup f (get_all redis json ttl s t)) t f commands
  get_all-perform s commands t f =
      lookup-get_all (perform s commands) t f
      ∙ get-perform s commands t f
      ∙ ap (λ o. remembered o t f commands) (sym (lookup-get_all s t f))

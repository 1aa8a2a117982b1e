-- ===== src/Memory/Working.antt =====
-- memory/working.py: a Redis hash for each task. Redis and Python's JSON are parameters. Values
-- are what JSON has a form for: `default=str` writes any other as a text.
pub mod Recall
use agent_orchestration_syst.Common.{
  ℕ, ◌≡◌, String, ◌&&◌, Option, none, some, [], ◌∷◌, ◌==◌, ◌>>=◌, if◌then◌else◌, concat,
}
use agent_orchestration_syst.Common.Dict.{Dict, lookup}

-- The protocol `RedisLike`, before the time to live of a key has passed.
pub record RedisLike (S V : Type 0) : Type 0 where
  pub hset : S → (name key : String) → V → S
  pub hget : S → (name key : String) → Option V
  pub hgetall : S → (name : String) → Dict V
  pub expire : S → (name : String) → (ttl : ℕ) → S
  pub delete : S → (name : String) → S
  pub hget-hset :
      (s : S) (name key : String) (v : V) (name' key' : String)
      → hget (hset s name key v) name' key'
        ≡ (if (name == name') && (key == key') then some v else hget s name' key')
  pub hget-expire :
      (s : S) (name : String) (ttl : ℕ) (name' key : String)
      → hget (expire s name ttl) name' key ≡ hget s name' key
  pub hget-delete :
      (s : S) (name name' key : String)
      → hget (delete s name) name' key ≡ (if name == name' then none else hget s name' key)
  pub lookup-hgetall : (s : S) (name key : String) → lookup key (hgetall s name) ≡ hget s name key

-- `json.dumps` and `json.loads`
pub record JsonCodec (Value V : Type 0) : Type 0 where
  pub dumps : Value → V
  pub loads : V → Value
  pub loads-dumps : (v : Value) → loads (dumps v) ≡ v

-- `_key`
unfoldable pub key_of : (task_id : String) → String
unfolding concat
key_of task_id = concat ("task:" ∷ task_id ∷ ":working_memory" ∷ [])

module _ {S V Value : Type 0} (redis : RedisLike S V) (json : JsonCodec Value V)
    (ttl_seconds : ℕ) where
  -- `save`
  unfoldable pub save : S → (task_id field : String) → Value → S
  unfolding key_of
  save s task_id field value =
      redis.expire (redis.hset s (key_of task_id) field (json.dumps value)) (key_of task_id)
        ttl_seconds

  -- `get`
  unfoldable pub get : S → (task_id field : String) → Option Value
  unfolding key_of
  get s task_id field = redis.hget s (key_of task_id) field >>= λ raw. some (json.loads raw)

  unfoldable pub loads_all : Dict V → Dict Value
  loads_all [] = []
  loads_all ((field, raw) ∷ rest) = (field, json.loads raw) ∷ loads_all rest

  -- `get_all`
  unfoldable pub get_all : S → (task_id : String) → Dict Value
  unfolding key_of loads_all
  get_all s task_id = loads_all (redis.hgetall s (key_of task_id))

  -- `clear`
  unfoldable pub clear : S → (task_id : String) → S
  unfolding key_of
  clear s task_id = redis.delete s (key_of task_id)

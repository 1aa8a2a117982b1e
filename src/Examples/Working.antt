-- ===== src/Examples/Working.antt =====
-- The theorems on memory/working.py, applied to a server that is a list of fields.
use agent_orchestration_syst.Common.{
  ℕ, ◌≡◌, refl, String, ◌&&◌, none, some, List, [], ◌∷◌, ◌==◌, if◌then◌else◌, arith, get_or, eq_iff,
}
use agent_orchestration_syst.Common.Dict.{
  Dict, lookup, assign, remove, lookup-assign, lookup-remove,
}
use agent_orchestration_syst.Memory.Working.{RedisLike, JsonCodec, get, get_all}
use agent_orchestration_syst.Memory.Working.Recall.{
  Command, saves, clears, perform, remembered, get-perform, get_all-perform,
}

abbrev hash : Dict (Dict ℕ) → String → Dict ℕ
hash s name = get_or (lookup name s) []

hget-hset :
    (s : Dict (Dict ℕ)) (name key : String) (v : ℕ) (name' key' : String)
    → lookup key' (hash (assign name (assign key v (hash s name)) s) name')
      ≡ (if (name == name') && (key == key') then some v else lookup key' (hash s name'))
hget-hset s name key v name' key' = ground (
  arith,
  lookup-assign name name' (assign key v (hash s name)) s,
  eq_iff name name',
  lookup-assign key key' v (hash s name),
)

hget-delete :
    (s : Dict (Dict ℕ)) (name name' key : String)
    → lookup key (hash (remove name s) name')
      ≡ (if name == name' then none else lookup key (hash s name'))
unfolding lookup
hget-delete s name name' key = ground (arith, lookup-remove name name' s)

abbrev redis : RedisLike (Dict (Dict ℕ)) ℕ
redis = record {
  hset = λ s name key v. assign name (assign key v (hash s name)) s;
  hget = λ s name key. lookup key (hash s name);
  hgetall = hash;
  expire = λ s name ttl. s;
  delete = λ s name. remove name s;
  hget-hset = hget-hset;
  hget-expire = λ s name ttl name' key. refl;
  hget-delete = hget-delete;
  lookup-hgetall = λ s name key. refl;
}

abbrev json : JsonCodec ℕ ℕ
json = record { dumps = λ v. v; loads = λ v. v; loads-dumps = λ v. refl }

-- Two tasks save, and one of them is cleared.
abbrev commands : List (Command ℕ)
commands = saves "t-1" "plan" 3 ∷ saves "t-2" "plan" 4 ∷ saves "t-1" "plan" 5 ∷ clears "t-2" ∷ []

get-perform_example :
    get redis json 3600 (perform redis json 3600 [] commands) "t-1" "plan"
    ≡ remembered (get redis json 3600 [] "t-1" "plan") "t-1" "plan" commands
get-perform_example = get-perform redis json 3600 [] commands "t-1" "plan"

get_all-perform_example :
    lookup "plan" (get_all redis json 3600 (perform redis json 3600 [] commands) "t-1")
    ≡ remembered (lookup "plan" (get_all redis json 3600 [] "t-1")) "t-1" "plan" commands
get_all-perform_example = get_all-perform redis json 3600 [] commands "t-1" "plan"

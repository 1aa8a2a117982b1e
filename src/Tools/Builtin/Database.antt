-- ===== src/Tools/Builtin/Database.antt =====
-- tools/builtin.py: `db_query`. What sqlite answers is a parameter.
use Prim.Native.Char.{code}
use agent_orchestration_syst.Common.{
  ℕ, ◌+◌, String, Bool, true, false, not, ◌&&◌, List, [], ◌∷◌, leb, if◌then◌else◌, concat, join,
  strip, map,
}
use agent_orchestration_syst.Tools.Files.{FilePath}
use agent_orchestration_syst.Tools.Builtin.{
  ◌>>=◌, Raises, ok, raise, permission_error, Tool, fail, Workspace, sandbox_dir,
}

-- `text.lower().startswith(prefix)` for a prefix of small letters: no character that is not ASCII
-- becomes one of those of "select".
lower : ℕ → ℕ
lower n = if leb b'A' n && leb n b'Z' then n + 32 else n

unfoldable pub starts_lower : (prefix text : String) → Bool
unfolding lower
starts_lower String.[] text = true
starts_lower (String.◌∷◌ p prefix) String.[] = false
starts_lower (String.◌∷◌ p prefix) (String.◌∷◌ c text) =
    (leb (code p) (lower (code c)) && leb (lower (code c)) (code p)) && starts_lower prefix text

-- What the database answers: the columns and the rows, each value as its text.
pub record Rows : Type 0 where
  pub columns : List String
  pub rows : List (List String)

abbrev pub Sqlite : Type 0
Sqlite = (db_path : FilePath) → (sql : String) → Raises Rows

-- The answer of `db_query` from the rows.
unfoldable pub render : Rows → String
render answer = elim answer.rows [
  | [] ↦ "No rows returned."
  | (row ∷ rows) ↦
      concat (join " | " answer.columns ∷ "\n" ∷ join "\n" (map (join " | ") (row ∷ rows)) ∷ [])
]

unfoldable pub select : Sqlite → (db_path : FilePath) → (sql : String) → Tool String
unfolding render
select sqlite db_path sql fs = elim (sqlite db_path sql) [
  | raise e ↦ (raise e, fs)
  | ok answer ↦ (ok (render answer), fs)
]

-- `db_query`. The database is not among the texts of the file system.
unfoldable pub db_query : Sqlite → Workspace → (sql : String) → Tool String
unfolding starts_lower sandbox_dir select
db_query sqlite w sql =
    if not (starts_lower "select" (strip sql))
    then fail (permission_error "db_query only allows SELECT statements.")
    else do sandbox ← sandbox_dir w; select sqlite ("app.db" ∷ sandbox) sql

-- ===== src/Tools/Builtin/Process.antt =====
-- tools/builtin.py: `code_execution`. The process that runs the script is a parameter, which may
-- change the files as it likes.
use agent_orchestration_syst.Common.{
  ℕ, String, Bool, true, false, List, [], ◌∷◌, ◌==◌, if◌then◌else◌, concat, strip, some, none,
}
use agent_orchestration_syst.Tools.Files.{
  FilePath, FileSystem, Node, file, directory, node_at, same_path,
}
use agent_orchestration_syst.Tools.Builtin.{
  ◌>>=◌, ◌>>◌, ok, raise, os_error, runtime_error, timeout_error, Exception, Tool, pure, fail,
  Workspace, sandbox_dir, write_text,
}

-- How `subprocess.run` ends: with a return code that is 0 or not, by the timeout, or with another
-- exception, such as one of an interpreter that cannot be started or an output that cannot be read.
pub data Finished : Type 0 where
  exited : (is_zero : Bool) → (stdout stderr : String) → Finished
  timed_out : Finished
  failed : Exception → Finished

-- A run of a script changes the file system as it likes.
abbrev pub Subprocess : Type 0
Subprocess = (timeout_seconds : ℕ) → (script : FilePath) → FileSystem → Finished × FileSystem

unfoldable pub erase : FilePath → List (FilePath × Node) → List (FilePath × Node)
erase p [] = []
erase p ((q, n) ∷ rest) =
    let others = erase p rest in if same_path q p then others else (q, n) ∷ others

-- `Path(script_path).unlink(missing_ok=True)`
unfoldable pub unlink : FilePath → Tool (Unit {0})
unfolding erase
unlink path fs = elim (node_at path fs.nodes) [
  | some directory ↦ (raise os_error, fs)
  | some (file _) ↦ (ok tt, record fs { nodes = erase path fs.nodes })
  | none ↦ (ok tt, fs)
]

-- What `code_execution` does once the script is deleted: it goes on with the exception, or reads the
-- result.
unfoldable pub report : (number : ℕ → String) → (timeout_seconds : ℕ) → Finished → Tool String
report number timeout_seconds timed_out = fail (
    timeout_error
      (concat ("Code execution exceeded " ∷ number timeout_seconds ∷ "s timeout." ∷ [])))
report number timeout_seconds (failed e) = fail e
report number timeout_seconds (exited true stdout stderr) = pure (strip stdout)
report number timeout_seconds (exited false stdout stderr) =
    let text = strip stderr in
    fail (runtime_error (if text == "" then "Code execution failed with no stderr." else text))

-- The run of the script. What it raises is kept until the `finally` is done.
unfoldable pub run_process :
    Subprocess → (timeout_seconds : ℕ) → (script : FilePath) → Tool Finished
run_process subprocess timeout_seconds script fs =
    let ended = subprocess timeout_seconds script fs in (ok ended.0, ended.1)

-- The `finally`, and what comes after it.
unfoldable pub clean_up :
    (number : ℕ → String) → (timeout_seconds : ℕ) → (script : FilePath) → Finished → Tool String
unfolding unlink report
clean_up number timeout_seconds script finished =
    unlink script >> report number timeout_seconds finished

unfoldable pub run_script :
    (number : ℕ → String)
    → Subprocess
    → (timeout_seconds : ℕ) → (code : String) → (script : FilePath) → Tool String
unfolding write_text run_process clean_up
run_script number subprocess timeout_seconds code script = do
  write_text script code
  finished ← run_process subprocess timeout_seconds script
  clean_up number timeout_seconds script finished

-- `code_execution`, given the name that `tempfile` chooses.
unfoldable pub code_execution :
    (number : ℕ → String) → Subprocess → Workspace → (script_name code : String) → Tool String
unfolding sandbox_dir run_script
code_execution number subprocess w script_name code = do
  sandbox ← sandbox_dir w
  run_script number subprocess w.settings.code_execution_timeout_seconds code
      (script_name ∷ sandbox)

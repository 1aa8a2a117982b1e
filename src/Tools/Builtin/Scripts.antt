-- ===== src/Tools/Builtin/Scripts.antt =====
-- tools/builtin.py: `code_execution` cleans up after itself.
use agent_orchestration_syst.Common.{
  ℕ, String, true, false, none, List, [], ◌∷◌, ◌≢◌, ◌≡◌, refl, ap, arith, inl, inr, subst,
}
use agent_orchestration_syst.Tools.Files.{FilePath, FileSystem, find, Node, node_at}
use agent_orchestration_syst.Tools.Builtin.{
  Exception, ok, raise, os_error, Tool, ◌>>=◌, Workspace, make_directory, sandbox_of, sandbox_dir,
  write_text,
}
use agent_orchestration_syst.Tools.Builtin.Process.{
  erase, unlink, report, Finished, exited, failed, timed_out, Subprocess, run_process, clean_up,
  run_script, code_execution,
}
use agent_orchestration_syst.Tools.Builtin.Sandbox.{Raises-cases}
use agent_orchestration_syst.Tools.Builtin.RoundTrip.{sandbox_dir-made}

-- Nothing stands at a path once the computation has ended without an `OSError`.
abbrev pub IsCleared : {A : Type 0} → FilePath → FileSystem → Tool A → Type 0
IsCleared p fs m = (m fs).0 ≢ raise os_error → node_at p (m fs).1.nodes ≡ none

abbrev RaisesOsError : {A : Type 0} → FileSystem → Tool A → Type 0
RaisesOsError fs m = (e : Exception) → (m fs).0 ≡ raise e → e ≡ os_error

>>=-IsCleared :
    {A B : Type 0} (p : FilePath) (fs : FileSystem) (m : Tool A) (f : A → Tool B)
    → RaisesOsError fs m
    → ((a : A) → (m fs).0 ≡ ok a → IsCleared p (m fs).1 (f a))
    → IsCleared p fs (m >>= f)
>>=-IsCleared p fs m f h k = elim (Raises-cases (m fs).0) [
  | inl (a, e) ↦ rw (e, ◌>>=◌) (k a e)
  | inr (x, e) ↦ rw (e, ◌>>=◌) (λ n. absurd (n (ap raise (h x e))))
]

find-erase : (p : FilePath) (nodes : List (FilePath × Node)) → find p (erase p nodes) ≡ none
unfolding find erase
find-erase p [] = refl
find-erase p ((q, n) ∷ nodes) = ground (arith, find-erase p nodes)

unlink-gone :
    (name : String) (p : FilePath) (fs : FileSystem) (done : Unit {0})
    → (unlink (name ∷ p) fs).0 ≡ ok done
    → node_at (name ∷ p) (unlink (name ∷ p) fs).1.nodes ≡ none
unfolding unlink node_at
unlink-gone name p fs done h = ground (arith, find-erase (name ∷ p) fs.nodes)

report-IsCleared :
    (number : ℕ → String) (timeout_seconds : ℕ) (finished : Finished) (p : FilePath)
    (fs : FileSystem)
    → node_at p fs.nodes ≡ none
    → IsCleared p fs (report number timeout_seconds finished)
unfolding report
report-IsCleared number timeout_seconds timed_out p fs h = λ _. h
report-IsCleared number timeout_seconds (failed e) p fs h = λ _. h
report-IsCleared number timeout_seconds (exited true stdout stderr) p fs h = λ _. h
report-IsCleared number timeout_seconds (exited false stdout stderr) p fs h = λ _. h

unlink-RaisesOsError : (script : FilePath) (fs : FileSystem) → RaisesOsError fs (unlink script)
unfolding unlink
unlink-RaisesOsError script fs e h = ground arith

sandbox_dir-RaisesOsError : (w : Workspace) (fs : FileSystem) → RaisesOsError fs (sandbox_dir w)
unfolding sandbox_dir make_directory
sandbox_dir-RaisesOsError w fs e h = ground arith

run_script-IsCleared :
    (number : ℕ → String) (subprocess : Subprocess) (timeout_seconds : ℕ) (code name : String)
    (p : FilePath) (fs : FileSystem)
    → IsCleared (name ∷ p) fs (run_script number subprocess timeout_seconds code (name ∷ p))
unfolding run_script write_text run_process clean_up
run_script-IsCleared number subprocess timeout_seconds code name p fs =
    let script = name ∷ p in
    let finish = clean_up number timeout_seconds script in
    >>=-IsCleared script fs (write_text script code)
      (λ _. run_process subprocess timeout_seconds script >>= finish) (λ e h. ground arith)
      λ a e.
        let begun = (write_text script code fs).1 in
        >>=-IsCleared script begun (run_process subprocess timeout_seconds script) finish
          (λ x h. ground arith)
          λ finished h.
            let ended = (run_process subprocess timeout_seconds script begun).1 in
            >>=-IsCleared script ended (unlink script) (λ _. report number timeout_seconds finished)
              (unlink-RaisesOsError script ended)
              λ b d.
                report-IsCleared number timeout_seconds finished script (unlink script ended).1
                  (unlink-gone name p ended b d)

-- However the process ends and whatever it has done to the files, the script is gone after
-- `code_execution`, unless an `OSError` is raised.
pub code_execution-IsCleared :
    (number : ℕ → String) (subprocess : Subprocess) (w : Workspace) (script_name code : String)
    (fs : FileSystem)
    → (code_execution number subprocess w script_name code fs).0 ≢ raise os_error
    → node_at
        (script_name ∷ sandbox_of w fs)
        (code_execution number subprocess w script_name code fs).1.nodes
      ≡ none
unfolding code_execution
code_execution-IsCleared number subprocess w script_name code fs =
    let limit = w.settings.code_execution_timeout_seconds in
    >>=-IsCleared (script_name ∷ sandbox_of w fs) fs (sandbox_dir w)
      (λ sandbox. run_script number subprocess limit code (script_name ∷ sandbox))
      (sandbox_dir-RaisesOsError w fs)
      λ sandbox e.
        let made = (sandbox_dir w fs).1 in
        subst
          (λ (s : FilePath).
            IsCleared (script_name ∷ s) made
              (run_script number subprocess limit code (script_name ∷ sandbox)))
          (sandbox_dir-made w fs sandbox e).0
          (run_script-IsCleared number subprocess limit code script_name sandbox made)

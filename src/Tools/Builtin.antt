-- ===== src/Tools/Builtin.antt =====
-- tools/builtin.py: the tools on files, processes, databases and the network. A tool takes the file
-- system and returns it, also where it raises. Parameters are what the operating system, sqlite
-- and the network answer.
pub mod Database
pub mod Network
pub mod Process
pub mod Sandbox
pub mod RoundTrip
pub mod Scripts
pub mod Registered
use agent_orchestration_syst.Common.{
  ℕ, suc, String, Bool, false, not, ◌&&◌, ◌||◌, none, some, [], ◌∷◌, if◌then◌else◌, concat,
}
use agent_orchestration_syst.Config.{Settings}
use agent_orchestration_syst.Tools.Files.{
  directory, file, FilePath, FileSystem, has_path, mkdir, node_at, parent, parents, put,
  read_newlines, resolve, same_path,
}

-- The exceptions that the tools raise. The text of an `OSError` and of what a library raises is
-- left out.
pub data Exception : Type 0 where
  permission_error file_not_found value_error runtime_error timeout_error : String → Exception
  os_error library_error : Exception

pub data Raises {ℓ} (A : Type ℓ) : Type ℓ where
  ok : A → Raises A
  raise : Exception → Raises A

-- A computation on the file system.
abbrev pub Tool : Type 0 → Type 0
Tool A = FileSystem → Raises A × FileSystem

infixl 5 ◌>>=◌ ◌>>◌
abbrev pub ◌>>=◌ : {A B : Type 0} → Tool A → (A → Tool B) → Tool B
◌>>=◌ m f fs = elim (m fs).0 [ ok a ↦ f a (m fs).1 | raise e ↦ (raise e, (m fs).1) ]

abbrev pub ◌>>◌ : {B : Type 0} → Tool (Unit {0}) → Tool B → Tool B
m >> k = m >>= λ _. k

abbrev pub pure : {A : Type 0} → A → Tool A
pure a fs = (ok a, fs)

abbrev pub fail : {A : Type 0} → Exception → Tool A
fail e fs = (raise e, fs)

-- Where the process runs, and its settings.
pub record Workspace : Type 0 where
  pub cwd : FilePath
  pub settings : Settings

-- `path.mkdir(parents=True, exist_ok=True)`
unfoldable pub make_directory : FilePath → Tool (Unit {0})
make_directory path fs = elim (mkdir path fs.nodes) [
  | none ↦ (raise os_error, fs)
  | some nodes ↦ (ok tt, record fs { nodes = nodes })
]

-- The path of the sandbox.
abbrev pub sandbox_of : Workspace → FileSystem → FilePath
sandbox_of w fs = resolve fs.links w.cwd w.settings.sandbox_workdir

-- `_sandbox_dir`
unfoldable pub sandbox_dir : Workspace → Tool FilePath
unfolding make_directory
sandbox_dir w fs = let path = sandbox_of w fs in ((make_directory path >>= λ _. pure path) fs)

-- The test of `_resolve_in_sandbox`.
abbrev pub is_within : (sandbox candidate : FilePath) → Bool
is_within sandbox candidate = has_path sandbox (parents candidate) || same_path candidate sandbox

unfoldable pub check_within : (sandbox : FilePath) → (relative_path : String) → Tool FilePath
check_within sandbox relative_path fs =
    let candidate = resolve fs.links sandbox relative_path in
    if not (has_path sandbox (parents candidate)) && not (same_path candidate sandbox)
    then (
      raise (
          permission_error
            (concat ("Path '" ∷ relative_path ∷ "' escapes the sandbox directory." ∷ []))),
      fs,
    )
    else (ok candidate, fs)

-- `_resolve_in_sandbox`
unfoldable pub resolve_in_sandbox : Workspace → (relative_path : String) → Tool FilePath
unfolding sandbox_dir check_within
resolve_in_sandbox w relative_path = do sandbox ← sandbox_dir w; check_within sandbox relative_path

-- `target.read_text()` of a file, and the exception where there is none.
unfoldable pub read_text : (path : String) → (target : FilePath) → Tool String
read_text path target fs = elim (node_at target fs.nodes) [
  | some (file text) ↦ (ok (read_newlines false text), fs)
  | some directory ↦ (raise (file_not_found (missing path)), fs)
  | none ↦ (raise (file_not_found (missing path)), fs)
]
  where
    missing : String → String
    missing path = concat ("'" ∷ path ∷ "' does not exist in the sandbox." ∷ [])

-- `file_read`
unfoldable pub file_read : Workspace → (path : String) → Tool String
unfolding resolve_in_sandbox read_text
file_read w path = do target ← resolve_in_sandbox w path; read_text path target

-- `target.write_text(content)`, of a file whose directory is there.
unfoldable pub write_text : (target : FilePath) → (content : String) → Tool (Unit {0})
write_text target content fs = elim (node_at target fs.nodes) [
  | some directory ↦ (raise os_error, fs)
  | some (file _) ↦ (ok tt, record fs { nodes = put target (file content) fs.nodes })
  | none ↦ (ok tt, record fs { nodes = put target (file content) fs.nodes })
]

-- `len(content)`
unfoldable pub text_length : String → ℕ
text_length String.[] = 0
text_length (String.◌∷◌ _ s) = suc (text_length s)

-- `file_write` once the target is found.
unfoldable pub write_at : (target : FilePath) → (content answer : String) → Tool String
unfolding make_directory write_text
write_at target content answer = do
  make_directory (parent target)
  write_text target content
  pure answer

-- The answer of `file_write`. `number` is Python's `str` of a number.
unfoldable pub written : (number : ℕ → String) → (path content : String) → String
unfolding text_length
written number path content =
    concat ("Wrote " ∷ number (text_length content) ∷ " bytes to '" ∷ path ∷ "'." ∷ [])

-- `file_write`
unfoldable pub file_write :
    (number : ℕ → String) → Workspace → (path content : String) → Tool String
unfolding resolve_in_sandbox write_at written
file_write number w path content = do
  target ← resolve_in_sandbox w path
  write_at target content (written number path content)

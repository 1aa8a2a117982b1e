-- ===== src/Examples/Builtin.antt =====
-- The theorems on tools/builtin.py, applied to a sandbox with a link that leads out of it.
use agent_orchestration_syst.Common.{
  ℕ, ◌≡◌, refl, ap, Bool-cases, inl, inr, String, true, false, Option, none, some, [], ◌∷◌, ◌++◌,
  ◌==◌, arith, if◌then◌else◌, strip, concat,
}
use agent_orchestration_syst.Common.Dict.{lookup}
use agent_orchestration_syst.Config.{default_settings}
use agent_orchestration_syst.Schemas.{Json, SpecialistType}
use agent_orchestration_syst.Tools.Registry.{ToolRegistry, empty_registry, list_tools_for, returned}
use agent_orchestration_syst.Tools.Registry
use agent_orchestration_syst.Tools.Files.{
  directory, file, FilePath, FileSystem, find, has_path, mkdir, node_at, parent, parents, put,
  read_newlines, resolve, same_path,
}
use agent_orchestration_syst.Tools.Files.Laws.{same_path-eq}
use agent_orchestration_syst.Tools.Builtin.{
  check_within, Exception, file_read, file_write, is_within, make_directory, ok, raise, Raises,
  resolve_in_sandbox, sandbox_dir, sandbox_of, Workspace, write_at, write_text, written,
}
use agent_orchestration_syst.Tools.Builtin.Process.{
  code_execution, erase, exited, report, run_process, run_script, clean_up, unlink, Subprocess,
}
use agent_orchestration_syst.Tools.Builtin.Sandbox.{file_tools-confined, text_at}
use agent_orchestration_syst.Tools.Builtin.RoundTrip.{file_read-file_write}
use agent_orchestration_syst.Tools.Builtin.Scripts.{code_execution-IsCleared}
use agent_orchestration_syst.Tools.Builtin.Network.{api_call, ipv4, NameService, Web}
use agent_orchestration_syst.Tools.Builtin.Network.Private.{api_call-refuses, link_local}
use agent_orchestration_syst.Tools.Builtin.Registered.{BuiltinTools, register_builtin_tools}
use agent_orchestration_syst.Tools.Builtin.Registered.Visible.{
  names, register_builtin_tools-visible, tools_of,
}

abbrev number : ℕ → String
number _ = "4"

abbrev workspace : Workspace
workspace = record { cwd = "app" ∷ []; settings = default_settings }

abbrev passwd : FilePath
passwd = "passwd" ∷ "etc" ∷ []

-- /etc/passwd and a note in the sandbox, where `out` leads to /etc.
abbrev system : String → FileSystem
system text = record {
  nodes =
      (passwd, file text)
      ∷ ("sandbox" ∷ "app" ∷ [], directory)
      ∷ ("note" ∷ "sandbox" ∷ "app" ∷ [], file "hi")
      ∷ [];
  links = ("out" ∷ "sandbox" ∷ "app" ∷ [], "etc" ∷ []) ∷ [];
}

-- The write through the link was refused.
written_outside :
    (file_write number workspace "out/passwd" "x" (system "root")).0
    ≡ raise (Exception.permission_error "Path 'out/passwd' escapes the sandbox directory.")
unfolding file_write resolve_in_sandbox sandbox_dir make_directory check_within resolve has_path
    parents mkdir node_at find concat
written_outside = refl

same_inside :
    (p : FilePath)
    → is_within (sandbox_of workspace (system "root")) p ≡ true
    → text_at p (system "root") ≡ text_at p (system "toor")
unfolding resolve has_path parents node_at find
same_inside [] h = refl
same_inside (name ∷ p) h = elim (Bool-cases (same_path passwd (name ∷ p))) [
  | inl e ↦
      let outside =
        ap (is_within (sandbox_of workspace (system "root"))) (same_path-eq passwd (name ∷ p) e) in
      absurd (ground (arith, outside))
  | inr e ↦ ground arith
]

file_tools-confined_example :
    (text_at passwd (file_write number workspace "out/passwd" "x" (system "root")).1
      ≡ text_at passwd (system "root"))
    × ((file_read workspace "out/passwd" (system "root")).0
        ≡ (file_read workspace "out/passwd" (system "toor")).0)
unfolding sandbox_dir make_directory mkdir node_at find resolve has_path parents
file_tools-confined_example =
    file_tools-confined number workspace "out/passwd" "x" (system "root") (system "toor") refl refl
      same_inside passwd refl

-- The file system after the write of a text with a carriage return.
abbrev rewritten : FileSystem
rewritten = record (system "root") {
  nodes =
      (passwd, file "root")
      ∷ ("sandbox" ∷ "app" ∷ [], directory)
      ∷ ("note" ∷ "sandbox" ∷ "app" ∷ [], file "a\r\nb")
      ∷ [];
}

write_note :
    file_write number workspace "note" "a\r\nb" (system "root")
    ≡ (ok "Wrote 4 bytes to 'note'.", rewritten)
unfolding file_write resolve_in_sandbox sandbox_dir make_directory check_within resolve has_path
    parents mkdir node_at find concat write_at write_text put parent written
write_note = refl

file_read-file_write_example :
    file_read workspace "note" rewritten ≡ (ok (read_newlines false "a\r\nb"), rewritten)
file_read-file_write_example =
    file_read-file_write number workspace "note" "a\r\nb" (system "root") rewritten
      "Wrote 4 bytes to 'note'." write_note

-- A script that empties the disk but for the sandbox.
abbrev wipe : Subprocess
wipe timeout script fs = (
  exited true "done\n" "",
  record fs { nodes = ("sandbox" ∷ "app" ∷ [], directory) ∷ (script, file "import os") ∷ [] },
)

wiped : (code_execution number wipe workspace "tmp1.py" "import os" (system "root")).0 ≡ ok "done"
unfolding code_execution run_script clean_up run_process report unlink erase sandbox_dir
    make_directory resolve mkdir node_at find write_text put strip
wiped = refl

code_execution-IsCleared_example :
    node_at
      ("tmp1.py" ∷ sandbox_of workspace (system "root"))
      (code_execution number wipe workspace "tmp1.py" "import os" (system "root")).1.nodes
    ≡ none
code_execution-IsCleared_example =
    code_execution-IsCleared number wipe workspace "tmp1.py" "import os" (system "root")
      (λ e. ground (arith, wiped))

-- A name that stands for the cloud's metadata service.
abbrev lookup_host : NameService
lookup_host host = if host == "evil.example" then some (ipv4 169 254 169 254) else none

abbrev web : String → Web
web host = record {
  number = number;
  upper = λ s. s;
  urlparse = λ url. some (record { scheme = "http"; hostname = some host });
  gethostbyname = lookup_host;
  request = λ method url body. ok (200, "secret");
}

api_call-refuses_example :
    (e : Exception) × ((request : (method url : String) → Option Json → Raises (ℕ × String))
      → api_call
          (record (web "evil.example") { request = request })
          "http://evil.example/"
          "GET"
          none
        ≡ raise e)
api_call-refuses_example =
    api_call-refuses (web "evil.example") "http://evil.example/" "GET" none
      (record { scheme = "http"; hostname = some "evil.example" }) (ipv4 169 254 169 254) refl refl
      (link_local (omega arith) (omega arith))

abbrev builtin_tools : BuiltinTools
builtin_tools = record {
  web_search = λ _ _. returned "";
  file_read = λ _ _. returned "";
  file_write = λ _ _. returned "";
  code_execution = λ _ _. returned "";
  db_query = λ _ _. returned "";
  api_call = λ _ _. returned "";
}

register_builtin_tools-visible_example :
    (r' : ToolRegistry) × (register_builtin_tools builtin_tools empty_registry ≡ Registry.ok r')
    × (names (list_tools_for r' SpecialistType.writing)
        ≡ names (list_tools_for empty_registry SpecialistType.writing)
          ++ tools_of SpecialistType.writing)
unfolding lookup
register_builtin_tools-visible_example =
    register_builtin_tools-visible builtin_tools empty_registry SpecialistType.writing
      (refl, (refl, (refl, (refl, (refl, (refl, tt))))))

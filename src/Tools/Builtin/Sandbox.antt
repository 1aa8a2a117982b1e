-- ===== src/Tools/Builtin/Sandbox.antt =====
-- tools/builtin.py: the file tools stay inside the sandbox.
use agent_orchestration_syst.Common.{
  ℕ, String, true, false, Option, none, some, List, [], ◌∷◌, ◌≡◌, refl, ap, sym, ◌∙◌, arith,
  Bool-cases, Option-cases, inl, inr, AtSome-of, ◌⊎◌,
}
use agent_orchestration_syst.Tools.Files.{
  directory, file, FilePath, FileSystem, mkdir, Node, node_at, parent, resolve, same_path,
}
use agent_orchestration_syst.Tools.Files.Laws.{mkdir-IsMade, IsMade, node_at-put, same_path-eq}
use agent_orchestration_syst.Tools.Builtin.{
  Exception, Raises, ok, raise, Tool, ◌>>=◌, ◌>>◌, pure, Workspace, make_directory, sandbox_of,
  sandbox_dir, is_within, check_within, resolve_in_sandbox, read_text, file_read, write_text,
  file_write, write_at, written,
}

-- The text of the file at a path.
abbrev pub text_of : Option Node → Option String
text_of none = none
text_of (some directory) = none
text_of (some (file text)) = some text

abbrev pub text_at : FilePath → FileSystem → Option String
text_at p fs = text_of (node_at p fs.nodes)

-- A computation neither changes the links nor the text of the file at a path.
abbrev pub Keeps : {A : Type 0} → FilePath → FileSystem → Tool A → Type 0
Keeps p fs m = (text_at p (m fs).1 ≡ text_at p fs) × ((m fs).1.links ≡ fs.links)

pub Raises-cases :
    {A : Type 0} (r : Raises A) → ((a : A) × (r ≡ ok a)) ⊎ ((e : Exception) × (r ≡ raise e))
Raises-cases (ok a) = inl (a, refl)
Raises-cases (raise e) = inr (e, refl)

pub >>=-Keeps :
    {A B : Type 0} (p : FilePath) (fs : FileSystem) (m : Tool A) (f : A → Tool B)
    → Keeps p fs m
    → ((a : A) → (m fs).0 ≡ ok a → Keeps p (m fs).1 (f a))
    → Keeps p fs (m >>= f)
>>=-Keeps p fs m f h k = elim (Raises-cases (m fs).0) [
  | inl (a, e) ↦ rw (e, ◌>>=◌) ((k a e).0 ∙ h.0, (k a e).1 ∙ h.1)
  | inr (x, e) ↦ rw (e, ◌>>=◌) h
]

pub make_directory-Keeps : (p path : FilePath) (fs : FileSystem) → Keeps p fs (make_directory path)
unfolding make_directory
make_directory-Keeps p path fs = elim (Option-cases (mkdir path fs.nodes)) [
  | inl e ↦ rw (e, make_directory) (refl, refl)
  | inr (made, e) ↦
      let h =
        AtSome-of (IsMade path fs.nodes) (mkdir path fs.nodes) (mkdir-IsMade path fs.nodes) e in
      rw (e, make_directory) (same_text made h, refl)
]
  where
    same_text :
        (made : List (FilePath × Node))
        → IsMade path fs.nodes made
        → text_of (node_at p made) ≡ text_of (node_at p fs.nodes)
    same_text made h = elim (Option-cases (node_at p fs.nodes)) [
      | inr (n, e) ↦ ap text_of (h.1 p n e ∙ sym e)
      | inl e ↦ elim (Option-cases (node_at p made)) [
        | inl d ↦ ap text_of (d ∙ sym e)
        | inr (directory, d) ↦ ap text_of d ∙ sym (ap text_of e)
        | inr (file text, d) ↦ ap text_of (d ∙ sym (h.2 p text d))
      ]
    ]

pub sandbox_dir-Keeps :
    (p : FilePath) (w : Workspace) (fs : FileSystem) → Keeps p fs (sandbox_dir w)
unfolding sandbox_dir
sandbox_dir-Keeps p w fs =
    >>=-Keeps p fs (make_directory (sandbox_of w fs)) (λ _. pure (sandbox_of w fs))
      (make_directory-Keeps p (sandbox_of w fs) fs) (λ a e. (refl, refl))

pub check_within-Keeps :
    (p sandbox : FilePath) (path : String) (fs : FileSystem)
    → Keeps p fs (check_within sandbox path)
unfolding check_within
check_within-Keeps p sandbox path fs = ground arith

pub resolve_in_sandbox-Keeps :
    (p : FilePath) (w : Workspace) (path : String) (fs : FileSystem)
    → Keeps p fs (resolve_in_sandbox w path)
unfolding resolve_in_sandbox
resolve_in_sandbox-Keeps p w path fs =
    >>=-Keeps p fs (sandbox_dir w) (λ sandbox. check_within sandbox path) (sandbox_dir-Keeps p w fs)
      (λ a e. check_within-Keeps p a path (sandbox_dir w fs).1)

-- The path that is found lies in the sandbox.
pub resolve_in_sandbox-is_within :
    (w : Workspace) (path : String) (fs : FileSystem) (target : FilePath)
    → (resolve_in_sandbox w path fs).0 ≡ ok target
    → is_within (sandbox_of w fs) target ≡ true
unfolding resolve_in_sandbox sandbox_dir make_directory check_within
resolve_in_sandbox-is_within w path fs target h = ground arith

pub write_text-Keeps :
    (p target : FilePath) (content : String) (fs : FileSystem)
    → same_path target p ≡ false
    → Keeps p fs (write_text target content)
unfolding write_text node_at
write_text-Keeps p [] content fs h = (refl, refl)
write_text-Keeps p (name ∷ target) content fs h =
    ground (arith, node_at-put name target p (file content) fs.nodes)

within-apart :
    (sandbox target p : FilePath)
    → is_within sandbox target ≡ true
    → is_within sandbox p ≡ false
    → same_path target p ≡ false
within-apart sandbox target p h k = elim (Bool-cases (same_path target p)) [
  | inr e ↦ e
  | inl e ↦ let moved = ap (is_within sandbox) (same_path-eq target p e) in ground (arith, moved)
]

write_at-Keeps :
    (p target : FilePath) (content answer : String) (fs : FileSystem)
    → same_path target p ≡ false
    → Keeps p fs (write_at target content answer)
unfolding write_at
write_at-Keeps p target content answer fs h =
    let write_then_answer : Tool String = write_text target content >> pure answer in
    >>=-Keeps p fs (make_directory (parent target)) (λ _. write_then_answer)
      (make_directory-Keeps p (parent target) fs)
      λ a e.
        let made = (make_directory (parent target) fs).1 in
        >>=-Keeps p made (write_text target content) (λ _. pure answer)
          (write_text-Keeps p target content made h) (λ b d. (refl, refl))

file_write-Keeps :
    (number : ℕ → String) (w : Workspace) (path content : String) (fs : FileSystem) (p : FilePath)
    → is_within (sandbox_of w fs) p ≡ false
    → Keeps p fs (file_write number w path content)
unfolding file_write
file_write-Keeps number w path content fs p h =
    let answer = written number path content in
    >>=-Keeps p fs (resolve_in_sandbox w path) (λ target. write_at target content answer)
      (resolve_in_sandbox-Keeps p w path fs)
      λ target e. write_at-Keeps p target content answer (resolve_in_sandbox w path fs).1 (
        within-apart (sandbox_of w fs) target p (resolve_in_sandbox-is_within w path fs target e) h)

>>=-same :
    {A B : Type 0} (m : Tool A) (f : A → Tool B) (fs other : FileSystem)
    → (m fs).0 ≡ (m other).0
    → ((a : A) → (m fs).0 ≡ ok a → (f a (m fs).1).0 ≡ (f a (m other).1).0)
    → ((m >>= f) fs).0 ≡ ((m >>= f) other).0
>>=-same m f fs other h k = elim (Raises-cases (m fs).0) [
  | inl (a, e) ↦ rw (e, sym h ∙ e, ◌>>=◌) (k a e)
  | inr (x, e) ↦ rw (e, sym h ∙ e, ◌>>=◌)
]

check_within-same :
    (sandbox : FilePath) (path : String) (fs other : FileSystem)
    → fs.links ≡ other.links
    → (check_within sandbox path fs).0 ≡ (check_within sandbox path other).0
unfolding check_within
check_within-same sandbox path fs other h =
    ground (arith, ap (λ links. resolve links sandbox path) h)

resolve_in_sandbox-same :
    (w : Workspace) (path : String) (fs other : FileSystem)
    → fs.links ≡ other.links
    → (sandbox_dir w fs).0 ≡ (sandbox_dir w other).0
    → (resolve_in_sandbox w path fs).0 ≡ (resolve_in_sandbox w path other).0
unfolding resolve_in_sandbox
resolve_in_sandbox-same w path fs other h k =
    >>=-same (sandbox_dir w) (λ sandbox. check_within sandbox path) fs other k
      λ sandbox e.
        check_within-same sandbox path (sandbox_dir w fs).1 (sandbox_dir w other).1
          ((sandbox_dir-Keeps [] w fs).1 ∙ h ∙ sym (sandbox_dir-Keeps [] w other).1)

read_text-same :
    (path : String) (target : FilePath) (fs other : FileSystem)
    → text_at target fs ≡ text_at target other
    → (read_text path target fs).0 ≡ (read_text path target other).0
unfolding read_text
read_text-same path target fs other h = ground arith

file_read-same :
    (w : Workspace) (path : String) (fs other : FileSystem)
    → fs.links ≡ other.links
    → (sandbox_dir w fs).0 ≡ (sandbox_dir w other).0
    → ((p : FilePath) → is_within (sandbox_of w fs) p ≡ true → text_at p fs ≡ text_at p other)
    → (file_read w path fs).0 ≡ (file_read w path other).0
unfolding file_read
file_read-same w path fs other h k same =
    >>=-same (resolve_in_sandbox w path) (read_text path) fs other
      (resolve_in_sandbox-same w path fs other h k)
      λ target e.
        read_text-same path target (resolve_in_sandbox w path fs).1
          (resolve_in_sandbox w path other).1
          ((resolve_in_sandbox-Keeps target w path fs).0
            ∙ same target (resolve_in_sandbox-is_within w path fs target e)
            ∙ sym (resolve_in_sandbox-Keeps target w path other).0)

-- The file tools stay in the sandbox, whatever path they are given, and also where they raise.
-- `file_write` leaves the text of every file outside the sandbox as it was. `file_read` finds
-- nothing out about what is outside: it answers the same in another file system with the same links
-- and the same files in the sandbox, where the sandbox is there in both or can be made in both.
pub file_tools-confined :
    (number : ℕ → String) (w : Workspace) (path content : String) (fs other : FileSystem)
    → fs.links ≡ other.links
    → (sandbox_dir w fs).0 ≡ (sandbox_dir w other).0
    → ((p : FilePath) → is_within (sandbox_of w fs) p ≡ true → text_at p fs ≡ text_at p other)
    → (outside : FilePath) → is_within (sandbox_of w fs) outside ≡ false
    → (text_at outside (file_write number w path content fs).1 ≡ text_at outside fs)
      × ((file_read w path fs).0 ≡ (file_read w path other).0)
file_tools-confined number w path content fs other h k same outside away = (
  (file_write-Keeps number w path content fs outside away).0,
  file_read-same w path fs other h k same,
)

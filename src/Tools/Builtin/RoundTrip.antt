-- ===== src/Tools/Builtin/RoundTrip.antt =====
-- tools/builtin.py: `file_read` after `file_write`.
use agent_orchestration_syst.Common.{
  subst, ℕ, String, Bool, true, false, ◌||◌, some, List, [], ◌∷◌, ◌≡◌, refl, ap, sym, ◌∙◌, arith,
  Option-cases, inl, inr, AtSome-of,
}
use agent_orchestration_syst.Tools.Files.{
  directory, file, FilePath, FileSystem, mkdir, Node, node_at, parent, read_newlines, resolve,
  same_path, is_code,
}
use agent_orchestration_syst.Tools.Files.Laws.{
  mkdir-IsMade, IsMade, node_at-put, same_path-eq, same_path_refl,
}
use agent_orchestration_syst.Tools.Builtin.{
  ok, raise, Tool, ◌>>=◌, ◌>>◌, pure, Workspace, make_directory, sandbox_of, sandbox_dir,
  check_within, resolve_in_sandbox, read_text, file_read, write_text, file_write, write_at, written,
}
use agent_orchestration_syst.Tools.Builtin.Sandbox.{
  Raises-cases, make_directory-Keeps, resolve_in_sandbox-Keeps, sandbox_dir-Keeps,
}

-- Inversion of a computation that succeeds.
>>=-ok :
    {A B : Type 0} (m : Tool A) (f : A → Tool B) (fs fs' : FileSystem) (b : B)
    → (m >>= f) fs ≡ (ok b, fs')
    → (a : A) × ((m fs).0 ≡ ok a) × (f a (m fs).1 ≡ (ok b, fs'))
>>=-ok m f fs fs' b h = elim (Raises-cases (m fs).0) [
  | inl (a, e) ↦ (a, e, rw (e, ◌>>=◌) at h)
  | inr (x, e) ↦ let stopped = rw (e, ◌>>=◌) at h in ground (arith, stopped)
]

>>=-run :
    {A B : Type 0} (m : Tool A) (f : A → Tool B) (fs after : FileSystem) (a : A)
    → m fs ≡ (ok a, after)
    → (m >>= f) fs ≡ f a after
>>=-run m f fs after a h = (ap (λ x. elim x.0 [ ok b ↦ f b x.1 | raise e ↦ (raise e, x.1) ]) h)

>>=-value :
    {A B : Type 0} (m : Tool A) (f : A → Tool B) (fs : FileSystem) (b : B)
    → ((m >>= f) fs).0 ≡ ok b
    → (a : A) × ((m fs).0 ≡ ok a)
      × ((f a (m fs).1).0 ≡ ok b)
      × (((m >>= f) fs).1 ≡ (f a (m fs).1).1)
>>=-value m f fs b h = elim (Raises-cases (m fs).0) [
  | inl (a, e) ↦ (a, e, rw (e, ◌>>=◌) at h, rw (e, ◌>>=◌))
  | inr (x, e) ↦ let stopped = rw (e, ◌>>=◌) at h in absurd (ground (arith, stopped))
]

-- What stands at a path, and which directories stay.
abbrev IsWritten : FilePath → String → FileSystem → FileSystem → Type 0
IsWritten target content fs fs' =
    (node_at target fs'.nodes ≡ some (file content))
    × ((p : FilePath) → node_at p fs.nodes ≡ some directory → node_at p fs'.nodes ≡ some directory)
    × (fs'.links ≡ fs.links)

root_is_directory : (nodes : List (FilePath × Node)) → node_at [] nodes ≡ some directory
unfolding node_at
root_is_directory nodes = refl

write_text-IsWritten :
    (target : FilePath) (content : String) (fs : FileSystem) (done : Unit {0})
    → (write_text target content fs).0 ≡ ok done
    → IsWritten target content fs (write_text target content fs).1
unfolding write_text
write_text-IsWritten [] content fs done h = absurd (ground (arith, root_is_directory fs.nodes))
write_text-IsWritten (name ∷ target) content fs done h = (
  ground (
    arith,
    node_at-put name target (name ∷ target) (file content) fs.nodes,
    same_path_refl (name ∷ target),
  ),
  λ p d.
      let moved = λ (e : same_path (name ∷ target) p ≡ true).
        ap (λ q. node_at q fs.nodes) (same_path-eq (name ∷ target) p e) in
      ground (arith, node_at-put name target p (file content) fs.nodes, moved),
  ground arith,
)

make_directory-stays :
    (path p : FilePath) (fs : FileSystem)
    → node_at p fs.nodes ≡ some directory
    → node_at p (make_directory path fs).1.nodes ≡ some directory
unfolding make_directory
make_directory-stays path p fs h = elim (Option-cases (mkdir path fs.nodes)) [
  | inl e ↦ rw (e, make_directory) h
  | inr (made, e) ↦
      let made_at =
        AtSome-of (IsMade path fs.nodes) (mkdir path fs.nodes) (mkdir-IsMade path fs.nodes) e in
      rw (e, make_directory) (made_at.1 p directory h)
]

write_at-IsWritten :
    (target : FilePath) (content answer : String) (fs fs' : FileSystem) (b : String)
    → write_at target content answer fs ≡ (ok b, fs')
    → IsWritten target content fs fs'
unfolding write_at
write_at-IsWritten target content answer fs fs' b h =
    let write_then_answer : Tool String = write_text target content >> pure answer in
    let (u, made, g) =
      >>=-ok (make_directory (parent target)) (λ _. write_then_answer) fs fs' b h in
    let fs1 = (make_directory (parent target) fs).1 in
    let (v, wrote, k) = >>=-ok (write_text target content) (λ _. pure answer) fs1 fs' b g in
    let same : (write_text target content fs1).1 ≡ fs' = ap (λ x. x.1) k in
    let there = write_text-IsWritten target content fs1 v wrote in
    (
      subst (λ x. node_at target x.nodes ≡ some (file content)) same there.0,
      λ p d.
          subst (λ x. node_at p x.nodes ≡ some directory) same
            (there.1 p (make_directory-stays (parent target) p fs d)),
      ap (λ x. x.links) (sym same) ∙ there.2 ∙ (make_directory-Keeps [] (parent target) fs).1,
    )

mkdir-there :
    (p : FilePath) (nodes : List (FilePath × Node))
    → node_at p nodes ≡ some directory
    → mkdir p nodes ≡ some nodes
unfolding mkdir
mkdir-there [] nodes h = refl
mkdir-there (name ∷ p) nodes h = rw (h, mkdir)

sandbox_dir-there :
    (w : Workspace) (fs : FileSystem)
    → node_at (sandbox_of w fs) fs.nodes ≡ some directory
    → sandbox_dir w fs ≡ (ok (sandbox_of w fs), fs)
unfolding sandbox_dir make_directory
sandbox_dir-there w fs h = ground (arith, mkdir-there (sandbox_of w fs) fs.nodes h)

-- Where the sandbox could be made, it is there afterwards.
pub sandbox_dir-made :
    (w : Workspace) (fs : FileSystem) (sandbox : FilePath)
    → (sandbox_dir w fs).0 ≡ ok sandbox
    → (sandbox ≡ sandbox_of w fs) × (node_at sandbox (sandbox_dir w fs).1.nodes ≡ some directory)
unfolding sandbox_dir make_directory
sandbox_dir-made w fs sandbox h = elim (Option-cases (mkdir (sandbox_of w fs) fs.nodes)) [
  | inl e ↦ absurd (ground arith)
  | inr (made, e) ↦
      let found =
        AtSome-of (IsMade (sandbox_of w fs) fs.nodes) (mkdir (sandbox_of w fs) fs.nodes)
          (mkdir-IsMade (sandbox_of w fs) fs.nodes) e in
      (ground arith, ground (arith, found.0))
]

check_within-stays :
    (sandbox target : FilePath) (path : String) (fs other : FileSystem)
    → (check_within sandbox path fs).0 ≡ ok target
    → other.links ≡ fs.links
    → check_within sandbox path other ≡ (ok target, other)
unfolding check_within
check_within-stays sandbox target path fs other h k =
    ground (arith, ap (λ l. resolve l sandbox path) k)

check_within-state :
    (sandbox : FilePath) (path : String) (fs : FileSystem) → (check_within sandbox path fs).1 ≡ fs
unfolding check_within
check_within-state sandbox path fs = ground arith

read_text-file :
    (path : String) (target : FilePath) (fs : FileSystem) (text : String)
    → node_at target fs.nodes ≡ some (file text)
    → read_text path target fs ≡ (ok (read_newlines false text), fs)
unfolding read_text
read_text-file path target fs text h = rw (h, read_text)

-- A target that was found is found again in a later file system with the sandbox and the links.
resolve_in_sandbox-again :
    (w : Workspace) (path : String) (fs other : FileSystem) (target : FilePath)
    → (resolve_in_sandbox w path fs).0 ≡ ok target
    → other.links ≡ fs.links
    → ((p : FilePath)
        → node_at p (resolve_in_sandbox w path fs).1.nodes ≡ some directory
        → node_at p other.nodes ≡ some directory)
    → resolve_in_sandbox w path other ≡ (ok target, other)
unfolding resolve_in_sandbox
resolve_in_sandbox-again w path fs other target h k stays =
    let (sandbox, e, g, state) = >>=-value (sandbox_dir w) (λ s. check_within s path) fs target h in
    let after = (sandbox_dir w fs).1 in
    let (same, made) = sandbox_dir-made w fs sandbox e in
    let moved : sandbox_of w other ≡ sandbox_of w fs =
      ap (λ l. resolve l w.cwd w.settings.sandbox_workdir) k in
    let there : node_at (sandbox_of w other) other.nodes ≡ some directory =
      subst (λ p. node_at p other.nodes ≡ some directory) (same ∙ sym moved)
        (stays sandbox (
          subst (λ (x : FileSystem). node_at sandbox x.nodes ≡ some directory)
            (sym (state ∙ check_within-state sandbox path after)) made)) in
    let made_again : sandbox_dir w other ≡ (ok sandbox, other) =
      sandbox_dir-there w other there ∙ ap (λ p. (ok p, other)) (moved ∙ sym same) in
    >>=-run (sandbox_dir w) (λ s. check_within s path) other other sandbox made_again
    ∙ check_within-stays sandbox target path after other g (k ∙ sym (sandbox_dir-Keeps [] w fs).1)

-- After a `file_write` that succeeds, `file_read` of the same path gives the text that was written,
-- with each carriage return, and the line feed after it, read as one line feed.
pub file_read-file_write :
    (number : ℕ → String) (w : Workspace) (path content : String) (fs fs' : FileSystem)
    (answer : String)
    → file_write number w path content fs ≡ (ok answer, fs')
    → file_read w path fs' ≡ (ok (read_newlines false content), fs')
unfolding file_write file_read
file_read-file_write number w path content fs fs' answer h =
    let message = written number path content in
    let (target, e, g) =
      >>=-ok (resolve_in_sandbox w path) (λ t. write_at t content message) fs fs' answer h in
    let found = (resolve_in_sandbox w path fs).1 in
    let there = write_at-IsWritten target content message found fs' answer g in
    let again =
      resolve_in_sandbox-again w path fs fs' target e
        (there.2 ∙ (resolve_in_sandbox-Keeps [] w path fs).1) there.1 in
    >>=-run (resolve_in_sandbox w path) (read_text path) fs' fs' target again
    ∙ read_text-file path target fs' content there.0

-- A text without carriage returns.
abbrev pub has_return : String → Bool
has_return String.[] = false
has_return (String.◌∷◌ c s) = is_code c 13 || has_return s

-- A text without carriage returns is read as it was written.
pub read_newlines-unchanged :
    (text : String) → has_return text ≡ false → read_newlines false text ≡ text
unfolding read_newlines
read_newlines-unchanged String.[] h = refl
read_newlines-unchanged (String.◌∷◌ c s) h = ground (arith, read_newlines-unchanged s)

-- ===== src/Tools/Files.antt =====
-- The files that tools/builtin.py works with, as pathlib sees them. A path is its names from the
-- deepest to the root, without links; the table of links gives the path that a link leads to. The
-- system grants every access and no link leads back to itself.
pub mod Laws
use Prim.Native.Char.{Char, code}
use agent_orchestration_syst.Common.{
  ℕ, String, Bool, true, false, ◌&&◌, ◌||◌, Option, none, some, List, [], ◌∷◌, ◌==◌, ◌>>=◌, leb,
  if◌then◌else◌, get_or,
}

abbrev pub FilePath : Type 0
FilePath = List String

abbrev pub same_path : FilePath → FilePath → Bool
same_path [] [] = true
same_path [] (_ ∷ _) = false
same_path (_ ∷ _) [] = false
same_path (x ∷ p) (y ∷ q) = x == y && same_path p q

pub data Node : Type 0 where
  file : String → Node
  directory : Node

pub record FileSystem : Type 0 where
  pub nodes : List (FilePath × Node)
  pub links : List (FilePath × FilePath)

module _ {ℓ} {V : Type ℓ} where
  unfoldable pub find : FilePath → List (FilePath × V) → Option V
  find p [] = none
  find p ((q, v) ∷ rest) = if same_path q p then some v else find p rest

  unfoldable pub put : FilePath → V → List (FilePath × V) → List (FilePath × V)
  put p v [] = (p, v) ∷ []
  put p v ((q, w) ∷ rest) = if same_path q p then (q, v) ∷ rest else (q, w) ∷ put p v rest

-- What stands at a path. The root is always a directory.
unfoldable pub node_at : FilePath → List (FilePath × Node) → Option Node
unfolding find
node_at [] nodes = some directory
node_at (name ∷ parent) nodes = find (name ∷ parent) nodes

-- `Path.parent`, which of the root is the root.
unfoldable pub parent : FilePath → FilePath
parent [] = []
parent (_ ∷ p) = p

-- `Path.parents`
unfoldable pub parents : FilePath → List FilePath
parents [] = []
parents (_ ∷ p) = p ∷ parents p

-- `path in paths`
unfoldable pub has_path : FilePath → List FilePath → Bool
has_path p [] = false
has_path p (q ∷ rest) = same_path q p || has_path p rest

abbrev pub is_code : Char → ℕ → Bool
is_code c n = leb (code c) n && leb n (code c)

push_char : Char → List String → List String
push_char c [] = String.◌∷◌ c "" ∷ []
push_char c (s ∷ rest) = String.◌∷◌ c s ∷ rest

-- `text.split("/")`
unfoldable pub split : String → List String
unfolding push_char
split String.[] = "" ∷ []
split (String.◌∷◌ c s) =
    let rest = split s in if is_code c b'/' then "" ∷ rest else push_char c rest

-- The next name of a path, at a path that is resolved.
unfoldable pub step : List (FilePath × FilePath) → FilePath → String → FilePath
unfolding parent find
step links base name =
    if name == "" || name == "."
    then base
    else if name == ".."
    then parent base
    else get_or (find (name ∷ base) links) (name ∷ base)

unfoldable pub walk : List (FilePath × FilePath) → FilePath → List String → FilePath
unfolding step
walk links base [] = base
walk links base (name ∷ rest) = walk links (step links base name) rest

is_absolute : String → Bool
is_absolute String.[] = false
is_absolute (String.◌∷◌ c _) = is_code c b'/'

-- `(base / path).resolve()`: an absolute path replaces the base.
unfoldable pub resolve : List (FilePath × FilePath) → FilePath → (path : String) → FilePath
unfolding walk split is_absolute
resolve links base path = walk links (if is_absolute path then [] else base) (split path)

-- `path.mkdir(parents=True, exist_ok=True)`. `none` stands for an `OSError`, where a file is in
-- the way.
unfoldable pub mkdir : FilePath → List (FilePath × Node) → Option (List (FilePath × Node))
unfolding node_at put
mkdir [] nodes = some nodes
mkdir (name ∷ parent) nodes =
    let made = mkdir parent nodes in
    elim (node_at (name ∷ parent) nodes) [
      | some directory ↦ some nodes
      | some (file _) ↦ none
      | none ↦ made >>= λ above. some (put (name ∷ parent) directory above)
    ]

-- `path.read_text()` of a file that holds `text`: with universal newlines, a carriage return and
-- the line feed after it are one line feed.
unfoldable pub read_newlines : (after_return : Bool) → (text : String) → String
read_newlines after_return String.[] = ""
read_newlines after_return (String.◌∷◌ c s) =
    let returned = read_newlines true s in
    let rest = read_newlines false s in
    if is_code c 13
    then String.◌∷◌ "\n" returned
    else if after_return && is_code c 10
    then rest
    else String.◌∷◌ c rest

-- ===== src/Tools/Files/Laws.antt =====
-- tools/builtin.py: how writing a file and making directories change what is found at a path.
use agent_orchestration_syst.Common.{
  String, true, none, some, List, [], ◌∷◌, if◌then◌else◌, ◌≡◌, refl, ap, ◌∙◌, arith, eq_iff,
  eq_refl, Bool-cases, Option-cases, AtSome, AtSome-bind, AtSome-of, inl, inr,
}
use agent_orchestration_syst.Tools.Files.{
  directory, file, FilePath, find, mkdir, Node, node_at, put, same_path,
}

pub same_path-eq : (p q : FilePath) → same_path p q ≡ true → p ≡ q
same_path-eq [] [] h = refl
same_path-eq [] (y ∷ q) h = ground arith
same_path-eq (x ∷ p) [] h = ground arith
same_path-eq (x ∷ p) (y ∷ q) h = ground (arith, eq_iff x y, same_path-eq p q)

pub same_path_refl : (p : FilePath) → same_path p p ≡ true
same_path_refl [] = refl
same_path_refl (x ∷ p) = ground (arith, eq_refl x, same_path_refl p)

pub find-put {ℓ} :
    {V : Type ℓ} (p q : FilePath) (v : V) (table : List (FilePath × V))
    → find q (put p v table) ≡ (if same_path p q then some v else find q table)
unfolding find put
find-put p q v [] = refl
find-put p q v ((k, w) ∷ table) = ground (
  arith,
  find-put p q v table,
  same_path-eq k p,
  same_path-eq k q,
  same_path-eq p q,
  same_path_refl q,
  same_path_refl p,
)

pub node_at-put :
    (name : String) (p q : FilePath) (n : Node) (nodes : List (FilePath × Node))
    → node_at q (put (name ∷ p) n nodes)
      ≡ (if same_path (name ∷ p) q then some n else node_at q nodes)
unfolding node_at
node_at-put name p [] n nodes = refl
node_at-put name p (x ∷ q) n nodes = find-put (name ∷ p) (x ∷ q) n nodes

-- What a made directory leaves at another path.
abbrev pub IsMade : FilePath → List (FilePath × Node) → List (FilePath × Node) → Type 0
IsMade p nodes made =
    (node_at p made ≡ some directory)
    × ((q : FilePath) (n : Node) → node_at q nodes ≡ some n → node_at q made ≡ some n)
    × ((q : FilePath) (text : String)
        → node_at q made ≡ some (file text)
        → node_at q nodes ≡ some (file text))

put-IsMade :
    (name : String) (p : FilePath) (nodes above : List (FilePath × Node))
    → node_at (name ∷ p) nodes ≡ none
    → IsMade p nodes above
    → IsMade (name ∷ p) nodes (put (name ∷ p) directory above)
put-IsMade name p nodes above e h = (
  ground (arith, node_at-put name p (name ∷ p) directory above, same_path_refl (name ∷ p)),
  λ q n k. elim (Bool-cases (same_path (name ∷ p) q)) [
    | inl same ↦
        let clash : node_at (name ∷ p) nodes ≡ some n =
          ap (λ r. node_at r nodes) (same_path-eq (name ∷ p) q same) ∙ k in
        ground (arith, clash)
    | inr other ↦ ground (arith, node_at-put name p q directory above, h.1 q n k)
  ],
  λ q text k. ground (arith, node_at-put name p q directory above, h.2 q text),
)

pub mkdir-IsMade :
    (p : FilePath) (nodes : List (FilePath × Node)) → AtSome (IsMade p nodes) (mkdir p nodes)
unfolding mkdir
mkdir-IsMade [] nodes = (refl, λ q n h. h, λ q text h. h)
mkdir-IsMade (name ∷ p) nodes = elim (Option-cases (node_at (name ∷ p) nodes)) [
  | inl e ↦
      rw (e, mkdir)
        (AtSome-bind (IsMade (name ∷ p) nodes) (mkdir p nodes) _ λ above m.
          put-IsMade name p nodes above e
            (AtSome-of (IsMade p nodes) (mkdir p nodes) (mkdir-IsMade p nodes) m))
  | inr (file text, e) ↦ rw (e, mkdir) tt
  | inr (directory, e) ↦ rw (e, mkdir) (e, λ q n h. h, λ q text h. h)
]

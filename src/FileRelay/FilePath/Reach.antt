-- ===== src/FileRelay/FilePath/Reach.antt =====
-- Where the file of a manifest comes to lie, for a manifest of the daemon's own and for one that a
-- peer has made up.
use decentis.Prelude.{
  ℕ, true, false, List, [], ◌∷◌, ◌++◌, Option, some, none, if◌then◌else◌, ◌≡◌, refl, ap, ◌∙◌, arith,
}
use decentis.FileRelay.Manifest.{FileManifest}
use decentis.FileRelay.Manifest
use decentis.FileRelay.Chunker.{FileChunker, name_or_unknown, unknown_bin, new}
use decentis.FileRelay.FilePath.{
  is_absolute, push, is_dot_dot, components, file_name, to_str, text_of, utf8_file_name,
  destination,
}
use decentis.FileRelay.FilePath.Split.{
  components-push, is_absolute-push, IsName, file_name-IsName, components_piece,
  HasNoSlash-is_absolute,
}

-- A place in a tree of directories without links: the names from the innermost up to the root.
abbrev pub Place : Type 0
Place = List (List ℕ)

-- The root is its own parent.
abbrev pub parent : Place → Place
parent [] = []
parent (name ∷ above) = above

unfoldable pub walk : Place → List (List ℕ) → Place
walk place [] = place
walk place (name ∷ rest) = walk (if is_dot_dot name then parent place else name ∷ place) rest

-- The place that a path leads to, from a working directory.
unfoldable pub locate : Place → List ℕ → Place
locate cwd path = walk (if is_absolute path then [] else cwd) (components path)

pub locate_absolute :
    (cwd : Place) (path : List ℕ)
    → is_absolute path ≡ true
    → locate cwd path ≡ walk [] (components path)
unfolding locate
locate_absolute cwd path e = rw e

pub walk-append :
    (place : Place) (xs ys : List (List ℕ)) → walk place (xs ++ ys) ≡ walk (walk place xs) ys
unfolding walk
walk-append place [] ys = refl
walk-append place (x ∷ xs) ys = walk-append (if is_dot_dot x then parent place else x ∷ place) xs ys

-- Behind a directory, a relative path goes on from there.
pub locate-push :
    (cwd : Place) (dir path : List ℕ)
    → is_absolute path ≡ false
    → locate cwd (push dir path) ≡ walk (locate cwd dir) (components path)
unfolding locate
locate-push cwd dir path relative =
    rw (components-push dir path relative, is_absolute-push dir path relative)
      (walk-append _ (components dir) (components path))

locate-push_name :
    (cwd : Place) (dir name : List ℕ)
    → IsName name
    → locate cwd (push dir name) ≡ name ∷ locate cwd dir
unfolding walk
locate-push_name cwd dir name ((plain, kept), named) =
    locate-push cwd dir name (HasNoSlash-is_absolute name plain)
    ∙ ap (walk (locate cwd dir)) (components_piece name (plain, kept))
    ∙ rw named

unknown_bin-IsName : IsName unknown_bin
unknown_bin-IsName = ((ground arith, refl), refl)

text_of-eq : (o : Option (List ℕ)) (name : List ℕ) → text_of o ≡ some name → o ≡ some name
unfolding to_str
text_of-eq none name e = cc
text_of-eq (some n) name e = ground arith

utf8_file_name-IsName :
    (o : Option (List ℕ)) (path : List ℕ) → utf8_file_name path ≡ o → IsName (name_or_unknown o)
unfolding utf8_file_name
utf8_file_name-IsName none path e = unknown_bin-IsName
utf8_file_name-IsName (some name) path e =
    file_name-IsName path name (text_of-eq (file_name path) name e)

-- The chunker of a file, whatever its path, announces it under a name without a slash, other than
-- those of a directory and its parent; and what a writer with that manifest opens is the file of
-- that name in the directory for received files itself. There are no links on the way.
pub new-destination :
    (blake3 : List ℕ → List ℕ) (transfer_id file_path : List ℕ) (opened reopened : Option (List ℕ))
    {c : FileChunker} (cwd : Place) (save_dir : List ℕ)
    → new blake3 transfer_id file_path opened reopened ≡ some c
    → IsName c.manifest.file_name
      × (locate cwd (destination save_dir c.manifest) ≡ c.manifest.file_name ∷ locate cwd save_dir)
unfolding new Manifest.new destination
new-destination blake3 transfer_id file_path none reopened cwd save_dir e = cc
new-destination blake3 transfer_id file_path (some content) none cwd save_dir e = cc
new-destination blake3 transfer_id file_path (some content) (some hashed) {c} cwd save_dir e =
    let name = name_or_unknown (utf8_file_name file_path) in
    let named : name ≡ c.manifest.file_name = cc e in
    let is_name = utf8_file_name-IsName (utf8_file_name file_path) file_path refl in
    rw (← named) (is_name, locate-push_name cwd save_dir name is_name)

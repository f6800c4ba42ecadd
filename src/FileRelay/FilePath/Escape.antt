-- ===== src/FileRelay/FilePath/Escape.antt =====
-- The names that a peer can put into a manifest lead anywhere.
use decentis.Prelude.{
  ℕ, zero, suc, true, false, List, [], ◌∷◌, ◌++◌, ◌≡◌, refl, ap, ◌∙◌, arith, length, drop, drop-ge,
  drop-drop,
}
use decentis.FileRelay.Manifest.{FileManifest}
use decentis.FileRelay.FilePath.{is_absolute, components, destination}
use decentis.FileRelay.FilePath.Split.{
  push_absolute, All, IsName, components_piece, components-append_slash,
}
use decentis.FileRelay.FilePath.Reach.{
  Place, walk, locate, walk-append, locate-push, locate_absolute,
}

-- The absolute path of a place.
abbrev pub absolute : Place → List ℕ
absolute [] = b'/' ∷ []
absolute (name ∷ above) = absolute above ++ (b'/' ∷ name)

is_absolute-append : (xs ys : List ℕ) → is_absolute xs ≡ true → is_absolute (xs ++ ys) ≡ true
is_absolute-append [] ys h = cc
is_absolute-append (x ∷ xs) ys h = h

is_absolute-absolute : (place : Place) → is_absolute (absolute place) ≡ true
is_absolute-absolute [] = refl
is_absolute-absolute (name ∷ above) =
    is_absolute-append (absolute above) (b'/' ∷ name) (is_absolute-absolute above)

walk-absolute : (place : Place) → All IsName place → walk [] (components (absolute place)) ≡ place
unfolding walk components
walk-absolute [] h = refl
walk-absolute (name ∷ above) (((plain, kept), named), h) =
    ap (walk []) (components-append_slash (absolute above) name)
    ∙ walk-append [] (components (absolute above)) (components name)
    ∙ ap (λ (p : Place). walk p (components name)) (walk-absolute above h)
    ∙ ap (walk above) (components_piece name (plain, kept))
    ∙ rw named

-- `../` as often as given.
abbrev back : ℕ → List ℕ
back zero = []
back (suc k) = b'.' ∷ b'.' ∷ b'/' ∷ back k

dot_dot-components : components (b'.' ∷ b'.' ∷ []) ≡ (b'.' ∷ b'.' ∷ []) ∷ []
unfolding components
dot_dot-components = refl

walk_dot_dot :
    (place : Place) (names : List (List ℕ))
    → walk place (((b'.' ∷ b'.' ∷ []) ∷ []) ++ names) ≡ walk (drop 1 place) names
unfolding walk
walk_dot_dot [] names = refl
walk_dot_dot (x ∷ above) names = refl

walk-back :
    (k : ℕ) (place : Place) (path : List ℕ)
    → walk place (components (back k ++ path)) ≡ walk (drop k place) (components path)
walk-back zero place path = refl
walk-back (suc k) place path =
    ap (walk place) (components-append_slash (b'.' ∷ b'.' ∷ []) (back k ++ path))
    ∙ ap (λ (names : List (List ℕ)). walk place (names ++ components (back k ++ path)))
        dot_dot-components
    ∙ walk_dot_dot place (components (back k ++ path))
    ∙ walk-back k (drop 1 place) path
    ∙ ap (λ (p : Place). walk p (components path)) (drop-drop 1 k (suc k) place (omega arith))

-- Whatever the directory for received files is, a peer can make the writer open any place: by an
-- absolute name that does so from every directory, and by a relative name as well. There are no
-- links on the way.
pub destination_anywhere :
    (cwd : Place) (save_dir : List ℕ) (place : Place) (m : FileManifest)
    → All IsName place
    → (locate cwd (destination save_dir (record m { file_name = absolute place })) ≡ place)
      × ((name : List ℕ) × (is_absolute name ≡ false)
          × (locate cwd (destination save_dir (record m { file_name = name })) ≡ place))
unfolding destination
destination_anywhere cwd save_dir place m names =
    let up = suc (length (locate cwd save_dir)) in
    (
      rw (push_absolute save_dir (absolute place) (is_absolute-absolute place)) (
          locate_absolute cwd (absolute place) (is_absolute-absolute place)
          ∙ walk-absolute place names),
      (
        back up ++ absolute place,
        refl,
        locate-push cwd save_dir (back up ++ absolute place) refl
            ∙ walk-back up (locate cwd save_dir) (absolute place)
            ∙ rw (drop-ge up (locate cwd save_dir) (omega arith)) (walk-absolute place names),
      ),
    )

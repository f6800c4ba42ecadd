-- ===== src/FileRelay/FilePath/Split.antt =====
-- The components of paths that are put together, and what the components of any path are like.
use decentis.Prelude.{
  ℕ, true, false, List, [], ◌∷◌, ◌++◌, some, ◌==◌, ◌≡◌, ◌⊎◌, inl, inr, refl, ap, arith, Bool-cases,
  append_assoc, append-nil,
}
use decentis.FileRelay.FilePath.{
  is_absolute, needs_separator, push, split, is_dot_dot, keeps, keep, components, last_name,
  file_name,
}

split-append_slash :
    (xs ys : List ℕ)
    → split (xs ++ (b'/' ∷ ys)) ≡ ((split xs).0, (split xs).1 ++ ((split ys).0 ∷ (split ys).1))
unfolding split
split-append_slash [] ys = refl
split-append_slash (c ∷ cs) ys = ground (arith, split-append_slash cs ys)

keep-append : (ps qs : List (List ℕ)) → keep (ps ++ qs) ≡ keep ps ++ keep qs
keep-append [] qs = refl
keep-append (p ∷ ps) qs = ground (arith, keep-append ps qs)

components-nil : components [] ≡ []
unfolding components
components-nil = refl

-- A slash between two paths: the components of one, then those of the other.
pub components-append_slash :
    (xs ys : List ℕ) → components (xs ++ (b'/' ∷ ys)) ≡ components xs ++ components ys
unfolding components
components-append_slash xs ys =
    rw split-append_slash (keep-append ((split xs).0 ∷ (split xs).1) ((split ys).0 ∷ (split ys).1))

-- A directory that needs no separator is empty or ends with one.
ends_with_slash :
    (dir : List ℕ)
    → needs_separator dir ≡ false
    → (dir ≡ []) ⊎ ((front : List ℕ) × (dir ≡ front ++ (b'/' ∷ [])))
ends_with_slash [] e = inl refl
ends_with_slash (c ∷ []) e = inr ([], ground arith)
ends_with_slash (c ∷ d ∷ cs) e = elim (ends_with_slash (d ∷ cs) e) [
  | inl none_left ↦ ground arith
  | inr (front, same) ↦ inr (c ∷ front, ap (◌∷◌ c) same)
]

-- What is pushed behind a directory, if it is relative, has its components behind those of the
-- directory.
pub components-push :
    (dir path : List ℕ)
    → is_absolute path ≡ false
    → components (push dir path) ≡ components dir ++ components path
unfolding push
components-push dir path relative = rw relative (elim (Bool-cases (needs_separator dir)) [
  | inl needed ↦ rw needed (components-append_slash dir path)
  | inr ended ↦ rw ended (by_end (ends_with_slash dir ended))
])
  where
    by_end :
        (dir ≡ []) ⊎ ((front : List ℕ) × (dir ≡ front ++ (b'/' ∷ [])))
        → components (dir ++ path) ≡ components dir ++ components path
    by_end (inl e) = rw (e, components-nil) refl
    by_end (inr (front, e)) = rw (
      e,
      append_assoc front (b'/' ∷ []) path,
      components-append_slash,
      components-append_slash,
      components-nil,
      append-nil,
    )

pub is_absolute-push :
    (dir path : List ℕ) → is_absolute path ≡ false → is_absolute (push dir path) ≡ is_absolute dir
unfolding push
is_absolute-push [] path relative = ground arith
is_absolute-push (c ∷ cs) path relative = ground (arith, relative)

pub push_absolute : (dir path : List ℕ) → is_absolute path ≡ true → push dir path ≡ path
unfolding push
push_absolute dir path e = rw e

abbrev pub HasNoSlash : List ℕ → Type 0
HasNoSlash [] = Unit {0}
HasNoSlash (c ∷ cs) = ((c == b'/') ≡ false) × HasNoSlash cs

-- Bytes that may stand for one component.
abbrev pub IsPiece : List ℕ → Type 0
IsPiece piece = HasNoSlash piece × (keeps piece ≡ true)

abbrev pub All : (List ℕ → Type 0) → List (List ℕ) → Type 0
All P [] = Unit {0}
All P (p ∷ ps) = P p × All P ps

split-HasNoSlash : (path : List ℕ) → HasNoSlash (split path).0 × All HasNoSlash (split path).1
unfolding split
split-HasNoSlash [] = (tt, tt)
split-HasNoSlash (c ∷ cs) = elim (Bool-cases (c == b'/')) [
  | inl slash ↦ rw slash (tt, split-HasNoSlash cs)
  | inr other ↦ rw other ((other, (split-HasNoSlash cs).0), (split-HasNoSlash cs).1)
]

keep-IsPiece : (ps : List (List ℕ)) → All HasNoSlash ps → All IsPiece (keep ps)
keep-IsPiece [] h = tt
keep-IsPiece (p ∷ ps) h = elim (Bool-cases (keeps p)) [
  | inl kept ↦ rw kept ((h.0, kept), keep-IsPiece ps h.1)
  | inr dropped ↦ rw dropped (keep-IsPiece ps h.1)
]

components-IsPiece : (path : List ℕ) → All IsPiece (components path)
unfolding components
components-IsPiece path = keep-IsPiece ((split path).0 ∷ (split path).1) (split-HasNoSlash path)

-- A name in a directory: a component other than the one that leads to the parent.
abbrev pub IsName : List ℕ → Type 0
IsName name = IsPiece name × (is_dot_dot name ≡ false)

last_name-IsName :
    (ps : List (List ℕ)) (name : List ℕ) → All IsPiece ps → last_name ps ≡ some name → IsName name
last_name-IsName [] name h e = cc
last_name-IsName (p ∷ []) name h e = elim (Bool-cases (is_dot_dot p)) [
  | inl parent ↦ cc (rw parent at e)
  | inr named ↦ let same : p ≡ name = cc (rw named at e) in rw (← same) (h.0, named)
]
last_name-IsName (p ∷ q ∷ ps) name h e = last_name-IsName (q ∷ ps) name h.1 e

pub file_name-IsName : (path name : List ℕ) → file_name path ≡ some name → IsName name
unfolding file_name
file_name-IsName path name e = last_name-IsName (components path) name (components-IsPiece path) e

split_piece : (piece : List ℕ) → HasNoSlash piece → split piece ≡ (piece, [])
unfolding split
split_piece [] h = refl
split_piece (c ∷ cs) h = rw (h.0, split_piece cs h.1)

-- The one component of a path without a slash.
pub components_piece : (piece : List ℕ) → IsPiece piece → components piece ≡ piece ∷ []
unfolding components
components_piece piece (plain, kept) = rw (split_piece piece plain, kept)

pub HasNoSlash-is_absolute : (path : List ℕ) → HasNoSlash path → is_absolute path ≡ false
HasNoSlash-is_absolute [] h = refl
HasNoSlash-is_absolute (c ∷ cs) h = h.0

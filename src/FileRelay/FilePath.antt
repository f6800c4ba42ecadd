-- ===== src/FileRelay/FilePath.antt =====
-- The paths that daemon/src/file_relay builds and takes apart, as the standard library does it on
-- Unix: chunker.rs takes the name of a file from its path, writer.rs puts the name of a manifest
-- behind the directory for received files. A path is the list of its bytes.
pub mod Split
pub mod Reach
pub mod Escape
use decentis.Prelude.{
  ℕ, Bool, true, false, not, ◌&&◌, List, [], ◌∷◌, ◌++◌, Option, some, none, ltb, leb, ◌==◌,
  if◌then◌else◌,
}
use decentis.FileRelay.Manifest.{FileManifest}

-- `has_root`
abbrev pub is_absolute : List ℕ → Bool
is_absolute [] = false
is_absolute (c ∷ cs) = c == b'/'

-- There is a last byte, and it is no slash.
abbrev pub needs_separator : List ℕ → Bool
needs_separator [] = false
needs_separator (c ∷ []) = not (c == b'/')
needs_separator (c ∷ d ∷ cs) = needs_separator (d ∷ cs)

-- `PathBuf::push`: an absolute path takes the place of the one that is there.
unfoldable pub push : List ℕ → List ℕ → List ℕ
push dir path =
    if is_absolute path
    then path
    else (if needs_separator dir then dir ++ (b'/' ∷ path) else dir ++ path)

-- What stands before the first slash, and the pieces behind it.
unfoldable pub split : List ℕ → List ℕ × List (List ℕ)
split [] = ([], [])
split (c ∷ cs) =
    let (first, rest) = split cs in if c == b'/' then ([], first ∷ rest) else (c ∷ first, rest)

abbrev pub is_dot : List ℕ → Bool
is_dot (c ∷ []) = c == b'.'
is_dot _ = false

abbrev pub is_dot_dot : List ℕ → Bool
is_dot_dot (c ∷ d ∷ []) = c == b'.' && d == b'.'
is_dot_dot _ = false

-- A piece that is empty or a dot leads nowhere.
abbrev pub keeps : List ℕ → Bool
keeps [] = false
keeps (c ∷ cs) = not (is_dot (c ∷ cs))

abbrev pub keep : List (List ℕ) → List (List ℕ)
keep [] = []
keep (piece ∷ rest) = if keeps piece then piece ∷ keep rest else keep rest

-- `Path::components`, less the root and a dot at the start.
unfoldable pub components : List ℕ → List (List ℕ)
unfolding split
components path = keep ((split path).0 ∷ (split path).1)

-- A last component, if that is a name.
abbrev pub last_name : List (List ℕ) → Option (List ℕ)
last_name [] = none
last_name (name ∷ []) = if is_dot_dot name then none else some name
last_name (name ∷ next ∷ rest) = last_name (next ∷ rest)

-- `Path::file_name`
unfoldable pub file_name : List ℕ → Option (List ℕ)
unfolding components
file_name path = last_name (components path)

-- The ranges of the bytes that follow a first byte of a character in UTF-8.
abbrev following : ℕ → Option (List (ℕ × ℕ))
following b =
    let tail : ℕ × ℕ = (0x80, 0xbf) in
    if ltb b 0x80
    then some []
    else if ltb b 0xc2
    then none
    else if ltb b 0xe0
    then some (tail ∷ [])
    else if b == 0xe0
    then some ((0xa0, 0xbf) ∷ tail ∷ [])
    else if b == 0xed
    then some ((0x80, 0x9f) ∷ tail ∷ [])
    else if ltb b 0xf0
    then some (tail ∷ tail ∷ [])
    else if b == 0xf0
    then some ((0x90, 0xbf) ∷ tail ∷ tail ∷ [])
    else if ltb b 0xf4
    then some (tail ∷ tail ∷ tail ∷ [])
    else if b == 0xf4
    then some ((0x80, 0x8f) ∷ tail ∷ tail ∷ [])
    else none

unfoldable pub utf8_from : List (ℕ × ℕ) → List ℕ → Bool
utf8_from [] [] = true
utf8_from ((low, high) ∷ ranges) [] = false
utf8_from [] (b ∷ bs) = elim (following b) [ none ↦ false | some ranges ↦ utf8_from ranges bs ]
utf8_from ((low, high) ∷ ranges) (b ∷ bs) = leb low b && leb b high && utf8_from ranges bs

-- `OsStr::to_str`: the bytes are a text if they are UTF-8.
unfoldable pub to_str : List ℕ → Option (List ℕ)
unfolding utf8_from
to_str bytes = if utf8_from [] bytes then some bytes else none

abbrev pub text_of : Option (List ℕ) → Option (List ℕ)
text_of none = none
text_of (some name) = to_str name

-- `path.file_name().and_then(|n| n.to_str())` of `FileChunker::new`.
unfoldable pub utf8_file_name : List ℕ → Option (List ℕ)
unfolding file_name to_str
utf8_file_name path = text_of (file_name path)

-- The path that `DiskWriter::new` opens.
unfoldable pub destination : List ℕ → FileManifest → List ℕ
unfolding push
destination save_dir manifest = push save_dir manifest.file_name

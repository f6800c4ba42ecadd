-- ===== src/Tests/Paths.antt =====
-- The paths of daemon/src/file_relay at concrete inputs.
use decentis.Prelude.{ℕ, false, List, [], ◌∷◌, some, none, ◌≡◌, refl}
use decentis.FileRelay.Manifest
use decentis.FileRelay.Manifest.{FileManifest}
use decentis.FileRelay.Chunker.{FileChunker, new}
use decentis.FileRelay.FilePath.{push, file_name, is_absolute, utf8_file_name, destination}
use decentis.FileRelay.FilePath.Split.{IsName}
use decentis.FileRelay.FilePath.Reach.{Place, locate, new-destination}
use decentis.FileRelay.FilePath.Escape.{absolute, destination_anywhere}

-- "/a/.//b/."
abbrev messy : List ℕ
messy = b'/' ∷ b'a' ∷ b'/' ∷ b'.' ∷ b'/' ∷ b'/' ∷ b'b' ∷ b'/' ∷ b'.' ∷ []

keeps-name : file_name messy ≡ some (b'b' ∷ [])
unfolding file_name
keeps-name = refl

-- "a/.." has no name.
parent_has_no_name : file_name (b'a' ∷ b'/' ∷ b'.' ∷ b'.' ∷ []) ≡ none
unfolding file_name
parent_has_no_name = refl

-- "é" is a text, half of it is not.
reads-accent : utf8_file_name (b'/' ∷ 0xc3 ∷ 0xa9 ∷ []) ≡ some (0xc3 ∷ 0xa9 ∷ [])
unfolding utf8_file_name
reads-accent = refl

refuses-half : utf8_file_name (b'/' ∷ 0xc3 ∷ []) ≡ none
unfolding utf8_file_name
refuses-half = refl

-- "." and "in/" as directories for received files
pushes-name : push (b'.' ∷ []) (b'b' ∷ []) ≡ b'.' ∷ b'/' ∷ b'b' ∷ []
unfolding push
pushes-name = refl

pushes-behind_slash : push (b'i' ∷ b'n' ∷ b'/' ∷ []) (b'b' ∷ []) ≡ b'i' ∷ b'n' ∷ b'/' ∷ b'b' ∷ []
unfolding push
pushes-behind_slash = refl

abbrev hash : List ℕ → List ℕ
hash bytes = 7 ∷ []

abbrev made : FileChunker
made = record {
  file = record { content = 5 ∷ []; pos = 0 };
  manifest = Manifest.new (1 ∷ []) (b'b' ∷ []) 1 (7 ∷ []);
}

made-new : new hash (1 ∷ []) messy (some (5 ∷ [])) (some (5 ∷ [])) ≡ some made
unfolding new utf8_file_name Manifest.new
made-new = refl

abbrev home : Place
home = (b'h' ∷ []) ∷ []

new-destination_example :
    IsName (made.manifest.file_name)
    × (locate home (destination (b'i' ∷ b'n' ∷ []) made.manifest)
        ≡ made.manifest.file_name ∷ locate home (b'i' ∷ b'n' ∷ []))
new-destination_example =
    new-destination hash (1 ∷ []) messy (some (5 ∷ [])) (some (5 ∷ [])) home (b'i' ∷ b'n' ∷ [])
      made-new

-- "/etc/x"
abbrev elsewhere : Place
elsewhere = (b'x' ∷ []) ∷ (b'e' ∷ b't' ∷ b'c' ∷ []) ∷ []

destination_anywhere_example :
    (locate home (destination (b'.' ∷ []) (record made.manifest { file_name = absolute elsewhere }))
      ≡ elsewhere)
    × ((name : List ℕ) × (is_absolute name ≡ false)
        × (locate home (destination (b'.' ∷ []) (record made.manifest { file_name = name }))
            ≡ elsewhere))
destination_anywhere_example =
    destination_anywhere home (b'.' ∷ []) elsewhere made.manifest
      ((((refl, tt), refl), refl), ((((refl, (refl, (refl, tt))), refl), refl), tt))

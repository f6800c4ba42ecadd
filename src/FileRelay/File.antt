-- ===== src/FileRelay/File.antt =====
-- Files as daemon/src/file_relay uses them: the bytes and the cursor of an open file. A write
-- past the end fills the gap with zeros; a write of no bytes changes nothing.
use decentis.Prelude.{
  ℕ, zero, suc, ◌+◌, ◌≤◌, ◌<◌, List, [], ◌∷◌, Option, some, none, length, take, drop, get_or, ltb,
  if◌then◌else◌, ◌≡◌, ◌⊎◌, inr, refl, arith,
}

pub record File : Type 0 where
  pub content : List ℕ
  pub pos : ℕ

abbrev pub empty : File
empty = record { content = []; pos = 0 }

abbrev pub seek : File → ℕ → File
seek f p = record f { pos = p }

-- `content` with `bytes` from index `p` on.
unfoldable pub write_at : List ℕ → ℕ → List ℕ → List ℕ
write_at content p [] = content
write_at [] zero (b ∷ bs) = b ∷ bs
write_at (x ∷ xs) zero (b ∷ bs) = b ∷ write_at xs zero bs
write_at [] (suc p) (b ∷ bs) = 0 ∷ write_at [] p (b ∷ bs)
write_at (x ∷ xs) (suc p) (b ∷ bs) = x ∷ write_at xs p (b ∷ bs)

unfoldable pub write_all : File → List ℕ → File
write_all f bytes = record { content = write_at f.content f.pos bytes; pos = f.pos + length bytes }

-- `read_exact` of `n` bytes: `none` if the file ends first.
unfoldable pub read_exact : File → ℕ → Option (List ℕ × File)
read_exact f n =
    let rest = drop f.pos f.content in
    if ltb (length rest) n then none else some (take n rest, record f { pos = f.pos + n })

pub length-write_at :
    (content : List ℕ) (p : ℕ) (bytes : List ℕ)
    → p + length bytes ≤ length content
    → length (write_at content p bytes) ≡ length content
unfolding write_at
length-write_at content p [] h = refl
length-write_at [] p (b ∷ bs) h = absurd (omega arith)
length-write_at (x ∷ xs) zero (b ∷ bs) h = omega (arith, length-write_at xs zero bs (omega arith))
length-write_at (x ∷ xs) (suc p) (b ∷ bs) h =
    omega (arith, length-write_at xs p (b ∷ bs) (omega arith))

-- A write leaves what stands before it and behind it.
pub get_or-write_at_outside :
    (content : List ℕ) (p : ℕ) (bytes : List ℕ) (k : ℕ)
    → p + length bytes ≤ length content
    → (k < p) ⊎ (p + length bytes ≤ k)
    → get_or (write_at content p bytes) k 0 ≡ get_or content k 0
unfolding write_at
get_or-write_at_outside content p [] k h out = refl
get_or-write_at_outside [] p (b ∷ bs) k h out = absurd (omega arith)
get_or-write_at_outside (x ∷ xs) zero (b ∷ bs) zero h out = absurd (omega arith)
get_or-write_at_outside (x ∷ xs) zero (b ∷ bs) (suc k) h out =
    get_or-write_at_outside xs zero bs k (omega arith) (inr (omega arith))
get_or-write_at_outside (x ∷ xs) (suc p) (b ∷ bs) zero h out = refl
get_or-write_at_outside (x ∷ xs) (suc p) (b ∷ bs) (suc k) h out =
    get_or-write_at_outside xs p (b ∷ bs) k (omega arith) (omega arith)

-- Inside it the file holds the bytes written.
pub get_or-write_at_inside :
    (content : List ℕ) (p : ℕ) (bytes : List ℕ) (j : ℕ)
    → p + length bytes ≤ length content
    → j < length bytes
    → get_or (write_at content p bytes) (p + j) 0 ≡ get_or bytes j 0
unfolding write_at
get_or-write_at_inside content p [] j h lt = absurd (omega arith)
get_or-write_at_inside [] p (b ∷ bs) j h lt = absurd (omega arith)
get_or-write_at_inside (x ∷ xs) zero (b ∷ bs) zero h lt = refl
get_or-write_at_inside (x ∷ xs) zero (b ∷ bs) (suc j) h lt =
    let e : zero + suc j ≡ suc (zero + j) = omega arith in
    rw e (get_or-write_at_inside xs zero bs j (omega arith) (omega arith))
get_or-write_at_inside (x ∷ xs) (suc p) (b ∷ bs) j h lt =
    let e : suc p + j ≡ suc (p + j) = omega arith in
    rw e (get_or-write_at_inside xs p (b ∷ bs) j (omega arith) lt)

-- The one byte that `DiskWriter::new` writes at the end makes a file of that size.
pub length-write_at_end : (p b : ℕ) → length (write_at [] p (b ∷ [])) ≡ suc p
unfolding write_at
length-write_at_end zero b = refl
length-write_at_end (suc p) b = omega (arith, length-write_at_end p b)

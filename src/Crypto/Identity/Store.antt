-- ===== src/Crypto/Identity/Store.antt =====
-- The key file is never half-written, and what is returned is what the next start loads.
use decentis.Prelude.{
  ℕ, false, List, ◌++◌, Option, some, none, length, take, drop, ◌==◌, ◌≡◌, ◌≢◌, ◌⊎◌, inl, inr, refl,
  sym, ◌∙◌, arith, Bool-cases, length-append, take-length_append, drop-length_append, take-ge,
}
use decentis.Crypto.Identity.{
  Keypair, Disk, Fault, at_read, at_create_dir, at_open, at_sync, at_rename, at_write, LoadResult,
  ok, err, read_failed, from_file, save, regenerate, parse_identity, load_or_generate_identity,
}

-- Both keys have 32 bytes, as those of Curve25519 have.
pub record IsKeypair (k : Keypair) : Type 0 where
  pub public_size : length k.public ≡ 32
  pub private_size : length k.private ≡ 32

parse_identity-append :
    (k : Keypair) → IsKeypair k → parse_identity (k.public ++ k.private) ≡ some k
unfolding parse_identity
parse_identity-append k s = ground (
  arith,
  length-append k.public k.private,
  take-length_append 32 k.public k.private,
  drop-length_append 32 k.public k.private,
  take-ge 32 k.private,
  s.public_size,
  s.private_size,
)

-- The same on the disk after a save that succeeds.
save-parse :
    (fault : Fault) (k : Keypair) (d : Disk) {k' : Keypair} {d' : Disk}
    → IsKeypair k
    → save fault k d ≡ (ok k', d')
    → (bytes : List ℕ) × (d'.identity ≡ some bytes) × (parse_identity bytes ≡ some k')
unfolding save
save-parse fault k d s e =
    (k.public ++ k.private, ground arith, ground (arith, parse_identity-append k s))

-- A key file of another size than 64 bytes, or none.
abbrev pub HasNoKey : Disk → Type 0
HasNoKey disk = (bytes : List ℕ) → disk.identity ≡ some bytes → length bytes ≢ 64

-- What a start can do: load, fail to read, or generate because there is no key.
data Start (generated : Option Keypair) (fault : Fault) (disk : Disk) (result : LoadResult × Disk)
    : Type 0 where
  loads :
      (k : Keypair) (bytes : List ℕ)
      → disk.identity ≡ some bytes
      → parse_identity bytes ≡ some k
      → result ≡ (ok k, disk)
      → Start generated fault disk result
  unreadable : result ≡ (err read_failed, disk) → Start generated fault disk result
  generates :
      HasNoKey disk → result ≡ regenerate generated fault disk → Start generated fault disk result

from_file-Start :
    (content : Option (List ℕ)) (generated : Option Keypair) (fault : Fault) (disk : Disk)
    → disk.identity ≡ content
    → Start generated fault disk (from_file content generated fault disk)
unfolding parse_identity
from_file-Start none generated fault disk e = generates (λ bytes f n. ground (arith, f)) refl
from_file-Start (some bytes) generated fault disk e = elim (Bool-cases (length bytes == 64)) [
  | inl right ↦
      loads (record { public = take 32 bytes; private = take 32 (drop 32 bytes) }) bytes e
        (rw right refl) (rw right refl)
  | inr wrong ↦ generates (λ bytes' f n. ground (arith, f)) (rw wrong refl)
]

load-Start :
    (generated : Option Keypair) (fault : Fault) (disk : Disk)
    → Start generated fault disk (load_or_generate_identity generated fault disk)
unfolding load_or_generate_identity
load-Start generated at_read disk = unreadable refl
load-Start generated fault disk = from_file-Start disk.identity generated fault disk refl

regenerate-identity :
    (generated : Option Keypair) (fault : Fault) (disk : Disk)
    → disk.own_temporary ≡ false
    → let disk' = (regenerate generated fault disk).1 in
      (disk'.identity ≡ disk.identity)
      ⊎ ((k : Keypair) × (generated ≡ some k) × (disk'.identity ≡ some (k.public ++ k.private)))
unfolding regenerate
regenerate-identity none fault disk apart = inl refl
regenerate-identity (some k) at_create_dir disk apart = inl refl
regenerate-identity (some k) at_open disk apart = inl refl
regenerate-identity (some k) at_sync disk apart = inl (rw apart refl)
regenerate-identity (some k) at_rename disk apart = inl (rw apart refl)
regenerate-identity (some k) (at_write n) disk apart = inl (rw apart refl)
regenerate-identity (some k) fault disk apart = inr (k, refl, rw apart refl)

-- If the temporary file is not the key file itself, then whatever call fails, the file at the path
-- is afterwards the old one, or holds the whole of the generated keys; and it is replaced only if
-- it was absent or not of 64 bytes.
pub load_or_generate_identity_atomic :
    (generated : Option Keypair) (fault : Fault) (disk : Disk)
    → disk.own_temporary ≡ false
    → let disk' = (load_or_generate_identity generated fault disk).1 in
      (disk'.identity ≡ disk.identity)
      ⊎ ((k : Keypair) × (generated ≡ some k)
          × (disk'.identity ≡ some (k.public ++ k.private))
          × HasNoKey disk)
load_or_generate_identity_atomic generated fault disk apart =
    by_start (load-Start generated fault disk)
  where
    Goal : Disk → Type 0
    Goal disk' =
        (disk'.identity ≡ disk.identity)
        ⊎ ((k : Keypair) × (generated ≡ some k)
            × (disk'.identity ≡ some (k.public ++ k.private))
            × HasNoKey disk)

    by_regenerate :
        HasNoKey disk
        → (((regenerate generated fault disk).1.identity ≡ disk.identity)
            ⊎ ((k : Keypair) × (generated ≡ some k)
                × ((regenerate generated fault disk).1.identity ≡ some (k.public ++ k.private))))
        → Goal (regenerate generated fault disk).1
    by_regenerate no_key (inl same) = inl same
    by_regenerate no_key (inr (k, g, saved)) = inr (k, g, saved, no_key)

    by_start :
        Start generated fault disk (load_or_generate_identity generated fault disk)
        → Goal (load_or_generate_identity generated fault disk).1
    by_start (loads k bytes file parsed e) = rw e (inl refl)
    by_start (unreadable e) = rw e (inl refl)
    by_start (generates no_key e) =
        rw e (by_regenerate no_key (regenerate-identity generated fault disk apart))

load-stored :
    (generated : Option Keypair) (fault : Fault) (disk : Disk) (bytes : List ℕ) (k : Keypair)
    → disk.identity ≡ some bytes
    → parse_identity bytes ≡ some k
    → fault ≢ at_read
    → load_or_generate_identity generated fault disk ≡ (ok k, disk)
unfolding load_or_generate_identity
load-stored generated at_read disk bytes k file parsed readable = absurd (readable refl)
load-stored generated fault disk bytes k file parsed readable = ground (arith, file, parsed)

-- The file holds the keys.
abbrev Stores : Disk → Keypair → Type 0
Stores disk k = (bytes : List ℕ) × (disk.identity ≡ some bytes) × (parse_identity bytes ≡ some k)

regenerate-Stores :
    (generated : Option Keypair) (fault : Fault) (disk : Disk) {k : Keypair} {disk' : Disk}
    → ((g : Keypair) → generated ≡ some g → IsKeypair g)
    → regenerate generated fault disk ≡ (ok k, disk')
    → Stores disk' k
unfolding regenerate
regenerate-Stores none fault disk sizes e = absurd (ground (arith, e))
regenerate-Stores (some g) fault disk sizes e = save-parse fault g disk (sizes g refl) e

-- The keys that a start returns are those that every later start with a readable file returns,
-- whatever generator and faults it has, and the disk stays as it is.
-- The generator's keys are assumed to have 32 bytes each.
pub load_or_generate_identity_stable :
    (generated : Option Keypair) (fault : Fault) (disk : Disk) {k : Keypair} {disk' : Disk}
    (generated' : Option Keypair) (fault' : Fault)
    → ((g : Keypair) → generated ≡ some g → IsKeypair g)
    → load_or_generate_identity generated fault disk ≡ (ok k, disk')
    → fault' ≢ at_read
    → load_or_generate_identity generated' fault' disk' ≡ (ok k, disk')
load_or_generate_identity_stable generated fault disk {k} {disk'} generated' fault' sizes e
      readable =
    let (bytes, file, parsed) = by_start (load-Start generated fault disk) in
    load-stored generated' fault' disk' bytes k file parsed readable
  where
    by_start :
        Start generated fault disk (load_or_generate_identity generated fault disk) → Stores disk' k
    by_start (loads k1 bytes file parsed e1) =
        (bytes, ground (arith, e, e1, file), ground (arith, e, e1, parsed))
    by_start (unreadable e1) = absurd (ground (arith, e, e1))
    by_start (generates no_key e1) = regenerate-Stores generated fault disk sizes (sym e1 ∙ e)

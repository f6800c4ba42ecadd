-- ===== src/Crypto/Identity.antt =====
-- daemon/src/crypto/identity.rs: the key file and the address that a key gives. `Disk` is what the
-- file system holds at the path and at the temporary path beside it; if the path ends in ".tmp", the
-- two are one file (`own_temporary`), which is `identity`. `Fault` names the call that
-- fails, if one does. The key generator is the crate snow's, a parameter.
pub mod Store
pub mod Address
pub mod Text
use decentis.Prelude.{
  ℕ, ◌+◌, Bool, List, [], ◌∷◌, ◌++◌, Option, some, none, length, take, drop, get_elem?, ◌==◌,
  if◌then◌else◌,
}

pub record Keypair : Type 0 where
  pub public : List ℕ
  pub private : List ℕ

pub record Disk : Type 0 where
  pub identity : Option (List ℕ)
  pub temporary : Option (List ℕ)
  pub own_temporary : Bool

-- `at_write n`: the write to the temporary file fails after `n` bytes.
pub data Fault : Type 0 where
  no_fault at_read at_create_dir at_open at_sync at_rename : Fault
  at_write : ℕ → Fault

pub data IdentityError : Type 0 where
  read_failed generate_failed create_dir_failed open_failed write_failed sync_failed rename_failed :
      IdentityError

pub data LoadResult : Type 0 where
  ok : Keypair → LoadResult
  err : IdentityError → LoadResult

-- What the file at the temporary path holds after a write to it.
abbrev pub put_temporary : List ℕ → Disk → Disk
put_temporary bytes d =
    if d.own_temporary
    then record d { identity = some bytes }
    else record d { temporary = some bytes }

-- The swap; on one file, it changes nothing.
abbrev pub swap : Disk → Disk
swap d = if d.own_temporary then d else record d { identity = d.temporary; temporary = none }

-- The write to the temporary path and the swap; the file is opened truncated.
unfoldable pub save : Fault → Keypair → Disk → LoadResult × Disk
save at_create_dir k d = (err create_dir_failed, d)
save at_open k d = (err open_failed, d)
save (at_write n) k d = (err write_failed, put_temporary (take n (k.public ++ k.private)) d)
save at_sync k d = (err sync_failed, put_temporary (k.public ++ k.private) d)
save at_rename k d = (err rename_failed, put_temporary (k.public ++ k.private) d)
save _ k d = (ok k, swap (put_temporary (k.public ++ k.private) d))

-- A key is generated and saved.
unfoldable pub regenerate : Option Keypair → Fault → Disk → LoadResult × Disk
unfolding save
regenerate none fault d = (err generate_failed, d)
regenerate (some k) fault d = save fault k d

-- A file of 64 bytes is the pair of keys; any other content is replaced.
unfoldable pub parse_identity : List ℕ → Option Keypair
parse_identity bytes =
    if length bytes == 64
    then some (record { public = take 32 bytes; private = take 32 (drop 32 bytes) })
    else none

abbrev pub loaded_or : Option Keypair → Option Keypair → Fault → Disk → LoadResult × Disk
loaded_or (some k) generated fault d = (ok k, d)
loaded_or none generated fault d = regenerate generated fault d

abbrev pub from_file : Option (List ℕ) → Option Keypair → Fault → Disk → LoadResult × Disk
from_file none generated fault d = regenerate generated fault d
from_file (some bytes) generated fault d = loaded_or (parse_identity bytes) generated fault d

unfoldable pub load_or_generate_identity : Option Keypair → Fault → Disk → LoadResult × Disk
unfolding regenerate parse_identity
load_or_generate_identity generated at_read d = (err read_failed, d)
load_or_generate_identity generated fault d = from_file d.identity generated fault d

pub record Ipv4Addr : Type 0 where
  pub a : ℕ
  pub b : ℕ
  pub c : ℕ
  pub d : ℕ

-- 0 becomes 1, then 255 becomes 254.
abbrev pub clamp : ℕ → ℕ
clamp byte = let raised : ℕ = if byte == 0 then 1 else byte in if raised == 255 then 254 else raised

-- `none`: a key under two bytes panics.
unfoldable pub derive_virtual_ip : List ℕ → Option Ipv4Addr
derive_virtual_ip (byte3 ∷ byte4 ∷ rest) =
    some (record { a = 10; b = 99; c = clamp byte3; d = clamp byte4 })
derive_virtual_ip _ = none

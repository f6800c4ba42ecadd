-- ===== src/Tests/Crypto.antt =====
-- The window, the session and the identity of daemon/src/crypto at concrete inputs.
use decentis.Prelude.{
  ℕ, true, false, ◌+◌, ◌%◌, ◌^◌, ◌≤◌, List, [], ◌∷◌, ◌++◌, Option, some, none, length, drop,
  replicate, ltb, leb, if◌then◌else◌, ◌≡◌, ◌↔◌, ◌⊎◌, refl, arith,
}
use decentis.Crypto.Replay
use decentis.Crypto.Replay.{ReplayFilter, check_and_mark}
use decentis.Crypto.Replay.Window
use decentis.Crypto.Replay.Window.{AllNew, accepted, highest}
use decentis.Crypto.Replay.Refine.{run-refines, new-Tracks}
use decentis.Crypto.Session.{
  TransportState, SessionRx, replay_dropped, decryption_failed, decrypt, split_session,
}
use decentis.Crypto.Session.Nonces.{nonce_after, nonce_after-eq_iff}
use decentis.Crypto.Session.Once.{
  Packet, after_packets, opened_seqs, opened_seqs_once, decrypt-forged,
}
use decentis.Crypto.Identity.{
  Keypair, Disk, no_fault, at_write, ok, derive_virtual_ip, load_or_generate_identity,
}
use decentis.Crypto.Identity.Store.{
  IsKeypair, HasNoKey, load_or_generate_identity_atomic, load_or_generate_identity_stable,
}
use decentis.Crypto.Identity.Address.{SameOctet, derive_virtual_ip-eq_iff}

abbrev arrivals : List ℕ
arrivals = 10 ∷ 8 ∷ 8 ∷ 300 ∷ 173 ∷ 172 ∷ []

run-refines_example : Replay.run Replay.new arrivals ≡ Window.run [] arrivals
run-refines_example = run-refines arrivals

-- A cipher that prepends a tag of sixteen zeros; it opens what has that tag.
abbrev toy_write : ℕ → List ℕ → ℕ → Option (List ℕ)
toy_write nonce plaintext size =
    if leb (length plaintext + 16) size then some (replicate 16 0 ++ plaintext) else none

abbrev toy_read : ℕ → List ℕ → ℕ → Option (List ℕ)
toy_read nonce ciphertext size =
    if ltb (length ciphertext) 16 then none else some (drop 16 ciphertext)

abbrev toy : TransportState
toy = record { write_message = toy_write; read_message = toy_read }

nonce_after-eq_iff_example :
    (nonce_after toy ((1 ∷ [], 64) ∷ []) ≡ nonce_after toy ((2 ∷ [], 0) ∷ [])) ↔ (
      length {A = List ℕ × ℕ} ((1 ∷ [], 64) ∷ []) % 2 ^ 32
      ≡ length {A = List ℕ × ℕ} ((2 ∷ [], 0) ∷ []) % 2 ^ 32)
nonce_after-eq_iff_example = nonce_after-eq_iff toy ((1 ∷ [], 64) ∷ []) ((2 ∷ [], 0) ∷ [])

abbrev packets : List Packet
packets =
    (0, replicate 17 0, 64) ∷ (0, replicate 17 0, 64) ∷ (1, [], 64) ∷ (1, replicate 18 0, 64) ∷ []

-- The second packet is a replay; the third does not open, and its number is lost to the fourth.
opened-packets : opened_seqs (split_session toy).1 packets ≡ 0 ∷ []
unfolding opened_seqs split_session decrypt Replay.new check_and_mark
opened-packets = refl

opened_seqs_once_example : AllNew [] (opened_seqs (split_session toy).1 packets)
opened_seqs_once_example = opened_seqs_once toy packets

abbrev receiver : SessionRx
receiver = record { state = toy; replay_filter = Replay.new }

decrypt-forged_example :
    let (result, rx') = decrypt receiver 1000 [] 64 in
    (result ≡ decryption_failed)
    × ((packets : List Packet) (seq : ℕ) (ciphertext : List ℕ) (size' : ℕ)
        → seq + 128 ≤ 1000
        → (decrypt (after_packets rx' packets) seq ciphertext size').0 ≡ replay_dropped)
decrypt-forged_example = decrypt-forged receiver [] 1000 [] 64 new-Tracks (omega arith) refl

abbrev keys : Keypair
keys = record { public = 0 ∷ replicate 31 7; private = replicate 32 9 }

keys-IsKeypair : IsKeypair keys
keys-IsKeypair = record { public_size = refl; private_size = refl }

abbrev short_file : Disk
short_file = record { identity = some (1 ∷ 2 ∷ []); temporary = none; own_temporary = false }

load_or_generate_identity_atomic_example :
    let disk' = (load_or_generate_identity (some keys) (at_write 5) short_file).1 in
    (disk'.identity ≡ short_file.identity)
    ⊎ ((k : Keypair) × (some keys ≡ some k)
        × (disk'.identity ≡ some (k.public ++ k.private))
        × HasNoKey short_file)
load_or_generate_identity_atomic_example =
    load_or_generate_identity_atomic (some keys) (at_write 5) short_file refl

-- A key file that is its own temporary file is left half-written.
breaks-own :
    let disk' =
      (load_or_generate_identity
        (some keys)
        (at_write 5)
        (record short_file { own_temporary = true })).1 in
    disk'.identity ≡ some (0 ∷ 7 ∷ 7 ∷ 7 ∷ 7 ∷ [])
unfolding load_or_generate_identity
breaks-own = refl

abbrev saved : Disk
saved = record {
  identity = some (keys.public ++ keys.private);
  temporary = none;
  own_temporary = false;
}

generates_keys : load_or_generate_identity (some keys) no_fault short_file ≡ (ok keys, saved)
unfolding load_or_generate_identity
generates_keys = refl

load_or_generate_identity_stable_example :
    load_or_generate_identity none (at_write 0) saved ≡ (ok keys, saved)
load_or_generate_identity_stable_example =
    load_or_generate_identity_stable (some keys) no_fault short_file none (at_write 0)
      (λ g e. keys_of g e) generates_keys (λ e. cc)
  where
    keys_of : (g : Keypair) → some keys ≡ some g → IsKeypair g
    keys_of g e = record { public_size = ground (arith, e); private_size = ground (arith, e) }

derive_virtual_ip-eq_iff_example :
    (derive_virtual_ip (0 ∷ 255 ∷ 3 ∷ []) ≡ derive_virtual_ip (1 ∷ 254 ∷ 4 ∷ []))
    ↔ (SameOctet 0 1 × SameOctet 255 254)
derive_virtual_ip-eq_iff_example =
    derive_virtual_ip-eq_iff 0 255 1 254 (3 ∷ []) (4 ∷ []) (omega arith) (omega arith)

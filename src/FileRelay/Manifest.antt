-- ===== src/FileRelay/Manifest.antt =====
-- daemon/src/file_relay/manifest.rs: the announcement of a file and the header of a chunk. The
-- encoder is the crate postcard, a parameter. The count of chunks goes through `f64`: a `u64` is
-- rounded to 53 binary digits, the division by 65536 is exact, and the cast to `u32` saturates.
pub mod Count
use decentis.Prelude.{
  ℕ, zero, suc, ◌+◌, ◌-◌, ◌*◌, ◌/◌, ◌%◌, ◌^◌, min, List, Option, ltb, ◌==◌, if◌then◌else◌,
}

abbrev pub chunk_size : ℕ
chunk_size = 65_536

pub record FileManifest : Type 0 where
  pub transfer_id : List ℕ
  pub file_name : List ℕ
  pub file_size : ℕ
  pub manifest_chunk_size : ℕ
  pub total_chunks : ℕ
  pub blake3_root_hash : List ℕ

-- The header of a chunk; its bytes follow it on the wire.
pub record ChunkPayload : Type 0 where
  pub chunk_index : ℕ
  pub payload_length : ℕ

-- The distance of neighbouring `f64` values at `n`, doubled at most `fuel` times.
pub f64_step : ℕ → ℕ → ℕ → ℕ
f64_step zero step n = step
f64_step (suc fuel) step n =
    let wider = f64_step fuel (2 * step) n in if ltb n (2 ^ 53 * step) then step else wider

-- `n` rounded to a multiple of `step`, a tie to an even multiple.
pub round_half_even : ℕ → ℕ → ℕ
round_half_even n step =
    let q = n / step in
    let r = n % step in
    if ltb (2 * r) step
    then q * step
    else (if ltb step (2 * r) then (q + 1) * step else (q + q % 2) * step)

-- `n as f64` for a `u64`; at eleven digits over 53 the steps end.
unfoldable pub u64_as_f64 : ℕ → ℕ
unfolding f64_step round_half_even
u64_as_f64 n = if ltb n (2 ^ 53) then n else round_half_even n (f64_step 11 1 n)

-- `(file_size as f64 / CHUNK_SIZE as f64).ceil() as u32`
unfoldable pub count_chunks : ℕ → ℕ
unfolding u64_as_f64
count_chunks file_size = min ((u64_as_f64 file_size + (chunk_size - 1)) / chunk_size) (2 ^ 32 - 1)

unfoldable pub new : List ℕ → List ℕ → ℕ → List ℕ → FileManifest
new transfer_id file_name file_size root_hash = record {
  transfer_id = transfer_id;
  file_name = file_name;
  file_size = file_size;
  manifest_chunk_size = chunk_size;
  total_chunks = count_chunks file_size;
  blake3_root_hash = root_hash;
}

-- postcard at one type: `none` is its error.
pub record Postcard (A : Type 0) : Type 0 where
  pub to_bytes : A → Option (List ℕ)
  pub from_bytes : List ℕ → Option A

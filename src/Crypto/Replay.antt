-- ===== src/Crypto/Replay.antt =====
-- daemon/src/crypto/replay.rs: the sliding window of 128 sequence numbers. A `u64` is a plain
-- number; the `u128` bitmap drops what `<<` moves past its top. The differences are taken only
-- where they are not negative, as in the source.
pub mod Window
pub mod Mirror
pub mod Refine
use decentis.Prelude.{
  ℕ, ◌+◌, ◌-◌, ◌*◌, ◌%◌, ◌^◌, bit_and, bit_or, Bool, true, false, List, [], ◌∷◌, ltb, leb, ◌==◌,
  if◌then◌else◌,
}

pub record ReplayFilter : Type 0 where
  pub highest_seq : ℕ
  pub bitmap : ℕ
  pub started : Bool

abbrev pub window_size : ℕ
window_size = 128

unfoldable pub new : ReplayFilter
new = record { highest_seq = 0; bitmap = 0; started = false }

-- `(bitmap << diff) | 1` on a `u128`.
pub shift_and_set : ℕ → ℕ → ℕ
shift_and_set bitmap diff = bit_or (bitmap * 2 ^ diff % 2 ^ 128) 1

-- The branch for a new highest number.
pub advance : ReplayFilter → ℕ → ReplayFilter
advance f seq =
    let diff = seq - f.highest_seq in
    record f {
      highest_seq = seq;
      bitmap = if leb window_size diff then 1 else shift_and_set f.bitmap diff;
    }

-- The branch for a number that is not above the highest: the answer and the state.
pub mark_old : ReplayFilter → ℕ → Bool × ReplayFilter
mark_old f seq =
    let delta = f.highest_seq - seq in
    if leb window_size delta
    then (false, f)
    else (if bit_and f.bitmap (2 ^ delta) == 0
        then (true, record f { bitmap = bit_or f.bitmap (2 ^ delta) })
        else (false, f))

unfoldable pub check_and_mark : ReplayFilter → ℕ → Bool × ReplayFilter
unfolding advance mark_old shift_and_set
check_and_mark f seq =
    if f.started
    then (if ltb f.highest_seq seq then (true, advance f seq) else mark_old f seq)
    else (true, record { highest_seq = seq; bitmap = 1; started = true })

-- The answers to a sequence of arriving numbers.
unfoldable pub run : ReplayFilter → List ℕ → List Bool
run f [] = []
run f (seq ∷ rest) = let (ok, f') = check_and_mark f seq in ok ∷ run f' rest

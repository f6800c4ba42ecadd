-- ===== src/Crypto/Replay/Refine.antt =====
-- The bitmap implements the window: the filter answers every sequence of numbers as the history
-- of accepted numbers does.
use decentis.Prelude.{
  ℕ, ◌+◌, ◌-◌, ◌^◌, ◌≤◌, ◌<◌, bit_and, bit_or, Bool, true, false, List, [], ◌∷◌, ltb, leb, ◌==◌,
  not, if◌then◌else◌, ◌≡◌, refl, arith, sym,
}
use decentis.Crypto.Replay.{
  ReplayFilter, window_size, new, shift_and_set, advance, mark_old, check_and_mark, run,
}
use decentis.Crypto.Replay.Window
use decentis.Crypto.Replay.Window.{
  highest, contains, admits, record_accepted, contains-le-highest, AllNew, accepted,
  accepted-run-AllNew,
}
use decentis.Crypto.Replay.Mirror.{
  Mirrors, wipe-Mirrors, shift-Mirrors, mark-Mirrors, seen-iff-contains, bit-one-Mirrors,
}

-- The filter's state stands for the history `h`.
abbrev pub Tracks : ReplayFilter → List ℕ → Type 0
Tracks f [] = f.started ≡ false
Tracks f (x ∷ h) =
    (f.started ≡ true) × (f.highest_seq ≡ highest (x ∷ h)) × Mirrors f.bitmap f.highest_seq (x ∷ h)

-- One call of the filter: the answer of the window, and a state that stands for the new history.
pub record Agrees (h : List ℕ) (seq : ℕ) (result : Bool × ReplayFilter) : Type 0 where
  pub answer : result.0 ≡ admits h seq
  pub tracks : Tracks result.1 (record_accepted h seq)

module _ (h : List ℕ) (seq : ℕ) (f : ReplayFilter) where
  accepts : admits h seq ≡ true → Tracks f (seq ∷ h) → Agrees h seq (true, f)
  accepts e t = record { answer = sym e; tracks = rw e t }

  rejects : admits h seq ≡ false → Tracks f h → Agrees h seq (false, f)
  rejects e t = record { answer = sym e; tracks = rw e t }

advance-Agrees :
    (f : ReplayFilter) (x : ℕ) (h : List ℕ) (seq : ℕ)
    → Tracks f (x ∷ h)
    → f.highest_seq < seq
    → Agrees (x ∷ h) seq (true, advance f seq)
unfolding advance
advance-Agrees f x h seq t up =
    accepts (x ∷ h) seq (advance f seq) (ground arith)
      (t.0, ground arith, mirrors (leb window_size (seq - f.highest_seq)) refl)
  where
    mirrors :
        (far : Bool)
        → leb window_size (seq - f.highest_seq) ≡ far
        → Mirrors
            (if far then 1 else shift_and_set f.bitmap (seq - f.highest_seq))
            seq
            (seq ∷ x ∷ h)
    mirrors true e = wipe-Mirrors f.bitmap f.highest_seq (x ∷ h) t.1 t.2 seq (ground arith)
    mirrors false e =
        shift-Mirrors f.bitmap f.highest_seq (x ∷ h) t.1 t.2 seq (seq - f.highest_seq) (omega arith)
          (omega arith)

mark_old-Agrees :
    (f : ReplayFilter) (x : ℕ) (h : List ℕ) (seq : ℕ)
    → Tracks f (x ∷ h)
    → seq ≤ f.highest_seq
    → Agrees (x ∷ h) seq (mark_old f seq)
unfolding mark_old
mark_old-Agrees f x h seq t below = by_age (leb window_size delta) refl
  where
    delta : ℕ
    delta = f.highest_seq - seq

    at : seq + delta ≡ f.highest_seq
    at = omega arith

    by_mark :
        (seen : Bool)
        → contains (x ∷ h) seq ≡ seen
        → delta < window_size
        → Agrees (x ∷ h) seq (
            if not seen
            then (true, record f { bitmap = bit_or f.bitmap (2 ^ delta) })
            else (false, f))
    by_mark true e lt = rejects (x ∷ h) seq f (ground arith) t
    by_mark false e lt =
        accepts (x ∷ h) seq (record f { bitmap = bit_or f.bitmap (2 ^ delta) }) (ground arith)
          (t.0, ground arith, mark-Mirrors f.bitmap f.highest_seq seq delta (x ∷ h) at t.2)

    by_age :
        (old : Bool)
        → leb window_size delta ≡ old
        → Agrees (x ∷ h) seq (
            if old
            then (false, f)
            else (if bit_and f.bitmap (2 ^ delta) == 0
                then (true, record f { bitmap = bit_or f.bitmap (2 ^ delta) })
                else (false, f)))
    by_age true e = rejects (x ∷ h) seq f (ground arith) t
    by_age false e =
        rw (seen-iff-contains f.bitmap f.highest_seq seq delta (x ∷ h) at (ground arith) t.2)
          (by_mark (contains (x ∷ h) seq) refl (ground arith))

pub check_and_mark-Agrees :
    (f : ReplayFilter) (h : List ℕ) (seq : ℕ) → Tracks f h → Agrees h seq (check_and_mark f seq)
unfolding check_and_mark
check_and_mark-Agrees f [] seq t =
    rw t (accepts [] seq _ refl (refl, omega arith, bit-one-Mirrors seq))
check_and_mark-Agrees f (x ∷ h) seq t = by_start f.started t.0
  where
    by_order :
        (up : Bool)
        → ltb f.highest_seq seq ≡ up
        → Agrees (x ∷ h) seq (if up then (true, advance f seq) else mark_old f seq)
    by_order true e = advance-Agrees f x h seq t (ground arith)
    by_order false e = mark_old-Agrees f x h seq t (ground arith)

    by_start :
        (b : Bool)
        → b ≡ true
        → Agrees (x ∷ h) seq (
            if b
            then (if ltb f.highest_seq seq then (true, advance f seq) else mark_old f seq)
            else (true, record { highest_seq = seq; bitmap = 1; started = true }))
    by_start true e = by_order (ltb f.highest_seq seq) refl
    by_start false e = cc

-- A new filter stands for the empty history.
pub new-Tracks : Tracks new []
unfolding new
new-Tracks = refl

run-Tracks : (f : ReplayFilter) (h seqs : List ℕ) → Tracks f h → run f seqs ≡ Window.run h seqs
unfolding run Window.run
run-Tracks f h [] t = refl
run-Tracks f h (seq ∷ rest) t =
    let step = check_and_mark-Agrees f h seq t in
    rw (step.answer, run-Tracks (check_and_mark f seq).1 (record_accepted h seq) rest step.tracks)

-- The filter answers every sequence of arriving numbers as the history of accepted numbers does:
-- a number is accepted exactly if it is the first, above all accepted ones, or less than 128
-- below the highest and not accepted before.
pub run-refines : (seqs : List ℕ) → run new seqs ≡ Window.run [] seqs
run-refines seqs = run-Tracks new [] seqs new-Tracks

-- ===== src/Crypto/Session/Once.antt =====
-- No sequence number is opened twice, whatever packets arrive; and what a forged packet can do to
-- the filter, which marks a number before the packet is authenticated.
use decentis.Prelude.{
  ℕ, ◌+◌, ◌≤◌, ◌<◌, Bool, true, false, List, [], ◌∷◌, Option, some, none, if◌then◌else◌, ◌≡◌, refl,
  sym, ◌∙◌, arith, Bool-cases, inl, inr,
}
use decentis.Crypto.Replay.{check_and_mark}
use decentis.Crypto.Replay.Window.{
  contains, highest, admits, record_accepted, admits-contains, AllNew,
}
use decentis.Crypto.Replay.Refine.{Tracks, check_and_mark-Agrees, new-Tracks}
use decentis.Crypto.Session.{
  TransportState, SessionRx, DecryptResult, replay_dropped, decryption_failed, opened, open_result,
  decrypt, split_session,
}

-- A packet: its number, its bytes, and the size of the buffer for its contents.
abbrev pub Packet : Type 0
Packet = ℕ × List ℕ × ℕ

abbrev add_opened : ℕ → DecryptResult → List ℕ → List ℕ
add_opened seq (opened _) rest = seq ∷ rest
add_opened seq _ rest = rest

-- The numbers of the packets that were opened, in their order.
unfoldable pub opened_seqs : SessionRx → List Packet → List ℕ
opened_seqs rx [] = []
opened_seqs rx ((seq, ciphertext, size) ∷ rest) =
    let (result, rx') = decrypt rx seq ciphertext size in
    add_opened seq result (opened_seqs rx' rest)

-- Fewer accepted numbers forbid less.
pub AllNew-weaken :
    (h h' l : List ℕ)
    → ((seq : ℕ) → contains h' seq ≡ true → contains h seq ≡ true)
    → AllNew h l
    → AllNew h' l
AllNew-weaken h h' [] sub a = tt
AllNew-weaken h h' (seq ∷ rest) sub a = (
  ground (arith, a.0, sub seq),
  AllNew-weaken (seq ∷ h) (seq ∷ h') rest (λ x c. ground (arith, sub x)) a.1,
)

-- A call of `decrypt` on a filter that stands for the history `h`.
pub decrypt-admits :
    (rx : SessionRx) (h : List ℕ) (seq : ℕ) (ciphertext : List ℕ) (size : ℕ)
    → Tracks rx.replay_filter h
    → decrypt rx seq ciphertext size ≡ (
      if admits h seq
          then open_result (rx.state.read_message seq ciphertext size)
          else replay_dropped,
      record rx { replay_filter = (check_and_mark rx.replay_filter seq).1 },
    )
unfolding decrypt
decrypt-admits rx h seq ciphertext size t =
    rw (← (check_and_mark-Agrees rx.replay_filter h seq t).answer)
      (by_answer (check_and_mark rx.replay_filter seq).0)
  where
    rx' : SessionRx
    rx' = record rx { replay_filter = (check_and_mark rx.replay_filter seq).1 }

    by_answer :
        (fresh : Bool)
        → ◌≡◌ {A = DecryptResult × SessionRx}
            (elim fresh [
              | false ↦ (replay_dropped, rx')
              | true ↦ (open_result (rx.state.read_message seq ciphertext size), rx')
            ])
            (
              if fresh
                  then open_result (rx.state.read_message seq ciphertext size)
                  else replay_dropped,
              rx',
            )
    by_answer true = refl
    by_answer false = refl

opened_seqs-AllNew :
    (rx : SessionRx) (h : List ℕ) (packets : List Packet)
    → Tracks rx.replay_filter h
    → AllNew h (opened_seqs rx packets)
unfolding opened_seqs
opened_seqs-AllNew rx h [] t = tt
opened_seqs-AllNew rx h ((seq, ciphertext, size) ∷ rest) t =
    rw (decrypt-admits rx h seq ciphertext size t) (
      by_admits (admits h seq) refl (rx.state.read_message seq ciphertext size) (
        opened_seqs-AllNew rx' (record_accepted h seq) rest
          (check_and_mark-Agrees rx.replay_filter h seq t).tracks))
  where
    rx' : SessionRx
    rx' = record rx { replay_filter = (check_and_mark rx.replay_filter seq).1 }

    by_admits :
        (b : Bool)
        → admits h seq ≡ b
        → (plaintext : Option (List ℕ)) → AllNew (if b then seq ∷ h else h) (opened_seqs rx' rest)
        → AllNew h (
            add_opened seq
              (if b then open_result plaintext else replay_dropped)
              (opened_seqs rx' rest))
    by_admits true e (some plaintext) new = (
      elim (Bool-cases (contains h seq)) [
        | inl old ↦ absurd (cc (sym e ∙ admits-contains h seq old))
        | inr fresh ↦ fresh
      ],
      new,
    )
    by_admits true e none new =
        AllNew-weaken (seq ∷ h) h (opened_seqs rx' rest) (λ x c. ground arith) new
    by_admits false e plaintext new = new

-- A receiver opens no sequence number twice, whatever packets arrive and whatever the cipher
-- makes of them.
pub opened_seqs_once :
    (transport : TransportState) (packets : List Packet)
    → AllNew [] (opened_seqs (split_session transport).1 packets)
unfolding split_session
opened_seqs_once transport packets =
    opened_seqs-AllNew (split_session transport).1 [] packets new-Tracks

-- The receiver after some packets.
unfoldable pub after_packets : SessionRx → List Packet → SessionRx
after_packets rx [] = rx
after_packets rx ((seq, ciphertext, size) ∷ rest) =
    after_packets (decrypt rx seq ciphertext size).1 rest

admits_far : (h : List ℕ) (seq top : ℕ) → seq + 128 ≤ top → top ≤ highest h → admits h seq ≡ false
admits_far [] seq top far up = absurd (omega arith)
admits_far (x ∷ h) seq top far up = ground arith

highest-record_accepted :
    (h : List ℕ) (seq top : ℕ) → top ≤ highest h → top ≤ highest (record_accepted h seq)
highest-record_accepted h seq top up = ground arith

-- Once a number is accepted, whatever packets come, all that is 128 or more behind it is dropped.
dropped-behind :
    (packets : List Packet) (rx : SessionRx) (h : List ℕ) (top seq : ℕ) (ciphertext : List ℕ)
    (size : ℕ)
    → Tracks rx.replay_filter h
    → top ≤ highest h
    → seq + 128 ≤ top
    → (decrypt (after_packets rx packets) seq ciphertext size).0 ≡ replay_dropped
unfolding after_packets
dropped-behind [] rx h top seq ciphertext size t up far =
    rw (decrypt-admits rx h seq ciphertext size t, admits_far h seq top far up) refl
dropped-behind ((n, bytes, room) ∷ rest) rx h top seq ciphertext size t up far =
    rw (decrypt-admits rx h n bytes room t) (
      dropped-behind rest (record rx { replay_filter = (check_and_mark rx.replay_filter n).1 })
        (record_accepted h n) top seq ciphertext size
        (check_and_mark-Agrees rx.replay_filter h n t).tracks (highest-record_accepted h n top up)
        far)

-- The filter marks a number before the packet is authenticated: after a packet whose number is
-- ahead of the history and that does not decrypt, whatever packets come next, every packet that is
-- 128 or more behind that number is dropped.
pub decrypt-forged :
    (rx : SessionRx) (h : List ℕ) (forged : ℕ) (junk : List ℕ) (size : ℕ)
    → Tracks rx.replay_filter h
    → highest h < forged
    → rx.state.read_message forged junk size ≡ none
    → let (result, rx') = decrypt rx forged junk size in
      (result ≡ decryption_failed)
      × ((packets : List Packet) (seq : ℕ) (ciphertext : List ℕ) (size' : ℕ)
          → seq + 128 ≤ forged
          → (decrypt (after_packets rx' packets) seq ciphertext size').0 ≡ replay_dropped)
decrypt-forged rx h forged junk size t ahead fails =
    rw (decrypt-admits rx h forged junk size t, admitted, fails)
      (
        refl,
        λ packets seq ciphertext size' behind.
            dropped-behind packets rx' (forged ∷ h) forged seq ciphertext size' tracks (omega arith)
              behind,
      )
  where
    rx' : SessionRx
    rx' = record rx { replay_filter = (check_and_mark rx.replay_filter forged).1 }

    admits_ahead : (h : List ℕ) → highest h < forged → admits h forged ≡ true
    admits_ahead [] lt = refl
    admits_ahead (x ∷ h) lt = ground arith

    admitted : admits h forged ≡ true
    admitted = admits_ahead h ahead

    tracks : Tracks rx'.replay_filter (forged ∷ h)
    tracks = rw admitted at (check_and_mark-Agrees rx.replay_filter h forged t).tracks

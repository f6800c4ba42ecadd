-- ===== src/Transport/Stream/Steps.antt =====
-- What the sender's single writes do to a stream that takes them.
use decentis.Prelude.{
  ℕ, ◌+◌, ◌-◌, ◌≤◌, List, [], ◌++◌, length, u32_to_be_bytes, ◌≡◌, ap, ◌∙◌, arith, length-append,
  append_assoc,
}
use decentis.Transport.Frame.{encode}
use decentis.Transport.Stream.Send.{
  Sender, done, failed, M, ◌>>=◌, frame_header, write_all, write_frame,
}
use decentis.Transport.Stream.Wire.{frame}

-- A step that succeeds hands its result on.
pub bind-done :
    {A B : Type 0} (m : M A) (k : A → M B) (s : Sender) {a : A} {s' : Sender}
    → m s ≡ done a s'
    → (m >>= k) s ≡ k a s'
bind-done m k s e = ap (λ r. elim r [ done a s' ↦ k a s' | failed err s' ↦ failed err s' ]) e

-- The sender after `bytes` have gone out.
abbrev pub push : List ℕ → Sender → Sender
push bytes s = record s { sent = s.sent ++ bytes; room = s.room - length bytes }

push-push : (a b : List ℕ) (s : Sender) → push b (push a s) ≡ push (a ++ b) s
push-push a b s = ground (arith, append_assoc s.sent a b, length-append a b)

pub write_all-push :
    (bytes : List ℕ) (s : Sender)
    → length bytes ≤ s.room
    → write_all bytes s ≡ done tt (push bytes s)
unfolding write_all
write_all-push bytes s h = ground arith

pub write_frame-push :
    (frame_type seq_num : ℕ) (body : List ℕ) (s : Sender)
    → length (frame frame_type seq_num body) ≤ s.room
    → write_frame frame_type seq_num body s ≡ done tt (push (frame frame_type seq_num body) s)
unfolding write_frame frame
write_frame-push frame_type seq_num body s h =
    bind-done (write_all head) _ s (write_all-push head s (omega (arith, total)))
    ∙ bind-done (write_all size) _ (push head s)
        (write_all-push size (push head s) (omega (arith, total)))
    ∙ write_all-push body (push size (push head s)) (omega (arith, total))
    ∙ ap (done tt) (
        ap (push body) (push-push head size s)
        ∙ push-push (head ++ size) body s
        ∙ ap (λ bytes. push bytes s) (append_assoc head size body))
  where
    head : List ℕ
    head = encode (frame_header frame_type seq_num) []

    size : List ℕ
    size = u32_to_be_bytes (length body)

    total : length (head ++ (size ++ body)) ≡ length head + (length size + length body)
    total = omega (arith, length-append head (size ++ body), length-append size body)

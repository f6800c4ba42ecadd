-- ===== src/Transport/Stream/DiskOps/Frames.antt =====
-- The reads of a frame: two turns that differ in what they do with the frame read the same one.
use decentis.Prelude.{
  ℕ, Bool, true, false, List, [], Option, some, none, length, take, drop, ltb, if◌then◌else◌, ◌≡◌,
  ◌⊎◌, inl, inr, refl, ◌∙◌,
}
use decentis.Transport.Frame.{FrameHeader, Read, decode}
use decentis.Transport.Stream.Receive.{
  with_frame, Receiver, or_break, Turn, go, break, M, ◌>>=◌, try_read, read_or_break,
  decode_or_break, size_of,
}

-- The reads of a frame leave the writer and the disk alone.
abbrev pub Keeps : Receiver → Receiver → Type 0
Keeps r r' = (r'.writer ≡ r.writer) × (r'.faults ≡ r.faults)

-- A step either breaks out or goes on, and keeps them in both cases.
abbrev Reads : {A : Type 0} → Receiver → Turn A → Type 0
Reads {A} r x =
    ((r' : Receiver) × (x ≡ break r') × Keeps r r')
    ⊎ ((a : A) × (r' : Receiver) × (x ≡ go a r') × Keeps r r')

read_or_break-Reads : (n : ℕ) (r : Receiver) → Reads r (read_or_break n r)
unfolding read_or_break try_read
read_or_break-Reads n r = by_test (ltb (length r.input) n)
  where
    by_test :
        (short : Bool)
        → let read : Turn (Option (List ℕ)) =
            if short
            then go none (record r { input = [] })
            else go (some (take n r.input)) (record r { input = drop n r.input }) in
          Reads {A = List ℕ} r (elim read [ go a r' ↦ or_break a r' | break r' ↦ break r' ])
    by_test true = inl (record r { input = [] }, refl, (refl, refl))
    by_test false = inr (take n r.input, record r { input = drop n r.input }, refl, (refl, refl))

decode_or_break-Reads : (bytes : List ℕ) (r : Receiver) → Reads r (decode_or_break bytes r)
unfolding decode_or_break
decode_or_break-Reads bytes r = by_read (decode bytes)
  where
    by_read :
        (x : Read FrameHeader)
        → Reads {A = FrameHeader} r (elim x [
          | Read.done h rest ↦ go h r
          | Read.failed e rest ↦ break r
          | Read.panicked ↦ break r
        ])
    by_read (Read.done h rest) = inr (h, r, refl, (refl, refl))
    by_read (Read.failed e rest) = inl (r, refl, (refl, refl))
    by_read Read.panicked = inl (r, refl, (refl, refl))

module _ {B C : Type 0} (k : ℕ → List ℕ → M B) (l : ℕ → List ℕ → M C) where
  -- Two turns that read the same frame either both break out before its end, or both hand it on.
  abbrev pub Together : Receiver → Turn B → Turn C → Type 0
  Together r x y =
      ((r' : Receiver) × (x ≡ break r') × (y ≡ break r') × Keeps r r')
      ⊎ ((frame_type : ℕ) × (payload_buf : List ℕ) × (r' : Receiver) × (x
            ≡ k frame_type payload_buf r')
          × (y ≡ l frame_type payload_buf r')
          × Keeps r r')

  bind-Together :
      {A : Type 0} (m : M A) (f : A → M B) (g : A → M C) (r r1 : Receiver)
      → Keeps r r1
      → Reads r1 (m r1)
      → ((a : A) (r2 : Receiver) → Keeps r r2 → Together r (f a r2) (g a r2))
      → Together r ((m >>= f) r1) ((m >>= g) r1)
  bind-Together m f g r r1 kept (inl (r', e, kept')) later =
      inl (r', rw (e, ◌>>=◌) refl, rw (e, ◌>>=◌) refl, (kept'.0 ∙ kept.0, kept'.1 ∙ kept.1))
  bind-Together m f g r r1 kept (inr (a, r', e, kept')) later =
      rw (e, ◌>>=◌) (later a r' (kept'.0 ∙ kept.0, kept'.1 ∙ kept.1))

  pub with_frame-Together : (r : Receiver) → Together r (with_frame k r) (with_frame l r)
  with_frame-Together r =
      bind-Together (read_or_break 10) _ _ r r (refl, refl) (read_or_break-Reads 10 r)
        (λ header_buf r1 kept1.
          bind-Together (decode_or_break header_buf) _ _ r r1 kept1
            (decode_or_break-Reads header_buf r1)
            (λ header r2 kept2.
              bind-Together (read_or_break 4) _ _ r r2 kept2 (read_or_break-Reads 4 r2)
                (λ size_buf r3 kept3.
                  bind-Together (read_or_break (size_of size_buf)) _ _ r r3 kept3
                    (read_or_break-Reads (size_of size_buf) r3)
                    (λ payload_buf r4 kept4.
                      inr (header.frame_type, payload_buf, r4, refl, refl, kept4)))))

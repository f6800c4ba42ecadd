-- ===== src/Transport/Stream/Termination.antt =====
-- The receiving task ends on every input: a turn that goes on takes fourteen bytes or more.
use decentis.Prelude.{
  ℕ, zero, suc, ◌+◌, ◌≤◌, ◌<◌, List, [], Option, some, none, length, take, drop, ltb, ◌≡◌, ◌⊎◌, inl,
  inr, Bool-cases, refl, arith, length-drop,
}
use decentis.Transport.Frame.{FrameHeader}
use decentis.Transport.Stream.Receive.{
  Receiver, Turn, go, break, M, ◌>>=◌, try_read, read_or_break, decode_or_break, on_manifest,
  on_chunk, dispatch, turn, serve, size_of, store_chunk, on_payload, with_writer,
}
use decentis.FileRelay.Manifest.{FileManifest, ChunkPayload, Postcard}
use decentis.FileRelay.Writer.{DiskWriter}

>>=-eq-go :
    {A B : Type 0} (m : M A) (k : A → M B) (r : Receiver) {b : B} {r' : Receiver}
    → (m >>= k) r ≡ go b r'
    → (a : A) × (r1 : Receiver) × (m r ≡ go a r1) × (k a r1 ≡ go b r')
>>=-eq-go {A} m k r {b} {r'} e = by_result (m r) refl e
  where
    by_result :
        (t : Turn A)
        → m r ≡ t
        → (elim t [ go a r1 ↦ k a r1 | break r1 ↦ break r1 ]) ≡ go b r'
        → (a : A) × (r1 : Receiver) × (m r ≡ go a r1) × (k a r1 ≡ go b r')
    by_result (go a r1) e f = (a, r1, e, f)
    by_result (break r1) e f = cc

-- A read takes what it asks for, or all there is.
try_read-cases :
    (n : ℕ) (r : Receiver)
    → (try_read n r ≡ go none (record r { input = [] }))
      ⊎ ((n ≤ length r.input)
          × (try_read n r ≡ go (some (take n r.input)) (record r { input = drop n r.input })))
unfolding try_read
try_read-cases n r = elim (Bool-cases (ltb (length r.input) n)) [
  | inl short ↦ inl (rw short refl)
  | inr enough ↦ inr (ground arith, rw enough refl)
]

try_read-length :
    (n : ℕ) (r : Receiver) {o : Option (List ℕ)} {r' : Receiver}
    → try_read n r ≡ go o r'
    → length r'.input ≤ length r.input
try_read-length n r e = elim (try_read-cases n r) [
  | inl short ↦ ground (arith, short)
  | inr long ↦ ground (arith, long.1, length-drop n r.input)
]

read_or_break-length :
    (n : ℕ) (r : Receiver) {bytes : List ℕ} {r' : Receiver}
    → read_or_break n r ≡ go bytes r'
    → length r'.input + n ≡ length r.input
unfolding read_or_break
read_or_break-length n r e =
    let (o, r1, read, kept) = >>=-eq-go (try_read n) _ r e in
    elim (try_read-cases n r) [
      | inl short ↦ absurd (ground (arith, read, kept, short))
      | inr long ↦ ground (arith, read, kept, long.0, long.1, length-drop n r.input)
    ]

decode_or_break-same :
    (bytes : List ℕ) (r : Receiver) {h : FrameHeader} {r' : Receiver}
    → decode_or_break bytes r ≡ go h r'
    → length r'.input ≡ length r.input
unfolding decode_or_break
decode_or_break-same bytes r e = ground arith

module _ (manifests : Postcard FileManifest) (payloads : Postcard ChunkPayload) where
  on_manifest-length :
      (body : List ℕ) (r : Receiver) {u : Unit {0}} {r' : Receiver}
      → on_manifest manifests payloads body r ≡ go u r'
      → length r'.input ≤ length r.input
  unfolding on_manifest
  on_manifest-length body r e = ground arith

  store_chunk-length :
      (w : DiskWriter) (meta : ChunkPayload) (o : Option (List ℕ)) (r : Receiver) {u : Unit {0}}
      {r' : Receiver}
      → store_chunk manifests payloads w meta o r ≡ go u r'
      → length r'.input ≤ length r.input
  store_chunk-length w meta none r e = ground arith
  store_chunk-length w meta (some raw) r e = ground arith

  on_payload-length :
      (w : DiskWriter) (o : Option ChunkPayload) (r : Receiver) {u : Unit {0}} {r' : Receiver}
      → on_payload manifests payloads w o r ≡ go u r'
      → length r'.input ≤ length r.input
  on_payload-length w none r e = ground arith
  on_payload-length w (some meta) r e =
      let (o, r1, read, stored) = >>=-eq-go (try_read meta.payload_length) _ r e in
      omega
        (arith, try_read-length meta.payload_length r read, store_chunk-length w meta o r1 stored)

  with_writer-length :
      (body : List ℕ) (o : Option DiskWriter) (r : Receiver) {u : Unit {0}} {r' : Receiver}
      → with_writer manifests payloads body o r ≡ go u r'
      → length r'.input ≤ length r.input
  with_writer-length body none r e = ground arith
  with_writer-length body (some w) r e = on_payload-length w (payloads.from_bytes body) r e

  dispatch-length :
      (frame_type : ℕ) (body : List ℕ) (r : Receiver) {u : Unit {0}} {r' : Receiver}
      → dispatch manifests payloads frame_type body r ≡ go u r'
      → length r'.input ≤ length r.input
  unfolding dispatch on_chunk
  dispatch-length frame_type body r {u} {r'} e = ground (
    arith,
    on_manifest-length body r {u = u} {r' = r'},
    with_writer-length body r.writer r {u = u} {r' = r'},
  )

  -- A turn that goes on has taken a header and a length field, fourteen bytes at least.
  turn-length :
      (r : Receiver) {u : Unit {0}} {r' : Receiver}
      → turn manifests payloads r ≡ go u r'
      → length r'.input + 14 ≤ length r.input
  unfolding turn
  turn-length r e =
      let (head, r1, got_head, e1) = >>=-eq-go (read_or_break 10) _ r e in
      let (h, r2, decoded, e2) = >>=-eq-go (decode_or_break head) _ r1 e1 in
      let (size, r3, got_size, e3) = >>=-eq-go (read_or_break 4) _ r2 e2 in
      let (body, r4, got_body, e4) = >>=-eq-go (read_or_break (size_of size)) _ r3 e3 in
      omega (
        arith,
        read_or_break-length 10 r got_head,
        decode_or_break-same head r1 decoded,
        read_or_break-length 4 r2 got_size,
        read_or_break-length (size_of size) r3 got_body,
        dispatch-length h.frame_type body r4 e4,
      )

  -- On every input the task ends: fuel above the number of bytes is enough.
  pub serve_total :
      (fuel : ℕ) (r : Receiver)
      → length r.input < fuel
      → (r' : Receiver) × (serve manifests payloads fuel r ≡ some r')
  unfolding serve
  serve_total zero r h = absurd (omega arith)
  serve_total (suc fuel) r h =
      by_turn (λ r1 lt. serve_total fuel r1 lt) (turn manifests payloads r) refl
    where
      by_turn :
          ((r1 : Receiver)
            → length r1.input < fuel
            → (r' : Receiver) × (serve manifests payloads fuel r1 ≡ some r'))
          → (t : Turn (Unit {0})) → turn manifests payloads r ≡ t
          → (r' : Receiver) × ((elim t [
            | go _ r1 ↦ serve manifests payloads fuel r1
            | break r1 ↦ some r1
          ])
              ≡ some r')
      by_turn later (go u r1) e = later r1 (omega (arith, turn-length r e))
      by_turn later (break r1) e = (r1, refl)

-- ===== src/Transport/Stream/Receiving.antt =====
-- What the receiving task makes of the wire form of a transfer.
use decentis.Prelude.{
  ℕ, ◌+◌, ◌%◌, ◌/◌, ◌<◌, ◌^◌, List, [], ◌++◌, some, length, if◌then◌else◌, u32_to_be_bytes,
  u32_from_be_bytes, ◌≡◌, refl, sym, ap, ◌∙◌, arith, length-append, append_assoc, append-nil,
  take-length_append, drop-length_append,
}
use decentis.Transport.Frame
use decentis.Transport.Frame.{
  FrameHeader, encode, decode, type_file_manifest, type_file_chunk_payload,
}
use decentis.Transport.Frame.Codec.{decode-encode, length-encode}
use decentis.Transport.Stream.Send.{frame_header}
use decentis.Transport.Stream.Receive.{
  Receiver, go, break, M, ◌>>=◌, try_read, read_or_break, decode_or_break, with_frame, on_manifest,
  on_chunk, dispatch, turn,
}
use decentis.Transport.Stream.Wire.{Encodes, EncodesHeaders, frame, header_of, chunk_wire}
use decentis.FileRelay.Manifest.{FileManifest, ChunkPayload, Postcard, chunk_size}
use decentis.FileRelay.Slice.{slice, length-slice}
use decentis.FileRelay.Writer
use decentis.FileRelay.Writer.{DiskWriter, Fault, no_fault, write_chunk, is_complete}

-- A step that goes on hands its result on.
bind-go :
    {A B : Type 0} (m : M A) (k : A → M B) (r : Receiver) {a : A} {r' : Receiver}
    → m r ≡ go a r'
    → (m >>= k) r ≡ k a r'
bind-go m k r e = ap (λ t. elim t [ go a r' ↦ k a r' | break r' ↦ break r' ]) e

-- A read of as many bytes as stand in front takes those.
try_read-append :
    (n : ℕ) (bytes rest : List ℕ) (r : Receiver)
    → r.input ≡ bytes ++ rest
    → n ≡ length bytes
    → try_read n r ≡ go (some bytes) (record r { input = rest })
unfolding try_read
try_read-append n bytes rest r at e =
    rw (at, take-length_append n bytes rest e, drop-length_append n bytes rest e)
      (ground (arith, length-append bytes rest))

read_or_break-append :
    (n : ℕ) (bytes rest : List ℕ) (r : Receiver)
    → r.input ≡ bytes ++ rest
    → n ≡ length bytes
    → read_or_break n r ≡ go bytes (record r { input = rest })
unfolding read_or_break
read_or_break-append n bytes rest r at e =
    bind-go (try_read n) _ r (try_read-append n bytes rest r at e)

decode_or_break-done :
    (bytes : List ℕ) (r : Receiver) {h : FrameHeader} {rest : List ℕ}
    → decode bytes ≡ Frame.done h rest
    → decode_or_break bytes r ≡ go h r
unfolding decode_or_break
decode_or_break-done bytes r e = rw (e, decode_or_break) refl

-- A well-formed frame in front is taken, and handed on with its type.
pub with_frame-frame :
    {A : Type 0} (k : ℕ → List ℕ → M A) (frame_type seq_num : ℕ) (body rest : List ℕ) (r : Receiver)
    → frame_type < 256
    → seq_num < 2 ^ 32
    → length body < 2 ^ 32
    → r.input ≡ frame frame_type seq_num body ++ rest
    → with_frame k r ≡ k frame_type body (record r { input = rest })
unfolding frame
with_frame-frame k frame_type seq_num body rest r type_lt seq_lt body_lt at =
    bind-go (read_or_break 10) _ r (
      read_or_break-append 10 head (size ++ (body ++ rest)) r
        (at
          ∙ append_assoc head (size ++ body) rest
          ∙ ap (λ xs. head ++ xs) (append_assoc size body rest))
        (sym (length-encode (frame_header frame_type seq_num))))
    ∙ bind-go (decode_or_break head) _ r1 accepted
    ∙ bind-go (read_or_break 4) _ r1 (read_or_break-append 4 size (body ++ rest) r1 refl refl)
    ∙ bind-go (read_or_break announced) _ r2
        (read_or_break-append announced body rest r2 refl (omega arith))
  where
    head : List ℕ
    head = encode (frame_header frame_type seq_num) []

    n : ℕ
    n = length body

    size : List ℕ
    size = u32_to_be_bytes n

    announced : ℕ
    announced = u32_from_be_bytes (n / 2 ^ 24 % 256) (n / 2 ^ 16 % 256) (n / 256 % 256) (n % 256)

    r1 : Receiver
    r1 = record r { input = size ++ (body ++ rest) }

    r2 : Receiver
    r2 = record r { input = body ++ rest }

    decodes : decode head ≡ Frame.done (frame_header frame_type seq_num) []
    decodes =
        sym (ap decode (append-nil head))
        ∙ decode-encode (frame_header frame_type seq_num) [] (record {
          frame_type_lt = type_lt;
          flags_lt = omega arith;
          stream_id_lt = omega arith;
          seq_num_lt = seq_lt;
        })

    accepted : decode_or_break head r1 ≡ go (frame_header frame_type seq_num) r1
    accepted = decode_or_break-done head r1 decodes

module _ (manifests : Postcard FileManifest) (payloads : Postcard ChunkPayload)
    (header_bytes : ChunkPayload → List ℕ) (encodes : EncodesHeaders payloads header_bytes)
    (content : List ℕ) where
  -- The first turn of a transfer makes the writer.
  pub turn-manifest :
      (m : FileManifest) (manifest_bytes rest : List ℕ) (r : Receiver) {w : DiskWriter}
      → Encodes manifests m manifest_bytes
      → r.faults ≡ []
      → Writer.new no_fault m ≡ some w
      → r.input ≡ frame type_file_manifest 0 manifest_bytes ++ rest
      → turn manifests payloads r ≡ go tt (record r { input = rest; writer = some w })
  unfolding turn dispatch on_manifest
  turn-manifest m manifest_bytes rest r coded calm made at =
      with_frame-frame (dispatch manifests payloads) type_file_manifest 0 manifest_bytes rest r
        (omega arith) (omega arith) coded.short at
      ∙ ground (arith, coded.decoded, calm, made)

  -- The writer after a chunk, and the count of completion messages.
  abbrev pub after_chunk : DiskWriter → ℕ → List ℕ → Receiver → Receiver
  after_chunk w i rest r =
      let w' = (write_chunk no_fault w i (slice chunk_size content i)).1 in
      record r {
        input = rest;
        writer = some w';
        reports = if is_complete w' then r.reports + 1 else r.reports;
      }

  on_chunk-after :
      (w : DiskWriter) (i : ℕ) (rest : List ℕ) (r : Receiver)
      → i < 2 ^ 32
      → r.writer ≡ some w
      → r.faults ≡ []
      → r.input ≡ slice chunk_size content i ++ rest
      → on_chunk manifests payloads (header_bytes (header_of header_bytes content i)) r
        ≡ go tt (after_chunk w i rest r)
  unfolding on_chunk
  on_chunk-after w i rest r lt has calm at = ground (arith, has, calm, coded.decoded, taken)
    where
      coded :
          Encodes payloads
            (header_of header_bytes content i)
            (header_bytes (header_of header_bytes content i))
      coded =
          encodes (header_of header_bytes content i) lt
            (omega (arith, length-slice chunk_size i content))

      taken :
          try_read (length (slice chunk_size content i)) r
          ≡ go (some (slice chunk_size content i)) (record r { input = rest })
      taken =
          try_read-append (length (slice chunk_size content i)) (slice chunk_size content i) rest r
            at refl

  pub turn-chunk :
      (w : DiskWriter) (i : ℕ) (rest : List ℕ) (r : Receiver)
      → i < 2 ^ 32
      → r.writer ≡ some w
      → r.faults ≡ []
      → r.input ≡ chunk_wire header_bytes content i ++ rest
      → turn manifests payloads r ≡ go tt (after_chunk w i rest r)
  unfolding turn dispatch chunk_wire
  turn-chunk w i rest r lt has calm at =
      with_frame-frame (dispatch manifests payloads) type_file_chunk_payload i
        (header_bytes (header_of header_bytes content i)) (slice chunk_size content i ++ rest) r
        (omega arith) lt
        (encodes (header_of header_bytes content i) lt
          (omega (arith, length-slice chunk_size i content))).short
        (at
          ∙ append_assoc
              (frame type_file_chunk_payload i (header_bytes (header_of header_bytes content i)))
              (slice chunk_size content i) rest)
      ∙ on_chunk-after w i rest (record r { input = slice chunk_size content i ++ rest }) lt has
          calm refl

-- ===== src/Transport/Frame/Codec.antt =====
-- The header's two directions are inverse to one another, and the decoder's verdict on every input.
use decentis.Prelude.{
  ℕ, ◌<◌, List, [], ◌∷◌, ◌++◌, length, ◌==◌, ◌≡◌, ◌≢◌, ◌⊎◌, refl, arith, IsBytes, Bool-cases, inl,
  inr, u16_from_be_bytes, u32_from_be_bytes, true, false, drop,
}
use decentis.Transport.Frame.{
  FrameHeader, InRange, encode, decode, done, failed, too_small, invalid_magic, protocol_mismatch,
  magic_byte, protocol_version,
}

-- A header that is encoded behind `buf` adds exactly ten bytes.
pub length-encode : (h : FrameHeader) → length (encode h []) ≡ 10
unfolding encode
length-encode h = refl

-- A header whose fields fit their types is decoded from its encoding, and the bytes behind it
-- remain.
pub decode-encode :
    (h : FrameHeader) (rest : List ℕ) → InRange h → decode (encode h [] ++ rest) ≡ done h rest
unfolding encode decode
decode-encode h rest r = ground arith

decode-short : (buf : List ℕ) → length buf < 10 → decode buf ≡ failed too_small buf
unfolding decode
decode-short buf h = ground arith

-- What decodes is the encoding of its header: of bytes, the decoder accepts no second form.
pub encode-decode :
    (buf : List ℕ) {h : FrameHeader} {rest : List ℕ}
    → IsBytes buf
    → decode buf ≡ done h rest
    → InRange h × (encode h [] ++ rest ≡ buf)
unfolding encode decode
encode-decode (a ∷ b ∷ c ∷ d ∷ e ∷ f ∷ g ∷ i ∷ j ∷ k ∷ rest) ok eq = ground arith
encode-decode buf ok eq = absurd (cc (decode-short buf (omega arith)))

-- How the decoder answers `buf`.
pub data Verdict (buf : List ℕ) : Type 0 where
  -- under ten bytes: refused, and nothing is consumed
  short : length buf < 10 → decode buf ≡ failed too_small buf → Verdict buf
  -- a wrong first byte costs that byte
  no_magic :
      (a : ℕ) (r : List ℕ)
      → buf ≡ a ∷ r
      → a ≢ magic_byte
      → decode buf ≡ failed invalid_magic r
      → Verdict buf
  -- a wrong version costs two bytes
  no_version :
      (a b : ℕ) (r : List ℕ)
      → buf ≡ a ∷ b ∷ r
      → b ≢ protocol_version
      → decode buf ≡ failed protocol_mismatch r
      → Verdict buf
  -- a header costs ten bytes, the first two of which are the magic byte and the version
  header :
      (h : FrameHeader) (tail r : List ℕ)
      → buf ≡ magic_byte ∷ protocol_version ∷ tail
      → drop 10 buf ≡ r
      → decode buf ≡ done h r
      → Verdict buf

-- The decoder answers every input in one of the four ways, so it never panics.
pub decode-Verdict : (buf : List ℕ) → Verdict buf
unfolding decode
decode-Verdict (a ∷ b ∷ c ∷ d ∷ e ∷ f ∷ g ∷ i ∷ j ∷ k ∷ rest) =
    by_magic (Bool-cases (a == magic_byte)) (Bool-cases (b == protocol_version))
  where
    tail : List ℕ
    tail = c ∷ d ∷ e ∷ f ∷ g ∷ i ∷ j ∷ k ∷ rest

    by_magic :
        ((a == magic_byte) ≡ true) ⊎ ((a == magic_byte) ≡ false)
        → ((b == protocol_version) ≡ true) ⊎ ((b == protocol_version) ≡ false)
        → Verdict (a ∷ b ∷ tail)
    by_magic (inr wrong) other = no_magic a (b ∷ tail) refl (ground arith) (ground arith)
    by_magic (inl right) (inr wrong) = no_version a b tail refl (ground arith) (ground arith)
    by_magic (inl right) (inl same) =
        header
          (record {
            frame_type = c;
            flags = d;
            stream_id = u16_from_be_bytes e f;
            seq_num = u32_from_be_bytes g i j k;
          })
          tail rest (ground arith) refl (ground arith)
decode-Verdict buf = short (omega arith) (decode-short buf (omega arith))

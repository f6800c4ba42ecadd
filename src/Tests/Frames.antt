-- ===== src/Tests/Frames.antt =====
-- The frame header of daemon/src/transport/frame.rs at concrete bytes.
use decentis.Prelude.{ℕ, List, [], ◌∷◌, ◌++◌, ◌≡◌, refl, arith, IsBytes}
use decentis.Transport.Frame.{FrameHeader, InRange, encode, decode, Read}
use decentis.Transport.Frame.Codec.{Verdict, decode-encode, encode-decode, decode-Verdict}

abbrev sample : FrameHeader
sample = record { frame_type = 4; flags = 0; stream_id = 258; seq_num = 16_909_060 }

sample-InRange : InRange sample
sample-InRange = record {
  frame_type_lt = omega arith;
  flags_lt = omega arith;
  stream_id_lt = omega arith;
  seq_num_lt = omega arith;
}

abbrev wire : List ℕ
wire = 0x49 ∷ 1 ∷ 4 ∷ 0 ∷ 1 ∷ 2 ∷ 1 ∷ 2 ∷ 3 ∷ 4 ∷ 77 ∷ []

decode-encode_example : decode (encode sample [] ++ (77 ∷ [])) ≡ Read.done sample (77 ∷ [])
decode-encode_example = decode-encode sample (77 ∷ []) sample-InRange

decodes-wire : decode wire ≡ Read.done sample (77 ∷ [])
unfolding decode
decodes-wire = refl

wire-IsBytes : IsBytes wire
wire-IsBytes = ground arith

encode-decode_example : InRange sample × (encode sample [] ++ (77 ∷ []) ≡ wire)
encode-decode_example = encode-decode wire wire-IsBytes decodes-wire

decode-Verdict_example : Verdict (0x48 ∷ wire)
decode-Verdict_example = decode-Verdict (0x48 ∷ wire)

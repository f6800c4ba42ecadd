-- ===== src/Tests/Source/Frame.antt =====
-- The test module of daemon/src/transport/frame.rs.
use decentis.Prelude.{Bool, true, false, ◌&&◌, [], ◌∷◌, length, replicate, ◌==◌, ◌≡◌, refl}
use decentis.Transport.Frame.{
  protocol_version, type_l3_tun_datagram, flag_priority_high, FrameHeader, encode, decode, Read,
  done, failed, panicked,
}

-- `assert_eq!` of a header and what has been decoded.
abbrev decoded_is : FrameHeader → Read FrameHeader → Bool
decoded_is header (done decoded rest) =
    header.frame_type == decoded.frame_type
    && (header.flags == decoded.flags
        && (header.stream_id == decoded.stream_id && header.seq_num == decoded.seq_num))
decoded_is header (failed e rest) = false
decoded_is header panicked = false

abbrev is_err : Read FrameHeader → Bool
is_err (done decoded rest) = false
is_err (failed e rest) = true
is_err panicked = false

abbrev test_frame_encode_decode : Bool
test_frame_encode_decode =
    let header : FrameHeader = record {
      frame_type = type_l3_tun_datagram;
      flags = flag_priority_high;
      stream_id = 1024;
      seq_num = 999_999;
    } in
    let buf = encode header [] in length buf == 10 && decoded_is header (decode buf)

abbrev test_invalid_magic_byte : Bool
test_invalid_magic_byte = is_err (decode (0xff ∷ protocol_version ∷ replicate 8 0))

frame_tests-succeed : (test_frame_encode_decode ≡ true) × (test_invalid_magic_byte ≡ true)
unfolding encode decode
frame_tests-succeed = (refl, refl)

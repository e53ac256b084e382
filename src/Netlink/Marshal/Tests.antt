-- ===== src/Netlink/Marshal/Tests.antt =====
-- A buffer of two messages: one of 16 bytes and NLMSG_DONE, with the sequence number 5.
use pyroute.Prelude.{ℕ, ◌≡◌, refl, true, false, none, some, List, [], ◌∷◌, ◌++◌, arith}
use pyroute.Netlink.Nla.{pack, unpack}
use pyroute.Prelude.Bytes.{bytes_at}
use pyroute.Netlink.Marshal.{
  Frame, Message, Decoding, decoded, bad_message, blank, Parser, frame_at, parse, parse_one_message,
}
use pyroute.Netlink.Marshal.Framing.{
  Writes, outputs, parse-Written, parse_ends, parse_stays, parse_one_message_forgets,
}

abbrev decode : ℕ → List ℕ → ℕ → Decoding
decode key data' off = decoded (record blank { type' = some key })

abbrev refuse : ℕ → List ℕ → ℕ → Decoding
refuse key data' off = bad_message blank

abbrev decode_error_message : List ℕ → ℕ → Decoding
decode_error_message data' off = decoded (record blank { type' = some 2; code = some 0 })

abbrev no_parsers : List (ℕ × Parser)
no_parsers = []

abbrev head_bytes : ℕ → List ℕ
head_bytes key = 16 ∷ 0 ∷ 0 ∷ 0 ∷ key ∷ 0 ∷ 2 ∷ 0 ∷ 5 ∷ 0 ∷ 0 ∷ 0 ∷ 0 ∷ 0 ∷ 0 ∷ 0 ∷ []

abbrev head : ℕ → Frame
head key = record { length = 16; key = key; flags = 2; sequence_number = 5 }

first : Writes (head 16) (head_bytes 16)
unfolding pack
first = record {
  l = 16 ∷ 0 ∷ 0 ∷ 0 ∷ [];
  k = 16 ∷ 0 ∷ [];
  g = 2 ∷ 0 ∷ [];
  s = 5 ∷ 0 ∷ 0 ∷ 0 ∷ [];
  body = 0 ∷ 0 ∷ 0 ∷ 0 ∷ [];
  l_packed = refl;
  k_packed = refl;
  g_packed = refl;
  s_packed = refl;
  whole = refl;
  sized = refl;
  header = omega arith;
}

second : Writes (head 3) (head_bytes 3)
unfolding pack
second = record {
  l = 16 ∷ 0 ∷ 0 ∷ 0 ∷ [];
  k = 3 ∷ 0 ∷ [];
  g = 2 ∷ 0 ∷ [];
  s = 5 ∷ 0 ∷ 0 ∷ 0 ∷ [];
  body = 0 ∷ 0 ∷ 0 ∷ 0 ∷ [];
  l_packed = refl;
  k_packed = refl;
  g_packed = refl;
  s_packed = refl;
  whole = refl;
  sized = refl;
  header = omega arith;
}

abbrev buffer : List ℕ
buffer = head_bytes 16 ++ head_bytes 3

parse-Written_example :
    parse decode_error_message decode no_parsers false (some 5) none 33 buffer 0
    ≡ some (
        outputs decode_error_message decode no_parsers
          (some 5)
          none
          (head 16 ∷ head 3 ∷ [])
          buffer
          0)
parse-Written_example =
    parse-Written decode_error_message decode no_parsers (some 5) none (head 16 ∷ head 3 ∷ [])
      buffer (head_bytes 16, head_bytes 3, first, refl, (head_bytes 3, [], second, refl, refl))

parse_ends_example :
    (ms : List Message) × (parse decode_error_message decode no_parsers false none none 33 buffer 0
      ≡ some ms)
parse_ends_example = parse_ends decode_error_message decode no_parsers none none buffer

frame_at-buffer : frame_at buffer 0 ≡ some (head 16)
unfolding frame_at unpack bytes_at
frame_at-buffer = refl

parse_stays_example :
    parse decode_error_message decode no_parsers true (some 6) none 1000 buffer 0 ≡ none
parse_stays_example =
    parse_stays decode_error_message decode no_parsers (some 6) none 1000 buffer (head 16)
      (omega arith) frame_at-buffer refl

refused_message_error : (parse_one_message decode_error_message refuse 16 2 buffer 0).error ≡ none
refused_message_error =
    parse_one_message_forgets decode_error_message refuse no_parsers none none 16 2 buffer 0 blank
      refl refl refl

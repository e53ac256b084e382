-- ===== src/Plan9/Messages/Tests.antt =====
-- A walk to "ab" and "c", its reply, and a text with a character of two bytes.
use pyroute.Prelude.{ℕ, ◌≡◌, ◌↔◌, refl, some, List, [], ◌∷◌, ◌++◌, All, false, arith}
use pyroute.Netlink.Nla.{pack, pack_fields}
use pyroute.Plan9.Utf8.{encode_text, IsAscii}
use pyroute.Plan9.Reader.{Reads}
use pyroute.Plan9.Codec.{
  num, text, items, Items, nil, cons, string, encode, encode_array, encode_items, encode_string,
}
use pyroute.Plan9.Codec.Decode.{read_string}
use pyroute.Plan9.Codec.RoundTrip.{
  plain_uint, plain_array, plain_cons, plain_nil, plain_string, PlainItems,
}
use pyroute.Plan9.Codec.Ascii.{read_string_iff}
use pyroute.Plan9.Messages.{
  Message, encode_message, encode_fields, fields, decode_message, parse, yields, ended,
}
use pyroute.Plan9.Messages.RoundTrip.{AllPlain, decode_message-encode_message}
use pyroute.Plan9.Messages.Parsing.{Written, nothing, one_more, Sent, parse-Sent, stream_of}

abbrev names : Items
names = cons (text (97 ∷ 98 ∷ [])) (cons (text (99 ∷ [])) nil)

abbrev walk_message : Message
walk_message = record { type' = 110; tag = 7; values = num 1 ∷ num 2 ∷ items names ∷ [] }

abbrev walk_bytes : List ℕ
walk_bytes =
    24 ∷ 0 ∷ 0 ∷ 0 ∷ 110 ∷ 7 ∷ 0 ∷ 1 ∷ 0 ∷ 0 ∷ 0 ∷ 2 ∷ 0 ∷ 0 ∷ 0 ∷ 2 ∷ 0 ∷ 2 ∷ 0 ∷ 97 ∷ 98 ∷ 1 ∷ 0
    ∷ 99 ∷ []

encode_message-walk : encode_message walk_message ≡ some walk_bytes
unfolding encode_message encode_fields encode fields encode_array encode_items encode_string
    encode_text pack_fields pack
encode_message-walk = refl

names_plain : PlainItems string names
names_plain =
    plain_cons string _ _ (plain_string (97 ∷ 98 ∷ []) (omega arith))
      (plain_cons string _ _ (plain_string (99 ∷ []) (omega arith)) (plain_nil string))

walk_plain : AllPlain (fields 110) (num 1 ∷ num 2 ∷ items names ∷ [])
unfolding fields
walk_plain = (plain_uint 4 1, (plain_uint 4 2, (plain_array string names names_plain, tt)))

decode_message-encode_message_example : Reads (decode_message 110) walk_bytes walk_message
decode_message-encode_message_example =
    decode_message-encode_message walk_message walk_bytes walk_plain encode_message-walk

walk_Sent : Sent walk_message walk_bytes
walk_Sent = record {
  encoded = encode_message-walk;
  plain = walk_plain;
  no_error = λ h. omega arith;
  no_nlmsgerr = λ h. omega arith;
}

two_Written : Written (walk_message ∷ walk_message ∷ []) (walk_bytes ++ (walk_bytes ++ []))
two_Written =
    one_more walk_message walk_bytes _ _ walk_Sent
      (one_more walk_message walk_bytes _ _ walk_Sent nothing)

parse-Sent_example :
    parse false 0 (walk_bytes ++ (walk_bytes ++ [])) 3 0
    ≡ yields walk_message (yields walk_message ended)
unfolding stream_of
parse-Sent_example = parse-Sent 0 3 (walk_message ∷ walk_message ∷ []) _ two_Written (omega arith)

abbrev accent : List ℕ
accent = 0xE9 ∷ 0x74 ∷ []

encode_string-accent : encode_string accent ≡ some (2 ∷ 0 ∷ 0xC3 ∷ 0xA9 ∷ [])
unfolding encode_string encode_text pack_fields pack
encode_string-accent = refl

read_string_iff_example : Reads read_string (2 ∷ 0 ∷ 0xC3 ∷ 0xA9 ∷ []) accent ↔ All IsAscii accent
read_string_iff_example = read_string_iff accent _ encode_string-accent

-- ===== src/Netlink/Nla/Tests.antt =====
-- A link message in small: a class with a word of fields and a map, under it a class of strings
-- and a nested class with a 32-bit number.
use pyroute.Prelude.{
  ◌+◌, ℕ, zero, suc, ◌%◌, ◌≤◌, ◌≡◌, refl, subst, true, false, some, List, [], ◌∷◌, length, arith,
}
use pyroute.Netlink.Nla.{
  Format, fields, zstring, Class, Entry, Message, message, string, no_attrs, attr, Encoded, Slot,
  align4, encode_nla, decode_nla, decode_nlas, nlas_fuel, by_name, by_key, pack, pack_fields,
  zeros_of_flag, strip, strip_left, size_of,
}
use pyroute.Netlink.Nla.Words.{IsType}
use pyroute.Netlink.Nla.Fields.{filled}
use pyroute.Netlink.Nla.{field_bytes, padding, encode_nlas, u16}
use pyroute.Prelude.{replicate, ◌++◌}
use pyroute.Netlink.Nla.Short.{encode_nla_short}
use pyroute.Netlink.Nla.Slots.{Tiles, decode_nlas-Tiles}
use pyroute.Netlink.Nla.Encode.{encode_nla_size}
use pyroute.Netlink.Nla.Faithful.{filled_layout, known_attr, IsFaithful, height, read_back}
use pyroute.Netlink.Nla.RoundTrip.{decode_nla-encode_nla}

abbrev u32 : Format
u32 = record { width = 4; big_endian = false }

abbrev name_entry : Entry
name_entry = record { key = 3; name = "IFLA_IFNAME"; class = 1; nla_flags = 0 }

abbrev info_entry : Entry
info_entry = record { key = 18; name = "IFLA_LINKINFO"; class = 2; nla_flags = 0x8000 }

abbrev classes : ℕ → Class
classes zero = record { layout = fields (u32 ∷ []); nla_map = name_entry ∷ info_entry ∷ [] }
classes (suc zero) = record { layout = zstring true; nla_map = [] }
classes (suc (suc n)) = record { layout = fields []; nla_map = name_entry ∷ [] }

abbrev nested : Message
nested = message [] (attr "IFLA_IFNAME" (string (120 ∷ [])) no_attrs)

abbrev link : Message
link =
    message (7 ∷ [])
      (attr "IFLA_IFNAME" (string (108 ∷ 111 ∷ [])) (attr "IFLA_LINKINFO" nested no_attrs))

abbrev link_bytes : List ℕ
link_bytes =
    28 ∷ 0 ∷ 9 ∷ 0 ∷ 7 ∷ 0 ∷ 0 ∷ 0 ∷ 7 ∷ 0 ∷ 3 ∷ 0 ∷ 108 ∷ 111 ∷ 0 ∷ 0 ∷ 12 ∷ 0 ∷ 18 ∷ 128 ∷ 6 ∷ 0
    ∷ 3 ∷ 0 ∷ 120 ∷ 0 ∷ 0 ∷ 0 ∷ []

abbrev encoded : Encoded
encoded = record { bytes = link_bytes; stated = 28 }

encode_nla-link : encode_nla classes 0 0 9 link ≡ some encoded
unfolding encode_nla pack_fields pack zeros_of_flag
encode_nla-link = refl

encode_nla_size_example : (length link_bytes ≡ align4 28) × (length link_bytes % 4 ≡ 0) × (4 ≤ 28)
encode_nla_size_example = encode_nla_size classes 0 0 9 link encoded refl encode_nla-link

name_found :
    (e : Entry) → by_name (name_entry ∷ info_entry ∷ []) "IFLA_IFNAME" ≡ some e → name_entry ≡ e
unfolding by_name
name_found e q = cc

info_found :
    (e : Entry) → by_name (name_entry ∷ info_entry ∷ []) "IFLA_LINKINFO" ≡ some e → info_entry ≡ e
unfolding by_name
info_found e q = cc

nested_found : (e : Entry) → by_name (name_entry ∷ []) "IFLA_IFNAME" ≡ some e → name_entry ≡ e
unfolding by_name
nested_found e q = cc

nested-IsFaithful : IsFaithful classes 2 nested
unfolding by_key strip strip_left size_of
nested-IsFaithful = (
  refl,
  (
    λ e q.
        subst
          (λ e.
            (by_key (classes 2).nla_map e.key ≡ some e)
            × IsType e.key e.nla_flags
            × IsFaithful classes e.class (string (120 ∷ [])))
          (nested_found e q)
          (refl, record { key_lt = omega arith; flags_lt = omega arith; flags_only = refl }, refl),
    tt,
  ),
)

link-IsFaithful : IsFaithful classes 0 link
unfolding by_key strip strip_left size_of
link-IsFaithful = (
  refl,
  (
    λ e q.
        subst
          (λ e.
            (by_key (classes 0).nla_map e.key ≡ some e)
            × IsType e.key e.nla_flags
            × IsFaithful classes e.class (string (108 ∷ 111 ∷ [])))
          (name_found e q)
          (refl, record { key_lt = omega arith; flags_lt = omega arith; flags_only = refl }, refl),
    (
      λ e q.
          subst
            (λ e.
              (by_key (classes 0).nla_map e.key ≡ some e)
              × IsType e.key e.nla_flags
              × IsFaithful classes e.class nested)
            (info_found e q)
            (
              refl,
              record { key_lt = omega arith; flags_lt = omega arith; flags_only = refl },
              nested-IsFaithful,
            ),
      tt,
    ),
  ),
)

height-link : height link ≤ 3
unfolding height
height-link = omega arith

read_link : read_back classes 0 link ≡ link
unfolding read_back filled_layout filled known_attr by_name
read_link = refl

decode_nla-encode_nla_example :
    decode_nla classes 3 link_bytes 0 0 ≡ some (read_back classes 0 link)
decode_nla-encode_nla_example =
    decode_nla-encode_nla classes 3 0 0 9 link encoded link_bytes encode_nla-link refl
      link-IsFaithful height-link (record { behind = []; inside = omega arith; there = refl })

decode_nlas-Tiles_example :
    (slots : List Slot) × (decode_nlas (nlas_fuel link_bytes) (name_entry ∷ []) link_bytes 28 8
      ≡ some slots)
    × Tiles (name_entry ∷ []) link_bytes 28 8 slots
decode_nlas-Tiles_example =
    decode_nlas-Tiles (name_entry ∷ []) link_bytes 28 8 (omega arith) (omega arith)

-- One byte of fields, and a name behind it.
abbrev odd : ℕ → Class
odd zero = record {
  layout = fields (record { width = 1; big_endian = false } ∷ []);
  nla_map = name_entry ∷ [];
}
odd (suc n) = record { layout = zstring true; nla_map = [] }

abbrev odd_message : Message
odd_message = message (7 ∷ []) (attr "IFLA_IFNAME" (string (108 ∷ 111 ∷ [])) no_attrs)

abbrev odd_encoded : Encoded
odd_encoded = record {
  bytes = 13 ∷ 0 ∷ 9 ∷ 0 ∷ 7 ∷ 0 ∷ 0 ∷ 0 ∷ 7 ∷ 0 ∷ 3 ∷ 0 ∷ 108 ∷ 111 ∷ 0 ∷ 0 ∷ [];
  stated = 13;
}

encode_nla-odd : encode_nla odd 0 0 9 odd_message ≡ some odd_encoded
unfolding encode_nla pack_fields pack zeros_of_flag
encode_nla-odd = refl

encode_nla_short_example :
    (ft : List ℕ) × (chain : List ℕ) × (size : List ℕ) × (kind : List ℕ) × (field_bytes
        (odd 0).layout
        odd_message
      ≡ some ft)
    × (encode_nlas odd
          (odd 0).nla_map
          (4 + length ft + padding (4 + length ft))
          (attr "IFLA_IFNAME" (string (108 ∷ 111 ∷ [])) no_attrs)
        ≡ some chain)
    × (pack u16 (4 + length ft + length chain) ≡ some size)
    × (pack u16 9 ≡ some kind)
    × (odd_encoded.bytes
        ≡ size ++ (kind ++ (ft ++ (replicate (padding (4 + length ft)) 0 ++ chain))))
    × (13 + padding (4 + length ft) ≡ 16)
encode_nla_short_example =
    encode_nla_short odd 0 0 9 (7 ∷ []) (attr "IFLA_IFNAME" (string (108 ∷ 111 ∷ [])) no_attrs)
      odd_encoded encode_nla-odd

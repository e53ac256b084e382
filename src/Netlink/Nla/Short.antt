-- ===== src/Netlink/Nla/Short.antt =====
-- The bytes of an attribute with fields and a chain, and the length in its header.
use pyroute.Prelude.{ℕ, ◌+◌, ◌≡◌, sym, ap, ◌∙◌, some, List, ◌++◌, length, replicate, arith}
use pyroute.Netlink.Nla.{
  Class, message, Attrs, Encoded, field_bytes, padding, pack, u16, encode_nla, encode_nlas,
}
use pyroute.Netlink.Nla.Encode.{split_message, length-Headed, length-message_body}

-- An encoded message is its length and its type, its fields, as many zeros as pad them to a whole word,
-- and the chain of its attributes, in this order. The length counts the header, the fields and the chain:
-- it leaves the padding out, so that it ends before the last bytes of the chain do when there is padding.
pub encode_nla_short :
    (classes : ℕ → Class) (c off type' : ℕ) (vs : List ℕ) (as' : Attrs) (e : Encoded)
    → encode_nla classes c off type' (message vs as') ≡ some e
    → (ft : List ℕ) × (chain : List ℕ) × (size : List ℕ) × (kind : List ℕ) × (field_bytes
          (classes c).layout
          (message vs as')
        ≡ some ft)
      × (encode_nlas classes
            (classes c).nla_map
            (off + 4 + length ft + padding (off + 4 + length ft))
            as'
          ≡ some chain)
      × (pack u16 (4 + length ft + length chain) ≡ some size)
      × (pack u16 type' ≡ some kind)
      × (e.bytes ≡ size ++ (kind ++ (ft ++ (replicate (padding (off + 4 + length ft)) 0 ++ chain))))
      × (e.stated + padding (off + 4 + length ft) ≡ length e.bytes)
encode_nla_short classes c off type' vs as' e h =
    let p = split_message classes c off type' vs as' h in
    let size : length e.bytes ≡ _ = length-Headed type' _ _ e p.headed in
    let body = length-message_body p.ft (padding (off + 4 + length p.ft)) p.chain in
    let stated : e.stated ≡ 4 + length p.ft + length p.chain =
      omega (arith, p.headed.stated_length, body) in
    (
      p.ft,
      p.chain,
      p.headed.length_bytes,
      p.headed.type_bytes,
      p.fields_ok,
      p.chain_ok,
      ap (pack u16) (sym stated) ∙ p.headed.pack_length,
      p.headed.pack_type,
      p.headed.layout,
      omega (arith, size, p.headed.stated_length, body),
    )

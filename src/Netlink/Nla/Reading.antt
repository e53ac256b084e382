-- ===== src/Netlink/Nla/Reading.antt =====
-- The pieces of `decode` on bytes that `encode` wrote.
use pyroute.Prelude.{
  ℕ, suc, ◌+◌, ◌-◌, ◌≤◌, ◌<◌, ◌≡◌, sym, ap, subst, bit_and, true, false, Option, some, List, [],
  ◌∷◌, ◌++◌, append-nil, length, ltb, leb, arith,
}
use pyroute.Prelude.Bytes.{At, At-left, At-right, bytes_at, bytes_at-At}
use pyroute.Netlink.Nla.{
  Layout, fields, zstring, Class, Entry, Message, message, string, Attrs, attr, Encoded,
  field_bytes, unpack, u16, align4, by_key, encode_nla, decode_nlas, decode_layout, decode_chain,
  read_slots, Slot, nlas_fuel, clamp, type_mask, flag_mask, or_raw, name_of, zeros_of_flag,
}
use pyroute.Netlink.Nla.Words.{length-pack, unpack-pack}
use pyroute.Netlink.Nla.Faithful.{KeepsString, known_attrs, known_attrs-nil}
use pyroute.Netlink.Nla.Encode.{Headed, split_message, split_string}

pub head_of :
    (type' diff : ℕ) (body : List ℕ) (e : Encoded) (data' : List ℕ) (off : ℕ)
    → Headed type' diff body e
    → At data' off e.bytes
    → (unpack u16 data' off ≡ some e.stated)
      × (unpack u16 data' (off + 2) ≡ some type')
      × At data' (off + 4) body
head_of type' diff body e data' off h a = (
  unpack-pack u16 e.stated h.length_bytes data' off h.pack_length
      (At-left h.length_bytes (h.type_bytes ++ body) whole),
  unpack-pack u16 type' h.type_bytes data' (off + 2) h.pack_type (At-left h.type_bytes body tail),
  subst (λ n. At data' n body) (omega (arith, length-pack u16 type' h.pack_type))
      (At-right data' (off + 2) h.type_bytes body tail),
)
  where
    whole : At data' off (h.length_bytes ++ (h.type_bytes ++ body))
    whole = subst (At data' off) h.layout a

    tail : At data' (off + 2) (h.type_bytes ++ body)
    tail =
        subst (λ n. At data' (off + n) (h.type_bytes ++ body))
          (length-pack u16 e.stated h.pack_length)
          (At-right data' off h.length_bytes (h.type_bytes ++ body) whole)

-- The header of any encoded attribute.
pub types_of :
    (classes : ℕ → Class) (c off type' : ℕ) (v : Message) (e : Encoded) (data' : List ℕ)
    → encode_nla classes c off type' v ≡ some e
    → At data' off e.bytes
    → (unpack u16 data' off ≡ some e.stated) × (unpack u16 data' (off + 2) ≡ some type')
types_of classes c off type' (message vs as') e data' h a =
    let p = split_message classes c off type' vs as' h in
    let (l, t, _) = head_of type' _ _ e data' off p.headed a in (l, t)
types_of classes c off type' (string s) e data' h a =
    let (ft, _, hd) = split_string classes c off type' s h in
    let (l, t, _) = head_of type' _ _ e data' off hd a in (l, t)

pub string_bytes :
    (data' : List ℕ) (off len : ℕ) (ft : List ℕ)
    → At data' (off + 4) ft
    → len ≡ 4 + length ft
    → bytes_at (len - 4) data' (off + 4) ≡ some ft
string_bytes data' off len ft a l =
    subst (λ n. bytes_at n data' (off + 4) ≡ some ft) (omega arith)
      (bytes_at-At data' (off + 4) ft a)

pub decode_layout_string :
    (classes : ℕ → Class) (decode : ℕ → ℕ → Option Message) (layout : Layout) (m : List Entry)
    (data' : List ℕ) (off len : ℕ) (s ft : List ℕ)
    → field_bytes layout (string s) ≡ some ft
    → KeepsString layout s
    → At data' (off + 4) ft
    → len ≡ 4 + length ft
    → decode_layout classes decode layout m data' off len ≡ some (string s)
unfolding field_bytes decode_layout zeros_of_flag
decode_layout_string classes decode (fields fs) m data' off len s ft h k a l = absurd k
decode_layout_string classes decode (zstring true) m data' off len s ft h k a l =
    let long : ltb len 4 ≡ false = ground arith in
    let written : ft ≡ s ++ 0 ∷ [] = cc h in
    rw (long, string_bytes data' off len ft a l, written, k)
decode_layout_string classes decode (zstring false) m data' off len s ft h k a l =
    let long : ltb len 4 ≡ false = ground arith in
    let written : ft ≡ s ++ [] = cc h in
    rw (long, string_bytes data' off len ft a l, written, append-nil s)

-- The reader of the chain behind the fields, given what the loop and the slots make of it.
pub read_chain :
    (classes : ℕ → Class) (decode : ℕ → ℕ → Option Message) (m : List Entry) (data' : List ℕ)
    (stop off : ℕ) (as' : Attrs) (slots : List Slot)
    → align4 off ≡ off
    → decode_nlas (nlas_fuel data') m data' stop off ≡ some slots
    → read_slots classes decode data' slots ≡ known_attrs classes m as'
    → decode_chain classes decode m data' stop off ≡ some (known_attrs classes m as')
unfolding decode_chain
read_chain classes decode [] data' stop off as' slots al h r =
    ap some (sym (known_attrs-nil classes as'))
read_chain classes decode (e ∷ m) data' stop off as' slots al h r = rw (al, h, r)

-- One round of the loop of `decode_nlas`.
pub nlas_round :
    (fuel : ℕ) (m : List Entry) (data' : List ℕ) (stop off l t : ℕ) (rest : List Slot)
    → off + 4 ≤ stop
    → unpack u16 data' off ≡ some l
    → unpack u16 data' (off + 2) ≡ some t
    → clamp l (stop - off) ≡ l
    → decode_nlas fuel m data' stop (off + align4 l) ≡ some rest
    → decode_nlas (suc fuel) m data' stop off
      ≡ some (
          record {
            entry = by_key m (bit_and t type_mask);
            flags = bit_and t flag_mask;
            offset = off;
            length = l;
          }
          ∷ rest)
unfolding decode_nlas
nlas_round fuel m data' stop off l t rest room el et c h =
    let more : leb (off + 4) stop ≡ true = ground arith in rw (more, el, et, c, h)

pub nlas_done :
    (fuel : ℕ) (m : List Entry) (data' : List ℕ) (stop off : ℕ)
    → stop < off + 4
    → decode_nlas (suc fuel) m data' stop off ≡ some []
unfolding decode_nlas
nlas_done fuel m data' stop off h = let done : leb (off + 4) stop ≡ false = ground arith in rw done

pub clamp_fits : (l left : ℕ) → 4 ≤ l → l ≤ left → clamp l left ≡ l
unfolding clamp
clamp_fits l left h k = omega arith

pub read_slot :
    (classes : ℕ → Class) (decode : ℕ → ℕ → Option Message) (data' : List ℕ) (s : Slot)
    (ss : List Slot) (e : Entry) (v : Message) (rest : Attrs)
    → s.entry ≡ some e
    → decode e.class s.offset ≡ some v
    → read_slots classes decode data' ss ≡ rest
    → read_slots classes decode data' (s ∷ ss) ≡ attr e.name v rest
unfolding read_slots or_raw name_of
read_slot classes decode data' s ss e v rest he hd hr = rw (read_slots, he, hd, hr)

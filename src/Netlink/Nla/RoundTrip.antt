-- ===== src/Netlink/Nla/RoundTrip.antt =====
-- `decode` of what `encode` wrote.
use pyroute.Prelude.{
  ℕ, zero, suc, ◌+◌, ◌-◌, ◌*◌, ◌%◌, ◌≤◌, ◌<◌, ◌≡◌, refl, sym, ap, ◌∙◌, subst, bit_and, bit_or,
  Option, some, none, List, [], ◌∷◌, ◌++◌, length, length-append, length-drop, replicate, arith,
  inl, inr, Option-cases,
}
use Prim.Native.String.{String}
use pyroute.Prelude.Bytes.{At, At-left, At-right}
use pyroute.Netlink.Nla.{
  Layout, fields, zstring, Class, Entry, Message, message, string, Attrs, no_attrs, attr, Encoded,
  field_bytes, unpack, u16, padding, align4, by_name, by_key, encode_nla, encode_nlas, decode_nla,
  decode_nlas, decode_layout, decode_chain, read_slots, Slot, nlas_fuel, size_of, type_mask,
  flag_mask,
}
use pyroute.Netlink.Nla.Words.{IsType, type_below_flags}
use pyroute.Netlink.Nla.Fields.{length-pack_fields, unpack_fields-pack_fields}
use pyroute.Netlink.Nla.Faithful.{
  filled_layout, known_attr, KeepsFields, read_back, known_attrs, known_attrs-nil, IsFaithful,
  AreFaithful, height, height_attrs,
}
use pyroute.Netlink.Nla.Reading.{
  head_of, types_of, decode_layout_string, read_chain, nlas_round, nlas_done, clamp_fits, read_slot,
}
use pyroute.Netlink.Nla.Encode.{
  Headed, split_message, split_string, Link, split_chain, skip_chain, nil_chain, encode_nla_size,
  length-message_body, length-string_body,
}

-- The loop over a chain, and what the slots read as.
ReadsChain :
    (ℕ → Class) → (ℕ → ℕ → Option Message) → List Entry → List ℕ → ℕ → ℕ → ℕ → Attrs → Type 0
ReadsChain classes decode m data' stop off fuel as' =
    (slots : List Slot) × (decode_nlas fuel m data' stop off ≡ some slots)
    × (read_slots classes decode data' slots ≡ known_attrs classes m as')

chain_none :
    (classes : ℕ → Class) (decode : ℕ → ℕ → Option Message) (data' : List ℕ) (stop off : ℕ)
    → decode_chain classes decode [] data' stop off ≡ some no_attrs
unfolding decode_chain
chain_none classes decode data' stop off = refl

no_padding : (n : ℕ) → n % 4 ≡ 0 → padding n ≡ 0
unfolding padding
no_padding n h = omega arith

aligned_stays : (n : ℕ) → n % 4 ≡ 0 → align4 n ≡ n
aligned_stays n h = omega arith

decode_fields :
    (classes : ℕ → Class) (decode : ℕ → ℕ → Option Message) (layout : Layout) (m : List Entry)
    (data' : List ℕ) (off : ℕ) (e : Encoded) (vs ft chain : List ℕ) (as' : Attrs) (type' : ℕ)
    → off % 4 ≡ 0
    → KeepsFields layout m
    → field_bytes layout (message vs as') ≡ some ft
    → Headed type'
        (padding (off + 4 + length ft))
        (ft ++ (replicate (padding (off + 4 + length ft)) 0 ++ chain))
        e
    → At data' off e.bytes
    → ((stop start : ℕ)
        → start % 4 ≡ 0
        → start ≡ off + 4 + length ft
        → At data' start chain
        → stop ≡ start + length chain
        → ReadsChain classes decode m data' stop start (nlas_fuel data') as')
    → decode_layout classes decode layout m data' off e.stated
      ≡ some (message (filled_layout layout vs) (known_attrs classes m as'))
unfolding decode_layout field_bytes filled_layout ReadsChain
decode_fields classes decode (zstring z) m data' off e vs ft chain as' type' o k f hd a next =
    absurd k
decode_fields classes decode (fields fs) [] data' off e vs ft chain as' type' o k f hd a next =
    let (_, _, body) = head_of type' _ _ e data' off hd a in
    rw
      (
        unpack_fields-pack_fields fs vs ft data' (off + 4) f (At-left ft _ body),
        chain_none classes decode data' (off + e.stated) (off + 4 + size_of fs),
        known_attrs-nil classes as',
      )
      refl
decode_fields classes decode (fields fs) (x ∷ m) data' off e vs ft chain as' type' o k f hd a next =
    let (_, _, body) = head_of type' _ _ e data' off hd a in
    let size : length ft ≡ size_of fs = length-pack_fields fs vs f in
    let none_padded : padding (off + 4 + length ft) ≡ 0 =
      no_padding (off + 4 + length ft) (omega (arith, size)) in
    let plain : At data' (off + 4) (ft ++ chain) =
      subst (λ d. At data' (off + 4) (ft ++ (replicate d 0 ++ chain))) none_padded body in
    let stop_at_end : off + e.stated ≡ off + 4 + length ft + length chain = omega (
      arith,
      hd.stated_length,
      length-message_body ft (padding (off + 4 + length ft)) chain,
      none_padded,
    ) in
    let (slots, d, r) =
      next (off + e.stated) (off + 4 + length ft) (omega (arith, size)) refl
        (At-right data' (off + 4) ft chain plain) stop_at_end in
    rw
      (
        unpack_fields-pack_fields fs vs ft data' (off + 4) f (At-left ft chain plain),
        ← size,
        read_chain classes decode (x ∷ m) data' (off + e.stated) (off + 4 + length ft) as' slots
            (aligned_stays (off + 4 + length ft) (omega (arith, size))) d r,
      )
      refl

decode_step :
    (classes : ℕ → Class) (depth c off : ℕ) (data' : List ℕ) (len type' : ℕ) {v : Message}
    → unpack u16 data' off ≡ some len
    → unpack u16 data' (off + 2) ≡ some type'
    → decode_layout classes
        (decode_nla classes depth data')
        (classes c).layout
        (classes c).nla_map
        data'
        off
        len
      ≡ some v
    → decode_nla classes (suc depth) data' c off ≡ some v
unfolding decode_nla
decode_step classes depth c off data' len type' l t d = rw (l, t) d

-- One more link before a chain that is read.
reads-Link :
    (classes : ℕ → Class) (decode : ℕ → ℕ → Option Message) (m : List Entry) (data' : List ℕ)
    (stop off fuel : ℕ) (n : String) (v : Message) (as' : Attrs) (bs : List ℕ) (e : Entry)
    (l : Link classes m off n v as' bs e)
    → by_name m n ≡ some e
    → by_key m e.key ≡ some e
    → IsType e.key e.nla_flags
    → off % 4 ≡ 0
    → At data' off bs
    → stop ≡ off + length bs
    → decode e.class off ≡ some (read_back classes e.class v)
    → ReadsChain classes decode m data' stop (off + align4 l.first.stated) fuel as'
    → ReadsChain classes decode m data' stop off (suc fuel) (attr n v as')
unfolding ReadsChain known_attrs known_attr
reads-Link classes decode m data' stop off fuel n v as' bs e l b k ty o a st d (slots, q, r) =
    let front : At data' off l.first.bytes =
      At-left l.first.bytes l.rest (subst (At data' off) l.whole a) in
    let (el, et) =
      types_of classes e.class off (bit_or e.key e.nla_flags) v l.first data' l.this_ok front in
    let (size, _, four) =
      encode_nla_size classes e.class off (bit_or e.key e.nla_flags) v l.first o l.this_ok in
    let total : length bs ≡ length l.first.bytes + length l.rest =
      ap length l.whole ∙ length-append l.first.bytes l.rest in
    let found : by_key m (bit_and (bit_or e.key e.nla_flags) type_mask) ≡ some e =
      ap (by_key m) (type_below_flags e.key e.nla_flags ty) ∙ k in
    (
      record {
        entry = by_key m (bit_and (bit_or e.key e.nla_flags) type_mask);
        flags = bit_and (bit_or e.key e.nla_flags) flag_mask;
        offset = off;
        length = l.first.stated;
      }
          ∷ slots,
      nlas_round fuel m data' stop off l.first.stated (bit_or e.key e.nla_flags) slots
          (omega (arith, four, size, total, st)) el et
          (clamp_fits l.first.stated (stop - off) four (omega (arith, size, total, st))) q,
      rw (known_attrs, b)
          (read_slot classes decode data' _ slots e (read_back classes e.class v)
            (known_attrs classes m as') found d r),
    )

no_link :
    (classes : ℕ → Class) (decode : ℕ → ℕ → Option Message) (m : List Entry) (data' : List ℕ)
    (stop off fuel : ℕ) (n : String) (v : Message) (as' : Attrs)
    → by_name m n ≡ none
    → ReadsChain classes decode m data' stop off fuel as'
    → ReadsChain classes decode m data' stop off fuel (attr n v as')
unfolding ReadsChain known_attrs known_attr
no_link classes decode m data' stop off fuel n v as' b (slots, q, r) =
    (slots, q, rw (known_attrs, b) r)

reads_end :
    (classes : ℕ → Class) (decode : ℕ → ℕ → Option Message) (m : List Entry) (data' : List ℕ)
    (stop off fuel : ℕ)
    → stop < off + 4
    → ReadsChain classes decode m data' stop off (suc fuel) no_attrs
unfolding ReadsChain known_attrs read_slots
reads_end classes decode m data' stop off fuel h = ([], nlas_done fuel m data' stop off h, refl)

mutual
  unfolding height height_attrs read_back

  read_message :
      (classes : ℕ → Class) (depth c off type' : ℕ) (v : Message) (e : Encoded) (data' : List ℕ)
      → encode_nla classes c off type' v ≡ some e
      → off % 4 ≡ 0
      → IsFaithful classes c v
      → height v ≤ depth
      → At data' off e.bytes
      → decode_nla classes depth data' c off ≡ some (read_back classes c v)
  read_message classes zero c off type' (message vs as') e data' h o w d a = absurd (omega arith)
  read_message classes zero c off type' (string s) e data' h o w d a = absurd (omega arith)
  read_message classes (suc depth) c off type' (message vs as') e data' h o (kf, ka) d a =
      let p = split_message classes c off type' vs as' h in
      let (l, t) = types_of classes c off type' (message vs as') e data' h a in
      decode_step classes depth c off data' e.stated type' l t (
        decode_fields classes (decode_nla classes depth data') (classes c).layout
          (classes c).nla_map data' off e vs p.ft p.chain as' type' o kf p.fields_ok p.headed a
          λ stop start al at there ends.
            let aligned : padding (off + 4 + length p.ft) ≡ 0 =
              no_padding _ (subst (λ s. s % 4 ≡ 0) at al) in
            read_attrs classes depth (classes c).nla_map start as' p.chain data' stop
              (nlas_fuel data')
              (subst (λ s. encode_nlas classes (classes c).nla_map s as' ≡ some p.chain)
                (omega (arith, aligned, at)) p.chain_ok)
              al ka (omega arith) there ends
              (omega (
                arith,
                length-drop start data',
                ap length there.there,
                length-append p.chain there.behind,
                ap length there.there,
              )))
  read_message classes (suc depth) c off type' (string s) e data' h o w d a =
      let (ft, f, hd) = split_string classes c off type' s h in
      let (l, t) = types_of classes c off type' (string s) e data' h a in
      let (_, _, body) = head_of type' _ _ e data' off hd a in
      decode_step classes depth c off data' e.stated type' l t (
        decode_layout_string classes (decode_nla classes depth data') (classes c).layout
          (classes c).nla_map data' off e.stated s ft f w (At-left ft _ body)
          (omega (arith, hd.stated_length, length-string_body ft (padding (off + 4 + length ft)))))

  read_attrs :
      (classes : ℕ → Class) (depth : ℕ) (m : List Entry) (off : ℕ) (as' : Attrs) (bs : List ℕ)
      (data' : List ℕ) (stop fuel : ℕ)
      → encode_nlas classes m off as' ≡ some bs
      → off % 4 ≡ 0
      → AreFaithful classes m as'
      → height_attrs as' ≤ depth
      → At data' off bs
      → stop ≡ off + length bs
      → length bs + 4 ≤ 4 * fuel
      → ReadsChain classes (decode_nla classes depth data') m data' stop off fuel as'
  read_attrs classes depth m off no_attrs bs data' stop zero h o w d a s f = absurd (omega arith)
  read_attrs classes depth m off no_attrs bs data' stop (suc fuel) h o w d a s f =
      let empty : length bs ≡ 0 = ap length (nil_chain classes m off h) in
      reads_end classes (decode_nla classes depth data') m data' stop off fuel
        (omega (arith, empty))
  read_attrs classes depth m off (attr n v as') bs data' stop zero h o w d a s f =
      absurd (omega arith)
  read_attrs classes depth m off (attr n v as') bs data' stop (suc fuel) h o (this, others) d a s
        f =
      elim (Option-cases (by_name m n)) [
        | inl b ↦
            no_link classes (decode_nla classes depth data') m data' stop off (suc fuel) n v as' b (
              read_attrs classes depth m off as' bs data' stop (suc fuel)
                (sym (skip_chain classes m off n v as' b) ∙ h) o others (omega arith) a s f)
        | inr (e, b) ↦
            let l = split_chain classes m off n v as' e h b in
            let (k, ty, w) = this e b in
            let (size, words, four) =
              encode_nla_size classes e.class off (bit_or e.key e.nla_flags) v l.first o
                l.this_ok in
            let whole : At data' off (l.first.bytes ++ l.rest) = subst (At data' off) l.whole a in
            let total : length bs ≡ length l.first.bytes + length l.rest =
              ap length l.whole ∙ length-append l.first.bytes l.rest in
            let behind : At data' (off + align4 l.first.stated) l.rest =
              subst (λ n. At data' (off + n) l.rest) size
                (At-right data' off l.first.bytes l.rest whole) in
            reads-Link classes (decode_nla classes depth data') m data' stop off fuel n v as' bs e l
              b k ty o a s
              (read_message classes depth e.class off (bit_or e.key e.nla_flags) v l.first data'
                l.this_ok o w (omega arith) (At-left l.first.bytes l.rest whole))
              (read_attrs classes depth m (off + align4 l.first.stated) as' l.rest data' stop fuel
                l.rest_ok (omega (arith, size, words)) others (omega arith) behind
                (omega (arith, size, total)) (omega (arith, size, total, four)))
      ]

-- An attribute of a faithful message that `encode` writes at an aligned offset is read back
-- by `decode` at that offset, in any buffer that has its bytes there: it is the same message
-- without the attributes whose names the maps do not know, missing fields being 0.
pub decode_nla-encode_nla :
    (classes : ℕ → Class) (depth c off type' : ℕ) (v : Message) (e : Encoded) (data' : List ℕ)
    → encode_nla classes c off type' v ≡ some e
    → off % 4 ≡ 0
    → IsFaithful classes c v
    → height v ≤ depth
    → At data' off e.bytes
    → decode_nla classes depth data' c off ≡ some (read_back classes c v)
decode_nla-encode_nla = read_message

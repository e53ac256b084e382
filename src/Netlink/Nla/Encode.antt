-- ===== src/Netlink/Nla/Encode.antt =====
-- The sizes that `encode` writes and states.
use pyroute.Prelude.{
  ℕ, ◌+◌, ◌-◌, ◌%◌, ◌≤◌, ◌<◌, ◌≡◌, refl, sym, ap, ◌∙◌, subst, bit_or, some, none, List, [], ◌++◌,
  length, length-append, length-replicate, replicate, arith, inl, inr, Option-cases,
}
use Prim.Native.String.{String}
use pyroute.Netlink.Nla.{
  Class, Entry, Message, message, string, Attrs, no_attrs, attr, Encoded, field_bytes, pack, u16,
  with_header, padding, align4, by_name, encode_link, encode_nla, encode_nlas,
}
use pyroute.Netlink.Nla.Monad.{>>=-eq-some}
use pyroute.Netlink.Nla.Words.{length-pack}

pub record Headed (type' diff : ℕ) (body : List ℕ) (e : Encoded) : Type 0 where
  pub length_bytes : List ℕ
  pub type_bytes : List ℕ
  pub pack_length : pack u16 e.stated ≡ some length_bytes
  pub pack_type : pack u16 type' ≡ some type_bytes
  pub stated_length : e.stated ≡ 4 + length body - diff
  pub layout : e.bytes ≡ length_bytes ++ (type_bytes ++ body)

pub split_header :
    (type' diff : ℕ) (body : List ℕ) {e : Encoded}
    → with_header type' diff body ≡ some e
    → Headed type' diff body e
unfolding with_header
split_header type' diff body {e} h =
    let (l, p, k) = >>=-eq-some (pack u16 (4 + length body - diff)) _ h in
    let (t, q, r) = >>=-eq-some (pack u16 type') _ k in
    let same : record { bytes = l ++ (t ++ body); stated = 4 + length body - diff } ≡ e = cc r in
    subst (Headed type' diff body) same (record {
      length_bytes = l;
      type_bytes = t;
      pack_length = p;
      pack_type = q;
      stated_length = refl;
      layout = refl;
    })

pub length-Headed :
    (type' diff : ℕ) (body : List ℕ) (e : Encoded)
    → Headed type' diff body e
    → length e.bytes ≡ 4 + length body
length-Headed type' diff body e h =
    ap length h.layout
    ∙ length-append h.length_bytes (h.type_bytes ++ body)
    ∙ omega (
      arith,
      length-append h.type_bytes body,
      length-pack u16 e.stated h.pack_length,
      length-pack u16 type' h.pack_type,
    )

-- The parts of an encoded message.
pub record Parts (classes : ℕ → Class) (c off type' : ℕ) (vs : List ℕ) (as' : Attrs) (e : Encoded)
    : Type 0 where
  pub ft : List ℕ
  pub chain : List ℕ
  pub fields_ok : field_bytes (classes c).layout (message vs as') ≡ some ft
  pub chain_ok :
      encode_nlas classes
        (classes c).nla_map
        (off + 4 + length ft + padding (off + 4 + length ft))
        as'
      ≡ some chain
  pub headed :
      Headed type'
        (padding (off + 4 + length ft))
        (ft ++ (replicate (padding (off + 4 + length ft)) 0 ++ chain))
        e

pub split_message :
    (classes : ℕ → Class) (c off type' : ℕ) (vs : List ℕ) (as' : Attrs) {e : Encoded}
    → encode_nla classes c off type' (message vs as') ≡ some e
    → Parts classes c off type' vs as' e
unfolding encode_nla
split_message classes c off type' vs as' {e} h =
    let (ft, p, k) = >>=-eq-some (field_bytes (classes c).layout (message vs as')) _ h in
    let (ch, q, r) =
      >>=-eq-some
        (encode_nlas classes (classes c).nla_map
          (off + 4 + length ft + padding (off + 4 + length ft)) as')
        _ k in
    record {
      ft = ft;
      chain = ch;
      fields_ok = p;
      chain_ok = q;
      headed = split_header type' (padding (off + 4 + length ft)) _ r;
    }

pub split_string :
    (classes : ℕ → Class) (c off type' : ℕ) (s : List ℕ) {e : Encoded}
    → encode_nla classes c off type' (string s) ≡ some e
    → (ft : List ℕ) × (field_bytes (classes c).layout (string s) ≡ some ft)
      × Headed type'
          (padding (off + 4 + length ft))
          (ft ++ replicate (padding (off + 4 + length ft)) 0)
          e
unfolding encode_nla
split_string classes c off type' s h =
    let (ft, p, k) = >>=-eq-some (field_bytes (classes c).layout (string s)) _ h in
    (ft, p, split_header type' (padding (off + 4 + length ft)) _ k)

pub length-message_body :
    (ft : List ℕ) (d : ℕ) (chain : List ℕ)
    → length (ft ++ (replicate d 0 ++ chain)) ≡ length ft + (d + length chain)
length-message_body ft d chain =
    length-append ft (replicate d 0 ++ chain)
    ∙ ap (λ t. length ft + t)
        (length-append (replicate d 0) chain ∙ ap (λ t. t + length chain) (length-replicate d 0))

pub length-string_body : (ft : List ℕ) (d : ℕ) → length (ft ++ replicate d 0) ≡ length ft + (d + 0)
length-string_body ft d =
    length-append ft (replicate d 0) ∙ omega (arith, length-replicate {A = ℕ} d 0)

pub padding_lem : (n : ℕ) → ((n + padding n) % 4 ≡ 0) × (padding n < 4)
unfolding padding
padding_lem n = (omega arith, omega arith)

-- An attribute of `d` padding bytes among `n` others and a whole number of words.
aligned_size :
    (off n d k total stated : ℕ)
    → off % 4 ≡ 0
    → (off + 4 + n + d) % 4 ≡ 0
    → d < 4
    → k % 4 ≡ 0
    → total ≡ 4 + (n + (d + k))
    → stated ≡ 4 + (n + (d + k)) - d
    → (total ≡ align4 stated) × (total % 4 ≡ 0) × (4 ≤ stated)
aligned_size off n d k total stated o a l w t s = (omega arith, omega arith, omega arith)

-- An attribute in the chain: the name is known, and this one and the rest are encoded.
pub record Link (classes : ℕ → Class) (m : List Entry) (off : ℕ) (n : String) (v : Message)
    (as' : Attrs) (bs : List ℕ) (entry : Entry) : Type 0 where
  pub first : Encoded
  pub rest : List ℕ
  pub this_ok : encode_nla classes entry.class off (bit_or entry.key entry.nla_flags) v ≡ some first
  pub rest_ok : encode_nlas classes m (off + align4 first.stated) as' ≡ some rest
  pub whole : bs ≡ first.bytes ++ rest

pub split_chain :
    (classes : ℕ → Class) (m : List Entry) (off : ℕ) (n : String) (v : Message) (as' : Attrs)
    {bs : List ℕ} (e : Entry)
    → encode_nlas classes m off (attr n v as') ≡ some bs
    → by_name m n ≡ some e
    → Link classes m off n v as' bs e
unfolding encode_nlas encode_link
split_chain classes m off n v as' {bs} e h b =
    let (f, p, k) = >>=-eq-some (encode_nla classes e.class off (bit_or e.key e.nla_flags) v) _ (
      subst
        (λ o.
          encode_link (λ x. encode_nla classes x.class off (bit_or x.key x.nla_flags) v)
            (λ o. encode_nlas classes m o as') off o
          ≡ some bs)
        b h) in
    let (r, q, w) =
      >>=-eq-some (encode_nlas classes m (off + align4 f.stated) as') (λ r. some (f.bytes ++ r))
        k in
    record { first = f; rest = r; this_ok = p; rest_ok = q; whole = cc w }

pub skip_chain :
    (classes : ℕ → Class) (m : List Entry) (off : ℕ) (n : String) (v : Message) (as' : Attrs)
    → by_name m n ≡ none
    → encode_nlas classes m off (attr n v as') ≡ encode_nlas classes m off as'
unfolding encode_nlas encode_link
skip_chain classes m off n v as' b = rw (encode_nlas, b)

pub nil_chain :
    (classes : ℕ → Class) (m : List Entry) (off : ℕ) {bs : List ℕ}
    → encode_nlas classes m off no_attrs ≡ some bs
    → bs ≡ []
unfolding encode_nlas
nil_chain classes m off h = cc h

mutual
  nla_size :
      (classes : ℕ → Class) (c off type' : ℕ) (v : Message) {e : Encoded}
      → encode_nla classes c off type' v ≡ some e
      → off % 4 ≡ 0
      → (length e.bytes ≡ align4 e.stated) × (length e.bytes % 4 ≡ 0) × (4 ≤ e.stated)
  nla_size classes c off type' (message vs as') {e} h o =
      let p = split_message classes c off type' vs as' h in
      let (al, lt) = padding_lem (off + 4 + length p.ft) in
      let size =
        nlas_size classes (classes c).nla_map
          (off + 4 + length p.ft + padding (off + 4 + length p.ft)) as' p.chain_ok al in
      let body = length-message_body p.ft (padding (off + 4 + length p.ft)) p.chain in
      aligned_size off (length p.ft) (padding (off + 4 + length p.ft)) (length p.chain)
        (length e.bytes) e.stated o al lt size
        (length-Headed type' _ _ e p.headed ∙ ap (λ t. 4 + t) body)
        (p.headed.stated_length ∙ ap (λ t. 4 + t - padding (off + 4 + length p.ft)) body)
  nla_size classes c off type' (string s) {e} h o =
      let (ft, p, hd) = split_string classes c off type' s h in
      let (al, lt) = padding_lem (off + 4 + length ft) in
      let body = length-string_body ft (padding (off + 4 + length ft)) in
      aligned_size off (length ft) (padding (off + 4 + length ft)) 0 (length e.bytes) e.stated o al
        lt refl (length-Headed type' _ _ e hd ∙ ap (λ t. 4 + t) body)
        (hd.stated_length ∙ ap (λ t. 4 + t - padding (off + 4 + length ft)) body)

  nlas_size :
      (classes : ℕ → Class) (m : List Entry) (off : ℕ) (as' : Attrs) {bs : List ℕ}
      → encode_nlas classes m off as' ≡ some bs
      → off % 4 ≡ 0
      → length bs % 4 ≡ 0
  nlas_size classes m off no_attrs h o = ap (λ l. length l % 4) (nil_chain classes m off h)
  nlas_size classes m off (attr n v as') h o = elim (Option-cases (by_name m n)) [
    | inl b ↦ nlas_size classes m off as' (sym (skip_chain classes m off n v as' b) ∙ h) o
    | inr (e, b) ↦
        let l = split_chain classes m off n v as' e h b in
        let (s, w, _) = nla_size classes e.class off (bit_or e.key e.nla_flags) v l.this_ok o in
        let next = nlas_size classes m (off + align4 l.first.stated) as' l.rest_ok (omega arith) in
        ap (λ x. length x % 4) l.whole ∙ omega (arith, next, w, length-append l.first.bytes l.rest)
  ]

-- From an aligned offset, the bytes of an encoded attribute are a whole number of words, and they
-- end where `encode_nlas` goes on: at the length that the header states, rounded up. That length
-- is at least the header's.
pub encode_nla_size :
    (classes : ℕ → Class) (c off type' : ℕ) (v : Message) (e : Encoded)
    → off % 4 ≡ 0
    → encode_nla classes c off type' v ≡ some e
    → (length e.bytes ≡ align4 e.stated) × (length e.bytes % 4 ≡ 0) × (4 ≤ e.stated)
encode_nla_size classes c off type' v e o h = nla_size classes c off type' v h o

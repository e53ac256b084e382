-- ===== src/Plan9/Messages/RoundTrip.antt =====
-- A message is read back as it was written.
use pyroute.Prelude.{ℕ, ◌+◌, ◌≡◌, subst, some, List, [], ◌∷◌, ◌++◌, length}
use pyroute.Netlink.Nla.{pack_fields}
use pyroute.Netlink.Nla.Monad.{>>=-eq-some}
use pyroute.Netlink.Nla.Fields.{filled}
use pyroute.Plan9.Reader.{
  Reads, Reads-bind, Reads-map, Reads-pure, Reads-read_fields, pure, read_fields, ◌>>=◌ as ◌>>=R◌,
}
use pyroute.Plan9.Codec.{Kind, Value, encode}
use pyroute.Plan9.Codec.Decode.{decode}
use pyroute.Plan9.Codec.RoundTrip.{Plain, Reads-decode}
use pyroute.Plan9.Messages.{
  Message, fields, header_formats, encode_fields, default_of, encode_message, decode_fields,
  decode_message, type_of, tag_of,
}

-- As many values as fields, each plain for its kind.
abbrev pub AllPlain : List Kind → List Value → Type 0
AllPlain [] [] = Unit
AllPlain [] (v ∷ vs) = ⊥
AllPlain (k ∷ ks) [] = ⊥
AllPlain (k ∷ ks) (v ∷ vs) = Plain k v × AllPlain ks vs

Reads-decode_fields :
    (d : Value) (ks : List Kind) (vs : List Value) (bs : List ℕ)
    → AllPlain ks vs
    → encode_fields d ks vs ≡ some bs
    → Reads (decode_fields ks) bs vs
unfolding encode_fields decode_fields
Reads-decode_fields d [] [] bs plain h =
    let e : [] ≡ bs = cc h in subst (λ l. Reads {A = List Value} (pure []) l []) e (Reads-pure [])
Reads-decode_fields d [] (v ∷ vs) bs plain h = absurd plain
Reads-decode_fields d (k ∷ ks) [] bs plain h = absurd plain
Reads-decode_fields d (k ∷ ks) (v ∷ vs) bs (here, plain) h =
    let (us, p, h1) = >>=-eq-some (encode k v) _ h in
    let (rest, q, e) = >>=-eq-some (encode_fields d ks vs) _ h1 in
    let split : us ++ rest ≡ bs = cc e in
    subst (λ l. Reads (decode_fields (k ∷ ks)) l (v ∷ vs)) split
      (Reads-bind (decode k) (λ w. decode_fields ks >>=R λ ws. pure (w ∷ ws)) us rest v (v ∷ vs)
        (Reads-decode k v us here p)
        (Reads-map (decode_fields ks) (λ ws. v ∷ ws) rest vs
          (Reads-decode_fields d ks vs rest plain q)))

-- The parts of an encoded message.
pub record Encoded (m : Message) (bs : List ℕ) : Type 0 where
  pub header : List ℕ
  pub body : List ℕ
  pub encode_body : encode_fields (default_of m.type') (fields m.type') m.values ≡ some body
  pub pack_header :
      pack_fields header_formats ((7 + length body) ∷ m.type' ∷ m.tag ∷ []) ≡ some header
  pub whole : header ++ body ≡ bs

pub split_message : (m : Message) (bs : List ℕ) → encode_message m ≡ some bs → Encoded m bs
unfolding encode_message
split_message m bs h =
    let (body, p, h1) =
      >>=-eq-some (encode_fields (default_of m.type') (fields m.type') m.values) _ h in
    let (header, q, e) =
      >>=-eq-some (pack_fields header_formats ((7 + length body) ∷ m.type' ∷ m.tag ∷ [])) _ h1 in
    record { header = header; body = body; encode_body = p; pack_header = q; whole = cc e }

-- A message that `encode` writes is read back by `decode` of the class of its type, wherever its
-- bytes stand, with its type, its tag and the values of its fields. The values are of the kinds of
-- the fields as they are read, all of them are given, and their texts are ASCII.
pub decode_message-encode_message :
    (m : Message) (bs : List ℕ)
    → AllPlain (fields m.type') m.values
    → encode_message m ≡ some bs
    → Reads (decode_message m.type') bs m
unfolding decode_message filled
decode_message-encode_message m bs plain h =
    let t = split_message m bs h in
    subst (λ l. Reads (decode_message m.type') l m) t.whole
      (Reads-bind (read_fields header_formats)
        (λ ns. decode_fields (fields m.type') >>=R λ vs.
          pure (record { type' = type_of ns; tag = tag_of ns; values = vs }))
        t.header t.body ((7 + length t.body) ∷ m.type' ∷ m.tag ∷ []) m
        (Reads-read_fields header_formats _ t.header t.pack_header)
        (Reads-map (decode_fields (fields m.type'))
          (λ vs. record { type' = m.type'; tag = m.tag; values = vs }) t.body m.values
          (Reads-decode_fields (default_of m.type') (fields m.type') m.values t.body plain
            t.encode_body)))

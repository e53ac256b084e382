-- ===== src/Plan9/Codec/Ascii.antt =====
-- A text is read back exactly when it is ASCII.
use pyroute.Prelude.{
  ℕ, ◌+◌, ◌≡◌, ◌↔◌, refl, sym, ap, ◌∙◌, subst, Option, none, some, List, [], ◌∷◌, ◌++◌, length,
  take, length-take, All, arith, append-nil, take_length-append,
}
use pyroute.Prelude.Bytes.{At, At-left, At-right}
use pyroute.Netlink.Nla.{pack_fields}
use pyroute.Netlink.Nla.Monad.{>>=-eq-some}
use pyroute.Netlink.Nla.Fields.{filled}
use pyroute.Plan9.Utf8.{
  encode_text, decode_text, IsAscii, encode_text-ascii, decode_text-ascii, decode_text-IsAscii,
  encode_text-length,
}
use pyroute.Plan9.Reader.{
  Reads, Reads-bind, Reads-map, Reads-read_fields, Reads-read_bytes, Reads-lift, lift, read_bytes,
  ◌>>=◌ as ◌>>=R◌,
}
use pyroute.Plan9.Codec.{little, encode_string}
use pyroute.Plan9.Codec.Decode.{read_uint, read_string}

pub Reads-read_uint :
    (w v : ℕ) (bs : List ℕ)
    → pack_fields (little w ∷ []) (v ∷ []) ≡ some bs
    → Reads (read_uint w) bs v
unfolding read_uint filled
Reads-read_uint w v bs h =
    Reads-map _ _ bs (v ∷ []) (Reads-read_fields (little w ∷ []) (v ∷ []) bs h)

pub take_length {ℓ} : {A : Type ℓ} (xs : List A) → take (length xs) xs ≡ xs
take_length xs = ap (take (length xs)) (sym (append-nil xs)) ∙ take_length-append xs []

pub Reads-read_string :
    (cs bs : List ℕ) → All IsAscii cs → encode_string cs ≡ some bs → Reads read_string bs cs
unfolding encode_string read_string
Reads-read_string cs bs plain h =
    let (us, e, h1) = >>=-eq-some (encode_text cs) _ h in
    let (size, p, h2) = >>=-eq-some (pack_fields (little 2 ∷ []) (length cs ∷ [])) _ h1 in
    let same : us ≡ cs = cc (encode_text-ascii cs plain) in
    let split : size ++ cs ≡ bs =
      ap (λ l. size ++ l) (sym (take_length cs) ∙ ap (take (length cs)) (sym same)) ∙ cc h2 in
    subst (λ l. Reads read_string l cs) split
      (Reads-bind (read_uint 2) (λ n. read_bytes n >>=R λ us. lift (decode_text us)) size cs
        (length cs) cs (Reads-read_uint 2 (length cs) size p)
        (Reads-lift (read_bytes (length cs)) decode_text cs cs cs (Reads-read_bytes cs)
          (decode_text-ascii cs plain)))

lift-some :
    {A : Type 0} (o : Option A) (buf : List ℕ) (off n : ℕ) (a : A)
    → lift o buf off ≡ some (a, n)
    → o ≡ some a
lift-some none buf off n a h = cc
lift-some (some b) buf off n a h = cc

-- Of a whole buffer, what follows the length is decoded.
read_string_whole :
    (size cut : List ℕ)
    → pack_fields (little 2 ∷ []) (length cut ∷ []) ≡ some size
    → read_string (size ++ cut) 0
      ≡ lift (decode_text cut) (size ++ cut) (0 + length size + length cut)
unfolding read_string
read_string_whole size cut p =
    let at : At (size ++ cut) 0 (size ++ cut) = record {
      behind = [];
      inside = omega arith;
      there = sym (append-nil (size ++ cut));
    } in
    rw
      (
        Reads-read_uint 2 (length cut) size p (size ++ cut) 0 (At-left size cut at),
        ◌>>=R◌,
        Reads-read_bytes cut (size ++ cut) (0 + length size) (At-right (size ++ cut) 0 size cut at),
      )
      refl

read_string-IsAscii :
    (cs bs : List ℕ) → encode_string cs ≡ some bs → Reads read_string bs cs → All IsAscii cs
unfolding encode_string
read_string-IsAscii cs bs h reads =
    let (us, e, h1) = >>=-eq-some (encode_text cs) _ h in
    let (size, p, h2) = >>=-eq-some (pack_fields (little 2 ∷ []) (length cs ∷ [])) _ h1 in
    let cut : List ℕ = take (length cs) us in
    let split : bs ≡ size ++ cut = cc h2 in
    let long : length cut ≡ length cs =
      omega (arith, length-take (length cs) us, encode_text-length cs us e) in
    let at : At (size ++ cut) 0 bs = record {
      behind = [];
      inside = omega arith;
      there = sym split ∙ sym (append-nil bs);
    } in
    let got : read_string (size ++ cut) 0 ≡ some (cs, 0 + length bs) = reads (size ++ cut) 0 at in
    let whole = read_string_whole size cut (rw long p) in
    decode_text-IsAscii cut cs (lift-some (decode_text cut) (size ++ cut) _ _ cs (sym whole ∙ got))
      (sym long)

-- A text that `String.encode_into` writes is read back by `String.decode_from`, wherever its bytes
-- stand, exactly when all its characters are ASCII: the length is counted in characters, and the
-- bytes are cut to it.
pub read_string_iff :
    (cs bs : List ℕ) → encode_string cs ≡ some bs → Reads read_string bs cs ↔ All IsAscii cs
read_string_iff cs bs h = (read_string-IsAscii cs bs h, λ plain. Reads-read_string cs bs plain h)

-- ===== src/Plan9/Codec/RoundTrip.antt =====
-- A field is read back as it was written.
use pyroute.Prelude.{
  ℕ, zero, suc, ◌≡◌, refl, sym, ap, ◌∙◌, subst, none, some, List, [], ◌∷◌, ◌++◌, length, All, arith,
  Bool-cases, inl, inr, ◌==◌, ==_iff, if◌then◌else◌,
}
use pyroute.Netlink.Nla.{pack_fields}
use pyroute.Netlink.Nla.Monad.{>>=-eq-some}
use pyroute.Netlink.Nla.Fields.{filled}
use pyroute.Plan9.Utf8.{IsAscii}
use pyroute.Plan9.Reader.{
  Reader, Reads, Reads-bind, Reads-map, Reads-pure, Reads-read_fields, Reads-read_slice, read_slice,
  read_fields, pure, ◌>>=◌ as ◌>>=R◌,
}
use pyroute.Plan9.Codec.{
  Qid, Stat, Kind, uint, raw, string, cdata, qid, stat, wstat, array, Value, num, nums, text, bytes,
  a_qid, a_stat, items, Items, nil, cons, little, repeat, qid_formats, encode, encode_cdata,
  encode_qid, encode_items, encode_array, items_length,
}
use pyroute.Plan9.Codec.Decode.{
  decode, read_uint, read_string, read_cdata, read_qid, qid_of, read_stat, read_wstat, read_items,
}
use pyroute.Plan9.Codec.Ascii.{take_length, Reads-read_uint, Reads-read_string}
use pyroute.Plan9.Codec.Stats.{IsPlain, Reads-read_stat, Reads-read_wstat}

-- A value that is of the kind as it is read, with ASCII texts.
mutual
  pub data Plain : Kind → Value → Type 0 where
    plain_uint : (w n : ℕ) → Plain (uint w) (num n)
    plain_raw : (n : ℕ) (ns : List ℕ) → Plain (raw n) (nums ns)
    plain_string : (cs : List ℕ) → All IsAscii cs → Plain string (text cs)
    plain_cdata : (bs : List ℕ) → Plain cdata (bytes bs)
    plain_qid : (q : Qid) → Plain qid (a_qid q)
    plain_stat : (s : Stat) → IsPlain s → Plain stat (a_stat s)
    plain_wstat : (s : Stat) → IsPlain s → Plain wstat (a_stat s)
    plain_array : (k : Kind) (xs : Items) → PlainItems k xs → Plain (array k) (items xs)

  pub data PlainItems : Kind → Items → Type 0 where
    plain_nil : (k : Kind) → PlainItems k nil
    plain_cons :
        (k : Kind) (v : Value) (xs : Items) → Plain k v → PlainItems k xs → PlainItems k (cons v xs)

filled-repeat : (n : ℕ) (ns : List ℕ) → length ns ≡ n → filled (repeat n (little 1)) ns ≡ ns
unfolding filled
filled-repeat zero [] h = refl
filled-repeat zero (x ∷ ns) h = absurd (omega arith)
filled-repeat (suc n) [] h = absurd (omega arith)
filled-repeat (suc n) (x ∷ ns) h = ap (λ l. x ∷ l) (filled-repeat n ns (omega arith))

Reads-read_qid : (q : Qid) (bs : List ℕ) → encode_qid q ≡ some bs → Reads read_qid bs q
unfolding encode_qid read_qid filled
Reads-read_qid q bs h =
    Reads-map (read_fields qid_formats) qid_of bs _ (Reads-read_fields qid_formats _ bs h)

Reads-read_cdata : (us bs : List ℕ) → encode_cdata (length us) us ≡ some bs → Reads read_cdata bs us
unfolding encode_cdata read_cdata
Reads-read_cdata us bs h =
    let (size, p, e) = >>=-eq-some (pack_fields (little 4 ∷ []) (length us ∷ [])) _ h in
    let split : size ++ us ≡ bs = ap (λ l. size ++ l) (sym (take_length us)) ∙ cc e in
    subst (λ l. Reads read_cdata l us) split
      (Reads-bind (read_uint 4) read_slice size us (length us) us
        (Reads-read_uint 4 (length us) size p) (Reads-read_slice us))

Reads-raw :
    (n : ℕ) (ns bs : List ℕ)
    → (if length ns == n then pack_fields (repeat n (little 1)) ns else none) ≡ some bs
    → Reads (read_fields (repeat n (little 1))) bs ns
Reads-raw n ns bs h = elim (Bool-cases (length ns == n)) [
  | inl y ↦
      let packed : pack_fields (repeat n (little 1)) ns ≡ some bs = rw y at h in
      let same : filled (repeat n (little 1)) ns ≡ ns = filled-repeat n ns ((==_iff _ _).0 y) in
      subst (Reads (read_fields (repeat n (little 1))) bs) same
        (Reads-read_fields (repeat n (little 1)) ns bs packed)
  | inr m ↦ let lost : none ≡ some bs = rw m at h in absurd (ground arith)
]

abbrev cons_reader : Kind → Items → Reader Items
cons_reader k xs =
    decode k >>=R λ w. read_items (items_length xs) (decode k) >>=R λ ys. pure (cons w ys)

mutual
  unfolding encode decode encode_items read_items encode_array

  Reads-kind :
      {k : Kind} {v : Value} (bs : List ℕ)
      → Plain k v
      → encode k v ≡ some bs
      → Reads (decode k) bs v
  Reads-kind bs (plain_uint w n) h = Reads-map (read_uint w) num bs n (Reads-read_uint w n bs h)
  Reads-kind bs (plain_raw n ns) h =
      Reads-map (read_fields (repeat n (little 1))) nums bs ns (Reads-raw n ns bs h)
  Reads-kind bs (plain_string cs a) h =
      Reads-map read_string text bs cs (Reads-read_string cs bs a h)
  Reads-kind bs (plain_cdata us) h = Reads-map read_cdata bytes bs us (Reads-read_cdata us bs h)
  Reads-kind bs (plain_qid q) h = Reads-map read_qid a_qid bs q (Reads-read_qid q bs h)
  Reads-kind bs (plain_stat s p) h = Reads-map read_stat a_stat bs s (Reads-read_stat s bs p h)
  Reads-kind bs (plain_wstat s p) h = Reads-map read_wstat a_stat bs s (Reads-read_wstat s bs p h)
  Reads-kind bs (plain_array k xs all) h =
      let (size, p, h1) = >>=-eq-some (pack_fields (little 2 ∷ []) (items_length xs ∷ [])) _ h in
      let (rest, q, e) = >>=-eq-some (encode_items (encode k) xs) _ h1 in
      let split : size ++ rest ≡ bs = cc e in
      subst (λ l. Reads (decode (array k)) l (items xs)) split
        (Reads-bind (read_uint 2) (λ n. read_items n (decode k) >>=R λ ys. pure (items ys)) size
          rest (items_length xs) (items xs) (Reads-read_uint 2 (items_length xs) size p)
          (Reads-map (read_items (items_length xs) (decode k)) items rest xs
            (Reads-items rest all q)))

  Reads-items :
      {k : Kind} {xs : Items} (bs : List ℕ)
      → PlainItems k xs
      → encode_items (encode k) xs ≡ some bs
      → Reads (read_items (items_length xs) (decode k)) bs xs
  Reads-items bs (plain_nil k) h =
      let e : [] ≡ bs = cc h in subst (λ l. Reads (pure nil) l nil) e (Reads-pure nil)
  Reads-items bs (plain_cons k v xs here all) h =
      let (us, p, h1) = >>=-eq-some (encode k v) _ h in
      let (rest, q, e) = >>=-eq-some (encode_items (encode k) xs) _ h1 in
      let split : us ++ rest ≡ bs = cc e in
      subst (λ l. Reads (cons_reader k xs) l (cons v xs)) split
        (Reads-bind (decode k)
          (λ w. read_items (items_length xs) (decode k) >>=R λ ys. pure (cons w ys)) us rest v
          (cons v xs) (Reads-kind us here p)
          (Reads-map (read_items (items_length xs) (decode k)) (cons v) rest xs
            (Reads-items rest all q)))

-- A value that is plain for its kind is read back from what the encoder of the kind wrote, wherever
-- the bytes stand.
pub Reads-decode :
    (k : Kind) (v : Value) (bs : List ℕ) → Plain k v → encode k v ≡ some bs → Reads (decode k) bs v
Reads-decode k v bs plain h = Reads-kind bs plain h

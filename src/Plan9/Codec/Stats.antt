-- ===== src/Plan9/Codec/Stats.antt =====
-- A stat is read back as it was written.
use pyroute.Prelude.{
  ℕ, ◌+◌, ◌≡◌, sym, ap, ◌∙◌, subst, some, List, [], ◌∷◌, ◌++◌, length, All, arith, length-append,
}
use pyroute.Netlink.Nla.{pack_fields, size_of}
use pyroute.Netlink.Nla.Monad.{>>=-eq-some}
use pyroute.Prelude.Bytes.{At, At-right}
use pyroute.Netlink.Nla.Fields.{filled, length-pack_fields}
use pyroute.Plan9.Utf8.{IsAscii}
use pyroute.Plan9.Reader.{
  Reads, Reads-bind, Reads-map, Reads-read_fields, read_fields, pure, ◌>>=◌ as ◌>>=R◌,
}
use pyroute.Plan9.Codec.{
  Stat, stat_size, stat_numbers, little, stat_formats, encode_string, encode_stat, encode_wstat,
}
use pyroute.Plan9.Codec.Decode.{read_string, read_stat, stat_of, read_wstat}
use pyroute.Plan9.Codec.Ascii.{Reads-read_string}

-- The texts are ASCII, and the size is the one that is written.
pub record IsPlain (s : Stat) : Type 0 where
  pub sized : s.size ≡ stat_size s
  pub name_ascii : All IsAscii s.name
  pub uid_ascii : All IsAscii s.uid
  pub gid_ascii : All IsAscii s.gid
  pub muid_ascii : All IsAscii s.muid

-- The four texts behind the numbers of a stat.
record Texts (s : Stat) : Type 0 where
  header : List ℕ
  name : List ℕ
  uid : List ℕ
  gid : List ℕ
  muid : List ℕ
  pack_header : pack_fields stat_formats (stat_numbers s) ≡ some header
  name_bytes : encode_string s.name ≡ some name
  uid_bytes : encode_string s.uid ≡ some uid
  gid_bytes : encode_string s.gid ≡ some gid
  muid_bytes : encode_string s.muid ≡ some muid

abbrev layout : (s : Stat) → Texts s → List ℕ
layout s t = t.header ++ (t.name ++ (t.uid ++ (t.gid ++ t.muid)))

split_stat : (s : Stat) (bs : List ℕ) → encode_stat s ≡ some bs → (t : Texts s) × (layout s t ≡ bs)
unfolding encode_stat
split_stat s bs h =
    let (header, p, h1) = >>=-eq-some (pack_fields stat_formats (stat_numbers s)) _ h in
    let (name, p1, h2) = >>=-eq-some (encode_string s.name) _ h1 in
    let (uid, p2, h3) = >>=-eq-some (encode_string s.uid) _ h2 in
    let (gid, p3, h4) = >>=-eq-some (encode_string s.gid) _ h3 in
    let (muid, p4, e) = >>=-eq-some (encode_string s.muid) _ h4 in
    (
      record {
        header = header;
        name = name;
        uid = uid;
        gid = gid;
        muid = muid;
        pack_header = p;
        name_bytes = p1;
        uid_bytes = p2;
        gid_bytes = p3;
        muid_bytes = p4;
      },
      cc e,
    )

numbered_stat_lem :
    (s : Stat) (t : Texts s)
    → IsPlain s
    → Reads read_stat (layout s t) (stat_of (stat_numbers s) s.name s.uid s.gid s.muid)
unfolding read_stat filled
numbered_stat_lem s t plain =
    let last = λ (name uid gid muid : List ℕ). pure (stat_of (stat_numbers s) name uid gid muid) in
    let after_gid = λ (name uid gid : List ℕ). read_string >>=R last name uid gid in
    let after_uid = λ (name uid : List ℕ). read_string >>=R after_gid name uid in
    let after_name = λ (name : List ℕ). read_string >>=R after_uid name in
    let result : Stat = stat_of (stat_numbers s) s.name s.uid s.gid s.muid in
    let read_muid : Reads (read_string >>=R last s.name s.uid s.gid) t.muid result =
      Reads-map read_string (stat_of (stat_numbers s) s.name s.uid s.gid) t.muid s.muid
        (Reads-read_string s.muid t.muid plain.muid_ascii t.muid_bytes) in
    let read_gid : Reads (read_string >>=R after_gid s.name s.uid) (t.gid ++ t.muid) result =
      Reads-bind read_string (after_gid s.name s.uid) t.gid t.muid s.gid result
        (Reads-read_string s.gid t.gid plain.gid_ascii t.gid_bytes) read_muid in
    let read_uid : Reads (read_string >>=R after_uid s.name) (t.uid ++ (t.gid ++ t.muid)) result =
      Reads-bind read_string (after_uid s.name) t.uid (t.gid ++ t.muid) s.uid result
        (Reads-read_string s.uid t.uid plain.uid_ascii t.uid_bytes) read_gid in
    let read_name : Reads (read_string >>=R after_name) (t.name ++ (t.uid ++ (t.gid ++ t.muid)))
        result =
      Reads-bind read_string after_name t.name (t.uid ++ (t.gid ++ t.muid)) s.name result
        (Reads-read_string s.name t.name plain.name_ascii t.name_bytes) read_uid in
    Reads-bind (read_fields stat_formats)
      (λ ns. read_string >>=R λ name. read_string >>=R λ uid.
        read_string >>=R λ gid. read_string >>=R λ muid. pure (stat_of ns name uid gid muid))
      t.header (t.name ++ (t.uid ++ (t.gid ++ t.muid))) (stat_numbers s) result
      (Reads-read_fields stat_formats (stat_numbers s) t.header t.pack_header) read_name

sized_lem : (s : Stat) → IsPlain s → stat_of (stat_numbers s) s.name s.uid s.gid s.muid ≡ s
sized_lem s plain = ap (λ n. record s { size = n }) (sym plain.sized)

pub Reads-read_stat :
    (s : Stat) (bs : List ℕ) → IsPlain s → encode_stat s ≡ some bs → Reads read_stat bs s
Reads-read_stat s bs plain h =
    let (t, split) = split_stat s bs h in
    subst (λ l. Reads read_stat l s) split
      (subst (Reads read_stat (layout s t)) (sized_lem s plain) (numbered_stat_lem s t plain))

pub Reads-read_wstat :
    (s : Stat) (bs : List ℕ) → IsPlain s → encode_wstat s ≡ some bs → Reads read_wstat bs s
unfolding encode_wstat read_wstat size_of
Reads-read_wstat s bs plain h buf off at =
    let (stat_bytes, p, h1) = >>=-eq-some (encode_stat s) _ h in
    let (size, q, e) = >>=-eq-some (pack_fields (little 2 ∷ []) (length stat_bytes ∷ [])) _ h1 in
    let split : bs ≡ size ++ stat_bytes = cc e in
    let two : length size ≡ 2 = length-pack_fields (little 2 ∷ []) (length stat_bytes ∷ []) q in
    let at' : At buf (off + length size) stat_bytes =
      At-right buf off size stat_bytes (subst (At buf off) split at) in
    let read : read_stat buf (off + length size) ≡ some (s, off + length size + length stat_bytes) =
      Reads-read_stat s stat_bytes plain p buf (off + length size) at' in
    subst (λ n. read_stat buf (off + n) ≡ some (s, off + length bs)) two
      (read ∙ ap (λ n. some (s, n)) (omega (arith, ap length split, length-append size stat_bytes)))

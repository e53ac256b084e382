-- ===== src/Plan9/Codec/Decode.antt =====
-- `decode_from` of the field types of pyroute2/plan9/__init__.py, and `decode_field` for the formats.
use pyroute.Prelude.{ℕ, zero, suc, ◌+◌, List, [], ◌∷◌}
use pyroute.Plan9.Reader.{Reader, pure, lift, ◌>>=◌, read_fields, read_bytes, read_slice}
use pyroute.Plan9.Utf8.{decode_text}
use pyroute.Plan9.Codec.{
  Qid, Stat, Kind, uint, raw, string, cdata, qid, stat, wstat, array, Value, num, nums, text, bytes,
  a_qid, a_stat, items, Items, nil, cons, little, qid_formats, stat_formats, repeat,
}

abbrev pub head_or_zero : List ℕ → ℕ
head_or_zero [] = 0
head_or_zero (n ∷ ns) = n

unfoldable pub read_uint : ℕ → Reader ℕ
read_uint w = read_fields (little w ∷ []) >>= λ vs. pure (head_or_zero vs)

unfoldable pub read_string : Reader (List ℕ)
read_string = do n ← read_uint 2; bs ← read_bytes n; lift (decode_text bs)

unfoldable pub read_cdata : Reader (List ℕ)
read_cdata = do n ← read_uint 4; read_slice n

abbrev pub qid_of : List ℕ → Qid
qid_of (t ∷ v ∷ p ∷ rest) = record { qtype = t; vers = v; path = p }
qid_of ns = record { qtype = 0; vers = 0; path = 0 }

unfoldable pub read_qid : Reader Qid
read_qid = read_fields qid_formats >>= λ ns. pure (qid_of ns)

-- The numbers of the header, with the four texts.
abbrev pub stat_of : List ℕ → List ℕ → List ℕ → List ℕ → List ℕ → Stat
stat_of (size ∷ t ∷ dev ∷ qt ∷ qv ∷ qp ∷ mode ∷ atime ∷ mtime ∷ n ∷ rest) name uid gid muid =
    record {
      size = size;
      type' = t;
      dev = dev;
      qid = record { qtype = qt; vers = qv; path = qp };
      mode = mode;
      atime = atime;
      mtime = mtime;
      length' = n;
      name = name;
      uid = uid;
      gid = gid;
      muid = muid;
    }
stat_of ns name uid gid muid = record {
  size = 0;
  type' = 0;
  dev = 0;
  qid = record { qtype = 0; vers = 0; path = 0 };
  mode = 0;
  atime = 0;
  mtime = 0;
  length' = 0;
  name = name;
  uid = uid;
  gid = gid;
  muid = muid;
}

unfoldable pub read_stat : Reader Stat
read_stat = do
  ns ← read_fields stat_formats
  name ← read_string
  uid ← read_string
  gid ← read_string
  muid ← read_string
  pure (stat_of ns name uid gid muid)

-- The length before it is ignored.
unfoldable pub read_wstat : Reader Stat
read_wstat buf off = read_stat buf (off + 2)

unfoldable pub read_items : ℕ → Reader Value → Reader Items
read_items zero read = pure nil
read_items (suc n) read = do v ← read; xs ← read_items n read; pure (cons v xs)

unfoldable pub decode : Kind → Reader Value
decode (uint w) = read_uint w >>= λ n. pure (num n)
decode (raw n) = read_fields (repeat n (little 1)) >>= λ ns. pure (nums ns)
decode string = read_string >>= λ cs. pure (text cs)
decode cdata = read_cdata >>= λ bs. pure (bytes bs)
decode qid = read_qid >>= λ q. pure (a_qid q)
decode stat = read_stat >>= λ s. pure (a_stat s)
decode wstat = read_wstat >>= λ s. pure (a_stat s)
decode (array k) = do n ← read_uint 2; xs ← read_items n (decode k); pure (items xs)

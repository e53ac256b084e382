-- ===== src/Plan9/Codec.antt =====
-- The field types of pyroute2/plan9/__init__.py: `array`, `Qid`, `Stat`, `WStat`, `CData`, `String`, and
-- the integer formats, with `encode_into` of each. What an encoder writes stands at the
-- end of its buffer, so it returns the bytes that it appends. `none` is an exception: struct.error,
-- UnicodeError, or TypeError for a value of another type.
pub mod Decode
pub mod Stats
pub mod RoundTrip
pub mod Ascii
use pyroute.Prelude.{
  ℕ, zero, suc, ◌+◌, ◌^◌, Bool, true, false, Option, none, some, List, [], ◌∷◌, ◌++◌, length, take,
  replicate, ltb, ◌==◌, if◌then◌else◌,
}
use pyroute.Netlink.Nla.{Format, pack_fields}
use pyroute.Netlink.Nla.Monad.{◌>>=◌}
use pyroute.Plan9.Utf8.{encode_text}

pub record Qid : Type 0 where
  pub qtype : ℕ
  pub vers : ℕ
  pub path : ℕ

pub record Stat : Type 0 where
  pub size : ℕ
  pub type' : ℕ
  pub dev : ℕ
  pub qid : Qid
  pub mode : ℕ
  pub atime : ℕ
  pub mtime : ℕ
  pub length' : ℕ
  pub name : List ℕ
  pub uid : List ℕ
  pub gid : List ℕ
  pub muid : List ℕ

-- An integer of a width, `{n}B`, and the classes.
pub data Kind : Type 0 where
  uint : ℕ → Kind
  raw : ℕ → Kind
  string cdata qid stat wstat : Kind
  array : Kind → Kind

-- A field that is not set has the default, which is the number 0.
mutual
  pub data Value : Type 0 where
    num : ℕ → Value
    nums : List ℕ → Value
    text : List ℕ → Value
    bytes : List ℕ → Value
    a_qid : Qid → Value
    a_stat : Stat → Value
    items : Items → Value

  pub data Items : Type 0 where
    nil : Items
    cons : Value → Items → Items

abbrev pub little : ℕ → Format
little w = record { width = w; big_endian = false }

-- `=BIQ`
abbrev pub qid_formats : List Format
qid_formats = little 1 ∷ little 4 ∷ little 8 ∷ []

-- `=HHIBIQIIIQ`
abbrev pub stat_formats : List Format
stat_formats =
    little 2
    ∷ little 2
    ∷ little 4
    ∷ little 1
    ∷ little 4
    ∷ little 8
    ∷ little 4
    ∷ little 4
    ∷ little 4
    ∷ little 8
    ∷ []

abbrev pub stat_size : Stat → ℕ
stat_size s = 47 + length s.name + length s.uid + length s.gid + length s.muid

abbrev pub stat_numbers : Stat → List ℕ
stat_numbers s =
    stat_size s
    ∷ s.type'
    ∷ s.dev
    ∷ s.qid.qtype
    ∷ s.qid.vers
    ∷ s.qid.path
    ∷ s.mode
    ∷ s.atime
    ∷ s.mtime
    ∷ s.length'
    ∷ []

abbrev pub repeat : ℕ → Format → List Format
repeat n f = replicate n f

-- The length is that of the text, in characters; `{length}s` cuts the encoded text to it.
unfoldable pub encode_string : List ℕ → Option (List ℕ)
encode_string cs = do
  bs ← encode_text cs
  size ← pack_fields (little 2 ∷ []) (length cs ∷ [])
  some (size ++ take (length cs) bs)

unfoldable pub encode_cdata : ℕ → List ℕ → Option (List ℕ)
encode_cdata n bs = do size ← pack_fields (little 4 ∷ []) (n ∷ []); some (size ++ take n bs)

unfoldable pub encode_qid : Qid → Option (List ℕ)
encode_qid q = pack_fields qid_formats (q.qtype ∷ q.vers ∷ q.path ∷ [])

unfoldable pub encode_stat : Stat → Option (List ℕ)
encode_stat s = do
  header ← pack_fields stat_formats (stat_numbers s)
  name ← encode_string s.name
  uid ← encode_string s.uid
  gid ← encode_string s.gid
  muid ← encode_string s.muid
  some (header ++ (name ++ (uid ++ (gid ++ muid))))

unfoldable pub encode_wstat : Stat → Option (List ℕ)
encode_wstat s = do
  bs ← encode_stat s
  size ← pack_fields (little 2 ∷ []) (length bs ∷ [])
  some (size ++ bs)

abbrev pub items_length : Items → ℕ
items_length nil = 0
items_length (cons v xs) = suc (items_length xs)

unfoldable pub encode_items : (Value → Option (List ℕ)) → Items → Option (List ℕ)
encode_items encode nil = some []
encode_items encode (cons v xs) = do bs ← encode v; rest ← encode_items encode xs; some (bs ++ rest)

unfoldable pub encode_array : (Value → Option (List ℕ)) → Items → Option (List ℕ)
encode_array encode xs = do
  count ← pack_fields (little 2 ∷ []) (items_length xs ∷ [])
  bs ← encode_items encode xs
  some (count ++ bs)

-- `encode_field` for a format, `encode_into` for a class.
unfoldable pub encode : Kind → Value → Option (List ℕ)
encode (uint w) (num n) = pack_fields (little w ∷ []) (n ∷ [])
encode (uint w) v = none
encode (raw n) (nums ns) = if length ns == n then pack_fields (repeat n (little 1)) ns else none
encode (raw n) (num k) = if k == 0 then some (replicate n 0) else none
encode (raw n) v = none
encode string (text cs) = encode_string cs
encode string v = none
encode cdata (bytes bs) = encode_cdata (length bs) bs
encode cdata (text cs) = do bs ← encode_text cs; encode_cdata (length cs) bs
encode cdata v = none
encode qid (a_qid q) = encode_qid q
encode qid v = none
encode stat (a_stat s) = encode_stat s
encode stat v = none
encode wstat (a_stat s) = encode_wstat s
encode wstat v = none
encode (array k) (items xs) = encode_array (encode k) xs
encode (array k) v = encode_array (encode k) nil

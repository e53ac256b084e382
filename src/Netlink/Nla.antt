-- ===== src/Netlink/Nla.antt =====
-- Netlink attributes: `nlmsg_base.encode`, `decode`, `encode_nlas` and `decode_nlas` of
-- pyroute2/netlink/__init__.py, with the field codecs below them.
--
-- The classes of messages are a table from class numbers; `fields` and `nla_map` are those of
-- the class. What the code writes at an offset stands at the end of its buffer, so encoding
-- returns the bytes that it appends. `none` is a struct.error.
pub mod Monad
pub mod Words
pub mod Fields
pub mod Slots
pub mod Encode
pub mod Faithful
pub mod Reading
pub mod RoundTrip
pub mod Short
pub mod Tests
use Prim.Native.String.{String}
use text.Mathlib.Text.{◌==◌ as str_eq}
use Monad.{◌>>=◌, ◌>>◌}
use mathlib.Core.List.{reverse}
use pyroute.Prelude.{
  ℕ, zero, suc, ◌+◌, ◌-◌, ◌*◌, ◌/◌, ◌^◌, bit_and, bit_or, Bool, true, false, Option, none, some,
  List, [], ◌∷◌, ◌++◌, length, drop, take, replicate, ltb, leb, ◌==◌, if◌then◌else◌, min, max,
}
use pyroute.Prelude.Bytes.{le_bytes, le_value, be_bytes, be_value, bytes_at}

-- `(length + 4 - 1) & ~(4 - 1)`
abbrev pub align4 : ℕ → ℕ
align4 n = (n + 3) / 4 * 4

-- A format of one unsigned integer: `H` is of width 2, `>H` is big-endian too.
pub record Format : Type 0 where
  pub width : ℕ
  pub big_endian : Bool

-- `fields` of a class: integers by name, in order, or the one string of `nla_base_string`.
pub data Layout : Type 0 where
  fields : List Format → Layout
  zstring : Bool → Layout

-- The `prime` of an attribute that is no array.
pub record Entry : Type 0 where
  pub key : ℕ
  pub name : String
  pub class : ℕ
  pub nla_flags : ℕ

pub record Class : Type 0 where
  pub layout : Layout
  pub nla_map : List Entry

-- The value of a message: its fields in order, and the chain under `attrs`.
mutual
  pub data Message : Type 0 where
    message : List ℕ → Attrs → Message
    string : List ℕ → Message

  pub data Attrs : Type 0 where
    no_attrs : Attrs
    attr : String → Message → Attrs → Attrs

-- `struct.pack_into(fmt, …)`: a value that does not fit is an error.
unfoldable pub pack : Format → ℕ → Option (List ℕ)
pack f v =
    if ltb v (256 ^ f.width)
    then some (if f.big_endian then be_bytes f.width v else le_bytes f.width v)
    else none

unfoldable pub unpack : Format → List ℕ → ℕ → Option ℕ
unpack f data' off = do
  bs ← bytes_at f.width data' off
  some (if f.big_endian then be_value bs else le_value bs)

abbrev pub u16 : Format
u16 = record { width = 2; big_endian = false }

-- The fields of `ft_encode`; a field that is not given has the default 0.
unfoldable pub pack_fields : List Format → List ℕ → Option (List ℕ)
pack_fields [] vs = some []
pack_fields (f ∷ fs) [] = do b ← pack f 0; bs ← pack_fields fs []; some (b ++ bs)
pack_fields (f ∷ fs) (v ∷ vs) = do b ← pack f v; bs ← pack_fields fs vs; some (b ++ bs)

pub zeros_of_flag : Bool → ℕ
zeros_of_flag true = 1
zeros_of_flag false = 0

-- A string is given by its bytes, as `bytes` or as an ASCII text.
pub field_bytes : Layout → Message → Option (List ℕ)
field_bytes (fields fs) (message vs as') = pack_fields fs vs
field_bytes (zstring z) (string s) = some (s ++ replicate (zeros_of_flag z) 0)
field_bytes (fields fs) (string s) = none
field_bytes (zstring z) (message vs as') = none

pub attrs_of : Message → Attrs
attrs_of (message vs as') = as'
attrs_of (string s) = no_attrs

-- Dictionaries of a class: a later entry replaces an earlier one.
pub by_name : List Entry → String → Option Entry
by_name [] n = none
by_name (e ∷ es) n =
    let later = by_name es n in
    elim later [ some x ↦ some x | none ↦ if str_eq e.name n then some e else none ]

pub by_key : List Entry → ℕ → Option Entry
by_key [] k = none
by_key (e ∷ es) k =
    let later = by_key es k in
    elim later [ some x ↦ some x | none ↦ if e.key == k then some e else none ]

-- `diff` of `ft_encode`.
pub padding : ℕ → ℕ
padding n = align4 n - n

-- An encoded attribute: the bytes, and the length that its header states.
pub record Encoded : Type 0 where
  pub bytes : List ℕ
  pub stated : ℕ

-- The header with the length `offset - self.offset - diff`, before the body.
pub with_header : ℕ → ℕ → List ℕ → Option Encoded
with_header type' diff body = do
  let stated = 4 + length body - diff
  l ← pack u16 stated
  t ← pack u16 type'
  some (record { bytes = l ++ (t ++ body); stated = stated })

-- One round of `encode_nlas`: an attribute whose name is not in the map is left out.
pub encode_link :
    (Entry → Option Encoded) → (ℕ → Option (List ℕ)) → ℕ → Option Entry → Option (List ℕ)
encode_link this rest off none = rest off
encode_link this rest off (some e) = do
  b ← this e
  bs ← rest (off + align4 b.stated)
  some (b.bytes ++ bs)

module _ (classes : ℕ → Class) where
  mutual
    unfolding field_bytes with_header padding by_name encode_link

    -- `encode` of an NLA of class `c` at an offset, and `encode_nlas`.
    pub encode_nla : ℕ → ℕ → ℕ → Message → Option Encoded
    encode_nla c off type' (message vs as') = do
      ft ← field_bytes (classes c).layout (message vs as')
      let diff = padding (off + 4 + length ft)
      chain ← encode_nlas (classes c).nla_map (off + 4 + length ft + diff) as'
      with_header type' diff (ft ++ (replicate diff 0 ++ chain))
    encode_nla c off type' (string s) = do
      ft ← field_bytes (classes c).layout (string s)
      let diff = padding (off + 4 + length ft)
      with_header type' diff (ft ++ replicate diff 0)

    pub encode_nlas : List Entry → ℕ → Attrs → Option (List ℕ)
    encode_nlas m off no_attrs = some []
    encode_nlas m off (attr n v as') =
        encode_link (λ e. encode_nla e.class off (bit_or e.key e.nla_flags) v)
          (λ o. encode_nlas m o as') off (by_name m n)

-- The bits of `base_msg_type` below NLA_F_NESTED and NLA_F_NET_BYTEORDER, and the flags.
abbrev pub type_mask : ℕ
type_mask = 0x3fff

abbrev pub flag_mask : ℕ
flag_mask = 0xc000

-- `nla_slot` with the instance that it holds; no class is an `UNKNOWN` attribute.
pub record Slot : Type 0 where
  pub entry : Option Entry
  pub flags : ℕ
  pub offset : ℕ
  pub length : ℕ

-- `length = min(max(length, 4), (self.length - offset + self.offset))`
pub clamp : ℕ → ℕ → ℕ
clamp l left = min (max l 4) left

-- The loop of `decode_nlas` to the end `self.offset + self.length` of the message, on fuel.
pub decode_nlas : ℕ → List Entry → List ℕ → ℕ → ℕ → Option (List Slot)
decode_nlas zero m data' stop off = none
decode_nlas (suc fuel) m data' stop off =
    let slots = (do
      l ← unpack u16 data' off
      t ← unpack u16 data' (off + 2)
      let left = clamp l (stop - off)
      rest ← decode_nlas fuel m data' stop (off + align4 left)
      some (
          record {
            entry = by_key m (bit_and t type_mask);
            flags = bit_and t flag_mask;
            offset = off;
            length = left;
          }
          ∷ rest)) in
    if leb (off + 4) stop then slots else some []

-- Each round goes on by four bytes at least.
abbrev pub nlas_fuel : List ℕ → ℕ
nlas_fuel data' = suc (length data')

unfoldable pub unpack_fields : List Format → List ℕ → ℕ → Option (List ℕ)
unpack_fields [] data' off = some []
unpack_fields (f ∷ fs) data' off = do
  v ← unpack f data' off
  vs ← unpack_fields fs data' (off + f.width)
  some (v ∷ vs)

unfoldable pub size_of : List Format → ℕ
size_of [] = 0
size_of (f ∷ fs) = f.width + size_of fs

-- `value.strip(b'\0')`
pub strip_left : List ℕ → List ℕ
strip_left [] = []
strip_left (b ∷ bs) = let rest = strip_left bs in if b == 0 then rest else b ∷ bs

pub strip : List ℕ → List ℕ
strip bs = reverse (strip_left (reverse (strip_left bs)))

pub unknown : String
unknown = "UNKNOWN"

pub name_of : Option Entry → String
name_of none = unknown
name_of (some e) = e.name

-- The length of a cell that `decode` was tried on: that of its header, if there is one.
pub header_length : Option ℕ → ℕ → ℕ
header_length none len = len
header_length (some l) len = l

-- `get_value`: what cannot be decoded is the raw bytes of the slot.
pub or_raw : List ℕ → Slot → Option Message → Message
or_raw data' s (some m) = m
or_raw data' s none =
    string (take (header_length (unpack u16 data' s.offset) s.length) (drop s.offset data'))

module _ (classes : ℕ → Class) where
  -- The attributes behind the slots, by a decoder of one attribute of a class.
  pub read_slots : (ℕ → ℕ → Option Message) → List ℕ → List Slot → Attrs
  read_slots decode data' [] = no_attrs
  read_slots decode data' (s ∷ ss) =
      attr (name_of s.entry)
        (elim s.entry [
          | none ↦ message [] no_attrs
          | some e ↦ or_raw data' s (decode e.class s.offset)
        ])
        (read_slots decode data' ss)

  pub decode_chain : (ℕ → ℕ → Option Message) → List Entry → List ℕ → ℕ → ℕ → Option Attrs
  decode_chain decode [] data' stop off = some no_attrs
  decode_chain decode (e ∷ m) data' stop off = do
    slots ← decode_nlas (nlas_fuel data') (e ∷ m) data' stop (align4 off)
    some (read_slots decode data' slots)

  pub decode_layout :
      (ℕ → ℕ → Option Message) → Layout → List Entry → List ℕ → ℕ → ℕ → Option Message
  decode_layout decode (fields fs) m data' off len = do
    vs ← unpack_fields fs data' (off + 4)
    chain ← decode_chain decode m data' (off + len) (off + 4 + size_of fs)
    some (message vs chain)
  decode_layout decode (zstring z) m data' off len =
      if ltb len 4
      then none
      else (do bs ← bytes_at (len - 4) data' (off + 4); some (string (if z then strip bs else bs)))

  -- `decode` of an NLA of a class at an offset, with its attributes, to a depth of nesting.
  pub decode_nla : ℕ → List ℕ → ℕ → ℕ → Option Message
  decode_nla zero data' c off = none
  decode_nla (suc depth) data' c off = do
    len ← unpack u16 data' off
    type' ← unpack u16 data' (off + 2)
    decode_layout (decode_nla depth data') (classes c).layout (classes c).nla_map data' off len

-- ===== src/Netlink/Nla/Words.antt =====
-- Integers in a buffer, and the two flags beside the type of an attribute.
use pyroute.Prelude.{
  ℕ, ◌+◌, ◌*◌, ◌/◌, ◌%◌, ◌^◌, ◌<◌, ◌≡◌, ap, ◌∙◌, subst, bit_and, bit_or, some, List, length, ltb,
  inl, inr, Bool-cases, arith, ltb→lt,
}
use pyroute.Prelude.Bits.{bit_or_fields, bit_and_high, bit_and_low}
use pyroute.Prelude.Bytes.{
  bytes_at, At, bytes_at-At, length-le_bytes, length-be_bytes, le_value-le_bytes, be_value-be_bytes,
}
use pyroute.Netlink.Nla.{Format, pack, unpack, type_mask, flag_mask}

pub pack-fits : (f : Format) (v : ℕ) {bs : List ℕ} → pack f v ≡ some bs → v < 256 ^ f.width
unfolding pack
pack-fits f v h = elim (Bool-cases (ltb v (256 ^ f.width))) [
  | inl l ↦ ltb→lt v (256 ^ f.width) l
  | inr g ↦ cc (rw g at h)
]

pub length-pack : (f : Format) (v : ℕ) {bs : List ℕ} → pack f v ≡ some bs → length bs ≡ f.width
unfolding pack
length-pack f v {bs} h =
    let l = pack-fits f v h in ground (arith, length-le_bytes f.width v, length-be_bytes f.width v)

-- `struct.unpack_from` reads back what `struct.pack` wrote.
pub unpack-pack :
    (f : Format) (v : ℕ) (bs : List ℕ) (data' : List ℕ) (off : ℕ)
    → pack f v ≡ some bs
    → At data' off bs
    → unpack f data' off ≡ some v
unfolding unpack pack
unpack-pack f v bs data' off h a =
    let l = pack-fits f v h in
    let w : bytes_at f.width data' off ≡ some bs =
      subst (λ n. bytes_at n data' off ≡ some bs) (length-pack f v h)
        (bytes_at-At data' off bs a) in
    rw w (ground (arith, le_value-le_bytes f.width v l, be_value-be_bytes f.width v l))

-- A type of an attribute with its flags, and the flags.
pub record IsType (key flags : ℕ) : Type 0 where
  pub key_lt : key < 2 ^ 14
  pub flags_lt : flags < 2 ^ 16
  pub flags_only : flags % 2 ^ 14 ≡ 0

type_sum : (key flags : ℕ) → IsType key flags → bit_or key flags ≡ flags + key
type_sum key flags t =
    let q : flags ≡ flags / 2 ^ 14 * 2 ^ 14 = omega (arith, t.flags_only) in
    ap (bit_or key) q ∙ bit_or_fields 14 key (flags / 2 ^ 14) t.key_lt ∙ omega arith

pub type_below_flags :
    (key flags : ℕ) → IsType key flags → bit_and (bit_or key flags) type_mask ≡ key
type_below_flags key flags t =
    bit_and_low 14 (bit_or key flags)
    ∙ rw (type_sum key flags t) (omega (arith, t.key_lt, t.flags_only))

pub flags_above_type :
    (key flags : ℕ) → IsType key flags → bit_and (bit_or key flags) flag_mask ≡ flags
flags_above_type key flags t =
    bit_and_high 14 (bit_or key flags) 3
    ∙ rw (bit_and_low 2 (bit_or key flags / 2 ^ 14), type_sum key flags t)
        (omega (arith, t.key_lt, t.flags_only, t.flags_lt))

pub type_fits : (key flags : ℕ) → IsType key flags → bit_or key flags < 2 ^ 16
type_fits key flags t = omega (arith, type_sum key flags t, t.key_lt, t.flags_lt, t.flags_only)

-- ===== src/Netlink/Nla/Slots.antt =====
-- The loop of `decode_nlas` on any bytes.
use pyroute.Prelude.{
  ℕ, zero, suc, ◌+◌, ◌-◌, ◌*◌, ◌≤◌, ◌<◌, ◌≡◌, refl, bit_and, true, some, List, [], ◌∷◌, length,
  take, drop, leb, inl, inr, Bool-cases, le→leb, arith,
}
use pyroute.Prelude.Bytes.{bytes_at, le_value}
use pyroute.Netlink.Nla.{
  unpack, u16, Entry, Slot, clamp, align4, by_key, type_mask, flag_mask, decode_nlas, nlas_fuel,
}

-- A slot says what the type at its offset says.
pub record Reads (m : List Entry) (data' : List ℕ) (s : Slot) : Type 0 where
  pub type' : ℕ
  pub stored : unpack u16 data' (s.offset + 2) ≡ some type'
  pub entry : s.entry ≡ by_key m (bit_and type' type_mask)
  pub flags : s.flags ≡ bit_and type' flag_mask

-- The slots follow one another from `off`, each inside the message, until less than a header
-- is left.
abbrev pub Tiles : List Entry → List ℕ → ℕ → ℕ → List Slot → Type 0
Tiles m data' stop off [] = stop < off + 4
Tiles m data' stop off (s ∷ ss) =
    (s.offset ≡ off)
    × (4 ≤ s.length)
    × (off + s.length ≤ stop)
    × Reads m data' s
    × Tiles m data' stop (off + align4 s.length) ss

unpack_inside :
    (data' : List ℕ) (off : ℕ) → off + 2 ≤ length data' → (v : ℕ) × (unpack u16 data' off ≡ some v)
unfolding unpack bytes_at
unpack_inside data' off h =
    let l : leb (off + 2) (length data') ≡ true = le→leb _ _ h in
    (le_value (take 2 (drop off data')), rw l refl)

clamp_bounds : (l left : ℕ) → 4 ≤ left → (4 ≤ clamp l left) × (clamp l left ≤ left)
unfolding clamp
clamp_bounds l left h = omega arith

Tiles-from :
    (fuel : ℕ) (m : List Entry) (data' : List ℕ) (stop off : ℕ)
    → stop ≤ length data'
    → off ≤ stop + 3
    → stop + 4 ≤ off + 4 * fuel
    → (slots : List Slot) × (decode_nlas fuel m data' stop off ≡ some slots)
      × Tiles m data' stop off slots
unfolding decode_nlas
Tiles-from zero m data' stop off h k f = absurd (omega arith)
Tiles-from (suc fuel) m data' stop off h k f = elim (Bool-cases (leb (off + 4) stop)) [
  | inl more ↦
      let room : off + 4 ≤ stop = ground arith in
      let (l, el) = unpack_inside data' off (omega arith) in
      let (t, et) = unpack_inside data' (off + 2) (omega arith) in
      let (lo, hi) = clamp_bounds l (stop - off) (omega arith) in
      let (slots, e, tiles) =
        Tiles-from fuel m data' stop (off + align4 (clamp l (stop - off))) h (omega arith)
          (omega arith) in
      (
        record {
          entry = by_key m (bit_and t type_mask);
          flags = bit_and t flag_mask;
          offset = off;
          length = clamp l (stop - off);
        }
            ∷ slots,
        rw (more, el, et, e) refl,
        (
          refl,
          lo,
          omega arith,
          record { type' = t; stored = et; entry = refl; flags = refl },
          tiles,
        ),
      )
  | inr done ↦ ([], rw done refl, ground arith)
]

-- When the end of the message lies in the buffer, `decode_nlas` ends without an error, whatever
-- the bytes: its slots follow one another from the offset, each is at least a header long and
-- inside the message, each has the entry and the flags of the type that stands at its offset,
-- and less than a header is left behind the last.
pub decode_nlas-Tiles :
    (m : List Entry) (data' : List ℕ) (stop off : ℕ)
    → stop ≤ length data'
    → off ≤ stop + 3
    → (slots : List Slot) × (decode_nlas (nlas_fuel data') m data' stop off ≡ some slots)
      × Tiles m data' stop off slots
decode_nlas-Tiles m data' stop off h k =
    Tiles-from (nlas_fuel data') m data' stop off h k (omega arith)

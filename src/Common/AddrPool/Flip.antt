-- ===== src/Common/AddrPool/Flip.antt =====
-- Flipping one bit of a valid pool.
use pyroute.Prelude.{
  ℕ, zero, suc, ◌+◌, ◌-◌, ◌*◌, ◌/◌, ◌^◌, ◌≤◌, ◌<◌, ◌≡◌, refl, ◌∙◌, bit_xor, true, false, not, some,
  List, [], ◌∷◌, ◌++◌, length, length-set, get_elem?, set, leb, ◌==◌, if◌then◌else◌, All, arith,
  lt-length_of_get,
}
use pyroute.Prelude.Bits.{digit, flip-lt, test_mask'}
use pyroute.Common.AddrPool.{
  AddrPool, ok, key_error, cell, cell_at, bit_of, flip_at, past_the_end, ahead, behind,
  is_allocated, free_place, flip_clear,
}
use pyroute.Common.AddrPool.Bitmap.{
  taken-flip, is_allocated-taken, InRange, offset, IsCell, offset-map,
}

pub record IsValid (p : AddrPool) : Type 0 where
  pub are_cells : All IsCell p.addr_map
  pub fits : length p.addr_map ≤ p.cells
  pub enough : p.cells ≡ (p.maxaddr - p.minaddr) / 64 + 1
  pub ordered : p.minaddr ≤ p.maxaddr

All-set : (m : List ℕ) (i c : ℕ) → All IsCell m → IsCell c → All IsCell (set m i c)
All-set [] i c v h = v
All-set (x ∷ m) zero c v h = (h, v.1)
All-set (x ∷ m) (suc i) c v h = (v.0, All-set m i c v.1 h)

All-get : (m : List ℕ) (i : ℕ) {c : ℕ} → All IsCell m → get_elem? m i ≡ some c → IsCell c
All-get [] i v e = cc
All-get (x ∷ m) zero v e = ground arith
All-get (x ∷ m) (suc i) v e = All-get m i v.1 e

pub All-grow : (m : List ℕ) → All IsCell m → All IsCell (m ++ cell ∷ [])
All-grow [] v = omega arith
All-grow (x ∷ m) v = (v.0, All-grow m v.1)

abbrev pub flipped : AddrPool → ℕ → ℕ → ℕ → AddrPool
flipped p i c b = record p { addr_map = set p.addr_map i (bit_xor c (2 ^ b)) }

pub flipped-IsValid :
    (p : AddrPool) (i c b : ℕ)
    → IsValid p
    → get_elem? p.addr_map i ≡ some c
    → b < 64
    → IsValid (flipped p i c b)
flipped-IsValid p i c b v e h = record {
  are_cells =
      All-set p.addr_map i _ v.are_cells (flip-lt b 64 c h (All-get p.addr_map i v.are_cells e));
  fits = omega (arith, v.fits, length-set p.addr_map i (bit_xor c (2 ^ b)));
  enough = v.enough;
  ordered = v.ordered;
}

pub is_allocated-flipped :
    (p : AddrPool) (i c b x : ℕ)
    → get_elem? p.addr_map i ≡ some c
    → b < 64
    → InRange p x
    → is_allocated (flipped p i c b) x
      ≡ (if offset p x == i * 64 + b then not (is_allocated p x) else is_allocated p x)
is_allocated-flipped p i c b x e h r =
    is_allocated-taken (flipped p i c b) x r
    ∙ rw (offset-map p (set p.addr_map i (bit_xor c (2 ^ b))) x, is_allocated-taken p x r)
        (taken-flip p.addr_map i b c (offset p x) e h)

pub free_place-clear :
    (p : AddrPool) (i b c : ℕ)
    → get_elem? p.addr_map i ≡ some c
    → digit c b ≡ 0
    → free_place p (ahead i b) ≡ (flipped p i c b, ok tt)
unfolding free_place flip_clear past_the_end cell_at bit_of flip_at
free_place-clear p i b c e d =
    let there : leb (length p.addr_map) i ≡ false =
      ground (arith, lt-length_of_get p.addr_map i e) in
    rw (there, e, test_mask' b c, d) refl

pub free_place-set :
    (p : AddrPool) (i b c : ℕ)
    → get_elem? p.addr_map i ≡ some c
    → digit c b ≡ 1
    → free_place p (ahead i b) ≡ (p, key_error)
unfolding free_place flip_clear past_the_end cell_at bit_of
free_place-set p i b c e d =
    let there : leb (length p.addr_map) i ≡ false =
      ground (arith, lt-length_of_get p.addr_map i e) in
    rw (there, e, test_mask' b c, d) refl

pub free_place-past :
    (p : AddrPool) (i b : ℕ) → length p.addr_map ≤ i → free_place p (ahead i b) ≡ (p, key_error)
unfolding free_place past_the_end
free_place-past p i b h = let past : leb (length p.addr_map) i ≡ true = ground arith in rw past

-- A base below zero counts from the end.
pub free_place-behind :
    (p : AddrPool) (i b c : ℕ)
    → i ≤ length p.addr_map
    → get_elem? p.addr_map (length p.addr_map - i) ≡ some c
    → digit c b ≡ 0
    → free_place p (behind i b) ≡ (flipped p (length p.addr_map - i) c b, ok tt)
unfolding free_place flip_clear past_the_end cell_at bit_of flip_at
free_place-behind p i b c l e d =
    let inside : leb i (length p.addr_map) ≡ true = ground arith in
    rw (inside, e, test_mask' b c, d) refl

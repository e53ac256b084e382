-- ===== src/Common/AddrPool/Bitmap.antt =====
-- The bitmap as a set of offsets, and what one flipped bit does to it.
use pyroute.Prelude.{
  ℕ, zero, suc, ◌+◌, ◌-◌, ◌*◌, ◌/◌, ◌%◌, ◌^◌, ◌≤◌, ◌<◌, ◌≡◌, refl, sym, inl, inr, bit_xor, Bool,
  false, not, Option, some, none, List, [], ◌∷◌, ◌++◌, length, get_elem?, set, ◌==◌, ==_iff, subst,
  if◌then◌else◌, Bool-cases, arith, get_elem?-set_self, get_elem?-set_ne, lt-length_of_get,
  get_elem?-append, get_elem?-none, get_elem?-append_length, length-append, ap, ◌≢◌, ◌∙◌,
}
use pyroute.Prelude.Bits.{digit, digit-flip_self, digit-flip_ne, digit_ones, test_mask'}
use native.Mathlib.Decide.{dec_lt, ℕ_discrete}
use pyroute.Common.AddrPool.{
  AddrPool, address, in_range, cell, place, place_of, ahead, cell_at, bit_of, clear_in,
  is_allocated,
}

pub bit_taken : ℕ → Option ℕ → Bool
bit_taken b none = false
bit_taken b (some c) = digit c b == 0

-- Offset `n` is handed out: its bit is there and clear.
abbrev pub taken : List ℕ → ℕ → Bool
taken m n = bit_taken (n % 64) (get_elem? m (n / 64))

abbrev pub InRange : AddrPool → ℕ → Type 0
InRange p a = (p.minaddr ≤ a) × (a ≤ p.maxaddr)

-- The offset of an address of the range.
pub offset : AddrPool → ℕ → ℕ
offset p a = if p.reverse then p.maxaddr - a else a - p.minaddr

abbrev pub IsCell : ℕ → Type 0
IsCell c = c < 2 ^ 64

pub offset-map :
    (p : AddrPool) (m : List ℕ) (x : ℕ) → offset (record p { addr_map = m }) x ≡ offset p x
unfolding offset
offset-map p m x = refl

pub place-offset :
    (p : AddrPool) (a : ℕ) → InRange p a → place p a ≡ ahead (offset p a / 64) (offset p a % 64)
unfolding place place_of offset
place-offset p a h = ground arith

clear_in-taken : (b : ℕ) (o : Option ℕ) → clear_in b o ≡ bit_taken b o
unfolding clear_in bit_taken
clear_in-taken b none = refl
clear_in-taken b (some c) = test_mask' b c

pub is_allocated-taken :
    (p : AddrPool) (a : ℕ) → InRange p a → is_allocated p a ≡ taken p.addr_map (offset p a)
unfolding is_allocated cell_at bit_of
is_allocated-taken p a h =
    rw (is_allocated, place-offset p a h) (clear_in-taken (offset p a % 64) _)

not_digit : (d : ℕ) → d < 2 → (1 - d == 0) ≡ not (d == 0)
not_digit zero h = refl
not_digit (suc zero) h = refl
not_digit (suc (suc d)) h = absurd (omega arith)

flip_digit :
    (b i c : ℕ)
    → (digit (bit_xor c (2 ^ b)) i == 0) ≡ (if i == b then not (digit c i == 0) else digit c i == 0)
flip_digit b i c = elim (Bool-cases (i == b)) [
  | inl e ↦ rw e (
      subst (λ j. (digit (bit_xor c (2 ^ b)) j == 0) ≡ not (digit c j == 0))
        (sym ((==_iff i b).0 e)) (rw (digit-flip_self b c) (not_digit (digit c b) (omega arith))))
  | inr n ↦ rw (n, digit-flip_ne b i c (λ e. ground arith))
]

same_offset : (n i b : ℕ) → b < 64 → n / 64 ≡ i → (n % 64 == b) ≡ (n == i * 64 + b)
same_offset n i b h e = elim (Bool-cases (n % 64 == b)) [
  | inl t ↦ ground arith
  | inr t ↦ ground arith
]

pub taken-cons_low : (c : ℕ) (cs : List ℕ) (n : ℕ) → n < 64 → taken (c ∷ cs) n ≡ (digit c n == 0)
unfolding bit_taken
taken-cons_low c cs n h =
    let q : n / 64 ≡ 0 = omega arith in let r : n % 64 ≡ n = omega arith in rw (q, r)

pub taken-cons_high : (c : ℕ) (cs : List ℕ) (n : ℕ) → 64 ≤ n → taken (c ∷ cs) n ≡ taken cs (n - 64)
taken-cons_high c cs n h =
    let q : n / 64 ≡ suc ((n - 64) / 64) = omega arith in
    let r : n % 64 ≡ (n - 64) % 64 = omega arith in rw (q, r)

-- Flipping bit `b` of cell `i` turns offset `i * 64 + b` over, and no other.
pub taken-flip :
    (m : List ℕ) (i b c n : ℕ)
    → get_elem? m i ≡ some c
    → b < 64
    → taken (set m i (bit_xor c (2 ^ b))) n
      ≡ (if n == i * 64 + b then not (taken m n) else taken m n)
taken-flip m i b c n e h = elim (ℕ_discrete (n / 64) i) [
  | yes q ↦
      rw (q, get_elem?-set_self m i (bit_xor c (2 ^ b)) (lt-length_of_get m i e), e)
        (unfold bit_taken in rw (← same_offset n i b h q) (flip_digit b (n % 64) c))
  | no q ↦
      let other : (n == i * 64 + b) ≡ false = ground arith in
      rw (get_elem?-set_ne m i (n / 64) (bit_xor c (2 ^ b)) (λ r. q (sym r)), other)
]

-- A fresh cell holds nothing that is handed out.
pub taken-grow : (m : List ℕ) (n : ℕ) → taken (m ++ cell ∷ []) n ≡ taken m n
taken-grow m n = elim (dec_lt (n / 64) (length m)) [
  | yes q ↦ rw (get_elem?-append m (cell ∷ []) (n / 64) q)
  | no q ↦ rw (get_elem?-none m (n / 64) (omega arith)) (elim (ℕ_discrete (n / 64) (length m)) [
    | yes r ↦
        rw (r, get_elem?-append_length m cell [])
          (unfold bit_taken in rw (digit_ones 64 (n % 64) (omega arith)))
    | no r ↦
        rw (get_elem?-none (m ++ cell ∷ []) (n / 64) (omega (arith, length-append m (cell ∷ []))))
  ])
]

pub taken_past : (m : List ℕ) (n : ℕ) → 64 * length m ≤ n → taken m n ≡ false
unfolding bit_taken
taken_past m n h = rw (get_elem?-none m (n / 64) (omega arith))

-- The offset of a bit of a cell that is there.
pub taken_at_bit :
    (m : List ℕ) (i c b : ℕ)
    → get_elem? m i ≡ some c
    → b < 64
    → taken m (i * 64 + b) ≡ (digit c b == 0)
unfolding bit_taken
taken_at_bit m i c b e h =
    let q : (i * 64 + b) / 64 ≡ i = omega arith in
    let r : (i * 64 + b) % 64 ≡ b = omega arith in rw (q, r, e)

pub address-within :
    (p : AddrPool) (n : ℕ)
    → p.minaddr ≤ p.maxaddr
    → n ≤ p.maxaddr - p.minaddr
    → (a : ℕ) × (address p n ≡ some a) × InRange p a × (offset p a ≡ n)
unfolding address offset
address-within p n h k = elim (Bool-cases p.reverse) [
  | inl r ↦ (p.maxaddr - n, ground arith, omega arith, ground arith)
  | inr r ↦ (n + p.minaddr, ground arith, omega arith, ground arith)
]

pub in_range-address-false :
    (p : AddrPool) (n : ℕ)
    → p.minaddr ≤ p.maxaddr
    → p.maxaddr - p.minaddr < n
    → in_range p (address p n) ≡ false
unfolding address in_range
in_range-address-false p n h k = ground arith

pub offset_bound : (p : AddrPool) (x : ℕ) → InRange p x → offset p x ≤ p.maxaddr - p.minaddr
unfolding offset
offset_bound p x h = ground arith

pub offset_injective :
    (p : AddrPool) (x y : ℕ) → InRange p x → InRange p y → offset p x ≡ offset p y → x ≡ y
unfolding offset
offset_injective p x y h k e = ground arith

pub same_address :
    (p : AddrPool) (x a n : ℕ)
    → InRange p x
    → InRange p a
    → offset p a ≡ n
    → (offset p x == n) ≡ (x == a)
same_address p x a n s r o = elim (ℕ_discrete x a) [
  | yes e ↦ let q : offset p x ≡ n = ap (offset p) e ∙ o in ground arith
  | no ne ↦
      let d : offset p x ≢ n = λ q. ne (offset_injective p x a s r (q ∙ sym o)) in ground arith
]

pub offset_forward : (p : AddrPool) (x : ℕ) → p.reverse ≡ false → offset p x ≡ x - p.minaddr
unfolding offset
offset_forward p x f = rw f

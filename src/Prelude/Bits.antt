-- ===== src/Prelude/Bits.antt =====
-- One binary digit of a number, read by a mask and flipped by `xor`, as the code does it.
use Prim.Native.Nat.{ℕ, zero, suc, ◌+◌, ◌-◌, ◌*◌, ◌/◌, ◌%◌, ◌^◌, ◌≤◌, ◌<◌, min, max}
use Prim.Native.Nat.{bit_and, bit_or, bit_xor, digits, bitwise, differ}
use Prim.Native.Nat.{bit_and-bitwise, bit_or-bitwise, bit_xor-bitwise}
use mathlib.Core.Path.{◌≡◌, refl, ap, sym, ◌∙◌}
use mathlib.Core.Logic.{◌≢◌}
use mathlib.Core.WellFounded
use pyroute.Prelude.Order.{lt_wf}
use pyroute.Prelude.Tests.{◌==◌}
use native.Mathlib.Omega.{arith}
use native.Mathlib.Nat.{
  pow-succ', two-pow-succ, one-le-pow, div-add-mod', mod-lt, div-div-eq-div-mul,
}

-- `bitwise` spends its first number as fuel: more of it changes nothing, so the number can be halved.
module _ (rest : ℕ → ℕ) (op : ℕ → ℕ → ℕ) where
  abbrev Settled : ℕ → Type 0
  Settled x = (fuel y : ℕ) → x ≤ fuel → digits rest op fuel x y ≡ bitwise rest op x y

  settled : (x : ℕ) → Settled x
  settled x = WellFounded.induction lt_wf x next
    where
      next : (x : ℕ) → ((w : ℕ) → w < x → Settled w) → Settled x
      next zero smaller zero y l = refl
      next zero smaller (suc fuel) y l = refl
      next (suc x) smaller zero y l = absurd (omega arith)
      next (suc x) smaller (suc fuel) y l =
          let half : Settled (suc x / 2) = smaller (suc x / 2) (omega arith) in
          ap (λ t. t * 2 + op (suc x % 2) (y % 2))
            (half fuel (y / 2) (omega arith) ∙ sym (half x (y / 2) (omega arith)))

  halved :
      ((y : ℕ) → rest y ≡ rest (y / 2) * 2 + op 0 (y % 2))
      → (x y : ℕ) → bitwise rest op x y ≡ bitwise rest op (x / 2) (y / 2) * 2 + op (x % 2) (y % 2)
  halved h zero y = h y
  halved h (suc x) y =
      ap (λ t. t * 2 + op (suc x % 2) (y % 2)) (settled (suc x / 2) x (y / 2) (omega arith))

pub bit_and_step : (a b : ℕ) → bit_and a b ≡ bit_and (a / 2) (b / 2) * 2 + min (a % 2) (b % 2)
bit_and_step a b = simp bit_and-bitwise (halved (λ y. 0) min (λ y. omega arith) a b)

pub bit_or_step : (a b : ℕ) → bit_or a b ≡ bit_or (a / 2) (b / 2) * 2 + max (a % 2) (b % 2)
bit_or_step a b = simp bit_or-bitwise (halved (λ y. y) max (λ y. omega arith) a b)

pub bit_xor_step : (a b : ℕ) → bit_xor a b ≡ bit_xor (a / 2) (b / 2) * 2 + differ (a % 2) (b % 2)
bit_xor_step a b = simp bit_xor-bitwise (halved (λ y. y) differ (λ y. omega arith) a b)

-- Digit `b` of `c`, counted from the lowest.
abbrev pub digit : ℕ → ℕ → ℕ
digit c b = c / 2 ^ b % 2

digit-suc : (c b : ℕ) → digit c (suc b) ≡ digit (c / 2) b
digit-suc c b =
    ap (λ t. c / t % 2) (pow-succ' 2 b) ∙ ap (λ t. t % 2) (sym (div-div-eq-div-mul c 2 (2 ^ b)))

zero-bit_and : (b : ℕ) → bit_and 0 b ≡ 0
zero-bit_and b = bit_and-bitwise 0 b

differ-zero : (d : ℕ) → d < 2 → differ d 0 ≡ d
differ-zero zero h = refl
differ-zero (suc zero) h = refl
differ-zero (suc (suc d)) h = absurd (omega arith)

differ-one : (d : ℕ) → d < 2 → differ d 1 ≡ 1 - d
differ-one zero h = refl
differ-one (suc zero) h = refl
differ-one (suc (suc d)) h = absurd (omega arith)

-- What passes from the half of a number to the number holds of all.
by_halves {ℓ} : (P : ℕ → Type ℓ) → P 0 → ((n : ℕ) → P (suc n / 2) → P (suc n)) → (n : ℕ) → P n
by_halves P base next n = WellFounded.induction lt_wf {C = P} n from_below
  where
    from_below : (k : ℕ) → ((m : ℕ) → m < k → P m) → P k
    from_below zero below = base
    from_below (suc k) below = next k (below (suc k / 2) (omega arith))

bit_xor-zero : (a : ℕ) → bit_xor a 0 ≡ a
bit_xor-zero =
    by_halves _ refl
      λ n half. omega (arith, half, bit_xor_step (suc n) 0, differ-zero (suc n % 2) (omega arith))

bit_xor-one : (c : ℕ) → bit_xor c 1 ≡ c / 2 * 2 + (1 - c % 2)
bit_xor-one c =
    omega (arith, bit_xor_step c 1, bit_xor-zero (c / 2), differ-one (c % 2) (omega arith))

bit_xor-pow_suc : (c b : ℕ) → bit_xor c (2 ^ suc b) ≡ bit_xor (c / 2) (2 ^ b) * 2 + c % 2
bit_xor-pow_suc c b =
    bit_xor_step c (2 ^ suc b) ∙ rw (half, low) (omega (arith, differ-zero (c % 2) (omega arith)))
  where
    half : 2 ^ suc b / 2 ≡ 2 ^ b
    half = omega (arith, two-pow-succ b)

    low : 2 ^ suc b % 2 ≡ 0
    low = omega (arith, two-pow-succ b)

-- The mask `1 << b` reads digit `b`.
pub bit_and-pow : (b c : ℕ) → bit_and (2 ^ b) c ≡ digit c b * 2 ^ b
bit_and-pow zero c = omega (arith, bit_and_step 1 c, zero-bit_and (c / 2))
bit_and-pow (suc b) c =
    bit_and_step (2 ^ suc b) c
    ∙ rw (half, low, bit_and-pow b (c / 2), ← digit-suc c b) (grind (arith, two-pow-succ b))
  where
    half : 2 ^ suc b / 2 ≡ 2 ^ b
    half = omega (arith, two-pow-succ b)

    low : 2 ^ suc b % 2 ≡ 0
    low = omega (arith, two-pow-succ b)

-- `^= 1 << b` turns digit `b` over, and no other.
pub digit-flip_self : (b c : ℕ) → digit (bit_xor c (2 ^ b)) b ≡ 1 - digit c b
digit-flip_self zero c = omega (arith, bit_xor-one c)
digit-flip_self (suc b) c =
    rw (digit-suc (bit_xor c (2 ^ suc b)) b, half, digit-suc c b) (digit-flip_self b (c / 2))
  where
    half : bit_xor c (2 ^ suc b) / 2 ≡ bit_xor (c / 2) (2 ^ b)
    half = omega (arith, bit_xor-pow_suc c b)

pub digit-flip_ne : (b i c : ℕ) → i ≢ b → digit (bit_xor c (2 ^ b)) i ≡ digit c i
digit-flip_ne zero zero c h = absurd (h refl)
digit-flip_ne zero (suc i) c h = rw (digit-suc (bit_xor c (2 ^ 0)) i, digit-suc c i, half) refl
  where
    half : bit_xor c 1 / 2 ≡ c / 2
    half = omega (arith, bit_xor-one c)
digit-flip_ne (suc b) zero c h = omega (arith, bit_xor-pow_suc c b)
digit-flip_ne (suc b) (suc i) c h =
    rw (digit-suc (bit_xor c (2 ^ suc b)) i, half, digit-suc c i)
      (digit-flip_ne b i (c / 2) (λ e. h (ap suc e)))
  where
    half : bit_xor c (2 ^ suc b) / 2 ≡ bit_xor (c / 2) (2 ^ b)
    half = omega (arith, bit_xor-pow_suc c b)

-- A flip below the width stays below it.
pub flip-lt : (b w c : ℕ) → b < w → c < 2 ^ w → bit_xor c (2 ^ b) < 2 ^ w
flip-lt b zero c h k = elim h [ ]
flip-lt zero (suc w) c h k = omega (arith, bit_xor-one c, two-pow-succ w)
flip-lt (suc b) (suc w) c h k = omega (
  arith,
  bit_xor-pow_suc c b,
  two-pow-succ w,
  flip-lt b w (c / 2) (omega arith) (omega (arith, two-pow-succ w)),
)

-- Digits that all read 0 make 0.
pub zero_of_digits : (w c : ℕ) → c < 2 ^ w → ((i : ℕ) → i < w → digit c i ≡ 0) → c ≡ 0
zero_of_digits zero c k h = omega arith
zero_of_digits (suc w) c k h = omega (
  arith,
  zero_of_digits w (c / 2) (omega (arith, two-pow-succ w))
      (λ i l. sym (digit-suc c i) ∙ h (suc i) (omega arith)),
  h 0 (omega arith),
)

pub digit-zero : (i : ℕ) → digit 0 i ≡ 0
digit-zero zero = refl
digit-zero (suc i) = digit-suc 0 i ∙ digit-zero i

-- A number of `w` ones.
pub digit_ones : (w i : ℕ) → i < w → digit (2 ^ w - 1) i ≡ 1
digit_ones zero i h = elim h [ ]
digit_ones (suc w) zero h = omega (arith, two-pow-succ w, one-le-pow w 2 (omega arith))
digit_ones (suc w) (suc i) h = rw (digit-suc (2 ^ suc w - 1) i, half) (digit_ones w i (omega arith))
  where
    half : (2 ^ suc w - 1) / 2 ≡ 2 ^ w - 1
    half = omega (arith, two-pow-succ w, one-le-pow w 2 (omega arith))

bit_and-zero : (a : ℕ) → bit_and a 0 ≡ 0
bit_and-zero = by_halves _ refl λ n half. omega (arith, half, bit_and_step (suc n) 0)

pub bit_and_comm : (a b : ℕ) → bit_and a b ≡ bit_and b a
bit_and_comm =
    by_halves _ (λ b. zero-bit_and b ∙ sym (bit_and-zero b))
      λ n half b. omega (arith, half (b / 2), bit_and_step b (suc n), bit_and_step (suc n) b)

mask_test : (d p : ℕ) → 1 ≤ p → (d * p == 0) ≡ (d == 0)
mask_test zero p h = ground arith
mask_test (suc d) p h = ground arith

-- The test `(1 << b) & c`, both ways round.
pub test_mask : (b c : ℕ) → (bit_and (2 ^ b) c == 0) ≡ (digit c b == 0)
test_mask b c = rw (bit_and-pow b c) (mask_test (digit c b) (2 ^ b) (one-le-pow b 2 (omega arith)))

pub test_mask' : (b c : ℕ) → (bit_and c (2 ^ b) == 0) ≡ (digit c b == 0)
test_mask' b c = rw (bit_and_comm c (2 ^ b)) (test_mask b c)

zero-bit_or : (b : ℕ) → bit_or 0 b ≡ b
zero-bit_or b = bit_or-bitwise 0 b

bit_or-zero : (a : ℕ) → bit_or a 0 ≡ a
bit_or-zero = by_halves _ refl λ n half. omega (arith, half, bit_or_step (suc n) 0)

max_comm : (a b : ℕ) → max a b ≡ max b a
max_comm a b = omega arith

pub bit_or_comm : (a b : ℕ) → bit_or a b ≡ bit_or b a
bit_or_comm =
    by_halves _ (λ b. zero-bit_or b ∙ sym (bit_or-zero b))
      λ n half b. omega (
        arith,
        half (b / 2),
        bit_or_step b (suc n),
        bit_or_step (suc n) b,
        max_comm (b % 2) (suc n % 2),
      )

-- A field moved up by one digit.
up_by_one : (q k : ℕ) → q * 2 ^ suc k ≡ 2 * (q * 2 ^ k)
up_by_one q k = grind (arith, pow-succ' 2 k)

-- `r | (q << k)` is a sum where `r` has `k` bits.
pub bit_or_fields : (k r q : ℕ) → r < 2 ^ k → bit_or r (q * 2 ^ k) ≡ q * 2 ^ k + r
bit_or_fields zero r q h = ground (arith, zero-bit_or q)
bit_or_fields (suc k) r q h = ground (
  arith,
  bit_or_step r (q * 2 ^ suc k),
  up_by_one q k,
  bit_or_fields k (r / 2) q (omega (arith, two-pow-succ k)),
)

-- A mask above `k` bits.
pub bit_and_high : (k a m : ℕ) → bit_and a (m * 2 ^ k) ≡ bit_and (a / 2 ^ k) m * 2 ^ k
bit_and_high zero a m = ground arith
bit_and_high (suc k) a m =
    bit_and_step a (m * 2 ^ suc k)
    ∙ rw (half, low, bit_and_high k (a / 2) m, div-div-eq-div-mul a 2 (2 ^ k), ← pow-succ' 2 k)
        (omega (arith, up_by_one (bit_and (a / 2 ^ suc k) m) k))
  where
    half : m * 2 ^ suc k / 2 ≡ m * 2 ^ k
    half = omega (arith, up_by_one m k)

    low : m * 2 ^ suc k % 2 ≡ 0
    low = omega (arith, up_by_one m k)

mask_of_sum : (k q r : ℕ) → r < 2 ^ k → bit_and (q * 2 ^ k + r) (2 ^ k - 1) ≡ r
mask_of_sum zero q r h = bit_and-zero (q * 1 + r) ∙ omega arith
mask_of_sum (suc k) q r h =
    let ones : (2 ^ suc k - 1) / 2 ≡ 2 ^ k - 1 =
      omega (arith, two-pow-succ k, one-le-pow k 2 (omega arith)) in
    let odd : (2 ^ suc k - 1) % 2 ≡ 1 =
      omega (arith, two-pow-succ k, one-le-pow k 2 (omega arith)) in
    let half : (q * 2 ^ suc k + r) / 2 ≡ q * 2 ^ k + r / 2 = omega (arith, up_by_one q k) in
    let low : (q * 2 ^ suc k + r) % 2 ≡ r % 2 = omega (arith, up_by_one q k) in
    bit_and_step (q * 2 ^ suc k + r) (2 ^ suc k - 1)
    ∙ rw (ones, odd, half, low, mask_of_sum k q (r / 2) (omega (arith, two-pow-succ k)))
        (omega arith)

-- A mask of `k` ones is a remainder.
pub bit_and_low : (k a : ℕ) → bit_and a (2 ^ k - 1) ≡ a % 2 ^ k
bit_and_low k a =
    ap (λ t. bit_and t (2 ^ k - 1)) (sym (div-add-mod' a (2 ^ k)))
    ∙ mask_of_sum k (a / 2 ^ k) (a % 2 ^ k) (mod-lt a (one-le-pow k 2 (omega arith)))

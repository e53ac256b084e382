-- ===== src/Common/AddrPool/Search.antt =====
-- The two search loops of `alloc`: the first cell that is not 0, and its lowest set bit.
use pyroute.Prelude.{
  ℕ, zero, suc, ◌+◌, ◌-◌, ◌*◌, ◌≤◌, ◌<◌, ◌≡◌, ◌≢◌, refl, subst, ap, ◌∙◌, true, false, some, none,
  List, [], ◌∷◌, length, get_elem?, ◌==◌, inl, inr, Bool-cases, Option-cases, All, arith,
}
use native.Mathlib.Decide.{dec_lt, ℕ_discrete}
use pyroute.Prelude.Bits.{digit, test_mask, zero_of_digits, digit-zero}
use pyroute.Common.AddrPool.{lowest_bit, Found, found, full, lost, stop_at, first_free}
use pyroute.Common.AddrPool.Bitmap.{taken, taken-cons_low, taken-cons_high, IsCell}

record LowestSet (c lo b : ℕ) : Type 0 where
  above : lo ≤ b
  is_set : digit c b ≡ 1
  clear_below : (i : ℕ) → lo ≤ i → i < b → digit c i ≡ 0

LowestSet-here : (c lo : ℕ) → (digit c lo == 0) ≡ false → LowestSet c lo lo
LowestSet-here c lo o = record {
  above = omega arith;
  is_set = ground arith;
  clear_below = λ i l u. absurd (omega arith);
}

lowest_bit-some :
    (f c lo : ℕ) {b : ℕ} → lowest_bit f c lo ≡ some b → LowestSet c lo b × (b < lo + f)
unfolding lowest_bit
lowest_bit-some zero c lo h = cc
lowest_bit-some (suc f) c lo {b} h = elim (Bool-cases (digit c lo == 0)) [
  | inl z ↦
      let (s, lt) = lowest_bit-some f c (lo + 1) (rw (test_mask lo c, z) at h) in
      (
        record {
          above = omega (arith, s.above);
          is_set = s.is_set;
          clear_below = λ i l u. elim (ℕ_discrete i lo) [
            | yes e ↦ rw e (ground arith)
            | no ne ↦ s.clear_below i (omega arith) u
          ];
        },
        omega arith,
      )
  | inr o ↦
      let e : lo ≡ b = cc (rw (test_mask lo c, o) at h) in
      subst (λ k. LowestSet c lo k × (k < lo + suc f)) e (LowestSet-here c lo o, omega arith)
]

lowest_bit-none :
    (f c lo : ℕ) → lowest_bit f c lo ≡ none → (i : ℕ) → lo ≤ i → i < lo + f → digit c i ≡ 0
unfolding lowest_bit
lowest_bit-none zero c lo h i l u = absurd (omega arith)
lowest_bit-none (suc f) c lo h i l u = elim (Bool-cases (digit c lo == 0)) [
  | inl z ↦ elim (ℕ_discrete i lo) [
    | yes e ↦ rw e (ground arith)
    | no ne ↦
        lowest_bit-none f c (lo + 1) (rw (test_mask lo c, z) at h) i (omega arith) (omega arith)
  ]
  | inr o ↦ cc (rw (test_mask lo c, o) at h)
]

-- A cell that is not 0 has a lowest set bit.
pub lowest_bit_total : (c : ℕ) → IsCell c → c ≢ 0 → lowest_bit 64 c 0 ≢ none
lowest_bit_total c h k e =
    k (zero_of_digits 64 c h (λ i l. lowest_bit-none 64 c 0 e i (omega arith) (omega arith)))

taken-cons_zero : (cs : List ℕ) (n : ℕ) → n < 64 → taken (0 ∷ cs) n ≡ true
taken-cons_zero cs n h = rw (taken-cons_low 0 cs n h, digit-zero n)

-- What the search says of a cell that it stops at: every offset before the bit is handed out.
pub record IsFirst (m : List ℕ) (i c b : ℕ) : Type 0 where
  pub cell_there : get_elem? m i ≡ some c
  pub bit_lt : b < 64
  pub is_set : digit c b ≡ 1
  pub before : (n : ℕ) → n < i * 64 + b → taken m n ≡ true

IsFirst-cons : {m : List ℕ} {i c b : ℕ} → IsFirst m i c b → IsFirst (0 ∷ m) (suc i) c b
IsFirst-cons {m} f = record {
  cell_there = f.cell_there;
  bit_lt = f.bit_lt;
  is_set = f.is_set;
  before = λ n h. elim (dec_lt n 64) [
    | yes l ↦ taken-cons_zero m n l
    | no g ↦ taken-cons_high 0 m n (omega arith) ∙ f.before (n - 64) (omega arith)
  ];
}

-- What each result of the search says of the map.
abbrev pub Describes : List ℕ → ℕ → Found → Type 0
Describes m base (found j c b) = (i : ℕ) × (j ≡ base + i) × IsFirst m i c b
Describes m base full = (n : ℕ) → n < 64 * length m → taken m n ≡ true
Describes m base lost = ⊥

Describes-cons :
    (m : List ℕ) (base : ℕ) (r : Found) → Describes m (base + 1) r → Describes (0 ∷ m) base r
Describes-cons m base (found j c b) (i, e, f) = (suc i, omega arith, IsFirst-cons f)
Describes-cons m base full h = λ n l. elim (dec_lt n 64) [
  | yes k ↦ taken-cons_zero m n k
  | no g ↦ taken-cons_high 0 m n (omega arith) ∙ h (n - 64) (omega arith)
]
Describes-cons m base lost h = h

Describes-head :
    (base c : ℕ) (cs : List ℕ)
    → IsCell c
    → c ≢ 0
    → Describes (c ∷ cs) base (stop_at base c (lowest_bit 64 c 0))
Describes-head base c cs h k = elim (Option-cases (lowest_bit 64 c 0)) [
  | inl e ↦ absurd (lowest_bit_total c h k e)
  | inr (b, e) ↦
      let (s, l) = lowest_bit-some 64 c 0 e in
      rw e (
        unfold stop_at in
        (
          0,
          omega arith,
          record {
            cell_there = refl;
            bit_lt = omega arith;
            is_set = s.is_set;
            before = λ n u.
                taken-cons_low c cs n (omega arith)
                ∙ ap (λ d. d == 0) (s.clear_below n (omega arith) (omega arith));
          },
        ))
]

-- The search stops at the first free offset of the map, or the map is full.
pub first_free-Describes :
    (m : List ℕ) (base : ℕ) → All IsCell m → Describes m base (first_free base m)
unfolding first_free
first_free-Describes [] base v = λ n l. absurd (omega arith)
first_free-Describes (zero ∷ cs) base v =
    Describes-cons cs base (first_free (base + 1) cs) (first_free-Describes cs (base + 1) v.1)
first_free-Describes (suc c ∷ cs) base v =
    let positive : (suc c == 0) ≡ false = ground arith in
    rw positive (Describes-head base (suc c) cs v.0 (λ z. omega arith))

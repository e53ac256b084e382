-- ===== src/Common/AddrPool/Free.antt =====
-- What `free` does to an address of the range, and to one below it.
use pyroute.Prelude.{
  ℕ, ◌+◌, ◌-◌, ◌*◌, ◌/◌, ◌%◌, ◌≤◌, ◌<◌, ◌≡◌, refl, sym, subst, ap, ◌∙◌, Bool, true, false, not,
  some, none, [], length, get_elem?, leb, ◌==◌, ==_iff, ==_refl, if◌then◌else◌, inl, inr,
  Bool-cases, Option-cases, arith, length-le_of_none,
}
use mathlib.Core.Path.{subst₂}
use native.Mathlib.Decide.{ℕ_discrete}
use pyroute.Prelude.Bits.{digit}
use pyroute.Common.AddrPool.{
  AddrPool, Result, ok, key_error, index_error, stuck, ahead, behind, is_allocated, free,
  free_place, place, place_of, alloc,
}
use pyroute.Common.AddrPool.Bitmap.{
  taken, taken_past, taken_at_bit, same_address, offset_forward, is_allocated-taken, InRange,
  offset, place-offset,
}
use pyroute.Common.AddrPool.Flip.{
  IsValid, flipped, flipped-IsValid, is_allocated-flipped, free_place-clear, free_place-set,
  free_place-past, free_place-behind,
}
use pyroute.Common.AddrPool.Take.{Allocated, Outcome}
use pyroute.Common.AddrPool.Alloc.{alloc-Outcome}

-- `q` is `p` with one address fewer handed out.
pub record Freed (p q : AddrPool) (a : ℕ) : Type 0 where
  pub was_taken : is_allocated p a ≡ true
  pub others :
      (x : ℕ) → InRange p x → is_allocated q x ≡ (if x == a then false else is_allocated p x)
  pub valid : IsValid q

abbrev pub FreeOutcome : AddrPool → ℕ → AddrPool × Result (Unit {0}) → Type 0
FreeOutcome p a (q, ok _) = Freed p q a
FreeOutcome p a (q, key_error) = (is_allocated p a ≡ false) × (q ≡ p)
FreeOutcome p a (q, index_error) = ⊥
FreeOutcome p a (q, stuck) = ⊥

free-place :
    (p : AddrPool) (a : ℕ)
    → InRange p a
    → free p a 0 ≡ free_place p (ahead (offset p a / 64) (offset p a % 64))
unfolding free
free-place p a r = rw (place-offset p a r)

turned_off :
    (x a : ℕ) (t : Bool)
    → (x ≡ a → t ≡ true)
    → (if x == a then not t else t) ≡ (if x == a then false else t)
turned_off x a t h = elim (Bool-cases (x == a)) [
  | inl e ↦ rw (e, h ((==_iff x a).0 e))
  | inr n ↦ rw n
]

is_allocated-cell :
    (p : AddrPool) (a c : ℕ)
    → InRange p a
    → get_elem? p.addr_map (offset p a / 64) ≡ some c
    → is_allocated p a ≡ (digit c (offset p a % 64) == 0)
is_allocated-cell p a c r e =
    is_allocated-taken p a r
    ∙ ap (taken p.addr_map) whole
    ∙ taken_at_bit p.addr_map (offset p a / 64) c (offset p a % 64) e (omega arith)
  where
    whole : offset p a ≡ offset p a / 64 * 64 + offset p a % 64
    whole = omega arith

is_allocated_past :
    (p : AddrPool) (a : ℕ)
    → InRange p a
    → get_elem? p.addr_map (offset p a / 64) ≡ none
    → is_allocated p a ≡ false
is_allocated_past p a r e =
    is_allocated-taken p a r
    ∙ taken_past p.addr_map (offset p a) (omega (arith, length-le_of_none p.addr_map _ e))

Freed-flipped :
    (p : AddrPool) (a c : ℕ)
    → IsValid p
    → InRange p a
    → get_elem? p.addr_map (offset p a / 64) ≡ some c
    → digit c (offset p a % 64) ≡ 0
    → Freed p (flipped p (offset p a / 64) c (offset p a % 64)) a
Freed-flipped p a c v r e z = record {
  was_taken = held;
  others = λ x s.
      is_allocated-flipped p i c b x e (omega arith) s
      ∙ rw (same_address p x a (i * 64 + b) s r (omega arith))
          (turned_off x a (is_allocated p x) (λ q. ap (is_allocated p) q ∙ held));
  valid = flipped-IsValid p i c b v e (omega arith);
}
  where
    i : ℕ
    i = offset p a / 64

    b : ℕ
    b = offset p a % 64

    held : is_allocated p a ≡ true
    held = is_allocated-cell p a c r e ∙ rw z

-- In a valid pool, `free` of an address of the range that is handed out succeeds: it makes that
-- address free, leaves every other address of the range as it was and keeps the pool valid. Of
-- an address of the range that is not handed out it raises KeyError and changes nothing. It
-- raises nothing else.
pub free_outcome : (p : AddrPool) (a : ℕ) → IsValid p → InRange p a → FreeOutcome p a (free p a 0)
free_outcome p a v r =
    rw (free-place p a r) (elim (Option-cases (get_elem? p.addr_map (offset p a / 64))) [
      | inl e ↦
          rw
            (free_place-past p (offset p a / 64) (offset p a % 64)
              (length-le_of_none p.addr_map _ e))
            (is_allocated_past p a r e, refl)
      | inr (c, e) ↦ elim (ℕ_discrete (digit c (offset p a % 64)) 0) [
        | yes z ↦
            rw (free_place-clear p (offset p a / 64) (offset p a % 64) c e z)
              (Freed-flipped p a c v r e z)
        | no o ↦
            rw (free_place-set p (offset p a / 64) (offset p a % 64) c e (omega arith))
              (is_allocated-cell p a c r e ∙ ground arith, refl)
      ]
    ])

undone :
    (p q : AddrPool) (a : ℕ) (r : AddrPool × Result (Unit {0}))
    → Allocated p q a
    → FreeOutcome q a r
    → (r.1 ≡ ok tt) × ((x : ℕ) → InRange p x → is_allocated r.0 x ≡ is_allocated p x)
undone p q a (r, ok u) h f = (
  refl,
  λ x s.
      f.others x
        (subst (λ m. m ≤ x) (sym h.same_range.0) s.0, subst (λ m. x ≤ m) (sym h.same_range.1) s.1)
      ∙ ap (λ t. if x == a then false else t) (h.others x s)
      ∙ restored x,
)
  where
    restored :
        (x : ℕ)
        → (if x == a then false else (if x == a then true else is_allocated p x)) ≡ is_allocated p x
    restored x = elim (Bool-cases (x == a)) [
      | inl e ↦ rw e (sym (ap (is_allocated p) ((==_iff x a).0 e) ∙ h.was_free))
      | inr n ↦ rw n
    ]
undone p q a (r, key_error) h f =
    let held : is_allocated q a ≡ true = h.others a h.within ∙ rw ==_refl in cc (held, f.0)
undone p q a (r, index_error) h f = absurd f
undone p q a (r, stuck) h f = absurd f

-- For a valid pool with no banned addresses whose `alloc` returns `a`: `free` of `a` on the pool
-- that it leaves succeeds, and then every address of the range is as it was before.
pub free-alloc :
    (p q : AddrPool) (a : ℕ)
    → IsValid p
    → p.ban ≡ []
    → alloc p ≡ (q, ok a)
    → ((free q a 0).1 ≡ ok tt)
      × ((x : ℕ) → InRange p x → is_allocated (free q a 0).0 x ≡ is_allocated p x)
free-alloc p q a v nb e =
    let h : Allocated p q a = subst (Outcome p) e (alloc-Outcome p v nb) in
    undone p q a (free q a 0) h (
      free_outcome q a h.valid (
        subst (λ m. m ≤ a) (sym h.same_range.0) h.within.0,
        subst (λ m. a ≤ m) (sym h.same_range.1) h.within.1,
      ))

place_below :
    (p : AddrPool) (d : ℕ)
    → p.reverse ≡ false
    → 0 < d
    → d ≤ p.minaddr
    → free p (p.minaddr - d) 0 ≡ free_place p (behind ((d + 63) / 64) ((d + 63) / 64 * 64 - d))
unfolding free place place_of
place_below p d f pos low =
    let under : leb p.minaddr (p.minaddr - d) ≡ false = ground arith in
    let back : p.minaddr - (p.minaddr - d) ≡ d = omega arith in rw (f, under, back) refl

-- The address that a number below the range is taken for: `d` below the range stands for the
-- `d`-th bit from the end of the map.
below_same :
    (p : AddrPool) (d x : ℕ)
    → p.reverse ≡ false
    → 0 < d
    → d ≤ 64 * length p.addr_map
    → x + d ≡ p.minaddr + 64 * length p.addr_map
    → (offset p x / 64 ≡ length p.addr_map - (d + 63) / 64)
      × (offset p x % 64 ≡ (d + 63) / 64 * 64 - d)
below_same p d x f pos fits e = rw (offset_forward p x f) (omega arith, omega arith)

held_cell :
    (p : AddrPool) (x : ℕ)
    → InRange p x
    → is_allocated p x ≡ true
    → (c : ℕ) × (get_elem? p.addr_map (offset p x / 64) ≡ some c) × (digit c (offset p x % 64) ≡ 0)
held_cell p x r h = elim (Option-cases (get_elem? p.addr_map (offset p x / 64))) [
  | inl e ↦ cc (h, is_allocated_past p x r e)
  | inr (c, e) ↦ (c, e, ground (arith, is_allocated-cell p x c r e))
]

-- In a valid forward pool, `free` of a number that is `d` below the range, `d` at most the size of
-- the map, does not raise when the address `d` before the end of the map lies in the range and is
-- handed out: it succeeds, and that other address is free afterwards.
pub free_below :
    (p : AddrPool) (d x : ℕ)
    → IsValid p
    → p.reverse ≡ false
    → 0 < d
    → d ≤ p.minaddr
    → d ≤ 64 * length p.addr_map
    → x + d ≡ p.minaddr + 64 * length p.addr_map
    → InRange p x
    → is_allocated p x ≡ true
    → ((free p (p.minaddr - d) 0).1 ≡ ok tt) × (is_allocated (free p (p.minaddr - d) 0).0 x ≡ false)
free_below p d x v f pos low fits e r h =
    let (c, there, clear) = held_cell p x r h in
    let (cell_same, bit_same) = below_same p d x f pos fits e in
    rw
      (
        place_below p d f pos low,
        free_place-behind p ((d + 63) / 64) ((d + 63) / 64 * 64 - d) c (omega arith)
            (subst (λ i. get_elem? p.addr_map i ≡ some c) cell_same there)
            (subst (λ b. digit c b ≡ 0) bit_same clear),
      )
      (
        refl,
        subst₂ (λ i b. is_allocated (flipped p i c b) x ≡ false) cell_same bit_same
            ((Freed-flipped p x c v r there clear).others x r ∙ rw (==_refl x)),
      )

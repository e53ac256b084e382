-- ===== src/Common/AddrPool/Take.antt =====
-- The outcomes of `alloc`, and its part from the bit that it takes on.
use pyroute.Prelude.{
  ℕ, ◌+◌, ◌-◌, ◌*◌, ◌^◌, ◌<◌, ◌≡◌, refl, ap, ◌∙◌, bit_xor, Bool, true, false, not, Option, some,
  List, set, ◌==◌, ==_iff, if◌then◌else◌, inl, inr, Bool-cases, arith, get_elem?-set_self,
  lt-length_of_get,
}
use native.Mathlib.Decide.{dec_le}
use pyroute.Prelude.Bits.{digit-flip_self}
use pyroute.Common.AddrPool.{
  AddrPool, Result, ok, key_error, index_error, stuck, ahead, is_allocated, free, place, address,
  in_range, give_back, no_address, hand_out, take_bit,
}
use pyroute.Common.AddrPool.Bitmap.{
  same_address, taken, taken_at_bit, address-within, in_range-address-false, offset_bound,
  is_allocated-taken, InRange, offset, offset-map,
}
use pyroute.Common.AddrPool.Flip.{
  IsValid, flipped, flipped-IsValid, is_allocated-flipped, free_place-clear,
}
use pyroute.Common.AddrPool.Search.{IsFirst}

-- `q` is `p` with one more address handed out.
pub record Allocated (p q : AddrPool) (a : ℕ) : Type 0 where
  pub within : InRange p a
  pub same_range : (q.minaddr ≡ p.minaddr) × (q.maxaddr ≡ p.maxaddr)
  pub was_free : is_allocated p a ≡ false
  pub others :
      (x : ℕ) → InRange p x → is_allocated q x ≡ (if x == a then true else is_allocated p x)
  pub valid : IsValid q

pub record Exhausted (p q : AddrPool) : Type 0 where
  pub all_taken : (x : ℕ) → InRange p x → is_allocated p x ≡ true
  pub unchanged : (x : ℕ) → InRange p x → is_allocated q x ≡ is_allocated p x
  pub valid : IsValid q

abbrev pub Outcome : AddrPool → AddrPool × Result ℕ → Type 0
Outcome p (q, ok a) = Allocated p q a
Outcome p (q, key_error) = Exhausted p q
Outcome p (q, index_error) = ⊥
Outcome p (q, stuck) = ⊥

IsFirst-free : (m : List ℕ) (i c b : ℕ) → IsFirst m i c b → taken m (i * 64 + b) ≡ false
IsFirst-free m i c b f = rw (taken_at_bit m i c b f.cell_there f.bit_lt, f.is_set)

turned :
    (x a : ℕ) (t : Bool)
    → (x ≡ a → t ≡ false)
    → (if x == a then not t else t) ≡ (if x == a then true else t)
turned x a t h = elim (Bool-cases (x == a)) [ inl e ↦ rw (e, h ((==_iff x a).0 e)) | inr n ↦ rw n ]

Allocated-flipped :
    (p : AddrPool) (i c b a : ℕ)
    → IsValid p
    → IsFirst p.addr_map i c b
    → InRange p a
    → offset p a ≡ i * 64 + b
    → Allocated p (flipped p i c b) a
Allocated-flipped p i c b a v f r o = record {
  within = r;
  same_range = (refl, refl);
  was_free = free_before;
  others = λ x s.
      is_allocated-flipped p i c b x f.cell_there f.bit_lt s
      ∙ rw (same_address p x a (i * 64 + b) s r o)
          (turned x a (is_allocated p x) (λ e. ap (is_allocated p) e ∙ free_before));
  valid = flipped-IsValid p i c b v f.cell_there f.bit_lt;
}
  where
    free_before : is_allocated p a ≡ false
    free_before =
        is_allocated-taken p a r ∙ ap (taken p.addr_map) o ∙ IsFirst-free p.addr_map i c b f

-- The address went into a ban at once: the map is that of the allocation.
Allocated-banned :
    (p q : AddrPool) (a k : ℕ) → Allocated p q a → (k == 0) ≡ false → Allocated p (free q a k).0 a
unfolding free is_allocated place
Allocated-banned p q a k h e = rw e (record {
  within = h.within;
  same_range = h.same_range;
  was_free = h.was_free;
  others = h.others;
  valid = record {
    are_cells = h.valid.are_cells;
    fits = h.valid.fits;
    enough = h.valid.enough;
    ordered = h.valid.ordered;
  };
})

hand_out-Outcome :
    (p q : AddrPool) (i b a : ℕ)
    → in_range q (some a) ≡ true
    → Allocated p q a
    → Outcome p (hand_out q i b (some a))
unfolding hand_out
hand_out-Outcome p q i b a e h = rw e (elim (Bool-cases (q.release == 0)) [
  | inl z ↦ rw z h
  | inr n ↦ rw n (Allocated-banned p q a q.release h n)
])

hand_out_outside :
    (q : AddrPool) (i b : ℕ) (o : Option ℕ)
    → in_range q o ≡ false
    → hand_out q i b o ≡ give_back q (ahead i b)
unfolding hand_out
hand_out_outside q i b o e = rw e

-- The bit that was out of range goes back.
unflip :
    (p : AddrPool) (i c b : ℕ)
    → IsFirst p.addr_map i c b
    → give_back (flipped p i c b) (ahead i b)
      ≡ (flipped (flipped p i c b) i (bit_xor c (2 ^ b)) b, key_error)
unfolding give_back no_address
unflip p i c b f =
    rw
      (free_place-clear (flipped p i c b) i b (bit_xor c (2 ^ b))
        (get_elem?-set_self p.addr_map i _ (lt-length_of_get p.addr_map i f.cell_there))
        (omega (arith, digit-flip_self b c, f.is_set)))
      refl

not-not : (t : Bool) → not (not t) ≡ t
not-not true = refl
not-not false = refl

turned_twice :
    (t : Bool) (u : Bool)
    → (if t then not (if t then not u else u) else (if t then not u else u)) ≡ u
turned_twice true u = not-not u
turned_twice false u = refl

is_allocated-unflip :
    (p : AddrPool) (i c b x : ℕ)
    → IsFirst p.addr_map i c b
    → InRange p x
    → is_allocated (flipped (flipped p i c b) i (bit_xor c (2 ^ b)) b) x ≡ is_allocated p x
is_allocated-unflip p i c b x f s =
    is_allocated-flipped (flipped p i c b) i (bit_xor c (2 ^ b)) b x
      (get_elem?-set_self p.addr_map i _ (lt-length_of_get p.addr_map i f.cell_there)) f.bit_lt s
    ∙ rw
        (
          is_allocated-flipped p i c b x f.cell_there f.bit_lt s,
          offset-map p (set p.addr_map i (bit_xor c (2 ^ b))) x,
        )
        (turned_twice (offset p x == i * 64 + b) (is_allocated p x))

Exhausted-unflip :
    (p : AddrPool) (i c b : ℕ)
    → IsValid p
    → IsFirst p.addr_map i c b
    → p.maxaddr - p.minaddr < i * 64 + b
    → Exhausted p (flipped (flipped p i c b) i (bit_xor c (2 ^ b)) b)
Exhausted-unflip p i c b v f o = record {
  all_taken =
      λ x s. is_allocated-taken p x s ∙ f.before (offset p x) (omega (arith, offset_bound p x s));
  unchanged = λ x s. is_allocated-unflip p i c b x f s;
  valid =
      flipped-IsValid (flipped p i c b) i (bit_xor c (2 ^ b)) b
        (flipped-IsValid p i c b v f.cell_there f.bit_lt)
        (get_elem?-set_self p.addr_map i _ (lt-length_of_get p.addr_map i f.cell_there)) f.bit_lt;
}

pub take_bit-Outcome :
    (p : AddrPool) (i c b : ℕ) → IsValid p → IsFirst p.addr_map i c b → Outcome p (take_bit p i c b)
unfolding take_bit
take_bit-Outcome p i c b v f = elim (dec_le (i * 64 + b) (p.maxaddr - p.minaddr)) [
  | yes l ↦
      let (a, e, r, o) = address-within p (i * 64 + b) v.ordered l in
      rw e (
        hand_out-Outcome p (flipped p i c b) i b a (unfold in_range in ground arith)
          (Allocated-flipped p i c b a v f r o))
  | no g ↦
      let outside : p.maxaddr - p.minaddr < i * 64 + b = omega arith in
      rw
        (
          hand_out_outside (flipped p i c b) i b (address p (i * 64 + b))
              (unfold in_range in in_range-address-false p (i * 64 + b) v.ordered outside),
          unflip p i c b f,
        )
        (Exhausted-unflip p i c b v f outside)
]

-- ===== src/Common/AddrPool/Alloc.antt =====
-- What `alloc` does, on every branch, to a pool with no banned addresses.
use pyroute.Prelude.{
  ℕ, suc, ◌*◌, ◌≤◌, ◌<◌, ◌≡◌, ◌≢◌, refl, sym, subst, ap, ◌∙◌, true, [], ◌∷◌, ◌++◌, length,
  length-append, ltb, ◌==◌, if◌then◌else◌, inl, inr, Bool-cases, arith,
}
use pyroute.Common.AddrPool.{
  AddrPool, Result, ok, key_error, index_error, stuck, cell, is_allocated, grow, scan, gc_ban,
  after_gc, alloc_depth, alloc, Found, found, full, lost, first_free,
}
use pyroute.Common.AddrPool.Bitmap.{
  taken, taken_past, offset_bound, taken-grow, is_allocated-taken, InRange, offset, offset-map,
}
use pyroute.Common.AddrPool.Flip.{IsValid, All-grow}
use pyroute.Common.AddrPool.Take.{Outcome, Exhausted, take_bit-Outcome}
use pyroute.Common.AddrPool.Search.{Describes, first_free-Describes}

-- The whole range lies in the map, and the map is full.
Exhausted-full :
    (p : AddrPool)
    → IsValid p
    → ((n : ℕ) → n < 64 * length p.addr_map → taken p.addr_map n ≡ true)
    → p.cells ≤ length p.addr_map
    → Exhausted p p
Exhausted-full p v h k = record {
  all_taken = λ x s.
      is_allocated-taken p x s ∙ h (offset p x) (omega (arith, offset_bound p x s, v.enough));
  unchanged = λ x s. refl;
  valid = v;
}

grow-IsValid : (p : AddrPool) → IsValid p → length p.addr_map < p.cells → IsValid (grow p)
unfolding grow
grow-IsValid p v h = record {
  are_cells = All-grow p.addr_map v.are_cells;
  fits = omega (arith, length-append p.addr_map (cell ∷ []));
  enough = v.enough;
  ordered = v.ordered;
}

is_allocated-grow :
    (p : AddrPool) (x : ℕ) → InRange p x → is_allocated (grow p) x ≡ is_allocated p x
unfolding grow
is_allocated-grow p x s =
    is_allocated-taken (grow p) x s
    ∙ rw (is_allocated-taken p x s, offset-map p (p.addr_map ++ cell ∷ []) x)
        (taken-grow p.addr_map (offset p x))

-- The outcome of the call on the grown pool, seen from the pool before.
Outcome-grow : (p : AddrPool) (r : AddrPool × Result ℕ) → Outcome (grow p) r → Outcome p r
unfolding grow
Outcome-grow p (q, ok a) h = record {
  within = h.within;
  same_range = h.same_range;
  was_free = sym (is_allocated-grow p a h.within) ∙ h.was_free;
  others = λ x s. h.others x s ∙ ap (λ t. if x == a then true else t) (is_allocated-grow p x s);
  valid = h.valid;
}
Outcome-grow p (q, key_error) h = record {
  all_taken = λ x s. sym (is_allocated-grow p x s) ∙ h.all_taken x s;
  unchanged = λ x s. h.unchanged x s ∙ is_allocated-grow p x s;
  valid = h.valid;
}
Outcome-grow p (q, index_error) h = h
Outcome-grow p (q, stuck) h = h

scan-Outcome :
    (again : AddrPool → AddrPool × Result ℕ) (p : AddrPool) (r : Found)
    → IsValid p
    → Describes p.addr_map 0 r
    → (r ≡ full → length p.addr_map < p.cells → Outcome (grow p) (again (grow p)))
    → Outcome p (scan again p r)
unfolding scan
scan-Outcome again p (found j c b) v (i, e, f) h =
    let e' : j ≡ i = omega arith in rw e' (take_bit-Outcome p i c b v f)
scan-Outcome again p full v d h = elim (Bool-cases (ltb (length p.addr_map) p.cells)) [
  | inl l ↦ rw l (Outcome-grow p _ (h refl (ground arith)))
  | inr g ↦ rw g (Exhausted-full p v d (ground arith))
]
scan-Outcome again p lost v d h = absurd d

-- A grown map is not full.
grown_not_full : (p : AddrPool) → IsValid p → first_free 0 (grow p).addr_map ≢ full
unfolding grow
grown_not_full p v e =
    let past : taken (p.addr_map ++ cell ∷ []) (64 * length p.addr_map) ≡ true =
      subst (Describes (p.addr_map ++ cell ∷ []) 0) e
        (first_free-Describes (p.addr_map ++ cell ∷ []) 0 (All-grow p.addr_map v.are_cells))
        (64 * length p.addr_map) (omega (arith, length-append p.addr_map (cell ∷ []))) in
    cc (
      past,
      taken-grow p.addr_map (64 * length p.addr_map),
      taken_past p.addr_map (64 * length p.addr_map) (omega arith),
    )

alloc_depth-Outcome :
    (f : ℕ) (p : AddrPool)
    → IsValid p
    → p.ban ≡ []
    → (first_free 0 p.addr_map ≡ full
        → length p.addr_map < p.cells
        → Outcome (grow p) (alloc_depth f (grow p)))
    → Outcome p (alloc_depth (suc f) p)
unfolding alloc_depth after_gc gc_ban
alloc_depth-Outcome f p v nb h =
    subst (λ l. Outcome p (after_gc (alloc_depth f) (gc_ban p [] l))) (sym nb)
      (subst (λ q. Outcome p (scan (alloc_depth f) q (first_free 0 p.addr_map))) unbanned
        (scan-Outcome (alloc_depth f) p (first_free 0 p.addr_map) v
          (first_free-Describes p.addr_map 0 v.are_cells) h))
  where
    unbanned : p ≡ record p { ban = [] }
    unbanned = λ i. record p { ban = nb i }

-- For a valid pool with no banned addresses, `alloc` returns an address of the range that was not
-- handed out, marks it and leaves every other address of the range as it was; or it raises
-- KeyError, every address of the range being handed out already, and leaves them all as they
-- were. It raises nothing else, both loops end, and the pool stays valid.
pub alloc-Outcome : (p : AddrPool) → IsValid p → p.ban ≡ [] → Outcome p (alloc p)
unfolding alloc grow
alloc-Outcome p v nb = alloc_depth-Outcome 1 p v nb λ e l.
    alloc_depth-Outcome 0 (grow p) (grow-IsValid p v l) nb (λ e' l'. absurd (grown_not_full p v e'))

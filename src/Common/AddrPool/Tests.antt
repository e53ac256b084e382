-- ===== src/Common/AddrPool/Tests.antt =====
-- The pool of the addresses 15 to 80: 66 addresses in two cells.
use pyroute.Prelude.{ℕ, ◌≡◌, refl, true, false, [], ◌∷◌, arith}
use pyroute.Common.AddrPool.{
  AddrPool, ok, cell, init, is_allocated, free, alloc, gc_ban, scan, first_free, stop_at,
  lowest_bit, take_bit, hand_out, in_range, address, place, place_of, cell_at, bit_of, clear_in,
}
use pyroute.Common.AddrPool.Bitmap.{InRange}
use pyroute.Common.AddrPool.Flip.{IsValid}
use pyroute.Common.AddrPool.Take.{Outcome}
use pyroute.Common.AddrPool.Alloc.{alloc-Outcome}
use pyroute.Common.AddrPool.Free.{FreeOutcome, free_outcome, free-alloc, free_below}

abbrev fresh : AddrPool
fresh = record {
  minaddr = 15;
  maxaddr = 80;
  reverse = false;
  release = 0;
  cells = 2;
  addr_map = cell ∷ [];
  ban = [];
}

fresh-init : init 15 80 false 0 ≡ fresh
unfolding init
fresh-init = refl

-- With 15 handed out.
abbrev used : AddrPool
used = record {
  minaddr = 15;
  maxaddr = 80;
  reverse = false;
  release = 0;
  cells = 2;
  addr_map = 0xffff_ffff_ffff_fffe ∷ [];
  ban = [];
}

-- With 78 handed out.
abbrev held : AddrPool
held = record {
  minaddr = 15;
  maxaddr = 80;
  reverse = false;
  release = 0;
  cells = 2;
  addr_map = 0x7fff_ffff_ffff_ffff ∷ [];
  ban = [];
}

fresh-IsValid : IsValid fresh
fresh-IsValid = record {
  are_cells = (omega arith, tt);
  fits = omega arith;
  enough = refl;
  ordered = omega arith;
}

used-IsValid : IsValid used
used-IsValid = record {
  are_cells = (omega arith, tt);
  fits = omega arith;
  enough = refl;
  ordered = omega arith;
}

held-IsValid : IsValid held
held-IsValid = record {
  are_cells = (omega arith, tt);
  fits = omega arith;
  enough = refl;
  ordered = omega arith;
}

alloc-fresh : alloc fresh ≡ (used, ok 15)
unfolding alloc gc_ban scan first_free stop_at lowest_bit take_bit hand_out in_range address
alloc-fresh = refl

alloc-Outcome_example : Outcome fresh (alloc fresh)
alloc-Outcome_example = alloc-Outcome fresh fresh-IsValid refl

free_outcome_example : FreeOutcome used 15 (free used 15 0)
free_outcome_example = free_outcome used 15 used-IsValid (omega arith, omega arith)

free-alloc_example :
    ((free used 15 0).1 ≡ ok tt)
    × ((x : ℕ) → InRange fresh x → is_allocated (free used 15 0).0 x ≡ is_allocated fresh x)
free-alloc_example = free-alloc fresh used 15 fresh-IsValid refl alloc-fresh

taken_78 : is_allocated held 78 ≡ true
unfolding is_allocated place place_of cell_at bit_of clear_in
taken_78 = refl

-- `free` of 14, which lies below the range, frees 78.
free_below_example : ((free held 14 0).1 ≡ ok tt) × (is_allocated (free held 14 0).0 78 ≡ false)
free_below_example =
    free_below held 1 78 held-IsValid refl (omega arith) (omega arith) (omega arith) refl
      (omega arith, omega arith) taken_78

-- ===== src/Common/AddrPool.antt =====
-- `AddrPool` of pyroute2/common.py: addresses from a range, kept as a bitmap of 64-bit cells that
-- grows on demand. A set bit is a free address. Python's integers may go below zero here, so a
-- place in the map is a cell from the front or from the back, and a bit.
pub mod Bitmap
pub mod Flip
pub mod Search
pub mod Take
pub mod Alloc
pub mod Free
pub mod Tests
use pyroute.Prelude.{
  ℕ, zero, suc, ◌+◌, ◌-◌, ◌*◌, ◌/◌, ◌%◌, ◌^◌, bit_and, bit_xor, Bool, true, false, not, ◌&&◌,
  Option, none, some, List, [], ◌∷◌, ◌++◌, length, get_elem?, set, ltb, leb, ◌==◌, if◌then◌else◌,
}

abbrev pub cell : ℕ
cell = 0xffff_ffff_ffff_ffff

-- `while mx: mx >>= 8; cell_size += 1`, on fuel.
abbrev pub count_bytes : ℕ → ℕ → ℕ → ℕ
count_bytes zero mx size = size
count_bytes (suc f) mx size =
    let rest = count_bytes f (mx / 2 ^ 8) (size + 1) in if mx == 0 then size else rest

-- In bits.
abbrev pub cell_size : ℕ
cell_size = count_bytes 9 cell 0 * 8

-- `stuck` is no Python value: a loop ran out of its fuel.
pub data Result {ℓ} (A : Type ℓ) : Type ℓ where
  ok : A → Result A
  key_error index_error stuck : Result A

pub record Banned : Type 0 where
  pub addr : ℕ
  pub counter : ℕ

pub record AddrPool : Type 0 where
  pub minaddr : ℕ
  pub maxaddr : ℕ
  pub reverse : Bool
  pub release : ℕ
  pub cells : ℕ
  pub addr_map : List ℕ
  pub ban : List Banned

-- `__init__`, for `minaddr <= maxaddr`: there the float division is exact and rounds down.
unfoldable pub init : ℕ → ℕ → Bool → ℕ → AddrPool
init minaddr maxaddr reverse release = record {
  minaddr = minaddr;
  maxaddr = maxaddr;
  reverse = reverse;
  release = release;
  cells = (maxaddr - minaddr) / cell_size + 1;
  addr_map = cell ∷ [];
  ban = [];
}

-- `divmod(n, cell_size)`: `behind i b` is a base of `-i`.
pub data Place : Type 0 where
  ahead behind : ℕ → ℕ → Place

-- `base, bit` of `x - y`.
pub place_of : ℕ → ℕ → Place
place_of x y =
    let base = (y - x + (cell_size - 1)) / cell_size in
    if leb y x
    then ahead ((x - y) / cell_size) ((x - y) % cell_size)
    else behind base (base * cell_size - (y - x))

pub place : AddrPool → ℕ → Place
place p addr = if p.reverse then place_of p.maxaddr addr else place_of addr p.minaddr

-- `addr_map[base]`, where a negative base counts from the end and `none` is an IndexError.
pub cell_at : List ℕ → Place → Option ℕ
cell_at m (ahead base bit) = get_elem? m base
cell_at m (behind base bit) = if leb base (length m) then get_elem? m (length m - base) else none

pub bit_of : Place → ℕ
bit_of (ahead base bit) = bit
bit_of (behind base bit) = bit

-- `addr_map[base] ^= 1 << bit` at a cell that is there.
pub flip_at : List ℕ → Place → ℕ → List ℕ
flip_at m (ahead base bit) c = set m base (bit_xor c (2 ^ bit))
flip_at m (behind base bit) c = set m (length m - base) (bit_xor c (2 ^ bit))

-- `not self.addr_map[base] & (1 << bit)`, and False on an IndexError.
pub clear_in : ℕ → Option ℕ → Bool
clear_in bit none = false
clear_in bit (some c) = bit_and c (2 ^ bit) == 0

-- The third result of `locate`.
unfoldable pub is_allocated : AddrPool → ℕ → Bool
is_allocated p addr = let at = place p addr in clear_in (bit_of at) (cell_at p.addr_map at)

pub past_the_end : List ℕ → Place → Bool
past_the_end m (ahead base bit) = leb (length m) base
past_the_end m (behind base bit) = false

pub flip_clear : AddrPool → Place → Option ℕ → AddrPool × Result (Unit {0})
flip_clear p at none = (p, index_error)
flip_clear p at (some c) =
    if bit_and c (2 ^ bit_of at) == 0
    then (record p { addr_map = flip_at p.addr_map at c }, ok tt)
    else (p, key_error)

-- The part of `free` without a ban, from the place on.
pub free_place : AddrPool → Place → AddrPool × Result (Unit {0})
free_place p at =
    if past_the_end p.addr_map at then (p, key_error) else flip_clear p at (cell_at p.addr_map at)

unfoldable pub free : AddrPool → ℕ → ℕ → AddrPool × Result (Unit {0})
free p addr ban =
    if ban == 0
    then free_place p (place p addr)
    else (record p { ban = p.ban ++ record { addr = addr; counter = ban } ∷ [] }, ok tt)

pub same : Banned → Banned → Bool
same a b = a.addr == b.addr && a.counter == b.counter

-- `list.remove`: the first equal item, if there is one.
pub remove_first : Banned → List Banned → Option (List Banned)
remove_first b [] = none
remove_first b (x ∷ xs) =
    let rest = remove_first b xs in
    if same x b then some xs else elim rest [ none ↦ none | some ys ↦ some (x ∷ ys) ]

-- `self.ban.remove(item)`, where `item` stands between those passed and those to come.
pub remove_at : List Banned → Banned → List Banned
remove_at passed b = elim (remove_first b passed) [ none ↦ passed | some ys ↦ ys ++ b ∷ [] ]

-- The loop over `tuple(self.ban)`; `passed` is the part of the list behind it.
pub gc_ban : AddrPool → List Banned → List Banned → AddrPool × Result (Unit {0})
gc_ban p passed [] = (record p { ban = passed }, ok tt)
gc_ban p passed (b ∷ bs) =
    let (q, r) = free p b.addr 0 in
    let freed = gc_ban q (remove_at passed b) bs in
    let kept = gc_ban p (passed ++ record b { counter = b.counter - 1 } ∷ []) bs in
    if b.counter == 0
    then elim r [
      | ok _ ↦ freed
      | key_error ↦ (record q { ban = passed ++ b ∷ bs }, key_error)
      | index_error ↦ (record q { ban = passed ++ b ∷ bs }, index_error)
      | stuck ↦ (q, stuck)
    ]
    else kept

-- `while True: if (1 << bit) & cell: break; bit += 1`
pub lowest_bit : ℕ → ℕ → ℕ → Option ℕ
lowest_bit zero c bit = none
lowest_bit (suc f) c bit =
    let rest = lowest_bit f c (bit + 1) in if bit_and (2 ^ bit) c == 0 then rest else some bit

pub data Found : Type 0 where
  found : ℕ → ℕ → ℕ → Found
  full lost : Found

pub stop_at : ℕ → ℕ → Option ℕ → Found
stop_at base c none = lost
stop_at base c (some bit) = found base c bit

-- The loop over `addr_map`: the first cell that is not 0, its index and its lowest set bit.
pub first_free : ℕ → List ℕ → Found
first_free base [] = full
first_free base (c ∷ cs) =
    let rest = first_free (base + 1) cs in
    if c == 0 then rest else stop_at base c (lowest_bit cell_size c 0)

-- `none` is an address below zero.
pub address : AddrPool → ℕ → Option ℕ
address p n =
    if p.reverse
    then (if leb n p.maxaddr then some (p.maxaddr - n) else none)
    else some (n + p.minaddr)

pub in_range : AddrPool → Option ℕ → Bool
in_range p none = false
in_range p (some a) = leb p.minaddr a && leb a p.maxaddr

pub no_address : AddrPool × Result (Unit {0}) → AddrPool × Result ℕ
no_address (p, ok _) = (p, key_error)
no_address (p, key_error) = (p, key_error)
no_address (p, index_error) = (p, index_error)
no_address (p, stuck) = (p, stuck)

-- `self.free(ret)` and the raise: `locate` takes `ret` back to the place it came from.
pub give_back : AddrPool → Place → AddrPool × Result ℕ
give_back p at = no_address (free_place p at)

-- From the taken bit on.
pub hand_out : AddrPool → ℕ → ℕ → Option ℕ → AddrPool × Result ℕ
hand_out p base bit ret =
    if in_range p ret
    then elim ret [
      | none ↦ (p, stuck)
      | some a ↦ if p.release == 0 then (p, ok a) else ((free p a p.release).0, ok a)
    ]
    else give_back p (ahead base bit)

pub take_bit : AddrPool → ℕ → ℕ → ℕ → AddrPool × Result ℕ
take_bit p base c bit =
    hand_out (record p { addr_map = set p.addr_map base (bit_xor c (2 ^ bit)) }) base bit
      (address p (base * cell_size + bit))

pub grow : AddrPool → AddrPool
grow p = record p { addr_map = p.addr_map ++ cell ∷ [] }

-- From the search on; `again` is `self.alloc`.
pub scan : (AddrPool → AddrPool × Result ℕ) → AddrPool → Found → AddrPool × Result ℕ
scan again p (found base c bit) = take_bit p base c bit
scan again p full = if ltb (length p.addr_map) p.cells then again (grow p) else (p, key_error)
scan again p lost = (p, stuck)

pub after_gc : (AddrPool → AddrPool × Result ℕ) → AddrPool × Result (Unit {0}) → AddrPool × Result ℕ
after_gc again (p, ok _) = scan again p (first_free 0 p.addr_map)
after_gc again (p, key_error) = (p, key_error)
after_gc again (p, index_error) = (p, index_error)
after_gc again (p, stuck) = (p, stuck)

-- `alloc`, with a bound on the depth of its call of itself.
pub alloc_depth : ℕ → AddrPool → AddrPool × Result ℕ
alloc_depth zero p = (p, stuck)
alloc_depth (suc f) p = after_gc (alloc_depth f) (gc_ban p [] p.ban)

-- A second call finds the cell that the first appended.
unfoldable pub alloc : AddrPool → AddrPool × Result ℕ
unfolding alloc_depth after_gc
alloc p = alloc_depth 2 p

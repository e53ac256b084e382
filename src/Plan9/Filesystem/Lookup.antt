-- ===== src/Plan9/Filesystem/Lookup.antt =====
-- What the lookups of a filesystem find is in its heap.
use pyroute.Prelude.{
  ℕ, ◌<◌, ◌≡◌, none, some, List, [], ◌∷◌, length, get_elem?, arith, Bool-cases, Option-cases, inl,
  inr, lt-length_of_get,
}
use pyroute.Plan9.Filesystem.{Inode, Heap, get_child, child_named, text_eq, walk_from, is_empty}

-- A child that is found is in the heap.
child_named-get :
    (heap : Heap) (name cs : List ℕ) (c : ℕ)
    → child_named heap name cs ≡ some c
    → (i : Inode) × (get_elem? heap c ≡ some i)
unfolding child_named
child_named-get heap name [] c h = absurd (ground arith)
child_named-get heap name (d ∷ cs) c h = elim (Option-cases (get_elem? heap d)) [
  | inl out ↦ child_named-get heap name cs c (rw out at h)
  | inr (i, got) ↦ elim (Bool-cases (text_eq i.stat.name name)) [
    | inl y ↦
        let same : some d ≡ some c = rw (got, y) at h in (i, (let e : d ≡ c = cc in rw (← e) got))
    | inr m ↦ child_named-get heap name cs c (rw (got, m) at h)
  ]
]

pub get_child-get :
    (heap : Heap) (ref : ℕ) (name : List ℕ) (c : ℕ)
    → get_child heap ref name ≡ some c
    → (i : Inode) × (get_elem? heap c ≡ some i)
unfolding get_child
get_child-get heap ref name c h = elim (Option-cases (get_elem? heap ref)) [
  | inl out ↦ let lost : none ≡ some c = rw (out, get_child) at h in absurd (ground arith)
  | inr (i, got) ↦ child_named-get heap name i.children c (rw (got, get_child) at h)
]

pub walk_from-lt :
    (heap : Heap) (ref : ℕ) (names : List (List ℕ)) (r : ℕ)
    → ref < length heap
    → walk_from heap ref names ≡ some r
    → r < length heap
unfolding walk_from
walk_from-lt heap ref [] r h e = let same : some ref ≡ some r = e in ground arith
walk_from-lt heap ref (name ∷ names) r h e = elim (Bool-cases (is_empty name)) [
  | inl y ↦ walk_from-lt heap ref names r h (rw (y, walk_from) at e)
  | inr m ↦ elim (Option-cases (get_child heap ref name)) [
    | inl lost ↦ let never : none ≡ some r = rw (m, lost, walk_from) at e in absurd (ground arith)
    | inr (c, found) ↦
        let (i, got) = get_child-get heap ref name c found in
        walk_from-lt heap c names r (lt-length_of_get heap c got) (rw (m, found, walk_from) at e)
  ]
]

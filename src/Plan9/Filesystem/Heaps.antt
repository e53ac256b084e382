-- ===== src/Plan9/Filesystem/Heaps.antt =====
-- An inode is replaced in its heap.
use pyroute.Prelude.{
  ℕ, ◌≡◌, ◌≢◌, refl, some, length, length-set, get_elem?, set, get_elem?-set_self, get_elem?-set_ne,
  Option-cases, inl, inr, lt-length_of_get,
}
use pyroute.Plan9.Filesystem.{Inode, Heap, update}

pub update-in :
    (heap : Heap) (ref : ℕ) (f : Inode → Inode) (i : Inode)
    → get_elem? heap ref ≡ some i
    → update heap ref f ≡ set heap ref (f i)
update-in heap ref f i h = rw (h, update) refl

pub get_elem?-update_self :
    (heap : Heap) (ref : ℕ) (f : Inode → Inode) (i : Inode)
    → get_elem? heap ref ≡ some i
    → get_elem? (update heap ref f) ref ≡ some (f i)
get_elem?-update_self heap ref f i h =
    rw (update-in heap ref f i h) (get_elem?-set_self heap ref (f i) (lt-length_of_get heap ref h))

pub get_elem?-update_ne :
    (heap : Heap) (ref other : ℕ) (f : Inode → Inode)
    → ref ≢ other
    → get_elem? (update heap ref f) other ≡ get_elem? heap other
get_elem?-update_ne heap ref other f h = elim (Option-cases (get_elem? heap ref)) [
  | inl out ↦ rw (out, update) refl
  | inr (i, got) ↦ rw (update-in heap ref f i got) (get_elem?-set_ne heap ref other (f i) h)
]

pub length-update :
    (heap : Heap) (ref : ℕ) (f : Inode → Inode) → length (update heap ref f) ≡ length heap
length-update heap ref f = elim (Option-cases (get_elem? heap ref)) [
  | inl out ↦ rw (out, update) refl
  | inr (i, got) ↦ rw (update-in heap ref f i got) (length-set heap ref (f i))
]

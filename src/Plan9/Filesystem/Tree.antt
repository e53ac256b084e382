-- ===== src/Plan9/Filesystem/Tree.antt =====
-- The links of a filesystem stay within its heap.
use pyroute.Prelude.{
  ℕ, zero, suc, ◌+◌, ◌≤◌, ◌<◌, ◌≡◌, ◌≢◌, refl, sym, ap, ◌∙◌, subst, Option, none, some, List, [],
  ◌∷◌, ◌++◌, length, get_elem?, All, arith, Option-cases, Bool-cases, inl, inr, lt-length_of_get,
  length-le_of_none, ◌==◌, ==_iff,
}
use pyroute.Plan9.Filesystem.{
  Inode, Heap, Filesystem, Owner, new_inode, new_filesystem, add, has, get_parent, first_of, walk,
  create, create_in, path_split,
}
use pyroute.Plan9.Filesystem.Lookup.{walk_from-lt}
use pyroute.Plan9.Filesystem.Creating.{
  created, length-created, created_child, created_parent, created_other, new_parent, new_child,
}

-- Parents and children are in the heap, and there is a parent.
pub record IsLinked (n : ℕ) (i : Inode) : Type 0 where
  pub parents_in : All (λ r. r < n) i.parents
  pub children_in : All (λ r. r < n) i.children
  pub has_parent : i.parents ≢ []

pub record IsTree (heap : Heap) : Type 0 where
  pub rooted : 0 < length heap
  pub linked : (r : ℕ) (i : Inode) → get_elem? heap r ≡ some i → IsLinked (length heap) i

All-grow : (n : ℕ) (rs : List ℕ) → All (λ r. r < n) rs → All (λ r. r < suc n) rs
All-grow n [] h = tt
All-grow n (r ∷ rs) (p, h) = (omega arith, All-grow n rs h)

All-snoc : (n r : ℕ) (rs : List ℕ) → r < n → All (λ r. r < n) rs → All (λ r. r < n) (rs ++ r ∷ [])
All-snoc n r [] p h = (p, tt)
All-snoc n r (s ∷ rs) p (q, h) = (q, All-snoc n r rs p h)

All-add : (n r : ℕ) (rs : List ℕ) → r < n → All (λ r. r < n) rs → All (λ r. r < n) (add r rs)
unfolding add
All-add n r rs p h = elim (Bool-cases (has r rs)) [
  | inl y ↦ rw y h
  | inr m ↦ rw m (All-snoc n r rs p h)
]

add-ne : (r : ℕ) (rs : List ℕ) → add r rs ≢ []
unfolding add has
add-ne r [] e = cc
add-ne r (s ∷ rs) e = elim (Bool-cases (has r (s ∷ rs))) [
  | inl y ↦ let same : s ∷ rs ≡ [] = rw y at e in cc
  | inr m ↦ let same : s ∷ (rs ++ r ∷ []) ≡ [] = rw m at e in cc
]

IsLinked-grow : (n : ℕ) (i : Inode) → IsLinked n i → IsLinked (suc n) i
IsLinked-grow n i l = record {
  parents_in = All-grow n i.parents l.parents_in;
  children_in = All-grow n i.children l.children_in;
  has_parent = l.has_parent;
}

module _ (heap : Heap) (tree : IsTree heap) (p : ℕ) (parent inode : Inode)
    (got : get_elem? heap p ≡ some parent) (no_parents : inode.parents ≡ [])
    (no_children : inode.children ≡ []) where
  child-IsLinked : IsLinked (suc (length heap)) (new_child heap p parent inode got)
  child-IsLinked = record {
    parents_in =
        All-add (suc (length heap)) p inode.parents (omega (arith, lt-length_of_get heap p got))
          (rw no_parents tt);
    children_in = rw no_children tt;
    has_parent = add-ne p inode.parents;
  }

  parent-IsLinked : IsLinked (suc (length heap)) (new_parent heap p parent inode got)
  parent-IsLinked =
      let l = tree.linked p parent got in
      record {
        parents_in = All-grow (length heap) parent.parents l.parents_in;
        children_in =
            All-add (suc (length heap)) (length heap) parent.children (omega arith)
              (All-grow (length heap) parent.children l.children_in);
        has_parent = l.has_parent;
      }

  link_created :
      (r : ℕ) (i : Inode)
      → get_elem? (created heap p parent inode got) r ≡ some i
      → IsLinked (suc (length heap)) i
  link_created r i h = elim (Bool-cases (r == length heap)) [
    | inl y ↦
        let here : r ≡ length heap = (==_iff _ _).0 y in
        let same : some (new_child heap p parent inode got) ≡ some i =
          sym (created_child heap p parent inode got) ∙ (rw here at h) in
        subst (IsLinked (suc (length heap))) (cc same) child-IsLinked
    | inr m ↦ elim (Bool-cases (r == p)) [
      | inl y ↦
          let here : r ≡ p = (==_iff _ _).0 y in
          let same : some (new_parent heap p parent inode got) ≡ some i =
            sym (created_parent heap p parent inode got) ∙ (rw here at h) in
          subst (IsLinked (suc (length heap))) (cc same) parent-IsLinked
      | inr o ↦
          let len : r < suc (length heap) =
            subst (λ n. r < n) (length-created heap p parent inode got)
              (lt-length_of_get (created heap p parent inode got) r h) in
          let lt : r < length heap = ground arith in
          let ne : r ≢ p = λ e. (ground arith) in
          IsLinked-grow (length heap) i
            (tree.linked r i (sym (created_other heap p parent inode got r lt ne) ∙ h))
    ]
  ]

  pub created-IsTree : IsTree (created heap p parent inode got)
  created-IsTree = record {
    rooted = subst (λ n. 0 < n) (sym (length-created heap p parent inode got)) (omega arith);
    linked = λ r i h.
        subst (λ n. IsLinked n i) (sym (length-created heap p parent inode got))
          (link_created r i h);
  }

walk-lt :
    (fs : Filesystem) (wname : List ℕ) (r : ℕ)
    → IsTree fs.heap
    → walk fs wname ≡ some r
    → r < length fs.heap
unfolding walk
walk-lt fs wname r tree h = walk_from-lt fs.heap 0 _ r tree.rooted h

pub get_in :
    {A : Type 0} (xs : List A) (i : ℕ) → i < length xs → (a : A) × (get_elem? xs i ≡ some a)
get_in xs i h = elim (Option-cases (get_elem? xs i)) [
  | inl out ↦ absurd (omega (arith, length-le_of_none xs i out))
  | inr found ↦ found
]

-- `..` leads into the heap, from everywhere.
pub get_parent_in :
    (heap : Heap) (r : ℕ) (i : Inode)
    → IsTree heap
    → get_elem? heap r ≡ some i
    → (q : ℕ) × (get_parent heap r ≡ some q) × (q < length heap)
unfolding get_parent
get_parent_in heap r i tree h =
    rw (h, get_parent)
      (first i.parents (tree.linked r i h).parents_in (tree.linked r i h).has_parent)
  where
    first :
        (ps : List ℕ)
        → All (λ q. q < length heap) ps
        → ps ≢ []
        → (q : ℕ) × (first_of ps ≡ some q) × (q < length heap)
    first [] p ne = absurd (ne refl)
    first (q ∷ ps) (lt, p) ne = (q, refl, lt)

heap_of : Option (Filesystem × ℕ) → Heap
heap_of none = []
heap_of (some (fs, ref)) = fs.heap

create_in-IsTree :
    (fs fs' : Filesystem) (o : Owner) (name content : List ℕ) (qtype mode ref : ℕ)
    (parent : Option ℕ)
    → IsTree fs.heap
    → ((p : ℕ) → parent ≡ some p → p < length fs.heap)
    → create_in fs o name qtype mode content parent ≡ some (fs', ref)
    → IsTree fs'.heap × (length fs.heap ≤ length fs'.heap)
unfolding create_in new_inode heap_of
create_in-IsTree fs fs' o name content qtype mode ref none tree lt h = absurd (ground arith)
create_in-IsTree fs fs' o name content qtype mode ref (some p) tree lt h =
    let (parent, got) = get_in fs.heap p (lt p refl) in
    let inode = new_inode o name (fs.last_path + 1) content qtype mode [] in
    let same : created fs.heap p parent inode got ≡ fs'.heap = ap heap_of h in
    (
      subst IsTree same (created-IsTree fs.heap tree p parent inode got refl refl),
      omega (arith, ap length same, length-created fs.heap p parent inode got),
    )

pub create-IsTree :
    (fs fs' : Filesystem) (o : Owner) (wname content : List ℕ) (qtype ref : ℕ) (mode : Option ℕ)
    → IsTree fs.heap
    → create fs o wname qtype mode content ≡ some (fs', ref)
    → IsTree fs'.heap × (length fs.heap ≤ length fs'.heap)
unfolding create
create-IsTree fs fs' o wname content qtype ref mode tree h =
    create_in-IsTree fs fs' o _ content qtype _ ref (walk fs (path_split wname).0) tree
      (λ p e. walk-lt fs _ p tree e) h

pub new_filesystem-IsTree : (o : Owner) → IsTree (new_filesystem o).heap
unfolding new_filesystem new_inode
new_filesystem-IsTree o = record { rooted = omega arith; linked = root }
  where
    root :
        (r : ℕ) (i : Inode)
        → get_elem? (new_inode o (47 ∷ []) 0 [] 128 493 (0 ∷ []) ∷ []) r ≡ some i
        → IsLinked 1 i
    root zero i h =
        let same : new_inode o (47 ∷ []) 0 [] 128 493 (0 ∷ []) ≡ i = cc h in
        subst (IsLinked 1) same
          (record { parents_in = (omega arith, tt); children_in = tt; has_parent = λ e. cc })
    root (suc r) i h = cc

-- ===== src/Plan9/Server/Links.antt =====
-- The references of a server: fids and inodes within the heap, and what keeps them there.
use pyroute.Prelude.{
  ℕ, ◌<◌, ◌≡◌, ◌≢◌, refl, sym, ◌∙◌, subst, Option, none, some, List, [], ◌∷◌, length, get_elem?,
  All, arith, Option-cases, Bool-cases, inl, inr, lt-length_of_get, ◌==◌, ==_iff,
}
use pyroute.Plan9.Codec.{Items}
use pyroute.Plan9.Filesystem.{Inode, Heap, update, text_eq}
use pyroute.Plan9.Filesystem.Heaps.{length-update, get_elem?-update_self, get_elem?-update_ne}
use pyroute.Plan9.Filesystem.Tree.{IsTree, IsLinked}
use pyroute.Plan9.Server.{
  Server, set_fid, set_inode, lookup, with_ref, walk_names, add_qid, step_to, dot,
}

pub record IsClosed (s : Server) : Type 0 where
  pub tree : IsTree s.filesystem.heap
  pub fids_in : All (λ (e : ℕ × ℕ). e.1 < length s.filesystem.heap) s.fid_table

pub set_fid-IsClosed :
    (s : Server) (fid ref : ℕ)
    → IsClosed s
    → ref < length s.filesystem.heap
    → IsClosed (set_fid s fid ref)
unfolding set_fid
set_fid-IsClosed s fid ref c h = record { tree = c.tree; fids_in = (h, c.fids_in) }

-- An inode is replaced by one with the same links.
update-IsTree :
    (heap : Heap) (ref : ℕ) (old i : Inode)
    → IsTree heap
    → get_elem? heap ref ≡ some old
    → i.parents ≡ old.parents
    → i.children ≡ old.children
    → IsTree (update heap ref (λ o. i))
update-IsTree heap ref old i tree got ps cs =
    let same = length-update heap ref (λ o. i) in
    record {
      rooted = rw same tree.rooted;
      linked = λ r j h.
          subst (λ n. IsLinked n j) (sym same)
            (elim (Bool-cases (r == ref)) [
              | inl y ↦
                  let here : r ≡ ref = (==_iff _ _).0 y in
                  let new : some i ≡ some j =
                    sym (get_elem?-update_self heap ref (λ o. i) old got) ∙ (rw here at h) in
                  let l = tree.linked ref old got in
                  let moved : IsLinked (length heap) i = record {
                    parents_in = rw ps l.parents_in;
                    children_in = rw cs l.children_in;
                    has_parent = rw ps l.has_parent;
                  } in
                  subst (IsLinked (length heap)) (cc new) moved
              | inr m ↦
                  let ne : ref ≢ r = λ e. (ground arith) in
                  tree.linked r j (sym (get_elem?-update_ne heap ref r (λ o. i) ne) ∙ h)
            ]);
    }

pub set_inode-IsClosed :
    (s : Server) (ref : ℕ) (old i : Inode)
    → IsClosed s
    → get_elem? s.filesystem.heap ref ≡ some old
    → i.parents ≡ old.parents
    → i.children ≡ old.children
    → IsClosed (set_inode s ref i)
unfolding set_inode
set_inode-IsClosed s ref old i c got ps cs = record {
  tree = update-IsTree s.filesystem.heap ref old i c.tree got ps cs;
  fids_in = rw (length-update s.filesystem.heap ref (λ o. i)) c.fids_in;
}

-- What a fid names.
abbrev pub FoundIn : Heap → Option (ℕ × Inode) → Type 0
FoundIn heap none = Unit
FoundIn heap (some (ref, i)) = get_elem? heap ref ≡ some i

pub with_ref-FoundIn : (heap : Heap) (o : Option ℕ) → FoundIn heap (with_ref heap o)
with_ref-FoundIn heap none = tt
with_ref-FoundIn heap (some ref) = elim (Option-cases (get_elem? heap ref)) [
  | inl out ↦ rw (out, with_ref) tt
  | inr (i, got) ↦
      let e : with_ref heap (some ref) ≡ some (ref, i) = rw (got, with_ref) refl in
      subst (FoundIn heap) (sym e) got
]

pub walk_names-lt :
    (heap : Heap) (ref : ℕ) (names : List (List ℕ)) (r : ℕ) (qids : Items)
    → ref < length heap
    → walk_names heap ref names ≡ some (r, qids)
    → r < length heap
unfolding walk_names
walk_names-lt heap ref [] r qids h e = let same : ref ≡ r = ground arith in rw (← same) h
walk_names-lt heap ref (name ∷ names) r qids h e = elim (Bool-cases (text_eq name dot)) [
  | inl y ↦ walk_names-lt heap ref names r qids h (rw (y, walk_names) at e)
  | inr m ↦
      further (with_ref heap (step_to heap ref name))
        (with_ref-FoundIn heap (step_to heap ref name)) (rw (m, walk_names) at e)
        (λ c q lt. walk_names-lt heap c names r q lt)
]
  where
    last :
        (i : Inode) (w : Option (ℕ × Items))
        → add_qid i w ≡ some (r, qids)
        → ((q : Items) → w ≡ some (r, q) → r < length heap)
        → r < length heap
    last i none e k = absurd (ground arith)
    last i (some (c, q)) e k = let same : c ≡ r = ground arith in k q (rw same refl)

    further :
        (o : Option (ℕ × Inode))
        → FoundIn heap o
        → (elim o as (λ _. Option (ℕ × Items)) [
          | none ↦ none
          | some (c, i) ↦ add_qid i (walk_names heap c names)
        ])
          ≡ some (r, qids)
        → ((c : ℕ) (q : Items)
            → c < length heap
            → walk_names heap c names ≡ some (r, q)
            → r < length heap)
        → r < length heap
    further none f e k = absurd (ground arith)
    further (some (c, i)) f e k =
        last i (walk_names heap c names) e (λ q e'. k c q (lt-length_of_get heap c f) e')

pub lookup-lt :
    (fid n ref : ℕ) (table : List (ℕ × ℕ))
    → All (λ (e : ℕ × ℕ). e.1 < n) table
    → lookup fid table ≡ some ref
    → ref < n
unfolding lookup
lookup-lt fid n ref [] h e = absurd (ground arith)
lookup-lt fid n ref ((f, r) ∷ table) (p, h) e = elim (Bool-cases (f == fid)) [
  | inl y ↦ let same : some r ≡ some ref = rw y at e in let e' : r ≡ ref = cc in rw (← e') p
  | inr m ↦ lookup-lt fid n ref table h (rw m at e)
]

-- ===== src/Plan9/Filesystem/Creating.antt =====
-- The heap after an inode is created in a directory.
use pyroute.Prelude.{
  ℕ, suc, ◌<◌, ◌≡◌, ◌≢◌, sym, ◌∙◌, some, [], ◌∷◌, ◌++◌, length, length-append, get_elem?, arith,
  lt-length_of_get, get_elem?-append, get_elem?-append_length,
}
use pyroute.Plan9.Filesystem.{Inode, Heap, update, add, add_child}
use pyroute.Plan9.Filesystem.Heaps.{get_elem?-update_self, get_elem?-update_ne, length-update}

module _ (heap : Heap) (p : ℕ) (parent inode : Inode) (got : get_elem? heap p ≡ some parent) where
  abbrev pub created : Heap
  created = add_child (heap ++ inode ∷ []) p (length heap)

  abbrev pub new_child : Inode
  new_child = record inode { parents = add p inode.parents }

  abbrev pub new_parent : Inode
  new_parent = record parent { children = add (length heap) parent.children }

  p-lt : p < length heap
  p-lt = lt-length_of_get heap p got

  p_ne : length heap ≢ p
  p_ne e = omega (arith, p-lt)

  abbrev with_child : Heap
  with_child =
      update (heap ++ inode ∷ []) (length heap) (λ i. record i { parents = add p i.parents })

  pub length-created : length created ≡ suc (length heap)
  unfolding add_child
  length-created =
      length-update with_child p _
      ∙ length-update (heap ++ inode ∷ []) (length heap) _
      ∙ length-append heap (inode ∷ [])
      ∙ omega arith

  pub created_child : get_elem? created (length heap) ≡ some new_child
  unfolding add_child
  created_child =
      get_elem?-update_ne with_child p (length heap) _ (λ e. p_ne (sym e))
      ∙ get_elem?-update_self (heap ++ inode ∷ []) (length heap) _ inode
          (get_elem?-append_length heap inode [])

  pub created_parent : get_elem? created p ≡ some new_parent
  unfolding add_child
  created_parent = get_elem?-update_self with_child p _ parent (
      get_elem?-update_ne (heap ++ inode ∷ []) (length heap) p _ p_ne
      ∙ (get_elem?-append heap (inode ∷ []) p p-lt ∙ got))

  pub created_other : (r : ℕ) → r < length heap → r ≢ p → get_elem? created r ≡ get_elem? heap r
  unfolding add_child
  created_other r lt other =
      get_elem?-update_ne with_child p r _ (λ e. other (sym e))
      ∙ get_elem?-update_ne (heap ++ inode ∷ []) (length heap) r _ (λ e. omega arith)
      ∙ get_elem?-append heap (inode ∷ []) r lt

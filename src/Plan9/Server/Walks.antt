-- ===== src/Plan9/Server/Walks.antt =====
-- A walk from the root leads where the path leads.
use pyroute.Prelude.{
  ℕ, suc, ◌≡◌, ◌≢◌, refl, ap, false, Option, none, some, List, [], ◌∷◌, length, All, Option-cases,
  inl, inr,
}
use pyroute.Plan9.Codec.{num, items, Items, items_length}
use pyroute.Plan9.Filesystem.{Heap, Inode, walk, walk_from, get_child, is_empty}
use pyroute.Plan9.Filesystem.Paths.{text_eq_ne, NoSlash, join, walk_from-join}
use pyroute.Plan9.Filesystem.Lookup.{get_child-get}
use pyroute.Plan9.Server.{
  Server, Response, reply, exception, get_fid, set_fid, walk_names, step_to, add_qid, texts_of,
  t_walk, walked, dot, dot_dot,
}

-- A name of a file: no empty name, no slash in it, and neither of the two special names.
pub record IsName (name : List ℕ) : Type 0 where
  pub no_slash : NoSlash name
  pub not_empty : name ≢ []
  pub not_dot : name ≢ dot
  pub not_dot_dot : name ≢ dot_dot

names_NoSlash : (names : List (List ℕ)) → All IsName names → All NoSlash names
names_NoSlash [] h = tt
names_NoSlash (name ∷ names) (p, h) = (p.no_slash, names_NoSlash names h)

is_empty_ne : (name : List ℕ) → name ≢ [] → is_empty name ≡ false
is_empty_ne [] h = absurd (h refl)
is_empty_ne (c ∷ cs) h = refl

-- The walk of names as `Filesystem.walk` takes it, with a qid for each.
abbrev Agree : List (List ℕ) → Option (ℕ × Items) → Option ℕ → Type 0
Agree names none none = Unit
Agree names none (some ref) = ⊥
Agree names (some (ref, qids)) none = ⊥
Agree names (some (ref, qids)) (some ref') = (ref ≡ ref') × (items_length qids ≡ length names)

Agree-add :
    (i : Inode) (name : List ℕ) (names : List (List ℕ)) (w : Option (ℕ × Items)) (v : Option ℕ)
    → Agree names w v
    → Agree (name ∷ names) (add_qid i w) v
Agree-add i name names none none h = tt
Agree-add i name names none (some ref) h = h
Agree-add i name names (some (ref, qids)) none h = h
Agree-add i name names (some (ref, qids)) (some ref') (e, l) = (e, ap suc l)

walk_names-Agree :
    (heap : Heap) (ref : ℕ) (names : List (List ℕ))
    → All IsName names
    → Agree names (walk_names heap ref names) (walk_from heap ref names)
unfolding walk_names walk_from step_to
walk_names-Agree heap ref [] h = (refl, refl)
walk_names-Agree heap ref (name ∷ names) (p, h) =
    rw
      (
        text_eq_ne name dot p.not_dot,
        text_eq_ne name dot_dot p.not_dot_dot,
        is_empty_ne name p.not_empty,
        walk_names,
        walk_from,
        step_to,
      )
      (elim (Option-cases (get_child heap ref name)) [
        | inl lost ↦ rw lost tt
        | inr (c, found) ↦
            let (i, got) = get_child-get heap ref name c found in
            rw (found, got) (Agree-add i name names _ _ (walk_names-Agree heap c names h))
      ])

-- What the loop of `t_walk` gives, in terms of the other walk.
abbrev Outcome : Server → ℕ → List (List ℕ) → Server × Response → Option ℕ → Type 0
Outcome s newfid names r none = r ≡ (s, exception)
Outcome s newfid names r (some ref) =
    (qids : Items) × (r ≡ (set_fid s newfid ref, reply 111 (items qids ∷ [])))
    × (items_length qids ≡ length names)

Outcome-Agree :
    (s : Server) (newfid : ℕ) (names : List (List ℕ)) (w : Option (ℕ × Items)) (v : Option ℕ)
    → Agree names w v
    → Outcome s newfid names (walked s newfid w) v
Outcome-Agree s newfid names none none h = refl
Outcome-Agree s newfid names none (some ref) h = absurd h
Outcome-Agree s newfid names (some (ref, qids)) none h = absurd h
Outcome-Agree s newfid names (some (ref, qids)) (some ref') (e, l) =
    (qids, ap (λ r. (set_fid s newfid r, reply 111 (items qids ∷ []))) e, l)

-- A request to walk from a fid of the root by names of files does what `Filesystem.walk` does with the
-- path of those names: where that raises, the request raises and changes nothing; where that finds an
-- inode, the new fid is set to it and the reply has a qid for each name. The names are not empty,
-- have no slash, and are neither "." nor "..".
pub t_walk-walk :
    (s : Server) (fid newfid : ℕ) (wname : Items)
    → get_fid s fid ≡ some 0
    → All IsName (texts_of wname)
    → Outcome s newfid
        (texts_of wname)
        (t_walk s (num fid ∷ num newfid ∷ items wname ∷ []))
        (walk s.filesystem (join (texts_of wname)))
unfolding t_walk walk
t_walk-walk s fid newfid wname root names =
    rw (root, walk_from-join s.filesystem.heap 0 (texts_of wname) (names_NoSlash _ names))
      (Outcome-Agree s newfid (texts_of wname) _ _
        (walk_names-Agree s.filesystem.heap 0 (texts_of wname) names))

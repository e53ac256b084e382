-- ===== src/Plan9/Filesystem/Paths.antt =====
-- Paths: how texts and names compare, and how a path splits at its slashes.
use pyroute.Prelude.{
  ℕ, ◌≡◌, ◌≢◌, refl, ap, ◌∙◌, true, false, List, [], ◌∷◌, ◌++◌, ◌==◌, ==_iff, All, arith,
  Bool-cases, inl, inr,
}
use pyroute.Plan9.Filesystem.{text_eq, split_path, walk_from, Heap}

pub text_eq_sound : (as' bs : List ℕ) → text_eq as' bs ≡ true → as' ≡ bs
unfolding text_eq
text_eq_sound [] [] h = refl
text_eq_sound [] (b ∷ bs) h = cc
text_eq_sound (a ∷ as') [] h = cc
text_eq_sound (a ∷ as') (b ∷ bs) h = ground (arith, text_eq_sound as' bs)

pub text_eq_refl : (cs : List ℕ) → text_eq cs cs ≡ true
unfolding text_eq
text_eq_refl [] = refl
text_eq_refl (c ∷ cs) = ground (arith, text_eq_refl cs)

pub text_eq_ne : (as' bs : List ℕ) → as' ≢ bs → text_eq as' bs ≡ false
text_eq_ne as' bs h = elim (Bool-cases (text_eq as' bs)) [
  | inl y ↦ absurd (h (text_eq_sound as' bs y))
  | inr m ↦ m
]

-- No slash in it.
abbrev pub NoSlash : List ℕ → Type 0
NoSlash = All (λ c. c ≢ 47)

-- The path of some names.
unfoldable pub join : List (List ℕ) → List ℕ
join [] = []
join (name ∷ []) = name
join (name ∷ next ∷ names) = name ++ 47 ∷ join (next ∷ names)

split_path_whole : (name : List ℕ) → NoSlash name → split_path name ≡ name ∷ []
unfolding split_path
split_path_whole [] h = refl
split_path_whole (c ∷ cs) (p, h) = elim (Bool-cases (c == 47)) [
  | inl y ↦ absurd (p ((==_iff c 47).0 y))
  | inr m ↦ rw (m, split_path_whole cs h) refl
]

split_path_slash :
    (name rest : List ℕ) → NoSlash name → split_path (name ++ 47 ∷ rest) ≡ name ∷ split_path rest
unfolding split_path
split_path_slash [] rest h = refl
split_path_slash (c ∷ cs) rest (p, h) = elim (Bool-cases (c == 47)) [
  | inl y ↦ absurd (p ((==_iff c 47).0 y))
  | inr m ↦ rw (m, split_path_slash cs rest h) refl
]

-- A path of names, one at least, splits into them.
pub split_path-join :
    (name : List ℕ) (names : List (List ℕ))
    → All NoSlash (name ∷ names)
    → split_path (join (name ∷ names)) ≡ name ∷ names
unfolding join
split_path-join name [] (p, h) = split_path_whole name p
split_path-join name (next ∷ names) (p, h) =
    split_path_slash name (join (next ∷ names)) p
    ∙ ap (λ l. name ∷ l) (split_path-join next names h)

pub walk_from-join :
    (heap : Heap) (ref : ℕ) (names : List (List ℕ))
    → All NoSlash names
    → walk_from heap ref (split_path (join names)) ≡ walk_from heap ref names
walk_from-join heap ref [] h = unfold join split_path walk_from in refl
walk_from-join heap ref (name ∷ names) h = ap (walk_from heap ref) (split_path-join name names h)

-- ===== src/Netlink/Conversation/Queues.antt =====
-- What one conversation puts in the queues, another does not see.
use pyroute.Prelude.{
  ℕ, ◌≡◌, ◌≢◌, refl, sym, ap, ◌∙◌, subst, false, Option, none, some, List, [], ◌∷◌, ◌++◌, ◌==◌,
  ==_iff, ==_refl, if◌then◌else◌, Bool-cases, Option-cases, inl, inr, append-nil, append_assoc,
}
use pyroute.Netlink.Nla.Monad.{◌>>=◌}
use pyroute.Netlink.Conversation.{Queues, set_queue, append_to, tag_for, put}

not_same : (t tag : ℕ) → t ≢ tag → (t == tag) ≡ false
not_same t tag n = elim (Bool-cases (t == tag)) [
  | inl e ↦ absurd (n ((==_iff t tag).0 e))
  | inr e ↦ e
]

module _ {ℓ} {A : Type ℓ} where
  set_queue_self :
      (tag : ℕ) (q : Option (List A)) (queues : Queues A) → set_queue tag q queues tag ≡ q
  unfolding set_queue
  set_queue_self tag q queues = rw (==_refl tag)

  set_queue_other :
      (tag t : ℕ) (q : Option (List A)) (queues : Queues A)
      → t ≢ tag
      → set_queue tag q queues t ≡ queues t
  unfolding set_queue
  set_queue_other tag t q queues n = elim (Bool-cases (t == tag)) [
    | inl e ↦ absurd (n ((==_iff t tag).0 e))
    | inr e ↦ rw e
  ]

  -- `put` with a tag that has a queue appends to it and leaves every other queue.
  put_known :
      (tag : ℕ) (message : A) (queues : Queues A) (q : List A)
      → queues tag ≡ some q
      → put tag message queues ≡ some (set_queue tag (some (q ++ message ∷ [])) queues)
  unfolding put append_to tag_for
  put_known tag message queues q h = rw (h, h) refl

  put_unknown :
      (tag : ℕ) (message : A) (queues : Queues A) (root : List A)
      → queues tag ≡ none
      → queues 0 ≡ some root
      → put tag message queues ≡ some (set_queue 0 (some (root ++ message ∷ [])) queues)
  unfolding put append_to tag_for
  put_unknown tag message queues root h r = rw (h, r) refl

  -- The messages that a run of `put` leaves for a tag.
  abbrev pub meant_for : ℕ → List (ℕ × A) → List A
  meant_for tag [] = []
  meant_for tag ((t, m) ∷ ms) = if t == tag then m ∷ meant_for tag ms else meant_for tag ms

  pub put_all : List (ℕ × A) → Queues A → Option (Queues A)
  put_all [] queues = some queues
  put_all ((t, m) ∷ ms) queues = put t m queues >>= (λ qs. put_all ms qs)

  root_kept :
      (t : ℕ) (l : List A) (queues : Queues A)
      → (root : List A) × (queues 0 ≡ some root)
      → (root : List A) × (set_queue t (some l) queues 0 ≡ some root)
  unfolding set_queue
  root_kept t l queues (root, r) = elim (Bool-cases (0 == t)) [
    | inl e ↦ (l, rw e refl)
    | inr e ↦ (root, rw e r)
  ]

  -- A run of `put` raises nothing while there is a root queue, and leaves in a queue of another tag
  -- what was in it, then the messages with its tag, in order, and no others.
  pub put_all-delivers :
      (ms : List (ℕ × A)) (queues : Queues A) (q : List A) (tag : ℕ)
      → tag ≢ 0
      → queues tag ≡ some q
      → (root : List A) × (queues 0 ≡ some root)
      → (qs : Queues A) × (put_all ms queues ≡ some qs) × (qs tag ≡ some (q ++ meant_for tag ms))
  unfolding put_all
  put_all-delivers [] queues q tag n h r = (queues, refl, h ∙ ap some (sym (append-nil q)))
  put_all-delivers ((t, m) ∷ ms) queues q tag n h (root, r) = elim (Option-cases (queues t)) [
    | inl none_there ↦
        let other : (t == tag) ≡ false = not_same t tag (λ e. cc (ap queues e, h, none_there)) in
        let (qs, p, d) =
          put_all-delivers ms (set_queue 0 (some (root ++ m ∷ [])) queues) q tag n
            (set_queue_other 0 tag _ queues n ∙ h) (root ++ m ∷ [], set_queue_self 0 _ queues) in
        (qs, rw (put_unknown t m queues root none_there r) p, rw other d)
    | inr (own, there) ↦ elim (Bool-cases (t == tag)) [
      | inl same ↦
          let e : t ≡ tag = (==_iff t tag).0 same in
          let kept : own ≡ q = cc (ap queues e, h, there) in
          let (qs, p, d) =
            put_all-delivers ms (set_queue t (some (own ++ m ∷ [])) queues) (own ++ m ∷ []) tag n
              (subst (λ tag. set_queue t (some (own ++ m ∷ [])) queues tag ≡ some (own ++ m ∷ [])) e
                (set_queue_self t _ queues))
              (root, set_queue_other t 0 _ queues (λ z. n (sym e ∙ sym z)) ∙ r) in
          (
            qs,
            rw (put_known t m queues own there) p,
            rw same (
                d
                ∙ ap some (append_assoc own (m ∷ []) _ ∙ ap (λ o. o ++ m ∷ meant_for tag ms) kept)),
          )
      | inr differs ↦
          let (qs, p, d) =
            put_all-delivers ms (set_queue t (some (own ++ m ∷ [])) queues) q tag n
              (set_queue_other t tag _ queues (λ z. cc ((==_iff t tag).1 (sym z), differs)) ∙ h)
              (root_kept t (own ++ m ∷ []) queues (root, r)) in
          (qs, rw (put_known t m queues own there) p, rw differs d)
    ]
  ]

-- ===== src/Netlink/Conversation/Dumps.antt =====
-- The end of a conversation does not depend on how its messages were cut into packets.
use pyroute.Prelude.{
  ℕ, ◌≡◌, refl, sym, ap, ◌∙◌, subst, bit_and, Bool, true, false, ◌||◌, Option, none, some, List, [],
  ◌∷◌, ◌++◌, append_assoc, ◌==◌,
}
use pyroute.Netlink.Marshal.{Message, ErrorValue}
use pyroute.Netlink.Conversation.{
  Walk, later, visit, walk, is_empty, is_enough, end_of, Heard, more, is_last, after_packet, get,
  nlm_f_multi,
}

-- A message in the middle of a dump.
pub record IsPart (terminate : Message → Bool) (m : Message) : Type 0 where
  pub no_error : m.error ≡ none
  pub not_done : is_enough m ≡ some false
  pub multi : (bit_and m.flags nlm_f_multi == 0) ≡ false
  pub goes_on : terminate m ≡ false

abbrev pub AreParts : (Message → Bool) → List Message → Type 0
AreParts terminate [] = Unit
AreParts terminate (m ∷ ms) = IsPart terminate m × AreParts terminate ms

-- Packets that are full of such messages.
abbrev pub ArePackets : (Message → Bool) → List (List Message) → Type 0
ArePackets terminate [] = Unit
ArePackets terminate (p ∷ ps) =
    (is_empty p ≡ false) × AreParts terminate p × ArePackets terminate ps

-- NLMSG_DONE, or an error.
abbrev pub Closes : Message → Option ErrorValue → Type 0
Closes m none = (m.error ≡ none) × (is_enough m ≡ some true)
Closes m (some e) = m.error ≡ some e

abbrev pub concat {ℓ} : {A : Type ℓ} → List (List A) → List A
concat [] = []
concat (xs ∷ xss) = xs ++ concat xss

walk-part :
    (terminate : Message → Bool) (p : Message) (w : Walk)
    → IsPart terminate p
    → visit p p.error (is_enough p) w ≡ visit p none (some false) w
walk-part terminate p w a =
    ap (λ e. visit p e (is_enough p) w) a.no_error ∙ ap (λ d. visit p none d w) a.not_done

walk_closed :
    (terminate : Message → Bool) (ms : List Message) (m : Message) (rest : List Message)
    (e : Option ErrorValue)
    → AreParts terminate ms
    → Closes m e
    → ((walk (ms ++ m ∷ rest)).yielded ≡ ms)
      × ((walk (ms ++ m ∷ rest)).enough ≡ true)
      × ((walk (ms ++ m ∷ rest)).error ≡ e)
      × ((walk (ms ++ m ∷ rest)).failed ≡ false)
unfolding walk visit
walk_closed terminate [] m rest none a (n, d) = rw (n, d) (refl, refl, refl, refl)
walk_closed terminate [] m rest (some e) a c = rw c (refl, refl, refl, refl)
walk_closed terminate (p ∷ ms) m rest e (a, as') c =
    let (y, n, r, f) = walk_closed terminate ms m rest e as' c in
    subst
      (λ (w : Walk). (w.yielded ≡ p ∷ ms) × (w.enough ≡ true) × (w.error ≡ e) × (w.failed ≡ false))
      (sym (walk-part terminate p _ a)) (ap (λ l. p ∷ l) y, n, r, f)

-- The last message of a packet of the middle.
LastPart : (Message → Bool) → Option Message → Type 0
LastPart terminate none = Unit
LastPart terminate (some m) = IsPart terminate m

later-LastPart :
    (terminate : Message → Bool) (p : Message) (l : Option Message)
    → IsPart terminate p
    → LastPart terminate l
    → LastPart terminate (later p l)
unfolding later LastPart
later-LastPart terminate p none a h = a
later-LastPart terminate p (some m) a h = h

walk_open :
    (terminate : Message → Bool) (ms : List Message)
    → AreParts terminate ms
    → ((walk ms).yielded ≡ ms) × ((walk ms).enough ≡ false) × LastPart terminate (walk ms).last
unfolding walk visit LastPart
walk_open terminate [] a = (refl, refl, tt)
walk_open terminate (p ∷ ms) (a, as') =
    let (y, n, l) = walk_open terminate ms as' in
    subst (λ (w : Walk). (w.yielded ≡ p ∷ ms) × (w.enough ≡ false) × LastPart terminate w.last)
      (sym (walk-part terminate p _ a)) (ap (λ l. p ∷ l) y, n, later-LastPart terminate p _ a l)

or_true : (b : Bool) → (b || true) ≡ true
or_true true = refl
or_true false = refl

not_empty :
    (ms : List Message) (m : Message) (rest : List Message) → is_empty (ms ++ m ∷ rest) ≡ false
not_empty [] m rest = refl
not_empty (x ∷ ms) m rest = refl

module _ (msg_seq : ℕ) (noraise : Bool) (terminate : Message → Bool) where
  not_last :
      (started : Bool) (l : Option Message)
      → (msg_seq == 0) ≡ false
      → LastPart terminate l
      → is_last msg_seq noraise terminate started l ≡ false
  unfolding is_last LastPart
  not_last started none s h = refl
  not_last true (some m) s h = rw (s, h.multi, h.goes_on)
  not_last false (some m) s h = refl

  after_open :
      (started : Bool) (again : Bool → Heard) (ps : List (List Message)) (w : Walk)
      (p : List Message)
      → (msg_seq == 0) ≡ false
      → is_empty p ≡ false
      → w.yielded ≡ p
      → w.enough ≡ false
      → LastPart terminate w.last
      → after_packet msg_seq noraise terminate started again ps w ≡ more p (again true)
  unfolding after_packet
  after_open started again ps w p s n y o l =
      ap (λ (w : Walk). after_packet msg_seq noraise terminate started again ps w)
        (λ i. record w { yielded = y i; enough = o i })
      ∙ rw (n, or_true started, not_last true w.last s l) refl

  after_closed :
      (started : Bool) (again : Bool → Heard) (ps : List (List Message)) (w : Walk)
      (ms : List Message) (e : Option ErrorValue)
      → w.yielded ≡ ms
      → w.enough ≡ true
      → w.error ≡ e
      → w.failed ≡ false
      → after_packet msg_seq noraise terminate started again ps w
        ≡ record { yielded = ms; end = end_of noraise e; left = ps }
  unfolding after_packet
  after_closed started again ps w ms e y o r f =
      ap (λ (w : Walk). after_packet msg_seq noraise terminate started again ps w)
        (λ i. record w { yielded = y i; enough = o i; error = r i; failed = f i })

  goes_on :
      (started : Bool) (p : List Message) (ps : List (List Message))
      → (msg_seq == 0) ≡ false
      → is_empty p ≡ false
      → AreParts terminate p
      → get msg_seq noraise terminate started (p ∷ ps)
        ≡ more p (get msg_seq noraise terminate true ps)
  unfolding get
  goes_on started [] ps s n a = cc
  goes_on started (x ∷ xs) ps s n a =
      let (y, o, l) = walk_open terminate (x ∷ xs) a in
      after_open started (λ s. get msg_seq noraise terminate s ps) ps (walk (x ∷ xs)) (x ∷ xs) s n y
        o l

  -- A packet with anything in it is walked.
  ends :
      (started : Bool) (p : List Message) (ms : List Message) (qs : List (List Message))
      (e : Option ErrorValue)
      → is_empty p ≡ false
      → ((walk p).yielded ≡ ms)
        × ((walk p).enough ≡ true)
        × ((walk p).error ≡ e)
        × ((walk p).failed ≡ false)
      → get msg_seq noraise terminate started (p ∷ qs)
        ≡ record { yielded = ms; end = end_of noraise e; left = qs }
  unfolding get
  ends started [] ms qs e n h = cc
  ends started (x ∷ xs) ms qs e n (y, o, r, f) =
      after_closed started (λ s. get msg_seq noraise terminate s qs) qs (walk (x ∷ xs)) ms e y o r f

  -- The messages of a dump, each with a type, NLM_F_MULTI and no error, and none of them one at which the
  -- caller terminates, may come in any packets, none of them empty: `get` with a sequence number
  -- yields those before NLMSG_DONE or the first error, in order, and then ends, or raises the error
  -- unless it was told not to. The packets behind stay in the queue.
  pub get-dump :
      (started : Bool) (ps : List (List Message)) (ms : List Message) (m : Message)
      (rest : List Message) (qs : List (List Message)) (e : Option ErrorValue)
      → (msg_seq == 0) ≡ false
      → ArePackets terminate ps
      → AreParts terminate ms
      → Closes m e
      → get msg_seq noraise terminate started (ps ++ (ms ++ m ∷ rest) ∷ qs)
        ≡ record { yielded = concat ps ++ ms; end = end_of noraise e; left = qs }
  unfolding more
  get-dump started [] ms m rest qs e s a b c =
      ends started (ms ++ m ∷ rest) ms qs e (not_empty ms m rest)
        (walk_closed terminate ms m rest e b c)
  get-dump started (p ∷ ps) ms m rest qs e s (n, a, as') b c =
      goes_on started p _ s n a ∙ ap (more p) (get-dump true ps ms m rest qs e s as' b c) ∙ (λ i.
        record {
          yielded = sym (append_assoc p (concat ps) ms) i;
          end = end_of noraise e;
          left = qs;
        })

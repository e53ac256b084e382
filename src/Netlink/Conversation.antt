-- ===== src/Netlink/Conversation.antt =====
-- A conversation on a socket: `CoreMessageQueue` and `AsyncCoreSocket.get` of
-- pyroute2/netlink/core.py, and `AsyncNetlinkSocket.enqueue` of pyroute2/netlink/nlsocket.py.
pub mod Dumps
pub mod Queues
pub mod Tests
use pyroute.Prelude.{
  ℕ, ◌+◌, bit_and, Bool, true, false, not, ◌&&◌, ◌||◌, Option, none, some, List, [], ◌∷◌, ◌++◌,
  ◌==◌, if◌then◌else◌,
}
use pyroute.Netlink.Nla.{unpack}
use pyroute.Netlink.Marshal.{Message, ErrorValue, nlmsg_done, u32}

-- NLM_F_MULTI.
abbrev pub nlm_f_multi : ℕ
nlm_f_multi = 2

-- `Marshal.is_enough`; none is the KeyError of a header with no type.
abbrev pub is_enough : Message → Option Bool
is_enough m = elim m.type' [ none ↦ none | some t ↦ some (t == nlmsg_done) ]

-- How the conversation ends, or that it waits for more data.
pub data End : Type 0 where
  finished waiting key_error : End
  raised : ErrorValue → End

-- The loop over the messages of a packet: those that it yields, the message where it stood last,
-- whether it broke off, the error, and whether it raised KeyError.
pub record Walk : Type 0 where
  pub yielded : List Message
  pub last : Option Message
  pub enough : Bool
  pub error : Option ErrorValue
  pub failed : Bool

unfoldable pub later : Message → Option Message → Option Message
later m none = some m
later m (some l) = some l

unfoldable pub visit : Message → Option ErrorValue → Option Bool → Walk → Walk
visit m (some e) is_done rest = record {
  yielded = [];
  last = some m;
  enough = true;
  error = some e;
  failed = false;
}
visit m none none rest = record {
  yielded = [];
  last = some m;
  enough = true;
  error = none;
  failed = true;
}
visit m none (some true) rest = record {
  yielded = [];
  last = some m;
  enough = true;
  error = none;
  failed = false;
}
visit m none (some false) rest = record {
  yielded = m ∷ rest.yielded;
  last = later m rest.last;
  enough = rest.enough;
  error = rest.error;
  failed = rest.failed;
}

unfoldable pub walk : List Message → Walk
walk [] = record { yielded = []; last = none; enough = false; error = none; failed = false }
walk (m ∷ ms) = visit m m.error (is_enough m) (walk ms)

abbrev pub is_empty {ℓ} : {A : Type ℓ} → List A → Bool
is_empty [] = true
is_empty (x ∷ xs) = false

unfoldable pub end_of : Bool → Option ErrorValue → End
end_of noraise none = finished
end_of true (some e) = finished
end_of false (some e) = raised e

-- What a conversation gave, how it ended, and the packets that it left in the queue.
pub record Heard : Type 0 where
  pub yielded : List Message
  pub end : End
  pub left : List (List Message)

unfoldable pub more : List Message → Heard → Heard
more ms h = record { yielded = ms ++ h.yielded; end = h.end; left = h.left }

module _ (msg_seq : ℕ) (noraise : Bool) (terminate : Message → Bool) where
  -- The test behind the loop over the messages of a packet.
  unfoldable pub is_last : Bool → Option Message → Bool
  is_last started none = false
  is_last started (some m) =
      started && (msg_seq == 0 || (bit_and m.flags nlm_f_multi == 0 || terminate m))

  abbrev pub end_of_walk : Walk → End
  end_of_walk w = if w.failed then key_error else end_of noraise w.error

  -- From the walk over a packet on; `again` waits for the next one.
  unfoldable pub after_packet : Bool → (Bool → Heard) → List (List Message) → Walk → Heard
  after_packet started again ps w =
      if w.enough || is_last (started || not (is_empty w.yielded)) w.last
      then record { yielded = w.yielded; end = end_of_walk w; left = ps }
      else more w.yielded (again (started || not (is_empty w.yielded)))

  -- `get` on the packets of its queue, each as `parse` gives it.
  unfoldable pub get : Bool → List (List Message) → Heard
  get started [] = record { yielded = []; end = waiting; left = [] }
  get started ([] ∷ ps) = record { yielded = []; end = finished; left = ps }
  get started ((m ∷ ms) ∷ ps) = after_packet started (λ s. get s ps) ps (walk (m ∷ ms))

-- The queues of `CoreMessageQueue` by tag; `none` is a missing key.
abbrev pub Queues {ℓ} : Type ℓ → Type ℓ
Queues A = ℕ → Option (List A)

module _ {ℓ} {A : Type ℓ} where
  abbrev pub new_queues : Queues A
  new_queues tag = if tag == 0 then some [] else none

  unfoldable pub set_queue : ℕ → Option (List A) → Queues A → Queues A
  set_queue tag q queues t = if t == tag then q else queues t

  unfoldable pub append_to : ℕ → A → Option (List A) → Queues A → Option (Queues A)
  append_to tag message none queues = none
  append_to tag message (some q) queues = some (set_queue tag (some (q ++ message ∷ [])) queues)

  -- The tag that is used: 0 for a missing one.
  unfoldable pub tag_for : ℕ → Option (List A) → ℕ
  tag_for tag none = 0
  tag_for tag (some q) = tag

  -- `put` and `put_nowait`; `none` is a KeyError.
  unfoldable pub put : ℕ → A → Queues A → Option (Queues A)
  put tag message queues =
      append_to (tag_for tag (queues tag)) message (queues (tag_for tag (queues tag))) queues

  unfoldable pub ensured : Option (List A) → Option (List A)
  ensured none = some []
  ensured (some q) = some q

  unfoldable pub ensure_tag : ℕ → Queues A → Queues A
  ensure_tag tag queues = set_queue tag (ensured (queues tag)) queues

  unfoldable pub free_from : ℕ → Option (List A) → Queues A → Option (Queues A)
  free_from tag none queues = none
  free_from tag (some q) queues = some (set_queue tag none queues)

  -- None is a KeyError.
  unfoldable pub free_tag : ℕ → Queues A → Option (Queues A)
  free_tag tag queues = free_from tag (queues tag) queues

  unfoldable pub pop_from : ℕ → Option (List A) → Queues A → Option (A × Queues A)
  pop_from tag none queues = none
  pop_from tag (some []) queues = none
  pop_from tag (some (x ∷ q)) queues = some (x, set_queue tag (some q) queues)

  -- `get` of a queue that has a message; `none` is a KeyError, or it waits.
  unfoldable pub get_from : ℕ → Queues A → Option (A × Queues A)
  get_from tag queues = pop_from tag (queues tag) queues

-- The sequence number of the first message is the tag.
unfoldable pub enqueue_tagged : List ℕ → Queues (List ℕ) → Option ℕ → Option (Queues (List ℕ))
enqueue_tagged data' queues none = none
enqueue_tagged data' queues (some tag) = put tag data' queues

unfoldable pub enqueue : List ℕ → Queues (List ℕ) → Option (Queues (List ℕ))
enqueue data' queues = enqueue_tagged data' queues (unpack u32 data' 8)

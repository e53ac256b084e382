-- ===== src/Netlink/Conversation/Tests.antt =====
-- A dump of three messages in two packets, and a packet that comes behind it.
use pyroute.Prelude.{ℕ, ◌≡◌, refl, Bool, false, none, some, [], ◌∷◌, ◌==◌, if◌then◌else◌}
use pyroute.Netlink.Marshal.{Message}
use pyroute.Netlink.Conversation.{get, finished, end_of, Queues}
use pyroute.Netlink.Conversation.Queues.{put_all, put_all-delivers}
use pyroute.Netlink.Conversation.Dumps.{IsPart, get-dump}

abbrev part : ℕ → Message
part t = record { type' = some t; flags = 2; error = none; has_event = false; code = none }

abbrev never : Message → Bool
never m = false

part-IsPart : IsPart never (part 16)
part-IsPart = record { no_error = refl; not_done = refl; multi = refl; goes_on = refl }

get-dump_example :
    get 5 false never false ((part 16 ∷ []) ∷ (part 16 ∷ part 3 ∷ []) ∷ (part 17 ∷ []) ∷ [])
    ≡ record { yielded = part 16 ∷ part 16 ∷ []; end = finished; left = (part 17 ∷ []) ∷ [] }
unfolding end_of
get-dump_example =
    get-dump 5 false never false ((part 16 ∷ []) ∷ []) (part 16 ∷ []) (part 3) []
      ((part 17 ∷ []) ∷ []) none refl (refl, (part-IsPart, tt), tt) (part-IsPart, tt) (refl, refl)

-- The queue 5 beside the root.
abbrev two_queues : Queues ℕ
two_queues t = if t == 0 then some [] else if t == 5 then some (1 ∷ []) else none

put_all-delivers_example :
    (qs : Queues ℕ) × (put_all ((7, 70) ∷ (5, 50) ∷ (0, 10) ∷ (5, 51) ∷ []) two_queues ≡ some qs)
    × (qs 5 ≡ some (1 ∷ 50 ∷ 51 ∷ []))
put_all-delivers_example =
    put_all-delivers ((7, 70) ∷ (5, 50) ∷ (0, 10) ∷ (5, 51) ∷ []) two_queues (1 ∷ []) 5 (λ e. cc)
      refl ([], refl)

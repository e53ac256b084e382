-- ===== src/Plan9/Server/Replies.antt =====
-- Each request has its answer.
use pyroute.Prelude.{ℕ, ◌≡◌, refl, some, List, [], ◌∷◌, Option-cases, inl, inr}
use pyroute.Plan9.Messages.{Message, Stream, ended, raised, unfinished, yields, encode_message}
use pyroute.Plan9.Server.{
  Server, Response, reply, exception, plan9_exit, Output, sent, error, closed, Received, respond,
  serve, dispatch,
}

unfoldable pub requests : Stream → List Message
requests ended = []
requests raised = []
requests unfinished = []
requests (yields m rest) = m ∷ requests rest

-- The outputs answer the requests in order, each with the tag of its request: a reply is written as its
-- encoding, and an error is the last answer, with the connection closed behind it or not.
pub data Answers : List Message → List Output → Type 0 where
  all_answered : Answers [] []
  replied :
      (m r : Message) (bs : List ℕ) (ms : List Message) (outs : List Output)
      → r.tag ≡ m.tag
      → encode_message r ≡ some bs
      → Answers ms outs
      → Answers (m ∷ ms) (sent r bs ∷ outs)
  failed : (m : Message) (ms : List Message) → Answers (m ∷ ms) (error m.tag ∷ [])
  hung_up : (m : Message) (ms : List Message) → Answers (m ∷ ms) (error m.tag ∷ closed ∷ [])

respond-Answers :
    (m : Message) (ms : List Message) (r : Server × Response) (rest : Server → Received)
    → ((s : Server) → Answers ms (rest s).outputs)
    → Answers (m ∷ ms) (respond m.tag r rest).outputs
unfolding respond
respond-Answers m ms (s, reply t vs) rest h =
    elim (Option-cases (encode_message (record { type' = t; tag = m.tag; values = vs }))) [
      | inl lost ↦ rw lost (failed m ms)
      | inr (bs, e) ↦ rw e (
          replied m (record { type' = t; tag = m.tag; values = vs }) bs ms (rest s).outputs refl e
            (h s))
    ]
respond-Answers m ms (s, exception) rest h = failed m ms
respond-Answers m ms (s, plan9_exit) rest h = hung_up m ms

-- What `data_received` writes answers the requests that the parser yields, in order and each with the
-- tag of its request: every reply is encoded, and the first error is the last answer.
pub serve-Answers : (st : Stream) (s : Server) → Answers (requests st) (serve st s).outputs
unfolding serve requests
serve-Answers ended s = all_answered
serve-Answers raised s = all_answered
serve-Answers unfinished s = all_answered
serve-Answers (yields m rest) s =
    respond-Answers m (requests rest) (dispatch s m.type' m.values) (serve rest)
      (serve-Answers rest)

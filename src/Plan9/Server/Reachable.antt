-- ===== src/Plan9/Server/Reachable.antt =====
-- The states of a server: files are created, functions registered, and data arrive.
use pyroute.Prelude.{
  ℕ, ◌≤◌, ◌<◌, ◌≡◌, refl, Option, some, List, [], ◌∷◌, get_elem?, All, arith, Option-cases, inl,
  inr,
}
use pyroute.Plan9.Filesystem.{Inode, Filesystem, Owner, Function, create, new_filesystem}
use pyroute.Plan9.Filesystem.Tree.{create-IsTree, new_filesystem-IsTree}
use pyroute.Plan9.Messages.{Stream, ended, raised, unfinished, yields, encode_message}
use pyroute.Plan9.Server.{
  Server, Response, reply, exception, plan9_exit, set_inode, Received, respond, serve, dispatch,
}
use pyroute.Plan9.Server.Links.{IsClosed, set_inode-IsClosed}
use pyroute.Plan9.Server.Closed.{dispatch-IsClosed}

respond-IsClosed :
    (tag : ℕ) (r : Server × Response) (rest : Server → Received)
    → IsClosed r.0
    → ((s : Server) → IsClosed s → IsClosed (rest s).server)
    → IsClosed (respond tag r rest).server
unfolding respond
respond-IsClosed tag (s, reply t vs) rest c h =
    elim (Option-cases (encode_message (record { type' = t; tag = tag; values = vs }))) [
      | inl lost ↦ rw lost c
      | inr (bs, e) ↦ rw e (h s c)
    ]
respond-IsClosed tag (s, exception) rest c h = c
respond-IsClosed tag (s, plan9_exit) rest c h = c

serve-IsClosed : (st : Stream) (s : Server) → IsClosed s → IsClosed (serve st s).server
unfolding serve
serve-IsClosed ended s c = c
serve-IsClosed raised s c = c
serve-IsClosed unfinished s c = c
serve-IsClosed (yields m rest) s c =
    respond-IsClosed m.tag (dispatch s m.type' m.values) (serve rest)
      (dispatch-IsClosed s c m.type' m.values) (serve-IsClosed rest)

-- A server starts with its root and no fids. Then files are created and functions are registered on
-- them, and data arrive.
unfoldable pub new_server : Owner → Server
new_server o = record { filesystem = new_filesystem o; fid_table = [] }

pub data Step (s : Server) : Server → Type 0 where
  received : (st : Stream) → Step s (serve st s).server
  created :
      (fs : Filesystem) (o : Owner) (wname content : List ℕ) (qtype ref : ℕ) (mode : Option ℕ)
      → create s.filesystem o wname qtype mode content ≡ some (fs, ref)
      → Step s (record s { filesystem = fs })
  registered :
      (ref : ℕ) (i : Inode) (f : Function)
      → get_elem? s.filesystem.heap ref ≡ some i
      → Step s (set_inode s ref (record i { function = some f }))

pub data Reachable (o : Owner) : Server → Type 0 where
  started : Reachable o (new_server o)
  step : {s s' : Server} → Reachable o s → Step s s' → Reachable o s'

fids_grow :
    (n k : ℕ) (table : List (ℕ × ℕ))
    → n ≤ k
    → All (λ (e : ℕ × ℕ). e.1 < n) table
    → All (λ (e : ℕ × ℕ). e.1 < k) table
fids_grow n k [] le h = tt
fids_grow n k (e ∷ table) le (p, h) = (omega arith, fids_grow n k table le h)

Step-IsClosed : {s s' : Server} → Step s s' → IsClosed s → IsClosed s'
Step-IsClosed {s} (received st) c = serve-IsClosed st s c
Step-IsClosed {s} (created fs o wname content qtype ref mode h) c = record {
  tree = (create-IsTree s.filesystem fs o wname content qtype ref mode c.tree h).0;
  fids_in =
      fids_grow _ _ s.fid_table
        (create-IsTree s.filesystem fs o wname content qtype ref mode c.tree h).1 c.fids_in;
}
Step-IsClosed {s} (registered ref i f got) c = set_inode-IsClosed s ref i _ c got refl refl

-- In each state of a server, whatever files were created, functions registered and requests answered,
-- also with errors: every fid has an inode, every link between inodes leads to an inode, and every
-- inode has a parent.
pub Reachable-IsClosed : {o : Owner} {s : Server} → Reachable o s → IsClosed s
unfolding new_server
Reachable-IsClosed {o} started = record { tree = new_filesystem-IsTree o; fids_in = tt }
Reachable-IsClosed (step r st) = Step-IsClosed st (Reachable-IsClosed r)

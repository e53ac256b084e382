-- ===== src/Plan9/Server.antt =====
-- `Plan9ServerProtocol` and `Session` of pyroute2/plan9: a handler for each request, and `data_received`.
-- The values of a request stand in the order of its fields. The table of fids is an attribute of the
-- class `Session`, so all connections share it. The text of an error is left out.
pub mod Walks
pub mod Files
pub mod Replies
pub mod Links
pub mod Closed
pub mod Reachable
pub mod Tests
use pyroute.Prelude.{
  ℕ, zero, suc, ◌+◌, ◌-◌, ◌≤◌, Bool, true, false, not, ◌&&◌, ◌||◌, Option, none, some, List, [],
  ◌∷◌, ◌++◌, length, get_elem?, take, drop, replicate, bit_and, leb, ◌==◌, if◌then◌else◌,
}
use pyroute.Plan9.Codec.{
  Qid, Stat, Kind, stat, Value, num, nums, text, bytes, a_qid, a_stat, items, Items, nil, cons,
  encode,
}
use pyroute.Plan9.Messages.{
  Message, Stream, ended, raised, unfinished, yields, encode_message, r_error,
}
use pyroute.Plan9.Filesystem.{
  Answer, returned, failed, exits, Function, Inode, InodeMetadata, Heap, Filesystem, sync, text_eq,
  get_child, get_parent, update, children_of,
}

pub record Server : Type 0 where
  pub filesystem : Filesystem
  pub fid_table : List (ℕ × ℕ)

-- What a handler does: it returns a message, with its tag where it sets one, or raises an exception or
-- Plan9Exit.
pub data Response : Type 0 where
  reply : ℕ → List Value → Response
  exception plan9_exit : Response

unfoldable pub lookup : ℕ → List (ℕ × ℕ) → Option ℕ
lookup fid [] = none
lookup fid ((f, ref) ∷ table) = if f == fid then some ref else lookup fid table

-- `Session.get_fid`.
unfoldable pub get_fid : Server → ℕ → Option ℕ
get_fid s fid = lookup fid s.fid_table

-- `Session.set_fid`.
unfoldable pub set_fid : Server → ℕ → ℕ → Server
set_fid s fid ref = record s { fid_table = (fid, ref) ∷ s.fid_table }

-- The inode of a fid, and its reference.
abbrev pub with_ref : Heap → Option ℕ → Option (ℕ × Inode)
with_ref heap none = none
with_ref heap (some ref) = elim (get_elem? heap ref) [ none ↦ none | some i ↦ some (ref, i) ]

abbrev pub inode_of : Server → ℕ → Option (ℕ × Inode)
inode_of s fid = with_ref s.filesystem.heap (get_fid s fid)

unfoldable pub set_inode : Server → ℕ → Inode → Server
set_inode s ref i = record s {
  filesystem = record s.filesystem { heap = update s.filesystem.heap ref (λ old. i) };
}

abbrev pub protocol_name : List ℕ
protocol_name = 57 ∷ 80 ∷ 50 ∷ 48 ∷ 48 ∷ 48 ∷ []

-- 'no authentication required' and 'permission denied'.
abbrev pub no_authentication : List ℕ
no_authentication =
    110 ∷ 111 ∷ 32 ∷ 97 ∷ 117 ∷ 116 ∷ 104 ∷ 101 ∷ 110 ∷ 116 ∷ 105 ∷ 99 ∷ 97 ∷ 116 ∷ 105 ∷ 111 ∷ 110
    ∷ 32 ∷ 114 ∷ 101 ∷ 113 ∷ 117 ∷ 105 ∷ 114 ∷ 101 ∷ 100 ∷ []

abbrev pub permission_denied : List ℕ
permission_denied =
    112 ∷ 101 ∷ 114 ∷ 109 ∷ 105 ∷ 115 ∷ 115 ∷ 105 ∷ 111 ∷ 110 ∷ 32 ∷ 100 ∷ 101 ∷ 110 ∷ 105 ∷ 101
    ∷ 100 ∷ []

abbrev pub version_reply : List Value → Response
version_reply (msize ∷ version ∷ []) = reply 101 (msize ∷ text protocol_name ∷ [])
version_reply vs = exception

unfoldable pub t_version : Server → List Value → Server × Response
t_version s vs = (s, version_reply vs)

unfoldable pub t_auth : Server → List Value → Server × Response
t_auth s vs = (s, reply r_error (text no_authentication ∷ []))

abbrev pub attached : Server → ℕ → Option Inode → Server × Response
attached s fid none = (s, exception)
attached s fid (some root) = (set_fid s fid 0, reply 105 (a_qid root.stat.qid ∷ []))

abbrev pub attach_fid : List Value → Option (ℕ)
attach_fid (num fid ∷ afid ∷ uname ∷ aname ∷ []) = some fid
attach_fid vs = none

abbrev pub t_attach_with : Server → Option (ℕ) → Server × Response
t_attach_with s none = (s, exception)
t_attach_with s (some fid) = attached s fid (get_elem? s.filesystem.heap 0)

unfoldable pub t_attach : Server → List Value → Server × Response
t_attach s vs = t_attach_with s (attach_fid vs)

abbrev pub dot : List ℕ
dot = 46 ∷ []

abbrev pub dot_dot : List ℕ
dot_dot = 46 ∷ 46 ∷ []

-- Where one name leads.
unfoldable pub step_to : Heap → ℕ → List ℕ → Option ℕ
step_to heap ref name =
    if text_eq name dot_dot then get_parent heap ref else get_child heap ref name

abbrev pub add_qid : Inode → Option (ℕ × Items) → Option (ℕ × Items)
add_qid i none = none
add_qid i (some (ref, qids)) = some (ref, cons (a_qid i.stat.qid) qids)

-- The loop of `t_walk`: the last inode, and the qids on the way.
unfoldable pub walk_names : Heap → ℕ → List (List ℕ) → Option (ℕ × Items)
walk_names heap ref [] = some (ref, nil)
walk_names heap ref (name ∷ names) = elim (text_eq name dot) [
  | true ↦ walk_names heap ref names
  | false ↦ elim (with_ref heap (step_to heap ref name)) [
    | none ↦ none
    | some (c, i) ↦ add_qid i (walk_names heap c names)
  ]
]

unfoldable pub texts_of : Items → List (List ℕ)
texts_of nil = []
texts_of (cons (text cs) xs) = cs ∷ texts_of xs
texts_of (cons v xs) = texts_of xs

abbrev pub walked : Server → ℕ → Option (ℕ × Items) → Server × Response
walked s newfid none = (s, exception)
walked s newfid (some (ref, qids)) = (set_fid s newfid ref, reply 111 (items qids ∷ []))

abbrev pub walk_fid : Server → ℕ → List (List ℕ) → Option ℕ → Server × Response
walk_fid s newfid names none = (s, exception)
walk_fid s newfid names (some ref) = walked s newfid (walk_names s.filesystem.heap ref names)

abbrev pub walk_fields : List Value → Option (ℕ × ℕ × Items)
walk_fields (num fid ∷ num newfid ∷ items wname ∷ []) = some (fid, newfid, wname)
walk_fields vs = none

abbrev pub t_walk_with : Server → Option (ℕ × ℕ × Items) → Server × Response
t_walk_with s none = (s, exception)
t_walk_with s (some (fid, newfid, wname)) = walk_fid s newfid (texts_of wname) (get_fid s fid)

unfoldable pub t_walk : Server → List Value → Server × Response
t_walk s vs = t_walk_with s (walk_fields vs)

abbrev pub stat_reply : Server → Option (ℕ × Inode) → Server × Response
stat_reply s none = (s, exception)
stat_reply s (some (ref, i)) = (set_inode s ref (sync i), reply 125 (a_stat (sync i).stat ∷ []))

abbrev pub stat_fid : List Value → Option (ℕ)
stat_fid (num fid ∷ []) = some fid
stat_fid vs = none

abbrev pub t_stat_with : Server → Option (ℕ) → Server × Response
t_stat_with s none = (s, exception)
t_stat_with s (some fid) = stat_reply s (inode_of s fid)

unfoldable pub t_stat : Server → List Value → Server × Response
t_stat s vs = t_stat_with s (stat_fid vs)

unfoldable pub t_wstat : Server → List Value → Server × Response
t_wstat s vs = (s, reply 127 [])

abbrev pub open_reply : Server → Option (ℕ × Inode) → Server × Response
open_reply s none = (s, exception)
open_reply s (some (ref, i)) = (s, reply 113 (a_qid i.stat.qid ∷ num 8192 ∷ []))

abbrev pub open_fid : List Value → Option (ℕ)
open_fid (num fid ∷ mode ∷ []) = some fid
open_fid vs = none

abbrev pub t_open_with : Server → Option (ℕ) → Server × Response
t_open_with s none = (s, exception)
t_open_with s (some fid) = open_reply s (inode_of s fid)

unfoldable pub t_open : Server → List Value → Server × Response
t_open s vs = t_open_with s (open_fid vs)

-- `_publish_function_c`: what the dumper makes of the result; other exceptions than Plan9Exit are raised.
abbrev pub called : Server → Answer → Server × Response
called s (returned (some bs)) = (s, reply 81 (num 0 ∷ text [] ∷ bytes bs ∷ []))
called s (returned none) = (s, exception)
called s (failed dumped) = (s, exception)
called s exits = (s, plan9_exit)

abbrev pub call_function : Server → List ℕ → List ℕ → Option Function → Server × Response
call_function s cs bs none = (s, reply 81 (num 255 ∷ []))
call_function s cs bs (some f) = called s (f.on_call cs bs)

abbrev pub call_inode : Server → List ℕ → List ℕ → Option (ℕ × Inode) → Server × Response
call_inode s cs bs none = (s, exception)
call_inode s cs bs (some (ref, i)) = call_function s cs bs i.function

abbrev pub call_fields : List Value → Option (ℕ × List ℕ × List ℕ)
call_fields (num fid ∷ text cs ∷ bytes bs ∷ []) = some (fid, cs, bs)
call_fields vs = none

abbrev pub t_call_with : Server → Option (ℕ × List ℕ × List ℕ) → Server × Response
t_call_with s none = (s, exception)
t_call_with s (some (fid, cs, bs)) = call_inode s cs bs (inode_of s fid)

unfoldable pub t_call : Server → List Value → Server × Response
t_call s vs = t_call_with s (call_fields vs)

-- `BytesIO.seek` and `write`: a gap is filled with zeros, and an empty write leaves all as it is.
unfoldable pub write_at : ℕ → List ℕ → List ℕ → List ℕ
write_at off [] content = content
write_at off (b ∷ bs) content =
    (take off content ++ replicate (off - length content) 0)
    ++ ((b ∷ bs) ++ drop (off + length (b ∷ bs)) content)

-- `BytesIO.seek` and `read`.
unfoldable pub read_at : ℕ → ℕ → List ℕ → List ℕ
read_at off count content = take count (drop off content)

abbrev pub is_dir : Inode → Bool
is_dir i = not (bit_and i.stat.qid.qtype 0x80 == 0)

-- `_publish_function_w`, and the write of a plain file.
abbrev pub write_by : Server → ℕ → Inode → ℕ → List ℕ → Option Function → Server × Response
write_by s ref i off bs (some f) = (
  set_inode s ref (record i { content = bs; metadata = record i.metadata { dirty = true } }),
  reply 119 (num (length bs) ∷ []),
)
write_by s ref i off bs none = if is_dir i then (s, exception) else (
  set_inode s ref (record i { content = write_at off bs i.content }),
  reply 119 (num (length bs) ∷ []),
)

abbrev pub write_inode : Server → ℕ → List ℕ → Option (ℕ × Inode) → Server × Response
write_inode s off bs none = (s, exception)
write_inode s off bs (some (ref, i)) = write_by s ref i off bs i.function

abbrev pub write_fields : List Value → Option (ℕ × ℕ × List ℕ)
write_fields (num fid ∷ num off ∷ bytes bs ∷ []) = some (fid, off, bs)
write_fields vs = none

abbrev pub t_write_with : Server → Option (ℕ × ℕ × List ℕ) → Server × Response
t_write_with s none = (s, exception)
t_write_with s (some (fid, off, bs)) = write_inode s off bs (inode_of s fid)

unfoldable pub t_write : Server → List Value → Server × Response
t_write s vs = t_write_with s (write_fields vs)

abbrev pub data_reply : ℕ → ℕ → List ℕ → Response
data_reply off count content = reply 117 (bytes (read_at off count content) ∷ [])

-- `_publish_function_r` where there are new data: the content is cleared, then written.
abbrev pub answer_read : Server → ℕ → Inode → ℕ → ℕ → Answer → Server × Response
answer_read s ref i off count exits = (s, plan9_exit)
answer_read s ref i off count (returned none) = (
  set_inode s ref (record i { content = []; metadata = record i.metadata { dirty = false } }),
  exception,
)
answer_read s ref i off count (returned (some bs)) = (
  set_inode s ref (record i { content = bs; metadata = record i.metadata { dirty = false } }),
  data_reply off count bs,
)
answer_read s ref i off count (failed none) =
    (set_inode s ref (record i { content = [] }), exception)
answer_read s ref i off count (failed (some bs)) =
    (set_inode s ref (record i { content = bs }), data_reply off count bs)

abbrev pub read_function : Server → ℕ → Inode → ℕ → ℕ → Function → Server × Response
read_function s ref i off count f =
    if off == 0 && (i.metadata.dirty || i.metadata.call_on_read)
    then answer_read s ref i off count (f.on_read i.content)
    else (s, data_reply off count i.content)

-- The stats of the children, one behind the other; none is struct.error.
unfoldable pub list_children : Heap → List ℕ → Option (List ℕ)
list_children heap [] = some []
list_children heap (c ∷ cs) = elim (get_elem? heap c) [
  | none ↦ none
  | some i ↦ elim (encode stat (a_stat i.stat)) [
    | none ↦ none
    | some bs ↦ elim (list_children heap cs) [ none ↦ none | some rest ↦ some (bs ++ rest) ]
  ]
]

abbrev pub listed : Server → ℕ → ℕ → Option (List ℕ) → Server × Response
listed s off count none = (s, exception)
listed s off count (some bs) = (s, data_reply off count bs)

abbrev pub read_by : Server → ℕ → Inode → ℕ → ℕ → Option Function → Server × Response
read_by s ref i off count (some f) = read_function s ref i off count f
read_by s ref i off count none =
    if is_dir i
    then listed s off count (list_children s.filesystem.heap i.children)
    else (s, data_reply off count i.content)

abbrev pub read_inode : Server → ℕ → ℕ → Option (ℕ × Inode) → Server × Response
read_inode s off count none = (s, exception)
read_inode s off count (some (ref, i)) = read_by s ref i off count i.function

abbrev pub read_fields_of : List Value → Option (ℕ × ℕ × ℕ)
read_fields_of (num fid ∷ num off ∷ num count ∷ []) = some (fid, off, count)
read_fields_of vs = none

abbrev pub t_read_with : Server → Option (ℕ × ℕ × ℕ) → Server × Response
t_read_with s none = (s, exception)
t_read_with s (some (fid, off, count)) = read_inode s off count (inode_of s fid)

unfoldable pub t_read : Server → List Value → Server × Response
t_read s vs = t_read_with s (read_fields_of vs)

-- A fid stays in the table.
unfoldable pub t_clunk : Server → List Value → Server × Response
t_clunk s vs = (s, reply 121 [])

unfoldable pub t_create : Server → List Value → Server × Response
t_create s vs = (s, reply r_error (text permission_denied ∷ []))

unfoldable pub t_remove : Server → List Value → Server × Response
t_remove s vs = (s, reply r_error (text permission_denied ∷ []))

-- `rtable`, and KeyError for a type that it does not have.
unfoldable pub dispatch : Server → ℕ → List Value → Server × Response
dispatch s t vs =
    if t == 100
    then t_version s vs
    else if t == 102
    then t_auth s vs
    else if t == 104
    then t_attach s vs
    else if t == 110
    then t_walk s vs
    else if t == 124
    then t_stat s vs
    else if t == 126
    then t_wstat s vs
    else if t == 112
    then t_open s vs
    else if t == 80
    then t_call s vs
    else if t == 118
    then t_write s vs
    else if t == 116
    then t_read s vs
    else if t == 120
    then t_clunk s vs
    else if t == 114
    then t_create s vs
    else if t == 122
    then t_remove s vs
    else (s, exception)

-- What goes to the transport: a reply, the reply to an exception, with its tag, or the end of the
-- connection.
pub data Output : Type 0 where
  sent : Message → List ℕ → Output
  error : ℕ → Output
  closed : Output

-- The replies, and how `data_received` ends: it returns, also after an error, or an exception of the
-- parser leaves it.
pub record Received : Type 0 where
  pub server : Server
  pub outputs : List Output
  pub escaped : Bool

abbrev pub also : Output → Received → Received
also o r = record r { outputs = o ∷ r.outputs }

abbrev pub stop : Server → List Output → Received
stop s outs = record { server = s; outputs = outs; escaped = false }

abbrev pub encoded : ℕ → Message → Option (List ℕ) → Server → (Server → Received) → Received
encoded tag m none s rest = stop s (error tag ∷ [])
encoded tag m (some bs) s rest = also (sent m bs) (rest s)

-- From the answer of the handler on; `rest` is what comes after.
unfoldable pub respond : ℕ → Server × Response → (Server → Received) → Received
respond tag (s, reply t vs) rest =
    encoded tag (record { type' = t; tag = tag; values = vs })
      (encode_message (record { type' = t; tag = tag; values = vs })) s rest
respond tag (s, exception) rest = stop s (error tag ∷ [])
respond tag (s, plan9_exit) rest = stop s (error tag ∷ closed ∷ [])

-- The loop of `data_received` over what the parser yields.
unfoldable pub serve : Stream → Server → Received
serve ended s = stop s []
serve raised s = record { server = s; outputs = []; escaped = true }
serve unfinished s = stop s []
serve (yields m rest) s = respond m.tag (dispatch s m.type' m.values) (serve rest)

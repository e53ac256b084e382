-- ===== src/Plan9/Server/Closed.antt =====
-- The references of a server stay within its heap, whatever request arrives.
use pyroute.Prelude.{
  ℕ, ◌<◌, ◌≡◌, refl, Bool, true, false, ◌&&◌, ◌||◌, Option, none, some, List, length, get_elem?,
  Bool-cases, inl, inr, ◌==◌, if◌then◌else◌,
}
use pyroute.Plan9.Codec.{Value, Items}
use pyroute.Plan9.Filesystem.{Inode, Answer, returned, failed, exits, Function, sync}
use pyroute.Plan9.Server.{
  Server, Response, get_fid, inode_of, walk_names, walked, walk_fid, dispatch, attached, stat_reply,
  open_reply, call_inode, call_function, called, write_by, write_inode, read_by, read_inode,
  read_function, answer_read, listed, t_version, t_auth, t_attach, t_walk, t_stat, t_wstat, t_open,
  t_call, t_write, t_read, t_clunk, t_create, t_remove, t_attach_with, t_walk_with, t_stat_with,
  t_open_with, t_call_with, t_write_with, t_read_with, attach_fid, walk_fields, stat_fid, open_fid,
  call_fields, write_fields, read_fields_of, texts_of, list_children, is_dir,
}
use pyroute.Plan9.Server.Links.{
  IsClosed, FoundIn, set_fid-IsClosed, set_inode-IsClosed, with_ref-FoundIn, walk_names-lt,
  lookup-lt,
}

module _ (s : Server) (c : IsClosed s) where
  attached-IsClosed : (fid : ℕ) (o : Option Inode) → IsClosed (attached s fid o).0
  attached-IsClosed fid none = c
  attached-IsClosed fid (some root) = set_fid-IsClosed s fid 0 c c.tree.rooted

  walked-IsClosed :
      (newfid ref : ℕ) (names : List (List ℕ)) (o : Option (ℕ × Items))
      → ref < length s.filesystem.heap
      → walk_names s.filesystem.heap ref names ≡ o
      → IsClosed (walked s newfid o).0
  walked-IsClosed newfid ref names none h e = c
  walked-IsClosed newfid ref names (some (r, qids)) h e =
      set_fid-IsClosed s newfid r c (walk_names-lt s.filesystem.heap ref names r qids h e)

  walk_fid-IsClosed :
      (newfid : ℕ) (names : List (List ℕ)) (o : Option ℕ)
      → ((ref : ℕ) → o ≡ some ref → ref < length s.filesystem.heap)
      → IsClosed (walk_fid s newfid names o).0
  walk_fid-IsClosed newfid names none h = c
  walk_fid-IsClosed newfid names (some ref) h = walked-IsClosed newfid ref names _ (h ref refl) refl

  get_fid-lt : (fid ref : ℕ) → get_fid s fid ≡ some ref → ref < length s.filesystem.heap
  unfolding get_fid
  get_fid-lt fid ref h = lookup-lt fid (length s.filesystem.heap) ref s.fid_table c.fids_in h

  stat_reply-IsClosed :
      (o : Option (ℕ × Inode)) → FoundIn s.filesystem.heap o → IsClosed (stat_reply s o).0
  stat_reply-IsClosed none f = c
  stat_reply-IsClosed (some (ref, i)) f =
      set_inode-IsClosed s ref i (sync i) c f (unfold sync in refl) (unfold sync in refl)

  open_reply-IsClosed : (o : Option (ℕ × Inode)) → IsClosed (open_reply s o).0
  open_reply-IsClosed none = c
  open_reply-IsClosed (some (ref, i)) = c

  called-IsClosed : (a : Answer) → IsClosed (called s a).0
  called-IsClosed (returned none) = c
  called-IsClosed (returned (some bs)) = c
  called-IsClosed (failed d) = c
  called-IsClosed exits = c

  call_function-IsClosed :
      (cs bs : List ℕ) (o : Option Function) → IsClosed (call_function s cs bs o).0
  call_function-IsClosed cs bs none = c
  call_function-IsClosed cs bs (some f) = called-IsClosed (f.on_call cs bs)

  call_inode-IsClosed :
      (cs bs : List ℕ) (o : Option (ℕ × Inode)) → IsClosed (call_inode s cs bs o).0
  call_inode-IsClosed cs bs none = c
  call_inode-IsClosed cs bs (some (ref, i)) = call_function-IsClosed cs bs i.function

  module _ (ref : ℕ) (i : Inode) (got : get_elem? s.filesystem.heap ref ≡ some i) where
    write_by-IsClosed :
        (off : ℕ) (bs : List ℕ) (o : Option Function) → IsClosed (write_by s ref i off bs o).0
    write_by-IsClosed off bs (some f) = set_inode-IsClosed s ref i _ c got refl refl
    write_by-IsClosed off bs none = elim (Bool-cases (is_dir i)) [
      | inl y ↦ rw y c
      | inr m ↦ rw m (set_inode-IsClosed s ref i _ c got refl refl)
    ]

    answer_read-IsClosed :
        (off count : ℕ) (a : Answer) → IsClosed (answer_read s ref i off count a).0
    answer_read-IsClosed off count exits = c
    answer_read-IsClosed off count (returned none) = set_inode-IsClosed s ref i _ c got refl refl
    answer_read-IsClosed off count (returned (some bs)) =
        set_inode-IsClosed s ref i _ c got refl refl
    answer_read-IsClosed off count (failed none) = set_inode-IsClosed s ref i _ c got refl refl
    answer_read-IsClosed off count (failed (some bs)) = set_inode-IsClosed s ref i _ c got refl refl

    read_function-IsClosed :
        (off count : ℕ) (f : Function) → IsClosed (read_function s ref i off count f).0
    read_function-IsClosed off count f =
        elim (Bool-cases (off == 0 && (i.metadata.dirty || i.metadata.call_on_read))) [
          | inl y ↦ rw y (answer_read-IsClosed off count (f.on_read i.content))
          | inr m ↦ rw m c
        ]

  listed-IsClosed : (off count : ℕ) (o : Option (List ℕ)) → IsClosed (listed s off count o).0
  listed-IsClosed off count none = c
  listed-IsClosed off count (some bs) = c

  read_by-IsClosed :
      (ref off count : ℕ) (i : Inode) (o : Option Function)
      → get_elem? s.filesystem.heap ref ≡ some i
      → IsClosed (read_by s ref i off count o).0
  read_by-IsClosed ref off count i (some f) got = read_function-IsClosed ref i got off count f
  read_by-IsClosed ref off count i none got = elim (Bool-cases (is_dir i)) [
    | inl y ↦ rw y (listed-IsClosed off count (list_children s.filesystem.heap i.children))
    | inr m ↦ rw m c
  ]

  write_inode-IsClosed :
      (off : ℕ) (bs : List ℕ) (o : Option (ℕ × Inode))
      → FoundIn s.filesystem.heap o
      → IsClosed (write_inode s off bs o).0
  write_inode-IsClosed off bs none f = c
  write_inode-IsClosed off bs (some (ref, i)) f = write_by-IsClosed ref i f off bs i.function

  read_inode-IsClosed :
      (off count : ℕ) (o : Option (ℕ × Inode))
      → FoundIn s.filesystem.heap o
      → IsClosed (read_inode s off count o).0
  read_inode-IsClosed off count none f = c
  read_inode-IsClosed off count (some (ref, i)) f = read_by-IsClosed ref off count i i.function f

  found : (fid : ℕ) → FoundIn s.filesystem.heap (inode_of s fid)
  found fid = with_ref-FoundIn s.filesystem.heap (get_fid s fid)

  t_attach-IsClosed : (o : Option ℕ) → IsClosed (t_attach_with s o).0
  t_attach-IsClosed none = c
  t_attach-IsClosed (some fid) = attached-IsClosed fid (get_elem? s.filesystem.heap 0)

  t_walk-IsClosed : (o : Option (ℕ × ℕ × Items)) → IsClosed (t_walk_with s o).0
  t_walk-IsClosed none = c
  t_walk-IsClosed (some (fid, newfid, wname)) =
      walk_fid-IsClosed newfid (texts_of wname) (get_fid s fid) (get_fid-lt fid)

  t_stat-IsClosed : (o : Option ℕ) → IsClosed (t_stat_with s o).0
  t_stat-IsClosed none = c
  t_stat-IsClosed (some fid) = stat_reply-IsClosed (inode_of s fid) (found fid)

  t_open-IsClosed : (o : Option ℕ) → IsClosed (t_open_with s o).0
  t_open-IsClosed none = c
  t_open-IsClosed (some fid) = open_reply-IsClosed (inode_of s fid)

  t_call-IsClosed : (o : Option (ℕ × List ℕ × List ℕ)) → IsClosed (t_call_with s o).0
  t_call-IsClosed none = c
  t_call-IsClosed (some (fid, cs, bs)) = call_inode-IsClosed cs bs (inode_of s fid)

  t_write-IsClosed : (o : Option (ℕ × ℕ × List ℕ)) → IsClosed (t_write_with s o).0
  t_write-IsClosed none = c
  t_write-IsClosed (some (fid, off, bs)) = write_inode-IsClosed off bs (inode_of s fid) (found fid)

  t_read-IsClosed : (o : Option (ℕ × ℕ × ℕ)) → IsClosed (t_read_with s o).0
  t_read-IsClosed none = c
  t_read-IsClosed (some (fid, off, count)) =
      read_inode-IsClosed off count (inode_of s fid) (found fid)

  branch :
      (b : Bool) (x y : Server × Response)
      → IsClosed x.0
      → IsClosed y.0
      → IsClosed (if b then x else y).0
  branch true x y p q = p
  branch false x y p q = q

  pub dispatch-IsClosed : (t : ℕ) (vs : List Value) → IsClosed (dispatch s t vs).0
  unfolding dispatch t_version t_auth t_attach t_walk t_stat t_wstat t_open t_call t_write t_read
      t_clunk t_create t_remove
  dispatch-IsClosed t vs = branch (t == 100) _ _ c (
      branch (t == 102) _ _ c (
        branch (t == 104) _ _ (t_attach-IsClosed (attach_fid vs)) (
          branch (t == 110) _ _ (t_walk-IsClosed (walk_fields vs)) (
            branch (t == 124) _ _ (t_stat-IsClosed (stat_fid vs)) (
              branch (t == 126) _ _ c (
                branch (t == 112) _ _ (t_open-IsClosed (open_fid vs)) (
                  branch (t == 80) _ _ (t_call-IsClosed (call_fields vs)) (
                    branch (t == 118) _ _ (t_write-IsClosed (write_fields vs)) (
                      branch (t == 116) _ _ (t_read-IsClosed (read_fields_of vs)) (
                        branch (t == 120) _ _ c
                          (branch (t == 114) _ _ c (branch (t == 122) _ _ c c))))))))))))

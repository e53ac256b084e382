-- ===== src/Plan9/Server/Files.antt =====
-- What is written to a file is read from it.
use pyroute.Prelude.{
  ℕ, ◌+◌, ◌-◌, ◌≡◌, ◌≢◌, refl, ap, ◌∙◌, subst, false, none, some, List, [], ◌∷◌, ◌++◌, length,
  length-append, length-take, length-replicate, get_elem?, take, drop, replicate,
  take_length-append, drop_length-append, arith,
}
use pyroute.Plan9.Codec.{num, bytes}
use pyroute.Plan9.Filesystem.{Inode}
use pyroute.Plan9.Filesystem.Heaps.{get_elem?-update_self}
use pyroute.Plan9.Server.{
  Server, reply, get_fid, inode_of, with_ref, set_inode, is_dir, write_at, read_at, t_write, t_read,
  write_inode, write_by, read_inode, read_by, data_reply,
}

-- The content in front of the place that is written, with zeros in a gap.
abbrev front : ℕ → List ℕ → List ℕ
front off content = take off content ++ replicate (off - length content) 0

length-front : (off : ℕ) (content : List ℕ) → length (front off content) ≡ off
length-front off content = omega (
  arith,
  length-append (take off content) (replicate (off - length content) 0),
  length-take off content,
  length-replicate {A = ℕ} (off - length content) 0,
)

read_at-write_at :
    (off : ℕ) (bs content : List ℕ)
    → bs ≢ []
    → read_at off (length bs) (write_at off bs content) ≡ bs
unfolding read_at write_at
read_at-write_at off [] content h = absurd (h refl)
read_at-write_at off (b ∷ bs) content h =
    let behind = drop (off + length (b ∷ bs)) content in
    let dropped : drop off (front off content ++ ((b ∷ bs) ++ behind)) ≡ (b ∷ bs) ++ behind =
      subst (λ n. drop n (front off content ++ ((b ∷ bs) ++ behind)) ≡ (b ∷ bs) ++ behind)
        (length-front off content) (drop_length-append (front off content) ((b ∷ bs) ++ behind)) in
    ap (take (length (b ∷ bs))) dropped ∙ take_length-append (b ∷ bs) behind

-- A plain file, with no function registered on it.
pub record IsFile (s : Server) (fid ref : ℕ) (i : Inode) : Type 0 where
  pub fid_set : get_fid s fid ≡ some ref
  pub in_heap : get_elem? s.filesystem.heap ref ≡ some i
  pub no_function : i.function ≡ none
  pub no_dir : is_dir i ≡ false

inode_of-IsFile :
    (s : Server) (fid ref : ℕ) (i : Inode) → IsFile s fid ref i → inode_of s fid ≡ some (ref, i)
inode_of-IsFile s fid ref i f = rw (f.fid_set, with_ref, f.in_heap) refl

abbrev pub written : Server → ℕ → ℕ → List ℕ → Inode → Server
written s ref off bs i = set_inode s ref (record i { content = write_at off bs i.content })

t_write-file :
    (s : Server) (fid ref off : ℕ) (bs : List ℕ) (i : Inode)
    → IsFile s fid ref i
    → t_write s (num fid ∷ num off ∷ bytes bs ∷ [])
      ≡ (written s ref off bs i, reply 119 (num (length bs) ∷ []))
unfolding t_write
t_write-file s fid ref off bs i f =
    ap (write_inode s off bs) (inode_of-IsFile s fid ref i f)
    ∙ ap (write_by s ref i off bs) f.no_function
    ∙ rw f.no_dir refl

t_read-file :
    (s : Server) (fid ref off count : ℕ) (i : Inode)
    → IsFile s fid ref i
    → t_read s (num fid ∷ num off ∷ num count ∷ []) ≡ (s, data_reply off count i.content)
unfolding t_read
t_read-file s fid ref off count i f =
    ap (read_inode s off count) (inode_of-IsFile s fid ref i f)
    ∙ ap (read_by s ref i off count) f.no_function
    ∙ rw f.no_dir refl

written-IsFile :
    (s : Server) (fid ref off : ℕ) (bs : List ℕ) (i : Inode)
    → IsFile s fid ref i
    → IsFile (written s ref off bs i) fid ref (record i { content = write_at off bs i.content })
unfolding set_inode get_fid
written-IsFile s fid ref off bs i f = record {
  fid_set = f.fid_set;
  in_heap = get_elem?-update_self s.filesystem.heap ref _ i f.in_heap;
  no_function = f.no_function;
  no_dir = f.no_dir;
}

-- A file that is written at an offset and then read there: the first reply counts all the bytes, and
-- the second has them. The file is plain, with no function registered on it, and what is written is
-- not empty.
pub t_read-t_write :
    (s : Server) (fid ref off : ℕ) (bs : List ℕ) (i : Inode)
    → IsFile s fid ref i
    → bs ≢ []
    → (t_write s (num fid ∷ num off ∷ bytes bs ∷ [])).1 ≡ reply 119 (num (length bs) ∷ [])
      × (t_read
          (t_write s (num fid ∷ num off ∷ bytes bs ∷ [])).0
          (num fid ∷ num off ∷ num (length bs) ∷ [])).1
        ≡ reply 117 (bytes bs ∷ [])
t_read-t_write s fid ref off bs i f h =
    let done = t_write-file s fid ref off bs i f in
    let read =
      t_read-file (written s ref off bs i) fid ref off (length bs) _
        (written-IsFile s fid ref off bs i f) in
    (
      ap (λ r. r.1) done,
      ap (λ r. (t_read r.0 (num fid ∷ num off ∷ num (length bs) ∷ [])).1) done
          ∙ ap (λ r. r.1) read
          ∙ ap (λ l. reply 117 (bytes l ∷ [])) (read_at-write_at off bs i.content h),
    )

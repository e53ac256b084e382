-- ===== src/Plan9/Filesystem.antt =====
-- The inodes of pyroute2/plan9/filesystem.py. An inode is a mutable object: here a place in a heap, and a
-- reference is its place. A Python set of inodes is the list of its members in the order in which it is
-- read. The owner and the times of an inode are given when it is made. `none` is KeyError.
pub mod Paths
pub mod Heaps
pub mod Lookup
pub mod Creating
pub mod Tree
use pyroute.Prelude.{
  ℕ, zero, suc, ◌+◌, ◌-◌, ◌*◌, ◌≤◌, Bool, true, false, not, ◌&&◌, ◌||◌, Option, none, some, List,
  [], ◌∷◌, ◌++◌, length, get_elem?, set, take, drop, replicate, bit_or, bit_and, ltb, leb, ◌==◌,
  if◌then◌else◌,
}
use mathlib.Core.List.{reverse}
use pyroute.Plan9.Codec.{Qid, Stat}

-- `InodeMetadata`.
pub record InodeMetadata : Type 0 where
  pub call_on_read : Bool
  pub dirty : Bool

-- What a function that is registered on an inode does: its result, or its exception, with what the
-- dumper makes of it, none where that raises; or Plan9Exit.
pub data Answer : Type 0 where
  returned failed : Option (List ℕ) → Answer
  exits : Answer

-- `register_function`: the answer to the content on a read, and to text and data on a call. On a call
-- the loader may raise too.
pub record Function : Type 0 where
  pub on_read : List ℕ → Answer
  pub on_call : List ℕ → List ℕ → Answer

pub record Inode : Type 0 where
  pub content : List ℕ
  pub parents : List ℕ
  pub children : List ℕ
  pub stat : Stat
  pub metadata : InodeMetadata
  pub function : Option Function

abbrev pub Heap : Type 0
Heap = List Inode

pub record Owner : Type 0 where
  pub user : List ℕ
  pub group : List ℕ
  pub time : ℕ

-- The constructor: `qid.type << 24 | mode`.
unfoldable pub new_inode : Owner → List ℕ → ℕ → List ℕ → ℕ → ℕ → List ℕ → Inode
new_inode o name path content qtype mode parents = record {
  content = content;
  parents = parents;
  children = [];
  stat = record {
    size = 58;
    type' = path;
    dev = 0;
    qid = record { qtype = qtype; vers = 0; path = path };
    mode = bit_or (qtype * 0x1000000) mode;
    atime = o.time;
    mtime = o.time;
    length' = length content;
    name = name;
    uid = o.user;
    gid = o.group;
    muid = o.user;
  };
  metadata = record { call_on_read = false; dirty = false };
  function = none;
}

-- `sync`.
unfoldable pub sync : Inode → Inode
sync i = record i { stat = record i.stat { length' = length i.content } }

unfoldable pub text_eq : List ℕ → List ℕ → Bool
text_eq [] [] = true
text_eq [] (b ∷ bs) = false
text_eq (a ∷ as') [] = false
text_eq (a ∷ as') (b ∷ bs) = a == b && text_eq as' bs

abbrev pub named : List ℕ → Option Inode → Bool
named name none = false
named name (some i) = text_eq i.stat.name name

-- The first child of the name.
unfoldable pub child_named : Heap → List ℕ → List ℕ → Option ℕ
child_named heap name [] = none
child_named heap name (c ∷ cs) =
    let rest = child_named heap name cs in if named name (get_elem? heap c) then some c else rest

unfoldable pub get_child : Heap → ℕ → List ℕ → Option ℕ
get_child heap ref name = elim (get_elem? heap ref) [
  | none ↦ none
  | some i ↦ child_named heap name i.children
]

abbrev pub first_of : List ℕ → Option ℕ
first_of [] = none
first_of (r ∷ rs) = some r

-- `tuple(self.parents)[0]`; the root is its own parent.
unfoldable pub get_parent : Heap → ℕ → Option ℕ
get_parent heap ref = elim (get_elem? heap ref) [ none ↦ none | some i ↦ first_of i.parents ]

unfoldable pub has : ℕ → List ℕ → Bool
has r [] = false
has r (s ∷ rs) = r == s || has r rs

-- `set.add`.
unfoldable pub add : ℕ → List ℕ → List ℕ
add r rs = if has r rs then rs else rs ++ r ∷ []

unfoldable pub remove : ℕ → List ℕ → List ℕ
remove r [] = []
remove r (s ∷ rs) = let rest = remove r rs in if r == s then rs else s ∷ rest

abbrev pub update : Heap → ℕ → (Inode → Inode) → Heap
update heap ref f = elim (get_elem? heap ref) [ none ↦ heap | some i ↦ set heap ref (f i) ]

unfoldable pub add_child : Heap → ℕ → ℕ → Heap
add_child heap ref child =
    update (update heap child (λ i. record i { parents = add ref i.parents })) ref
      (λ i. record i { children = add child i.children })

abbrev pub parents_of : Option Inode → List ℕ
parents_of none = []
parents_of (some i) = i.parents

-- `del_parent`: none is KeyError, for the only parent or for one that it does not have.
unfoldable pub del_parent : Heap → ℕ → ℕ → Bool → Option Heap
del_parent heap child ref force =
    let ps = parents_of (get_elem? heap child) in
    if (force || ltb 1 (length ps)) && has ref ps
    then some (update heap child (λ i. record i { parents = remove ref i.parents }))
    else none

abbrev pub children_of : Option Inode → List ℕ
children_of none = []
children_of (some i) = i.children

-- `del_child`: whether it returns, and the heap. Its parent is deleted first, also where it is no child.
unfoldable pub del_child : Heap → ℕ → ℕ → Bool × Heap
del_child heap ref child = elim (del_parent heap child ref true) [
  | none ↦ (false, heap)
  | some heap' ↦
      if has child (children_of (get_elem? heap' ref))
      then (true, update heap' ref (λ i. record i { children = remove child i.children }))
      else (false, heap')
]

-- `Filesystem`: the heap with the root at its start, and the counter of paths.
pub record Filesystem : Type 0 where
  pub heap : Heap
  pub last_path : ℕ

unfoldable pub new_filesystem : Owner → Filesystem
new_filesystem o = record {
  heap = new_inode o (47 ∷ []) 0 [] 0x80 493 (0 ∷ []) ∷ [];
  last_path = 255;
}

abbrev pub cons_first : ℕ → List (List ℕ) → List (List ℕ)
cons_first c [] = (c ∷ []) ∷ []
cons_first c (w ∷ ws) = (c ∷ w) ∷ ws

-- `str.split` at the slash.
unfoldable pub split_path : List ℕ → List (List ℕ)
split_path [] = [] ∷ []
split_path (c ∷ cs) = if c == 47 then [] ∷ split_path cs else cons_first c (split_path cs)

abbrev pub is_empty : List ℕ → Bool
is_empty [] = true
is_empty (c ∷ cs) = false

unfoldable pub walk_from : Heap → ℕ → List (List ℕ) → Option ℕ
walk_from heap ref [] = some ref
walk_from heap ref (name ∷ names) = elim (is_empty name) [
  | true ↦ walk_from heap ref names
  | false ↦ elim (get_child heap ref name) [ none ↦ none | some c ↦ walk_from heap c names ]
]

-- `Filesystem.walk`.
unfoldable pub walk : Filesystem → List ℕ → Option ℕ
walk fs wname = walk_from fs.heap 0 (split_path wname)

abbrev pub extend_split : ℕ → List ℕ × List ℕ → List ℕ × List ℕ
extend_split c ([], t) = if c == 47 then (c ∷ [], t) else ([], c ∷ t)
extend_split c (x ∷ h, t) = (c ∷ x ∷ h, t)

-- The head up to the last slash, and the tail behind it.
unfoldable pub split_last : List ℕ → List ℕ × List ℕ
split_last [] = ([], [])
split_last (c ∷ cs) = extend_split c (split_last cs)

-- `rstrip` of slashes.
unfoldable pub strip_slashes : List ℕ → List ℕ
strip_slashes [] = []
strip_slashes (c ∷ cs) =
    let rest = strip_slashes cs in if is_empty rest && c == 47 then [] else c ∷ rest

unfoldable pub all_slashes : List ℕ → Bool
all_slashes [] = true
all_slashes (c ∷ cs) = c == 47 && all_slashes cs

abbrev pub head_of : List ℕ → List ℕ
head_of h = if all_slashes h then h else strip_slashes h

-- `os.path.split`.
unfoldable pub path_split : List ℕ → List ℕ × List ℕ
path_split p = (head_of (split_last p).0, (split_last p).1)

abbrev pub mode_or_default : Option ℕ → ℕ → ℕ
mode_or_default none qtype = if bit_and qtype 0x80 == 0 then 416 else 488
mode_or_default (some mode) qtype = mode

unfoldable pub create_in :
    Filesystem → Owner → List ℕ → ℕ → ℕ → List ℕ → Option ℕ → Option (Filesystem × ℕ)
create_in fs o name qtype mode content none = none
create_in fs o name qtype mode content (some parent) =
    let ref = length fs.heap in
    let inode = new_inode o name (fs.last_path + 1) content qtype mode [] in
    some (
      record { heap = add_child (fs.heap ++ inode ∷ []) parent ref; last_path = fs.last_path + 1 },
      ref,
    )

-- `Filesystem.create`: the new inode is the last of the heap.
unfoldable pub create :
    Filesystem → Owner → List ℕ → ℕ → Option ℕ → List ℕ → Option (Filesystem × ℕ)
create fs o wname qtype mode content =
    create_in fs o (path_split wname).1 qtype (mode_or_default mode qtype) content
      (walk fs (path_split wname).0)

-- ===== src/Plan9/Server/Tests.antt =====
-- A server with one file "ab" in its root, and two fids: 1 is the root, 2 is the file.
use pyroute.Prelude.{ℕ, ◌≡◌, refl, false, none, some, List, [], ◌∷◌, arith}
use pyroute.Plan9.Codec.{num, text, bytes, items, Items, nil, cons, items_length}
use pyroute.Plan9.Messages.{Stream, ended, yields}
use pyroute.Plan9.Filesystem.{
  Inode, Filesystem, Owner, new_inode, walk, walk_from, split_path, get_child, child_named, text_eq,
  create, create_in, add_child, add, has, path_split, split_last, strip_slashes, all_slashes,
  new_filesystem,
}
use pyroute.Plan9.Server.{
  Server, reply, t_walk, t_write, t_read, set_fid, get_fid, lookup, texts_of, serve,
}
use pyroute.Plan9.Filesystem.Paths.{join}
use pyroute.Plan9.Server.Walks.{t_walk-walk, IsName}
use pyroute.Plan9.Server.Files.{t_read-t_write, IsFile}
use pyroute.Plan9.Server.Replies.{Answers, requests, serve-Answers}
use pyroute.Plan9.Server.Links.{IsClosed}
use pyroute.Plan9.Server.Reachable.{started, step, received, Reachable-IsClosed, new_server}

abbrev owner : Owner
owner = record { user = 117 ∷ []; group = 103 ∷ []; time = 7 }

abbrev file_name : List ℕ
file_name = 97 ∷ 98 ∷ []

abbrev file : Inode
file = record {
  content = 5 ∷ 6 ∷ [];
  parents = 0 ∷ [];
  children = [];
  stat = record {
    size = 58;
    type' = 256;
    dev = 0;
    qid = record { qtype = 0; vers = 0; path = 256 };
    mode = 416;
    atime = 7;
    mtime = 7;
    length' = 2;
    name = file_name;
    uid = 117 ∷ [];
    gid = 103 ∷ [];
    muid = 117 ∷ [];
  };
  metadata = record { call_on_read = false; dirty = false };
  function = none;
}

abbrev root : Inode
root = record {
  content = [];
  parents = 0 ∷ [];
  children = 1 ∷ [];
  stat = record {
    size = 58;
    type' = 0;
    dev = 0;
    qid = record { qtype = 128; vers = 0; path = 0 };
    mode = 2147484141;
    atime = 7;
    mtime = 7;
    length' = 0;
    name = 47 ∷ [];
    uid = 117 ∷ [];
    gid = 103 ∷ [];
    muid = 117 ∷ [];
  };
  metadata = record { call_on_read = false; dirty = false };
  function = none;
}

abbrev files : Filesystem
files = record { heap = root ∷ file ∷ []; last_path = 256 }

abbrev server : Server
server = record { filesystem = files; fid_table = (1, 0) ∷ (2, 1) ∷ [] }

create-new :
    create (new_filesystem owner) owner (47 ∷ file_name) 0 none (5 ∷ 6 ∷ []) ≡ some (files, 1)
unfolding create create_in new_filesystem new_inode add_child add has path_split split_last
    strip_slashes all_slashes walk walk_from split_path get_child child_named
create-new = refl

file-IsName : IsName file_name
file-IsName = record {
  no_slash = (λ e. omega arith, (λ e. omega arith, tt));
  not_empty = λ e. cc;
  not_dot = λ e. ground arith;
  not_dot_dot = λ e. ground arith;
}

walk-file : walk files file_name ≡ some 1
unfolding walk walk_from split_path get_child child_named text_eq
walk-file = refl

t_walk-walk_example :
    (qids : Items) × (t_walk server (num 1 ∷ num 3 ∷ items (cons (text file_name) nil) ∷ [])
      ≡ (set_fid server 3 1, reply 111 (items qids ∷ [])))
    × (items_length qids ≡ 1)
unfolding get_fid lookup texts_of walk walk_from split_path get_child child_named text_eq join
t_walk-walk_example = t_walk-walk server 1 3 (cons (text file_name) nil) refl (file-IsName, tt)

file-IsFile : IsFile server 2 1 file
unfolding get_fid lookup
file-IsFile = record { fid_set = refl; in_heap = refl; no_function = refl; no_dir = refl }

t_read-t_write_example :
    (t_write server (num 2 ∷ num 4 ∷ bytes (8 ∷ 9 ∷ []) ∷ [])).1 ≡ reply 119 (num 2 ∷ [])
    × (t_read
        (t_write server (num 2 ∷ num 4 ∷ bytes (8 ∷ 9 ∷ []) ∷ [])).0
        (num 2 ∷ num 4 ∷ num 2 ∷ [])).1
      ≡ reply 117 (bytes (8 ∷ 9 ∷ []) ∷ [])
t_read-t_write_example = t_read-t_write server 2 1 4 (8 ∷ 9 ∷ []) file file-IsFile (λ e. cc)

abbrev session : Stream
session =
    yields (record { type' = 104; tag = 3; values = num 1 ∷ num 0 ∷ text [] ∷ text [] ∷ [] })
      (yields
        (record {
          type' = 110;
          tag = 4;
          values = num 1 ∷ num 2 ∷ items (cons (text (46 ∷ 46 ∷ [])) nil) ∷ [];
        })
        ended)

serve-Answers_example : Answers (requests session) (serve session (new_server owner)).outputs
serve-Answers_example = serve-Answers session (new_server owner)

Reachable-IsClosed_example : IsClosed (serve session (new_server owner)).server
Reachable-IsClosed_example = Reachable-IsClosed (step started (received session))

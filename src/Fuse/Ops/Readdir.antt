-- ===== src/Fuse/Ops/Readdir.antt =====
-- `readdir` of nyne/src/fuse/ops.rs and its offsets. The nodes of the directory are an argument, as
-- the chain lists them. The reply of the fuser crate is the list of the entries it holds, with
-- `full rs e` where it has no room for `e` behind `rs`.
pub mod Paging
use nyne.Prelude.{
  ℕ, zero, suc, ◌+◌, ◌-◌, ◌≡◌, Bool, true, false, List, [], ◌∷◌, ◌++◌, ltb, if◌then◌else◌, drop,
}
use nyne.Fuse.Slab.{Slab}
use nyne.Fuse.Inodes.{InodeEntry, InodeMap, ensure_inode, parent_of}

abbrev offset_dot : ℕ
offset_dot = 1

abbrev offset_dotdot : ℕ
offset_dotdot = 2

abbrev offset_entries : ℕ
offset_entries = 3

abbrev pub readdir_offset : ℕ → ℕ
readdir_offset index = offset_entries + index

unfoldable pub readdir_skip : ℕ → ℕ
readdir_skip last_offset =
    if ltb last_offset offset_entries then 0 else (last_offset - offset_entries) + 1

pub data FileType : Type 0 where
  directory file symlink : FileType

pub record DirNode (Name : Type 0) : Type 0 where
  pub name : Name
  pub kind : FileType

pub record DirEntry (Name : Type 0) : Type 0 where
  pub ino : ℕ
  pub offset : ℕ
  pub kind : FileType
  pub name : Name

module _ {Dir Name Node : Type 0} (S : Slab (InodeEntry Dir Name Node)) (eq : Discrete (Dir × Name))
    (full : List (DirEntry Name) → DirEntry Name → Bool) where
  abbrev pub child_entry : ℕ → ℕ → DirNode Name → DirEntry Name
  child_entry child_ino i node = record {
    ino = child_ino;
    offset = readdir_offset i;
    kind = node.kind;
    name = node.name;
  }

  -- The loop over the nodes from the index `i` on.
  unfoldable pub list_nodes :
      InodeMap S
      → Dir
      → ℕ
      → List (DirEntry Name)
      → ℕ
      → List (DirNode Name)
      → InodeMap S × List (DirEntry Name)
  list_nodes m dir_path ino rs i [] = (m, rs)
  list_nodes m dir_path ino rs i (node ∷ nodes) =
      let (m', child_ino) = ensure_inode S eq m dir_path node.name ino in
      let e = child_entry child_ino i node in
      let rest = list_nodes m' dir_path ino (rs ++ e ∷ []) (suc i) nodes in
      if full rs e then (m', rs) else rest

  module _ (dot dotdot : Name) where
    abbrev pub dot_entry : ℕ → DirEntry Name
    dot_entry ino = record { ino = ino; offset = offset_dot; kind = directory; name = dot }

    abbrev pub dotdot_entry : ℕ → DirEntry Name
    dotdot_entry parent = record {
      ino = parent;
      offset = offset_dotdot;
      kind = directory;
      name = dotdot;
    }

    abbrev pub list_from :
        InodeMap S
        → Dir
        → ℕ
        → List (DirNode Name)
        → ℕ
        → List (DirEntry Name)
        → InodeMap S × List (DirEntry Name)
    list_from m dir_path ino nodes offset rs =
        let skip = readdir_skip offset in list_nodes m dir_path ino rs skip (drop skip nodes)

    abbrev pub list_from_dotdot :
        InodeMap S
        → Dir
        → ℕ
        → List (DirNode Name)
        → ℕ
        → List (DirEntry Name)
        → InodeMap S × List (DirEntry Name)
    list_from_dotdot m dir_path ino nodes offset rs =
        let e = dotdot_entry (parent_of S m ino) in
        if ltb offset offset_dotdot
        then (if full rs e then (m, rs) else list_from m dir_path ino nodes offset (rs ++ e ∷ []))
        else list_from m dir_path ino nodes offset rs

    unfoldable pub readdir :
        InodeMap S → Dir → ℕ → List (DirNode Name) → ℕ → InodeMap S × List (DirEntry Name)
    readdir m dir_path ino nodes offset =
        let e = dot_entry ino in
        if ltb offset offset_dot
        then (if full [] e then (m, []) else list_from_dotdot m dir_path ino nodes offset (e ∷ []))
        else list_from_dotdot m dir_path ino nodes offset []

    abbrev pub last_offset : ℕ → List (DirEntry Name) → ℕ
    last_offset o [] = o
    last_offset o (e ∷ es) = last_offset e.offset es

    abbrev pub is_end : List (DirEntry Name) → Bool
    is_end [] = true
    is_end (e ∷ es) = false

    -- The calls of a reader of the whole directory: each goes on behind the last entry of the one
    -- before, to the first reply without entries.
    unfoldable pub read_all :
        ℕ → InodeMap S → Dir → ℕ → List (DirNode Name) → ℕ → List (DirEntry Name)
    read_all zero m dir_path ino nodes offset = []
    read_all (suc fuel) m dir_path ino nodes offset =
        let (m', page) = readdir m dir_path ino nodes offset in
        let rest = read_all fuel m' dir_path ino nodes (last_offset offset page) in
        if is_end page then [] else page ++ rest

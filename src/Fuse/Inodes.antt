-- ===== src/Fuse/Inodes.antt =====
-- `InodeMap` of nyne/src/fuse/inode_map/mod.rs. Paths, names and nodes are parameters: paths and names
-- are compared by `Discrete` keys, `join` is `Path::join`, and a node's cache policy is read off it.
-- Time is an argument of each call, in the units of `Instant`.
pub mod Laws
pub mod Tests
use nyne.Prelude.{
  ℕ, ◌+◌, ◌-◌, ◌≡◌, Bool, true, false, Option, none, some, List, [], ◌∷◌, ltb, ◌==◌, if◌then◌else◌,
  map_option,
}
use mathlib.Core.Logic.{ite}
use nyne.Fuse.Slab.{Slab}
use nyne.Prelude.Maps.{lookup, remove, insert}
use nyne.Router.Node.{CachePolicy, default, no_cache, ttl}

pub record InodeEntry (Dir Name Node : Type 0) : Type 0 where
  pub dir_path : Dir
  pub name : Name
  pub parent_inode : ℕ
  pub node : Option Node
  pub expires_at : Option ℕ

abbrev pub inode_offset : ℕ
inode_offset = 2

abbrev pub root_inode : ℕ
root_inode = 1

-- `checked_sub`; `usize::try_from` holds on a 64-bit target.
unfoldable pub inode_to_index : ℕ → Option ℕ
inode_to_index inode = if ltb inode inode_offset then none else some (inode - inode_offset)

unfoldable pub expires_at_from_policy : ℕ → CachePolicy → Option ℕ
expires_at_from_policy now (ttl d) = some (now + d)
expires_at_from_policy now default = none
expires_at_from_policy now no_cache = none

abbrev pub is_expired : ℕ → Option ℕ → Bool
is_expired now none = false
is_expired now (some t) = ltb t now

module _ {Dir Name Node : Type 0} where
  -- `InodeEntry::new`.
  abbrev pub new_entry : Dir → Name → ℕ → InodeEntry Dir Name Node
  new_entry dir_path name parent_inode = record {
    dir_path = dir_path;
    name = name;
    parent_inode = parent_inode;
    node = none;
    expires_at = none;
  }

module _ {Dir Name Node : Type 0} (S : Slab (InodeEntry Dir Name Node)) where
  pub record InodeMap : Type 0 where
    pub slab : S.Store
    pub by_path : List ((Dir × Name) × ℕ)

  unfoldable pub new : InodeMap
  new = record { slab = S.new; by_path = [] }

  -- The entry of an inode number.
  unfoldable pub get : InodeMap → ℕ → Option (InodeEntry Dir Name Node)
  get m inode = elim (inode_to_index inode) [ none ↦ none | some i ↦ S.get m.slab i ]

  -- `slab.get_mut(idx)` with an assignment to the slot.
  unfoldable pub put : InodeMap → ℕ → InodeEntry Dir Name Node → InodeMap
  put m inode e = elim (inode_to_index inode) [
    | none ↦ m
    | some i ↦ record m { slab = S.put m.slab i e }
  ]

  unfoldable pub allocate :
      Discrete (Dir × Name) → InodeMap → InodeEntry Dir Name Node → InodeMap × ℕ
  allocate eq m e =
      let (slab, idx) = S.insert m.slab e in
      let ino = idx + inode_offset in
      (record { slab = slab; by_path = insert eq (e.dir_path, e.name) ino m.by_path }, ino)

  -- Find the inode of a directory and a name.
  unfoldable pub find_inode : Discrete (Dir × Name) → InodeMap → Dir → Name → Option ℕ
  find_inode eq m dir_path name = lookup eq (dir_path, name) m.by_path

  -- `update`, which moves an inode to another place, where the inode is known.
  unfoldable pub relocate :
      Discrete (Dir × Name) → InodeMap → ℕ → InodeEntry Dir Name Node → Dir → Name → ℕ → InodeMap
  relocate eq m ino old dir_path name parent_inode =
      put
        (record m {
          by_path = insert eq (dir_path, name) ino (remove eq (old.dir_path, old.name) m.by_path);
        })
        ino (record old { dir_path = dir_path; name = name; parent_inode = parent_inode })

  unfoldable pub update : Discrete (Dir × Name) → InodeMap → ℕ → Dir → Name → ℕ → InodeMap × Bool
  update eq m inode dir_path name parent_inode = elim (get m inode) [
    | none ↦ (m, false)
    | some old ↦ (relocate eq m inode old dir_path name parent_inode, true)
  ]

  unfoldable pub parent_of : InodeMap → ℕ → ℕ
  parent_of m inode = elim (get m inode) [ none ↦ root_inode | some e ↦ e.parent_inode ]

  -- `full_path`, with `Path::join`.
  unfoldable pub full_path : (Dir → Name → Dir) → InodeMap → ℕ → Option Dir
  full_path join m inode = map_option (λ e. join e.dir_path e.name) (get m inode)

  -- The root is the empty path.
  unfoldable pub dir_path_for : Dir → (Dir → Name → Dir) → InodeMap → ℕ → Option Dir
  dir_path_for empty join m inode =
      if inode == root_inode then some empty else full_path join m inode

  -- `ensure_inode` of nyne/src/fuse/ops.rs: find the inode of an entry, or allocate one.
  unfoldable pub ensure_inode : Discrete (Dir × Name) → InodeMap → Dir → Name → ℕ → InodeMap × ℕ
  ensure_inode eq m dir_path name parent_inode = elim (find_inode eq m dir_path name) [
    | some ino ↦ (m, ino)
    | none ↦ allocate eq m (new_entry dir_path name parent_inode)
  ]

  -- The expired part of `bound_node`: the binding is cleared.
  unfoldable pub expire : InodeMap → ℕ → InodeEntry Dir Name Node → InodeMap
  expire m inode e = put m inode (record e { node = none; expires_at = none })

  unfoldable pub bound_in :
      InodeMap → ℕ → ℕ → InodeEntry Dir Name Node → Option Node → InodeMap × Option Node
  bound_in m now inode e none = (m, none)
  bound_in m now inode e (some bound) =
      if is_expired now e.expires_at then (expire m inode e, none) else (m, some bound)

  unfoldable pub bound_node : InodeMap → ℕ → ℕ → InodeMap × Option Node
  bound_node m now inode = elim (get m inode) [
    | none ↦ (m, none)
    | some e ↦ bound_in m now inode e e.node
  ]

  module _ (cache_policy : Node → CachePolicy) where
    unfoldable pub bind_node : InodeMap → ℕ → ℕ → Node → InodeMap
    bind_node m now inode node = elim (get m inode) [
      | none ↦ m
      | some e ↦ put m inode (record e {
        node = some node;
        expires_at = expires_at_from_policy now (cache_policy node);
      })
    ]

    unfoldable pub renewed : ℕ → Option Node → Option ℕ
    renewed now none = none
    renewed now (some n) = expires_at_from_policy now (cache_policy n)

    unfoldable pub extend : InodeMap → ℕ → InodeEntry Dir Name Node → Option ℕ → InodeMap
    extend m inode e none = m
    extend m inode e (some t) = put m inode (record e { expires_at = some t })

    unfoldable pub touch : InodeMap → ℕ → ℕ → InodeMap
    touch m now inode = elim (get m inode) [
      | none ↦ m
      | some e ↦ extend m inode e (renewed now e.node)
    ]

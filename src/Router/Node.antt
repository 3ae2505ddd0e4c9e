-- ===== src/Router/Node.antt =====
-- Virtual nodes, nyne/src/router/node/mod.rs: the slots of a `Node` with its permissions, and the merge
-- of nodes that several providers give for one name. The implementations in the slots are opaque, of
-- one type `Impl`; the kinds are of nyne/src/types. A merge of nodes of two kinds stops only a debug
-- build, so the model goes on with the first kind as a release build does.
pub mod Merged
pub mod Tests
use nyne.Prelude.{ℕ, Bool, true, false, ◌||◌, Option, none, some}

pub data NodeKind : Type 0 where
  file directory symlink : NodeKind

pub record Permissions : Type 0 where
  pub read : Bool
  pub write : Bool
  pub execute : Bool

pub data CachePolicy : Type 0 where
  default no_cache : CachePolicy
  ttl : ℕ → CachePolicy

pub record Node (Impl FilePath Times : Type 0) : Type 0 where
  pub kind : NodeKind
  pub target : Option FilePath
  pub permissions : Option Permissions
  pub timestamps : Option Times
  pub cache_policy : CachePolicy
  pub readable : Option Impl
  pub writable : Option Impl
  pub renameable : Option Impl
  pub unlinkable : Option Impl
  pub lifecycle : Option Impl
  pub attributable : Option Impl

abbrev pub first_of {ℓ} : {A : Type ℓ} → Option A → Option A → Option A
first_of none other = other
first_of (some a) other = some a

abbrev pub first_policy : CachePolicy → CachePolicy → CachePolicy
first_policy default other = other
first_policy no_cache other = no_cache
first_policy (ttl d) other = ttl d

abbrev pub is_set {ℓ} : {A : Type ℓ} → Option A → Bool
is_set none = false
is_set (some a) = true

abbrev pub all_permissions : Permissions
all_permissions = record { read = true; write = true; execute = true }

abbrev pub or_derived : Option Permissions → Permissions → Permissions
or_derived none other = other
or_derived (some perms) other = perms

module _ {Impl FilePath Times : Type 0} where
  abbrev pub new : NodeKind → Node Impl FilePath Times
  new kind = record {
    kind = kind;
    target = none;
    permissions = none;
    timestamps = none;
    cache_policy = default;
    readable = none;
    writable = none;
    renameable = none;
    unlinkable = none;
    lifecycle = none;
    attributable = none;
  }

  abbrev pub file_node : Node Impl FilePath Times
  file_node = new file

  abbrev pub dir_node : Node Impl FilePath Times
  dir_node = new directory

  abbrev pub symlink_node : FilePath → Node Impl FilePath Times
  symlink_node target = record (new symlink) { target = some target }

  -- The slots alone.
  unfoldable pub merge_slots :
      Node Impl FilePath Times → Node Impl FilePath Times → Node Impl FilePath Times
  merge_slots a b = record a {
    readable = first_of a.readable b.readable;
    writable = first_of a.writable b.writable;
    renameable = first_of a.renameable b.renameable;
    unlinkable = first_of a.unlinkable b.unlinkable;
    lifecycle = first_of a.lifecycle b.lifecycle;
    attributable = first_of a.attributable b.attributable;
  }

  unfoldable pub merge_capabilities_from :
      Node Impl FilePath Times → Node Impl FilePath Times → Node Impl FilePath Times
  unfolding merge_slots
  merge_capabilities_from a b = record (merge_slots a b) {
    target = first_of a.target b.target;
    permissions = first_of a.permissions b.permissions;
    timestamps = first_of a.timestamps b.timestamps;
    cache_policy = first_policy a.cache_policy b.cache_policy;
  }

  abbrev pub derived : NodeKind → Node Impl FilePath Times → Permissions
  derived directory n = record {
    read = true;
    write = is_set n.writable || is_set n.unlinkable;
    execute = true;
  }
  derived symlink n = all_permissions
  derived file n = record { read = is_set n.readable; write = is_set n.writable; execute = false }

  -- `Node::permissions`.
  unfoldable pub permissions_of : Node Impl FilePath Times → Permissions
  permissions_of n = or_derived n.permissions (derived n.kind n)

  unfoldable pub set_default_timestamps :
      Node Impl FilePath Times → Times → Node Impl FilePath Times
  set_default_timestamps n ts = record n { timestamps = first_of n.timestamps (some ts) }

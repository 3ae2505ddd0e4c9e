-- ===== src/Visibility.antt =====
-- The visibility plugin, plugins/visibility/src: which processes see virtual nodes. The map is of
-- visibility_map/mod.rs, with the sessions of visibility_map/cgroup and the name helpers of
-- nyne/src/process/procfs. What the kernel reports is a `Host`, an argument of each call. Names are
-- their bytes.
pub mod Ancestors
pub mod Cached
pub mod Names
pub mod Races
pub mod Sessions
pub mod Tests
use native.Mathlib.Decide.{ℕ_discrete}
use mathlib.Core.List.{List-discrete}
use nyne.Prelude.{
  starts_char, ℕ, zero, suc, Bool, true, false, ◌&&◌, ◌||◌, Option, none, some, List, [], ◌∷◌, ltb,
  leb, if◌then◌else◌, length, take, get_elem?, ◌==◌, map_option,
}
use nyne.Prelude.Maps.{lookup, insert, remove}

-- `ProcessVisibility`.
pub data Level : Type 0 where
  all default passthrough : Level

pub data VisibilityEntry : Type 0 where
  explicit : Level → VisibilityEntry
  cached : Level → VisibilityEntry

unfoldable pub visibility : VisibilityEntry → Level
visibility (explicit v) = v
visibility (cached v) = v

abbrev pub Name : Type 0
Name = List ℕ

abbrev pub name_discrete : Discrete Name
name_discrete = List-discrete ℕ_discrete

-- The command name of a process through the shared cache, its parent, and the process that gave its
-- name to the session directory of its cgroup; `none` is no information. `moves` says whether a
-- process can be moved into a cgroup of its own.
pub record Host : Type 0 where
  pub comm : ℕ → Option Name
  pub ppid : ℕ → Option ℕ
  pub session_of : ℕ → Option ℕ
  pub moves : ℕ → Bool

-- `cgroup_sessions` is `none` without cgroups.
pub record VisibilityMap : Type 0 where
  pub pid_entries : List (ℕ × VisibilityEntry)
  pub name_rules : List (Name × Level)
  pub dynamic_name_rules : List (Name × Level)
  pub cgroup_sessions : Option (List (ℕ × Level))

abbrev pub comm_max_len : ℕ
comm_max_len = 15

-- `str::floor_char_boundary` below the length.
unfoldable pub floor_char_boundary : Name → ℕ → ℕ
floor_char_boundary name zero = zero
floor_char_boundary name (suc i) =
    let below = floor_char_boundary name i in
    if starts_char (get_elem? name (suc i)) then suc i else below

unfoldable pub truncate_comm : Name → Name
truncate_comm name =
    if ltb comm_max_len (length name)
    then take (floor_char_boundary name comm_max_len) name
    else name

unfoldable pub build_rules : List (Name × Level) → List (Name × Level)
build_rules [] = []
build_rules ((name, v) ∷ rules) = (truncate_comm name, v) ∷ build_rules rules

-- `HashMap::from_iter`, which keeps the last rule of a name.
unfoldable pub collect : List (Name × Level) → List (Name × Level) → List (Name × Level)
collect acc [] = acc
collect acc ((n, v) ∷ rest) = collect (insert name_discrete n v acc) rest

unfoldable pub new : List (Name × Level) → VisibilityMap
new rules = record {
  pid_entries = [];
  name_rules = collect [] (build_rules rules);
  dynamic_name_rules = [];
  cgroup_sessions = none;
}

abbrev pub max_ancestor_depth : ℕ
max_ancestor_depth = 32

-- The loop that collects the parents, with the hops left; `none` is a read that failed.
unfoldable pub ancestors : Host → ℕ → ℕ → Option (List ℕ)
ancestors host zero current = some []
ancestors host (suc hops) current = elim (host.ppid current) [
  | none ↦ none
  | some parent ↦
      if leb parent 1
      then some []
      else map_option (λ rest. parent ∷ rest) (ancestors host hops parent)
]

-- The first explicit entry.
abbrev pub inherited : Option VisibilityEntry → Option Level → Option Level
inherited (some (explicit v)) rest = some v
inherited (some (cached v)) rest = rest
inherited none rest = rest

unfoldable pub first_explicit : List (ℕ × VisibilityEntry) → List ℕ → Option Level
first_explicit entries [] = none
first_explicit entries (a ∷ rest) =
    inherited (lookup ℕ_discrete a entries) (first_explicit entries rest)

unfoldable pub resolve_by_ancestors : Host → VisibilityMap → ℕ → Option Level
resolve_by_ancestors host m pid = elim (ancestors host max_ancestor_depth pid) [
  | none ↦ none
  | some as' ↦ first_explicit m.pid_entries as'
]

abbrev pub or_else : Option Level → Option Level → Option Level
or_else none other = other
or_else (some v) other = some v

unfoldable pub resolve_by_comm : Host → VisibilityMap → ℕ → Option Level
resolve_by_comm host m pid = elim (host.comm pid) [
  | none ↦ none
  | some comm ↦
      or_else (lookup name_discrete comm m.dynamic_name_rules)
        (lookup name_discrete comm m.name_rules)
]

-- `CgroupTracker::resolve`.
unfoldable pub resolve_by_cgroup : Host → VisibilityMap → ℕ → Option Level
resolve_by_cgroup host m pid = elim m.cgroup_sessions [
  | none ↦ none
  | some sessions ↦ elim (host.session_of pid) [
    | none ↦ none
    | some owner ↦ lookup ℕ_discrete owner sessions
  ]
]

unfoldable pub cache_resolved : VisibilityMap → ℕ → Level → VisibilityMap × Level
cache_resolved m pid v =
    (record m { pid_entries = insert ℕ_discrete pid (cached v) m.pid_entries }, v)

abbrev pub or_default : Option Level → Level
or_default none = default
or_default (some v) = v

abbrev pub has_rules : List (Name × Level) → List (Name × Level) → Bool
has_rules [] [] = false
has_rules [] (r ∷ rs) = true
has_rules (r ∷ rs) other = true

unfoldable pub resolve_by_rules : Host → VisibilityMap → ℕ → Option Level
resolve_by_rules host m pid =
    if has_rules m.name_rules m.dynamic_name_rules then resolve_by_comm host m pid else none

-- What `resolve` computes for a process without an entry.
abbrev pub compute_level : Host → VisibilityMap → ℕ → Level
compute_level host m pid = or_default (
    or_else (resolve_by_rules host m pid)
      (or_else (resolve_by_cgroup host m pid) (resolve_by_ancestors host m pid)))

unfoldable pub resolve : Host → VisibilityMap → ℕ → VisibilityMap × Level
resolve host m pid = elim (lookup ℕ_discrete pid m.pid_entries) [
  | some entry ↦ (m, visibility entry)
  | none ↦ cache_resolved m pid (compute_level host m pid)
]

-- `CgroupTracker::track` and `untrack`, under the option.
abbrev pub track : Host → ℕ → Level → Option (List (ℕ × Level)) → Option (List (ℕ × Level))
track host pid v none = none
track host pid v (some sessions) =
    some (if host.moves pid then insert ℕ_discrete pid v sessions else sessions)

unfoldable pub set_pid : Host → VisibilityMap → ℕ → Level → VisibilityMap
set_pid host m pid v = record m {
  pid_entries = insert ℕ_discrete pid (explicit v) m.pid_entries;
  cgroup_sessions = track host pid v m.cgroup_sessions;
}

unfoldable pub remove_pid : VisibilityMap → ℕ → VisibilityMap
remove_pid m pid = record m {
  pid_entries = remove ℕ_discrete pid m.pid_entries;
  cgroup_sessions = map_option (remove ℕ_discrete pid) m.cgroup_sessions;
}

unfoldable pub set_name_rule : VisibilityMap → Name → Level → VisibilityMap
set_name_rule m name v = record m {
  dynamic_name_rules = insert name_discrete (truncate_comm name) v m.dynamic_name_rules;
}

unfoldable pub explicit_pid_entries : List (ℕ × VisibilityEntry) → List (ℕ × Level)
explicit_pid_entries [] = []
explicit_pid_entries ((pid, explicit v) ∷ rest) = (pid, v) ∷ explicit_pid_entries rest
explicit_pid_entries ((pid, cached v) ∷ rest) = explicit_pid_entries rest

-- ===== src/Visibility/Sessions.antt =====
-- The sessions of cgroups: plugins/visibility/src/visibility_map/cgroup and its use in
-- visibility_map/mod.rs.
use mathlib.Core.Logic.{if_pos, if_neg}
use native.Mathlib.Decide.{ℕ_discrete}
use nyne.Prelude.{
  ℕ, ◌≡◌, ◌≢◌, refl, ◌∙◌, ap, sym, true, map_option, Option, none, some, List, if◌then◌else◌,
}
use nyne.Prelude.Maps.{lookup, insert, remove, lookup-insert, lookup-remove}
use nyne.Visibility.{
  Level, explicit, Host, VisibilityMap, resolve_by_rules, resolve_by_comm, resolve_by_ancestors,
  resolve_by_cgroup, cache_resolved, resolve, set_pid, remove_pid, track, or_else, or_default,
}

session_level :
    (host : Host) (m : VisibilityMap) (sessions : List (ℕ × Level)) (pid child : ℕ) (v : Level)
    → m.cgroup_sessions ≡ some sessions
    → host.moves pid ≡ true
    → host.session_of child ≡ some pid
    → resolve_by_cgroup host (set_pid host m pid v) child ≡ some v
unfolding resolve_by_cgroup set_pid
session_level host m sessions pid child v active moved member =
    let tracked : (set_pid host m pid v).cgroup_sessions ≡ some (insert ℕ_discrete pid v sessions) =
      ap (track host pid v) active
      ∙ ap (λ b. some (if b then insert ℕ_discrete pid v sessions else sessions)) moved in
    rw (resolve_by_cgroup, tracked, member)
      (lookup-insert ℕ_discrete pid pid v sessions ∙ if_pos (ℕ_discrete pid pid) refl _ _)

-- With cgroups, a process in the session of another that no rule names and that has no entry resolves
-- to the level set for that other.
pub resolve-set_pid :
    (host : Host) (m : VisibilityMap) (sessions : List (ℕ × Level)) (pid child : ℕ) (v : Level)
    → m.cgroup_sessions ≡ some sessions
    → host.moves pid ≡ true
    → host.session_of child ≡ some pid
    → child ≢ pid
    → lookup ℕ_discrete child m.pid_entries ≡ none
    → resolve_by_rules host m child ≡ none
    → (resolve host (set_pid host m pid v) child).1 ≡ v
unfolding resolve cache_resolved set_pid resolve_by_rules resolve_by_comm
resolve-set_pid host m sessions pid child v active moved member other fresh unruled =
    let away : lookup ℕ_discrete child (set_pid host m pid v).pid_entries ≡ none =
      lookup-insert ℕ_discrete child pid (explicit v) m.pid_entries
      ∙ if_neg (ℕ_discrete pid child) (λ h. other (sym h)) _ _
      ∙ fresh in
    let walk = resolve_by_ancestors host (set_pid host m pid v) child in
    rw (resolve, away)
      (ap
          (λ r.
            or_default
              (or_else r (or_else (resolve_by_cgroup host (set_pid host m pid v) child) walk)))
          unruled
        ∙ ap (λ r. or_default (or_else r walk))
            (session_level host m sessions pid child v active moved member))

-- When the level of a process is removed, the processes in its session no longer resolve by it.
pub resolve_by_cgroup-remove_pid :
    (host : Host) (m : VisibilityMap) (pid child : ℕ)
    → host.session_of child ≡ some pid
    → resolve_by_cgroup host (remove_pid m pid) child ≡ none
unfolding resolve_by_cgroup remove_pid
resolve_by_cgroup-remove_pid host m pid child member = go m.cgroup_sessions
  where
    go :
        (o : Option (List (ℕ × Level)))
        → resolve_by_cgroup host
            (record m { cgroup_sessions = map_option (remove ℕ_discrete pid) o })
            child
          ≡ none
    go none = refl
    go (some sessions) =
        rw (resolve_by_cgroup, member)
          (lookup-remove ℕ_discrete pid pid sessions ∙ if_pos (ℕ_discrete pid pid) refl _ _)

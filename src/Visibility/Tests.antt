-- ===== src/Visibility/Tests.antt =====
-- Runs of the theorems on process visibility.
use native.Mathlib.Decide.{ℕ_discrete}
use nyne.Prelude.{
  ℕ, ◌≡◌, ◌≤◌, ◌<◌, refl, true, Option, none, some, List, [], ◌∷◌, ◌⊎◌, ◌↔◌, inr, arith, length,
  take, map, if◌then◌else◌, ◌==◌,
}
use nyne.Prelude.Maps.{lookup}
use nyne.Visibility.{
  set_pid, compute_level, all, passthrough, explicit, cached, Host, VisibilityMap, Name,
  truncate_comm, resolve_by_ancestors, resolve,
}
use nyne.Visibility.Ancestors.{Nearest, resolve_by_ancestors-Nearest}
use nyne.Visibility.Cached.{level_of, resolve_each, resolve_each-level_of, Change, setting, ruling}
use nyne.Visibility.Races.{resolve_amid, resolve_amid-loses}
use nyne.Visibility.Names.{IsFloor, truncate_comm_lem}

-- Process 30 is a child of 20, and 20 of 10, whose parent is not known; all have one name.
abbrev parent : ℕ → Option ℕ
parent pid = if pid == 30 then some 20 else if pid == 20 then some 10 else none

abbrev rooted : ℕ → Option ℕ
rooted pid = if pid == 30 then some 20 else if pid == 20 then some 10 else some 1

abbrev sixteen : Name
sixteen = 97 ∷ 97 ∷ 97 ∷ 97 ∷ 97 ∷ 97 ∷ 97 ∷ 97 ∷ 97 ∷ 97 ∷ 97 ∷ 97 ∷ 97 ∷ 97 ∷ 97 ∷ 98 ∷ []

abbrev host_of : (ℕ → Option ℕ) → Host
host_of ppid = record {
  comm = λ pid. some (take 15 sixteen);
  ppid = ppid;
  session_of = λ pid. none;
  moves = λ pid. true;
}

abbrev tracked : VisibilityMap
tracked = record {
  pid_entries = (20, explicit passthrough) ∷ [];
  name_rules = [];
  dynamic_name_rules = [];
  cgroup_sessions = none;
}

abbrev rules : List Change
rules = ruling sixteen all ∷ setting (host_of rooted) 10 all ∷ []

resolve_each-level_of_example :
    resolve_each (host_of rooted) tracked (30 ∷ 20 ∷ 30 ∷ [])
    ≡ map (level_of (host_of rooted) tracked) (30 ∷ 20 ∷ 30 ∷ [])
resolve_each-level_of_example = resolve_each-level_of (host_of rooted) tracked (30 ∷ 20 ∷ 30 ∷ [])

resolve_by_ancestors-Nearest_example :
    (resolve_by_ancestors (host_of rooted) tracked 30 ≡ some passthrough)
    ↔ Nearest tracked.pid_entries (20 ∷ 10 ∷ []) passthrough
resolve_by_ancestors-Nearest_example =
    resolve_by_ancestors-Nearest (host_of rooted) tracked 30 (20 ∷ 10 ∷ []) passthrough
      (refl, omega arith, (refl, omega arith, tt)) (omega arith) (inr (1, refl, omega arith))

truncate_comm_lem_example :
    ((length sixteen ≤ 15) × (truncate_comm sixteen ≡ sixteen))
    ⊎ ((15 < length sixteen)
        × (k : ℕ) × IsFloor sixteen 15 k
        × (truncate_comm sixteen ≡ take k sixteen)
        × (length (truncate_comm sixteen) ≡ k))
truncate_comm_lem_example = truncate_comm_lem sixteen

resolve_amid-loses_example :
    let m' =
      (resolve_amid (λ n. set_pid (host_of rooted) n 30 all) (host_of rooted) tracked 30).0 in
    (lookup ℕ_discrete 30 m'.pid_entries
      ≡ some (cached (compute_level (host_of rooted) tracked 30)))
    × ((resolve (host_of parent) m' 30).1 ≡ compute_level (host_of rooted) tracked 30)
unfolding lookup ℕ_discrete
resolve_amid-loses_example =
    resolve_amid-loses (host_of rooted) (host_of parent) tracked 30 all refl

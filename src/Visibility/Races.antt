-- ===== src/Visibility/Races.antt =====
-- A resolution that another request overtakes, plugins/visibility/src/visibility_map/mod.rs: `resolve`
-- reads the entries and stores its answer under two locks.
use mathlib.Core.Logic.{if_pos}
use native.Mathlib.Decide.{ℕ_discrete}
use nyne.Prelude.{ℕ, ◌≡◌, refl, ◌∙◌, none, some}
use nyne.Prelude.Maps.{lookup, lookup-insert}
use nyne.Visibility.{
  Level, cached, visibility, Host, VisibilityMap, cache_resolved, compute_level, resolve, set_pid,
}

-- `resolve` with what other requests do between its read of the entries and its write of the answer.
unfoldable pub resolve_amid :
    (VisibilityMap → VisibilityMap) → Host → VisibilityMap → ℕ → VisibilityMap × Level
resolve_amid meanwhile host m pid = elim (lookup ℕ_discrete pid m.pid_entries) [
  | some entry ↦ (meanwhile m, visibility entry)
  | none ↦ cache_resolved (meanwhile m) pid (compute_level host m pid)
]

resolve_amid-alone :
    (host : Host) (m : VisibilityMap) (pid : ℕ)
    → resolve_amid (λ n. n) host m pid ≡ resolve host m pid
unfolding resolve_amid resolve
resolve_amid-alone host m pid = refl

-- A level that is set for a process while its first resolution is on the way is lost: the process then
-- resolves to what was computed before, and its entry is one that children do not inherit.
pub resolve_amid-loses :
    (host later : Host) (m : VisibilityMap) (pid : ℕ) (v : Level)
    → lookup ℕ_discrete pid m.pid_entries ≡ none
    → let m' = (resolve_amid (λ n. set_pid host n pid v) host m pid).0 in
      (lookup ℕ_discrete pid m'.pid_entries ≡ some (cached (compute_level host m pid)))
      × ((resolve later m' pid).1 ≡ compute_level host m pid)
unfolding resolve_amid resolve cache_resolved set_pid visibility
resolve_amid-loses host later m pid v fresh =
    let after = set_pid host m pid v in
    let level = compute_level host m pid in
    let there : lookup ℕ_discrete pid (cache_resolved after pid level).0.pid_entries
        ≡ some (cached level) =
      lookup-insert ℕ_discrete pid pid (cached level) after.pid_entries
      ∙ if_pos (ℕ_discrete pid pid) refl _ _ in
    rw (resolve_amid, fresh) (there, rw (resolve, there) refl)

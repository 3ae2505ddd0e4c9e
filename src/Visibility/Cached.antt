-- ===== src/Visibility/Cached.antt =====
-- The cached answers of `VisibilityMap::resolve`, plugins/visibility/src/visibility_map/mod.rs.
use mathlib.Core.Logic.{if_pos, if_neg}
use native.Mathlib.Decide.{ℕ_discrete}
use nyne.Prelude.{
  ℕ, ◌≡◌, ◌≢◌, refl, ap, ap₂, sym, ◌∙◌, Option, none, some, List, [], ◌∷◌, map, Option-cases, inl,
  inr,
}
use nyne.Prelude.Maps.{lookup, insert, lookup-insert}
use nyne.Visibility.{
  Level, VisibilityEntry, explicit, cached, visibility, Host, VisibilityMap, Name, inherited,
  first_explicit, resolve_by_ancestors, ancestors, max_ancestor_depth, resolve_by_comm,
  resolve_by_rules, resolve_by_cgroup, cache_resolved, compute_level, resolve, set_pid,
  set_name_rule, or_else, or_default,
}

-- The visibility of a process: that of its entry, or what is computed for it.
unfoldable pub level_of : Host → VisibilityMap → ℕ → Level
level_of host m pid = elim (lookup ℕ_discrete pid m.pid_entries) [
  | some entry ↦ visibility entry
  | none ↦ compute_level host m pid
]

first_explicit-cached :
    (entries : List (ℕ × VisibilityEntry)) (p : ℕ) (v : Level) (path : List ℕ)
    → lookup ℕ_discrete p entries ≡ none
    → first_explicit (insert ℕ_discrete p (cached v) entries) path ≡ first_explicit entries path
unfolding first_explicit
first_explicit-cached entries p v [] fresh = refl
first_explicit-cached entries p v (a ∷ rest) fresh = elim (ℕ_discrete p a) [
  | yes same ↦
      let gone : lookup ℕ_discrete a entries ≡ none =
        ap (λ k. lookup ℕ_discrete k entries) (sym same) ∙ fresh in
      rw (lookup-insert ℕ_discrete a p (cached v) entries, if_pos (ℕ_discrete p a) same, gone)
        (first_explicit-cached entries p v rest fresh)
  | no other ↦
      rw (lookup-insert ℕ_discrete a p (cached v) entries, if_neg (ℕ_discrete p a) other)
        (ap (inherited (lookup ℕ_discrete a entries))
          (first_explicit-cached entries p v rest fresh))
]

ancestors-cached :
    (host : Host) (m : VisibilityMap) (p q : ℕ) (v : Level)
    → lookup ℕ_discrete p m.pid_entries ≡ none
    → resolve_by_ancestors host (cache_resolved m p v).0 q ≡ resolve_by_ancestors host m q
unfolding resolve_by_ancestors cache_resolved
ancestors-cached host m p q v fresh = go (ancestors host max_ancestor_depth q)
  where
    go :
        (walk : Option (List ℕ))
        → (elim walk as (λ o. Option Level) [
          | none ↦ none
          | some path ↦ first_explicit (insert ℕ_discrete p (cached v) m.pid_entries) path
        ])
          ≡ (elim walk as (λ o. Option Level) [
            | none ↦ none
            | some path ↦ first_explicit m.pid_entries path
          ])
    go none = refl
    go (some path) = first_explicit-cached m.pid_entries p v path fresh

compute_level-cached :
    (host : Host) (m : VisibilityMap) (p q : ℕ) (v : Level)
    → lookup ℕ_discrete p m.pid_entries ≡ none
    → compute_level host (cache_resolved m p v).0 q ≡ compute_level host m q
unfolding resolve_by_rules resolve_by_comm resolve_by_cgroup cache_resolved
compute_level-cached host m p q v fresh =
    ap
      (λ r.
        or_default (or_else (resolve_by_rules host m q) (or_else (resolve_by_cgroup host m q) r)))
      (ancestors-cached host m p q v fresh)

resolve-level_of :
    (host : Host) (m : VisibilityMap) (p : ℕ) → (resolve host m p).1 ≡ level_of host m p
unfolding resolve level_of cache_resolved
resolve-level_of host m p = elim (Option-cases (lookup ℕ_discrete p m.pid_entries)) [
  | inl fresh ↦ rw (resolve, level_of, fresh) refl
  | inr (entry, found) ↦ rw (resolve, level_of, found) refl
]

level_of-cached :
    (host : Host) (m : VisibilityMap) (p q : ℕ)
    → lookup ℕ_discrete p m.pid_entries ≡ none
    → level_of host (cache_resolved m p (compute_level host m p)).0 q ≡ level_of host m q
unfolding level_of cache_resolved visibility
level_of-cached host m p q fresh = elim (ℕ_discrete p q) [
  | yes same ↦
      let v = compute_level host m p in
      let gone : lookup ℕ_discrete q m.pid_entries ≡ none =
        ap (λ k. lookup ℕ_discrete k m.pid_entries) (sym same) ∙ fresh in
      let there : lookup ℕ_discrete q (insert ℕ_discrete p (cached v) m.pid_entries)
          ≡ some (cached v) =
        lookup-insert ℕ_discrete q p (cached v) m.pid_entries ∙ if_pos (ℕ_discrete p q) same _ _ in
      rw (level_of, there, gone) (ap (compute_level host m) same)
  | no other ↦
      let v = compute_level host m p in
      let kept : lookup ℕ_discrete q (insert ℕ_discrete p (cached v) m.pid_entries)
          ≡ lookup ℕ_discrete q m.pid_entries =
        lookup-insert ℕ_discrete q p (cached v) m.pid_entries ∙ if_neg (ℕ_discrete p q) other _ _ in
      elim (Option-cases (lookup ℕ_discrete q m.pid_entries)) [
        | inl none_there ↦ rw (level_of, kept, none_there) (compute_level-cached host m p q v fresh)
        | inr (entry, found) ↦ rw (level_of, kept, found) refl
      ]
]

level_of-resolve :
    (host : Host) (m : VisibilityMap) (p q : ℕ)
    → level_of host (resolve host m p).0 q ≡ level_of host m q
unfolding resolve
level_of-resolve host m p q = elim (Option-cases (lookup ℕ_discrete p m.pid_entries)) [
  | inl fresh ↦ rw (resolve, fresh) (level_of-cached host m p q fresh)
  | inr (entry, found) ↦ rw (resolve, found) refl
]

-- Requests one after the other.
unfoldable pub resolve_each : Host → VisibilityMap → List ℕ → List Level
resolve_each host m [] = []
resolve_each host m (p ∷ ps) = (resolve host m p).1 ∷ resolve_each host (resolve host m p).0 ps

-- While the host does not change, a sequence of requests gets the answers that each would get on the
-- first map: what is cached for one process never shows in the answer of another.
pub resolve_each-level_of :
    (host : Host) (m : VisibilityMap) (pids : List ℕ)
    → resolve_each host m pids ≡ map (level_of host m) pids
unfolding resolve_each
resolve_each-level_of host m [] = refl
resolve_each-level_of host m (p ∷ ps) =
    ap₂ ◌∷◌ (resolve-level_of host m p)
      (resolve_each-level_of host (resolve host m p).0 ps ∙ same ps)
  where
    same : (qs : List ℕ) → map (level_of host (resolve host m p).0) qs ≡ map (level_of host m) qs
    same [] = refl
    same (q ∷ qs) = ap₂ ◌∷◌ (level_of-resolve host m p q) (same qs)

pub data Change : Type 0 where
  resolving : Host → ℕ → Change
  setting : Host → ℕ → Level → Change
  ruling : Name → Level → Change

-- A request, an explicit entry for a process, or a rule for a name.
unfoldable pub change : VisibilityMap → Change → VisibilityMap
change m (resolving host p) = (resolve host m p).0
change m (setting host p v) = set_pid host m p v
change m (ruling name v) = set_name_rule m name v

unfoldable pub change_all : VisibilityMap → List Change → VisibilityMap
change_all m [] = m
change_all m (c ∷ cs) = change_all (change m c) cs

-- No explicit entry for the process.
abbrev pub Leaves : ℕ → List Change → Type 0
Leaves pid [] = Unit {0}
Leaves pid (resolving host p ∷ cs) = Leaves pid cs
Leaves pid (setting host p v ∷ cs) = (p ≢ pid) × Leaves pid cs
Leaves pid (ruling name v ∷ cs) = Leaves pid cs

resolving-keeps :
    (host : Host) (m : VisibilityMap) (p pid : ℕ) (entry : VisibilityEntry)
    → lookup ℕ_discrete pid m.pid_entries ≡ some entry
    → lookup ℕ_discrete pid (resolve host m p).0.pid_entries ≡ some entry
unfolding resolve cache_resolved
resolving-keeps host m p pid entry there = elim (Option-cases (lookup ℕ_discrete p m.pid_entries)) [
  | inr (e, found) ↦ rw (resolve, found) there
  | inl fresh ↦
      let other : p ≢ pid = λ same.
        (let clash : none ≡ some entry =
            sym fresh ∙ ap (λ k. lookup ℕ_discrete k m.pid_entries) same ∙ there in
          cc) in
      rw (resolve, fresh)
        (lookup-insert ℕ_discrete pid p (cached (compute_level host m p)) m.pid_entries
          ∙ if_neg (ℕ_discrete p pid) other _ _
          ∙ there)
]

change_all-keeps :
    (cs : List Change) (m : VisibilityMap) (pid : ℕ) (entry : VisibilityEntry)
    → lookup ℕ_discrete pid m.pid_entries ≡ some entry
    → Leaves pid cs
    → lookup ℕ_discrete pid (change_all m cs).pid_entries ≡ some entry
unfolding change_all change set_pid set_name_rule
change_all-keeps [] m pid entry there away = there
change_all-keeps (resolving host p ∷ cs) m pid entry there away =
    change_all-keeps cs (resolve host m p).0 pid entry (resolving-keeps host m p pid entry there)
      away
change_all-keeps (setting host p v ∷ cs) m pid entry there away =
    change_all-keeps cs (set_pid host m p v) pid entry
      (lookup-insert ℕ_discrete pid p (explicit v) m.pid_entries
        ∙ if_neg (ℕ_discrete p pid) away.0 _ _
        ∙ there)
      away.1
change_all-keeps (ruling name v ∷ cs) m pid entry there away =
    change_all-keeps cs (set_name_rule m name v) pid entry there away

resolve-entry :
    (host : Host) (m : VisibilityMap) (pid : ℕ)
    → (entry : VisibilityEntry) × (lookup ℕ_discrete pid (resolve host m pid).0.pid_entries
        ≡ some entry)
      × (visibility entry ≡ (resolve host m pid).1)
unfolding resolve cache_resolved visibility
resolve-entry host m pid = elim (Option-cases (lookup ℕ_discrete pid m.pid_entries)) [
  | inr (e, found) ↦ (e, rw (resolve, found) found, rw (resolve, found) refl)
  | inl fresh ↦ (
    cached (compute_level host m pid),
    rw (resolve, fresh)
        (lookup-insert ℕ_discrete pid pid (cached (compute_level host m pid)) m.pid_entries
          ∙ if_pos (ℕ_discrete pid pid) refl _ _),
    rw (resolve, fresh) refl,
  )
]

-- Once a process has been resolved, its answer stays, whatever the host reports later, whatever rules
-- are set for names, and whatever is set for other processes.
pub resolve-stale :
    (host later : Host) (m : VisibilityMap) (pid : ℕ) (cs : List Change)
    → Leaves pid cs
    → (resolve later (change_all (resolve host m pid).0 cs) pid).1 ≡ (resolve host m pid).1
unfolding resolve
resolve-stale host later m pid cs away =
    let (entry, there, shows) = resolve-entry host m pid in
    let kept = change_all-keeps cs (resolve host m pid).0 pid entry there away in
    rw (resolve, kept) shows

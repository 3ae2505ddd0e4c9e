-- ===== src/Visibility/Ancestors.antt =====
-- The ancestor walk of `VisibilityMap::resolve`, plugins/visibility/src/visibility_map/mod.rs.
use native.Mathlib.Decide.{ℕ_discrete}
use nyne.Prelude.{
  ℕ, zero, suc, ◌≡◌, ◌≢◌, ◌<◌, ◌≤◌, refl, ap, ◌∙◌, Option, none, some, List, [], ◌∷◌, ◌++◌, le→leb,
  ◌⊎◌, ◌↔◌, length, inl, inr, arith, lt→leb-false,
}
use nyne.Prelude.Maps.{lookup}
use nyne.Visibility.{
  Level, VisibilityEntry, explicit, cached, Host, VisibilityMap, inherited, first_explicit,
  ancestors, max_ancestor_depth, resolve_by_ancestors,
}

-- A path from a process to its parent and further up, above the first process.
abbrev pub Chain : Host → ℕ → List ℕ → Type 0
Chain host pid [] = Unit {0}
Chain host pid (parent ∷ rest) =
    (host.ppid pid ≡ some parent) × (1 < parent) × Chain host parent rest

abbrev pub NoneExplicit : List (ℕ × VisibilityEntry) → List ℕ → Type 0
NoneExplicit entries [] = Unit {0}
NoneExplicit entries (a ∷ rest) =
    ((v : Level) → lookup ℕ_discrete a entries ≢ some (explicit v)) × NoneExplicit entries rest

-- The first of the path with an explicit entry.
abbrev pub Nearest : List (ℕ × VisibilityEntry) → List ℕ → Level → Type 0
Nearest entries path v =
    (near : List ℕ) × (a : ℕ) × (far : List ℕ) × (path ≡ near ++ a ∷ far)
    × NoneExplicit entries near
    × (lookup ℕ_discrete a entries ≡ some (explicit v))

Nearest-cons :
    (entries : List (ℕ × VisibilityEntry)) (a : ℕ) (rest : List ℕ) (v : Level)
    → ((w : Level) → lookup ℕ_discrete a entries ≢ some (explicit w))
    → Nearest entries rest v
    → Nearest entries (a ∷ rest) v
Nearest-cons entries a rest v away (near, b, far, parts, free, found) =
    (a ∷ near, b, far, ap (λ r. a ∷ r) parts, (away, free), found)

first_explicit-Nearest :
    (entries : List (ℕ × VisibilityEntry)) (path : List ℕ) (v : Level)
    → first_explicit entries path ≡ some v
    → Nearest entries path v
unfolding first_explicit
first_explicit-Nearest entries [] v h = cc
first_explicit-Nearest entries (a ∷ rest) v h =
    go (lookup ℕ_discrete a entries) refl (first_explicit-Nearest entries rest v) h
  where
    go :
        (o : Option VisibilityEntry)
        → lookup ℕ_discrete a entries ≡ o
        → (first_explicit entries rest ≡ some v → Nearest entries rest v)
        → inherited o (first_explicit entries rest) ≡ some v
        → Nearest entries (a ∷ rest) v
    go (some (explicit w)) found later e =
        let same : w ≡ v = cc in ([], a, rest, refl, tt, found ∙ ap (λ r. some (explicit r)) same)
    go (some (cached w)) found later e = Nearest-cons entries a rest v (λ u x. cc) (later e)
    go none found later e = Nearest-cons entries a rest v (λ u x. cc) (later e)

-- The process at the end of a path.
abbrev pub end_of : ℕ → List ℕ → ℕ
end_of pid [] = pid
end_of pid (a ∷ rest) = end_of a rest

-- A path that the walk goes to its end: it has 32 parents, or the parent of its last process is the
-- first process or none.
abbrev pub Whole : Host → ℕ → List ℕ → Type 0
Whole host pid path =
    (length path ≡ 32) ⊎ ((parent : ℕ) × (host.ppid (end_of pid path) ≡ some parent) × (parent ≤ 1))

ancestors-whole :
    (host : Host) (hops pid : ℕ) (path : List ℕ)
    → Chain host pid path
    → length path ≤ hops
    → (length path ≡ hops)
      ⊎ ((parent : ℕ) × (host.ppid (end_of pid path) ≡ some parent) × (parent ≤ 1))
    → ancestors host hops pid ≡ some path
unfolding ancestors
ancestors-whole host zero pid [] chain short ends = refl
ancestors-whole host zero pid (a ∷ rest) chain short ends = absurd (omega (arith, short))
ancestors-whole host (suc hops) pid [] chain short (inl full) = absurd (omega (arith, full))
ancestors-whole host (suc hops) pid [] chain short (inr (parent, read, top)) =
    rw (ancestors, read, le→leb parent 1 top) refl
ancestors-whole host (suc hops) pid (a ∷ rest) (read, above, chain) short ends =
    let later : ancestors host hops a ≡ some rest =
      ancestors-whole host hops a rest chain (omega (arith, short)) (shorter ends) in
    rw (ancestors, read, lt→leb-false a 1 above, later) refl
  where
    shorter :
        (suc (length rest) ≡ suc hops)
          ⊎ ((parent : ℕ) × (host.ppid (end_of a rest) ≡ some parent) × (parent ≤ 1))
        → (length rest ≡ hops)
          ⊎ ((parent : ℕ) × (host.ppid (end_of a rest) ≡ some parent) × (parent ≤ 1))
    shorter (inl full) = inl (omega (arith, full))
    shorter (inr top) = inr top

first_explicit-skip :
    (entries : List (ℕ × VisibilityEntry)) (a : ℕ) (rest : List ℕ)
    → ((v : Level) → lookup ℕ_discrete a entries ≢ some (explicit v))
    → first_explicit entries (a ∷ rest) ≡ first_explicit entries rest
unfolding first_explicit
first_explicit-skip entries a rest away = skip (lookup ℕ_discrete a entries) refl
  where
    skip :
        (o : Option VisibilityEntry)
        → lookup ℕ_discrete a entries ≡ o
        → inherited o (first_explicit entries rest) ≡ first_explicit entries rest
    skip none found = refl
    skip (some (explicit v)) found = absurd (away v found)
    skip (some (cached v)) found = refl

Nearest-first_explicit :
    (entries : List (ℕ × VisibilityEntry)) (near : List ℕ) (a : ℕ) (far : List ℕ) (v : Level)
    → NoneExplicit entries near
    → lookup ℕ_discrete a entries ≡ some (explicit v)
    → first_explicit entries (near ++ a ∷ far) ≡ some v
unfolding first_explicit
Nearest-first_explicit entries [] a far v free found = rw (found) refl
Nearest-first_explicit entries (b ∷ near) a far v (away, free) found =
    first_explicit-skip entries b (near ++ a ∷ far) away
    ∙ Nearest-first_explicit entries near a far v free found

-- When the walk can be read to its end, it answers a level exactly when that is the level of the nearest
-- ancestor on it that has an explicit entry.
pub resolve_by_ancestors-Nearest :
    (host : Host) (m : VisibilityMap) (pid : ℕ) (path : List ℕ) (v : Level)
    → Chain host pid path
    → length path ≤ 32
    → Whole host pid path
    → (resolve_by_ancestors host m pid ≡ some v) ↔ Nearest m.pid_entries path v
unfolding resolve_by_ancestors
resolve_by_ancestors-Nearest host m pid path v chain short ends =
    let walked = ancestors-whole host max_ancestor_depth pid path chain short ends in
    rw (resolve_by_ancestors, walked)
      (
        first_explicit-Nearest m.pid_entries path v,
        λ (near, a, far, parts, free, found).
            ap (first_explicit m.pid_entries) parts
            ∙ Nearest-first_explicit m.pid_entries near a far v free found,
      )

ancestors-unread :
    (host : Host) (hops pid : ℕ) (path : List ℕ)
    → Chain host pid path
    → length path < hops
    → host.ppid (end_of pid path) ≡ none
    → ancestors host hops pid ≡ none
unfolding ancestors
ancestors-unread host zero pid path chain short unread = absurd (omega arith)
ancestors-unread host (suc hops) pid [] chain short unread = rw (ancestors, unread) refl
ancestors-unread host (suc hops) pid (a ∷ rest) chain short unread =
    let later : ancestors host hops a ≡ none =
      ancestors-unread host hops a rest chain.2 (omega arith) unread in
    rw (ancestors, chain.0, lt→leb-false a 1 chain.1, later) refl

-- A read that fails anywhere on the walk hides the explicit entries of the nearer ancestors.
pub resolve_by_ancestors-unread :
    (host : Host) (m : VisibilityMap) (pid : ℕ) (path : List ℕ)
    → Chain host pid path
    → length path < 32
    → host.ppid (end_of pid path) ≡ none
    → resolve_by_ancestors host m pid ≡ none
unfolding resolve_by_ancestors
resolve_by_ancestors-unread host m pid path chain short unread =
    rw (resolve_by_ancestors, ancestors-unread host max_ancestor_depth pid path chain short unread)
      refl

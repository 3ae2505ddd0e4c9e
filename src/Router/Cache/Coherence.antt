-- ===== src/Router/Cache/Coherence.antt =====
-- Whether the cache of nyne/src/router/cache/mod.rs can be seen: files that change and are bumped, and
-- accesses that compute from them.
use mathlib.Core.Logic.{ite, if_pos, if_neg}
use nyne.Prelude.{
  ℕ, ◌+◌, ◌%◌, ◌^◌, ◌≤◌, ◌<◌, ◌≡◌, ◌≢◌, refl, sym, ap, ap₂, ◌∙◌, Option, none, some, List, [], ◌∷◌,
  arith, ◌==◌, length, Option-cases, ==_iff, inl, inr, ◌⊎◌, if_cases, ite_cases,
}
use nyne.Prelude.Maps.{lookup, insert, remove, lookup-insert, lookup-remove}
use nyne.Router.Cache.{
  generation, bump, CacheEntry, fresh, hit, store_computed, get_or_compute, invalidate,
}

pub data Op (K File C : Type 0) : Type 0 where
  change : File → C → Op K File C
  access : K → Op K File C
  drop_entry : K → Op K File C

pub record World (K File C V : Type 0) : Type 0 where
  pub content : File → C
  pub generations : List (File × ℕ)
  pub store : List (K × CacheEntry File V)

module _ {File : Type 0} (eq_path : Discrete File) where
  abbrev pub write {ℓ} : {C : Type ℓ} → (File → C) → File → C → File → C
  write content p c q = ite (eq_path p q) c (content q)

  generation-bump :
      (inner : List (File × ℕ)) (p q : File)
      → generation eq_path inner p + 1 < 2 ^ 64
      → generation eq_path (bump eq_path inner p) q
        ≡ ite (eq_path p q) (generation eq_path inner p + 1) (generation eq_path inner q)
  unfolding generation bump
  generation-bump inner p q small =
      rw (lookup-insert eq_path q p ((generation eq_path inner p + 1) % 2 ^ 64) inner)
        (ground arith)

  generation-bump_self :
      (inner : List (File × ℕ)) (p q : File)
      → p ≡ q
      → generation eq_path inner p + 1 < 2 ^ 64
      → generation eq_path (bump eq_path inner p) q ≡ generation eq_path inner q + 1
  generation-bump_self inner p q same small =
      generation-bump inner p q small
      ∙ if_pos (eq_path p q) same _ _
      ∙ ap (λ x. generation eq_path inner x + 1) same

  generation-bump_other :
      (inner : List (File × ℕ)) (p q : File)
      → p ≢ q
      → generation eq_path inner p + 1 < 2 ^ 64
      → generation eq_path (bump eq_path inner p) q ≡ generation eq_path inner q
  generation-bump_other inner p q other small =
      generation-bump inner p q small ∙ if_neg (eq_path p q) other _ _

  -- A hit is on an entry of the generation of its source.
  fresh_entry :
      {V : Type 0} (generations : List (File × ℕ)) (found : Option (CacheEntry File V)) (v : V)
      → fresh eq_path generations found ≡ some v
      → (e : CacheEntry File V) × (found ≡ some e)
        × (e.generation ≡ generation eq_path generations e.source)
        × (e.value ≡ v)
  fresh_entry generations none v h = cc
  fresh_entry generations (some e) v h =
      elim (if_cases (e.generation == generation eq_path generations e.source) (some e.value) none
        h) [
          | inl (now, this) ↦
              (e, refl, (==_iff e.generation (generation eq_path generations e.source)).0 now, cc)
          | inr (stale, no_value) ↦ cc
        ]

module _ {K File C V : Type 0} (eq_key : Discrete K) (eq_path : Discrete File) where
  module _ (compute : K → (File → C) → V × File) where
    -- The state after an operation, and its answer. A change comes with the watcher's bump.
    unfoldable pub apply : Op K File C → World K File C V → World K File C V × Option V
    apply (change p c) w = (
      record w {
        content = write eq_path w.content p c;
        generations = bump eq_path w.generations p;
      },
      none,
    )
    apply (access k) w =
        let (store, value) =
          get_or_compute eq_key eq_path w.generations w.store k (compute k w.content) in
        (record w { store = store }, some value)
    apply (drop_entry k) w = (record w { store = invalidate eq_key eq_path w.store k }, none)

    unfoldable pub answers : List (Op K File C) → World K File C V → List (Option V)
    answers [] w = []
    answers (op ∷ ops) w = let (w', answer) = apply op w in answer ∷ answers ops w'

    -- The answers without a cache.
    unfoldable pub uncached : List (Op K File C) → (File → C) → List (Option V)
    uncached [] content = []
    uncached (change p c ∷ ops) content = none ∷ uncached ops (write eq_path content p c)
    uncached (access k ∷ ops) content = some (compute k content).0 ∷ uncached ops content
    uncached (drop_entry k ∷ ops) content = none ∷ uncached ops content

    -- No generation is above the number of changes, no entry is of a later generation than its source,
    -- and an entry of the source's generation is what would be computed now.
    pub record IsCoherent (n : ℕ) (w : World K File C V) : Type 0 where
      pub bounded : (p : File) → generation eq_path w.generations p ≤ n
      pub older :
          (k : K) (e : CacheEntry File V)
          → lookup eq_key k w.store ≡ some e
          → e.generation ≤ generation eq_path w.generations e.source
      pub current :
          (k : K) (e : CacheEntry File V)
          → lookup eq_key k w.store ≡ some e
          → e.generation ≡ generation eq_path w.generations e.source
          → (e.value ≡ (compute k w.content).0) × (e.source ≡ (compute k w.content).1)

    -- What a key computes depends on the content of its source alone.
    abbrev pub IsLocal : Type 0
    IsLocal =
        (k : K) (before after : File → C)
        → before (compute k before).1 ≡ after (compute k before).1
        → compute k before ≡ compute k after

    module _ (local : IsLocal) where
      start-IsCoherent :
          (content : File → C)
          → IsCoherent 0 (record { content = content; generations = []; store = [] })
      unfolding generation lookup
      start-IsCoherent content = record {
        bounded = λ p. omega arith;
        older = λ k e h. cc;
        current = λ k e h. cc;
      }

      unchanged :
          (content : File → C) (p : File) (c : C) (k : K)
          → p ≢ (compute k content).1
          → compute k content ≡ compute k (write eq_path content p c)
      unchanged content p c k other =
          local k content (write eq_path content p c)
            (sym (if_neg (eq_path p (compute k content).1) other _ _))

      change-IsCoherent :
          (n : ℕ) (w : World K File C V) (p : File) (c : C)
          → n + 1 < 2 ^ 64
          → IsCoherent n w
          → IsCoherent (n + 1) (apply (change p c) w).0
      unfolding apply
      change-IsCoherent n w p c small good = record {
        bounded = λ q. elim (eq_path p q) [
          | yes same ↦
              omega
                (arith, generation-bump_self eq_path w.generations p q same next, good.bounded q)
          | no other ↦
              omega
                (arith, generation-bump_other eq_path w.generations p q other next, good.bounded q)
        ];
        older = λ k e h. elim (eq_path p e.source) [
          | yes same ↦ omega (
            arith,
            generation-bump_self eq_path w.generations p e.source same next,
            good.older k e h,
          )
          | no other ↦ omega (
            arith,
            generation-bump_other eq_path w.generations p e.source other next,
            good.older k e h,
          )
        ];
        current = λ k e h now. elim (eq_path p e.source) [
          | yes same ↦ absurd (
              omega (
                arith,
                now,
                generation-bump_self eq_path w.generations p e.source same next,
                good.older k e h,
              ))
          | no other ↦
              let (value, source) =
                good.current k e h
                  (now ∙ generation-bump_other eq_path w.generations p e.source other next) in
              let same = unchanged w.content p c k (λ q. other (q ∙ sym source)) in
              (value ∙ ap (λ r. r.0) same, source ∙ ap (λ r. r.1) same)
        ];
      }
        where
          next : generation eq_path w.generations p + 1 < 2 ^ 64
          next = omega (arith, small, good.bounded p)

      store-IsCoherent :
          (n : ℕ) (w : World K File C V) (k : K)
          → IsCoherent n w
          → IsCoherent n (record w {
            store = store_computed eq_key eq_path w.generations w.store k (compute k w.content);
          })
      unfolding store_computed
      store-IsCoherent n w k good = record {
        bounded = good.bounded;
        older = λ j e h. elim (entry_cases j e h) [
          | inl (same, this) ↦ rw (← this) (omega arith)
          | inr (other, old) ↦ good.older j e old
        ];
        current = λ j e h now. elim (entry_cases j e h) [
          | inl (same, this) ↦ rw (← this, same) (refl, refl)
          | inr (other, old) ↦ good.current j e old now
        ];
      }
        where
          new_entry : CacheEntry File V
          new_entry = record {
            generation = generation eq_path w.generations (compute k w.content).1;
            source = (compute k w.content).1;
            value = (compute k w.content).0;
          }

          entry_cases :
              (j : K) (e : CacheEntry File V)
              → lookup eq_key j (insert eq_key k new_entry w.store) ≡ some e
              → ((k ≡ j) × (new_entry ≡ e)) ⊎ ((k ≢ j) × (lookup eq_key j w.store ≡ some e))
          entry_cases j e h =
              elim (ite_cases (eq_key k j) _ _
                (sym (lookup-insert eq_key j k new_entry w.store) ∙ h)) [
                  | inl (same, this) ↦ inl (same, cc)
                  | inr other ↦ inr other
                ]

      hit-current :
          (n : ℕ) (w : World K File C V) (k : K) (v : V)
          → IsCoherent n w
          → hit eq_key eq_path w.generations w.store k ≡ some v
          → v ≡ (compute k w.content).0
      unfolding hit
      hit-current n w k v good h =
          let (e, found, now, this) =
            fresh_entry eq_path w.generations (lookup eq_key k w.store) v h in
          sym this ∙ (good.current k e found now).0

      access-IsCoherent :
          (n : ℕ) (w : World K File C V) (k : K)
          → IsCoherent n w
          → IsCoherent n (apply (access k) w).0
            × ((apply (access k) w).1 ≡ some (compute k w.content).0)
            × ((apply (access k) w).0.content ≡ w.content)
      unfolding apply get_or_compute
      access-IsCoherent n w k good =
          elim (Option-cases (hit eq_key eq_path w.generations w.store k)) [
            | inl miss ↦ rw (apply, get_or_compute, miss) (store-IsCoherent n w k good, refl, refl)
            | inr (v, found) ↦
                rw (apply, get_or_compute, found)
                  (good, ap some (hit-current n w k v good found), refl)
          ]

      drop-IsCoherent :
          (n : ℕ) (w : World K File C V) (k : K)
          → IsCoherent n w
          → IsCoherent n (apply (drop_entry k) w).0
      unfolding apply invalidate
      drop-IsCoherent n w k good = record {
        bounded = good.bounded;
        older = λ j e h. good.older j e (kept j e h);
        current = λ j e h. good.current j e (kept j e h);
      }
        where
          kept :
              (j : K) (e : CacheEntry File V)
              → lookup eq_key j (remove eq_key k w.store) ≡ some e
              → lookup eq_key j w.store ≡ some e
          kept j e h =
              elim (ite_cases (eq_key k j) _ _ (sym (lookup-remove eq_key j k w.store) ∙ h)) [
                | inl (same, gone) ↦ cc
                | inr (other, old) ↦ old
              ]

      answers-uncached :
          (n : ℕ) (ops : List (Op K File C)) (w : World K File C V)
          → n + length ops < 2 ^ 64
          → IsCoherent n w
          → answers ops w ≡ uncached ops w.content
      unfolding answers uncached apply
      answers-uncached n [] w small good = refl
      answers-uncached n (change p c ∷ ops) w small good = ap (◌∷◌ none) (
          answers-uncached (n + 1) ops (apply (change p c) w).0 (omega arith)
            (change-IsCoherent n w p c (omega arith) good))
      answers-uncached n (access k ∷ ops) w small good =
          let (next, answer, same) = access-IsCoherent n w k good in
          ap₂ ◌∷◌ answer (
            answers-uncached n ops (apply (access k) w).0 (omega arith) next
            ∙ ap (uncached ops) same)
      answers-uncached n (drop_entry k ∷ ops) w small good = ap (◌∷◌ none) (
          answers-uncached n ops (apply (drop_entry k) w).0 (omega arith)
            (drop-IsCoherent n w k good))

      -- The cache cannot be seen: fewer than 2^64 changes, accesses and invalidations, each change
      -- bumped with it, get the answers of computing anew each time.
      pub cache_transparent :
          (ops : List (Op K File C)) (content : File → C)
          → length ops < 2 ^ 64
          → answers ops (record { content = content; generations = []; store = [] })
            ≡ uncached ops content
      cache_transparent ops content small =
          answers-uncached 0 ops (record { content = content; generations = []; store = [] })
            (omega arith) (start-IsCoherent content)

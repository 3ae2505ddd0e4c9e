-- ===== src/Router/Tree/Build/Enough.antt =====
-- `dedup_dirs` of nyne/src/router/tree/mod.rs recurs on trees that it has merged: more fuel than the
-- tree has entries changes nothing.
use mathlib.Core.Logic.{ite}
use nyne.Prelude.{ℕ, zero, suc, ◌+◌, ◌≤◌, ◌<◌, ◌≡◌, refl, ap, ap₂, ◌∙◌, arith}
use nyne.Router.Tree.{RouteTree, tree, content, dir, capture, rest, Entries, nil, cons}
use nyne.Router.Tree.Build.{
  append_entries, merge, size, size_entries, place, dedup_loop, dedup_dirs, build,
}
use nyne.Router.Tree.Build.Distinct.{dedup_dirs-Dedups}
use nyne.Router.Tree.Build.Levels.{
  AllDistinct, BelowDistinct, below, append-BelowDistinct, size-append, size-merge,
  merge-BelowDistinct, Dedups, place-below,
}

-- Two functions that agree on the trees of fewer than `k` entries.
abbrev Agree :
    {Name Caps E : Type 0}
    → ℕ
    → (RouteTree Name Caps E → RouteTree Name Caps E)
    → (RouteTree Name Caps E → RouteTree Name Caps E)
    → Type 0
Agree {Name} {Caps} {E} k d1 d2 =
    (t : RouteTree Name Caps E) → size t < k → BelowDistinct (below t) → d1 t ≡ d2 t

module _ {Name Caps E : Type 0} (eq : Discrete Name) (k : ℕ)
    (d1 d2 : RouteTree Name Caps E → RouteTree Name Caps E) (laws : Dedups k d1)
    (agree : Agree k d1 d2) where
  place-agree :
      (name : Name) (t : RouteTree Name Caps E) (es : Entries Name Caps E)
      → AllDistinct t
      → BelowDistinct es
      → size t + size_entries es < k
      → place eq d1 name t es ≡ place eq d2 name t es
  unfolding place BelowDistinct size_entries
  place-agree name t nil h l room = refl
  place-agree name t (cons (dir m u) es) h l room =
      let merged : d1 (merge u t) ≡ d2 (merge u t) =
        agree (merge u t) (omega (arith, size-merge u t)) (merge-BelowDistinct u t l.0 h) in
      ap₂ (ite (eq m name)) (ap (λ r. cons (dir m r) es) merged)
        (ap (cons (dir m u)) (place-agree name t es h l.1 (omega arith)))
  place-agree name t (cons (content f) es) h l room =
      ap (cons (content f)) (place-agree name t es h l (omega arith))
  place-agree name t (cons (capture param u) es) h l room =
      ap (cons (capture param u)) (place-agree name t es h l.1 (omega arith))
  place-agree name t (cons (rest param u) es) h l room =
      ap (cons (rest param u)) (place-agree name t es h l.1 (omega arith))

  loop-agree :
      (acc es : Entries Name Caps E)
      → BelowDistinct acc
      → BelowDistinct es
      → size_entries acc + size_entries es ≤ k
      → dedup_loop eq d1 acc es ≡ dedup_loop eq d2 acc es
  unfolding dedup_loop BelowDistinct size_entries
  loop-agree acc nil h l room = refl
  loop-agree acc (cons (dir name t) es) h l room =
      let (deep, le) = place-below eq k d1 laws name t acc l.0 h (omega arith) in
      loop-agree (place eq d1 name t acc) es deep l.1 (omega arith)
      ∙ ap (λ r. dedup_loop eq d2 r es) (place-agree name t acc l.0 h (omega arith))
  loop-agree acc (cons (content f) es) h l room =
      loop-agree (append_entries acc (cons (content f) nil)) es
        (append-BelowDistinct acc (cons (content f) nil) h tt) l
        (omega (arith, size-append acc (cons (content f) nil)))
  loop-agree acc (cons (capture param t) es) h l room =
      loop-agree (append_entries acc (cons (capture param t) nil)) es
        (append-BelowDistinct acc (cons (capture param t) nil) h (l.0, tt)) l.1
        (omega (arith, size-append acc (cons (capture param t) nil)))
  loop-agree acc (cons (rest param t) es) h l room =
      loop-agree (append_entries acc (cons (rest param t) nil)) es
        (append-BelowDistinct acc (cons (rest param t) nil) h (l.0, tt)) l.1
        (omega (arith, size-append acc (cons (rest param t) nil)))

module _ {Name Caps E : Type 0} (eq : Discrete Name) where
  Dedups-below :
      (k n : ℕ) (d : RouteTree Name Caps E → RouteTree Name Caps E)
      → k ≤ n
      → Dedups n d
      → Dedups k d
  Dedups-below k n d le laws = record {
    distinct = λ t room h. laws.distinct t (omega arith) h;
    smaller = λ t room h. laws.smaller t (omega arith) h;
  }

  dedup_dirs-agree :
      (n m : ℕ) (t : RouteTree Name Caps E)
      → size t < n
      → size t < m
      → BelowDistinct (below t)
      → dedup_dirs eq n t ≡ dedup_dirs eq m t
  unfolding dedup_dirs size BelowDistinct
  dedup_dirs-agree zero m t small less h = absurd (omega arith)
  dedup_dirs-agree (suc n) zero t small less h = absurd (omega arith)
  dedup_dirs-agree (suc n) (suc m) (tree es cb) small less h =
      ap (λ r. tree r cb)
        (loop-agree eq (size_entries es) (dedup_dirs eq n) (dedup_dirs eq m)
          (Dedups-below (size_entries es) n (dedup_dirs eq n) (omega arith)
            (dedup_dirs-Dedups eq n))
          (λ t room deep. dedup_dirs-agree n m t (omega arith) (omega arith) deep) nil es tt h
          (omega arith))

  -- Deduplication ends: on a tree whose subtrees are built, any fuel above the number of its entries
  -- gives what `build` gives.
  pub dedup_dirs-build :
      (n : ℕ) (t : RouteTree Name Caps E)
      → BelowDistinct (below t)
      → size t < n
      → dedup_dirs eq n t ≡ build eq t
  unfolding build
  dedup_dirs-build n t h room = dedup_dirs-agree n (suc (size t)) t room (omega arith) h

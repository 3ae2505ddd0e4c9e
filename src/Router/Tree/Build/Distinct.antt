-- ===== src/Router/Tree/Build/Distinct.antt =====
-- Built route trees, nyne/src/router/tree/mod.rs: `dedup_dirs` with the calls of `TreeBuilder` that
-- give it a tree, down to every level.
use nyne.Prelude.{Option, ℕ, zero, suc, ◌≤◌, ◌<◌, ◌≡◌, arith}
use nyne.Router.Tree.{
  RouteCtx, Request, NamedNode, RouteTree, tree, content, dir, capture, rest, Entries, nil, cons,
}
use nyne.Router.Tree.Build.{size, dedup_dirs, build}
use nyne.Router.Tree.Build.Levels.{AllDistinct, BelowDistinct, below, Dedups, dedup_loop-IsLoop}

module _ {Name Caps E : Type 0} (eq : Discrete Name) where
  dedup_dirs-distinct :
      (n : ℕ) (laws : Dedups n (dedup_dirs {Caps = Caps} {E = E} eq n)) (t : RouteTree Name Caps E)
      → size t < suc n
      → BelowDistinct (below t)
      → AllDistinct (dedup_dirs eq (suc n) t) × (size (dedup_dirs eq (suc n) t) ≤ size t)
  unfolding dedup_dirs AllDistinct size
  dedup_dirs-distinct n laws (tree es cb) room h =
      let it = dedup_loop-IsLoop eq n (dedup_dirs eq n) laws nil es tt tt h (omega arith) in
      ((it.distinct, it.deep), omega (arith, it.within))

  pub dedup_dirs-Dedups : (n : ℕ) → Dedups n (dedup_dirs {Caps = Caps} {E = E} eq n)
  dedup_dirs-Dedups zero = record {
    distinct = λ t room h. absurd (omega arith);
    smaller = λ t room h. absurd (omega arith);
  }
  dedup_dirs-Dedups (suc n) =
      let laws = dedup_dirs-Dedups n in
      record {
        distinct = λ t room h. (dedup_dirs-distinct n laws t room h).0;
        smaller = λ t room h. (dedup_dirs-distinct n laws t room h).1;
      }

  pub build-AllDistinct :
      (t : RouteTree Name Caps E) → BelowDistinct (below t) → AllDistinct (build eq t)
  unfolding build
  build-AllDistinct t h = (dedup_dirs-Dedups (suc (size t))).distinct t (omega arith) h

-- The trees that a builder makes: their subtrees are made by builders too.
mutual
  pub data Built {Name Caps E : Type 0} (eq : Discrete Name) : RouteTree Name Caps E → Type 0 where
    built :
        {t : RouteTree Name Caps E} (made : RouteTree Name Caps E)
        → AllBuilt eq (below made)
        → t ≡ build eq made
        → Built eq t

  pub data AllBuilt {Name Caps E : Type 0} (eq : Discrete Name) : Entries Name Caps E → Type 0 where
    no_more : AllBuilt eq nil
    with_content :
        {f : RouteCtx Name → Request Name Caps → Option (NamedNode Name Caps)}
        {es : Entries Name Caps E}
        → AllBuilt eq es
        → AllBuilt eq (cons (content f) es)
    with_dir :
        {name : Name} {t : RouteTree Name Caps E} {es : Entries Name Caps E}
        → Built eq t
        → AllBuilt eq es
        → AllBuilt eq (cons (dir name t) es)
    with_capture :
        {param : Name} {t : RouteTree Name Caps E} {es : Entries Name Caps E}
        → Built eq t
        → AllBuilt eq es
        → AllBuilt eq (cons (capture param t) es)
    with_rest :
        {param : Name} {t : RouteTree Name Caps E} {es : Entries Name Caps E}
        → Built eq t
        → AllBuilt eq es
        → AllBuilt eq (cons (rest param t) es)

module _ {Name Caps E : Type 0} (eq : Discrete Name) where
  mutual
    unfolding BelowDistinct

    of_Built : {t : RouteTree Name Caps E} → Built eq t → AllDistinct t
    of_Built (built made subs it) = rw it (build-AllDistinct eq made (of_AllBuilt subs))

    of_AllBuilt : {es : Entries Name Caps E} → AllBuilt eq es → BelowDistinct es
    of_AllBuilt no_more = tt
    of_AllBuilt (with_content more) = of_AllBuilt more
    of_AllBuilt (with_dir sub more) = (of_Built sub, of_AllBuilt more)
    of_AllBuilt (with_capture sub more) = (of_Built sub, of_AllBuilt more)
    of_AllBuilt (with_rest sub more) = (of_Built sub, of_AllBuilt more)

  -- In a tree that a builder makes, no two directories of one level share a name, on any level.
  pub Built-AllDistinct : {t : RouteTree Name Caps E} → Built eq t → AllDistinct t
  Built-AllDistinct b = of_Built b

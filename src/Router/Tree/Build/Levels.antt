-- ===== src/Router/Tree/Build/Levels.antt =====
-- Directories by level, nyne/src/router/tree/mod.rs: what the loop of `dedup_dirs` does to the
-- entries of one level.
use mathlib.Core.Logic.{if_pos, if_neg}
use nyne.Prelude.{ℕ, suc, ◌+◌, ◌≤◌, ◌<◌, ◌≡◌, ◌≢◌, arith}
use nyne.Router.Tree.{RouteTree, tree, Entry, content, dir, capture, rest, Entries, nil, cons}
use nyne.Router.Tree.Build.{append_entries, merge, size, size_entries, place, dedup_loop}

module _ {Name Caps E : Type 0} where
  -- No directory has the name.
  abbrev pub NoDir : Name → Entries Name Caps E → Type 0
  NoDir n nil = Unit {0}
  NoDir n (cons (dir m t) es) = (n ≢ m) × NoDir n es
  NoDir n (cons (content f) es) = NoDir n es
  NoDir n (cons (capture param t) es) = NoDir n es
  NoDir n (cons (rest param t) es) = NoDir n es

  -- No two directories of one level share a name.
  abbrev pub DirsDistinct : Entries Name Caps E → Type 0
  DirsDistinct nil = Unit {0}
  DirsDistinct (cons (dir m t) es) = NoDir m es × DirsDistinct es
  DirsDistinct (cons (content f) es) = DirsDistinct es
  DirsDistinct (cons (capture param t) es) = DirsDistinct es
  DirsDistinct (cons (rest param t) es) = DirsDistinct es

  -- At each level of a tree; and at each level below some entries.
  unfoldable mutual
    pub AllDistinct : RouteTree Name Caps E → Type 0
    AllDistinct (tree es cb) = DirsDistinct es × BelowDistinct es

    pub BelowDistinct : Entries Name Caps E → Type 0
    BelowDistinct nil = Unit {0}
    BelowDistinct (cons (dir m t) es) = AllDistinct t × BelowDistinct es
    BelowDistinct (cons (content f) es) = BelowDistinct es
    BelowDistinct (cons (capture param t) es) = AllDistinct t × BelowDistinct es
    BelowDistinct (cons (rest param t) es) = AllDistinct t × BelowDistinct es

  abbrev pub below : RouteTree Name Caps E → Entries Name Caps E
  below (tree es cb) = es

  pub append-BelowDistinct :
      (es fs : Entries Name Caps E)
      → BelowDistinct es
      → BelowDistinct fs
      → BelowDistinct (append_entries es fs)
  unfolding BelowDistinct
  append-BelowDistinct nil fs h k = k
  append-BelowDistinct (cons (dir m t) es) fs h k = (h.0, append-BelowDistinct es fs h.1 k)
  append-BelowDistinct (cons (content f) es) fs h k = append-BelowDistinct es fs h k
  append-BelowDistinct (cons (capture param t) es) fs h k = (h.0, append-BelowDistinct es fs h.1 k)
  append-BelowDistinct (cons (rest param t) es) fs h k = (h.0, append-BelowDistinct es fs h.1 k)

  pub size-append :
      (es fs : Entries Name Caps E)
      → size_entries (append_entries es fs) ≡ size_entries es + size_entries fs
  unfolding size_entries
  size-append nil fs = omega arith
  size-append (cons e es) fs = omega (arith, size-append es fs)

  pub merge-BelowDistinct :
      (t u : RouteTree Name Caps E)
      → AllDistinct t
      → AllDistinct u
      → BelowDistinct (below (merge t u))
  unfolding merge AllDistinct
  merge-BelowDistinct (tree es c) (tree fs d) h k = append-BelowDistinct es fs h.1 k.1

  pub size-merge : (t u : RouteTree Name Caps E) → size (merge t u) ≡ size t + size u
  unfolding merge size
  size-merge (tree es c) (tree fs d) = size-append es fs

  NoDir-append :
      (n : Name) (es fs : Entries Name Caps E)
      → NoDir n es
      → NoDir n fs
      → NoDir n (append_entries es fs)
  NoDir-append n nil fs h k = k
  NoDir-append n (cons (dir m t) es) fs h k = (h.0, NoDir-append n es fs h.1 k)
  NoDir-append n (cons (content f) es) fs h k = NoDir-append n es fs h k
  NoDir-append n (cons (capture param t) es) fs h k = NoDir-append n es fs h k
  NoDir-append n (cons (rest param t) es) fs h k = NoDir-append n es fs h k

-- What deduplication of a tree of at most `n` entries achieves.
pub record Dedups {Name Caps E : Type 0} (n : ℕ)
    (dedup : RouteTree Name Caps E → RouteTree Name Caps E) : Type 0 where
  pub distinct :
      (t : RouteTree Name Caps E) → size t < n → BelowDistinct (below t) → AllDistinct (dedup t)
  pub smaller :
      (t : RouteTree Name Caps E) → size t < n → BelowDistinct (below t) → size (dedup t) ≤ size t

module _ {Name Caps E : Type 0} (eq : Discrete Name) (n : ℕ)
    (dedup : RouteTree Name Caps E → RouteTree Name Caps E) (laws : Dedups n dedup) where
  place-NoDir :
      (m name : Name) (t : RouteTree Name Caps E) (es : Entries Name Caps E)
      → m ≢ name
      → NoDir m es
      → NoDir m (place eq dedup name t es)
  unfolding place
  place-NoDir m name t nil other h = (other, tt)
  place-NoDir m name t (cons (dir k u) es) other h = elim (eq k name) [
    | yes same ↦ rw (if_pos (eq k name) same) h
    | no away ↦ rw (if_neg (eq k name) away) (h.0, place-NoDir m name t es other h.1)
  ]
  place-NoDir m name t (cons (content f) es) other h = place-NoDir m name t es other h
  place-NoDir m name t (cons (capture param u) es) other h = place-NoDir m name t es other h
  place-NoDir m name t (cons (rest param u) es) other h = place-NoDir m name t es other h

  place-DirsDistinct :
      (name : Name) (t : RouteTree Name Caps E) (es : Entries Name Caps E)
      → DirsDistinct es
      → DirsDistinct (place eq dedup name t es)
  unfolding place
  place-DirsDistinct name t nil h = (tt, tt)
  place-DirsDistinct name t (cons (dir k u) es) h = elim (eq k name) [
    | yes same ↦ rw (if_pos (eq k name) same) h
    | no away ↦
        rw (if_neg (eq k name) away)
          (place-NoDir k name t es away h.0, place-DirsDistinct name t es h.1)
  ]
  place-DirsDistinct name t (cons (content f) es) h = place-DirsDistinct name t es h
  place-DirsDistinct name t (cons (capture param u) es) h = place-DirsDistinct name t es h
  place-DirsDistinct name t (cons (rest param u) es) h = place-DirsDistinct name t es h

  pub place-below :
      (name : Name) (t : RouteTree Name Caps E) (es : Entries Name Caps E)
      → AllDistinct t
      → BelowDistinct es
      → size t + size_entries es < n
      → BelowDistinct (place eq dedup name t es)
        × (size_entries (place eq dedup name t es) ≤ suc (size t) + size_entries es)
  unfolding place BelowDistinct size_entries
  place-below name t nil h k room = ((h, tt), omega arith)
  place-below name t (cons (dir m u) es) h k room = elim (eq m name) [
    | yes same ↦
        let merged = merge u t in
        let small : size merged < n = omega (arith, size-merge u t) in
        let parts = merge-BelowDistinct u t k.0 h in
        rw (if_pos (eq m name) same) (
          (laws.distinct merged small parts, k.1),
          omega (arith, size-merge u t, laws.smaller merged small parts),
        )
    | no away ↦
        let (deep, le) = place-below name t es h k.1 (omega arith) in
        rw (if_neg (eq m name) away) ((k.0, deep), omega arith)
  ]
  place-below name t (cons (content f) es) h k room =
      let (deep, le) = place-below name t es h k (omega arith) in (deep, omega arith)
  place-below name t (cons (capture param u) es) h k room =
      let (deep, le) = place-below name t es h k.1 (omega arith) in ((k.0, deep), omega arith)
  place-below name t (cons (rest param u) es) h k room =
      let (deep, le) = place-below name t es h k.1 (omega arith) in ((k.0, deep), omega arith)

  DirsDistinct-append :
      (es : Entries Name Caps E) (e : Entry Name Caps E)
      → DirsDistinct es
      → ((m : Name) → NoDir m (cons e nil))
      → DirsDistinct (append_entries es (cons e nil))
  DirsDistinct-append nil (content f) h plain = tt
  DirsDistinct-append nil (capture param t) h plain = tt
  DirsDistinct-append nil (rest param t) h plain = tt
  DirsDistinct-append nil (dir m t) h plain = (tt, tt)
  DirsDistinct-append (cons (dir m t) es) e h plain =
      (NoDir-append m es (cons e nil) h.0 (plain m), DirsDistinct-append es e h.1 plain)
  DirsDistinct-append (cons (content f) es) e h plain = DirsDistinct-append es e h plain
  DirsDistinct-append (cons (capture param t) es) e h plain = DirsDistinct-append es e h plain
  DirsDistinct-append (cons (rest param t) es) e h plain = DirsDistinct-append es e h plain

  -- What the loop makes of entries that are deduplicated so far and some to come.
  pub record IsLoop (acc es result : Entries Name Caps E) : Type 0 where
    pub distinct : DirsDistinct result
    pub deep : BelowDistinct result
    pub within : size_entries result ≤ size_entries acc + size_entries es

  pub dedup_loop-IsLoop :
      (acc es : Entries Name Caps E)
      → DirsDistinct acc
      → BelowDistinct acc
      → BelowDistinct es
      → size_entries acc + size_entries es ≤ n
      → IsLoop acc es (dedup_loop eq dedup acc es)
  unfolding dedup_loop BelowDistinct size_entries
  dedup_loop-IsLoop acc nil h k l room = record { distinct = h; deep = k; within = omega arith }
  dedup_loop-IsLoop acc (cons (dir name t) es) h k l room =
      let (deep, le) = place-below name t acc l.0 k (omega arith) in
      let later =
        dedup_loop-IsLoop (place eq dedup name t acc) es (place-DirsDistinct name t acc h) deep l.1
          (omega arith) in
      record { distinct = later.distinct; deep = later.deep; within = omega (arith, later.within) }
  dedup_loop-IsLoop acc (cons (content f) es) h k l room =
      let e : Entry Name Caps E = content f in
      let grown = append_entries acc (cons e nil) in
      let total : size_entries grown ≡ size_entries acc + 1 =
        omega (arith, size-append acc (cons e nil)) in
      let later =
        dedup_loop-IsLoop grown es (DirsDistinct-append acc e h (λ m. tt))
          (append-BelowDistinct acc (cons e nil) k tt) l (omega (arith, total)) in
      record {
        distinct = later.distinct;
        deep = later.deep;
        within = omega (arith, later.within, total);
      }
  dedup_loop-IsLoop acc (cons (capture param t) es) h k l room =
      let e : Entry Name Caps E = capture param t in
      let grown = append_entries acc (cons e nil) in
      let total : size_entries grown ≡ size_entries acc + suc (size t) =
        omega (arith, size-append acc (cons e nil)) in
      let later =
        dedup_loop-IsLoop grown es (DirsDistinct-append acc e h (λ m. tt))
          (append-BelowDistinct acc (cons e nil) k (l.0, tt)) l.1 (omega (arith, total)) in
      record {
        distinct = later.distinct;
        deep = later.deep;
        within = omega (arith, later.within, total);
      }
  dedup_loop-IsLoop acc (cons (rest param t) es) h k l room =
      let e : Entry Name Caps E = rest param t in
      let grown = append_entries acc (cons e nil) in
      let total : size_entries grown ≡ size_entries acc + suc (size t) =
        omega (arith, size-append acc (cons e nil)) in
      let later =
        dedup_loop-IsLoop grown es (DirsDistinct-append acc e h (λ m. tt))
          (append-BelowDistinct acc (cons e nil) k (l.0, tt)) l.1 (omega (arith, total)) in
      record {
        distinct = later.distinct;
        deep = later.deep;
        within = omega (arith, later.within, total);
      }

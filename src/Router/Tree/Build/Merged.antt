-- ===== src/Router/Tree/Build/Merged.antt =====
-- What `build` of nyne/src/router/tree/mod.rs keeps of directories that are registered several times.
use mathlib.Core.Logic.{ite, if_pos, if_neg}
use nyne.Prelude.{
  ℕ, zero, suc, ◌≡◌, refl, ap, sym, ◌∙◌, Bool, true, false, Option, none, some, List, [], ◌++◌,
  append-nil, append_assoc, if◌then◌else◌,
}
use nyne.Router.Tree.{
  Act, RouteCtx, RouteTree, tree, Callbacks, callbacks, Entry, content, dir, capture, rest, Entries,
  nil, cons,
}
use nyne.Router.Tree.Build.{
  later_handler, append_entries, merge_callbacks, merge, size, place, dedup_loop, dedup_dirs, build,
}
use nyne.Router.Tree.Build.Levels.{below}

-- The later of two, if there is one.
abbrev pub in_favour {ℓ} : {A : Type ℓ} → Option A → Option A → Option A
in_favour none before = before
in_favour (some h) before = some h

in_favour-later_handler :
    {A : Type 0} (last old new : Option A)
    → in_favour last (later_handler old new) ≡ in_favour (in_favour last new) old
in_favour-later_handler (some h) old new = refl
in_favour-later_handler none old none = refl
in_favour-later_handler none old (some h) = refl

module _ {Name Caps E : Type 0} (eq : Discrete Name) where
  -- The callbacks of one registration joined to those of the ones before it.
  abbrev pub joined :
      Option (Callbacks Name Caps E) → Callbacks Name Caps E → Option (Callbacks Name Caps E)
  joined none c = some c
  joined (some b) c = some (merge_callbacks b c)

  -- The callbacks of all directories of a name, in the order of registration.
  unfoldable pub registered :
      Name → Option (Callbacks Name Caps E) → Entries Name Caps E → Option (Callbacks Name Caps E)
  registered name acc nil = acc
  registered name acc (cons (dir m t) es) =
      ite (eq m name) (registered name (joined acc (callbacks t)) es) (registered name acc es)
  registered name acc (cons (content f) es) = registered name acc es
  registered name acc (cons (capture param t) es) = registered name acc es
  registered name acc (cons (rest param t) es) = registered name acc es

  -- The callbacks of the first directory of a name.
  unfoldable pub first_callbacks : Name → Entries Name Caps E → Option (Callbacks Name Caps E)
  first_callbacks name nil = none
  first_callbacks name (cons (dir m t) es) =
      ite (eq m name) (some (callbacks t)) (first_callbacks name es)
  first_callbacks name (cons (content f) es) = first_callbacks name es
  first_callbacks name (cons (capture param t) es) = first_callbacks name es
  first_callbacks name (cons (rest param t) es) = first_callbacks name es

  first_callbacks-append :
      (name : Name) (es : Entries Name Caps E) (e : Entry Name Caps E)
      → ((acc : Entries Name Caps E) → first_callbacks name (cons e acc) ≡ first_callbacks name acc)
      → first_callbacks name (append_entries es (cons e nil)) ≡ first_callbacks name es
  unfolding first_callbacks
  first_callbacks-append name nil e plain = plain nil
  first_callbacks-append name (cons (dir m t) es) e plain =
      ap (ite (eq m name) (some (callbacks t))) (first_callbacks-append name es e plain)
  first_callbacks-append name (cons (content f) es) e plain = first_callbacks-append name es e plain
  first_callbacks-append name (cons (capture param t) es) e plain =
      first_callbacks-append name es e plain
  first_callbacks-append name (cons (rest param t) es) e plain =
      first_callbacks-append name es e plain

  callbacks-merge :
      (t u : RouteTree Name Caps E)
      → callbacks (merge t u) ≡ merge_callbacks (callbacks t) (callbacks u)
  unfolding merge
  callbacks-merge (tree es c) (tree fs d) = refl

  module _ (dedup : RouteTree Name Caps E → RouteTree Name Caps E)
      (same : (t : RouteTree Name Caps E) → callbacks (dedup t) ≡ callbacks t) where
    first_callbacks-place :
        (name m : Name) (t : RouteTree Name Caps E) (es : Entries Name Caps E)
        → first_callbacks name (place eq dedup m t es)
          ≡ ite
              (eq m name)
              (joined (first_callbacks name es) (callbacks t))
              (first_callbacks name es)
    unfolding first_callbacks place
    first_callbacks-place name m t nil = refl
    first_callbacks-place name m t (cons (dir k u) es) = elim (eq k m) [
      | yes here ↦ elim (eq k name) [
        | yes at ↦
            rw (if_pos (eq k m) here, if_pos (eq m name) (sym here ∙ at))
              (if_pos (eq k name) at _ _
                ∙ ap some (same (merge u t) ∙ callbacks-merge u t)
                ∙ ap (λ o. joined o (callbacks t)) (sym (if_pos (eq k name) at _ _)))
        | no other ↦
            rw (if_pos (eq k m) here, if_neg (eq m name) (λ at. other (here ∙ at)))
              (if_neg (eq k name) other _ _ ∙ sym (if_neg (eq k name) other _ _))
      ]
      | no away ↦ elim (eq k name) [
        | yes at ↦
            rw (if_neg (eq k m) away, if_neg (eq m name) (λ h. away (at ∙ sym h)))
              (if_pos (eq k name) at _ _ ∙ sym (if_pos (eq k name) at _ _))
        | no other ↦ rw (if_neg (eq k m) away) (
            if_neg (eq k name) other _ _
            ∙ first_callbacks-place name m t es
            ∙ ap (λ o. ite (eq m name) (joined o (callbacks t)) o)
                (sym (if_neg (eq k name) other _ _)))
      ]
    ]
    first_callbacks-place name m t (cons (content f) es) = first_callbacks-place name m t es
    first_callbacks-place name m t (cons (capture param u) es) = first_callbacks-place name m t es
    first_callbacks-place name m t (cons (rest param u) es) = first_callbacks-place name m t es

    first_callbacks-loop :
        (name : Name) (acc es : Entries Name Caps E)
        → first_callbacks name (dedup_loop eq dedup acc es)
          ≡ registered name (first_callbacks name acc) es
    unfolding first_callbacks registered dedup_loop
    first_callbacks-loop name acc nil = refl
    first_callbacks-loop name acc (cons (dir m t) es) =
        first_callbacks-loop name (place eq dedup m t acc) es
        ∙ ap (λ o. registered name o es) (first_callbacks-place name m t acc)
        ∙ sym
            (elim (eq m name)
              as (λ d.
                ite d (registered name (joined (first_callbacks name acc) (callbacks t)) es)
                  (registered name (first_callbacks name acc) es)
                ≡ registered name
                    (ite d (joined (first_callbacks name acc) (callbacks t))
                      (first_callbacks name acc))
                    es) [ yes at ↦ refl | no away ↦ refl ])
    first_callbacks-loop name acc (cons (content f) es) =
        first_callbacks-loop name (append_entries acc (cons (content f) nil)) es
        ∙ ap (λ o. registered name o es)
            (first_callbacks-append name acc (content f) (λ rest_of. refl))
    first_callbacks-loop name acc (cons (capture param t) es) =
        first_callbacks-loop name (append_entries acc (cons (capture param t) nil)) es
        ∙ ap (λ o. registered name o es)
            (first_callbacks-append name acc (capture param t) (λ rest_of. refl))
    first_callbacks-loop name acc (cons (rest param t) es) =
        first_callbacks-loop name (append_entries acc (cons (rest param t) nil)) es
        ∙ ap (λ o. registered name o es)
            (first_callbacks-append name acc (rest param t) (λ rest_of. refl))

  callbacks-dedup_dirs :
      (fuel : ℕ) (t : RouteTree Name Caps E) → callbacks (dedup_dirs eq fuel t) ≡ callbacks t
  unfolding dedup_dirs
  callbacks-dedup_dirs zero t = refl
  callbacks-dedup_dirs (suc fuel) (tree es c) = refl

  -- One list of callbacks of all directories of a name, appended in the order of registration.
  abbrev pub lists :
      {A : Type 0} → (Callbacks Name Caps E → List A) → Name → Entries Name Caps E → List A
  lists field name nil = []
  lists field name (cons (dir m t) es) =
      ite (eq m name) (field (callbacks t) ++ lists field name es) (lists field name es)
  lists field name (cons (content f) es) = lists field name es
  lists field name (cons (capture param t) es) = lists field name es
  lists field name (cons (rest param t) es) = lists field name es

  -- The handler of the last directory of a name that has one.
  abbrev pub last_handler :
      Name → Entries Name Caps E → Option (RouteCtx Name → Act Name Caps E → Act Name Caps E)
  last_handler name nil = none
  last_handler name (cons (dir m t) es) =
      ite (eq m name) (in_favour (last_handler name es) (callbacks t).handler)
        (last_handler name es)
  last_handler name (cons (content f) es) = last_handler name es
  last_handler name (cons (capture param t) es) = last_handler name es
  last_handler name (cons (rest param t) es) = last_handler name es

  abbrev pub joint : Name → Entries Name Caps E → Callbacks Name Caps E
  joint name es = record {
    handler = last_handler name es;
    on_readdir = lists (λ c. c.on_readdir) name es;
    on_lookup = lists (λ c. c.on_lookup) name es;
    on_create = lists (λ c. c.on_create) name es;
    on_op = lists (λ c. c.on_op) name es;
  }

  -- The callbacks `b` joined with those of all directories of a name.
  abbrev after : Callbacks Name Caps E → Name → Entries Name Caps E → Callbacks Name Caps E
  after b name es = record {
    handler = in_favour (last_handler name es) b.handler;
    on_readdir = b.on_readdir ++ lists (λ c. c.on_readdir) name es;
    on_lookup = b.on_lookup ++ lists (λ c. c.on_lookup) name es;
    on_create = b.on_create ++ lists (λ c. c.on_create) name es;
    on_op = b.on_op ++ lists (λ c. c.on_op) name es;
  }

  after-nil : (b : Callbacks Name Caps E) (name : Name) → after b name nil ≡ b
  after-nil b name = λ i. record {
    handler = b.handler;
    on_readdir = append-nil b.on_readdir i;
    on_lookup = append-nil b.on_lookup i;
    on_create = append-nil b.on_create i;
    on_op = append-nil b.on_op i;
  }

  after-merge_callbacks :
      (b c : Callbacks Name Caps E) (name : Name) (es : Entries Name Caps E)
      → after (merge_callbacks b c) name es ≡ record {
        handler = in_favour (in_favour (last_handler name es) c.handler) b.handler;
        on_readdir = b.on_readdir ++ (c.on_readdir ++ lists (λ d. d.on_readdir) name es);
        on_lookup = b.on_lookup ++ (c.on_lookup ++ lists (λ d. d.on_lookup) name es);
        on_create = b.on_create ++ (c.on_create ++ lists (λ d. d.on_create) name es);
        on_op = b.on_op ++ (c.on_op ++ lists (λ d. d.on_op) name es);
      }
  unfolding merge_callbacks
  after-merge_callbacks b c name es = λ i. record {
    handler = in_favour-later_handler (last_handler name es) b.handler c.handler i;
    on_readdir = append_assoc b.on_readdir c.on_readdir (lists (λ d. d.on_readdir) name es) i;
    on_lookup = append_assoc b.on_lookup c.on_lookup (lists (λ d. d.on_lookup) name es) i;
    on_create = append_assoc b.on_create c.on_create (lists (λ d. d.on_create) name es) i;
    on_op = append_assoc b.on_op c.on_op (lists (λ d. d.on_op) name es) i;
  }

  registered-after :
      (name : Name) (b : Callbacks Name Caps E) (es : Entries Name Caps E)
      → registered name (some b) es ≡ some (after b name es)
  unfolding registered
  registered-after name b nil = ap some (sym (after-nil b name))
  registered-after name b (cons (content f) es) = registered-after name b es
  registered-after name b (cons (capture param t) es) = registered-after name b es
  registered-after name b (cons (rest param t) es) = registered-after name b es
  registered-after name b (cons (dir m t) es) = elim (eq m name) [
    | yes at ↦
        rw
          (
            if_pos (eq m name) at,
            if_pos (eq m name) at,
            if_pos (eq m name) at,
            if_pos (eq m name) at,
            if_pos (eq m name) at,
            if_pos (eq m name) at,
          )
          (registered-after name (merge_callbacks b (callbacks t)) es
            ∙ ap some (after-merge_callbacks b (callbacks t) name es))
    | no away ↦
        rw
          (
            if_neg (eq m name) away,
            if_neg (eq m name) away,
            if_neg (eq m name) away,
            if_neg (eq m name) away,
            if_neg (eq m name) away,
            if_neg (eq m name) away,
          )
          (registered-after name b es)
  ]

  -- Whether there is a directory of a name.
  abbrev pub named : Name → Entries Name Caps E → Bool
  named name nil = false
  named name (cons (dir m t) es) = ite (eq m name) true (named name es)
  named name (cons (content f) es) = named name es
  named name (cons (capture param t) es) = named name es
  named name (cons (rest param t) es) = named name es

  registered-joint :
      (name : Name) (es : Entries Name Caps E)
      → registered name none es ≡ (if named name es then some (joint name es) else none)
  unfolding registered
  registered-joint name nil = refl
  registered-joint name (cons (content f) es) = registered-joint name es
  registered-joint name (cons (capture param t) es) = registered-joint name es
  registered-joint name (cons (rest param t) es) = registered-joint name es
  registered-joint name (cons (dir m t) es) = elim (eq m name) [
    | yes at ↦
        rw
          (
            if_pos (eq m name) at,
            if_pos (eq m name) at,
            if_pos (eq m name) at,
            if_pos (eq m name) at,
            if_pos (eq m name) at,
            if_pos (eq m name) at,
            if_pos (eq m name) at,
          )
          (registered-after name (callbacks t) es)
    | no away ↦
        rw
          (
            if_neg (eq m name) away,
            if_neg (eq m name) away,
            if_neg (eq m name) away,
            if_neg (eq m name) away,
            if_neg (eq m name) away,
            if_neg (eq m name) away,
            if_neg (eq m name) away,
          )
          (registered-joint name es)
  ]

  -- In a built tree the first directory of a name has the callbacks of all directories that were
  -- registered under it: each of their four lists appended in the order of registration, and the last
  -- handler that there is. If none was registered, the built tree has no directory of the name. The
  -- callbacks of the tree itself stay.
  pub build-registered :
      (name : Name) (t : RouteTree Name Caps E)
      → (first_callbacks name (below (build eq t))
          ≡ (if named name (below t) then some (joint name (below t)) else none))
        × (callbacks (build eq t) ≡ callbacks t)
  unfolding build dedup_dirs first_callbacks
  build-registered name (tree es c) = (
    first_callbacks-loop (dedup_dirs eq (size (tree es c)))
          (callbacks-dedup_dirs (size (tree es c))) name nil es
        ∙ registered-joint name es,
    refl,
  )

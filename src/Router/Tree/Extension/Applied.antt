-- ===== src/Router/Tree/Extension/Applied.antt =====
-- What applying extensions to a builder gives: nyne/src/router/tree/extension/mod.rs.
use nyne.Prelude.{
  Bool, ◌≡◌, refl, ap, ap₂, sym, ◌∙◌, Option, none, some, List, [], ◌++◌, subst, append_assoc,
  append-nil,
}
use nyne.Router.Tree.{RouteCtx, Act, Op, Callbacks, RouteTree, tree, Entries, nil, cons}
use nyne.Router.Tree.Build.{append_entries, merge_callbacks, merge, later_handler, build}
use nyne.Router.Tree.Build.Distinct.{
  built, AllBuilt, no_more, with_content, with_dir, with_capture, with_rest, Built-AllDistinct,
}
use nyne.Router.Tree.Build.Levels.{below, AllDistinct}
use nyne.Router.Tree.Extension.{
  ExtensionCallbacks, RouteExtension, extension, ExtensionEntry, own_content, own_dir, own_capture,
  own_rest, ExtensionEntries, no_entries, and_entry, new_builder, push_entry, register, append_own,
  merge_extensions, apply_to, apply_entry, apply_entries,
}

later_handler_assoc :
    {A : Type 0} (a b c : Option A)
    → later_handler (later_handler a b) c ≡ later_handler a (later_handler b c)
later_handler_assoc a b none = refl
later_handler_assoc a b (some c) = refl

module _ {Name Caps E : Type 0} where
  append_entries_assoc :
      (es fs gs : Entries Name Caps E)
      → append_entries (append_entries es fs) gs ≡ append_entries es (append_entries fs gs)
  append_entries_assoc nil fs gs = refl
  append_entries_assoc (cons e es) fs gs = ap (cons e) (append_entries_assoc es fs gs)

  -- The callbacks of an extension, as those of a tree.
  abbrev pub own_callbacks : ExtensionCallbacks Name Caps E → Callbacks Name Caps E
  own_callbacks x = record {
    handler = x.handler;
    on_readdir = x.on_readdir;
    on_lookup = x.on_lookup;
    on_create = [];
    on_op = [];
  }

  abbrev of_parts :
      Option (RouteCtx Name → Act Name Caps E → Act Name Caps E)
      → List (RouteCtx Name → Act Name Caps E)
      → List (RouteCtx Name → Name → Act Name Caps E)
      → List (RouteCtx Name → Name → Act Name Caps E)
      → List ((Op Name → Bool) × (RouteCtx Name → Act Name Caps E → Act Name Caps E))
      → Callbacks Name Caps E
  of_parts h rd lk cr op = record {
    handler = h;
    on_readdir = rd;
    on_lookup = lk;
    on_create = cr;
    on_op = op;
  }

  same_callbacks :
      (c d : Callbacks Name Caps E)
      → c.handler ≡ d.handler
      → c.on_readdir ≡ d.on_readdir
      → c.on_lookup ≡ d.on_lookup
      → c.on_create ≡ d.on_create
      → c.on_op ≡ d.on_op
      → c ≡ d
  same_callbacks c d h rd lk cr op =
      ap (λ r. of_parts r c.on_readdir c.on_lookup c.on_create c.on_op) h
      ∙ ap (λ r. of_parts d.handler r c.on_lookup c.on_create c.on_op) rd
      ∙ ap (λ r. of_parts d.handler d.on_readdir r c.on_create c.on_op) lk
      ∙ ap (λ r. of_parts d.handler d.on_readdir d.on_lookup r c.on_op) cr
      ∙ ap (λ r. of_parts d.handler d.on_readdir d.on_lookup d.on_create r) op

  append_entries-nil : (es : Entries Name Caps E) → append_entries es nil ≡ es
  append_entries-nil nil = refl
  append_entries-nil (cons e es) = ap (cons e) (append_entries-nil es)

  merge_assoc : (t u v : RouteTree Name Caps E) → merge (merge t u) v ≡ merge t (merge u v)
  unfolding merge merge_callbacks
  merge_assoc (tree es c) (tree fs d) (tree gs b) = ap₂ tree (append_entries_assoc es fs gs) (
      same_callbacks (merge_callbacks (merge_callbacks c d) b)
        (merge_callbacks c (merge_callbacks d b))
        (later_handler_assoc c.handler d.handler b.handler)
        (append_assoc c.on_readdir d.on_readdir b.on_readdir)
        (append_assoc c.on_lookup d.on_lookup b.on_lookup)
        (append_assoc c.on_create d.on_create b.on_create) (append_assoc c.on_op d.on_op b.on_op))

module _ {Name Caps E : Type 0} (eq : Discrete Name) where
  abbrev pub own_entries : ExtensionEntries Name Caps E → Entries Name Caps E
  own_entries no_entries = nil
  own_entries (and_entry e es) = cons (apply_entry eq e) (own_entries es)

  -- The tree that an extension stands for.
  abbrev pub own_tree : RouteExtension Name Caps E → RouteTree Name Caps E
  own_tree (extension es x) = tree (own_entries es) (own_callbacks x)

  apply_entries-append :
      (es : ExtensionEntries Name Caps E) (ds : Entries Name Caps E) (c : Callbacks Name Caps E)
      → apply_entries eq es (tree ds c) ≡ tree (append_entries ds (own_entries es)) c
  unfolding apply_entries push_entry
  apply_entries-append no_entries ds c = ap (λ r. tree r c) (sym (append_entries-nil ds))
  apply_entries-append (and_entry e es) ds c =
      apply_entries-append es (append_entries ds (cons (apply_entry eq e) nil)) c
      ∙ ap (λ r. tree r c) (append_entries_assoc ds (cons (apply_entry eq e) nil) (own_entries es))

  apply_to-own_tree :
      (x : RouteExtension Name Caps E) (d : RouteTree Name Caps E)
      → apply_to eq x d ≡ merge d (own_tree x)
  unfolding apply_to register merge merge_callbacks
  apply_to-own_tree (extension es x) (tree ds c) =
      apply_entries-append es ds (record c {
        on_readdir = c.on_readdir ++ x.on_readdir;
        on_lookup = c.on_lookup ++ x.on_lookup;
        handler = later_handler c.handler x.handler;
      })
      ∙ ap (tree (append_entries ds (own_entries es))) (
          same_callbacks
            (record c {
              on_readdir = c.on_readdir ++ x.on_readdir;
              on_lookup = c.on_lookup ++ x.on_lookup;
              handler = later_handler c.handler x.handler;
            })
            (merge_callbacks c (own_callbacks x)) refl refl refl (sym (append-nil c.on_create))
            (sym (append-nil c.on_op)))

  own_entries-append :
      (es fs : ExtensionEntries Name Caps E)
      → own_entries (append_own es fs) ≡ append_entries (own_entries es) (own_entries fs)
  unfolding append_own
  own_entries-append no_entries fs = refl
  own_entries-append (and_entry e es) fs = ap (cons (apply_entry eq e)) (own_entries-append es fs)

  own_tree-merge :
      (x y : RouteExtension Name Caps E)
      → own_tree (merge_extensions x y) ≡ merge (own_tree x) (own_tree y)
  unfolding merge_extensions merge merge_callbacks
  own_tree-merge (extension es x) (extension fs y) =
      ap (λ r. tree r (merge_callbacks (own_callbacks x) (own_callbacks y)))
        (own_entries-append es fs)

  -- Applying two merged extensions to a builder is applying the one and then the other.
  pub apply_to-merge_extensions :
      (x y : RouteExtension Name Caps E) (d : RouteTree Name Caps E)
      → apply_to eq (merge_extensions x y) d ≡ apply_to eq y (apply_to eq x d)
  apply_to-merge_extensions x y d =
      apply_to-own_tree (merge_extensions x y) d
      ∙ ap (merge d) (own_tree-merge x y)
      ∙ sym (merge_assoc d (own_tree x) (own_tree y))
      ∙ ap (λ t. merge t (own_tree y)) (sym (apply_to-own_tree x d))
      ∙ sym (apply_to-own_tree y (apply_to eq x d))

  append-AllBuilt :
      {es fs : Entries Name Caps E}
      → AllBuilt eq es
      → AllBuilt eq fs
      → AllBuilt eq (append_entries es fs)
  append-AllBuilt no_more h = h
  append-AllBuilt (with_content more) h = with_content (append-AllBuilt more h)
  append-AllBuilt (with_dir sub more) h = with_dir sub (append-AllBuilt more h)
  append-AllBuilt (with_capture sub more) h = with_capture sub (append-AllBuilt more h)
  append-AllBuilt (with_rest sub more) h = with_rest sub (append-AllBuilt more h)

  merged-AllBuilt :
      (d t : RouteTree Name Caps E)
      → AllBuilt eq (below d)
      → AllBuilt eq (below t)
      → AllBuilt eq (below (merge d t))
  unfolding merge
  merged-AllBuilt (tree ds c) (tree es b) h k = append-AllBuilt h k

  mutual
    unfolding apply_entry

    applied :
        (x : RouteExtension Name Caps E) (d : RouteTree Name Caps E)
        → AllBuilt eq (below d)
        → AllBuilt eq (below (apply_to eq x d))
    applied (extension es x) d h =
        subst (λ t. AllBuilt eq (below t)) (sym (apply_to-own_tree (extension es x) d))
          (merged-AllBuilt d (own_tree (extension es x)) h (all_applied es))

    all_applied : (es : ExtensionEntries Name Caps E) → AllBuilt eq (own_entries es)
    all_applied no_entries = no_more
    all_applied (and_entry e es) = one_applied e (own_entries es) (all_applied es)

    one_applied :
        (e : ExtensionEntry Name Caps E) (rest_of : Entries Name Caps E)
        → AllBuilt eq rest_of
        → AllBuilt eq (cons (apply_entry eq e) rest_of)
    one_applied (own_content f) rest_of h = with_content h
    one_applied (own_dir name sub) rest_of h =
        with_dir (built (apply_to eq sub new_builder) (applied sub new_builder no_more) refl) h
    one_applied (own_capture param sub) rest_of h =
        with_capture (built (apply_to eq sub new_builder) (applied sub new_builder no_more) refl) h
    one_applied (own_rest param sub) rest_of h =
        with_rest (built (apply_to eq sub new_builder) (applied sub new_builder no_more) refl) h

  -- The tree built after an extension is applied to a builder has no two directories of one name on
  -- any level, those of the extension included.
  pub apply_to-AllDistinct :
      (x : RouteExtension Name Caps E) (d : RouteTree Name Caps E)
      → AllBuilt eq (below d)
      → AllDistinct (build eq (apply_to eq x d))
  apply_to-AllDistinct x d h = Built-AllDistinct eq (built (apply_to eq x d) (applied x d h) refl)

-- ===== src/Router/Tree/Extension.antt =====
-- Route extensions, nyne/src/router/tree/extension/mod.rs: callbacks that a plugin registers for the tree
-- of another. A builder has the fields of the tree that it makes.
pub mod Applied
pub mod Tests
use nyne.Prelude.{Bool, true, false, ◌&&◌, Option, none, some, List, [], ◌∷◌, ◌++◌}
use nyne.Router.Tree.{
  Act, RouteCtx, Request, NamedNode, Callbacks, RouteTree, tree, Entry, content, dir, capture, rest,
  Entries, nil, cons,
}
use nyne.Router.Tree.Build.{append_entries, later_handler, build}

-- The handlers of an extension, by the operation that they answer.
pub record ExtensionCallbacks (Name Caps E : Type 0) : Type 0 where
  pub on_readdir : List (RouteCtx Name → Act Name Caps E)
  pub on_lookup : List (RouteCtx Name → Name → Act Name Caps E)
  pub handler : Option (RouteCtx Name → Act Name Caps E → Act Name Caps E)

mutual
  pub data RouteExtension (Name Caps E : Type 0) : Type 0 where
    extension :
        ExtensionEntries Name Caps E → ExtensionCallbacks Name Caps E → RouteExtension Name Caps E

  pub data ExtensionEntry (Name Caps E : Type 0) : Type 0 where
    own_content :
        (RouteCtx Name → Request Name Caps → Option (NamedNode Name Caps))
        → ExtensionEntry Name Caps E
    own_dir own_capture own_rest : Name → RouteExtension Name Caps E → ExtensionEntry Name Caps E

  pub data ExtensionEntries (Name Caps E : Type 0) : Type 0 where
    no_entries : ExtensionEntries Name Caps E
    and_entry :
        ExtensionEntry Name Caps E → ExtensionEntries Name Caps E → ExtensionEntries Name Caps E

module _ {Name Caps E : Type 0} where
  abbrev pub no_callbacks : Callbacks Name Caps E
  no_callbacks = record {
    handler = none;
    on_readdir = [];
    on_lookup = [];
    on_create = [];
    on_op = [];
  }

  -- `TreeBuilder::new`.
  abbrev pub new_builder : RouteTree Name Caps E
  new_builder = tree nil no_callbacks

  unfoldable pub push_entry : Entry Name Caps E → RouteTree Name Caps E → RouteTree Name Caps E
  push_entry e (tree es cb) = tree (append_entries es (cons e nil)) cb

  unfoldable pub register :
      ExtensionCallbacks Name Caps E → RouteTree Name Caps E → RouteTree Name Caps E
  register x (tree es cb) = tree es (record cb {
    on_readdir = cb.on_readdir ++ x.on_readdir;
    on_lookup = cb.on_lookup ++ x.on_lookup;
    handler = later_handler cb.handler x.handler;
  })

  unfoldable pub append_own :
      ExtensionEntries Name Caps E → ExtensionEntries Name Caps E → ExtensionEntries Name Caps E
  append_own no_entries fs = fs
  append_own (and_entry e es) fs = and_entry e (append_own es fs)

  unfoldable pub merge_extensions :
      RouteExtension Name Caps E → RouteExtension Name Caps E → RouteExtension Name Caps E
  merge_extensions (extension es x) (extension fs y) = extension (append_own es fs) (record {
    on_readdir = x.on_readdir ++ y.on_readdir;
    on_lookup = x.on_lookup ++ y.on_lookup;
    handler = later_handler x.handler y.handler;
  })

module _ {Name Caps E : Type 0} (eq : Discrete Name) where
  -- `apply_to`, whose subtrees are built as `TreeBuilder::dir`, `capture` and `rest` do.
  unfoldable mutual
    pub apply_to : RouteExtension Name Caps E → RouteTree Name Caps E → RouteTree Name Caps E
    apply_to (extension es x) d = apply_entries es (register x d)

    pub apply_entry : ExtensionEntry Name Caps E → Entry Name Caps E
    apply_entry (own_content f) = content f
    apply_entry (own_dir name sub) = dir name (build eq (apply_to sub new_builder))
    apply_entry (own_capture param sub) = capture param (build eq (apply_to sub new_builder))
    apply_entry (own_rest param sub) = rest param (build eq (apply_to sub new_builder))

    pub apply_entries : ExtensionEntries Name Caps E → RouteTree Name Caps E → RouteTree Name Caps E
    apply_entries no_entries d = d
    apply_entries (and_entry e es) d = apply_entries es (push_entry (apply_entry e) d)

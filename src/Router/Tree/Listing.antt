-- ===== src/Router/Tree/Listing.antt =====
-- What a query of the route tree of nyne/src/router/tree/mod.rs answers, and when the chain goes on.
use nyne.Prelude.{◌≡◌, refl, true, false, Option, none, some, List}
use nyne.Router.Tree.{
  is_query, Request, Act, RouteCtx, Callbacks, RouteTree, Entries, and_then, guarded,
  on_create_claimed, run_op_callbacks, emitted, auto_emit, dispatch_into_rest, own_part,
  handle_here, callbacks, entries,
}

module _ {Name Caps E : Type 0} (eq : Discrete Name) (merge : Caps → Caps → Caps) (dir_caps : Caps)
    (join : List Name → Name) where
  after_own :
      (es : Entries Name Caps E) (ctx : RouteCtx Name) (o : Request Name Caps × Option E)
      → is_query o.0.op ≡ false
      → and_then
          (and_then o (dispatch_into_rest eq merge dir_caps join es ctx))
          (emitted eq merge dir_caps join es ctx)
        ≡ o
  unfolding dispatch_into_rest auto_emit
  after_own es ctx (req, some e) changes = refl
  after_own es ctx (req, none) changes = rw (changes, changes) refl

  -- On an operation that changes the tree, `handle_here` does what the handler or the callbacks and the
  -- chain do, and nothing more.
  pub handle_here-mutation :
      (t : RouteTree Name Caps E) (ctx : RouteCtx Name) (next : Act Name Caps E)
      (req : Request Name Caps)
      → is_query (own_part eq merge dir_caps join (callbacks t) ctx next req).0.op ≡ false
      → handle_here eq merge dir_caps join t ctx next req
        ≡ own_part eq merge dir_caps join (callbacks t) ctx next req
  unfolding handle_here
  handle_here-mutation t ctx next req changes =
      after_own (entries t) ctx (own_part eq merge dir_caps join (callbacks t) ctx next req) changes

  -- The request without an error.
  abbrev pub done : Request Name Caps → Request Name Caps × Option E
  done req = (req, none)

  -- Without a handler for it, a creation whose callbacks leave a node of the name does not reach the chain.
  pub own_part-claimed :
      (cb : Callbacks Name Caps E) (ctx : RouteCtx Name) (next : Act Name Caps E)
      (req after : Request Name Caps)
      → cb.handler ≡ none
      → guarded cb.on_op req.op ≡ none
      → run_op_callbacks eq cb ctx req ≡ done after
      → on_create_claimed eq after ≡ true
      → own_part eq merge dir_caps join cb ctx next req ≡ done after
  unfolding own_part
  own_part-claimed cb ctx next req after unowned unguarded contributed claimed =
      rw (own_part, unowned, unguarded, contributed, claimed) refl

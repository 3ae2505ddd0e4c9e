-- ===== src/Router/Tree.antt =====
-- The route tree of nyne/src/router/tree/mod.rs, with the operations of nyne/src/router/pipeline/request.rs
-- and the accumulator of nodes of nyne/src/router/node/mod.rs. Names are compared by a `Discrete` key;
-- capabilities and how two nodes of one name merge theirs are parameters, as is `join("/")`. The
-- provider is part of the functions that a tree holds.
pub mod Build
pub mod Extension
pub mod Listing
pub mod Nodes
pub mod Tests
use mathlib.Core.Logic.{ite}
use nyne.Prelude.{Bool, true, false, not, Option, none, some, List, [], ◌∷◌, ◌++◌, if◌then◌else◌}

pub data Op (Name : Type 0) : Type 0 where
  readdir : Op Name
  lookup : Name → Op Name
  create : Name → Op Name
  mkdir : Name → Op Name
  remove : Name → Op Name
  rename : Name → List Name → Name → Op Name

unfoldable pub is_query : {Name : Type 0} → Op Name → Bool
is_query readdir = true
is_query (lookup name) = true
is_query _ = false

unfoldable pub target_name : {Name : Type 0} → Op Name → Option Name
target_name readdir = none
target_name (lookup name) = some name
target_name (create name) = some name
target_name (mkdir name) = some name
target_name (remove name) = some name
target_name (rename src_name target_dir target) = some src_name

pub record NamedNode (Name Caps : Type 0) : Type 0 where
  pub name : Name
  pub caps : Caps

pub record Request (Name Caps : Type 0) : Type 0 where
  pub op : Op Name
  pub nodes : List (NamedNode Name Caps)

-- What runs on a request: the request afterwards, and an error. `Next` runs the rest of the chain.
abbrev pub Act : Type 0 → Type 0 → Type 0 → Type 0
Act Name Caps E = Request Name Caps → Request Name Caps × Option E

-- The parameters captured so far.
abbrev pub RouteCtx : Type 0 → Type 0
RouteCtx Name = List (Name × Name)

pub record Callbacks (Name Caps E : Type 0) : Type 0 where
  pub handler : Option (RouteCtx Name → Act Name Caps E → Act Name Caps E)
  pub on_readdir : List (RouteCtx Name → Act Name Caps E)
  pub on_lookup : List (RouteCtx Name → Name → Act Name Caps E)
  pub on_create : List (RouteCtx Name → Name → Act Name Caps E)
  pub on_op : List ((Op Name → Bool) × (RouteCtx Name → Act Name Caps E → Act Name Caps E))

mutual
  pub data RouteTree (Name Caps E : Type 0) : Type 0 where
    tree : Entries Name Caps E → Callbacks Name Caps E → RouteTree Name Caps E

  pub data Entry (Name Caps E : Type 0) : Type 0 where
    content : (RouteCtx Name → Request Name Caps → Option (NamedNode Name Caps)) → Entry Name Caps E
    dir : Name → RouteTree Name Caps E → Entry Name Caps E
    capture : Name → RouteTree Name Caps E → Entry Name Caps E
    rest : Name → RouteTree Name Caps E → Entry Name Caps E

  pub data Entries (Name Caps E : Type 0) : Type 0 where
    nil : Entries Name Caps E
    cons : Entry Name Caps E → Entries Name Caps E → Entries Name Caps E

abbrev pub is_nil : {A : Type 0} → List A → Bool
is_nil [] = true
is_nil (x ∷ xs) = false

abbrev pub one_segment : {Name : Type 0} → Option Name → List Name
one_segment none = []
one_segment (some n) = n ∷ []

module _ {Name Caps E : Type 0} where
  abbrev pub entries : RouteTree Name Caps E → Entries Name Caps E
  entries (tree es cb) = es

  abbrev pub callbacks : RouteTree Name Caps E → Callbacks Name Caps E
  callbacks (tree es cb) = cb

  -- `?`: an error ends the run.
  abbrev pub and_then :
      Request Name Caps × Option E → Act Name Caps E → Request Name Caps × Option E
  and_then (req, none) act = act req
  and_then (req, some e) act = (req, some e)

  unfoldable pub run_all : {A : Type 0} → (A → Act Name Caps E) → List A → Act Name Caps E
  run_all f [] req = (req, none)
  run_all f (x ∷ xs) req = and_then (f x req) (run_all f xs)

  -- The first handler whose guard accepts the operation.
  unfoldable pub guarded :
      List ((Op Name → Bool) × (RouteCtx Name → Act Name Caps E → Act Name Caps E))
      → Op Name
      → Option (RouteCtx Name → Act Name Caps E → Act Name Caps E)
  guarded [] op = none
  guarded (gh ∷ rest_of_list) op = if gh.0 op then some gh.1 else guarded rest_of_list op

module _ {Name Caps : Type 0} (eq : Discrete Name) where
  -- `NodeAccumulator::find` and `retain` by name.
  unfoldable pub find : Name → List (NamedNode Name Caps) → Option (NamedNode Name Caps)
  find name [] = none
  find name (n ∷ ns) = ite (eq n.name name) (some n) (find name ns)

  unfoldable pub retain : Name → List (NamedNode Name Caps) → List (NamedNode Name Caps)
  retain name [] = []
  retain name (n ∷ ns) = ite (eq n.name name) (n ∷ retain name ns) (retain name ns)

  abbrev pub is_found : Option (NamedNode Name Caps) → Bool
  is_found none = false
  is_found (some n) = true

  abbrev claimed_op : Op Name → List (NamedNode Name Caps) → Bool
  claimed_op (create name) nodes = is_found (find name nodes)
  claimed_op _ nodes = false

  unfoldable pub on_create_claimed : Request Name Caps → Bool
  on_create_claimed req = claimed_op req.op req.nodes

  -- A node for a query: any for a listing, the one of the name for a lookup.
  abbrev pub kept : Option Name → Option (NamedNode Name Caps) → List (NamedNode Name Caps)
  kept wanted none = []
  kept none (some node) = node ∷ []
  kept (some name) (some node) = ite (eq node.name name) (node ∷ []) []

module _ {Name Caps : Type 0} (eq : Discrete Name) (merge : Caps → Caps → Caps) where
  -- `NodeAccumulator::add`.
  unfoldable pub add : NamedNode Name Caps → List (NamedNode Name Caps) → List (NamedNode Name Caps)
  add node [] = node ∷ []
  add node (n ∷ ns) =
      ite (eq n.name node.name) (record n { caps = merge n.caps node.caps } ∷ ns) (n ∷ add node ns)

  unfoldable pub add_all :
      List (NamedNode Name Caps) → List (NamedNode Name Caps) → List (NamedNode Name Caps)
  add_all [] ns = ns
  add_all (x ∷ xs) ns = add_all xs (add x ns)

module _ {Name Caps E : Type 0} (eq : Discrete Name) where
  abbrev retained : Name → Request Name Caps → Request Name Caps × Option E
  retained name req = (record req { nodes = retain eq name req.nodes }, none)

  abbrev lookup_callbacks : Callbacks Name Caps E → RouteCtx Name → Name → Act Name Caps E
  lookup_callbacks cb ctx name =
      if is_nil cb.on_lookup
      then (if is_nil cb.on_readdir
          then (λ req. (req, none))
          else (λ req. and_then (run_all (λ f. f ctx) cb.on_readdir req) (retained name)))
      else run_all (λ f. f ctx name) cb.on_lookup

  abbrev callbacks_for : Op Name → Callbacks Name Caps E → RouteCtx Name → Act Name Caps E
  callbacks_for readdir cb ctx = run_all (λ f. f ctx) cb.on_readdir
  callbacks_for (lookup name) cb ctx = lookup_callbacks cb ctx name
  callbacks_for (remove name) cb ctx = run_all (λ f. f ctx name) cb.on_lookup
  callbacks_for (create name) cb ctx = run_all (λ f. f ctx name) cb.on_create
  callbacks_for (mkdir name) cb ctx = λ req. (req, none)
  callbacks_for (rename src target_dir target) cb ctx = λ req. (req, none)

  unfoldable pub run_op_callbacks : Callbacks Name Caps E → RouteCtx Name → Act Name Caps E
  run_op_callbacks cb ctx req = callbacks_for req.op cb ctx req

  module _ (merge : Caps → Caps → Caps) (dir_caps : Caps) (join : List Name → Name) where
    abbrev pub offered :
        Entry Name Caps E → RouteCtx Name → Request Name Caps → Option (NamedNode Name Caps)
    offered (content content_fn) ctx req = content_fn ctx req
    offered (dir name sub) ctx req = some (record { name = name; caps = dir_caps })
    offered (capture param sub) ctx req = none
    offered (rest param sub) ctx req = none

    unfoldable pub collect_auto_nodes :
        Entries Name Caps E → RouteCtx Name → Request Name Caps → List (NamedNode Name Caps)
    collect_auto_nodes nil ctx req = []
    collect_auto_nodes (cons e es) ctx req =
        kept eq (target_name req.op) (offered e ctx req) ++ collect_auto_nodes es ctx req

    unfoldable pub auto_emit :
        Entries Name Caps E → RouteCtx Name → Request Name Caps → Request Name Caps
    auto_emit es ctx req =
        if is_query req.op
        then record req { nodes = add_all eq merge (collect_auto_nodes es ctx req) req.nodes }
        else req

    unfoldable pub rest_callbacks :
        Entries Name Caps E → RouteCtx Name → List Name → Act Name Caps E
    rest_callbacks nil ctx segments req = (req, none)
    rest_callbacks (cons (rest param sub) es) ctx segments req =
        and_then (run_op_callbacks (callbacks sub) (ctx ++ (param, join segments) ∷ []) req)
          (rest_callbacks es ctx segments)
    rest_callbacks (cons (content content_fn) es) ctx segments req =
        rest_callbacks es ctx segments req
    rest_callbacks (cons (dir name sub) es) ctx segments req = rest_callbacks es ctx segments req
    rest_callbacks (cons (capture param sub) es) ctx segments req =
        rest_callbacks es ctx segments req

    unfoldable pub dispatch_into_rest : Entries Name Caps E → RouteCtx Name → Act Name Caps E
    dispatch_into_rest es ctx req =
        if is_query req.op
        then rest_callbacks es ctx (one_segment (target_name req.op)) req
        else (req, none)

    abbrev contributed : Act Name Caps E → Act Name Caps E
    contributed next req = if on_create_claimed eq req then (req, none) else next req

    -- Steps 1 to 3 of `handle_here`.
    unfoldable pub own_part :
        Callbacks Name Caps E → RouteCtx Name → Act Name Caps E → Act Name Caps E
    own_part cb ctx next req = elim cb.handler [
      | some handler ↦ handler ctx next req
      | none ↦ elim (guarded cb.on_op req.op) [
        | some handler ↦ handler ctx next req
        | none ↦ and_then (run_op_callbacks cb ctx req) (contributed next)
      ]
    ]

    abbrev pub emitted : Entries Name Caps E → RouteCtx Name → Act Name Caps E
    emitted es ctx req = (auto_emit es ctx req, none)

    unfoldable pub handle_here :
        RouteTree Name Caps E → RouteCtx Name → Act Name Caps E → Act Name Caps E
    handle_here t ctx next req =
        and_then
          (and_then (own_part (callbacks t) ctx next req) (dispatch_into_rest (entries t) ctx))
          (emitted (entries t) ctx)

    -- The first directory of the name.
    unfoldable pub find_dir : Name → Entries Name Caps E → Option (RouteTree Name Caps E)
    find_dir head nil = none
    find_dir head (cons (dir name sub) es) = ite (eq name head) (some sub) (find_dir head es)
    find_dir head (cons (content content_fn) es) = find_dir head es
    find_dir head (cons (capture param sub) es) = find_dir head es
    find_dir head (cons (rest param sub) es) = find_dir head es

    -- The first capture, of one segment or of all the rest.
    unfoldable pub find_dynamic : Entries Name Caps E → Option (Entry Name Caps E)
    find_dynamic nil = none
    find_dynamic (cons (capture param sub) es) = some (capture param sub)
    find_dynamic (cons (rest param sub) es) = some (rest param sub)
    find_dynamic (cons (content content_fn) es) = find_dynamic es
    find_dynamic (cons (dir name sub) es) = find_dynamic es

    unfoldable pub dispatch_at :
        List Name → RouteTree Name Caps E → RouteCtx Name → Act Name Caps E → Act Name Caps E
    dispatch_at [] t ctx next req = handle_here t ctx next req
    dispatch_at (head ∷ tail) t ctx next req = elim (find_dir head (entries t)) [
      | some sub ↦ dispatch_at tail sub ctx next req
      | none ↦ elim (find_dynamic (entries t)) [
        | none ↦ next req
        | some (capture param sub) ↦ dispatch_at tail sub (ctx ++ (param, head) ∷ []) next req
        | some (rest param sub) ↦ handle_here sub (ctx ++ (param, join (head ∷ tail)) ∷ []) next req
        | some (content content_fn) ↦ next req
        | some (dir name sub) ↦ next req
      ]
    ]

    unfoldable pub dispatch : RouteTree Name Caps E → List Name → Act Name Caps E → Act Name Caps E
    dispatch t segments next req = dispatch_at segments t [] next req

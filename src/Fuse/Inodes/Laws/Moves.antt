-- ===== src/Fuse/Inodes/Laws/Moves.antt =====
-- What the FUSE handlers see of `InodeMap`: stable numbers for entries (`ensure_inode` of
-- nyne/src/fuse/ops.rs) and their move by a rename (`do_rename` of nyne/src/fuse/mutations.rs).
use nyne.Prelude.{
  ℕ, ◌≡◌, ◌≢◌, refl, ◌∙◌, sym, ap, Option, none, some, List, [], ◌∷◌, inl, inr, Bool-cases,
  Option-cases,
}
use mathlib.Core.Logic.{if_pos, if_neg}
use nyne.Fuse.Slab.{Slab}
use nyne.Prelude.Maps.{lookup, lookup-insert}
use nyne.Router.Node.{CachePolicy}
use nyne.Fuse.Inodes.{
  InodeEntry, InodeMap, get, new, new_entry, allocate, find_inode, update, ensure_inode, bind_node,
  bound_node, bound_in, expire, touch, extend, renewed, is_expired,
}
use nyne.Fuse.Inodes.Laws.Index.{
  place, IsIndexed, new-IsIndexed, allocate-IsIndexed, relocate-IsIndexed, put-IsIndexed,
  by_path-allocate, lookup-relocate, get-relocate_self,
}

module _ {Dir Name Node : Type 0} (S : Slab (InodeEntry Dir Name Node))
    (eq : Discrete (Dir × Name)) where
  -- The key of an entry in the index.
  abbrev pub key : Dir → Name → Dir × Name
  key dir name = (dir, name)

  -- The end of `do_rename`: the inode of the source entry, if it has one, goes to the new place.
  unfoldable pub rename_inode : InodeMap S → Dir → Name → Dir → Name → ℕ → InodeMap S
  rename_inode m src_dir name dst_dir newname newparent = elim (find_inode S eq m src_dir name) [
    | none ↦ m
    | some ino ↦ (update S eq m ino dst_dir newname newparent).0
  ]

  find-allocate :
      (m : InodeMap S) (e : InodeEntry Dir Name Node)
      → lookup eq (place S eq e) (allocate S eq m e).0.by_path ≡ some (allocate S eq m e).1
  find-allocate m e = rw (by_path-allocate S eq m e) (
      lookup-insert eq (place S eq e) (place S eq e) (allocate S eq m e).1 m.by_path
      ∙ if_pos (eq (place S eq e) (place S eq e)) refl _ _)

  find-ensure :
      (m : InodeMap S) (dir : Dir) (name : Name) (parent : ℕ)
      → let (m', ino) = ensure_inode S eq m dir name parent in
        find_inode S eq m' dir name ≡ some ino
  unfolding ensure_inode
  find-ensure m dir name parent = elim (Option-cases (find_inode S eq m dir name)) [
    | inr (ino, found) ↦ rw (found, ensure_inode) found
    | inl missing ↦
        rw (missing, ensure_inode)
          (unfold find_inode in find-allocate m (new_entry dir name parent))
  ]

  ensure-found :
      (m : InodeMap S) (dir : Dir) (name : Name) (parent ino : ℕ)
      → find_inode S eq m dir name ≡ some ino
      → ensure_inode S eq m dir name parent ≡ (m, ino)
  unfolding ensure_inode
  ensure-found m dir name parent ino found = rw (found, ensure_inode)

  -- The number that `ensure_inode` gives for an entry is what the index finds from then on, and asking
  -- again changes nothing.
  pub ensure-again :
      (m : InodeMap S) (dir : Dir) (name : Name) (parent other_parent : ℕ)
      → let (m', ino) = ensure_inode S eq m dir name parent in
        (find_inode S eq m' dir name ≡ some ino)
        × (ensure_inode S eq m' dir name other_parent ≡ (m', ino))
  ensure-again m dir name parent other_parent = (
    find-ensure m dir name parent,
    ensure-found _ dir name other_parent _ (find-ensure m dir name parent),
  )

  pub ensure-IsIndexed :
      (m : InodeMap S) (dir : Dir) (name : Name) (parent : ℕ)
      → IsIndexed S eq m
      → IsIndexed S eq (ensure_inode S eq m dir name parent).0
  unfolding ensure_inode
  ensure-IsIndexed m dir name parent v = elim (Option-cases (find_inode S eq m dir name)) [
    | inr (ino, found) ↦ rw (found, ensure_inode) v
    | inl missing ↦
        rw (missing, ensure_inode) (allocate-IsIndexed S eq m (new_entry dir name parent) v)
  ]

  -- Two entries never share a number.
  pub find-injective :
      (m : InodeMap S) (d e : Dir) (n p : Name) (ino : ℕ)
      → IsIndexed S eq m
      → find_inode S eq m d n ≡ some ino
      → find_inode S eq m e p ≡ some ino
      → key d n ≡ key e p
  unfolding find_inode
  find-injective m d e n p ino v h k =
      let (x, found_x, at_x) = v (d, n) ino h in
      let (y, found_y, at_y) = v (e, p) ino k in
      let same : x ≡ y = cc in sym at_x ∙ (ap (place S eq) same ∙ at_y)

  update-IsIndexed :
      (m : InodeMap S) (ino : ℕ) (dir : Dir) (name : Name) (parent : ℕ)
      → IsIndexed S eq m
      → IsIndexed S eq (update S eq m ino dir name parent).0
  unfolding update
  update-IsIndexed m ino dir name parent v = elim (Option-cases (get S m ino)) [
    | inl missing ↦ rw (missing, update) v
    | inr (old, found) ↦
        rw (found, update) (relocate-IsIndexed S eq m ino old dir name parent found v)
  ]

  -- A rename moves the number of the source entry to the target, where it replaces the number that
  -- was there; the source is free, and every other entry keeps its number.
  pub find-rename_inode :
      (m : InodeMap S) (src_dir : Dir) (name : Name) (dst_dir : Dir) (newname : Name)
      (newparent ino : ℕ)
      → IsIndexed S eq m
      → find_inode S eq m src_dir name ≡ some ino
      → key dst_dir newname ≢ key src_dir name
      → let m' = rename_inode m src_dir name dst_dir newname newparent in
        (find_inode S eq m' dst_dir newname ≡ some ino)
        × (find_inode S eq m' src_dir name ≡ none)
        × ((d : Dir) (n : Name)
            → key dst_dir newname ≢ key d n
            → key src_dir name ≢ key d n
            → find_inode S eq m' d n ≡ find_inode S eq m d n)
        × ((e : InodeEntry Dir Name Node)
            → get S m ino ≡ some e
            → get S m' ino
              ≡ some (record e { dir_path = dst_dir; name = newname; parent_inode = newparent }))
  unfolding rename_inode update find_inode
  find-rename_inode m src_dir name dst_dir newname newparent ino v found differ =
      let (old, found_e, at) = v (key src_dir name) ino found in
      let looked = lookup-relocate S eq m ino old dst_dir newname newparent found_e in
      rw (found, rename_inode, found_e, update)
        (
          looked (key dst_dir newname)
              ∙ if_pos (eq (key dst_dir newname) (key dst_dir newname)) refl _ _,
          looked (key src_dir name)
              ∙ (if_neg (eq (key dst_dir newname) (key src_dir name)) differ _ _
                  ∙ if_pos (eq (place S eq old) (key src_dir name)) at _ _),
          λ d n not_dst not_src.
              looked (key d n)
              ∙ (if_neg (eq (key dst_dir newname) (key d n)) not_dst _ _
                  ∙ if_neg (eq (place S eq old) (key d n)) (λ same. not_src (sym at ∙ same)) _ _),
          λ e found_it.
              let same : old ≡ e = cc in
              rw (← same) (get-relocate_self S eq m ino old dst_dir newname newparent found_e),
        )

  rename-IsIndexed :
      (m : InodeMap S) (src_dir : Dir) (name : Name) (dst_dir : Dir) (newname : Name)
      (newparent : ℕ)
      → IsIndexed S eq m
      → IsIndexed S eq (rename_inode m src_dir name dst_dir newname newparent)
  unfolding rename_inode
  rename-IsIndexed m src_dir name dst_dir newname newparent v =
      elim (Option-cases (find_inode S eq m src_dir name)) [
        | inl missing ↦ rw (missing, rename_inode) v
        | inr (ino, found) ↦
            rw (found, rename_inode) (update-IsIndexed m ino dst_dir newname newparent v)
      ]

  bound-IsIndexed :
      (m : InodeMap S) (now ino : ℕ) → IsIndexed S eq m → IsIndexed S eq (bound_node S m now ino).0
  unfolding bound_node
  bound-IsIndexed m now ino v = elim (Option-cases (get S m ino)) [
    | inl missing ↦ rw (missing, bound_node) v
    | inr (e, found) ↦ rw (found, bound_node) (in_place e e.node found)
  ]
    where
      in_place :
          (e : InodeEntry Dir Name Node) (n : Option Node)
          → get S m ino ≡ some e
          → IsIndexed S eq (bound_in S m now ino e n).0
      in_place e none found = unfold bound_in in v
      in_place e (some n) found =
          unfold bound_in expire in
          elim (Bool-cases (is_expired now e.expires_at)) [
            | inl past ↦ rw past (put-IsIndexed S eq m ino e _ found refl v)
            | inr lasts ↦ rw lasts v
          ]

  -- The operations of the map, in any order.
  pub data Op : Type 0 where
    ensure : Dir → Name → ℕ → Op
    rename : Dir → Name → Dir → Name → ℕ → Op
    bind : ℕ → ℕ → Node → Op
    resolve : ℕ → ℕ → Op
    refresh : ℕ → ℕ → Op

  module _ (cache_policy : Node → CachePolicy) where
    unfoldable pub apply : InodeMap S → Op → InodeMap S
    apply m (ensure dir name parent) = (ensure_inode S eq m dir name parent).0
    apply m (rename src_dir name dst_dir newname newparent) =
        rename_inode m src_dir name dst_dir newname newparent
    apply m (bind now ino node) = bind_node S cache_policy m now ino node
    apply m (resolve now ino) = (bound_node S m now ino).0
    apply m (refresh now ino) = touch S cache_policy m now ino

    unfoldable pub run : InodeMap S → List Op → InodeMap S
    run m [] = m
    run m (op ∷ ops) = run (apply m op) ops

    bind-IsIndexed :
        (m : InodeMap S) (now ino : ℕ) (n : Node)
        → IsIndexed S eq m
        → IsIndexed S eq (bind_node S cache_policy m now ino n)
    unfolding bind_node
    bind-IsIndexed m now ino n v = elim (Option-cases (get S m ino)) [
      | inl missing ↦ rw (missing, bind_node) v
      | inr (e, found) ↦ rw (found, bind_node) (put-IsIndexed S eq m ino e _ found refl v)
    ]

    touch-IsIndexed :
        (m : InodeMap S) (now ino : ℕ)
        → IsIndexed S eq m
        → IsIndexed S eq (touch S cache_policy m now ino)
    unfolding touch extend
    touch-IsIndexed m now ino v = elim (Option-cases (get S m ino)) [
      | inl missing ↦ rw (missing, touch) v
      | inr (e, found) ↦ elim (Option-cases (renewed S cache_policy now e.node)) [
        | inl unbound ↦ rw (found, touch, unbound) v
        | inr (t, bound) ↦ rw (found, touch, bound) (put-IsIndexed S eq m ino e _ found refl v)
      ]
    ]

    apply-IsIndexed : (m : InodeMap S) (op : Op) → IsIndexed S eq m → IsIndexed S eq (apply m op)
    unfolding apply
    apply-IsIndexed m (ensure dir name parent) v = ensure-IsIndexed m dir name parent v
    apply-IsIndexed m (rename src_dir name dst_dir newname newparent) v =
        rename-IsIndexed m src_dir name dst_dir newname newparent v
    apply-IsIndexed m (bind now ino node) v = bind-IsIndexed m now ino node v
    apply-IsIndexed m (resolve now ino) v = bound-IsIndexed m now ino v
    apply-IsIndexed m (refresh now ino) v = touch-IsIndexed m now ino v

    -- After any operations on an empty map, whatever the index finds for an entry is an inode that
    -- stands at that entry.
    pub run-IsIndexed : (ops : List Op) → IsIndexed S eq (run (new S) ops)
    unfolding run
    run-IsIndexed ops = keep ops (new S) (new-IsIndexed S eq)
      where
        keep : (ops : List Op) (m : InodeMap S) → IsIndexed S eq m → IsIndexed S eq (run m ops)
        keep [] m v = v
        keep (op ∷ ops) m v = keep ops (apply m op) (apply-IsIndexed m op v)

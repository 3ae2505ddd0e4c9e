-- ===== src/Fuse/Inodes/Laws/Index.antt =====
-- The reverse index of `InodeMap` (nyne/src/fuse/inode_map/mod.rs) and the entries agree.
use nyne.Prelude.{
  ℕ, ◌+◌, ◌≡◌, ◌≢◌, refl, ◌∙◌, sym, ap, none, some, inl, inr, Option-cases, ne→==, ==-of_eq,
  ite_cases,
}
use mathlib.Core.Logic.{ite}
use native.Mathlib.Decide.{ℕ_discrete}
use nyne.Fuse.Slab.{Slab}
use nyne.Prelude.Maps.{lookup, remove, insert, lookup-remove, lookup-insert}
use nyne.Fuse.Inodes.{
  InodeEntry, InodeMap, inode_to_index, inode_offset, get, put, new, allocate, relocate,
}
use nyne.Fuse.Inodes.Laws.{
  inode_to_index-add, get_at, get_below, get-put_self, get-put_other, by_path-put, get-by_path,
}

module _ {Dir Name Node : Type 0} (S : Slab (InodeEntry Dir Name Node))
    (eq : Discrete (Dir × Name)) where
  abbrev pub place : InodeEntry Dir Name Node → Dir × Name
  place e = (e.dir_path, e.name)

  -- Whatever the index finds is an inode whose entry stands at that place.
  abbrev pub IsIndexed : InodeMap S → Type 0
  IsIndexed m =
      (k : Dir × Name) (ino : ℕ)
      → lookup eq k m.by_path ≡ some ino
      → (e : InodeEntry Dir Name Node) × (get S m ino ≡ some e) × (place e ≡ k)

  pub new-IsIndexed : IsIndexed (new S)
  unfolding new lookup
  new-IsIndexed k ino h = cc

  get-allocate_self :
      (m : InodeMap S) (e : InodeEntry Dir Name Node)
      → let (m', ino) = allocate S eq m e in get S m' ino ≡ some e
  unfolding allocate
  get-allocate_self m e =
      let idx = (S.insert m.slab e).1 in
      get_at S _ (idx + inode_offset) idx (inode_to_index-add idx)
      ∙ (S.get-insert m.slab e idx ∙ rw (==-of_eq idx idx refl))

  -- No inode is ever removed or given out again.
  pub get-allocate_old :
      (m : InodeMap S) (e : InodeEntry Dir Name Node) (ino : ℕ) (old : InodeEntry Dir Name Node)
      → get S m ino ≡ some old
      → get S (allocate S eq m e).0 ino ≡ some old
  unfolding allocate
  get-allocate_old m e ino old found = elim (Option-cases (inode_to_index ino)) [
    | inl low ↦ cc (get_below S m ino low)
    | inr (i, at) ↦
        let there : S.get m.slab i ≡ some old = sym (get_at S m ino i at) ∙ found in
        let differ : i ≢ (S.insert m.slab e).1 = λ same.
          absurd_some (sym (S.get-fresh m.slab e) ∙ (ap (S.get m.slab) (sym same) ∙ there)) in
        get_at S _ ino i at ∙ (S.get-insert m.slab e i ∙ rw (ne→== i _ differ) there)
  ]
    where
      absurd_some : none ≡ some old → ⊥
      absurd_some h = cc

  pub by_path-allocate :
      (m : InodeMap S) (e : InodeEntry Dir Name Node)
      → let (m', ino) = allocate S eq m e in m'.by_path ≡ insert eq (place e) ino m.by_path
  unfolding allocate
  by_path-allocate m e = refl

  pub allocate-IsIndexed :
      (m : InodeMap S) (e : InodeEntry Dir Name Node)
      → IsIndexed m
      → IsIndexed (allocate S eq m e).0
  allocate-IsIndexed m e v k ino h =
      elim (ite_cases (eq (place e) k) (some new_ino) (lookup eq k m.by_path) looked_up) [
        | inl (same, it) ↦
            let this : new_ino ≡ ino = cc in (e, rw (← this) (get-allocate_self m e), same)
        | inr (other, it) ↦
            let (old, found, at) = v k ino it in (old, get-allocate_old m e ino old found, at)
      ]
    where
      new_ino : ℕ
      new_ino = (allocate S eq m e).1

      looked_up : ite (eq (place e) k) (some new_ino) (lookup eq k m.by_path) ≡ some ino
      looked_up =
          sym (lookup-insert eq k (place e) new_ino m.by_path) ∙ (rw (by_path-allocate m e) at h)

  -- A change of an entry that leaves it in its place.
  pub put-IsIndexed :
      (m : InodeMap S) (ino : ℕ) (old e : InodeEntry Dir Name Node)
      → get S m ino ≡ some old
      → place e ≡ place old
      → IsIndexed m
      → IsIndexed (put S m ino e)
  put-IsIndexed m ino old e found same v k j h =
      let (there, at_j, at) = v k j (rw (by_path-put S m ino e) at h) in
      elim (ℕ_discrete j ino) [
        | yes p ↦
            let whole : there ≡ old = cc in
            (e, rw p (get-put_self S m ino old e found), same ∙ (ap place (sym whole) ∙ at))
        | no q ↦ (there, get-put_other S m ino e j q ∙ at_j, at)
      ]

  by_path-relocate :
      (m : InodeMap S) (ino : ℕ) (old : InodeEntry Dir Name Node) (dir_path : Dir) (name : Name)
      (parent : ℕ)
      → (relocate S eq m ino old dir_path name parent).by_path
        ≡ insert eq (dir_path, name) ino (remove eq (place old) m.by_path)
  unfolding relocate
  by_path-relocate m ino old dir_path name parent = by_path-put S _ ino _

  module _ (m : InodeMap S) (ino : ℕ) (old : InodeEntry Dir Name Node) (dir_path : Dir)
      (name : Name) (parent : ℕ) (found : get S m ino ≡ some old) where
    abbrev pub moved_entry : InodeEntry Dir Name Node
    moved_entry = record old { dir_path = dir_path; name = name; parent_inode = parent }

    pub get-relocate_self :
        get S (relocate S eq m ino old dir_path name parent) ino ≡ some moved_entry
    unfolding relocate
    get-relocate_self = get-put_self S _ ino old moved_entry (get-by_path S m _ ino ∙ found)

    pub get-relocate_other :
        (j : ℕ) → j ≢ ino → get S (relocate S eq m ino old dir_path name parent) j ≡ get S m j
    unfolding relocate
    get-relocate_other j other = get-put_other S _ ino _ j other ∙ get-by_path S m _ j

    pub lookup-relocate :
        (k : Dir × Name)
        → lookup eq k (relocate S eq m ino old dir_path name parent).by_path
          ≡ ite
              (eq (dir_path, name) k)
              (some ino)
              (ite (eq (place old) k) none (lookup eq k m.by_path))
    lookup-relocate k = rw (by_path-relocate m ino old dir_path name parent) (
        lookup-insert eq k (dir_path, name) ino _
        ∙ ap (ite (eq (dir_path, name) k) (some ino)) (lookup-remove eq k (place old) m.by_path))

    pub relocate-IsIndexed : IsIndexed m → IsIndexed (relocate S eq m ino old dir_path name parent)
    relocate-IsIndexed v k j h =
        elim (ite_cases (eq (dir_path, name) k) (some ino)
          (ite (eq (place old) k) none (lookup eq k m.by_path)) (sym (lookup-relocate k) ∙ h)) [
            | inl (same, it) ↦
                let this : ino ≡ j = cc in (moved_entry, rw (← this) get-relocate_self, same)
            | inr (_, rest) ↦
                elim (ite_cases (eq (place old) k) none (lookup eq k m.by_path) rest) [
                  | inl (_, it) ↦ cc
                  | inr (away, it) ↦
                      let (e, at_j, at) = v k j it in
                      let differ : j ≢ ino =
                        λ same. let whole : old ≡ e = cc in away (ap place whole ∙ at) in
                      (e, get-relocate_other j differ ∙ at_j, at)
                ]
          ]

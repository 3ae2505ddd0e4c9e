-- ===== src/Fuse/Inodes/Laws.antt =====
-- The operations of `InodeMap` (nyne/src/fuse/inode_map/mod.rs) on entries and on the reverse index.
pub mod Index
pub mod Moves
pub mod Bound
use nyne.Prelude.{
  ℕ, ◌+◌, ◌-◌, ◌≤◌, ◌<◌, ◌≡◌, ◌≢◌, refl, ◌∙◌, sym, ap, Bool, true, false, Option, none, some, List,
  [], ◌∷◌, arith, ◌==◌, if◌then◌else◌, map_option, ltb, inl, inr, Option-cases, ne→==, ==-of_eq,
  ◌⊎◌,
}
use mathlib.Core.Logic.{ite}
use nyne.Fuse.Slab.{Slab}
use nyne.Fuse.Inodes.{InodeEntry, InodeMap, inode_to_index, inode_offset, get, put}

-- Inode numbers are slab keys from `INODE_OFFSET` on.
pub inode_to_index-add : (i : ℕ) → inode_to_index (i + inode_offset) ≡ some i
unfolding inode_to_index
inode_to_index-add i = ground arith

pub of_index : (inode i : ℕ) → inode_to_index inode ≡ some i → inode ≡ i + inode_offset
unfolding inode_to_index
of_index inode i h = ground arith

module _ {Dir Name Node : Type 0} (S : Slab (InodeEntry Dir Name Node)) where
  pub get_at :
      (m : InodeMap S) (inode i : ℕ)
      → inode_to_index inode ≡ some i
      → get S m inode ≡ S.get m.slab i
  unfolding get
  get_at m inode i at = rw (at, get)

  pub get_below : (m : InodeMap S) (inode : ℕ) → inode_to_index inode ≡ none → get S m inode ≡ none
  unfolding get
  get_below m inode low = rw (low, get)

  pub get-put_self :
      (m : InodeMap S) (inode : ℕ) (old e : InodeEntry Dir Name Node)
      → get S m inode ≡ some old
      → get S (put S m inode e) inode ≡ some e
  unfolding put
  get-put_self m inode old e found = elim (Option-cases (inode_to_index inode)) [
    | inl low ↦ cc (get_below m inode low)
    | inr (i, at) ↦
        let found_at : S.get m.slab i ≡ some old = sym (get_at m inode i at) ∙ found in
        rw (
          at,
          put,
          get_at (record m { slab = S.put m.slab i e }) inode i at,
          S.get-put m.slab i e i,
          ==-of_eq i i refl,
          found_at,
        )
  ]

  pub get-put_other :
      (m : InodeMap S) (inode : ℕ) (e : InodeEntry Dir Name Node) (j : ℕ)
      → j ≢ inode
      → get S (put S m inode e) j ≡ get S m j
  unfolding put
  get-put_other m inode e j other = elim (Option-cases (inode_to_index inode)) [
    | inl low ↦ rw (low, put)
    | inr (i, at) ↦
        rw (at, put)
          (elim (Option-cases (inode_to_index j)) [
            | inl low ↦ get_below _ j low ∙ sym (get_below m j low)
            | inr (k, at_k) ↦
                let differ : k ≢ i = omega (arith, of_index inode i at, of_index j k at_k) in
                get_at _ j k at_k
                ∙ (S.get-put m.slab i e k ∙ (rw (ne→== k i differ) (sym (get_at m j k at_k))))
          ])
  ]

  pub by_path-put :
      (m : InodeMap S) (inode : ℕ) (e : InodeEntry Dir Name Node)
      → (put S m inode e).by_path ≡ m.by_path
  unfolding put
  by_path-put m inode e = ground arith

  -- The slab alone decides what an inode number stands for.
  pub get-by_path :
      (m : InodeMap S) (paths : List ((Dir × Name) × ℕ)) (inode : ℕ)
      → get S (record m { by_path = paths }) inode ≡ get S m inode
  unfolding get
  get-by_path m paths inode = refl

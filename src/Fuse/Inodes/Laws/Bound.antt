-- ===== src/Fuse/Inodes/Laws/Bound.antt =====
-- Bound nodes of `InodeMap` (nyne/src/fuse/inode_map/mod.rs): how long a node stays attached.
use nyne.Prelude.{ℕ, ◌+◌, ◌≤◌, ◌<◌, ◌≡◌, refl, ◌∙◌, ap, none, some, lt→ltb, le→ltb-false}
use nyne.Fuse.Slab.{Slab}
use nyne.Router.Node.{CachePolicy, ttl}
use nyne.Fuse.Inodes.{
  InodeEntry, InodeMap, expires_at_from_policy, get, bind_node, bound_node, bound_in, expire, touch,
  extend, renewed,
}
use nyne.Fuse.Inodes.Laws.{get-put_self}

module _ {Dir Name Node : Type 0} (S : Slab (InodeEntry Dir Name Node))
    (cache_policy : Node → CachePolicy) where
  bound_until : InodeEntry Dir Name Node → Node → ℕ → InodeEntry Dir Name Node
  bound_until e n until = record e { node = some n; expires_at = some until }

  -- What `bound_node` answers of an entry with a node and an expiry.
  bound_node-live :
      (m : InodeMap S) (ino : ℕ) (e : InodeEntry Dir Name Node) (n : Node) (until later : ℕ)
      → get S m ino ≡ some (bound_until e n until)
      → later ≤ until
      → bound_node S m later ino ≡ (m, some n)
  unfolding bound_node bound_until bound_in
  bound_node-live m ino e n until later found h = rw (found, bound_node, le→ltb-false until later h)

  bound_node-unbound :
      (m : InodeMap S) (ino : ℕ) (e : InodeEntry Dir Name Node) (any_time : ℕ)
      → get S m ino ≡ some (record e { node = none; expires_at = none })
      → (bound_node S m any_time ino).1 ≡ none
  unfolding bound_node bound_in
  bound_node-unbound m ino e any_time found = rw (found, bound_node)

  bound_node-past :
      (m : InodeMap S) (ino : ℕ) (e : InodeEntry Dir Name Node) (n : Node) (until later : ℕ)
      → get S m ino ≡ some (bound_until e n until)
      → until < later
      → let (cleared, answer) = bound_node S m later ino in
        (answer ≡ none) × ((any_time : ℕ) → (bound_node S cleared any_time ino).1 ≡ none)
  unfolding bound_until
  bound_node-past m ino e n until later found h =
      let expired : bound_node S m later ino ≡ (expire S m ino (bound_until e n until), none) =
        unfold bound_node bound_in bound_until in rw (found, bound_node, lt→ltb until later h) in
      rw expired (
        refl,
        λ any_time.
            bound_node-unbound _ ino e any_time (unfold expire in get-put_self S m ino _ _ found),
      )

  -- A node that is bound with a TTL is served up to the end of the TTL. The first lookup after that
  -- finds none and clears the binding, so that no later lookup finds it, whatever the clock says.
  pub bound_node-bind :
      (m : InodeMap S) (now ino d : ℕ) (e : InodeEntry Dir Name Node) (n : Node)
      → get S m ino ≡ some e
      → cache_policy n ≡ ttl d
      → let m' = bind_node S cache_policy m now ino n in
        ((later : ℕ) → later ≤ now + d → bound_node S m' later ino ≡ (m', some n))
        × ((later : ℕ)
            → now + d < later
            → let (cleared, answer) = bound_node S m' later ino in
              (answer ≡ none) × ((any_time : ℕ) → (bound_node S cleared any_time ino).1 ≡ none))
  unfolding bind_node expires_at_from_policy
  bound_node-bind m now ino d e n found policy =
      let bound : get S (bind_node S cache_policy m now ino n) ino
          ≡ some (bound_until e n (now + d)) =
        rw (found, bind_node, policy, expires_at_from_policy)
          (unfold bound_until in get-put_self S m ino e _ found) in
      (
        λ later h. bound_node-live _ ino e n (now + d) later bound h,
        λ later h. bound_node-past _ ino e n (now + d) later bound h,
      )

  -- A touch of a bound node starts its TTL again, also when it has run out and no lookup has seen that.
  pub bound_node-touch :
      (m : InodeMap S) (now ino d : ℕ) (e : InodeEntry Dir Name Node) (n : Node)
      → get S m ino ≡ some e
      → e.node ≡ some n
      → cache_policy n ≡ ttl d
      → let m' = touch S cache_policy m now ino in
        (later : ℕ) → later ≤ now + d → bound_node S m' later ino ≡ (m', some n)
  unfolding touch renewed extend expires_at_from_policy
  bound_node-touch m now ino d e n found bound policy later h =
      let due : renewed S cache_policy now e.node ≡ some (now + d) =
        rw (bound, renewed, policy, expires_at_from_policy) in
      let kept : get S (touch S cache_policy m now ino) ino
          ≡ some (record e { expires_at = some (now + d) }) =
        rw (found, touch, due, extend) (get-put_self S m ino e _ found) in
      let whole : record e { expires_at = some (now + d) } ≡ bound_until e n (now + d) =
        unfold bound_until in λ i. record e { node = bound i; expires_at = some (now + d) } in
      bound_node-live _ ino e n (now + d) later (kept ∙ ap some whole) h

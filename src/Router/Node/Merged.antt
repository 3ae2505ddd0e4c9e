-- ===== src/Router/Node/Merged.antt =====
-- What becomes of the slots of nodes that are accumulated under one name: nyne/src/router/node/mod.rs.
use mathlib.Core.Logic.{ite, if_pos, if_neg}
use nyne.Prelude.{
  ◌≡◌, refl, ap, ap₂, sym, ◌∙◌, Bool, true, false, ◌||◌, Option, none, some, List, [], ◌∷◌, ◌⊎◌,
  inl, inr, subst,
}
use nyne.Router.Node.{
  NodeKind, CachePolicy, default, no_cache, ttl, first_policy, file, directory, symlink,
  Permissions, Node, first_of, is_set, merge_capabilities_from, permissions_of, or_derived, derived,
}
use nyne.Router.Tree.{NamedNode, add, add_all, find}
use nyne.Router.Tree.Nodes.{find-add, merged}

first_of_assoc {ℓ} :
    {A : Type ℓ} (a b c : Option A) → first_of (first_of a b) c ≡ first_of a (first_of b c)
first_of_assoc none b c = refl
first_of_assoc (some x) b c = refl

-- One of the optional parts of a node.
pub data Slot : Type 0 where
  target_slot permissions_slot timestamps_slot readable_slot writable_slot renameable_slot
        unlinkable_slot lifecycle_slot attributable_slot cache_policy_slot :
      Slot

abbrev pub SlotType : Type 0 → Type 0 → Type 0 → Slot → Type 0
SlotType Impl FilePath Times target_slot = FilePath
SlotType Impl FilePath Times permissions_slot = Permissions
SlotType Impl FilePath Times timestamps_slot = Times
SlotType Impl FilePath Times readable_slot = Impl
SlotType Impl FilePath Times writable_slot = Impl
SlotType Impl FilePath Times renameable_slot = Impl
SlotType Impl FilePath Times unlinkable_slot = Impl
SlotType Impl FilePath Times lifecycle_slot = Impl
SlotType Impl FilePath Times attributable_slot = Impl
SlotType Impl FilePath Times cache_policy_slot = CachePolicy

-- A cache policy other than the default.
abbrev pub set_policy : CachePolicy → Option CachePolicy
set_policy default = none
set_policy no_cache = some no_cache
set_policy (ttl d) = some (ttl d)

set_policy-first_policy :
    (a b : CachePolicy) → set_policy (first_policy a b) ≡ first_of (set_policy a) (set_policy b)
set_policy-first_policy default b = refl
set_policy-first_policy no_cache b = refl
set_policy-first_policy (ttl d) b = refl

first_of-none {ℓ} : {A : Type ℓ} (a : Option A) → first_of a none ≡ a
first_of-none none = refl
first_of-none (some x) = refl

shuffle : (a b u v : Bool) → ((a || b) || (u || v)) ≡ ((a || u) || (b || v))
shuffle true b u v = refl
shuffle false true true v = refl
shuffle false true false v = refl
shuffle false false true v = refl
shuffle false false false v = refl

-- Permissions one by one.
abbrev pub union : Permissions → Permissions → Permissions
union p q = record {
  read = p.read || q.read;
  write = p.write || q.write;
  execute = p.execute || q.execute;
}

is_set-first {ℓ} : {A : Type ℓ} (a b : Option A) → is_set (first_of a b) ≡ (is_set a || is_set b)
is_set-first none b = refl
is_set-first (some x) b = refl

module _ {Impl FilePath Times : Type 0} where
  abbrev pub slot : (s : Slot) → Node Impl FilePath Times → Option (SlotType Impl FilePath Times s)
  slot target_slot n = n.target
  slot permissions_slot n = n.permissions
  slot timestamps_slot n = n.timestamps
  slot readable_slot n = n.readable
  slot writable_slot n = n.writable
  slot renameable_slot n = n.renameable
  slot unlinkable_slot n = n.unlinkable
  slot lifecycle_slot n = n.lifecycle
  slot attributable_slot n = n.attributable
  slot cache_policy_slot n = set_policy n.cache_policy

  slot-merge :
      (s : Slot) (a b : Node Impl FilePath Times)
      → slot s (merge_capabilities_from a b) ≡ first_of (slot s a) (slot s b)
  unfolding merge_capabilities_from
  slot-merge target_slot a b = refl
  slot-merge permissions_slot a b = refl
  slot-merge timestamps_slot a b = refl
  slot-merge readable_slot a b = refl
  slot-merge writable_slot a b = refl
  slot-merge renameable_slot a b = refl
  slot-merge unlinkable_slot a b = refl
  slot-merge lifecycle_slot a b = refl
  slot-merge attributable_slot a b = refl
  slot-merge cache_policy_slot a b = set_policy-first_policy a.cache_policy b.cache_policy

  -- The slot of a node that may be there.
  abbrev pub slot_in :
      {Name : Type 0}
      → (s : Slot) → Option (NamedNode Name (Node Impl FilePath Times))
      → Option (SlotType Impl FilePath Times s)
  slot_in s none = none
  slot_in s (some n) = slot s n.caps

  module _ {Name : Type 0} (eq : Discrete Name) where
    -- The slot of the first node of the name that has it.
    unfoldable first_slot :
        (s : Slot)
        → Name
        → List (NamedNode Name (Node Impl FilePath Times))
        → Option (SlotType Impl FilePath Times s)
    first_slot s name [] = none
    first_slot s name (x ∷ xs) =
        ite (eq x.name name) (first_of (slot s x.caps) (first_slot s name xs))
          (first_slot s name xs)

    slot-merged :
        (s : Slot) (x : NamedNode Name (Node Impl FilePath Times))
        (o : Option (NamedNode Name (Node Impl FilePath Times)))
        → slot_in s (some (merged eq merge_capabilities_from x o))
          ≡ first_of (slot_in s o) (slot s x.caps)
    slot-merged s x none = refl
    slot-merged s x (some n) = slot-merge s n.caps x.caps

    slot-add_all :
        (s : Slot) (name : Name) (xs ns : List (NamedNode Name (Node Impl FilePath Times)))
        → slot_in s (find eq name (add_all eq merge_capabilities_from xs ns))
          ≡ first_of (slot_in s (find eq name ns)) (first_slot s name xs)
    unfolding add_all first_slot
    slot-add_all s name [] ns = sym (first_of-none (slot_in s (find eq name ns)))
    slot-add_all s name (x ∷ xs) ns =
        slot-add_all s name xs (add eq merge_capabilities_from x ns)
        ∙ ap (λ o. first_of (slot_in s o) (first_slot s name xs))
            (find-add eq merge_capabilities_from x ns name)
        ∙ step (eq x.name name)
      where
        step :
            (d : Dec (x.name ≡ name))
            → first_of
                (slot_in s (
                  ite d
                    (some (merged eq merge_capabilities_from x (find eq name ns)))
                    (find eq name ns)))
                (first_slot s name xs)
              ≡ first_of
                  (slot_in s (find eq name ns))
                  (ite d (first_of (slot s x.caps) (first_slot s name xs)) (first_slot s name xs))
        step (yes same) =
            ap (λ o. first_of o (first_slot s name xs)) (slot-merged s x (find eq name ns))
            ∙ first_of_assoc (slot_in s (find eq name ns)) (slot s x.caps) (first_slot s name xs)
        step (no other) = refl

    -- No node of the name has the slot.
    abbrev pub Lacking : Slot → Name → List (NamedNode Name (Node Impl FilePath Times)) → Type 0
    Lacking s name [] = Unit {0}
    Lacking s name (x ∷ xs) = (x.name ≡ name → slot s x.caps ≡ none) × Lacking s name xs

    -- The first node of the name that has the slot has `v` there.
    abbrev pub FirstWith :
        (s : Slot)
        → Name
        → List (NamedNode Name (Node Impl FilePath Times))
        → SlotType Impl FilePath Times s
        → Type 0
    FirstWith s name [] v = ⊥
    FirstWith s name (x ∷ xs) v =
        ((x.name ≡ name) × (slot s x.caps ≡ some v))
        ⊎ ((x.name ≡ name → slot s x.caps ≡ none) × FirstWith s name xs v)

    -- What a search for the slot finds.
    abbrev pub Answers :
        (s : Slot)
        → Name
        → List (NamedNode Name (Node Impl FilePath Times))
        → Option (SlotType Impl FilePath Times s)
        → Type 0
    Answers s name xs none = Lacking s name xs
    Answers s name xs (some v) = FirstWith s name xs v

    Answers-skip :
        (s : Slot) (name : Name) (x : NamedNode Name (Node Impl FilePath Times))
        (xs : List (NamedNode Name (Node Impl FilePath Times)))
        (o : Option (SlotType Impl FilePath Times s))
        → (x.name ≡ name → slot s x.caps ≡ none)
        → Answers s name xs o
        → Answers s name (x ∷ xs) o
    Answers-skip s name x xs none bare h = (bare, h)
    Answers-skip s name x xs (some v) bare h = inr (bare, h)

    Answers-head :
        (s : Slot) (name : Name) (x : NamedNode Name (Node Impl FilePath Times))
        (xs : List (NamedNode Name (Node Impl FilePath Times)))
        (own : Option (SlotType Impl FilePath Times s))
        → slot s x.caps ≡ own
        → x.name ≡ name
        → Answers s name xs (first_slot s name xs)
        → Answers s name (x ∷ xs) (first_of own (first_slot s name xs))
    Answers-head s name x xs none has same h =
        Answers-skip s name x xs (first_slot s name xs) (λ at. has) h
    Answers-head s name x xs (some v) has same h = inl (same, has)

    first_slot-Answers :
        (s : Slot) (name : Name) (xs : List (NamedNode Name (Node Impl FilePath Times)))
        → Answers s name xs (first_slot s name xs)
    unfolding first_slot
    first_slot-Answers s name [] = tt
    first_slot-Answers s name (x ∷ xs) = elim (eq x.name name) [
      | yes same ↦
          subst (Answers s name (x ∷ xs)) (sym (if_pos (eq x.name name) same _ _))
            (Answers-head s name x xs (slot s x.caps) refl same (first_slot-Answers s name xs))
      | no other ↦ subst (Answers s name (x ∷ xs)) (sym (if_neg (eq x.name name) other _ _)) (
          Answers-skip s name x xs (first_slot s name xs) (λ at. absurd (other at))
            (first_slot-Answers s name xs))
    ]

    -- The nodes that providers give are merged by name, and each part, the cache policy among them, is
    -- that of the first node of the name that has it: the policy has to be other than the default. If no
    -- node of the name has the part, there is none.
    pub add_all-Answers :
        (s : Slot) (name : Name) (xs : List (NamedNode Name (Node Impl FilePath Times)))
        → Answers s name xs (slot_in s (find eq name (add_all eq merge_capabilities_from xs [])))
    unfolding find
    add_all-Answers s name xs =
        subst (Answers s name xs) (sym (slot-add_all s name xs [])) (first_slot-Answers s name xs)

  derived-merge :
      (k : NodeKind) (a b : Node Impl FilePath Times)
      → derived k (merge_capabilities_from a b) ≡ union (derived k a) (derived k b)
  unfolding merge_capabilities_from
  derived-merge directory a b =
      ap (λ w. record { read = true; write = w; execute = true })
        (ap₂ ◌||◌ (is_set-first a.writable b.writable) (is_set-first a.unlinkable b.unlinkable)
          ∙ shuffle (is_set a.writable) (is_set b.writable) (is_set a.unlinkable)
              (is_set b.unlinkable))
  derived-merge symlink a b = refl
  derived-merge file a b =
      ap₂ (λ r w. record { read = r; write = w; execute = false })
        (is_set-first a.readable b.readable) (is_set-first a.writable b.writable)

  -- Two nodes of one kind whose permissions are not set merge into one with the permissions of both.
  pub permissions-merge :
      (a b : Node Impl FilePath Times)
      → a.kind ≡ b.kind
      → a.permissions ≡ none
      → b.permissions ≡ none
      → permissions_of (merge_capabilities_from a b) ≡ union (permissions_of a) (permissions_of b)
  unfolding permissions_of merge_capabilities_from
  permissions-merge a b same unset_a unset_b =
      ap (λ o. or_derived o (derived a.kind (merge_capabilities_from a b)))
        (ap₂ first_of unset_a unset_b)
      ∙ derived-merge a.kind a b
      ∙ ap₂ union (sym (ap (λ o. or_derived o (derived a.kind a)) unset_a))
          (ap (λ k. derived k b) same ∙ sym (ap (λ o. or_derived o (derived b.kind b)) unset_b))

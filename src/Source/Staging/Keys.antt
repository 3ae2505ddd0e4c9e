-- ===== src/Source/Staging/Keys.antt =====
-- Staged operations of one file, by their keys and numbers: `EditStaging::stage` of
-- plugins/source/src/edit/staging/mod.rs.
use mathlib.Core.Logic.{ite, if_pos, if_neg}
use nyne.Prelude.{
  ℕ, ◌+◌, ◌≤◌, ◌≡◌, ◌≢◌, refl, ap, sym, ◌∙◌, Option, none, some, List, [], ◌∷◌, ◌++◌, arith,
  ite_cases, inl, inr, map_option,
}
use nyne.Source.Plan.{EditOp, EditPlan}
use nyne.Source.Staging.{StageKey, key, key_discrete, merge_content, find_seq, update_op, new_op}

-- The number and the content of the first operation with a key.
unfoldable pub find_op : StageKey → EditPlan → Option (ℕ × Option (List ℕ))
find_op k [] = none
find_op k ((seq, op) ∷ ops) = ite (key_discrete (key op) k) (some (seq, op.content)) (find_op k ops)

abbrev pub old_content : Option (ℕ × Option (List ℕ)) → Option (List ℕ)
old_content none = none
old_content (some found) = found.1

pub find_op-seq :
    (k : StageKey) (ops : EditPlan) → map_option (λ r. r.0) (find_op k ops) ≡ find_seq k ops
unfolding find_op find_seq
find_op-seq k [] = refl
find_op-seq k ((seq, op) ∷ ops) = ground (arith, find_op-seq k ops)

pub find_op-update_self :
    (k : StageKey) (c : Option (List ℕ)) (ops : EditPlan) (seq : ℕ) (old : Option (List ℕ))
    → find_op k ops ≡ some (seq, old)
    → find_op k (update_op k c ops) ≡ some (seq, merge_content c old)
unfolding find_op update_op
find_op-update_self k c [] seq old h = cc
find_op-update_self k c ((s, op) ∷ ops) seq old h =
    ground (arith, find_op-update_self k c ops seq old)

pub find_op-update_other :
    (k j : StageKey) (c : Option (List ℕ)) (ops : EditPlan)
    → j ≢ k
    → find_op j (update_op k c ops) ≡ find_op j ops
unfolding find_op update_op
find_op-update_other k j c [] other = refl
find_op-update_other k j c ((s, op) ∷ ops) other =
    ground (arith, find_op-update_other k j c ops other)

pub find_op-append :
    (k j : StageKey) (seq : ℕ) (c : Option (List ℕ)) (ops : EditPlan)
    → find_op j ops ≡ none
    → find_op j (ops ++ (seq, new_op k c) ∷ []) ≡ ite (key_discrete k j) (some (seq, c)) none
unfolding find_op
find_op-append k j seq c [] h = refl
find_op-append k j seq c ((s, op) ∷ ops) h = ground (arith, find_op-append k j seq c ops)

pub find_op-append_found :
    (k j : StageKey) (seq : ℕ) (c : Option (List ℕ)) (ops : EditPlan) (found : ℕ × Option (List ℕ))
    → find_op j ops ≡ some found
    → find_op j (ops ++ (seq, new_op k c) ∷ []) ≡ some found
unfolding find_op
find_op-append_found k j seq c [] found h = cc
find_op-append_found k j seq c ((s, op) ∷ ops) found h =
    ground (arith, find_op-append_found k j seq c ops found)

pub merged_none : (c : Option (List ℕ)) → c ≡ merge_content c none
merged_none none = refl
merged_none (some c) = refl

-- From `lo` on, the numbers rise, and stay below `hi`.
abbrev pub Rising : ℕ → EditPlan → ℕ → Type 0
Rising lo [] hi = lo ≤ hi
Rising lo ((seq, op) ∷ ops) hi = (lo ≤ seq) × Rising (seq + 1) ops hi

-- No key is staged twice.
abbrev pub Deduped : EditPlan → Type 0
Deduped [] = Unit {0}
Deduped ((seq, op) ∷ ops) = (find_seq (key op) ops ≡ none) × Deduped ops

pub Rising-below :
    (lo hi hi' : ℕ) (ops : EditPlan) → Rising lo ops hi → hi ≤ hi' → Rising lo ops hi'
Rising-below lo hi hi' [] h le = omega arith
Rising-below lo hi hi' ((seq, op) ∷ ops) h le = (h.0, Rising-below (seq + 1) hi hi' ops h.1 le)

pub Rising-append :
    (lo hi : ℕ) (op : EditOp) (ops : EditPlan)
    → Rising lo ops hi
    → Rising lo (ops ++ (hi, op) ∷ []) (hi + 1)
Rising-append lo hi op [] h = (h, omega arith)
Rising-append lo hi op ((seq, o) ∷ ops) h = (h.0, Rising-append (seq + 1) hi op ops h.1)

pub Rising-update :
    (lo hi : ℕ) (k : StageKey) (c : Option (List ℕ)) (ops : EditPlan)
    → Rising lo ops hi
    → Rising lo (update_op k c ops) hi
unfolding update_op
Rising-update lo hi k c [] h = h
Rising-update lo hi k c ((seq, op) ∷ ops) h = elim (key_discrete (key op) k) [
  | yes same ↦ rw (if_pos (key_discrete (key op) k) same) h
  | no other ↦
      rw (if_neg (key_discrete (key op) k) other) (h.0, Rising-update (seq + 1) hi k c ops h.1)
]

find_seq-update :
    (k j : StageKey) (c : Option (List ℕ)) (ops : EditPlan)
    → find_seq j (update_op k c ops) ≡ find_seq j ops
unfolding find_seq update_op
find_seq-update k j c [] = refl
find_seq-update k j c ((s, op) ∷ ops) = ground (arith, find_seq-update k j c ops)

find_seq-append :
    (j : StageKey) (seq : ℕ) (op : EditOp) (ops : EditPlan)
    → key op ≢ j
    → find_seq j (ops ++ (seq, op) ∷ []) ≡ find_seq j ops
unfolding find_seq
find_seq-append j seq op [] other = rw (if_neg (key_discrete (key op) j) other) refl
find_seq-append j seq op ((s, o) ∷ ops) other =
    ap (ite (key_discrete (key o) j) (some s)) (find_seq-append j seq op ops other)

pub Deduped-update :
    (k : StageKey) (c : Option (List ℕ)) (ops : EditPlan)
    → Deduped ops
    → Deduped (update_op k c ops)
unfolding update_op
Deduped-update k c [] h = h
Deduped-update k c ((seq, op) ∷ ops) h = elim (key_discrete (key op) k) [
  | yes same ↦ rw (if_pos (key_discrete (key op) k) same) h
  | no other ↦
      rw (if_neg (key_discrete (key op) k) other)
        (find_seq-update k (key op) c ops ∙ h.0, Deduped-update k c ops h.1)
]

pub Deduped-append :
    (seq : ℕ) (op : EditOp) (ops : EditPlan)
    → find_seq (key op) ops ≡ none
    → Deduped ops
    → Deduped (ops ++ (seq, op) ∷ [])
unfolding find_seq
Deduped-append seq op [] fresh h = (refl, tt)
Deduped-append seq op ((s, o) ∷ ops) fresh h =
    elim (ite_cases (key_discrete (key o) (key op)) (some s) (find_seq (key op) ops) fresh) [
      | inl (same, found) ↦ cc
      | inr (other, later) ↦ (
        find_seq-append (key o) seq op ops (λ x. other (sym x)) ∙ h.0,
        Deduped-append seq op ops later h.1,
      )
    ]

-- ===== src/Source/Naming/Positions.antt =====
-- Numbered names of siblings: `resolve_level_conflicts` of plugins/source/src/syntax/fs_mapping/mod.rs with
-- `ConflictStrategy::Numbered`.
use Prim.Native.String.{String}
use mathlib.Core.Logic.{ite, if_pos, if_neg}
use native.Mathlib.Decide.{ℕ_discrete}
use nyne.Prelude.{
  ℕ, zero, suc, ◌+◌, ◌<◌, ◌≡◌, ◌≢◌, refl, ap, sym, ◌∙◌, Option, none, some, List, [], ◌∷◌, ◌++◌,
  length, text_discrete, map, arith, subst,
}
use nyne.Source.Fragment.{fragment, Fragments, nil, cons, info}
use nyne.Source.Naming.{
  ConflictEntry, Resolution, number_label, number_entries, set_fs_name, apply_resolutions,
}

-- The name of the fragment at a position.
unfoldable pub name_at : ℕ → Fragments → Option String
name_at i nil = none
name_at zero (cons f fs) = (info f).fs_name
name_at (suc i) (cons f fs) = name_at i fs

unfoldable pub count : Fragments → ℕ
count nil = 0
count (cons f fs) = suc (count fs)

abbrev pub at_name : Option String → String → ℕ → List ℕ → List ℕ
at_name none m j rest = rest
at_name (some n) m j rest = ite (text_discrete n m) (j ∷ rest) rest

-- The positions of a name, the first fragment being at `j`.
unfoldable pub positions : String → ℕ → Fragments → List ℕ
positions m j nil = []
positions m j (cons f fs) = at_name (info f).fs_name m j (positions m (suc j) fs)

abbrev pub counted : Option String → String → ℕ → ℕ
counted none m k = k
counted (some n) m k = ite (text_discrete n m) (suc k) k

-- How many of the fragments before a position have the name.
unfoldable pub count_before : String → ℕ → Fragments → ℕ
count_before m zero fs = 0
count_before m (suc d) nil = 0
count_before m (suc d) (cons f fs) = counted (info f).fs_name m (count_before m d fs)

-- What resolutions make of the name at a position.
unfoldable pub resolved : ℕ → List Resolution → Option String → Option String
resolved i [] o = o
resolved i (r ∷ rs) o = resolved i rs (ite (ℕ_discrete r.index i) r.fs_name o)

name_at-set_fs_name :
    (i j : ℕ) (v : Option String) (fs : Fragments)
    → i < count fs
    → name_at i (set_fs_name j v fs) ≡ ite (ℕ_discrete j i) v (name_at i fs)
unfolding name_at set_fs_name count
name_at-set_fs_name i j v nil h = absurd (omega arith)
name_at-set_fs_name zero zero v (cons (fragment f s cs) fs) h =
    sym (if_pos (ℕ_discrete 0 0) refl _ _)
name_at-set_fs_name zero (suc j) v (cons f fs) h =
    sym (if_neg (ℕ_discrete (suc j) 0) (λ e. omega arith) _ _)
name_at-set_fs_name (suc i) zero v (cons f fs) h =
    sym (if_neg (ℕ_discrete 0 (suc i)) (λ e. omega arith) _ _)
name_at-set_fs_name (suc i) (suc j) v (cons f fs) h =
    name_at-set_fs_name i j v fs (omega arith) ∙ elim (ℕ_discrete j i) [
      | yes same ↦
          if_pos (ℕ_discrete j i) same _ _
          ∙ sym (if_pos (ℕ_discrete (suc j) (suc i)) (ap suc same) _ _)
      | no other ↦
          if_neg (ℕ_discrete j i) other _ _
          ∙ sym (if_neg (ℕ_discrete (suc j) (suc i)) (λ e. other (omega arith)) _ _)
    ]

count-set_fs_name :
    (j : ℕ) (v : Option String) (fs : Fragments) → count (set_fs_name j v fs) ≡ count fs
unfolding set_fs_name count
count-set_fs_name j v nil = refl
count-set_fs_name zero v (cons f fs) = refl
count-set_fs_name (suc j) v (cons f fs) = ap suc (count-set_fs_name j v fs)

pub name_at-apply_resolutions :
    (i : ℕ) (rs : List Resolution) (fs : Fragments)
    → i < count fs
    → name_at i (apply_resolutions rs fs) ≡ resolved i rs (name_at i fs)
unfolding apply_resolutions resolved
name_at-apply_resolutions i [] fs h = refl
name_at-apply_resolutions i (r ∷ rs) fs h =
    name_at-apply_resolutions i rs (set_fs_name r.index r.fs_name fs)
      (omega (arith, count-set_fs_name r.index r.fs_name fs))
    ∙ ap (resolved i rs) (name_at-set_fs_name i r.index r.fs_name fs h)

pub resolved-append :
    (i : ℕ) (rs ss : List Resolution) (o : Option String)
    → resolved i (rs ++ ss) o ≡ resolved i ss (resolved i rs o)
unfolding resolved
resolved-append i [] ss o = refl
resolved-append i (r ∷ rs) ss o = resolved-append i rs ss (ite (ℕ_discrete r.index i) r.fs_name o)

abbrev pub NotIn : ℕ → List ℕ → Type 0
NotIn i [] = Unit {0}
NotIn i (x ∷ xs) = (x ≢ i) × NotIn i xs

-- The entries by their positions alone.
unfoldable pub number_from : String → ℕ → List ℕ → List Resolution
number_from m k [] = []
number_from m k (i ∷ is) =
    record { index = i; fs_name = some (number_label m k) } ∷ number_from m (suc k) is

pub number_entries-from :
    (m : String) (k : ℕ) (es : List ConflictEntry)
    → number_entries m k es ≡ number_from m k (map (λ e. e.index) es)
unfolding number_entries number_from
number_entries-from m k [] = refl
number_entries-from m k (e ∷ es) =
    ap (λ r. record { index = e.index; fs_name = some (number_label m k) } ∷ r)
      (number_entries-from m (suc k) es)

pub resolved-NotIn :
    (i : ℕ) (m : String) (k : ℕ) (is : List ℕ) (o : Option String)
    → NotIn i is
    → resolved i (number_from m k is) o ≡ o
unfolding resolved number_from
resolved-NotIn i m k [] o away = refl
resolved-NotIn i m k (x ∷ xs) o away =
    resolved-NotIn i m (suc k) xs (ite (ℕ_discrete x i) (some (number_label m k)) o) away.1
    ∙ if_neg (ℕ_discrete x i) away.0 _ _

first_other :
    (o : Option String) (m : String) (j i : ℕ) (rest : List ℕ)
    → o ≢ some m
    → NotIn i rest
    → NotIn i (at_name o m j rest)
first_other none m j i rest other h = h
first_other (some n) m j i rest other h = rw (if_neg (text_discrete n m) (λ e. other (ap some e))) h

first_here :
    (o : Option String) (m : String) (j i k : ℕ) (rest : List ℕ) (p : Option String)
    → o ≡ some m
    → j ≡ i
    → NotIn i rest
    → resolved i (number_from m k (at_name o m j rest)) p ≡ some (number_label m k)
unfolding resolved number_from
first_here none m j i k rest p h at away = cc
first_here (some n) m j i k rest p h at away =
    let same : n ≡ m = cc in
    rw (if_pos (text_discrete n m) same) (
      resolved-NotIn i m (suc k) rest (ite (ℕ_discrete j i) (some (number_label m k)) p) away
      ∙ if_pos (ℕ_discrete j i) at _ _)

later_here :
    (o : Option String) (m : String) (j i k c : ℕ) (rest : List ℕ) (p : Option String)
    → j ≢ i
    → ((l : ℕ) (q : Option String)
        → resolved i (number_from m l rest) q ≡ some (number_label m (l + c)))
    → resolved i (number_from m k (at_name o m j rest)) p
      ≡ some (number_label m (k + counted o m c))
unfolding resolved number_from
later_here none m j i k c rest p away h = h k p
later_here (some n) m j i k c rest p away h =
    elim (text_discrete n m)
      as (λ d.
        resolved i (number_from m k (ite d (j ∷ rest) rest)) p
        ≡ some (number_label m (k + ite d (suc c) c))) [
          | yes same ↦
              h (suc k) (ite (ℕ_discrete j i) (some (number_label m k)) p)
              ∙ ap (λ r. some (number_label m r)) (omega arith)
          | no other ↦ h k p
        ]

first_length :
    (o : Option String) (m : String) (j : ℕ) (rest : List ℕ)
    → o ≡ some m
    → 0 < length (at_name o m j rest)
first_length none m j rest h = cc
first_length (some n) m j rest h =
    let same : n ≡ m = cc in rw (if_pos (text_discrete n m) same) (omega arith)

later_length :
    (o : Option String) (m : String) (j c : ℕ) (rest : List ℕ)
    → c < length rest
    → counted o m c < length (at_name o m j rest)
later_length none m j c rest h = h
later_length (some n) m j c rest h =
    elim (text_discrete n m) as (λ d. ite d (suc c) c < length (ite d (j ∷ rest) rest)) [
      | yes same ↦ omega arith
      | no other ↦ h
    ]

at_name-NotIn :
    (o : Option String) (m : String) (i j : ℕ) (rest : List ℕ)
    → j ≢ i
    → NotIn i rest
    → NotIn i (at_name o m j rest)
at_name-NotIn none m i j rest away h = h
at_name-NotIn (some n) m i j rest away h = elim (text_discrete n m) [
  | yes same ↦ rw (if_pos (text_discrete n m) same) (away, h)
  | no other ↦ rw (if_neg (text_discrete n m) other) h
]

positions-before : (m : String) (i j : ℕ) (fs : Fragments) → i < j → NotIn i (positions m j fs)
unfolding positions
positions-before m i j nil h = tt
positions-before m i j (cons f fs) h =
    at_name-NotIn (info f).fs_name m i j (positions m (suc j) fs) (λ e. omega arith)
      (positions-before m i (suc j) fs (omega arith))

pub positions-other :
    (m : String) (d j : ℕ) (fs : Fragments)
    → name_at d fs ≢ some m
    → NotIn (j + d) (positions m j fs)
unfolding positions name_at
positions-other m d j nil other = tt
positions-other m zero j (cons f fs) other =
    first_other (info f).fs_name m j (j + 0) (positions m (suc j) fs) other
      (positions-before m (j + 0) (suc j) fs (omega arith))
positions-other m (suc d) j (cons f fs) other =
    let same : suc j + d ≡ j + suc d = omega arith in
    at_name-NotIn (info f).fs_name m (j + suc d) j (positions m (suc j) fs) (λ e. omega arith)
      (subst (λ i. NotIn i (positions m (suc j) fs)) same (positions-other m d (suc j) fs other))

-- The resolution of the entries of a name at a fragment of that name.
pub resolved-positions :
    (m : String) (d j k : ℕ) (fs : Fragments) (o : Option String)
    → name_at d fs ≡ some m
    → resolved (j + d) (number_from m k (positions m j fs)) o
      ≡ some (number_label m (k + count_before m d fs))
unfolding positions name_at count_before
resolved-positions m d j k nil o h = cc
resolved-positions m zero j k (cons f fs) o h =
    first_here (info f).fs_name m j (j + 0) k (positions m (suc j) fs) o h (omega arith)
      (positions-before m (j + 0) (suc j) fs (omega arith))
    ∙ ap (λ r. some (number_label m r)) (omega arith)
resolved-positions m (suc d) j k (cons f fs) o h =
    later_here (info f).fs_name m j (j + suc d) k (count_before m d fs) (positions m (suc j) fs) o
      (λ e. omega arith)
      (λ l p.
        ap (λ i. resolved i (number_from m l (positions m (suc j) fs)) p) (omega arith)
        ∙ resolved-positions m d (suc j) l fs p h)

pub count_before-length :
    (m : String) (d j : ℕ) (fs : Fragments)
    → name_at d fs ≡ some m
    → count_before m d fs < length (positions m j fs)
unfolding positions name_at count_before
count_before-length m d j nil h = cc
count_before-length m zero j (cons f fs) h =
    first_length (info f).fs_name m j (positions m (suc j) fs) h
count_before-length m (suc d) j (cons f fs) h =
    later_length (info f).fs_name m j (count_before m d fs) (positions m (suc j) fs)
      (count_before-length m d (suc j) fs h)

-- ===== src/Source/Naming/Groups.antt =====
-- The groups of siblings by name that plugins/source/src/syntax/fs_mapping/mod.rs collects.
use Prim.Native.String.{String}
use mathlib.Core.Logic.{ite, if_pos, if_neg}
use nyne.Prelude.{
  ℕ, zero, suc, ◌+◌, ◌<◌, ◌≡◌, refl, ap, sym, ◌∙◌, Option, none, some, List, [], ◌∷◌, ◌++◌,
  text_discrete, map, arith, append_assoc, append-nil, subst,
}
use nyne.Prelude.Maps.{lookup}
use nyne.Source.Fragment.{Fragment, Fragments, nil, cons, info}
use nyne.Source.Naming.{push_index, push_name, name_indices, get_fragment, entries_at}
use nyne.Source.Naming.Positions.{count, at_name, positions}

abbrev of_group : Option (List ℕ) → List ℕ
of_group none = []
of_group (some is) = is

abbrev pub joined : Option (List ℕ) → List ℕ → Option (List ℕ)
joined none [] = none
joined none (x ∷ xs) = some (x ∷ xs)
joined (some is) xs = some (is ++ xs)

lookup-push_index :
    (m n : String) (i : ℕ) (acc : List (String × List ℕ))
    → lookup text_discrete m (push_index n i acc)
      ≡ ite
          (text_discrete n m)
          (some (of_group (lookup text_discrete m acc) ++ i ∷ []))
          (lookup text_discrete m acc)
unfolding lookup push_index
lookup-push_index m n i [] = refl
lookup-push_index m n i ((k, is) ∷ acc) = elim (text_discrete k n) [
  | yes at ↦ elim (text_discrete k m) [
    | yes here ↦
        rw (if_pos (text_discrete k n) at, if_pos (text_discrete n m) (sym at ∙ here))
          (if_pos (text_discrete k m) here _ _
            ∙ ap (λ o. some (of_group o ++ i ∷ [])) (sym (if_pos (text_discrete k m) here _ _)))
    | no away ↦
        rw (if_pos (text_discrete k n) at, if_neg (text_discrete n m) (λ h. away (at ∙ h)))
          (if_neg (text_discrete k m) away _ _ ∙ sym (if_neg (text_discrete k m) away _ _))
  ]
  | no other ↦ elim (text_discrete k m) [
    | yes here ↦
        rw
          (if_neg (text_discrete k n) other, if_neg (text_discrete n m) (λ h. other (here ∙ sym h)))
          (if_pos (text_discrete k m) here _ _ ∙ sym (if_pos (text_discrete k m) here _ _))
    | no away ↦ rw (if_neg (text_discrete k n) other) (
        if_neg (text_discrete k m) away _ _
        ∙ lookup-push_index m n i acc
        ∙ ap (λ o. ite (text_discrete n m) (some (of_group o ++ i ∷ [])) o)
            (sym (if_neg (text_discrete k m) away _ _)))
  ]
]

joined-at_name :
    (o : Option String) (m : String) (j : ℕ) (rest : List ℕ) (acc : List (String × List ℕ))
    → joined (lookup text_discrete m (push_name o j acc)) rest
      ≡ joined (lookup text_discrete m acc) (at_name o m j rest)
joined-at_name none m j rest acc = refl
joined-at_name (some n) m j rest acc =
    ap (λ o. joined o rest) (lookup-push_index m n j acc)
    ∙ (elim (text_discrete n m)
        as (λ d.
          joined
            (ite d (some (of_group (lookup text_discrete m acc) ++ j ∷ []))
              (lookup text_discrete m acc))
            rest
          ≡ joined (lookup text_discrete m acc) (ite d (j ∷ rest) rest)) [
            | yes same ↦ grown (lookup text_discrete m acc)
            | no other ↦ refl
          ])
  where
    grown : (o : Option (List ℕ)) → joined (some (of_group o ++ j ∷ [])) rest ≡ joined o (j ∷ rest)
    grown none = refl
    grown (some is) = ap some (append_assoc is (j ∷ []) rest)

-- Each name has the group of its positions.
lookup-name_indices :
    (m : String) (j : ℕ) (fs : Fragments) (acc : List (String × List ℕ))
    → lookup text_discrete m (name_indices j fs acc)
      ≡ joined (lookup text_discrete m acc) (positions m j fs)
unfolding name_indices positions
lookup-name_indices m j nil acc = none_more (lookup text_discrete m acc)
  where
    none_more : (o : Option (List ℕ)) → o ≡ joined o []
    none_more none = refl
    none_more (some is) = ap some (sym (append-nil is))
lookup-name_indices m j (cons f fs) acc =
    lookup-name_indices m (suc j) fs (push_name (info f).fs_name j acc)
    ∙ joined-at_name (info f).fs_name m j (positions m (suc j) fs) acc

abbrev pub NamesDistinct : List (String × List ℕ) → Type 0
NamesDistinct [] = Unit {0}
NamesDistinct ((m, is) ∷ rest) = (lookup text_discrete m rest ≡ none) × NamesDistinct rest

push-NamesDistinct :
    (n : String) (i : ℕ) (acc : List (String × List ℕ))
    → NamesDistinct acc
    → NamesDistinct (push_index n i acc)
unfolding push_index lookup
push-NamesDistinct n i [] h = (refl, tt)
push-NamesDistinct n i ((k, is) ∷ acc) h = elim (text_discrete k n) [
  | yes at ↦ rw (if_pos (text_discrete k n) at) h
  | no other ↦ rw (if_neg (text_discrete k n) other) (
    lookup-push_index k n i acc ∙ if_neg (text_discrete n k) (λ e. other (sym e)) _ _ ∙ h.0,
    push-NamesDistinct n i acc h.1,
  )
]

push_name-NamesDistinct :
    (o : Option String) (i : ℕ) (acc : List (String × List ℕ))
    → NamesDistinct acc
    → NamesDistinct (push_name o i acc)
push_name-NamesDistinct none i acc h = h
push_name-NamesDistinct (some n) i acc h = push-NamesDistinct n i acc h

indices-NamesDistinct :
    (j : ℕ) (fs : Fragments) (acc : List (String × List ℕ))
    → NamesDistinct acc
    → NamesDistinct (name_indices j fs acc)
unfolding name_indices
indices-NamesDistinct j nil acc h = h
indices-NamesDistinct j (cons f fs) acc h =
    indices-NamesDistinct (suc j) fs (push_name (info f).fs_name j acc)
      (push_name-NamesDistinct (info f).fs_name j acc h)

-- Each group holds the positions of its name.
abbrev pub Grouped : Fragments → List (String × List ℕ) → Type 0
Grouped fs [] = Unit {0}
Grouped fs ((m, is) ∷ rest) = (is ≡ positions m 0 fs) × Grouped fs rest

Grouped-of_lookup :
    (fs : Fragments) (groups : List (String × List ℕ))
    → NamesDistinct groups
    → ((m : String) (is : List ℕ) → lookup text_discrete m groups ≡ some is → is ≡ positions m 0 fs)
    → Grouped fs groups
unfolding lookup
Grouped-of_lookup fs [] h all = tt
Grouped-of_lookup fs ((m, is) ∷ rest) h all = (
  all m is (if_pos (text_discrete m m) refl _ _),
  Grouped-of_lookup fs rest h.1 (λ k js found. all k js (elim (text_discrete m k) [
    | yes same ↦
        let clash : none ≡ some js = sym h.0 ∙ ap (λ x. lookup text_discrete x rest) same ∙ found in
        cc
    | no other ↦ if_neg (text_discrete m k) other _ _ ∙ found
  ])),
)

pub groups_lem :
    (fs : Fragments)
    → NamesDistinct (name_indices 0 fs [])
      × Grouped fs (name_indices 0 fs [])
      × ((m : String)
          → lookup text_discrete m (name_indices 0 fs []) ≡ joined none (positions m 0 fs))
unfolding lookup
groups_lem fs =
    let distinct = indices-NamesDistinct 0 fs [] tt in
    (
      distinct,
      Grouped-of_lookup fs (name_indices 0 fs []) distinct
          (λ m is found. right (positions m 0 fs) is (sym (lookup-name_indices m 0 fs []) ∙ found)),
      λ m. lookup-name_indices m 0 fs [],
    )
  where
    right : (p is : List ℕ) → joined none p ≡ some is → is ≡ p
    right [] is h = cc
    right (x ∷ xs) is h = cc

-- Positions are in range, so that each gives an entry.
abbrev AllBelow : ℕ → List ℕ → Type 0
AllBelow n [] = Unit {0}
AllBelow n (x ∷ xs) = (x < n) × AllBelow n xs

at_name-AllBelow :
    (o : Option String) (m : String) (j n : ℕ) (rest : List ℕ)
    → j < n
    → AllBelow n rest
    → AllBelow n (at_name o m j rest)
at_name-AllBelow none m j n rest less h = h
at_name-AllBelow (some k) m j n rest less h = elim (text_discrete k m) [
  | yes same ↦ rw (if_pos (text_discrete k m) same) (less, h)
  | no other ↦ rw (if_neg (text_discrete k m) other) h
]

positions-AllBelow :
    (m : String) (j : ℕ) (fs : Fragments) → AllBelow (j + count fs) (positions m j fs)
unfolding positions count
positions-AllBelow m j nil = tt
positions-AllBelow m j (cons f fs) =
    at_name-AllBelow (info f).fs_name m j (j + suc (count fs)) (positions m (suc j) fs)
      (omega arith)
      (subst (λ n. AllBelow n (positions m (suc j) fs)) (omega arith)
        (positions-AllBelow m (suc j) fs))

get-below : (i : ℕ) (fs : Fragments) → i < count fs → (f : Fragment) × (get_fragment i fs ≡ some f)
unfolding get_fragment count
get-below i nil h = absurd (omega arith)
get-below zero (cons f fs) h = (f, refl)
get-below (suc i) (cons f fs) h = get-below i fs (omega arith)

entries_at-AllBelow :
    (fs : Fragments) (is : List ℕ)
    → AllBelow (count fs) is
    → map (λ e. e.index) (entries_at fs is) ≡ is
unfolding entries_at
entries_at-AllBelow fs [] h = refl
entries_at-AllBelow fs (i ∷ is) h =
    let (f, found) = get-below i fs h.0 in
    rw (entries_at, found) (ap (λ r. i ∷ r) (entries_at-AllBelow fs is h.1))

pub entries_at-positions :
    (m : String) (fs : Fragments)
    → map (λ e. e.index) (entries_at fs (positions m 0 fs)) ≡ positions m 0 fs
entries_at-positions m fs =
    entries_at-AllBelow fs (positions m 0 fs)
      (subst (λ n. AllBelow n (positions m 0 fs)) (omega arith) (positions-AllBelow m 0 fs))

-- ===== src/DeepMerge/Lookup.antt =====
-- What a path of keys finds in merged configuration values: nyne/src/deep_merge/mod.rs.
use mathlib.Core.Logic.{ite, if_neg}
use nyne.Prelude.{
  ◌≡◌, ◌≢◌, refl, ap, ap₂, sym, ◌∙◌, Option, none, some, List, [], ◌∷◌, ◌⊎◌, inl, inr, arith, subst,
  Option-cases,
}
use nyne.DeepMerge.{
  Value, scalar, array, table, Table, no_entry, entry, or_empty, get, put, deep_merge, merge_maps,
}

module _ {K A : Type 0} (eq : Discrete K) (empty : Value K A) where
  abbrev pub Away : K → Table K A → Type 0
  Away k no_entry = Unit {0}
  Away k (entry j v rest) = (k ≢ j) × Away k rest

  -- No key stands twice in a map, on any level; arrays are not looked into.
  unfoldable mutual
    pub IsMap : Value K A → Type 0
    IsMap (scalar a) = Unit {0}
    IsMap (array vs) = Unit {0}
    IsMap (table t) = AllMaps t

    pub AllMaps : Table K A → Type 0
    AllMaps no_entry = Unit {0}
    AllMaps (entry k v rest) = Away k rest × IsMap v × AllMaps rest

  get-put :
      (k j : K) (v : Value K A) (t : Table K A)
      → get eq empty k (put eq empty j v t) ≡ ite (eq j k) (some v) (get eq empty k t)
  unfolding get put
  get-put k j v no_entry = refl
  get-put k j v (entry i w rest) = ground (arith, get-put k j v rest)

  get-Away : (k : K) (t : Table K A) → Away k t → get eq empty k t ≡ none
  unfolding get
  get-Away k no_entry away = refl
  get-Away k (entry j v rest) away =
      if_neg (eq j k) (λ h. away.0 (sym h)) _ _ ∙ get-Away k rest away.1

  -- What merged maps have for a key that the overlay has or not.
  abbrev pub merged_at : Option (Value K A) → Option (Value K A) → Option (Value K A)
  merged_at b none = b
  merged_at b (some o) = some (deep_merge eq empty (or_empty empty b) o)

  pub get-merge_maps :
      (k : K) (over base : Table K A)
      → AllMaps over
      → get eq empty k (merge_maps eq empty base over)
        ≡ merged_at (get eq empty k base) (get eq empty k over)
  unfolding merge_maps get AllMaps
  get-merge_maps k no_entry base h = refl
  get-merge_maps k (entry j v over) base h =
      let new = deep_merge eq empty (or_empty empty (get eq empty j base)) v in
      get-merge_maps k over (put eq empty j new base) h.2
      ∙ ap (λ o. merged_at o (get eq empty k over)) (get-put k j new base)
      ∙ (elim (eq j k)
          as (λ d.
            merged_at (ite d (some new) (get eq empty k base)) (get eq empty k over)
            ≡ merged_at (get eq empty k base) (ite d (some v) (get eq empty k over))) [
              | yes same ↦
                  ap (merged_at (some new))
                    (ap (λ x. get eq empty x over) (sym same) ∙ get-Away j over h.0)
                  ∙ ap (λ x. some (deep_merge eq empty (or_empty empty (get eq empty x base)) v))
                      same
              | no other ↦ refl
            ])

  -- The value at the end of a path of keys.
  unfoldable pub get_path : List K → Value K A → Option (Value K A)
  get_path [] v = some v
  get_path (k ∷ path) (table t) = elim (get eq empty k t) [ none ↦ none | some v ↦ get_path path v ]
  get_path (k ∷ path) (scalar a) = none
  get_path (k ∷ path) (array vs) = none

  get-IsMap :
      (k : K) (t : Table K A) (v : Value K A) → AllMaps t → get eq empty k t ≡ some v → IsMap v
  unfolding get AllMaps
  get-IsMap k no_entry v h found = cc
  get-IsMap k (entry j w rest) v h found =
      (elim (eq j k) as (λ d. ite d (some w) (get eq empty k rest) ≡ some v → IsMap v) [
        | yes here ↦ λ e. (let same : w ≡ v = cc in subst IsMap same h.1)
        | no other ↦ λ e. get-IsMap k rest v h.2 e
      ])
        found

  deep_merge-scalar : (base : Value K A) (a : A) → deep_merge eq empty base (scalar a) ≡ scalar a
  unfolding deep_merge
  deep_merge-scalar (scalar b) a = refl
  deep_merge-scalar (array vs) a = refl
  deep_merge-scalar (table t) a = refl

  through_table :
      (k : K) (path : List K) (t : Table K A) (v : Value K A)
      → get eq empty k t ≡ some v
      → get_path (k ∷ path) (table t) ≡ get_path path v
  unfolding get_path
  through_table k path t v found = rw (get_path, found) refl

  -- A scalar that the overlay has at the end of a path is there after the merge, whatever the base has.
  pub get_path-overlay :
      (path : List K) (base over : Value K A) (a : A)
      → IsMap over
      → get_path path over ≡ some (scalar a)
      → get_path path (deep_merge eq empty base over) ≡ some (scalar a)
  unfolding get_path deep_merge IsMap
  get_path-overlay [] base over a h there =
      let it : over ≡ scalar a = cc in
      ap some (ap (deep_merge eq empty base) it ∙ deep_merge-scalar base a)
  get_path-overlay (k ∷ path) base (scalar b) a h there = cc
  get_path-overlay (k ∷ path) base (array vs) a h there = cc
  get_path-overlay (k ∷ path) (scalar b) (table t) a h there = there
  get_path-overlay (k ∷ path) (array vs) (table t) a h there = there
  get_path-overlay (k ∷ path) (table b) (table t) a h there =
      elim (Option-cases (get eq empty k t)) [
        | inl gone ↦
            let nothing : none ≡ some (scalar a) =
              sym (
                ap
                  (λ o. elim o as (λ r. Option (Value K A)) [
                    | none ↦ none
                    | some v ↦ get_path path v
                  ])
                  gone)
              ∙ there in
            cc
        | inr (o, found) ↦
            let new = or_empty empty (get eq empty k b) in
            through_table k path (merge_maps eq empty b t) (deep_merge eq empty new o)
              (get-merge_maps k t b h ∙ ap (merged_at (get eq empty k b)) found)
            ∙ get_path-overlay path new o a (get-IsMap k t o h found)
                (sym (through_table k path t o found) ∙ there)
      ]

  -- The overlay ends on the way along a path, at a map without the next key.
  abbrev pub Misses : List K → Value K A → Type 0
  Misses [] over = ⊥
  Misses (k ∷ path) (scalar a) = ⊥
  Misses (k ∷ path) (array vs) = ⊥
  Misses (k ∷ path) (table t) =
      (get eq empty k t ≡ none) ⊎ ((o : Value K A) × (get eq empty k t ≡ some o) × Misses path o)

  -- What the base has at the end of a path stays when the overlay has maps along the path up to one
  -- without the next key.
  pub get_path-base :
      (path : List K) (base over v : Value K A)
      → IsMap over
      → Misses path over
      → get_path path base ≡ some v
      → get_path path (deep_merge eq empty base over) ≡ some v
  unfolding get_path deep_merge IsMap
  get_path-base [] base over v h miss there = absurd miss
  get_path-base (k ∷ path) base (scalar a) v h miss there = absurd miss
  get_path-base (k ∷ path) base (array vs) v h miss there = absurd miss
  get_path-base (k ∷ path) (scalar b) (table t) v h miss there = cc
  get_path-base (k ∷ path) (array vs) (table t) v h miss there = cc
  get_path-base (k ∷ path) (table b) (table t) v h miss there =
      elim (Option-cases (get eq empty k b)) [
        | inl gone ↦
            let nothing : none ≡ some v =
              sym (
                ap
                  (λ o. elim o as (λ r. Option (Value K A)) [
                    | none ↦ none
                    | some w ↦ get_path path w
                  ])
                  gone)
              ∙ there in
            cc
        | inr (w, found) ↦ elim miss [
          | inl absent ↦
              through_table k path (merge_maps eq empty b t) w
                (get-merge_maps k t b h ∙ ap₂ merged_at found absent)
              ∙ sym (through_table k path b w found)
              ∙ there
          | inr (o, present, deeper) ↦
              through_table k path (merge_maps eq empty b t) (deep_merge eq empty w o)
                (get-merge_maps k t b h ∙ ap₂ merged_at found present)
              ∙ get_path-base path w o v (get-IsMap k t o h present) deeper
                  (sym (through_table k path b w found) ∙ there)
        ]
      ]

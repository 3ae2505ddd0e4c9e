-- ===== src/Source/Fragment/Lines/Found.antt =====
-- The path of a line, from plugins/source/src/syntax/mod.rs, leads back to a fragment on the line.
use Prim.Native.String.{String}
use text.Mathlib.Text.{◌==◌}
use text.Mathlib.TextPositions.{eq_refl}
use nyne.Prelude.{
  text_eq_sound, ℕ, ◌≡◌, ◌≢◌, refl, sym, ap, ap₂, subst, ◌∙◌, Bool, true, false, not, ◌&&◌, Option,
  none, some, List, [], ◌∷◌, if◌then◌else◌, Bool-cases, Option-cases, if_cases, inl, inr,
}
use nyne.Source.Fragment.{
  Fragment, fragment, Fragments, nil, cons, info, children, is_structural, named, find_name,
  find_below, find_fragment,
}
use nyne.Source.Fragment.Lines.{holds, push, path_in, find_fragment_at_line, contains, line_range}

-- No other fragment of the list has the name.
abbrev pub Fresh : Option String → Fragments → Type 0
Fresh none fs = Unit {0}
Fresh (some s) fs = find_name fs s ≡ none

-- Each fragment that is not structural has a name, and the names of siblings are distinct.
unfoldable mutual
  pub Named : Fragment → Type 0
  Named (fragment i s cs) = (is_structural i.kind ≡ false → i.fs_name ≢ none) × AllNamed cs

  pub AllNamed : Fragments → Type 0
  AllNamed nil = Unit {0}
  AllNamed (cons f fs) = Named f × Fresh (info f).fs_name fs × AllNamed fs

find_below-none : (path : List String) (f : Fragment) → find_below none path ≢ some f
unfolding find_below
find_below-none path f h = cc

push-below :
    (g f : Fragment) (path : List String)
    → find_fragment (children g) path ≡ some f
    → find_below (some g) path ≡ some f
unfolding find_below find_fragment
push-below g f [] h = cc
push-below g f (s ∷ path) h = h

found_first :
    (g : Fragment) (gs : Fragments) (n : String) (path : List String) (f : Fragment)
    → (info g).fs_name ≡ some n
    → find_below (some g) path ≡ some f
    → find_fragment (cons g gs) (n ∷ path) ≡ some f
unfolding find_fragment find_name
found_first g gs n path f name h =
    let it : named (info g).fs_name n ≡ true = ap (λ r. named r n) name ∙ eq_refl n in
    ap (λ b. find_below (if b then some g else find_name gs n) path) it ∙ h

found_other :
    (g : Fragment) (gs : Fragments) (s : String) (path : List String) (f : Fragment)
    (name : Option String)
    → Fresh name gs
    → find_below (find_name gs s) path ≡ some f
    → find_below (if named name s then some g else find_name gs s) path ≡ some f
found_other g gs s path f none fresh h = h
found_other g gs s path f (some n) fresh h = elim (Bool-cases (n == s)) [
  | inl same ↦
      let gone : find_name gs s ≡ none = ap (find_name gs) (sym (text_eq_sound n s same)) ∙ fresh in
      absurd (find_below-none path f (ap (λ r. find_below r path) (sym gone) ∙ h))
  | inr other ↦ ap (λ b. find_below (if b then some g else find_name gs s) path) other ∙ h
]

found_later :
    (g : Fragment) (gs : Fragments) (path : List String) (f : Fragment)
    → Fresh (info g).fs_name gs
    → find_fragment gs path ≡ some f
    → find_fragment (cons g gs) path ≡ some f
unfolding find_fragment find_name
found_later g gs [] f fresh h = h
found_later g gs (s ∷ path) f fresh h = found_other g gs s path f (info g).fs_name fresh h

not_left : (a b : Bool) → (not a && b) ≡ true → a ≡ false
not_left true b h = cc
not_left false b h = refl

module _ (line_of_byte : ℕ → ℕ) (line : ℕ) where
  holds-kind :
      (f : Fragment) → holds line_of_byte line f ≡ true → is_structural (info f).kind ≡ false
  unfolding holds
  holds-kind f h =
      not_left (is_structural (info f).kind)
        (contains line_of_byte (line_range line_of_byte f) line) h

  mutual
    unfolding find_fragment_at_line path_in AllNamed Named find_fragment find_below

    found_in :
        (g : Fragment) (gs : Fragments) (path : List String)
        → Named g
        → holds line_of_byte line g ≡ true
        → path_in line_of_byte line g ≡ some path
        → (f : Fragment) × (find_fragment (cons g gs) path ≡ some f)
          × (holds line_of_byte line f ≡ true)
    found_in (fragment i s cs) gs path names here h = elim (Option-cases i.fs_name) [
      | inl nameless ↦ absurd (names.0 (holds-kind (fragment i s cs) here) nameless)
      | inr (n, name) ↦ elim (Option-cases (find_fragment_at_line line_of_byte line cs)) [
        | inl deepest ↦
            let told : some (n ∷ []) ≡ some path =
              ap₂ (push line_of_byte) (sym name) (sym deepest) ∙ h in
            let same : n ∷ [] ≡ path = cc in
            (
              fragment i s cs,
              subst (λ p. find_fragment (cons (fragment i s cs) gs) p ≡ some (fragment i s cs)) same
                  (found_first (fragment i s cs) gs n [] (fragment i s cs) name refl),
              here,
            )
        | inr (below, found) ↦
            let (f, leads, on) = found_among cs below names.1 found in
            let told : some (n ∷ below) ≡ some path =
              ap₂ (push line_of_byte) (sym name) (sym found) ∙ h in
            let same : n ∷ below ≡ path = cc in
            (
              f,
              subst (λ p. find_fragment (cons (fragment i s cs) gs) p ≡ some f) same
                  (found_first (fragment i s cs) gs n below f name
                    (push-below (fragment i s cs) f below leads)),
              on,
            )
      ]
    ]

    found_among :
        (gs : Fragments) (path : List String)
        → AllNamed gs
        → find_fragment_at_line line_of_byte line gs ≡ some path
        → (f : Fragment) × (find_fragment gs path ≡ some f) × (holds line_of_byte line f ≡ true)
    found_among nil path names h = cc
    found_among (cons g gs) path names h =
        elim (if_cases (holds line_of_byte line g) (path_in line_of_byte line g)
          (find_fragment_at_line line_of_byte line gs) h) [
            | inl (here, inside) ↦ found_in g gs path names.0 here inside
            | inr (elsewhere, later) ↦
                let (f, leads, on) = found_among gs path names.2 later in
                (f, found_later g gs path f names.1 leads, on)
          ]

-- ===== src/Source/Naming.antt =====
-- Names of fragments as files: plugins/source/src/syntax/fs_mapping/mod.rs, with the conflict sets of
-- syntax/fragment.rs. The map of names to positions is in the order of their first position, where the
-- source's `HashMap` has any order. Slugs of headings are an argument.
pub mod Format
pub mod Groups
pub mod Numbered
pub mod Positions
pub mod Tests
use Prim.Native.String.{String}
use mathlib.Core.Logic.{ite}
use nyne.Prelude.{
  ℕ, zero, suc, ◌+◌, ◌*◌, Bool, true, false, Option, none, some, List, [], ◌∷◌, ◌++◌, length, ltb,
  ◌==◌, if◌then◌else◌, text_discrete,
}
use nyne.Prelude.Maps.{lookup, insert}
use nyne.Source.Fragment.{
  SymbolKind, FragmentKind, code_block, is_structural, FragmentInfo, Fragment, fragment, Fragments,
  nil, cons, info, FragmentSpan,
}
use nyne.Source.Naming.Format.{decimal, numbered_name, kind_suffixed, indexed_slug, kind_name}

pub data NamingStrategy : Type 0 where
  identity : NamingStrategy
  slugified : Bool → NamingStrategy

pub data ConflictStrategy : Type 0 where
  kind_suffix numbered : ConflictStrategy

pub record ConflictEntry : Type 0 where
  pub index : ℕ
  pub fragment_kind : FragmentKind

pub record ConflictSet : Type 0 where
  pub name : String
  pub entries : List ConflictEntry

pub record Resolution : Type 0 where
  pub index : ℕ
  pub fs_name : Option String

abbrev pub with_fs_name : Option String → Fragment → Fragment
with_fs_name name (fragment i s cs) = fragment (record i { fs_name = name }) s cs

unfoldable pub apply_identity : Fragments → Fragments
apply_identity nil = nil
apply_identity (cons f fs) =
    cons (if is_structural (info f).kind then f else with_fs_name (some (info f).name) f)
      (apply_identity fs)

abbrev pub is_code_block : FragmentKind → Bool
is_code_block (code_block lang) = true
is_code_block kind = false

-- The loop of `apply_slugified` from a position, with the code blocks before it.
unfoldable pub apply_slugified : (String → String) → Bool → ℕ → ℕ → Fragments → Fragments
apply_slugified slugify indexed i blocks nil = nil
apply_slugified slugify indexed i blocks (cons f fs) =
    let slug = slugify (info f).name in
    let after_block = apply_slugified slugify indexed (suc i) (suc blocks) fs in
    let after = apply_slugified slugify indexed (suc i) blocks fs in
    if is_structural (info f).kind
    then cons f after
    else if is_code_block (info f).kind
    then cons (with_fs_name (some (decimal (suc blocks * 10))) f) after_block
    else cons (with_fs_name (some (if indexed then indexed_slug i slug else slug)) f) after

abbrev pub apply_naming : (String → String) → NamingStrategy → Fragments → Fragments
apply_naming slugify identity fs = apply_identity fs
apply_naming slugify (slugified indexed) fs = apply_slugified slugify indexed 0 0 fs

unfoldable pub push_index : String → ℕ → List (String × List ℕ) → List (String × List ℕ)
push_index name i [] = (name, i ∷ []) ∷ []
push_index name i ((m, is) ∷ acc) =
    ite (text_discrete m name) ((m, is ++ i ∷ []) ∷ acc) ((m, is) ∷ push_index name i acc)

abbrev pub push_name : Option String → ℕ → List (String × List ℕ) → List (String × List ℕ)
push_name none i acc = acc
push_name (some name) i acc = push_index name i acc

-- The loop over the fragments from a position.
unfoldable pub name_indices : ℕ → Fragments → List (String × List ℕ) → List (String × List ℕ)
name_indices i nil acc = acc
name_indices i (cons f fs) acc = name_indices (suc i) fs (push_name (info f).fs_name i acc)

unfoldable pub get_fragment : ℕ → Fragments → Option Fragment
get_fragment i nil = none
get_fragment zero (cons f fs) = some f
get_fragment (suc i) (cons f fs) = get_fragment i fs

abbrev pub entry_of : Option Fragment → ℕ → List ConflictEntry → List ConflictEntry
entry_of none i rest = rest
entry_of (some f) i rest = record { index = i; fragment_kind = (info f).kind } ∷ rest

unfoldable pub entries_at : Fragments → List ℕ → List ConflictEntry
entries_at fs [] = []
entries_at fs (i ∷ is) = entry_of (get_fragment i fs) i (entries_at fs is)

unfoldable pub conflicts : Fragments → List (String × List ℕ) → List ConflictSet
conflicts fs [] = []
conflicts fs ((name, is) ∷ rest) =
    let others = conflicts fs rest in
    if ltb 1 (length is)
    then record { name = name; entries = entries_at fs is } ∷ others
    else others

abbrev pub number_label : String → ℕ → String
number_label name zero = name
number_label name (suc k) = numbered_name name (suc (suc k))

-- The entries from the one of rank `k` on.
unfoldable pub number_entries : String → ℕ → List ConflictEntry → List Resolution
number_entries name k [] = []
number_entries name k (e ∷ es) =
    record { index = e.index; fs_name = some (number_label name k) }
    ∷ number_entries name (suc k) es

unfoldable pub resolve_numbered : List ConflictSet → List Resolution
resolve_numbered [] = []
resolve_numbered (c ∷ cs) = number_entries c.name 0 c.entries ++ resolve_numbered cs

abbrev pub seen_before : Option ℕ → ℕ
seen_before none = 0
seen_before (some n) = n

abbrev pub suffix_label : String → String → ℕ → String
suffix_label name kind zero = kind_suffixed name kind
suffix_label name kind (suc k) = numbered_name (kind_suffixed name kind) (suc (suc k))

-- The entries of a set, with how often each kind has been seen.
unfoldable pub suffix_entries : String → List (String × ℕ) → List ConflictEntry → List Resolution
suffix_entries name seen [] = []
suffix_entries name seen (e ∷ es) =
    let kind = kind_name e.fragment_kind in
    let count = seen_before (lookup text_discrete kind seen) in
    record { index = e.index; fs_name = some (suffix_label name kind count) }
    ∷ suffix_entries name (insert text_discrete kind (suc count) seen) es

unfoldable pub resolve_kind_suffix : List ConflictSet → List Resolution
resolve_kind_suffix [] = []
resolve_kind_suffix (c ∷ cs) = suffix_entries c.name [] c.entries ++ resolve_kind_suffix cs

abbrev pub resolve_conflicts : ConflictStrategy → List ConflictSet → List Resolution
resolve_conflicts kind_suffix cs = resolve_kind_suffix cs
resolve_conflicts numbered cs = resolve_numbered cs

unfoldable pub set_fs_name : ℕ → Option String → Fragments → Fragments
set_fs_name i name nil = nil
set_fs_name zero name (cons f fs) = cons (with_fs_name name f) fs
set_fs_name (suc i) name (cons f fs) = cons f (set_fs_name i name fs)

unfoldable pub apply_resolutions : List Resolution → Fragments → Fragments
apply_resolutions [] fs = fs
apply_resolutions (r ∷ rs) fs = apply_resolutions rs (set_fs_name r.index r.fs_name fs)

unfoldable pub resolve_level_conflicts : ConflictStrategy → Fragments → Fragments
resolve_level_conflicts strategy fs =
    apply_resolutions (resolve_conflicts strategy (conflicts fs (name_indices 0 fs []))) fs

module _ (slugify : String → String) (naming : NamingStrategy) (strategy : ConflictStrategy) where
  abbrev pub name_level : Fragments → Fragments
  name_level fs = resolve_level_conflicts strategy (apply_naming slugify naming fs)

  -- `assign_fs_names`, and its loop over the children of each fragment.
  unfoldable mutual
    pub name_below : Fragment → Fragment
    name_below (fragment i s cs) = fragment i s (name_level (name_children cs))

    pub name_children : Fragments → Fragments
    name_children nil = nil
    name_children (cons f fs) = cons (name_below f) (name_children fs)

  unfoldable pub assign_fs_names : Fragments → Fragments
  assign_fs_names fs = name_level (name_children fs)

-- ===== src/Visibility/Names.antt =====
-- Names of processes: `truncate_comm` of nyne/src/process/procfs and the name rules of
-- plugins/visibility/src/visibility_map/mod.rs.
use mathlib.Core.Logic.{if_pos}
use native.Mathlib.Decide.{ℕ_discrete}
use nyne.Prelude.{
  starts_char, ℕ, zero, suc, ◌≡◌, ◌≤◌, ◌<◌, refl, ap, sym, ◌∙◌, true, false, none, some, List, [],
  ◌∷◌, ◌⊎◌, inl, inr, length, take, get_elem?, ltb, Bool-cases, ltb→lt, lt→ltb, length-take,
  take_all, arith,
}
use nyne.Prelude.Maps.{lookup, insert, lookup-insert}
use nyne.Visibility.{
  Level, Host, VisibilityMap, Name, name_discrete, comm_max_len, floor_char_boundary, truncate_comm,
  resolve, resolve_by_rules, resolve_by_comm, has_rules, set_name_rule, cache_resolved,
}

-- The last place of a character's start up to `i`, or 0.
pub record IsFloor (name : Name) (i k : ℕ) : Type 0 where
  pub below : k ≤ i
  pub starts : (k ≡ 0) ⊎ (starts_char (get_elem? name k) ≡ true)
  pub last : (j : ℕ) → k < j → j ≤ i → starts_char (get_elem? name j) ≡ false

floor_char_boundary-IsFloor : (name : Name) (i : ℕ) → IsFloor name i (floor_char_boundary name i)
unfolding floor_char_boundary
floor_char_boundary-IsFloor name zero = record {
  below = omega arith;
  starts = inl refl;
  last = λ j more less. absurd (omega arith);
}
floor_char_boundary-IsFloor name (suc i) =
    elim (Bool-cases (starts_char (get_elem? name (suc i)))) [
      | inl here ↦
          rw (floor_char_boundary, here)
            (record {
              below = omega arith;
              starts = inr here;
              last = λ j more less. absurd (omega arith);
            })
      | inr inside ↦
          let rest = floor_char_boundary-IsFloor name i in
          rw (floor_char_boundary, inside)
            (record {
              below = omega (arith, rest.below);
              starts = rest.starts;
              last = λ j more less. elim (ℕ_discrete j (suc i)) [
                | yes it ↦ ap (λ k. starts_char (get_elem? name k)) it ∙ inside
                | no other ↦ rest.last j more (omega arith)
              ];
            })
    ]

-- A truncated name is the name, if that has at most 15 bytes, or else its part before the last
-- start of a character among the bytes 0 to 15.
pub truncate_comm_lem :
    (name : Name)
    → ((length name ≤ 15) × (truncate_comm name ≡ name))
      ⊎ ((15 < length name)
          × (k : ℕ) × IsFloor name 15 k
          × (truncate_comm name ≡ take k name)
          × (length (truncate_comm name) ≡ k))
unfolding truncate_comm
truncate_comm_lem name = elim (Bool-cases (ltb comm_max_len (length name))) [
  | inl long ↦
      let k = floor_char_boundary name comm_max_len in
      let floor : IsFloor name 15 k = floor_char_boundary-IsFloor name comm_max_len in
      let more : 15 < length name = ltb→lt 15 (length name) long in
      inr (
        more,
        k,
        floor,
        rw (truncate_comm, long) refl,
        rw (truncate_comm, long) (omega (arith, length-take k name, floor.below)),
      )
  | inr short ↦ inl (ground arith, rw (truncate_comm, short) refl)
]

abbrev pub AllAscii : Name → Type 0
AllAscii [] = Unit {0}
AllAscii (b ∷ bs) = (b < 128) × AllAscii bs

AllAscii-starts : (name : Name) (i : ℕ) → AllAscii name → starts_char (get_elem? name i) ≡ true
AllAscii-starts [] i h = refl
AllAscii-starts (b ∷ bs) zero h = rw (lt→ltb b 128 h.0) refl
AllAscii-starts (b ∷ bs) (suc i) h = AllAscii-starts bs i h.1

floor_all : (name : Name) (k : ℕ) → AllAscii name → IsFloor name 15 k → k ≡ 15
floor_all name k ascii floor = elim (Bool-cases (ltb k 15)) [
  | inl less ↦
      let clash : true ≡ false =
        sym (AllAscii-starts name 15 ascii) ∙ floor.last 15 (ltb→lt k 15 less) (omega arith) in
      cc
  | inr enough ↦ ground (arith, floor.below)
]

truncate-AllAscii : (name : Name) → AllAscii name → truncate_comm name ≡ take 15 name
truncate-AllAscii name ascii = elim (truncate_comm_lem name) [
  | inl (short, same) ↦ same ∙ sym (take_all 15 name short)
  | inr (long, k, floor, cut, size) ↦ cut ∙ ap (λ n. take n name) (floor_all name k ascii floor)
]

found_name :
    (m : VisibilityMap) (name : Name) (v : Level)
    → lookup name_discrete (truncate_comm name) (set_name_rule m name v).dynamic_name_rules ≡ some v
unfolding set_name_rule
found_name m name v =
    lookup-insert name_discrete (truncate_comm name) (truncate_comm name) v m.dynamic_name_rules
    ∙ if_pos (name_discrete (truncate_comm name) (truncate_comm name)) refl _ _

ruled_by_comm :
    (host : Host) (m : VisibilityMap) (pid : ℕ) (name : Name) (v : Level)
    → host.comm pid ≡ some (truncate_comm name)
    → resolve_by_comm host (set_name_rule m name v) pid ≡ some v
unfolding resolve_by_comm
ruled_by_comm host m pid name v named = rw (resolve_by_comm, named, found_name m name v) refl

rules_there :
    (rules : List (Name × Level)) (m : VisibilityMap) (name : Name) (v : Level)
    → has_rules rules (set_name_rule m name v).dynamic_name_rules ≡ true
unfolding set_name_rule insert
rules_there [] m name v = refl
rules_there (r ∷ rs) m name v = refl

ruled_by_name :
    (host : Host) (m : VisibilityMap) (pid : ℕ) (name : Name) (v : Level)
    → host.comm pid ≡ some (truncate_comm name)
    → resolve_by_rules host (set_name_rule m name v) pid ≡ some v
unfolding resolve_by_rules
ruled_by_name host m pid name v named =
    rw (resolve_by_rules, rules_there (set_name_rule m name v).name_rules m name v)
      (ruled_by_comm host m pid name v named)

-- A rule for a name, of any length in ASCII, decides for a process of that name that has not been
-- resolved before: its reported name is cut to 15 bytes as the rule's is.
pub resolve-set_name_rule :
    (host : Host) (m : VisibilityMap) (pid : ℕ) (name : Name) (v : Level)
    → AllAscii name
    → host.comm pid ≡ some (take 15 name)
    → lookup ℕ_discrete pid m.pid_entries ≡ none
    → (resolve host (set_name_rule m name v) pid).1 ≡ v
unfolding resolve cache_resolved set_name_rule
resolve-set_name_rule host m pid name v ascii named fresh =
    let ruled =
      ruled_by_name host m pid name v (named ∙ ap some (sym (truncate-AllAscii name ascii))) in
    rw (resolve, fresh, ruled) refl

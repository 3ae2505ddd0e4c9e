-- ===== src/Source/Naming/Tests.antt =====
-- Runs of the theorems on the sections of a document.
use Prim.Native.String.{String}
use text.Mathlib.Text.{◌==◌}
use nyne.Prelude.{◌≡◌, ◌≢◌, refl, ap, true, false, none, some}
use nyne.Source.Fragment.{section, Fragment, fragment, Fragments, nil, cons}
use nyne.Source.Naming.{numbered, resolve_level_conflicts}
use nyne.Source.Naming.Format.{numbered_name, decimal, digits}
use nyne.Source.Naming.Numbered.{resolve_level_conflicts-collides}
use nyne.Source.Naming.Positions.{name_at}

abbrev named_section : String → Fragment
named_section name =
    fragment
      (record {
        name = name;
        kind = section 2;
        signature = none;
        visibility = none;
        metadata = none;
        parent_name = none;
        fs_name = some name;
      })
      (record {
        byte_range = record { start = 0; end = 4 };
        full_span = record { start = 0; end = 4 };
        name_byte_offset = 0;
      })
      nil

abbrev sections : Fragments
sections =
    cons (named_section "usage") (cons (named_section "usage") (cons (named_section "usage-2") nil))

apart : "usage" ≢ numbered_name "usage" 2
unfolding numbered_name decimal digits
apart h = let clash : true ≡ false = ap (λ s. s == "usage") h in cc

resolve_level_conflicts-collides_example :
    name_at 1 (resolve_level_conflicts numbered sections)
    ≡ name_at 2 (resolve_level_conflicts numbered sections)
unfolding numbered_name decimal digits
resolve_level_conflicts-collides_example =
    resolve_level_conflicts-collides (named_section "usage") (named_section "usage")
      (named_section "usage-2") "usage" refl refl refl apart

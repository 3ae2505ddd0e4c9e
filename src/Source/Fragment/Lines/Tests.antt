-- ===== src/Source/Fragment/Lines/Tests.antt =====
-- A run of the theorem on lines at a struct with a method, ten bytes a line.
use Prim.Native.String.{String}
use nyne.Prelude.{ℕ, ◌/◌, none, some}
use nyne.Source.Fragment.{
  SymbolKind, function_kind, struct_kind, symbol, Fragment, fragment, Fragments, nil, cons,
  full_span,
}

abbrev line_of_byte : ℕ → ℕ
line_of_byte byte = byte / 10

abbrev sample : SymbolKind → String → ℕ → ℕ → Fragments → Fragment
sample kind name start end children =
    fragment
      record {
        name = name;
        kind = symbol kind;
        signature = none;
        visibility = none;
        metadata = none;
        parent_name = none;
        fs_name = some name;
      }
      record {
        byte_range = record { start = start; end = end };
        full_span = record { start = start; end = end };
        name_byte_offset = start;
      }
      children

abbrev file : Fragments
file =
    cons (sample struct_kind "Counter" 0 35 (cons (sample function_kind "next" 12 25 nil) nil))
      (cons (sample function_kind "main" 40 55 nil) nil)

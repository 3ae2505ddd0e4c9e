-- ===== src/Source/Naming/Format.antt =====
-- Names as they are printed: the suffixes of plugins/source/src/syntax/fs_mapping/mod.rs, the `Display` of
-- fragment kinds in syntax/fragment.rs, and decimal numbers.
use Prim.Native.String.{String, ◌++◌}
use nyne.Prelude.{ℕ, zero, suc, ◌/◌, ◌%◌, Option, none, some, ltb, ◌==◌, if◌then◌else◌}
use nyne.Source.Fragment.{
  SymbolKind, function_kind, struct_kind, enum_kind, trait_kind, const_kind, static_kind,
  type_alias, impl_kind, macro_kind, class_kind, interface_kind, module_kind, variable_kind,
  decorator_kind, FragmentKind, symbol, docstring, imports, decorator, section, code_block,
  preamble,
}

abbrev pub digit : ℕ → String
digit d =
    if d == 0
    then "0"
    else if d == 1
    then "1"
    else if d == 2
    then "2"
    else if d == 3
    then "3"
    else if d == 4
    then "4"
    else if d == 5
    then "5"
    else if d == 6
    then "6"
    else if d == 7
    then "7"
    else if d == 8
    then "8"
    else "9"

-- The fuel bounds the digits; a number has fewer than its successor.
unfoldable pub digits : ℕ → ℕ → String
digits zero n = ""
digits (suc fuel) n =
    let front = digits fuel (n / 10) in if ltb n 10 then digit n else front ++ digit (n % 10)

unfoldable pub decimal : ℕ → String
decimal n = digits (suc n) n

-- `{:02}`.
unfoldable pub two_digits : ℕ → String
two_digits n = if ltb n 10 then "0" ++ decimal n else decimal n

-- `{name}-{k}`.
unfoldable pub numbered_name : String → ℕ → String
numbered_name name k = name ++ ("-" ++ decimal k)

unfoldable pub kind_suffixed : String → String → String
kind_suffixed name kind = name ++ ("~" ++ kind)

abbrev pub indexed_slug : ℕ → String → String
indexed_slug i slug = two_digits i ++ ("-" ++ slug)

abbrev pub code_block_name : Option String → String
code_block_name none = "CodeBlock"
code_block_name (some lang) = "CodeBlock(" ++ (lang ++ ")")

abbrev pub symbol_name : SymbolKind → String
symbol_name function_kind = "Function"
symbol_name struct_kind = "Struct"
symbol_name enum_kind = "Enum"
symbol_name trait_kind = "Trait"
symbol_name const_kind = "Const"
symbol_name static_kind = "Static"
symbol_name type_alias = "TypeAlias"
symbol_name impl_kind = "Impl"
symbol_name macro_kind = "Macro"
symbol_name class_kind = "Class"
symbol_name interface_kind = "Interface"
symbol_name module_kind = "Module"
symbol_name variable_kind = "Variable"
symbol_name decorator_kind = "Decorator"

unfoldable pub kind_name : FragmentKind → String
kind_name (symbol kind) = symbol_name kind
kind_name docstring = "Docstring"
kind_name imports = "Imports"
kind_name decorator = "Decorator"
kind_name (section level) = "Section(h" ++ (decimal level ++ ")")
kind_name (code_block lang) = code_block_name lang
kind_name preamble = "Preamble"

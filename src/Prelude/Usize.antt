-- ===== src/Prelude/Usize.antt =====
-- `usize` of a 64-bit target.
use Prim.Native.Nat.{ℕ, ◌+◌, min}

abbrev pub usize_max : ℕ
usize_max = 0xffff_ffff_ffff_ffff

abbrev pub saturating_add : ℕ → ℕ → ℕ
saturating_add a b = min (a + b) usize_max

-- ===== src/Fuse/Slab.antt =====
-- The `slab` crate as nyne/src/fuse uses it: what `Slab` documents of its operations. A key that
-- `insert` gives is not in use; every other key keeps its entry.
pub mod Vacant
use nyne.Prelude.{ℕ, ◌≡◌, Option, none, some, Bool, true, ◌==◌, if◌then◌else◌, map_option}

pub record Slab (E : Type 0) : Type 1 where
  pub Store : Type 0
  pub new : Store
  pub get : Store → ℕ → Option E
  pub insert : Store → E → Store × ℕ
  pub remove : Store → ℕ → Store
  -- A write through `get_mut`, which does nothing at a vacant key.
  pub put : Store → ℕ → E → Store
  -- A pass of `iter_mut`.
  pub update : (E → E) → Store → Store
  pub any : (E → Bool) → Store → Bool
  pub get-new : (i : ℕ) → get new i ≡ none
  pub get-fresh : (s : Store) (e : E) → get s (insert s e).1 ≡ none
  pub get-insert :
      (s : Store) (e : E) (i : ℕ)
      → get (insert s e).0 i ≡ (if i == (insert s e).1 then some e else get s i)
  pub get-remove : (s : Store) (k i : ℕ) → get (remove s k) i ≡ (if i == k then none else get s i)
  pub get-put :
      (s : Store) (k : ℕ) (e : E) (i : ℕ)
      → get (put s k e) i ≡ (if i == k then map_option (λ old. e) (get s k) else get s i)
  pub get-update : (f : E → E) (s : Store) (i : ℕ) → get (update f s) i ≡ map_option f (get s i)
  pub any-found :
      (p : E → Bool) (s : Store)
      → any p s ≡ true
      → (i : ℕ) × (e : E) × (get s i ≡ some e) × (p e ≡ true)
  pub any-of_get :
      (p : E → Bool) (s : Store) (i : ℕ) (e : E) → get s i ≡ some e → p e ≡ true → any p s ≡ true

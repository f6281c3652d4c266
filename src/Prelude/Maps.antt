-- ===== src/Prelude/Maps.antt =====
-- Go's `map[K]V` as a partial function: assignment and `delete`, with their laws in `ite` form.
use mathlib.Core.Path.{◌≡◌, refl}
use mathlib.Core.Logic.{◌≢◌, ite}
use native.Mathlib.Omega.{arith}
use mathlib.Core.Option.{Option, none, some}

module _ {ℓ κ} {K : Type ℓ} {V : Type κ} (dec : Discrete K) where
  unfoldable pub put : K → V → (K → Option V) → K → Option V
  put k v m j = ite (dec j k) (some v) (m j)

  unfoldable pub delete : K → (K → Option V) → K → Option V
  delete k m j = ite (dec j k) none (m j)

  pub get-put :
      (k : K) (v : V) (m : K → Option V) (j : K) → put k v m j ≡ ite (dec j k) (some v) (m j)
  unfolding put
  get-put k v m j = refl

  pub get-delete : (k : K) (m : K → Option V) (j : K) → delete k m j ≡ ite (dec j k) none (m j)
  unfolding delete
  get-delete k m j = refl

  pub put_self : (k : K) (v : V) (m : K → Option V) → put k v m k ≡ some v
  unfolding put
  put_self k v m = ground arith

  pub put_ne : (k : K) (v : V) (m : K → Option V) (j : K) → j ≢ k → put k v m j ≡ m j
  unfolding put
  put_ne k v m j h = ground arith

  pub delete_self : (k : K) (m : K → Option V) → delete k m k ≡ none
  unfolding delete
  delete_self k m = ground arith

  pub delete_ne : (k : K) (m : K → Option V) (j : K) → j ≢ k → delete k m j ≡ m j
  unfolding delete
  delete_ne k m j h = ground arith

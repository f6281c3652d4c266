-- ===== src/Prelude/Slices.antt =====
-- Slices of pointers: reading, writing and their laws. A pointer is a number.
use Prim.Native.Nat.{ℕ, zero, suc, ◌<◌}
use mathlib.Core.Path.{◌≡◌, refl, ap}
use mathlib.Core.Logic.{◌⊎◌, inl, inr}
use mathlib.Core.Option.{Option, none, some}
use mathlib.Core.List.{List, [], ◌∷◌, ◌++◌}
use native.Mathlib.Omega.{arith}
use rampardos.Prelude.Tests.{◌==◌, if◌then◌else◌}
use rampardos.Prelude.Lists.{length, take}

module _ {ℓ} {E : Type ℓ} where
  abbrev pub get_elem? : List E → ℕ → Option E
  get_elem? [] k = none
  get_elem? (e ∷ l) zero = some e
  get_elem? (e ∷ l) (suc k) = get_elem? l k

  abbrev pub set : List E → ℕ → E → List E
  set [] k w = []
  set (e ∷ l) zero w = w ∷ l
  set (e ∷ l) (suc k) w = e ∷ set l k w

  pub length-set : (l : List E) (k : ℕ) (w : E) → length (set l k w) ≡ length l
  length-set [] k w = refl
  length-set (e ∷ l) zero w = refl
  length-set (e ∷ l) (suc k) w = ap suc (length-set l k w)

-- The pointer in a slot, for statements; the code reads with `get_elem?`.
unfoldable pub slot : List ℕ → ℕ → ℕ
slot [] k = 0
slot (e ∷ l) zero = e
slot (e ∷ l) (suc k) = slot l k

pub get_elem?-slot : (l : List ℕ) (k : ℕ) → k < length l → get_elem? l k ≡ some (slot l k)
unfolding slot
get_elem?-slot [] k h = absurd (omega arith)
get_elem?-slot (e ∷ l) zero h = refl
get_elem?-slot (e ∷ l) (suc k) h = get_elem?-slot l k (omega arith)

pub slot-set :
    (l : List ℕ) (k c w : ℕ) → k < length l → slot (set l k w) c ≡ (if c == k then w else slot l c)
unfolding slot
slot-set [] k c w h = absurd (omega arith)
slot-set (e ∷ l) zero zero w h = refl
slot-set (e ∷ l) zero (suc c) w h = ground arith
slot-set (e ∷ l) (suc k) zero w h = ground arith
slot-set (e ∷ l) (suc k) (suc c) w h = ground (arith, slot-set l k c w)

pub slot-append : (l m : List ℕ) (c : ℕ) → c < length l → slot (l ++ m) c ≡ slot l c
unfolding slot
slot-append [] m c h = absurd (omega arith)
slot-append (e ∷ l) m zero h = refl
slot-append (e ∷ l) m (suc c) h = slot-append l m c (omega arith)

pub slot-append_last : (l : List ℕ) (w : ℕ) → slot (l ++ w ∷ []) (length l) ≡ w
unfolding slot
slot-append_last [] w = refl
slot-append_last (e ∷ l) w = slot-append_last l w

pub slot-take : (n : ℕ) (l : List ℕ) (c : ℕ) → c < n → slot (take n l) c ≡ slot l c
unfolding slot
slot-take zero l c h = absurd (omega arith)
slot-take (suc n) [] c h = refl
slot-take (suc n) (e ∷ l) zero h = refl
slot-take (suc n) (e ∷ l) (suc c) h = slot-take n l c (omega arith)

pub slot-head : (e : ℕ) (l : List ℕ) → slot (e ∷ l) 0 ≡ e
unfolding slot
slot-head e l = refl

pub List-cases {ℓ} : {E : Type ℓ} (l : List E) → (l ≡ []) ⊎ ((e : E) × (m : List E) × (l ≡ e ∷ m))
List-cases [] = inl refl
List-cases (e ∷ l) = inr (e, l, refl)

-- ===== src/Prelude/Lists.antt =====
-- Lists measured and indexed by native numbers, under the library's names.
use Prim.Native.Nat.{ℕ, zero, suc, ◌+◌, ◌-◌, ◌≤◌, min}
use mathlib.Core.Path.{◌≡◌, refl, sym, ap, ◌∙◌}
use mathlib.Core.List.{List, [], ◌∷◌, ◌++◌}
use native.Mathlib.Omega.{arith}

module _ {ℓ} {E : Type ℓ} where
  abbrev pub length : List E → ℕ
  length [] = 0
  length (e ∷ l) = suc (length l)

  abbrev pub take : ℕ → List E → List E
  take zero l = []
  take (suc k) [] = []
  take (suc k) (e ∷ l) = e ∷ take k l

  abbrev pub drop : ℕ → List E → List E
  drop zero l = l
  drop (suc k) [] = []
  drop (suc k) (e ∷ l) = drop k l

  abbrev pub All {κ} : (E → Type κ) → List E → Type κ
  All P [] = Unit
  All P (e ∷ l) = P e × All P l

  pub length-append : (l m : List E) → length (l ++ m) ≡ length l + length m
  length-append [] m = omega arith
  length-append (e ∷ l) m = omega (arith, length-append l m)

module _ {ℓ} {E : Type ℓ} where
  pub take-append-drop : (n : ℕ) (l : List E) → take n l ++ drop n l ≡ l
  take-append-drop zero l = refl
  take-append-drop (suc k) [] = refl
  take-append-drop (suc k) (e ∷ l) = ap (◌∷◌ e) (take-append-drop k l)

  pub length-take : (n : ℕ) (l : List E) → length (take n l) ≡ min n (length l)
  length-take zero l = omega arith
  length-take (suc k) [] = omega arith
  length-take (suc k) (e ∷ l) = omega (arith, length-take k l)

  pub length-drop : (n : ℕ) (l : List E) → length (drop n l) ≡ length l - n
  length-drop zero l = omega arith
  length-drop (suc k) [] = omega arith
  length-drop (suc k) (e ∷ l) = omega (arith, length-drop k l)

  pub take-length-append : (l m : List E) → take (length l) (l ++ m) ≡ l
  take-length-append [] m = refl
  take-length-append (e ∷ l) m = ap (◌∷◌ e) (take-length-append l m)

  pub drop-length-append : (l m : List E) → drop (length l) (l ++ m) ≡ m
  drop-length-append [] m = refl
  drop-length-append (e ∷ l) m = drop-length-append l m

  pub take_of_length-le : (n : ℕ) (l : List E) → length l ≤ n → take n l ≡ l
  take_of_length-le zero [] h = refl
  take_of_length-le zero (e ∷ l) h = absurd (omega arith)
  take_of_length-le (suc k) [] h = refl
  take_of_length-le (suc k) (e ∷ l) h = ap (◌∷◌ e) (take_of_length-le k l (omega arith))

  pub drop_of_length-le : (n : ℕ) (l : List E) → length l ≤ n → drop n l ≡ []
  drop_of_length-le zero [] h = refl
  drop_of_length-le zero (e ∷ l) h = absurd (omega arith)
  drop_of_length-le (suc k) [] h = refl
  drop_of_length-le (suc k) (e ∷ l) h = drop_of_length-le k l (omega arith)

  pub drop-drop : (m n : ℕ) (l : List E) → drop m (drop n l) ≡ drop (n + m) l
  drop-drop m zero l = ap (λ k. drop k l) (omega arith)
  drop-drop m (suc k) [] =
      drop_of_length-le m [] (omega arith) ∙ sym (drop_of_length-le (suc k + m) [] (omega arith))
  drop-drop m (suc k) (e ∷ l) =
      drop-drop m k l ∙ ap (λ k. drop k (e ∷ l)) {x = suc (k + m)} (omega arith)

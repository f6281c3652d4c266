-- ===== src/Lru/Evict.antt =====
-- Eviction from the back of the list, and the loops that evict while the list is too long.
use rampardos.Prelude.{
  ℕ, zero, suc, ◌≤◌, ◌<◌, ltb, if◌then◌else◌, ◌≡◌, inl, inr, refl, sym, ap, ◌∙◌, Bool, true, Option,
  some, none, List, [], ◌∷◌, length, take, take_of_length-le, Bool-cases, Option-cases, ltb→lt,
  arith,
}
use rampardos.Lru.{Lru, back, remove}
use rampardos.Lru.Agree.{Agree, remove-Agree}
use rampardos.Lru.Items.{All-back, back-cons}
use rampardos.Lru.View.{view, items, drop_last, length-drop_last, length-items, items-unlink-back}

pub take-drop_last :
    {E : Type 0} (m : ℕ) (l : List E) → m < length l → take m (drop_last l) ≡ take m l
take-drop_last zero l h = refl
take-drop_last (suc m) [] h = refl
take-drop_last (suc m) (x ∷ []) h = absurd (omega arith)
take-drop_last (suc m) (x ∷ y ∷ l) h = ap (◌∷◌ x) (take-drop_last m (y ∷ l) (omega arith))

pub drop_last_of_none :
    {E : Type 0} (l : List (ℕ × E)) → back l ≡ none → items l ≡ drop_last (items l)
drop_last_of_none [] h = refl
drop_last_of_none (x ∷ l) h = let (y, q) = back-cons x l in cc

-- `for over(lru.Len()) { evict }`, with fuel: `none` means that the loop has not ended.
unfoldable pub shrink :
    {K E : Type 0} → (Lru K E → Lru K E) → ℕ → (ℕ → Bool) → Lru K E → Option (Lru K E)
shrink evict zero over c = none
shrink evict (suc fuel) over c =
    let rest = shrink evict fuel over (evict c) in if over (length c.lru) then rest else some c

-- A loop whose test never fails does not end, whatever the fuel.
pub shrink_never :
    {K E : Type 0} (evict : Lru K E → Lru K E) (fuel : ℕ) (over : ℕ → Bool) (c : Lru K E)
    → ((n : ℕ) → over n ≡ true)
    → shrink evict fuel over c ≡ none
unfolding shrink
shrink_never evict zero over c o = refl
shrink_never evict (suc fuel) over c o =
    rw (o (length c.lru)) (shrink_never evict fuel over (evict c) o)

module _ {K E : Type 0} (dec : Discrete K) (key : E → K) where
  -- `oldest := lru.Back(); if oldest != nil { lru.Remove(oldest); delete(entries, oldest.key) }`
  unfoldable pub evict : Lru K E → Lru K E
  unfolding back
  evict c = elim (back c.lru) [ none ↦ c | some (i, e) ↦ remove dec i (key e) c ]

  pub evict-Agree :
      (c : Lru K E)
      → Agree dec key c
      → Agree dec key (evict c) × (view (evict c) ≡ drop_last (view c))
  unfolding evict remove
  evict-Agree c a = elim (Option-cases (back c.lru)) [
    | inl h ↦ rw (h, evict) (a, drop_last_of_none c.lru h)
    | inr (x, h) ↦
        rw (h, evict)
          (
            remove-Agree dec key c x.0 (key x.1) a (All-back _ c.lru a.listed h),
            items-unlink-back c.lru x.0 x.1 a.unique h,
          )
  ]

  -- A loop that evicts while there are more than `m` entries ends, with the `m` most recent ones.
  pub shrink-take :
      (fuel : ℕ) (over : ℕ → Bool) (m : ℕ) (c : Lru K E)
      → Agree dec key c
      → ((n : ℕ) → over n ≡ ltb m n)
      → length c.lru < fuel
      → (c' : Lru K E) × (shrink evict fuel over c ≡ some c')
        × Agree dec key c'
        × (view c' ≡ take m (view c))
  unfolding shrink
  shrink-take zero over m c a o f = absurd (omega arith)
  shrink-take (suc fuel) over m c a o f = elim (Bool-cases (ltb m (length c.lru))) [
    | inl more ↦
        let n : m < length (view c) = omega (arith, ltb→lt m _ more, length-items c.lru) in
        let (b, v) = evict-Agree c a in
        let shorter : length (evict c).lru < fuel = omega (
          arith,
          length-items (evict c).lru,
          length-items c.lru,
          length-drop_last (view c),
          ap length v,
        ) in
        let (c', r, d, w) = shrink-take fuel over m (evict c) b o shorter in
        (c', rw (o (length c.lru), more) r, d, w ∙ ap (take m) v ∙ take-drop_last m (view c) n)
    | inr done ↦
        let n : length (view c) ≤ m = ground (arith, length-items c.lru) in
        (c, rw (o (length c.lru), done), a, sym (take_of_length-le m (view c) n))
  ]

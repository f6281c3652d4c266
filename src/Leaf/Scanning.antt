-- ===== src/Leaf/Scanning.antt =====
-- leaf_to_jet.go: how the scan of splitIfBody passes over templates and conditions.
use rampardos.Prelude.{
  ℕ, zero, suc, ◌+◌, ◌-◌, ◌≡◌, refl, sym, ap, ◌∙◌, true, List, [], ◌∷◌, ◌++◌, length, take, drop,
  take-length-append, drop-length-append, drop-drop, arith, pos,
}
use rampardos.Leaf.{
  JetIfParts, Scan, directive, if_open, endif, elseif_open, close_colon, slice, end_block,
  elseif_step, split_step, split_loop, is_text, returned, advance,
}
use rampardos.Leaf.Nesting.{
  Nested, stop, text, enter, leave, Fresh, directive-inert, balanced, find_condition_end-balanced,
}

abbrev pub scan_at : ℕ → ℕ → JetIfParts → Scan
scan_at d start p = record { depth = pos d; current_block_start = start; parts = p }

pub drop_further : (i : ℕ) (body u s : List ℕ) → drop i body ≡ u ++ s → drop (i + length u) body ≡ s
drop_further i body u s h =
    sym (drop-drop (length u) i body) ∙ ap (drop (length u)) h ∙ drop-length-append u s

pub slice_at : (i : ℕ) (body u s : List ℕ) → drop i body ≡ u ++ s → slice i (i + length u) body ≡ u
slice_at zero body u s h =
    ap (λ k. take k body) {x = 0 + length u} (omega arith)
    ∙ ap (take (length u)) h
    ∙ take-length-append u s
slice_at (suc i) [] [] s h =
    ap (λ k. slice (suc i) k []) {x = suc i + 0} {y = suc (i + 0)} (omega arith)
slice_at (suc i) [] (x ∷ u) s h = absurd (ground arith)
slice_at (suc i) (c ∷ body) u s h =
    ap (λ k. slice (suc i) k (c ∷ body)) {x = suc i + length u} {y = suc (i + length u)}
      (omega arith)
    ∙ slice_at i body u s h

-- The bytes of a directive are passed over.
split_loop-passing :
    (body u s : List ℕ) (n m i : ℕ) (st : Scan)
    → n ≡ length u + m
    → split_loop body n i st (u ++ s) ≡ split_loop body m (i + length u) st s
unfolding split_loop
split_loop-passing body [] s n m i st h =
    ap (λ k. split_loop body k i st s) {x = n} {y = m} (omega arith)
    ∙ ap (λ k. split_loop body m k st s) {x = i} {y = i + 0} (omega arith)
split_loop-passing body (c ∷ u) s zero m i st h = absurd (omega arith)
split_loop-passing body (c ∷ u) s (suc n) m i st h =
    split_loop-passing body u s n m (suc i) st (omega arith)
    ∙ ap (λ k. split_loop body m k st s) {x = suc i + length u} (omega arith)

split_loop-text :
    (body : List ℕ) (i c : ℕ) (st : Scan) (s : List ℕ)
    → directive st.depth (c ∷ s) ≡ is_text
    → split_loop body 0 i st (c ∷ s) ≡ split_loop body 0 (suc i) st s
unfolding split_loop split_step
split_loop-text body i c st s h = rw (h, split_loop) refl

pub split_loop-advance :
    (body : List ℕ) (i c n : ℕ) (st next : Scan) (s : List ℕ)
    → split_step (directive st.depth (c ∷ s)) body i st ≡ advance n next
    → split_loop body 0 i st (c ∷ s) ≡ split_loop body n (suc i) next s
unfolding split_loop
split_loop-advance body i c n st next s h = rw (h, split_loop) refl

pub split_loop-returned :
    (body : List ℕ) (i c : ℕ) (st : Scan) (found : JetIfParts) (s : List ℕ)
    → split_step (directive st.depth (c ∷ s)) body i st ≡ returned found
    → split_loop body 0 i st (c ∷ s) ≡ found
unfolding split_loop
split_loop-returned body i c st found s h = rw (h, split_loop) refl

split_loop-at :
    (body : List ℕ) (i k : ℕ) (st : Scan) (s : List ℕ)
    → i ≡ k
    → split_loop body 0 i st s ≡ split_loop body 0 k st s
split_loop-at body i k st s e = ap (λ n. split_loop body 0 n st s) e

-- The scan of a template brings its depth back to 0 and changes nothing else.
pub split_loop-Nested :
    (body : List ℕ) (d : ℕ) (s r : List ℕ) (i start : ℕ) (p : JetIfParts)
    → Nested d s
    → Fresh r
    → split_loop body 0 i (scan_at d start p) (s ++ r)
      ≡ split_loop body 0 (i + length s) (scan_at 0 start p) r
unfolding split_loop split_step directive
split_loop-Nested body _ _ r i start p stop f =
    split_loop-at body i (i + 0) (scan_at 0 start p) r (omega arith)
split_loop-Nested body d _ r i start p (text {s = s} c t n) f =
    split_loop-text body i c (scan_at d start p) (s ++ r) (directive-inert d c s r f t)
    ∙ split_loop-Nested body d s r (suc i) start p n f
    ∙ split_loop-at body (suc i + length s) (i + suc (length s)) (scan_at 0 start p) r (omega arith)
split_loop-Nested body d _ r i start p (enter {s = s} n) f =
    split_loop-Nested body (suc d) s r (suc (suc (suc (suc i)))) start p n f
    ∙ split_loop-at body _ (i + length (if_open ++ s)) (scan_at 0 start p) r (omega arith)
split_loop-Nested body _ _ r i start p (leave {d = d} {s = s} n) f =
    split_loop-Nested body d s r (suc (suc (suc (suc (suc (suc i)))))) start p n f
    ∙ split_loop-at body _ (i + length (endif ++ s)) (scan_at 0 start p) r (omega arith)

-- The place behind an `#elseif(` at `i` with its condition.
abbrev pub behind : ℕ → List ℕ → ℕ
behind i cond = i + length cond + 10

abbrev pub with_condition : JetIfParts → List ℕ → JetIfParts
with_condition p cond = record p { elseif_conditions = p.elseif_conditions ++ cond ∷ [] }

module _ (body cond s : List ℕ) (i : ℕ)
    (here : drop i body ≡ elseif_open ++ (cond ++ (close_colon ++ s)))
    (good : balanced 0 cond ≡ true) where
  elseif_step-balanced :
      (p : JetIfParts) (st : Scan)
      → elseif_step body i p st
        ≡ advance
            (length cond + 9)
            (record st { current_block_start = behind i cond; parts = with_condition p cond })
  unfolding elseif_step
  elseif_step-balanced p st =
      let end_ : i + 7 + length cond + 3 ≡ behind i cond = omega arith in
      let jump : behind i cond - suc i ≡ length cond + 9 = omega arith in
      let close : behind i cond - 2 ≡ i + 8 + length cond = omega arith in
      rw
        (
          find_condition_end-balanced body cond s (i + 7)
              (drop_further i body (take 7 elseif_open) (b'(' ∷ (cond ++ (close_colon ++ s))) here)
              good,
          elseif_step,
          end_,
          jump,
          close,
          slice_at (i + 8) body cond (close_colon ++ s)
              (drop_further i body elseif_open (cond ++ (close_colon ++ s)) here),
        )
        refl

  pub drop-behind : drop (behind i cond) body ≡ s
  drop-behind =
      ap (λ k. drop k body) {x = behind i cond} {y = i + 8 + length cond + 2} (omega arith)
      ∙ drop_further (i + 8 + length cond) body close_colon s (
          drop_further (i + 8) body cond (close_colon ++ s)
            (drop_further i body elseif_open (cond ++ (close_colon ++ s)) here))

  pub split_loop-elseif :
      (start : ℕ) (p : JetIfParts)
      → split_loop body 0 i (scan_at 0 start p) (elseif_open ++ (cond ++ (close_colon ++ s)))
        ≡ split_loop body 0
            (behind i cond)
            (scan_at 0 (behind i cond) (with_condition (end_block body i (scan_at 0 start p)) cond))
            s
  unfolding split_step directive
  split_loop-elseif start p =
      let st = scan_at 0 start p in
      let ended = end_block body i st in
      let next = scan_at 0 (behind i cond) (with_condition ended cond) in
      split_loop-advance body i b'#' (length cond + 9) st next
        (drop 1 elseif_open ++ (cond ++ (close_colon ++ s))) (elseif_step-balanced ended st)
      ∙ split_loop-passing body (drop 1 elseif_open) (cond ++ (close_colon ++ s)) (length cond + 9)
          (length cond + 2) (suc i) next (omega arith)
      ∙ split_loop-passing body cond (close_colon ++ s) (length cond + 2) 2 (suc i + 7) next
          (omega arith)
      ∙ split_loop-passing body close_colon s 2 0 (suc i + 7 + length cond) next (omega arith)
      ∙ split_loop-at body (suc i + 7 + length cond + 2) (behind i cond) next s (omega arith)

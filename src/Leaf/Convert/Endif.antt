-- ===== src/Leaf/Convert/Endif.antt =====
-- convertIfStatements: the `#endif` that its scan finds for a block.
use rampardos.Prelude.{
  ℕ, suc, ◌+◌, ◌≡◌, refl, ap, ◌∙◌, false, Option, some, none, List, [], ◌∷◌, ◌++◌, All, length,
  length-append, arith, ℤ, pos,
}
use mathlib.Core.List.{append_assoc}
use rampardos.Leaf.{
  is_text, directive, if_open, endif, else_colon, close_colon, has_prefix, is_zero,
}
use rampardos.Leaf.Nesting.{Nested, stop, text, enter, leave, Fresh, directive-inert}
use rampardos.Leaf.Chains.{
  IsHashless, Branch, Chain, leaf_else, leaf_branches, leaf_body, IsBranch, IsChain, IsOtherwise,
}
use rampardos.Leaf.Split.{leaf_branches-Fresh}
use rampardos.Leaf.Convert.{endif_loop}

endif_loop-at : (i k : ℕ) (d : ℤ) (s : List ℕ) → i ≡ k → endif_loop 0 i d s ≡ endif_loop 0 k d s
endif_loop-at i k d s e = ap (λ n. endif_loop 0 n d s) e

endif_loop-step :
    (i c : ℕ) (d : ℤ) (s : List ℕ)
    → has_prefix (c ∷ s) if_open ≡ false
    → has_prefix (c ∷ s) endif ≡ false
    → endif_loop 0 i d (c ∷ s) ≡ endif_loop 0 (suc i) d s
unfolding endif_loop
endif_loop-step i c d s p q = rw (p, q, endif_loop) refl

not_if : (d : ℤ) (s : List ℕ) → directive d s ≡ is_text → has_prefix s if_open ≡ false
unfolding directive
not_if d s t = ground arith

not_endif : (d : ℤ) (s : List ℕ) → directive d s ≡ is_text → has_prefix s endif ≡ false
unfolding directive
not_endif d s t = ground arith

pub endif_loop-hashless :
    (u s : List ℕ) (i : ℕ) (d : ℤ)
    → IsHashless u
    → endif_loop 0 i d (u ++ s) ≡ endif_loop 0 (i + length u) d s
endif_loop-hashless [] s i d h = endif_loop-at i (i + 0) d s (omega arith)
endif_loop-hashless (c ∷ u) s i d (h, hs) =
    endif_loop-step i c d (u ++ s) (rw h refl) (rw h refl)
    ∙ endif_loop-hashless u s (suc i) d hs
    ∙ endif_loop-at (suc i + length u) (i + suc (length u)) d s (omega arith)

open_still : (d : ℕ) → is_zero (pos (suc d)) ≡ false
open_still d = ground arith

endif_loop-leave :
    (i d : ℕ) (s : List ℕ)
    → endif_loop 0 i (pos (suc (suc d))) (endif ++ s)
      ≡ endif_loop 0 (suc (suc (suc (suc (suc (suc i)))))) (pos (suc d)) s
unfolding endif_loop
endif_loop-leave i d s = rw (open_still d, endif_loop) refl

-- A template inside of a block is passed over.
endif_loop-Nested :
    (d : ℕ) (s r : List ℕ) (i : ℕ)
    → Nested d s
    → Fresh r
    → endif_loop 0 i (pos (suc d)) (s ++ r) ≡ endif_loop 0 (i + length s) (pos 1) r
unfolding endif_loop
endif_loop-Nested _ _ r i stop f = endif_loop-at i (i + 0) (pos 1) r (omega arith)
endif_loop-Nested d _ r i (text {s = s} c t n) f =
    let same = directive-inert d c s r f t in
    endif_loop-step i c (pos (suc d)) (s ++ r) (not_if (pos d) (c ∷ (s ++ r)) same)
      (not_endif (pos d) (c ∷ (s ++ r)) same)
    ∙ endif_loop-Nested d s r (suc i) n f
    ∙ endif_loop-at (suc i + length s) (i + suc (length s)) (pos 1) r (omega arith)
endif_loop-Nested d _ r i (enter {s = s} n) f =
    endif_loop-Nested (suc d) s r (suc (suc (suc (suc i)))) n f
    ∙ endif_loop-at _ (i + length (if_open ++ s)) (pos 1) r (omega arith)
endif_loop-Nested _ _ r i (leave {d = d} {s = s} n) f =
    endif_loop-leave i d (s ++ r)
    ∙ endif_loop-Nested d s r (suc (suc (suc (suc (suc (suc i)))))) n f
    ∙ endif_loop-at _ (i + length (endif ++ s)) (pos 1) r (omega arith)

Fresh-append : (s r : List ℕ) → Fresh s → Fresh r → Fresh (s ++ r)
Fresh-append [] r f g = g
Fresh-append (c ∷ s) r f g = f

endif_loop-then :
    (s u r : List ℕ) (i : ℕ)
    → Nested 0 s
    → Fresh u
    → Fresh r
    → endif_loop 0 i (pos 1) (s ++ u ++ r) ≡ endif_loop 0 (i + length s) (pos 1) (u ++ r)
endif_loop-then s u r i n f g =
    ap (λ x. endif_loop 0 i (pos 1) x) (append_assoc s u r)
    ∙ endif_loop-Nested 0 s (u ++ r) i n (Fresh-append u r f g)

-- So are the branches of a block, and its `#else`.
endif_loop-branches :
    (bs : List Branch) (e : Option (List ℕ)) (r : List ℕ) (i : ℕ)
    → All IsBranch bs
    → IsOtherwise e
    → Fresh r
    → endif_loop 0 i (pos 1) (leaf_branches bs (leaf_else e) ++ r)
      ≡ endif_loop 0 (i + length (leaf_branches bs (leaf_else e))) (pos 1) r
unfolding endif_loop leaf_branches leaf_else
endif_loop-branches [] none r i g o f = endif_loop-at i (i + 0) (pos 1) r (omega arith)
endif_loop-branches [] (some b) r i g o f =
    endif_loop-Nested 0 b r (suc (suc (suc (suc (suc (suc i)))))) o f
    ∙ endif_loop-at _ (i + length (else_colon ++ b)) (pos 1) r (omega arith)
endif_loop-branches (b ∷ bs) e r i (((flat, hashless), deep), g) o f =
    let tail = leaf_branches bs (leaf_else e) in
    let inner = close_colon ++ (b.block ++ tail) in
    let k = suc (suc (suc (suc (suc (suc (suc (suc i))))))) + length b.condition in
    ap (λ x. endif_loop 0 (suc (suc (suc (suc (suc (suc (suc (suc i)))))))) (pos 1) x)
      (append_assoc b.condition inner r)
    ∙ endif_loop-hashless b.condition (inner ++ r) (suc (suc (suc (suc (suc (suc (suc (suc i))))))))
        (pos 1) hashless
    ∙ endif_loop-then b.block tail r (suc (suc k)) deep (leaf_branches-Fresh bs e) f
    ∙ endif_loop-branches bs e r (suc (suc k) + length b.block) g o f
    ∙ endif_loop-at _ (i + length (leaf_branches (b ∷ bs) (leaf_else e))) (pos 1) r
        (omega (arith, length-append b.condition inner, length-append b.block tail))

-- So is a chain.
pub endif_loop-leaf_body :
    (chain : Chain) (r : List ℕ) (i : ℕ)
    → IsChain chain
    → Fresh r
    → endif_loop 0 i (pos 1) (leaf_body chain ++ r)
      ≡ endif_loop 0 (i + length (leaf_body chain)) (pos 1) r
unfolding leaf_body
endif_loop-leaf_body chain r i (n, g, o) f =
    let tail = leaf_branches chain.branches (leaf_else chain.otherwise) in
    endif_loop-then chain.first tail r i n (leaf_branches-Fresh chain.branches chain.otherwise) f
    ∙ endif_loop-branches chain.branches chain.otherwise r (i + length chain.first) g o f
    ∙ endif_loop-at _ (i + length (chain.first ++ tail)) (pos 1) r
        (omega (arith, length-append chain.first tail))

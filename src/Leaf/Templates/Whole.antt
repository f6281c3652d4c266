-- ===== src/Leaf/Templates/Whole.antt =====
-- convertIfStatements on a template: rounds until no block is left.
use rampardos.Prelude.{
  ◌>>=◌, ℕ, zero, suc, ◌+◌, ◌<◌, ◌==◌, ◌≡◌, refl, sym, ap, ◌∙◌, false, some, none, List, [], ◌∷◌,
  ◌++◌, length, length-append, arith,
}
use mathlib.Core.List.{append_assoc, append-nil}
use rampardos.Leaf.{if_open}
use rampardos.Leaf.Convert.{index_loop, convert_round, convert_if_statements}
use rampardos.Leaf.Convert.Replace.{leaf_block, jet_block, convert_round-leaf_block}
use rampardos.Leaf.Templates.{
  Template, done, text_byte, hash_pair, if_block, leaf, jet, chain_of, IsTemplate, blocks,
}
use rampardos.Leaf.Templates.Chained.{chain_of-IsChain}
use rampardos.Leaf.Chains.{IsHashless}
use rampardos.Leaf.Templates.Unroll.{
  unroll, leaf-unroll, jet-unroll, blocks-unroll, unroll-IsTemplate,
}

-- Text in which no `#if(` begins, whatever follows.
abbrev IsClean : List ℕ → Type 0
IsClean before =
    (s : List ℕ) (i : ℕ)
    → index_loop if_open i (before ++ s) ≡ index_loop if_open (i + length before) s

index_loop-byte :
    (c : ℕ) (s : List ℕ) (i : ℕ)
    → (c == b'#') ≡ false
    → index_loop if_open i (c ∷ s) ≡ index_loop if_open (suc i) s
unfolding index_loop
index_loop-byte c s i h = rw (h, index_loop) refl

index_loop-hash :
    (c : ℕ) (s : List ℕ) (i : ℕ)
    → (c == b'i') ≡ false
    → index_loop if_open i (b'#' ∷ c ∷ s) ≡ index_loop if_open (suc i) (c ∷ s)
unfolding index_loop
index_loop-hash c s i h = ground arith

byte-IsClean :
    (before : List ℕ) (c : ℕ) → IsClean before → (c == b'#') ≡ false → IsClean (before ++ c ∷ [])
byte-IsClean before c clean h s i =
    ap (λ x. index_loop if_open i x) (append_assoc before (c ∷ []) s)
    ∙ clean (c ∷ s) i
    ∙ index_loop-byte c s (i + length before) h
    ∙ ap (λ k. index_loop if_open k s) {x = suc (i + length before)}
        (omega (arith, length-append before (c ∷ [])))

hash-IsClean :
    (before : List ℕ) (c : ℕ)
    → IsClean before
    → (c == b'#') ≡ false
    → (c == b'i') ≡ false
    → IsClean (before ++ b'#' ∷ c ∷ [])
hash-IsClean before c clean h k s i =
    ap (λ x. index_loop if_open i x) (append_assoc before (b'#' ∷ c ∷ []) s)
    ∙ clean (b'#' ∷ c ∷ s) i
    ∙ index_loop-hash c s (i + length before) k
    ∙ index_loop-byte c s (suc (i + length before)) h
    ∙ ap (λ k. index_loop if_open k s) {x = suc (suc (i + length before))}
        (omega (arith, length-append before (b'#' ∷ c ∷ [])))

clean-none : (before : List ℕ) → IsClean before → index_loop if_open 0 before ≡ none
unfolding index_loop
clean-none before clean = ap (index_loop if_open 0) (sym (append-nil before)) ∙ clean [] 0

module _ (convert_condition : List ℕ → List ℕ) where
  convert_if_statements-next :
      (n : ℕ) (template next : List ℕ)
      → convert_round convert_condition template ≡ some next
      → convert_if_statements convert_condition (suc n) template
        ≡ convert_if_statements convert_condition n next
  unfolding convert_if_statements
  convert_if_statements-next n template next h = rw (h, convert_if_statements) refl

  convert_round-none :
      (template : List ℕ)
      → index_loop if_open 0 template ≡ none
      → convert_round convert_condition template ≡ none
  unfolding convert_round
  convert_round-none template h = rw (h, ◌>>=◌) refl

  convert_if_statements-end :
      (n : ℕ) (template : List ℕ)
      → index_loop if_open 0 template ≡ none
      → convert_if_statements convert_condition (suc n) template ≡ some template
  unfolding convert_if_statements
  convert_if_statements-end n template h =
      rw (convert_round-none template h, convert_if_statements) refl

  module _ (keeps : (c : List ℕ) → IsHashless c → IsHashless (convert_condition c)) where
    -- Behind text that has no block any more.
    convert_if_statements-behind :
        (n : ℕ) (t : Template) (before : List ℕ)
        → IsClean before
        → IsTemplate t
        → blocks t < n
        → convert_if_statements convert_condition n (before ++ leaf t)
          ≡ some (before ++ jet convert_condition t)
    unfolding leaf jet blocks IsTemplate
    convert_if_statements-behind zero t before clean g h = absurd (omega arith)
    convert_if_statements-behind (suc n) done before clean g h =
        ap (convert_if_statements convert_condition (suc n)) (append-nil before)
        ∙ convert_if_statements-end n before (clean-none before clean)
        ∙ ap some (sym (append-nil before))
    convert_if_statements-behind (suc n) (text_byte c t) before clean (k, g) h =
        ap (convert_if_statements convert_condition (suc n))
          (sym (append_assoc before (c ∷ []) (leaf t)))
        ∙ convert_if_statements-behind (suc n) t (before ++ c ∷ []) (byte-IsClean before c clean k)
            g h
        ∙ ap some (append_assoc before (c ∷ []) (jet convert_condition t))
    convert_if_statements-behind (suc n) (hash_pair c t) before clean (k, j, e, g) h =
        ap (convert_if_statements convert_condition (suc n))
          (sym (append_assoc before (b'#' ∷ c ∷ []) (leaf t)))
        ∙ convert_if_statements-behind (suc n) t (before ++ b'#' ∷ c ∷ [])
            (hash-IsClean before c clean k j) g h
        ∙ ap some (append_assoc before (b'#' ∷ c ∷ []) (jet convert_condition t))
    convert_if_statements-behind (suc n) (if_block c f bs t) before clean (cond, gf, gb, g) h =
        let next = unroll convert_condition c f bs t in
        convert_if_statements-next n (before ++ (leaf_block c (chain_of f bs) ++ leaf t))
          (before ++ jet_block convert_condition c (chain_of f bs) ++ leaf t)
          (convert_round-leaf_block convert_condition before c (leaf t) (chain_of f bs)
            (clean-none before clean) cond (chain_of-IsChain f bs gf gb))
        ∙ ap (convert_if_statements convert_condition n) (
            append_assoc before (jet_block convert_condition c (chain_of f bs)) (leaf t)
            ∙ ap (λ x. before ++ x) (leaf-unroll convert_condition c f bs t))
        ∙ convert_if_statements-behind n next before clean
            (unroll-IsTemplate convert_condition keeps c f bs t cond gf gb g)
            (omega (arith, blocks-unroll convert_condition c f bs t))
        ∙ ap (λ x. some (before ++ x)) (jet-unroll convert_condition c f bs t)

    -- If the conversion of a condition adds no hash, then convertIfStatements ends on every
    -- template that is built from text, hashes before a byte that is no hash, i or e, and #if
    -- blocks to any depth whose conditions have balanced brackets and no hash, after one round for
    -- each block and one more, with the same template in Jet: the blocks in their branches and
    -- order, each condition converted, the text unchanged and an empty else block left out.
    pub convert_if_statements-leaf :
        (t : Template) (n : ℕ)
        → IsTemplate t
        → blocks t < n
        → convert_if_statements convert_condition n (leaf t) ≡ some (jet convert_condition t)
    unfolding index_loop
    convert_if_statements-leaf t n g h =
        convert_if_statements-behind n t [] (λ s i. ap (λ k. index_loop if_open k s) (omega arith))
          g h

-- ===== src/Leaf/Convert/Replace.antt =====
-- What a round of convertIfStatements makes of the first block.
use rampardos.Prelude.{
  ◌>>=◌, ℕ, suc, ◌+◌, ◌-◌, ◌==◌, if◌then◌else◌, ◌≡◌, refl, ap, ◌∙◌, Option, some, none, List, [],
  ◌∷◌, ◌++◌, map, length, take, drop, length-append, take-length-append, drop-length-append, arith,
  pos,
}
use mathlib.Core.List.{append_assoc}
use rampardos.Leaf.{
  if_open, endif, close_colon, find_condition_end, slice, convert_if_block, write_elseifs, jet_if,
  jet_close, jet_end,
}
use rampardos.Leaf.Nesting.{has_prefix-append, find_condition_end-balanced}
use rampardos.Leaf.Chains.{else_block_of, Branch, Chain, leaf_body, IsChain, IsCondition}
use rampardos.Leaf.Scanning.{drop_further, slice_at}
use rampardos.Leaf.Split.{split_if_body-leaf_body}
use rampardos.Leaf.Convert.{index_loop, endif_loop, find_endif, convert_round}
use rampardos.Leaf.Convert.Endif.{endif_loop-hashless, endif_loop-leaf_body}

unfoldable pub leaf_block : List ℕ → Chain → List ℕ
leaf_block condition chain = if_open ++ (condition ++ (close_colon ++ (leaf_body chain ++ endif)))

module _ (convert_condition : List ℕ → List ℕ) where
  -- The branches and the block of a chain in Jet.
  unfoldable pub jet_branches : List Branch → List ℕ
  jet_branches [] = []
  jet_branches (b ∷ bs) =
      b'{' ∷ b'{' ∷ b' ' ∷ b'e' ∷ b'l' ∷ b's' ∷ b'e' ∷ b' ' ∷ b'i' ∷ b'f' ∷ b' ' ∷ []
      ++ convert_condition b.condition
      ++ jet_close
      ++ b.block
      ++ jet_branches bs

  -- An empty `#else` block is left out.
  abbrev pub jet_otherwise : Option (List ℕ) → List ℕ
  jet_otherwise none = []
  jet_otherwise (some []) = []
  jet_otherwise (some (c ∷ b)) =
      b'{' ∷ b'{' ∷ b' ' ∷ b'e' ∷ b'l' ∷ b's' ∷ b'e' ∷ b' ' ∷ b'}' ∷ b'}' ∷ c ∷ b

  unfoldable pub jet_block : List ℕ → Chain → List ℕ
  jet_block condition chain =
      jet_if
      ++ convert_condition condition
      ++ jet_close
      ++ chain.first
      ++ jet_branches chain.branches
      ++ jet_otherwise chain.otherwise
      ++ jet_end

  write_elseifs-branches :
      (bs : List Branch)
      → write_elseifs convert_condition (map (λ b. b.condition) bs) (map (λ b. b.block) bs)
        ≡ jet_branches bs
  unfolding write_elseifs jet_branches
  write_elseifs-branches [] = refl
  write_elseifs-branches (b ∷ bs) = rw (write_elseifs-branches bs) refl

  otherwise_block :
      (e : Option (List ℕ))
      → (if length (else_block_of e) == 0
          then []
          else b'{'
            ∷ b'{'
            ∷ b' '
            ∷ b'e'
            ∷ b'l'
            ∷ b's'
            ∷ b'e'
            ∷ b' '
            ∷ b'}'
            ∷ b'}'
            ∷ else_block_of e)
        ≡ jet_otherwise e
  otherwise_block none = refl
  otherwise_block (some []) = refl
  otherwise_block (some (c ∷ b)) = ground arith

  convert_if_block-leaf_body :
      (condition : List ℕ) (chain : Chain)
      → IsChain chain
      → convert_if_block convert_condition condition (leaf_body chain) ≡ jet_block condition chain
  unfolding convert_if_block jet_block
  convert_if_block-leaf_body condition chain good =
      rw
        (
          split_if_body-leaf_body chain good,
          write_elseifs-branches chain.branches,
          otherwise_block chain.otherwise,
        )
        refl

index_loop-first :
    (before s : List ℕ) (i : ℕ)
    → index_loop if_open i before ≡ none
    → index_loop if_open i (before ++ (if_open ++ s)) ≡ some (i + length before)
unfolding index_loop
index_loop-first [] s i h = ap some (omega arith)
index_loop-first (c ∷ before) s i h =
    let same =
      has_prefix-append before (if_open ++ s) (drop 1 if_open) refl (refl, (refl, (refl, tt))) in
    ground (arith, index_loop-first before s (suc i))

find_endif-leaf_block :
    (before condition after : List ℕ) (chain : Chain)
    → IsCondition condition
    → IsChain chain
    → find_endif (before ++ (leaf_block condition chain ++ after)) (length before)
      ≡ some (length before + 6 + length condition + length (leaf_body chain))
unfolding find_endif leaf_block endif_loop
find_endif-leaf_block before condition after chain (flat, hashless) good =
    let n = length before in
    let m = suc (suc (suc (suc n))) + length condition in
    let inner = close_colon ++ (leaf_body chain ++ endif) in
    ap (λ x. endif_loop 0 n (pos 0) x)
      (drop-length-append before (leaf_block condition chain ++ after))
    ∙ ap (λ x. endif_loop 0 (suc (suc (suc (suc n)))) (pos 1) x)
        (append_assoc condition inner after)
    ∙ endif_loop-hashless condition (inner ++ after) (suc (suc (suc (suc n)))) (pos 1) hashless
    ∙ ap (λ x. endif_loop 0 (suc (suc m)) (pos 1) x) (append_assoc (leaf_body chain) endif after)
    ∙ endif_loop-leaf_body chain (endif ++ after) (suc (suc m)) good refl
    ∙ ap some (omega arith)

-- A round from what its parts find.
convert_round-parts :
    (convert_condition : List ℕ → List ℕ) (template block condition body before after : List ℕ)
    (if_start endif_pos cond_end : ℕ)
    → index_loop if_open 0 template ≡ some if_start
    → find_endif template if_start ≡ some endif_pos
    → slice if_start (endif_pos + 6) template ≡ block
    → find_condition_end block 3 ≡ some cond_end
    → slice 4 (cond_end - 2) block ≡ condition
    → slice cond_end (length block - 6) block ≡ body
    → take if_start template ≡ before
    → drop (endif_pos + 6) template ≡ after
    → convert_round convert_condition template
      ≡ some (before ++ convert_if_block convert_condition condition body ++ after)
unfolding convert_round
convert_round-parts f t block c body before after i e k h1 h2 h3 h4 h5 h6 h7 h8 =
    rw (h1, ◌>>=◌, h2, ◌>>=◌, h3, h4, ◌>>=◌, h5, h6, h7, h8) refl

module _ (convert_condition : List ℕ → List ℕ) (before condition after : List ℕ)
    (chain : Chain) where
  block_length :
      length (leaf_block condition chain) ≡ length condition + length (leaf_body chain) + 12
  unfolding leaf_block
  block_length = omega (
    arith,
    length-append condition (close_colon ++ (leaf_body chain ++ endif)),
    length-append (leaf_body chain) endif,
  )

  -- A round of convertIfStatements on a template whose first #if block is a chain replaces exactly
  -- that block by the same chain in Jet: each condition converted, each block in its branch
  -- unchanged, and an empty else block left out. Blocks may hold #if blocks that are closed in
  -- them, and conditions have balanced brackets and no hash.
  pub convert_round-leaf_block :
      index_loop if_open 0 before ≡ none
      → IsCondition condition
      → IsChain chain
      → convert_round convert_condition (before ++ (leaf_block condition chain ++ after))
        ≡ some (before ++ jet_block convert_condition condition chain ++ after)
  unfolding leaf_block
  convert_round-leaf_block no_if (flat, hashless) good =
      let n = length before in
      let e = n + 6 + length condition + length (leaf_body chain) in
      let c = 3 + length condition + 3 in
      let block = leaf_block condition chain in
      let inner = leaf_body chain ++ endif in
      let template = before ++ (block ++ after) in
      let behind_endif : e + 6 ≡ n + length block = omega (arith, block_length) in
      let cond_close : c - 2 ≡ 4 + length condition = omega arith in
      let body_end : length block - 6 ≡ c + length (leaf_body chain) =
        omega (arith, block_length) in
      let in_body : drop c block ≡ inner =
        ap (λ k. drop k block) {x = c} {y = 4 + length condition + 2} (omega arith)
        ∙ drop_further (4 + length condition) block close_colon inner
            (drop_further 4 block condition (close_colon ++ inner) refl) in
      convert_round-parts convert_condition template block condition (leaf_body chain) before after
        n e c
        (index_loop-first before (condition ++ (close_colon ++ inner) ++ after) 0 no_if
          ∙ ap some (omega arith))
        (find_endif-leaf_block before condition after chain (flat, hashless) good)
        (ap (λ x. slice n x template) behind_endif
          ∙ slice_at n template block after (drop-length-append before (block ++ after)))
        (find_condition_end-balanced block condition inner 3 refl flat)
        (ap (λ x. slice 4 x block) cond_close
          ∙ slice_at 4 block condition (close_colon ++ inner) refl)
        (ap (λ x. slice c x block) body_end ∙ slice_at c block (leaf_body chain) endif in_body)
        (take-length-append before (block ++ after))
        (ap (λ x. drop x template) behind_endif
          ∙ drop_further n template block after (drop-length-append before (block ++ after)))
      ∙ ap (λ x. some (before ++ x ++ after))
          (convert_if_block-leaf_body convert_condition condition chain good)

-- ===== src/Leaf/Split.antt =====
-- leaf_to_jet.go: what splitIfBody finds in a body that is a chain of branches.
use rampardos.Prelude.{
  ℕ, suc, ◌+◌, ◌<◌, ◌≡◌, refl, sym, ap, ◌∙◌, Option, some, none, List, [], ◌∷◌, ◌++◌, map, All,
  length, take, drop, length-append, take-length-append, arith,
}
use mathlib.Core.List.{append_assoc, append-nil}
use rampardos.Leaf.{
  JetIfParts, directive, else_colon, slice, end_block, split_step, without_else, split_loop,
  no_parts, split_if_body,
}
use rampardos.Leaf.Nesting.{Nested, Fresh}
use rampardos.Leaf.Chains.{
  Branch, Chain, leaf_else, leaf_branches, leaf_body, IsBranch, IsChain, else_block_of, chain_parts,
}
use rampardos.Leaf.Scanning.{
  scan_at, drop_further, slice_at, split_loop-returned, split_loop-Nested, behind, with_condition,
  drop-behind, split_loop-elseif,
}

pub leaf_branches-Fresh :
    (bs : List Branch) (e : Option (List ℕ)) → Fresh (leaf_branches bs (leaf_else e))
unfolding leaf_branches leaf_else
leaf_branches-Fresh [] none = tt
leaf_branches-Fresh [] (some b) = refl
leaf_branches-Fresh (b ∷ bs) e = refl

abbrev parts_of : List ℕ → List (List ℕ) → List (List ℕ) → List ℕ → JetIfParts
parts_of t cs bs e = record {
  then_block = t;
  elseif_conditions = cs;
  elseif_blocks = bs;
  else_block = e;
}

end_block-later :
    (body : List ℕ) (i k : ℕ) (t : List ℕ) (cs bs : List (List ℕ))
    → 0 < i
    → end_block body k (scan_at 0 i (parts_of t cs bs []))
      ≡ parts_of t cs (bs ++ slice i k body ∷ []) []
unfolding end_block
end_block-later body i k t cs bs h = ground arith

without_else-later :
    (body : List ℕ) (i : ℕ) (t : List ℕ) (cs bs : List (List ℕ))
    → 0 < i
    → length bs < length cs
    → without_else body (scan_at 0 i (parts_of t cs bs []))
      ≡ parts_of t cs (bs ++ drop i body ∷ []) []
unfolding without_else
without_else-later body i t cs bs h k = ground arith

-- From an `#else:` on, or at the end, where the last block started behind an `#elseif`.
split_loop-last :
    (body block t : List ℕ) (e : Option (List ℕ)) (cs bs : List (List ℕ)) (i : ℕ)
    → drop i body ≡ block ++ leaf_else e
    → 0 < i
    → length bs < length cs
    → split_loop body 0 (i + length block) (scan_at 0 i (parts_of t cs bs [])) (leaf_else e)
      ≡ parts_of t cs (bs ++ block ∷ []) (else_block_of e)
unfolding split_loop leaf_else split_step directive
split_loop-last body block t none cs bs i here far more =
    without_else-later body i t cs bs far more
    ∙ ap (λ x. parts_of t cs (bs ++ x ∷ []) []) (here ∙ append-nil block)
split_loop-last body block t (some b) cs bs i here far more =
    let k = i + length block in
    let st = scan_at 0 i (parts_of t cs bs []) in
    let rest =
      drop_further k body else_colon b (drop_further i body block (else_colon ++ b) here) in
    split_loop-returned body k b'#' st
      (record (end_block body k st) { else_block = drop (k + 6) body }) (drop 1 else_colon ++ b)
      refl
    ∙ ap {A = JetIfParts} {B = JetIfParts} (λ q. record q { else_block = drop (k + 6) body })
        (end_block-later body i k t cs bs far)
    ∙ ap (λ x. parts_of t cs (bs ++ x ∷ []) (drop (k + 6) body))
        (slice_at i body block (else_colon ++ b) here)
    ∙ ap (λ x. parts_of t cs (bs ++ block ∷ []) x) rest

split_loop-branches :
    (body t : List ℕ) (bs : List Branch) (e : Option (List ℕ)) (block : List ℕ)
    (cs ks : List (List ℕ)) (i : ℕ)
    → drop i body ≡ block ++ leaf_branches bs (leaf_else e)
    → 0 < i
    → length cs ≡ suc (length ks)
    → Nested 0 block
    → All IsBranch bs
    → split_loop body 0 i
        (scan_at 0 i (parts_of t cs ks []))
        (block ++ leaf_branches bs (leaf_else e))
      ≡ parts_of t
          (cs ++ map (λ b. b.condition) bs)
          (ks ++ block ∷ map (λ b. b.block) bs)
          (else_block_of e)
unfolding leaf_branches
split_loop-branches body t [] e block cs ks i here far more n g =
    split_loop-Nested body 0 block (leaf_else e) i i (parts_of t cs ks []) n
      (leaf_branches-Fresh [] e)
    ∙ split_loop-last body block t e cs ks i here far (omega arith)
    ∙ ap (λ x. parts_of t x (ks ++ block ∷ []) (else_block_of e)) (sym (append-nil cs))
split_loop-branches body t (b ∷ bs) e block cs ks i here far more n (((flat, hashless), deep), g) =
    let tail = b.block ++ leaf_branches bs (leaf_else e) in
    let k = i + length block in
    let next = behind k b.condition in
    let there = drop_further i body block (leaf_branches (b ∷ bs) (leaf_else e)) here in
    split_loop-Nested body 0 block (leaf_branches (b ∷ bs) (leaf_else e)) i i (parts_of t cs ks [])
      n refl
    ∙ split_loop-elseif body b.condition tail k there flat i (parts_of t cs ks [])
    ∙ ap (λ x. split_loop body 0 next (scan_at 0 next (with_condition x b.condition)) tail)
        (end_block-later body i k t cs ks far)
    ∙ ap
        (λ x.
          split_loop body 0 next
            (scan_at 0 next (parts_of t (cs ++ b.condition ∷ []) (ks ++ x ∷ []) [])) tail)
        (slice_at i body block (leaf_branches (b ∷ bs) (leaf_else e)) here)
    ∙ split_loop-branches body t bs e b.block (cs ++ b.condition ∷ []) (ks ++ block ∷ []) next
        (drop-behind body b.condition tail k there flat) (omega arith)
        (omega (arith, length-append cs (b.condition ∷ []), length-append ks (block ∷ []))) deep g
    ∙ rw
        (
          append_assoc cs (b.condition ∷ []) (map (λ b. b.condition) bs),
          append_assoc ks (block ∷ []) (b.block ∷ map (λ b. b.block) bs),
        )
        refl

take_first : (first rest : List ℕ) → take (0 + length first) (first ++ rest) ≡ first
take_first first rest =
    ap (λ k. take k (first ++ rest)) {x = 0 + length first} (omega arith)
    ∙ take-length-append first rest

-- Behind the first block.
split_loop-first :
    (first : List ℕ) (bs : List Branch) (e : Option (List ℕ))
    → All IsBranch bs
    → split_loop
        (first ++ leaf_branches bs (leaf_else e))
        0
        (0 + length first)
        (scan_at 0 0 no_parts)
        (leaf_branches bs (leaf_else e))
      ≡ parts_of first (map (λ b. b.condition) bs) (map (λ b. b.block) bs) (else_block_of e)
unfolding split_loop leaf_branches leaf_else split_step directive end_block without_else
split_loop-first first [] none g = ap (λ x. parts_of x [] [] []) (append-nil first)
split_loop-first first [] (some b) g =
    let body = first ++ (else_colon ++ b) in
    ap (λ x. parts_of x [] [] (drop (0 + length first + 6) body))
      (take_first first (else_colon ++ b))
    ∙ ap (λ x. parts_of first [] [] x)
        (drop_further (0 + length first) body else_colon b
          (drop_further 0 body first (else_colon ++ b) refl))
split_loop-first first (b ∷ bs) e (((flat, hashless), deep), g) =
    let k = 0 + length first in
    let next = behind k b.condition in
    let tail = b.block ++ leaf_branches bs (leaf_else e) in
    let rest = leaf_branches (b ∷ bs) (leaf_else e) in
    let body = first ++ rest in
    let there = drop_further 0 body first rest refl in
    split_loop-elseif body b.condition tail k there flat 0 no_parts
    ∙ ap (λ x. split_loop body 0 next (scan_at 0 next (parts_of x (b.condition ∷ []) [] [])) tail)
        (take_first first rest)
    ∙ split_loop-branches body first bs e b.block (b.condition ∷ []) [] next
        (drop-behind body b.condition tail k there flat) (omega arith) refl deep g

pub split_if_body-leaf_body :
    (chain : Chain) → IsChain chain → split_if_body (leaf_body chain) ≡ chain_parts chain
unfolding split_if_body leaf_body
split_if_body-leaf_body chain (n, g, o) =
    let rest = leaf_branches chain.branches (leaf_else chain.otherwise) in
    split_loop-Nested (chain.first ++ rest) 0 chain.first rest 0 0 no_parts n
      (leaf_branches-Fresh chain.branches chain.otherwise)
    ∙ split_loop-first chain.first chain.branches chain.otherwise g

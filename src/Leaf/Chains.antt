-- ===== src/Leaf/Chains.antt =====
-- Chains of `#if`, `#elseif` and `#else`, as templates write them and as they are meant.
use rampardos.Prelude.{ℕ, ◌==◌, ◌≡◌, true, false, Option, some, none, List, [], ◌∷◌, ◌++◌, map, All}
use rampardos.Leaf.{JetIfParts, elseif_open, else_colon, close_colon}
use rampardos.Leaf.Nesting.{Nested, balanced}

pub record Branch : Type 0 where
  pub condition : List ℕ
  pub block : List ℕ

-- A chain as it is meant: the first block, the `#elseif` branches and the `#else` block.
pub record Chain : Type 0 where
  pub first : List ℕ
  pub branches : List Branch
  pub otherwise : Option (List ℕ)

unfoldable pub leaf_else : Option (List ℕ) → List ℕ
leaf_else none = []
leaf_else (some b) = else_colon ++ b

unfoldable pub leaf_branches : List Branch → List ℕ → List ℕ
leaf_branches [] e = e
leaf_branches (b ∷ bs) e =
    elseif_open ++ (b.condition ++ (close_colon ++ (b.block ++ leaf_branches bs e)))

unfoldable pub leaf_body : Chain → List ℕ
leaf_body chain = chain.first ++ leaf_branches chain.branches (leaf_else chain.otherwise)

abbrev pub IsHashless : List ℕ → Type 0
IsHashless = All (λ x. (x == b'#') ≡ false)

-- Brackets are balanced, and there is no `#`.
abbrev pub IsCondition : List ℕ → Type 0
IsCondition c = (balanced 0 c ≡ true) × IsHashless c

abbrev pub IsOtherwise : Option (List ℕ) → Type 0
IsOtherwise none = Unit
IsOtherwise (some b) = Nested 0 b

abbrev pub IsBranch : Branch → Type 0
IsBranch b = IsCondition b.condition × Nested 0 b.block

abbrev pub IsChain : Chain → Type 0
IsChain chain = Nested 0 chain.first × All IsBranch chain.branches × IsOtherwise chain.otherwise

abbrev pub else_block_of : Option (List ℕ) → List ℕ
else_block_of none = []
else_block_of (some b) = b

-- The parts of a chain.
abbrev pub chain_parts : Chain → JetIfParts
chain_parts chain = record {
  then_block = chain.first;
  elseif_conditions = map (λ b. b.condition) chain.branches;
  elseif_blocks = map (λ b. b.block) chain.branches;
  else_block = else_block_of chain.otherwise;
}

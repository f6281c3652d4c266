-- ===== src/Leaf/Templates.antt =====
-- Templates with `#if` blocks in blocks, as Leaf writes them and as Jet does.
use rampardos.Prelude.{ℕ, suc, ◌+◌, ◌==◌, ◌≡◌, false, Option, some, none, List, [], ◌∷◌, ◌++◌}
use rampardos.Leaf.{jet_if, jet_close, jet_end}
use rampardos.Leaf.Chains.{Branch, Chain, IsCondition}
use rampardos.Leaf.Convert.Replace.{leaf_block}
pub mod Chained
pub mod Text
pub mod Unroll
pub mod Whole

-- A byte of text, a hash with the byte after it, or a block.
mutual
  pub data Template : Type 0 where
    done : Template
    text_byte : ℕ → Template → Template
    hash_pair : ℕ → Template → Template
    if_block : List ℕ → Template → Branches → Template → Template

  pub data Branches : Type 0 where
    no_else : Branches
    with_else : Template → Branches
    else_if : List ℕ → Template → Branches → Branches

unfoldable mutual
  pub leaf : Template → List ℕ
  leaf done = []
  leaf (text_byte c t) = c ∷ leaf t
  leaf (hash_pair c t) = b'#' ∷ c ∷ leaf t
  leaf (if_block c f bs t) =
      leaf_block c
        (record { first = leaf f; branches = branches_of bs; otherwise = otherwise_of bs })
      ++ leaf t

  pub branches_of : Branches → List Branch
  branches_of no_else = []
  branches_of (with_else t) = []
  branches_of (else_if c t bs) = record { condition = c; block = leaf t } ∷ branches_of bs

  pub otherwise_of : Branches → Option (List ℕ)
  otherwise_of no_else = none
  otherwise_of (with_else t) = some (leaf t)
  otherwise_of (else_if c t bs) = otherwise_of bs

-- The chain of a block.
abbrev pub chain_of : Template → Branches → Chain
chain_of f bs = record { first = leaf f; branches = branches_of bs; otherwise = otherwise_of bs }

abbrev pub jet_else_if : List ℕ
jet_else_if = b'{' ∷ b'{' ∷ b' ' ∷ b'e' ∷ b'l' ∷ b's' ∷ b'e' ∷ b' ' ∷ b'i' ∷ b'f' ∷ b' ' ∷ []

abbrev pub jet_else : List ℕ
jet_else = b'{' ∷ b'{' ∷ b' ' ∷ b'e' ∷ b'l' ∷ b's' ∷ b'e' ∷ b' ' ∷ b'}' ∷ b'}' ∷ []

-- In Jet an empty `#else` block is left out.
unfoldable pub jet_else_of : Template → List ℕ → List ℕ
jet_else_of done s = []
jet_else_of (text_byte c t) s = jet_else ++ s
jet_else_of (hash_pair c t) s = jet_else ++ s
jet_else_of (if_block c f bs t) s = jet_else ++ s

module _ (convert_condition : List ℕ → List ℕ) where
  unfoldable mutual
    pub jet : Template → List ℕ
    jet done = []
    jet (text_byte c t) = c ∷ jet t
    jet (hash_pair c t) = b'#' ∷ c ∷ jet t
    jet (if_block c f bs t) =
        jet_if
        ++ (convert_condition c
            ++ (jet_close ++ (jet f ++ (jet_of_branches bs ++ (jet_end ++ jet t)))))

    pub jet_of_branches : Branches → List ℕ
    jet_of_branches no_else = []
    jet_of_branches (with_else t) = jet_else_of t (jet t)
    jet_of_branches (else_if c t bs) =
        jet_else_if ++ (convert_condition c ++ (jet_close ++ (jet t ++ jet_of_branches bs)))

-- The number of blocks.
unfoldable mutual
  pub blocks : Template → ℕ
  blocks done = 0
  blocks (text_byte c t) = blocks t
  blocks (hash_pair c t) = blocks t
  blocks (if_block c f bs t) = suc (blocks f + blocks_of bs + blocks t)

  pub blocks_of : Branches → ℕ
  blocks_of no_else = 0
  blocks_of (with_else t) = blocks t
  blocks_of (else_if c t bs) = blocks t + blocks_of bs

-- Text has no hash, a hash is not followed by a byte that could begin a directive of a block, and
-- conditions have balanced brackets and no hash.
unfoldable mutual
  pub IsTemplate : Template → Type 0
  IsTemplate done = Unit
  IsTemplate (text_byte c t) = ((c == b'#') ≡ false) × IsTemplate t
  IsTemplate (hash_pair c t) =
      ((c == b'#') ≡ false) × ((c == b'i') ≡ false) × ((c == b'e') ≡ false) × IsTemplate t
  IsTemplate (if_block c f bs t) = IsCondition c × IsTemplate f × AreBranches bs × IsTemplate t

  pub AreBranches : Branches → Type 0
  AreBranches no_else = Unit
  AreBranches (with_else t) = IsTemplate t
  AreBranches (else_if c t bs) = IsCondition c × IsTemplate t × AreBranches bs

-- Bytes of text, and one template after another.
unfoldable pub plain : List ℕ → Template → Template
plain [] t = t
plain (c ∷ s) t = text_byte c (plain s t)

unfoldable pub follow : Template → Template → Template
follow done u = u
follow (text_byte c t) u = text_byte c (follow t u)
follow (hash_pair c t) u = hash_pair c (follow t u)
follow (if_block c f bs t) u = if_block c f bs (follow t u)

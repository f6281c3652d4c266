-- ===== src/Tests/Templates.antt =====
-- A concrete template.
use rampardos.Prelude.{◌≡◌, refl, some, List, [], ◌∷◌, ℕ, arith}
use rampardos.Leaf.Nesting.{balanced}
use rampardos.Leaf.Convert.{convert_if_statements}
use rampardos.Leaf.Templates.{
  Template, done, text_byte, hash_pair, if_block, no_else, with_else, else_if, leaf, jet,
  IsTemplate, AreBranches, blocks,
}
use rampardos.Leaf.Templates.Whole.{convert_if_statements-leaf}

-- A block within a block, a branch for `f(v)`, an else block with a variable, and text behind it.
abbrev greeting : Template
greeting =
    if_block (b'x' ∷ []) (text_byte b'y' (if_block (b'n' ∷ []) (text_byte b'm' done) no_else done))
      (else_if (b'f' ∷ b'(' ∷ b'v' ∷ b')' ∷ []) (text_byte b'z' done)
        (with_else (hash_pair b'(' (text_byte b'w' (text_byte b')' done)))))
      (text_byte b'b' done)

abbrev marked : List ℕ → List ℕ
marked c = b'!' ∷ c

greeting-IsTemplate : IsTemplate greeting
unfolding IsTemplate AreBranches balanced
greeting-IsTemplate = (
  (refl, (refl, tt)),
  (refl, ((refl, (refl, tt)), (refl, tt), tt, tt)),
  ((refl, (refl, (refl, (refl, (refl, tt))))), (refl, tt), (refl, refl, refl, (refl, (refl, tt)))),
  (refl, tt),
)

convert_if_statements-leaf_example :
    convert_if_statements marked 3 (leaf greeting) ≡ some (jet marked greeting)
unfolding blocks
convert_if_statements-leaf_example =
    convert_if_statements-leaf marked (λ c h. (refl, h)) greeting 3 greeting-IsTemplate
      (omega arith)

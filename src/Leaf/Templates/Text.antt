-- ===== src/Leaf/Templates/Text.antt =====
-- Text before a template, and one template after another.
use rampardos.Prelude.{ℕ, ◌+◌, ◌≡◌, refl, sym, ap, ◌∙◌, List, [], ◌∷◌, ◌++◌, arith}
use mathlib.Core.List.{append_assoc}
use rampardos.Leaf.Chains.{IsHashless}
use rampardos.Leaf.Convert.Replace.{leaf_block}
use rampardos.Leaf.Templates.{
  Template, done, text_byte, hash_pair, if_block, leaf, chain_of, IsTemplate, blocks, plain, follow,
}

pub leaf-plain : (s : List ℕ) (t : Template) → leaf (plain s t) ≡ s ++ leaf t
unfolding leaf plain
leaf-plain [] t = refl
leaf-plain (c ∷ s) t = ap (◌∷◌ c) (leaf-plain s t)

pub leaf-follow : (t u : Template) → leaf (follow t u) ≡ leaf t ++ leaf u
unfolding leaf follow
leaf-follow done u = refl
leaf-follow (text_byte c t) u = ap (◌∷◌ c) (leaf-follow t u)
leaf-follow (hash_pair c t) u = ap (λ x. b'#' ∷ c ∷ x) (leaf-follow t u)
leaf-follow (if_block c f bs t) u =
    ap (λ x. leaf_block c (chain_of f bs) ++ x) (leaf-follow t u)
    ∙ sym (append_assoc (leaf_block c (chain_of f bs)) (leaf t) (leaf u))

pub blocks-plain : (s : List ℕ) (t : Template) → blocks (plain s t) ≡ blocks t
unfolding blocks plain
blocks-plain [] t = refl
blocks-plain (c ∷ s) t = blocks-plain s t

pub blocks-follow : (t u : Template) → blocks (follow t u) ≡ blocks t + blocks u
unfolding blocks follow
blocks-follow done u = omega arith
blocks-follow (text_byte c t) u = blocks-follow t u
blocks-follow (hash_pair c t) u = blocks-follow t u
blocks-follow (if_block c f bs t) u = omega (arith, blocks-follow t u)

pub plain-IsTemplate :
    (s : List ℕ) (t : Template) → IsHashless s → IsTemplate t → IsTemplate (plain s t)
unfolding plain IsTemplate
plain-IsTemplate [] t h g = g
plain-IsTemplate (c ∷ s) t (h, hs) g = (h, plain-IsTemplate s t hs g)

pub follow-IsTemplate : (t u : Template) → IsTemplate t → IsTemplate u → IsTemplate (follow t u)
unfolding follow IsTemplate
follow-IsTemplate done u g h = h
follow-IsTemplate (text_byte c t) u (a, g) h = (a, follow-IsTemplate t u g h)
follow-IsTemplate (hash_pair c t) u (a, b, e, g) h = (a, b, e, follow-IsTemplate t u g h)
follow-IsTemplate (if_block c f bs t) u (a, b, e, g) h = (a, b, e, follow-IsTemplate t u g h)

pub IsHashless-append : (s r : List ℕ) → IsHashless s → IsHashless r → IsHashless (s ++ r)
IsHashless-append [] r h k = k
IsHashless-append (c ∷ s) r (h, hs) k = (h, IsHashless-append s r hs k)

pub append_five :
    (p f b o e t : List ℕ) → p ++ f ++ b ++ o ++ e ++ t ≡ p ++ (f ++ (b ++ (o ++ (e ++ t))))
append_five p f b o e t =
    append_assoc (p ++ f ++ b ++ o) e t
    ∙ append_assoc (p ++ f ++ b) o (e ++ t)
    ∙ append_assoc (p ++ f) b (o ++ (e ++ t))
    ∙ append_assoc p f (b ++ (o ++ (e ++ t)))

-- ===== src/Leaf/Templates/Chained.antt =====
-- Templates are nested, and their blocks are chains.
use rampardos.Prelude.{
  ℕ, suc, ◌==◌, ◌≡◌, refl, sym, ap, ◌∙◌, true, false, List, [], ◌∷◌, ◌++◌, All, drop, arith,
}
use mathlib.Core.Path.{subst}
use mathlib.Core.List.{append_assoc, append-nil}
use rampardos.Leaf.{endif, elseif_open, else_colon, close_colon}
use rampardos.Leaf.Nesting.{inert, Nested, stop, text, enter, leave}
use rampardos.Leaf.Chains.{
  IsHashless, leaf_else, leaf_branches, leaf_body, IsBranch, IsChain, IsCondition, IsOtherwise,
}
use rampardos.Leaf.Convert.Replace.{leaf_block}
use rampardos.Leaf.Templates.{
  Template, done, text_byte, hash_pair, if_block, Branches, no_else, with_else, else_if, leaf,
  branches_of, otherwise_of, chain_of, IsTemplate, AreBranches,
}

inert-byte : (d c : ℕ) (s : List ℕ) → (c == b'#') ≡ false → inert d (c ∷ s) ≡ true
unfolding inert
inert-byte d c s h = ground arith

inert-hash :
    (d c : ℕ) (s : List ℕ)
    → (c == b'i') ≡ false
    → (c == b'e') ≡ false
    → inert d (b'#' ∷ c ∷ s) ≡ true
unfolding inert
inert-hash d c s h k = ground arith

inert-within : (d : ℕ) (s : List ℕ) → inert (suc d) (b'#' ∷ b'e' ∷ b'l' ∷ s) ≡ true
unfolding inert
inert-within d s = ground arith

IsHashless-Nested : (d : ℕ) (u s : List ℕ) → IsHashless u → Nested d s → Nested d (u ++ s)
IsHashless-Nested d [] s h n = n
IsHashless-Nested d (c ∷ u) s (h, hs) n =
    text c (inert-byte d c (u ++ s) h) (IsHashless-Nested d u s hs n)

-- A condition with its colon.
header-Nested :
    (d : ℕ) (c s : List ℕ) → IsCondition c → Nested d s → Nested d (c ++ (close_colon ++ s))
header-Nested d c s (flat, hashless) n =
    IsHashless-Nested d c (close_colon ++ s) hashless
      (IsHashless-Nested d close_colon s (refl, (refl, tt)) n)

mutual
  unfolding leaf branches_of otherwise_of IsTemplate AreBranches leaf_block leaf_body leaf_branches
      leaf_else

  leaf-Nested :
      (t : Template) (d : ℕ) (s : List ℕ) → IsTemplate t → Nested d s → Nested d (leaf t ++ s)
  leaf-Nested done d s g n = n
  leaf-Nested (text_byte c t) d s (h, g) n =
      text c (inert-byte d c (leaf t ++ s) h) (leaf-Nested t d s g n)
  leaf-Nested (hash_pair c t) d s (h, i, e, g) n =
      text b'#' (inert-hash d c (leaf t ++ s) i e)
        (text c (inert-byte d c (leaf t ++ s) h) (leaf-Nested t d s g n))
  leaf-Nested (if_block c f bs t) d s (cond, gf, gb, g) n =
      let branches = leaf_branches (branches_of bs) (leaf_else (otherwise_of bs)) in
      let after = endif ++ (leaf t ++ s) in
      let inner = close_colon ++ (leaf f ++ branches ++ endif) in
      let apart : c ++ inner ++ leaf t ++ s
          ≡ c ++ (close_colon ++ (leaf f ++ (branches ++ after))) =
        append_assoc (c ++ inner) (leaf t) s
        ∙ append_assoc c inner (leaf t ++ s)
        ∙ ap (λ x. c ++ (close_colon ++ x))
            (append_assoc (leaf f ++ branches) endif (leaf t ++ s)
              ∙ append_assoc (leaf f) branches after) in
      enter (
        subst (Nested (suc d)) (sym apart) (
          header-Nested (suc d) c (leaf f ++ (branches ++ after)) cond (
            leaf-Nested f (suc d) (branches ++ after) gf
              (branches-Nested bs d after gb (leave (leaf-Nested t d s g n))))))

  branches-Nested :
      (bs : Branches) (d : ℕ) (s : List ℕ)
      → AreBranches bs
      → Nested (suc d) s
      → Nested (suc d) (leaf_branches (branches_of bs) (leaf_else (otherwise_of bs)) ++ s)
  branches-Nested no_else d s g n = n
  branches-Nested (with_else t) d s g n = text b'#' (inert-within d _) (
      IsHashless-Nested (suc d) (drop 1 else_colon) (leaf t ++ s)
        (refl, (refl, (refl, (refl, (refl, tt))))) (leaf-Nested t (suc d) s g n))
  branches-Nested (else_if c t bs) d s (cond, gt, g) n =
      let branches = leaf_branches (branches_of bs) (leaf_else (otherwise_of bs)) in
      let inner = close_colon ++ (leaf t ++ branches) in
      let apart : c ++ inner ++ s ≡ c ++ (close_colon ++ (leaf t ++ (branches ++ s))) =
        append_assoc c inner s
        ∙ ap (λ x. c ++ (close_colon ++ x)) (append_assoc (leaf t) branches s) in
      text b'#' (inert-within d _) (
        IsHashless-Nested (suc d) (drop 1 elseif_open) (c ++ inner ++ s)
          (refl, (refl, (refl, (refl, (refl, (refl, (refl, tt)))))))
          (subst (Nested (suc d)) (sym apart) (
            header-Nested (suc d) c (leaf t ++ (branches ++ s)) cond
              (leaf-Nested t (suc d) (branches ++ s) gt (branches-Nested bs d s g n)))))

whole-Nested : (t : Template) → IsTemplate t → Nested 0 (leaf t)
whole-Nested t g = subst (Nested 0) (append-nil (leaf t)) (leaf-Nested t 0 [] g stop)

branches_of-IsBranch : (bs : Branches) → AreBranches bs → All IsBranch (branches_of bs)
unfolding branches_of AreBranches
branches_of-IsBranch no_else g = tt
branches_of-IsBranch (with_else t) g = tt
branches_of-IsBranch (else_if c t bs) (cond, gt, g) =
    ((cond, whole-Nested t gt), branches_of-IsBranch bs g)

otherwise_of-IsOtherwise : (bs : Branches) → AreBranches bs → IsOtherwise (otherwise_of bs)
unfolding otherwise_of AreBranches
otherwise_of-IsOtherwise no_else g = tt
otherwise_of-IsOtherwise (with_else t) g = whole-Nested t g
otherwise_of-IsOtherwise (else_if c t bs) (cond, gt, g) = otherwise_of-IsOtherwise bs g

pub chain_of-IsChain :
    (f : Template) (bs : Branches) → IsTemplate f → AreBranches bs → IsChain (chain_of f bs)
chain_of-IsChain f bs g h =
    (whole-Nested f g, branches_of-IsBranch bs h, otherwise_of-IsOtherwise bs h)

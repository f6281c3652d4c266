-- ===== src/Leaf/Templates/Unroll.antt =====
-- What a round makes of a template: its first block, unrolled into text and its inner templates.
use rampardos.Prelude.{ℕ, suc, ◌+◌, ◌≡◌, refl, sym, ap, ◌∙◌, List, [], ◌∷◌, ◌++◌, arith}
use mathlib.Core.List.{append_assoc}
use rampardos.Leaf.{jet_if, jet_close, jet_end}
use rampardos.Leaf.Chains.{IsHashless, IsCondition}
use rampardos.Leaf.Convert.Replace.{leaf_block, jet_branches, jet_otherwise, jet_block}
use rampardos.Leaf.Templates.{
  Template, done, text_byte, hash_pair, if_block, Branches, no_else, with_else, else_if, leaf,
  branches_of, otherwise_of, chain_of, IsTemplate, AreBranches, jet_else_if, jet_else, jet_else_of,
  jet, jet_of_branches, blocks, blocks_of, plain, follow,
}
use rampardos.Leaf.Templates.Text.{
  leaf-plain, leaf-follow, blocks-plain, blocks-follow, plain-IsTemplate, follow-IsTemplate,
  IsHashless-append, append_five,
}

module _ (convert_condition : List ℕ → List ℕ) where
  jet-plain :
      (s : List ℕ) (t : Template) → jet convert_condition (plain s t) ≡ s ++ jet convert_condition t
  unfolding jet plain
  jet-plain [] t = refl
  jet-plain (c ∷ s) t = ap (◌∷◌ c) (jet-plain s t)

  jet-follow :
      (t u : Template)
      → jet convert_condition (follow t u) ≡ jet convert_condition t ++ jet convert_condition u
  unfolding jet follow
  jet-follow done u = refl
  jet-follow (text_byte c t) u = ap (◌∷◌ c) (jet-follow t u)
  jet-follow (hash_pair c t) u = ap (λ x. b'#' ∷ c ∷ x) (jet-follow t u)
  jet-follow (if_block c f bs t) u =
      let inner = jet convert_condition f in
      let branches = jet_of_branches convert_condition bs in
      let rest = jet_end ++ jet convert_condition t in
      let more = jet convert_condition u in
      ap
        (λ x.
          jet_if ++ (convert_condition c ++ (jet_close ++ (inner ++ (branches ++ (jet_end ++ x))))))
        (jet-follow t u)
      ∙ sym (
          ap (λ x. jet_if ++ x)
            (append_assoc (convert_condition c) (jet_close ++ (inner ++ (branches ++ rest))) more
              ∙ ap (λ x. convert_condition c ++ (jet_close ++ x))
                  (append_assoc inner (branches ++ rest) more
                    ∙ ap (λ x. inner ++ x) (append_assoc branches rest more))))

  -- The branches in Jet as text, before what follows the block.
  unfoldable pub unroll_branches : Branches → Template → Template
  unroll_branches no_else u = u
  unroll_branches (with_else done) u = u
  unroll_branches (with_else t) u = plain jet_else (follow t u)
  unroll_branches (else_if c t bs) u =
      plain (jet_else_if ++ (convert_condition c ++ jet_close)) (follow t (unroll_branches bs u))

  unfoldable pub unroll : List ℕ → Template → Branches → Template → Template
  unroll c f bs t =
      plain (jet_if ++ (convert_condition c ++ jet_close))
        (follow f (unroll_branches bs (plain jet_end t)))

  leaf-unroll_else :
      (t u : Template) → jet_else ++ (leaf t ++ leaf u) ≡ leaf (plain jet_else (follow t u))
  leaf-unroll_else t u =
      ap (λ x. jet_else ++ x) (sym (leaf-follow t u)) ∙ sym (leaf-plain jet_else (follow t u))

  leaf-unroll_branches :
      (bs : Branches) (u : Template)
      → jet_branches convert_condition (branches_of bs)
          ++ (jet_otherwise convert_condition (otherwise_of bs) ++ leaf u)
        ≡ leaf (unroll_branches bs u)
  unfolding unroll_branches branches_of otherwise_of jet_branches leaf leaf_block
  leaf-unroll_branches no_else u = refl
  leaf-unroll_branches (with_else done) u = refl
  leaf-unroll_branches (with_else (text_byte c t)) u = leaf-unroll_else (text_byte c t) u
  leaf-unroll_branches (with_else (hash_pair c t)) u = leaf-unroll_else (hash_pair c t) u
  leaf-unroll_branches (with_else (if_block c f bs t)) u = leaf-unroll_else (if_block c f bs t) u
  leaf-unroll_branches (else_if c t bs) u =
      let front = convert_condition c ++ jet_close in
      let branches = jet_branches convert_condition (branches_of bs) in
      let last = jet_otherwise convert_condition (otherwise_of bs) ++ leaf u in
      ap (λ x. jet_else_if ++ x)
        (append_assoc (front ++ leaf t) branches last
          ∙ append_assoc front (leaf t) (branches ++ last)
          ∙ ap (λ x. front ++ x)
              (ap (λ x. leaf t ++ x) (leaf-unroll_branches bs u)
                ∙ sym (leaf-follow t (unroll_branches bs u))))
      ∙ sym (leaf-plain (jet_else_if ++ front) (follow t (unroll_branches bs u)))

  pub leaf-unroll :
      (c : List ℕ) (f : Template) (bs : Branches) (t : Template)
      → jet_block convert_condition c (chain_of f bs) ++ leaf t ≡ leaf (unroll c f bs t)
  unfolding unroll jet_block
  leaf-unroll c f bs t =
      let front = convert_condition c ++ jet_close in
      let last = plain jet_end t in
      ap (λ x. jet_if ++ x)
        (append_five front (leaf f) (jet_branches convert_condition (branches_of bs))
          (jet_otherwise convert_condition (otherwise_of bs)) jet_end (leaf t))
      ∙ ap (λ x. jet_if ++ (front ++ (leaf f ++ x)))
          (ap
              (λ x.
                jet_branches convert_condition (branches_of bs)
                ++ (jet_otherwise convert_condition (otherwise_of bs) ++ x))
              (sym (leaf-plain jet_end t))
            ∙ leaf-unroll_branches bs last)
      ∙ ap (λ x. jet_if ++ (front ++ x)) (sym (leaf-follow f (unroll_branches bs last)))
      ∙ sym (leaf-plain (jet_if ++ front) (follow f (unroll_branches bs last)))

  jet-unroll_else :
      (t u : Template)
      → jet convert_condition (plain jet_else (follow t u))
        ≡ jet_else ++ (jet convert_condition t ++ jet convert_condition u)
  jet-unroll_else t u = jet-plain jet_else (follow t u) ∙ ap (λ x. jet_else ++ x) (jet-follow t u)

  jet-unroll_branches :
      (bs : Branches) (u : Template)
      → jet convert_condition (unroll_branches bs u)
        ≡ jet_of_branches convert_condition bs ++ jet convert_condition u
  unfolding unroll_branches jet jet_else_of
  jet-unroll_branches no_else u = refl
  jet-unroll_branches (with_else done) u = refl
  jet-unroll_branches (with_else (text_byte c t)) u = jet-unroll_else (text_byte c t) u
  jet-unroll_branches (with_else (hash_pair c t)) u = jet-unroll_else (hash_pair c t) u
  jet-unroll_branches (with_else (if_block c f bs t)) u = jet-unroll_else (if_block c f bs t) u
  jet-unroll_branches (else_if c t bs) u =
      let front = convert_condition c ++ jet_close in
      let inner = jet convert_condition t in
      let branches = jet_of_branches convert_condition bs in
      let more = jet convert_condition u in
      jet-plain (jet_else_if ++ front) (follow t (unroll_branches bs u))
      ∙ ap (λ x. jet_else_if ++ (front ++ x))
          (jet-follow t (unroll_branches bs u)
            ∙ ap (λ x. inner ++ x) (jet-unroll_branches bs u)
            ∙ sym (append_assoc inner branches more))
      ∙ ap (λ x. jet_else_if ++ x)
          (append_assoc (convert_condition c) jet_close (inner ++ branches ++ more)
            ∙ sym (append_assoc (convert_condition c) (jet_close ++ (inner ++ branches)) more))

  pub jet-unroll :
      (c : List ℕ) (f : Template) (bs : Branches) (t : Template)
      → jet convert_condition (unroll c f bs t) ≡ jet convert_condition (if_block c f bs t)
  unfolding unroll jet
  jet-unroll c f bs t =
      let front = convert_condition c ++ jet_close in
      let last = plain jet_end t in
      let inner = jet convert_condition f in
      let branches = jet_of_branches convert_condition bs in
      jet-plain (jet_if ++ front) (follow f (unroll_branches bs last))
      ∙ ap (λ x. jet_if ++ (front ++ x))
          (jet-follow f (unroll_branches bs last)
            ∙ ap (λ x. inner ++ x)
                (jet-unroll_branches bs last ∙ ap (λ x. branches ++ x) (jet-plain jet_end t)))
      ∙ ap (λ x. jet_if ++ x)
          (append_assoc (convert_condition c) jet_close
            (inner ++ (branches ++ (jet_end ++ jet convert_condition t))))

  blocks-unroll_branches :
      (bs : Branches) (u : Template) → blocks (unroll_branches bs u) ≡ blocks_of bs + blocks u
  unfolding unroll_branches blocks
  blocks-unroll_branches no_else u = omega arith
  blocks-unroll_branches (with_else done) u = omega arith
  blocks-unroll_branches (with_else (text_byte c t)) u =
      blocks-plain jet_else (follow (text_byte c t) u) ∙ blocks-follow (text_byte c t) u
  blocks-unroll_branches (with_else (hash_pair c t)) u =
      blocks-plain jet_else (follow (hash_pair c t) u) ∙ blocks-follow (hash_pair c t) u
  blocks-unroll_branches (with_else (if_block c f bs t)) u =
      blocks-plain jet_else (follow (if_block c f bs t) u) ∙ blocks-follow (if_block c f bs t) u
  blocks-unroll_branches (else_if c t bs) u = omega (
    arith,
    blocks-plain (jet_else_if ++ (convert_condition c ++ jet_close))
        (follow t (unroll_branches bs u)),
    blocks-follow t (unroll_branches bs u),
    blocks-unroll_branches bs u,
  )

  pub blocks-unroll :
      (c : List ℕ) (f : Template) (bs : Branches) (t : Template)
      → suc (blocks (unroll c f bs t)) ≡ blocks (if_block c f bs t)
  unfolding unroll blocks
  blocks-unroll c f bs t = omega (
    arith,
    blocks-plain (jet_if ++ (convert_condition c ++ jet_close))
        (follow f (unroll_branches bs (plain jet_end t))),
    blocks-follow f (unroll_branches bs (plain jet_end t)),
    blocks-unroll_branches bs (plain jet_end t),
    blocks-plain jet_end t,
  )

  module _ (keeps : (c : List ℕ) → IsHashless c → IsHashless (convert_condition c)) where
    unroll_else-IsTemplate :
        (t u : Template) → IsTemplate t → IsTemplate u → IsTemplate (plain jet_else (follow t u))
    unroll_else-IsTemplate t u g h =
        plain-IsTemplate jet_else (follow t u)
          (refl, (refl, (refl, (refl, (refl, (refl, (refl, (refl, (refl, (refl, tt))))))))))
          (follow-IsTemplate t u g h)

    front-IsHashless : (c : List ℕ) → IsCondition c → IsHashless (convert_condition c ++ jet_close)
    front-IsHashless c (flat, hashless) =
        IsHashless-append (convert_condition c) jet_close (keeps c hashless)
          (refl, (refl, (refl, tt)))

    unroll_branches-IsTemplate :
        (bs : Branches) (u : Template)
        → AreBranches bs
        → IsTemplate u
        → IsTemplate (unroll_branches bs u)
    unfolding unroll_branches AreBranches
    unroll_branches-IsTemplate no_else u g h = h
    unroll_branches-IsTemplate (with_else done) u g h = h
    unroll_branches-IsTemplate (with_else (text_byte c t)) u g h =
        unroll_else-IsTemplate (text_byte c t) u g h
    unroll_branches-IsTemplate (with_else (hash_pair c t)) u g h =
        unroll_else-IsTemplate (hash_pair c t) u g h
    unroll_branches-IsTemplate (with_else (if_block c f bs t)) u g h =
        unroll_else-IsTemplate (if_block c f bs t) u g h
    unroll_branches-IsTemplate (else_if c t bs) u (cond, gt, g) h =
        plain-IsTemplate (jet_else_if ++ (convert_condition c ++ jet_close))
          (follow t (unroll_branches bs u))
          (IsHashless-append jet_else_if (convert_condition c ++ jet_close)
            (
              refl,
              (refl, (refl, (refl, (refl, (refl, (refl, (refl, (refl, (refl, (refl, tt)))))))))),
            )
            (front-IsHashless c cond))
          (follow-IsTemplate t (unroll_branches bs u) gt (unroll_branches-IsTemplate bs u g h))

    pub unroll-IsTemplate :
        (c : List ℕ) (f : Template) (bs : Branches) (t : Template)
        → IsCondition c
        → IsTemplate f
        → AreBranches bs
        → IsTemplate t
        → IsTemplate (unroll c f bs t)
    unfolding unroll
    unroll-IsTemplate c f bs t cond gf gb g =
        let last = plain jet_end t in
        plain-IsTemplate (jet_if ++ (convert_condition c ++ jet_close))
          (follow f (unroll_branches bs last))
          (IsHashless-append jet_if (convert_condition c ++ jet_close)
            (refl, (refl, (refl, (refl, (refl, (refl, tt)))))) (front-IsHashless c cond))
          (follow-IsTemplate f (unroll_branches bs last) gf (
            unroll_branches-IsTemplate bs last gb (
              plain-IsTemplate jet_end t
                (refl, (refl, (refl, (refl, (refl, (refl, (refl, (refl, (refl, tt))))))))) g)))

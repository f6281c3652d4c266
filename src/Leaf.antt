-- ===== src/Leaf.antt =====
-- rampardos/internal/utils/leaf_to_jet.go: the blocks of `#if`, `#elseif`, `#else` and `#endif`,
-- and `findConditionEnd` of rampardos/internal/utils/leaf.go. Templates are lists of bytes.
-- `convertCondition`, which is made of regular expressions, is an argument.
use rampardos.Prelude.{
  ℕ, zero, suc, ◌+◌, ◌-◌, ◌==◌, ltb, if◌then◌else◌, Bool, true, false, ◌&&◌, Option, some, none,
  List, [], ◌∷◌, ◌++◌, length, take, drop, ℤ, pos, negsuc,
}
pub mod Nesting
pub mod Chains
pub mod Convert
pub mod Scanning
pub mod Split
pub mod Templates

abbrev pub if_open : List ℕ
if_open = b'#' ∷ b'i' ∷ b'f' ∷ b'(' ∷ []

abbrev pub endif : List ℕ
endif = b'#' ∷ b'e' ∷ b'n' ∷ b'd' ∷ b'i' ∷ b'f' ∷ []

abbrev pub elseif_open : List ℕ
elseif_open = b'#' ∷ b'e' ∷ b'l' ∷ b's' ∷ b'e' ∷ b'i' ∷ b'f' ∷ b'(' ∷ []

abbrev pub else_colon : List ℕ
else_colon = b'#' ∷ b'e' ∷ b'l' ∷ b's' ∷ b'e' ∷ b':' ∷ []

abbrev pub close_colon : List ℕ
close_colon = b')' ∷ b':' ∷ []

-- `strings.HasPrefix`
abbrev pub has_prefix : List ℕ → List ℕ → Bool
has_prefix s [] = true
has_prefix [] (x ∷ l) = false
has_prefix (c ∷ s) (x ∷ l) = (c == x) && has_prefix s l

-- `s[from:to]`
abbrev pub slice : ℕ → ℕ → List ℕ → List ℕ
slice from to s = drop from (take to s)

-- `depth++` and `depth--`
abbrev pub deeper : ℤ → ℤ
deeper (pos n) = pos (suc n)
deeper (negsuc zero) = pos 0
deeper (negsuc (suc n)) = negsuc n

abbrev pub shallower : ℤ → ℤ
shallower (pos zero) = negsuc 0
shallower (pos (suc n)) = pos n
shallower (negsuc n) = negsuc (suc n)

abbrev pub is_zero : ℤ → Bool
is_zero (pos n) = n == 0
is_zero (negsuc n) = false

-- The loop of `findConditionEnd` on `s[i:]`.
unfoldable pub condition_loop : ℕ → ℤ → List ℕ → Option ℕ
condition_loop i depth [] = none
condition_loop i depth (c ∷ s) =
    let moved = if c == b'(' then deeper depth else if c == b')' then shallower depth else depth in
    let on = condition_loop (suc i) moved s in
    if (c == b')') && is_zero moved
    then (if has_prefix s (b':' ∷ []) then some (i + 2) else none)
    else on

unfoldable pub find_condition_end : List ℕ → ℕ → Option ℕ
find_condition_end s paren_start = condition_loop paren_start (pos 0) (drop paren_start s)

pub record JetIfParts : Type 0 where
  pub then_block : List ℕ
  pub elseif_conditions : List (List ℕ)
  pub elseif_blocks : List (List ℕ)
  pub else_block : List ℕ

pub record Scan : Type 0 where
  pub depth : ℤ
  pub current_block_start : ℕ
  pub parts : JetIfParts

-- What stands at the position of the scan.
pub data Directive : Type 0 where
  opens_if : Directive
  ends_if : Directive
  is_elseif : Directive
  is_else : Directive
  is_text : Directive

unfoldable pub directive : ℤ → List ℕ → Directive
directive depth s =
    if has_prefix s if_open
    then opens_if
    else if has_prefix s endif
    then ends_if
    else if is_zero depth && has_prefix s elseif_open
    then is_elseif
    else if is_zero depth && has_prefix s else_colon
    then is_else
    else is_text

-- The block that ends at `i`: the then block as long as no `#elseif` has been read.
unfoldable pub end_block : List ℕ → ℕ → Scan → JetIfParts
end_block body i st =
    if st.current_block_start == 0
    then record st.parts { then_block = take i body }
    else record st.parts {
      elseif_blocks = st.parts.elseif_blocks ++ slice st.current_block_start i body ∷ [];
    }

-- The scan returns, or goes on behind the byte at `i` and as many more as it says.
pub data Progress : Type 0 where
  returned : JetIfParts → Progress
  advance : ℕ → Scan → Progress

unfoldable pub elseif_step : List ℕ → ℕ → JetIfParts → Scan → Progress
elseif_step body i ended st = elim (find_condition_end body (i + 7)) [
  | none ↦ advance 0 (record st { parts = ended })
  | some cond_end ↦ advance (cond_end - suc i) (record st {
    current_block_start = cond_end;
    parts = record ended {
      elseif_conditions = ended.elseif_conditions ++ slice (i + 8) (cond_end - 2) body ∷ [];
    };
  })
]

unfoldable pub split_step : Directive → List ℕ → ℕ → Scan → Progress
split_step opens_if body i st = advance 3 (record st { depth = deeper st.depth })
split_step ends_if body i st = advance 5 (record st { depth = shallower st.depth })
split_step is_elseif body i st = elseif_step body i (end_block body i st) st
split_step is_else body i st =
    returned (record (end_block body i st) { else_block = drop (i + 6) body })
split_step is_text body i st = advance 0 st

-- After the loop, where no `#else:` has been found.
unfoldable pub without_else : List ℕ → Scan → JetIfParts
without_else body st =
    if st.current_block_start == 0
    then record st.parts { then_block = body }
    else if ltb (length st.parts.elseif_blocks) (length st.parts.elseif_conditions)
    then record st.parts {
      elseif_blocks = st.parts.elseif_blocks ++ drop st.current_block_start body ∷ [];
    }
    else st.parts

-- The loop on `body[i:]`, with the bytes that are still to be passed over.
unfoldable pub split_loop : List ℕ → ℕ → ℕ → Scan → List ℕ → JetIfParts
split_loop body passing i st [] = without_else body st
split_loop body (suc n) i st (c ∷ s) = split_loop body n (suc i) st s
split_loop body zero i st (c ∷ s) = elim (split_step (directive st.depth (c ∷ s)) body i st) [
  | returned parts ↦ parts
  | advance n next ↦ split_loop body n (suc i) next s
]

abbrev pub no_parts : JetIfParts
no_parts = record { then_block = []; elseif_conditions = []; elseif_blocks = []; else_block = [] }

unfoldable pub split_if_body : List ℕ → JetIfParts
split_if_body body =
    split_loop body 0 0 (record { depth = pos 0; current_block_start = 0; parts = no_parts }) body

abbrev pub jet_if : List ℕ
jet_if = b'{' ∷ b'{' ∷ b' ' ∷ b'i' ∷ b'f' ∷ b' ' ∷ []

abbrev pub jet_close : List ℕ
jet_close = b' ' ∷ b'}' ∷ b'}' ∷ []

abbrev pub jet_end : List ℕ
jet_end = b'{' ∷ b'{' ∷ b' ' ∷ b'e' ∷ b'n' ∷ b'd' ∷ b' ' ∷ b'}' ∷ b'}' ∷ []

module _ (convert_condition : List ℕ → List ℕ) where
  -- The loop on `elseifConditions`; a condition may have no block.
  unfoldable pub write_elseifs : List (List ℕ) → List (List ℕ) → List ℕ
  write_elseifs [] bs = []
  write_elseifs (c ∷ cs) bs =
      let header =
        b'{' ∷ b'{' ∷ b' ' ∷ b'e' ∷ b'l' ∷ b's' ∷ b'e' ∷ b' ' ∷ b'i' ∷ b'f' ∷ b' ' ∷ []
        ++ convert_condition c
        ++ jet_close in
      let more = write_elseifs cs (drop 1 bs) in
      elim bs [ [] ↦ header ++ more | b ∷ rest ↦ header ++ b ++ more ]

  unfoldable pub convert_if_block : List ℕ → List ℕ → List ℕ
  convert_if_block condition body =
      let parts = split_if_body body in
      jet_if
      ++ convert_condition condition
      ++ jet_close
      ++ parts.then_block
      ++ write_elseifs parts.elseif_conditions parts.elseif_blocks
      ++ (if length parts.else_block == 0
          then []
          else b'{' ∷ b'{' ∷ b' ' ∷ b'e' ∷ b'l' ∷ b's' ∷ b'e' ∷ b' ' ∷ b'}' ∷ b'}'
            ∷ parts.else_block)
      ++ jet_end

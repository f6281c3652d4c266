-- ===== src/Leaf/Convert.antt =====
-- rampardos/internal/utils/leaf_to_jet.go: one round of the loop of convertIfStatements, which
-- replaces the first `#if` block.
use rampardos.Prelude.{
  ◌>>=◌, ℕ, zero, suc, ◌+◌, ◌-◌, if◌then◌else◌, ◌&&◌, Option, some, none, List, [], ◌∷◌, ◌++◌,
  length, take, drop, ℤ, pos,
}
use rampardos.Leaf.{
  if_open, endif, has_prefix, find_condition_end, deeper, shallower, is_zero, slice,
  convert_if_block,
}
pub mod Endif
pub mod Replace

-- `strings.Index` for the text of a directive, on `s[i:]`.
unfoldable pub index_loop : List ℕ → ℕ → List ℕ → Option ℕ
index_loop sub i [] = none
index_loop sub i (c ∷ s) =
    let on = index_loop sub (suc i) s in if has_prefix (c ∷ s) sub then some i else on

-- How many bytes behind the first one the scan for `#endif` passes over, and its depth there.
abbrev pub passed_over : List ℕ → ℕ
passed_over s = if has_prefix s if_open then 3 else if has_prefix s endif then 5 else 0

abbrev pub depth_behind : ℤ → List ℕ → ℤ
depth_behind depth s =
    if has_prefix s if_open
    then deeper depth
    else if has_prefix s endif
    then shallower depth
    else depth

-- The scan for the matching `#endif` on `result[i:]`, with the bytes still to be passed over.
unfoldable pub endif_loop : ℕ → ℕ → ℤ → List ℕ → Option ℕ
endif_loop passing i depth [] = none
endif_loop (suc n) i depth (c ∷ s) = endif_loop n (suc i) depth s
endif_loop zero i depth (c ∷ s) =
    let on = endif_loop (passed_over (c ∷ s)) (suc i) (depth_behind depth (c ∷ s)) s in
    if has_prefix (c ∷ s) endif && is_zero (shallower depth) then some i else on

unfoldable pub find_endif : List ℕ → ℕ → Option ℕ
find_endif template if_start = endif_loop 0 if_start (pos 0) (drop if_start template)

-- A round, or none where the loop ends.
unfoldable pub convert_round : (List ℕ → List ℕ) → List ℕ → Option (List ℕ)
convert_round convert_condition template = do
  if_start ← index_loop if_open 0 template
  endif_pos ← find_endif template if_start
  let full_block = slice if_start (endif_pos + 6) template
  cond_end ← find_condition_end full_block 3
  let condition = slice 4 (cond_end - 2) full_block
  let body = slice cond_end (length full_block - 6) full_block
  some (
      take if_start template
      ++ convert_if_block convert_condition condition body
      ++ drop (endif_pos + 6) template)

-- The loop: none when the rounds run out.
unfoldable pub convert_if_statements : (List ℕ → List ℕ) → ℕ → List ℕ → Option (List ℕ)
convert_if_statements convert_condition zero template = none
convert_if_statements convert_condition (suc n) template =
    elim (convert_round convert_condition template) [
      | none ↦ some template
      | some next ↦ convert_if_statements convert_condition n next
    ]

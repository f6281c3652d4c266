-- ===== src/Tests/Names.antt =====
-- Concrete runs on names, entity tags and the table of style pools.
use rampardos.Prelude.{
  ℕ, ◌==◌, ◌≡◌, ◌⊎◌, ◌↔◌, inl, refl, true, false, not, ◌&&◌, some, none, List, [], ◌∷◌, ℕ_discrete,
  arith, pos,
}
use rampardos.Names.{name, sanitize_name, clean, same}
use rampardos.Names.Safe.{Plain, sanitize_name-Plain}
use rampardos.Etag.{if_none_match_matches}
use rampardos.Etag.Match.{listed, Lists, if_none_match_matches-Lists}
use rampardos.Settings.{
  RuntimeSettings, stores, levels, Outcome, toggle_debug, toggle_debug-Outcome,
}
use rampardos.NodePool.{
  pool_key, parse_pool_key, at, format_uint, Renderer, nil_map, lookup, member, get_or_create_pool,
  rebuild, reload_swap, close,
}
use rampardos.NodePool.Keys.{parse_pool_key-pool_key, parse_pool_key-mistaken}
use rampardos.NodePool.Table.{AtLeast, is_in, reload_swap-lookup, close-nil_map}

-- The name "a/../b".
abbrev roundabout : List ℕ
roundabout = b'a' ∷ b'/' ∷ b'.' ∷ b'.' ∷ b'/' ∷ b'b' ∷ []

sanitize_name-Plain_example :
    ((sanitize_name roundabout ≡ name (b'b' ∷ []))
      → Plain (b'b' ∷ []) × (b'b' ∷ [] ≡ clean roundabout))
    × (Plain roundabout → sanitize_name roundabout ≡ name roundabout)
sanitize_name-Plain_example = sanitize_name-Plain roundabout (b'b' ∷ [])

-- The tag "x" in quotes, and the header `"y", "x"`.
abbrev tag : List ℕ
tag = b'"' ∷ b'x' ∷ b'"' ∷ []

abbrev other_tag : List ℕ
other_tag = b'"' ∷ b'y' ∷ b'"' ∷ []

-- The second token has a no-break space before it.
if_none_match_matches-Lists_example :
    (if_none_match_matches (listed other_tag ((0xC2 ∷ 0xA0 ∷ tag) ∷ [])) tag ≡ true)
    ↔ Lists tag (other_tag ∷ (0xC2 ∷ 0xA0 ∷ tag) ∷ [])
unfolding same
if_none_match_matches-Lists_example =
    if_none_match_matches-Lists (b'x' ∷ []) other_tag ((0xC2 ∷ 0xA0 ∷ tag) ∷ []) refl
      (refl, (refl, tt))

parse_pool_key-pool_key_example :
    parse_pool_key (pool_key (b'a' ∷ at ∷ b'b' ∷ []) 120) ≡ (b'a' ∷ at ∷ b'b' ∷ [], pos 120)
parse_pool_key-pool_key_example =
    parse_pool_key-pool_key (b'a' ∷ at ∷ b'b' ∷ []) 120 (omega arith) (inl refl)

parse_pool_key-mistaken_example :
    parse_pool_key (pool_key (b'a' ∷ at ∷ b'2' ∷ []) 1) ≡ (b'a' ∷ [], pos 2)
unfolding format_uint
parse_pool_key-mistaken_example = parse_pool_key-mistaken (b'a' ∷ []) 2 (omega arith) (omega arith)

-- Pools of the styles 1, 2 and 3; the style 3 came after the snapshot.
abbrev renderer : Renderer ℕ
renderer = record { pools = (3, 12) ∷ (2, 11) ∷ (1, 10) ∷ []; gone = false; closed = []; next = 13 }

reload_swap-lookup_example :
    let npr' =
      reload_swap ℕ_discrete
        (1 ∷ 2 ∷ [])
        (rebuild ℕ_discrete (λ k. k == 1) (λ k. false) (1 ∷ 2 ∷ []) [] 13)
        renderer in
    ((member ℕ_discrete 2 (1 ∷ 2 ∷ []) && (2 == 1)) ≡ true
      → AtLeast 13 (lookup ℕ_discrete 2 npr'.pools))
    × ((member ℕ_discrete 2 (1 ∷ 2 ∷ []) && not (2 == 1)) ≡ true
        → lookup ℕ_discrete 2 npr'.pools ≡ none)
    × (member ℕ_discrete 2 (1 ∷ 2 ∷ []) ≡ false
        → lookup ℕ_discrete 2 npr'.pools ≡ lookup ℕ_discrete 2 renderer.pools)
    × ((p : ℕ)
        → lookup ℕ_discrete 2 renderer.pools ≡ some p
        → (lookup ℕ_discrete 2 npr'.pools ≡ some p) ⊎ (is_in ℕ_discrete p npr'.closed ≡ true))
reload_swap-lookup_example =
    reload_swap-lookup ℕ_discrete (λ k. k == 1) (λ k. false) (1 ∷ 2 ∷ []) renderer 13 2 (λ j. refl)

close-nil_map_example :
    ((k p : ℕ)
      → lookup ℕ_discrete k renderer.pools ≡ some p
      → is_in ℕ_discrete p (close ℕ_discrete renderer).closed ≡ true)
    × (get_or_create_pool ℕ_discrete true true 1 (close ℕ_discrete renderer) ≡ nil_map)
close-nil_map_example = close-nil_map ℕ_discrete 1 renderer

abbrev settings : RuntimeSettings
settings = record { debug_enabled = false; log_debug = false }

-- Another goroutine turns the flag on during the first round, and on again after the swap of the
-- second, with its new level before that of the toggle.
toggle_debug-Outcome_example :
    Outcome
      ((stores true ∷ []) ∷ [] ∷ [])
      (stores true ∷ levels true ∷ [])
      false
      (toggle_debug ((stores true ∷ []) ∷ [] ∷ []) (stores true ∷ levels true ∷ []) settings)
toggle_debug-Outcome_example =
    toggle_debug-Outcome ((stores true ∷ []) ∷ [] ∷ []) (stores true ∷ levels true ∷ []) settings

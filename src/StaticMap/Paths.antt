-- ===== src/StaticMap/Paths.antt =====
-- What the paths of a map depend on, and where they lie.
use rampardos.Prelude.{
  ℕ, ◌≤◌, ltb, ◌≡◌, ◌≢◌, ◌↔◌, refl, sym, ap, false, Option, List, [], ◌∷◌, ◌++◌, All, length, take,
  drop, arith,
}
use rampardos.StaticMap.{
  FormatSettings, StaticMap, slash, replace_slashes, static_folder, get_format, normalized,
  without_drawables, has_drawables, persistent_hash, path, base_path,
}

abbrev pub NoSlash : List ℕ → Type 0
NoSlash = All (λ b. b ≢ slash)

replace_slashes-NoSlash : (l : List ℕ) → NoSlash (replace_slashes l)
unfolding replace_slashes
replace_slashes-NoSlash [] = tt
replace_slashes-NoSlash (b ∷ l) = (ground arith, replace_slashes-NoSlash l)

NoSlash-append : (l m : List ℕ) → NoSlash l → NoSlash m → NoSlash (l ++ m)
NoSlash-append [] m a c = c
NoSlash-append (b ∷ l) m a c = (a.0, NoSlash-append l m a.1 c)

append-NoSlash : (l m : List ℕ) → NoSlash (l ++ m) → NoSlash m
append-NoSlash [] m a = a
append-NoSlash (b ∷ l) m a = append-NoSlash l m a.1

no_items {ℓ} : {E : Type ℓ} (l : List E) → ltb 0 (length l) ≡ false → l ≡ []
no_items [] h = refl
no_items (e ∷ l) h = absurd (ground arith)

module _ {F M P C : Type 0} (digest : StaticMap F M P C → List ℕ → List ℕ)
    (g : FormatSettings) where
  without_drawables-none :
      (s : StaticMap F M P C) → has_drawables s ≡ false → without_drawables s ≡ s
  unfolding has_drawables without_drawables
  without_drawables-none s h =
      let ms : s.markers ≡ [] = no_items s.markers (ground arith) in
      let ps : s.polygons ≡ [] = no_items s.polygons (ground arith) in
      let cs : s.circles ≡ [] = no_items s.circles (ground arith) in ground arith

  -- Without drawables the base is the map itself.
  pub plain-path :
      (s : StaticMap F M P C) → has_drawables s ≡ false → path digest g s ≡ base_path digest g s
  unfolding path base_path
  plain-path s h =
      ap (λ x. static_folder ++ persistent_hash digest g x ++ b'.' ∷ get_format g s)
        (sym (without_drawables-none s h))

  -- The path of a map begins with its folder, and what follows has no slash exactly when the format
  -- of the map has none.
  pub path-NoSlash :
      (s : StaticMap F M P C)
      → (take (length static_folder) (path digest g s) ≡ static_folder)
        × (NoSlash (drop (length static_folder) (path digest g s)) ↔ NoSlash (get_format g s))
  unfolding path persistent_hash
  path-NoSlash s = (
    refl,
    (
      λ a.
          (append-NoSlash (replace_slashes (digest (normalized s) (get_format g s)))
            (b'.' ∷ get_format g s) a).1,
      λ a.
          NoSlash-append (replace_slashes (digest (normalized s) (get_format g s)))
            (b'.' ∷ get_format g s)
            (replace_slashes-NoSlash (digest (normalized s) (get_format g s))) (omega arith, a),
    ),
  )

  same_normal :
      (s : StaticMap F M P C) (f : Option (List ℕ))
      → s.scale ≤ 1
      → normalized (record s { format = f; scale = 1 }) ≡ normalized s
  unfolding normalized
  same_normal s f h = ground arith

  -- A map whose format is left open or overridden, or is the default, and whose scale is 0 or 1, has the path of the
  -- map that says so.
  pub path-normal :
      (s : StaticMap F M P C) (f : Option (List ℕ))
      → get_format g (record s { format = f; scale = 1 }) ≡ get_format g s
      → s.scale ≤ 1
      → path digest g (record s { format = f; scale = 1 }) ≡ path digest g s
  unfolding path persistent_hash
  path-normal s f e h = rw (e, same_normal s f h) refl

  -- Two maps that differ in their drawables alone share a base.
  pub base_path-shared :
      (s : StaticMap F M P C) (ms : List M) (ps : List P) (cs : List C)
      → base_path digest g (record s { markers = ms; polygons = ps; circles = cs })
        ≡ base_path digest g s
  unfolding base_path persistent_hash without_drawables get_format
  base_path-shared s ms ps cs = refl

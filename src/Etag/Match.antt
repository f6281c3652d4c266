-- ===== src/Etag/Match.antt =====
-- A conditional request is answered by 304 exactly when its header lists the tag.
use rampardos.Prelude.{
  ℕ, ◌==◌, ◌≡◌, ◌⊎◌, ◌↔◌, inl, inr, refl, sym, ap, ◌∙◌, Bool, true, false, ◌||◌, List, [], ◌∷◌,
  ◌++◌, All, Bool-cases, arith,
}
use mathlib.Core.Path.{ap₂}
use mathlib.Core.List.{append_assoc, append-nil}
use rampardos.Names.{same}
use rampardos.Etag.Trim.{quoted, Padded, trim_space-Padded}
use rampardos.Etag.{
  comma, star, trim_left, trim_right, trim_space, split, any_token, if_none_match_matches,
}

abbrev pub has_comma : List ℕ → Bool
has_comma [] = false
has_comma (x ∷ l) = (x == comma) || has_comma l

-- A header that lists tokens.
abbrev pub listed : List ℕ → List (List ℕ) → List ℕ
listed t [] = t
listed t (u ∷ ts) = t ++ comma ∷ listed u ts

split_plain :
    (read t rest : List ℕ) → has_comma t ≡ false → split read (t ++ rest) ≡ split (read ++ t) rest
unfolding split
split_plain read [] rest h = ap (λ l. split l rest) (sym (append-nil read))
split_plain read (x ∷ t) rest h =
    let x_plain : (x == comma) ≡ false = ground (arith, h) in
    let t_plain : has_comma t ≡ false = ground (arith, h) in
    rw x_plain (
      split_plain (read ++ x ∷ []) t rest t_plain
      ∙ ap (λ l. split l rest) (append_assoc read (x ∷ []) t))

split-comma : (read rest : List ℕ) → split read (comma ∷ rest) ≡ read ∷ split [] rest
unfolding split
split-comma read rest = refl

split-listed :
    (t : List ℕ) (ts : List (List ℕ))
    → All (λ l. has_comma l ≡ false) (t ∷ ts)
    → split [] (listed t ts) ≡ t ∷ ts
unfolding split
split-listed t [] (h, hs) = ap (split []) (sym (append-nil t)) ∙ split_plain [] t [] h
split-listed t (u ∷ ts) (h, hs) =
    split_plain [] t (comma ∷ listed u ts) h
    ∙ split-comma t (listed u ts)
    ∙ ap (λ l. t ∷ l) (split-listed u ts hs)

same_refl : (l : List ℕ) → same l l ≡ true
unfolding same
same_refl [] = refl
same_refl (x ∷ l) = ground (arith, same_refl l)

same_eq : (l m : List ℕ) → same l m ≡ true → l ≡ m
unfolding same
same_eq [] [] h = refl
same_eq [] (y ∷ m) h = absurd (cc)
same_eq (x ∷ l) [] h = absurd (cc)
same_eq (x ∷ l) (y ∷ m) h =
    let head : x ≡ y = ground (arith, h) in
    let tail : same l m ≡ true = ground (arith, h) in ap₂ (λ a b. a ∷ b) head (same_eq l m tail)

-- One of the tokens is the tag with white space around it.
abbrev pub Lists : List ℕ → List (List ℕ) → Type 0
Lists etag [] = ⊥
Lists etag (t ∷ ts) = Padded etag t ⊎ Lists etag ts

any_token_iff :
    (m : List ℕ) (ts : List (List ℕ)) → (any_token (quoted m) ts ≡ true) ↔ Lists (quoted m) ts
unfolding any_token
any_token_iff m [] = (λ h. absurd (cc), λ h. absurd h)
any_token_iff m (t ∷ ts) =
    let (out, back) = trim_space-Padded m t in
    elim (Bool-cases (same (trim_space t) (quoted m))) [
      | inl y ↦ (λ h. inl (out (same_eq _ _ y)), λ h. rw y refl)
      | inr n ↦ (
        λ h. inr ((any_token_iff m ts).0 (rw n at h)),
        λ h. elim h [
          | inl e ↦ absurd (cc (n, same_refl (quoted m), back e))
          | inr later ↦ rw n ((any_token_iff m ts).1 later)
        ],
      )
    ]

empty_apart : (m : List ℕ) → ¬ Padded (quoted m) []
unfolding trim_left trim_right
empty_apart m p = absurd (cc ((trim_space-Padded m []).1 p))

not_listed_empty :
    (m t : List ℕ) (ts : List (List ℕ)) → same (listed t ts) [] ≡ true → ¬ Lists (quoted m) (t ∷ ts)
unfolding same
not_listed_empty m [] [] h = λ l. elim l [ inl q ↦ empty_apart m q | inr b ↦ b ]
not_listed_empty m [] (u ∷ ts) h = λ l. absurd (cc)
not_listed_empty m (x ∷ t) [] h = λ l. absurd (cc)
not_listed_empty m (x ∷ t) (u ∷ ts) h = λ l. absurd (cc)

-- A header that lists tokens without commas, and is not a star, matches a tag in quotes exactly
-- when one of the tokens is the tag between any number of characters, on either side, that Unicode
-- counts as white space.
pub if_none_match_matches-Lists :
    (m t : List ℕ) (ts : List (List ℕ))
    → same (listed t ts) (star ∷ []) ≡ false
    → All (λ l. has_comma l ≡ false) (t ∷ ts)
    → (if_none_match_matches (listed t ts) (quoted m) ≡ true) ↔ Lists (quoted m) (t ∷ ts)
unfolding if_none_match_matches same
if_none_match_matches-Lists m t ts s h = elim (Bool-cases (same (listed t ts) [])) [
  | inl y ↦ rw y (λ a. absurd (cc), λ l. absurd (not_listed_empty m t ts y l))
  | inr n ↦ rw (n, s, split-listed t ts h) (any_token_iff m (t ∷ ts))
]

-- ===== src/Etag.antt =====
-- rampardos/internal/handlers/etag.go: entity tags and the answer 304. Headers are lists of bytes.
-- The digest of the version, the epoch and the path, in 24 hexadecimal digits, is a parameter:
-- SHA-256 is not part of the program.
use rampardos.Prelude.{
  ℕ, ◌+◌, ◌%◌, ◌^◌, ◌==◌, leb, if◌then◌else◌, Bool, true, false, ◌&&◌, ◌||◌, List, [], ◌∷◌, ◌++◌,
}
use rampardos.Names.{same}
pub mod Match
pub mod Trim

abbrev pub comma : ℕ
comma = b','

abbrev pub star : ℕ
star = b'*'

abbrev pub quote_ : ℕ
quote_ = b'"'

-- The white space of Unicode, as UTF-8 has it in one, two or three bytes.
unfoldable pub is_space : ℕ → Bool
is_space x = (x == 32) || (leb 9 x && leb x 13)

unfoldable pub is_space_of_two : ℕ → ℕ → Bool
is_space_of_two x y = (x == 0xC2) && ((y == 0x85) || (y == 0xA0))

unfoldable pub is_space_of_three : ℕ → ℕ → ℕ → Bool
is_space_of_three x y z =
    ((x == 0xE1) && (y == 0x9A) && (z == 0x80))
    || ((x == 0xE2) && (y == 0x80) && (leb 0x80 z && leb z 0x8A))
    || ((x == 0xE2) && (y == 0x80) && ((z == 0xA8) || (z == 0xA9) || (z == 0xAF)))
    || ((x == 0xE2) && (y == 0x81) && (z == 0x9F))
    || ((x == 0xE3) && (y == 0x80) && (z == 0x80))

unfoldable pub is_white : List ℕ → Bool
unfolding is_space is_space_of_two is_space_of_three
is_white [] = false
is_white (x ∷ []) = is_space x
is_white (x ∷ y ∷ []) = is_space_of_two x y
is_white (x ∷ y ∷ z ∷ []) = is_space_of_three x y z
is_white (x ∷ y ∷ z ∷ u ∷ l) = false

unfoldable pub trim_left : List ℕ → List ℕ
unfolding is_space is_space_of_two is_space_of_three
trim_left [] = []
trim_left (x ∷ []) = if is_space x then [] else x ∷ []
trim_left (x ∷ y ∷ []) = elim (is_space x) [
  | true ↦ trim_left (y ∷ [])
  | false ↦ if is_space_of_two x y then [] else x ∷ y ∷ []
]
trim_left (x ∷ y ∷ z ∷ l) = elim (is_space x) [
  | true ↦ trim_left (y ∷ z ∷ l)
  | false ↦ elim (is_space_of_two x y) [
    | true ↦ trim_left (z ∷ l)
    | false ↦ elim (is_space_of_three x y z) [ true ↦ trim_left l | false ↦ x ∷ y ∷ z ∷ l ]
  ]
]

-- From the right: what is left behind a byte, and then the byte with it.
unfoldable pub trim_right : List ℕ → List ℕ
unfolding is_white
trim_right [] = []
trim_right (x ∷ l) = let rest = trim_right l in if is_white (x ∷ rest) then [] else x ∷ rest

abbrev pub trim_space : List ℕ → List ℕ
trim_space l = trim_right (trim_left l)

-- `strings.SplitSeq(header, ",")`; the first argument is what has been read of a token.
unfoldable pub split : List ℕ → List ℕ → List (List ℕ)
split read [] = read ∷ []
split read (x ∷ l) =
    let next = split [] l in
    let on = split (read ++ x ∷ []) l in if x == comma then read ∷ next else on

-- The loop over the tokens.
unfoldable pub any_token : List ℕ → List (List ℕ) → Bool
unfolding same trim_left trim_right
any_token etag [] = false
any_token etag (token ∷ tokens) =
    let rest = any_token etag tokens in if same (trim_space token) etag then true else rest

unfoldable pub if_none_match_matches : List ℕ → List ℕ → Bool
unfolding same split any_token
if_none_match_matches header etag =
    if same header [] || same etag []
    then false
    else if same header (star ∷ [])
    then true
    else any_token etag (split [] header)

pub record Namespace : Type 0 where
  pub git_commit : List ℕ
  pub content_version_epoch : ℕ

-- `BumpContentVersion`; the counter has 64 bits.
unfoldable pub bump_content_version : Namespace → Namespace
bump_content_version n = record n { content_version_epoch = (n.content_version_epoch + 1) % 2 ^ 64 }

module _ (digest : List ℕ → ℕ → List ℕ → List ℕ) where
  unfoldable pub content_etag : Namespace → List ℕ → List ℕ
  content_etag n path = quote_ ∷ digest n.git_commit n.content_version_epoch path ++ quote_ ∷ []

  -- `setStaticMapCacheHeaders` and then `servedNotModified`: the tag sent, and whether it is 304.
  unfoldable pub conditional : Namespace → List ℕ → List ℕ → List ℕ × Bool
  unfolding content_etag
  conditional n path if_none_match =
      let etag = content_etag n path in (etag, if_none_match_matches if_none_match etag)

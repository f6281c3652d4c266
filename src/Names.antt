-- ===== src/Names.antt =====
-- rampardos/internal/services/sanitize.go: `SanitizeName`, with `filepath.Clean` of the standard
-- library as it is documented. Names are lists of bytes, and the path separator is `/`.
use rampardos.Prelude.{
  ℕ, ◌==◌, if◌then◌else◌, Bool, true, false, not, ◌&&◌, ◌||◌, List, [], ◌∷◌, ◌++◌,
}
pub mod Safe

abbrev pub slash : ℕ
slash = b'/'

abbrev pub dot : ℕ
dot = b'.'

unfoldable pub same : List ℕ → List ℕ → Bool
same [] [] = true
same [] (y ∷ m) = false
same (x ∷ l) [] = false
same (x ∷ l) (y ∷ m) = (x == y) && same l m

unfoldable pub contains_byte : ℕ → List ℕ → Bool
contains_byte b [] = false
contains_byte b (x ∷ l) = (x == b) || contains_byte b l

-- `strings.Contains(s, "..")`
unfoldable pub contains_dots : List ℕ → Bool
contains_dots [] = false
contains_dots (x ∷ []) = false
contains_dots (x ∷ y ∷ l) = ((x == dot) && (y == dot)) || contains_dots (y ∷ l)

-- `strings.HasPrefix(s, "/")`
abbrev pub rooted : List ℕ → Bool
rooted [] = false
rooted (x ∷ l) = x == slash

-- The elements of a path between its separators; the first one is what has been read.
unfoldable pub elements : List ℕ → List ℕ → List (List ℕ)
elements read [] = read ∷ []
elements read (x ∷ l) =
    let next = elements [] l in
    let on = elements (read ++ x ∷ []) l in if x == slash then read ∷ next else on

-- `Clean` on the elements, with those kept so far, last first: empty elements and `.` go, and `..`
-- takes the element before it away, unless there is none or it is `..` too; at a root it goes.
unfoldable pub reduce : Bool → List (List ℕ) → List (List ℕ) → List (List ℕ)
unfolding same
reduce root kept [] = kept
reduce root [] (e ∷ es) =
    let skip = reduce root [] es in
    let keep = reduce root (e ∷ []) es in
    if same e [] || same e (dot ∷ [])
    then skip
    else if same e (dot ∷ dot ∷ []) && root
    then skip
    else keep
reduce root (k ∷ kept) (e ∷ es) =
    let skip = reduce root (k ∷ kept) es in
    let back = reduce root kept es in
    let keep = reduce root (e ∷ k ∷ kept) es in
    if same e [] || same e (dot ∷ [])
    then skip
    else if same e (dot ∷ dot ∷ []) && not (same k (dot ∷ dot ∷ []))
    then back
    else keep

-- The elements joined by separators, last first.
unfoldable pub join : List (List ℕ) → List ℕ
join [] = []
join (e ∷ []) = e
join (e ∷ d ∷ es) = join (d ∷ es) ++ slash ∷ e

-- `filepath.Clean`
unfoldable pub clean : List ℕ → List ℕ
unfolding elements reduce join same
clean path =
    let joined = join (reduce (rooted path) [] (elements [] path)) in
    if rooted path then slash ∷ joined else if same joined [] then dot ∷ [] else joined

pub data SanitizeError : Type 0 where
  empty_name path_traversal separators invalid_characters : SanitizeError

pub data Sanitized : Type 0 where
  name : List ℕ → Sanitized
  rejected : SanitizeError → Sanitized

unfoldable pub sanitize_name : List ℕ → Sanitized
unfolding same contains_dots contains_byte clean
sanitize_name given =
    let cleaned = clean given in
    if same given []
    then rejected empty_name
    else if contains_dots cleaned
    then rejected path_traversal
    else if rooted cleaned || contains_byte slash cleaned
    then rejected separators
    else if same cleaned [] || same cleaned (dot ∷ [])
    then rejected invalid_characters
    else name cleaned

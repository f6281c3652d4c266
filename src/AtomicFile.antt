-- ===== src/AtomicFile.antt =====
-- rampardos/internal/fileutil/atomic.go: AtomicWriteFile, call by call. What the calls of the
-- operating system answer is an argument. os.CreateTemp gives a name that no file has.
use rampardos.Prelude.{
  ℕ, if◌then◌else◌, ◌≡◌, ◌≢◌, ◌⊎◌, inl, inr, refl, sym, ◌∙◌, Bool, true, false, ◌&&◌, Option, some,
  none, List, [], ◌∷◌, All, Bool-cases, Option-cases, arith, put, delete, put_self, put_ne,
  delete_self, delete_ne,
}

module _ {ℓ} {K : Type ℓ} (dec : Discrete K) where
  abbrev pub Files : Type ℓ
  Files = K → Option (List ℕ)

  -- Whether each call succeeds; a Write that fails may have stored a part.
  pub record Calls : Type 0 where
    pub mkdir_all : Bool
    pub create_temp : Bool
    pub part : Option (List ℕ)
    pub sync : Bool
    pub close : Bool
    pub chmod : Bool
    pub rename : Bool
    pub remove : Bool

  pub remove_temp : Calls → K → Files → Files
  remove_temp c tmp files = if c.remove then delete dec tmp files else files

  -- From Write on: the files after each call that changes them, and whether there was no error.
  pub write_temp : Calls → Option (List ℕ) → Bool → K → K → List ℕ → Files → List Files × Bool
  write_temp c (some p) rest tmp path data_ files =
      let torn = put dec tmp p files in
      (put dec tmp [] files ∷ torn ∷ remove_temp c tmp torn ∷ [], false)
  write_temp c none true tmp path data_ files = (
    put dec tmp [] files
        ∷ put dec tmp data_ files
        ∷ put dec path data_ (delete dec tmp (put dec tmp data_ files))
        ∷ [],
    true,
  )
  write_temp c none false tmp path data_ files =
      let written = put dec tmp data_ files in
      (put dec tmp [] files ∷ written ∷ remove_temp c tmp written ∷ [], false)

  pub atomic_write_file : Calls → K → K → List ℕ → Files → List Files × Bool
  atomic_write_file c tmp path data_ files =
      if c.mkdir_all && c.create_temp
      then write_temp c c.part (c.sync && c.close && c.chmod && c.rename) tmp path data_ files
      else ([], false)

  -- The file is as before or complete, and no other file but the temporary one is touched.
  abbrev pub Whole : K → K → List ℕ → Files → Files → Type ℓ
  Whole tmp path data_ files s =
      ((s path ≡ files path) ⊎ (s path ≡ some data_))
      × ((k : K) → k ≢ path → k ≢ tmp → s k ≡ files k)

  abbrev is_whole : Option (List ℕ) → Bool
  is_whole none = true
  is_whole (some part) = false

  -- Whether a write ends well.
  abbrev pub succeeds : Calls → Bool
  succeeds c =
      c.mkdir_all && c.create_temp && is_whole c.part && (c.sync && c.close && c.chmod && c.rename)

  pub succeeds_lem :
      (c : Calls) (tmp path : K) (data_ : List ℕ) (files : Files)
      → (atomic_write_file c tmp path data_ files).1 ≡ succeeds c
  unfolding atomic_write_file write_temp
  succeeds_lem c tmp path data_ files = elim (Bool-cases (c.mkdir_all && c.create_temp)) [
    | inr n ↦ rw n (ground arith)
    | inl y ↦ elim (Option-cases c.part) [
      | inr (part, e) ↦ rw (y, e) (ground arith)
      | inl e ↦ elim (Bool-cases (c.sync && c.close && c.chmod && c.rename)) [
        | inl g ↦ rw (y, e, g) (ground arith)
        | inr b ↦ rw (y, e, b) (ground arith)
      ]
    ]
  ]

  pub last : Files → List Files → Files
  last files [] = files
  last files (s ∷ l) = last s l

  pub last-All {κ} :
      (P : Files → Type κ) (files : Files) (states : List Files)
      → P files
      → All P states
      → P (last files states)
  unfolding last
  last-All P files [] h hs = h
  last-All P files (s ∷ states) h (k, hs) = last-All P s states k hs

  module _ (tmp path : K) (data_ : List ℕ) (files : Files) (free : files tmp ≡ none)
      (other : tmp ≢ path) where
    temp-Whole : (body : List ℕ) → Whole tmp path data_ files (put dec tmp body files)
    temp-Whole body = (
      inl (put_ne dec tmp body files path (λ e. other (sym e))),
      λ k a b. put_ne dec tmp body files k b,
    )

    ne_temp : path ≢ tmp
    ne_temp e = other (sym e)

    deleted-Whole :
        (body : List ℕ) → Whole tmp path data_ files (delete dec tmp (put dec tmp body files))
    deleted-Whole body = (
      inl (
          delete_ne dec tmp (put dec tmp body files) path ne_temp
          ∙ put_ne dec tmp body files path ne_temp),
      λ k a b. delete_ne dec tmp (put dec tmp body files) k b ∙ put_ne dec tmp body files k b,
    )

    removed-Whole :
        (c : Calls) (body : List ℕ)
        → Whole tmp path data_ files (remove_temp c tmp (put dec tmp body files))
    unfolding remove_temp
    removed-Whole c body = elim (Bool-cases c.remove) [
      | inl done ↦ rw (done, remove_temp) (deleted-Whole body)
      | inr left ↦ rw (left, remove_temp) (temp-Whole body)
    ]

    removed-gone : (c : Calls) (s : Files) → c.remove ≡ true → remove_temp c tmp s tmp ≡ none
    unfolding remove_temp
    removed-gone c s done = rw (done, remove_temp) (delete_self dec tmp s)

    removed-path :
        (c : Calls) (body : List ℕ) → remove_temp c tmp (put dec tmp body files) path ≡ files path
    unfolding remove_temp
    removed-path c body = elim (Bool-cases c.remove) [
      | inl done ↦
          rw (done, remove_temp)
            (delete_ne dec tmp (put dec tmp body files) path ne_temp
              ∙ put_ne dec tmp body files path ne_temp)
      | inr left ↦ rw (left, remove_temp) (put_ne dec tmp body files path ne_temp)
    ]

    renamed : Files
    renamed = put dec path data_ (delete dec tmp (put dec tmp data_ files))

    renamed-Whole : Whole tmp path data_ files renamed
    unfolding renamed
    renamed-Whole = (
      inr (put_self dec path data_ (delete dec tmp (put dec tmp data_ files))),
      λ k a b.
          put_ne dec path data_ (delete dec tmp (put dec tmp data_ files)) k a
          ∙ delete_ne dec tmp (put dec tmp data_ files) k b
          ∙ put_ne dec tmp data_ files k b,
    )

    -- The states and the verdict of a call.
    abbrev pub Atomic : Calls → List Files × Bool → Type ℓ
    Atomic c r =
        All (Whole tmp path data_ files) r.0
        × (last files r.0 path ≡ (if r.1 then some data_ else files path))
        × ((c.remove ≡ false) ⊎ (last files r.0 tmp ≡ none))

    given_up :
        (c : Calls) (body : List ℕ)
        → Atomic c (
          put dec tmp [] files
              ∷ put dec tmp body files
              ∷ remove_temp c tmp (put dec tmp body files)
              ∷ [],
          false,
        )
    unfolding last
    given_up c body = (
      (temp-Whole [], (temp-Whole body, (removed-Whole c body, tt))),
      removed-path c body,
      elim (Bool-cases c.remove) [
        | inl done ↦ inr (removed-gone c (put dec tmp body files) done)
        | inr left ↦ inl left
      ],
    )

    write_temp-Atomic :
        (c : Calls) (part : Option (List ℕ)) (rest : Bool)
        → Atomic c (write_temp c part rest tmp path data_ files)
    unfolding write_temp last renamed
    write_temp-Atomic c (some p) rest = given_up c p
    write_temp-Atomic c none false = given_up c data_
    write_temp-Atomic c none true = (
      (temp-Whole [], (temp-Whole data_, (renamed-Whole, tt))),
      put_self dec path data_ (delete dec tmp (put dec tmp data_ files)),
      inr (
          put_ne dec path data_ (delete dec tmp (put dec tmp data_ files)) tmp other
          ∙ delete_self dec tmp (put dec tmp data_ files)),
    )

    -- If the temporary name is free and not the path, then after every call the file is the old one
    -- or the complete new one, and nothing but the temporary file has changed beside it; at the end
    -- it is the new one if there was no error and else the old one, and the temporary file is gone
    -- unless it cannot be removed.
    pub atomic_write_file-Atomic : (c : Calls) → Atomic c (atomic_write_file c tmp path data_ files)
    unfolding atomic_write_file last
    atomic_write_file-Atomic c = elim (Bool-cases (c.mkdir_all && c.create_temp)) [
      | inr no_temp ↦ rw no_temp (tt, refl, inr free)
      | inl temp ↦ rw temp (write_temp-Atomic c c.part (c.sync && c.close && c.chmod && c.rename))
    ]

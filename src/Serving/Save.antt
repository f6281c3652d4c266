-- ===== src/Serving/Save.antt =====
-- What the saving of an image for later leaves of the files and the queue.
use rampardos.Prelude.{
  ℕ, ap, if◌then◌else◌, ◌≡◌, ◌≢◌, inl, inr, refl, sym, ◌∙◌, ite, if_pos, if_neg, Bool, true, false,
  not, ◌&&◌, Option, some, none, List, [], ◌∷◌, Bool-cases, Option-cases, arith, ℤ,
}
use rampardos.ExpiryQueue.{ExpiryQueue}
use rampardos.ExpiryQueue.Valid.{IsValid}
use rampardos.ExpiryQueue.Schedule.{plan, planned_all, add-Plans}
use rampardos.AtomicFile.{
  Calls, last, last-All, Whole, succeeds, succeeds_lem, atomic_write_file, atomic_write_file-Atomic,
}
use rampardos.Serving.{
  Query, Disk, Response, pregenerate_failed, file_name, base_name, FilesOf, has_file,
  enqueue_with_base, Outcome, write_marker, handle_pregenerate,
}

pub then_branch : {A : Type 0} (b : Bool) (x y : A) → b ≡ true → (if b then x else y) ≡ x
then_branch b x y e = rw e refl

pub else_branch : {A : Type 0} (b : Bool) (x y : A) → b ≡ false → (if b then x else y) ≡ y
else_branch b x y e = rw e refl

module _ (dec : Discrete (List ℕ)) where
  has_it :
      (files : FilesOf dec) (k body : List ℕ) → files k ≡ some body → has_file dec files k ≡ true
  has_it files k body h = rw (has_file, h) refl

  abbrev pub QueueValid : Option (ExpiryQueue (List ℕ)) → Type 0
  QueueValid none = Unit {0}
  QueueValid (some q) = IsValid q

  -- The paths that are scheduled: the base as well, if it is another one.
  abbrev pub scheduled : List ℕ → List ℕ → List (List ℕ)
  scheduled p b = ite (dec p b) (p ∷ []) (p ∷ b ∷ [])

  abbrev pub Planned :
      ℕ → ℤ → List (List ℕ) → Option (ExpiryQueue (List ℕ)) → Option (ExpiryQueue (List ℕ)) → Type 0
  Planned now ttl ps none r = r ≡ none
  Planned now ttl ps (some q) r =
      (q' : ExpiryQueue (List ℕ)) × (r ≡ some q')
      × IsValid q'
      × (plan q' ≡ planned_all dec now ttl (plan q) ps)

  enqueue-Planned :
      (now : ℕ) (ttl : ℤ) (p b : List ℕ) (oq : Option (ExpiryQueue (List ℕ)))
      → QueueValid oq
      → (r : Option (ExpiryQueue (List ℕ))) × (enqueue_with_base dec now ttl p b oq ≡ some r)
        × Planned now ttl (scheduled p b) oq r
  unfolding enqueue_with_base
  enqueue-Planned now ttl p b none v = (none, refl, refl)
  enqueue-Planned now ttl p b (some q) v = elim (dec p b) [
    | yes d ↦
        let (q', e, (w, s)) = add-Plans dec now ttl (p ∷ []) q v in
        (some q', rw (if_pos _ d, e) refl, (q', refl, w, rw (if_pos _ d) s))
    | no ne ↦
        let (q', e, (w, s)) = add-Plans dec now ttl (p ∷ b ∷ []) q v in
        (some q', rw (if_neg _ ne, e) refl, (q', refl, w, rw (if_neg _ ne) s))
  ]

  pub Planned-QueueValid :
      (now : ℕ) (ttl : ℤ) (ps : List (List ℕ)) (q r : Option (ExpiryQueue (List ℕ)))
      → Planned now ttl ps q r
      → QueueValid r
  Planned-QueueValid now ttl ps none r e = rw e tt
  Planned-QueueValid now ttl ps (some q) r (q', e, v, s) = rw e v

  -- A write changes the file and the temporary one alone.
  written-kept :
      (c : Calls dec) (tmp p body k : List ℕ) (files : FilesOf dec)
      → files tmp ≡ none
      → tmp ≢ p
      → k ≢ p
      → k ≢ tmp
      → last dec files (atomic_write_file dec c tmp p body files).0 k ≡ files k
  written-kept c tmp p body k files free ne a b =
      let (whole, _, _) = atomic_write_file-Atomic dec tmp p body files free ne c in
      (last-All dec (Whole dec tmp p body files) files (atomic_write_file dec c tmp p body files).0
          (inl refl, λ j x y. refl) whole).1
        k a b

  module _ (regeneratable : Bool) (out : Outcome dec) (m : List ℕ) (files : FilesOf dec)
      (free : files out.marker_tmp ≡ none) (ne : out.marker_tmp ≢ m) where
    marker-kept :
        (o : Option (List ℕ)) (k : List ℕ)
        → k ≢ m
        → k ≢ out.marker_tmp
        → write_marker dec regeneratable out o m files k ≡ files k
    unfolding write_marker
    marker-kept none k a b = refl
    marker-kept (some body) k a b =
        elim (Bool-cases (regeneratable && (out.stat && not (has_file dec files m)))) [
          | inl y ↦ rw y (written-kept out.marker_calls out.marker_tmp m body k files free ne a b)
          | inr n ↦ rw n refl
        ]

    -- A marker does not touch a file that is there.
    marker-there :
        (o : Option (List ℕ)) (k body : List ℕ)
        → files k ≡ some body
        → write_marker dec regeneratable out o m files k ≡ some body
    unfolding write_marker
    marker-there none k body h = h
    marker-there (some data_) k body h =
        elim (Bool-cases (regeneratable && (out.stat && not (has_file dec files m)))) [
          | inr n ↦ rw n h
          | inl y ↦
              let gone : has_file dec files m ≡ false = ground (arith, y) in
              let other : k ≢ m =
                λ e. cc (gone, ap (has_file dec files) e, has_it files k body h) in
              let apart : k ≢ out.marker_tmp = λ e. cc (h, free, ap files e) in
              rw y (
                written-kept out.marker_calls out.marker_tmp m data_ k files free ne other apart
                ∙ h)
        ]

  -- The marker of a regeneratable map: one that is there stays, and else the new one is there if it
  -- could be encoded and written.
  abbrev pub marker_after : Bool → Outcome dec → Option (List ℕ) → Option (List ℕ) → Option (List ℕ)
  marker_after regeneratable out o (some old) = some old
  marker_after regeneratable out o none =
      if regeneratable && (out.stat && succeeds dec out.marker_calls) then o else none

  marker-written :
      (regeneratable : Bool) (out : Outcome dec) (m : List ℕ) (files : FilesOf dec)
      (free : files out.marker_tmp ≡ none) (ne : out.marker_tmp ≢ m) (o : Option (List ℕ))
      → write_marker dec regeneratable out o m files m ≡ marker_after regeneratable out o (files m)
  unfolding write_marker
  marker-written regeneratable out m files free ne none = elim (Option-cases (files m)) [
    | inl e ↦ rw e (ground arith)
    | inr (old, e) ↦ rw e refl
  ]
  marker-written regeneratable out m files free ne (some body) =
      let (_, at, _) =
        atomic_write_file-Atomic dec out.marker_tmp m body files free ne out.marker_calls in
      let s = succeeds_lem dec out.marker_calls out.marker_tmp m body files in
      elim (Option-cases (files m)) [
        | inl e ↦
            let gone : has_file dec files m ≡ false = rw (has_file, e) refl in
            elim (Bool-cases (regeneratable && out.stat)) [
              | inl y ↦
                  let wanted : (regeneratable && (out.stat && not (has_file dec files m))) ≡ true =
                    ground (arith, y, gone) in
                  rw wanted (rw e (at ∙ rw (s, e) (ground (arith, y))))
              | inr n ↦
                  let idle : (regeneratable && (out.stat && not (has_file dec files m))) ≡ false =
                    ground (arith, n, gone) in
                  rw idle (rw e (ground (arith, n)))
            ]
        | inr (old, e) ↦ rw e (marker-there regeneratable out m files free ne (some body) m old e)
      ]

  -- The names that os.CreateTemp gives are free, and those of the marker in another folder.
  abbrev pub FreshNames : Outcome dec → List ℕ → List ℕ → FilesOf dec → Type 0
  FreshNames out p m files =
      (files out.image_tmp ≡ none)
      × (out.image_tmp ≢ p)
      × (files out.marker_tmp ≡ none)
      × (out.marker_tmp ≢ p)
      × (out.marker_tmp ≢ out.image_tmp)
      × (out.marker_tmp ≢ m)
      × (m ≢ p)
      × (m ≢ out.image_tmp)

  -- What a write of the image leaves of the other files.
  abbrev pub Untouched : Outcome dec → List ℕ → List ℕ → FilesOf dec → FilesOf dec → Type 0
  Untouched out p m files after =
      (k : List ℕ) → k ≢ p → k ≢ out.image_tmp → k ≢ m → k ≢ out.marker_tmp → after k ≡ files k

  -- What a request that is to write its image leaves, by its answer.
  abbrev pub Saved :
      Outcome dec → Bool → ℤ → List ℕ → List ℕ → List ℕ → List ℕ → Disk → Disk × Response → Type 0
  Saved out regeneratable ttl p m b body disk (d, file_name n) =
      (succeeds dec out.image_calls ≡ true)
      × (n ≡ base_name p)
      × (d.files p ≡ some body)
      × (d.files m ≡ marker_after regeneratable out out.marker (disk.files m))
      × Untouched out p m disk.files d.files
      × Planned out.now ttl (scheduled p b) disk.queue d.queue
  Saved out regeneratable ttl p m b body disk (d, pregenerate_failed) =
      (succeeds dec out.image_calls ≡ false)
      × (d.files p ≡ disk.files p)
      × Untouched out p m disk.files d.files
      × (d.queue ≡ disk.queue)
  Saved out regeneratable ttl p m b body disk (d, other) = ⊥

  -- A write that succeeds is scheduled, one that fails is not.
  pub handle_pregenerate-Saved :
      (query : Query) (marker_path : List ℕ → List ℕ) (out : Outcome dec) (ttl : ℤ)
      (p b body : List ℕ) (disk : Disk)
      → FreshNames out p (marker_path (base_name p)) disk.files
      → QueueValid disk.queue
      → (r : Disk × Response) × (handle_pregenerate dec query marker_path out ttl p b body disk
          ≡ some r)
        × Saved out query.regeneratable ttl p (marker_path (base_name p)) b body disk r
  unfolding handle_pregenerate
  handle_pregenerate-Saved query marker_path out ttl p b body disk
        (free, ne, marker_free, ne_p, ne_tmp, ne_m, m_p, m_tmp) v =
      let m = marker_path (base_name p) in
      let w = atomic_write_file dec out.image_calls out.image_tmp p body disk.files in
      let files = last dec disk.files w.0 in
      let (_, at_p, _) =
        atomic_write_file-Atomic dec out.image_tmp p body disk.files free ne out.image_calls in
      let kept : (k : List ℕ) → k ≢ p → k ≢ out.image_tmp → files k ≡ disk.files k =
        λ k. written-kept out.image_calls out.image_tmp p body k disk.files free ne in
      let ends = succeeds_lem dec out.image_calls out.image_tmp p body disk.files in
      elim (Bool-cases w.1) [
        | inr bad ↦ (
          (record { files = files; queue = disk.queue }, pregenerate_failed),
          rw bad refl,
          (
            sym ends ∙ bad,
            (at_p ∙ else_branch w.1 (some body) (disk.files p) bad),
            λ k x y _ _. kept k x y,
            refl,
          ),
        )
        | inl good ↦
            let (q, e, planned) = enqueue-Planned out.now ttl p b disk.queue v in
            let after = write_marker dec query.regeneratable out out.marker m files in
            let still = kept out.marker_tmp ne_p ne_tmp ∙ marker_free in
            (
              (record { files = after; queue = q }, file_name (base_name p)),
              rw (good, e) refl,
              (
                sym ends ∙ good,
                refl,
                marker-there query.regeneratable out m files still ne_m out.marker p body
                    (at_p ∙ then_branch w.1 (some body) (disk.files p) good),
                marker-written query.regeneratable out m files still ne_m out.marker
                    ∙ ap (marker_after query.regeneratable out out.marker) (kept m m_p m_tmp),
                λ k x y z u.
                    marker-kept query.regeneratable out m files still ne_m out.marker k z u
                    ∙ kept k x y,
                planned,
              ),
            )
      ]

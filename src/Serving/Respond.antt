-- ===== src/Serving/Respond.antt =====
-- What a request answers and leaves behind.
use rampardos.Prelude.{
  ℕ, ◌≡◌, inl, inr, refl, ◌∙◌, Bool, true, false, not, ◌&&◌, Option, some, none, List, Bool-cases,
  Option-cases, arith,
}
use rampardos.CompositeCache.{Image}
use rampardos.StaticMap.{FormatSettings, StaticMap, path, base_path}
use rampardos.StaticMap.Generate.{◌>>=◌, Cache, Result, ok, failed, Flight, generate_static_map}
use rampardos.StaticMap.Generate.Sound.{Held, Answers, RightFlight, generate_static_map-Right}
use rampardos.AtomicFile.{succeeds}
use rampardos.Etag.{Namespace, content_etag, conditional}
use rampardos.Serving.{
  Float64, validate, effective_ttl, ttl_seconds, Query, Disk, Response, bad_request, not_modified,
  generation_failed, encode_failed, pregenerate_failed, file_name, base_name, serve_content,
  Outcome, respond, finish, handle_request, float_one,
}
use rampardos.Serving.Save.{
  then_branch, else_branch, QueueValid, scheduled, Planned, Planned-QueueValid, marker_after,
  FreshNames, Untouched, Saved, handle_pregenerate-Saved,
}

module _ {M P C : Type 0} (dec : Discrete (List ℕ)) (Shows : List ℕ → Image → Type 0)
    (digest : StaticMap Float64 M P C → List ℕ → List ℕ) (g : FormatSettings)
    (tag : List ℕ → ℕ → List ℕ → List ℕ) (version : Namespace)
    (encode : Image → List ℕ → Option (List ℕ)) (marker_path : List ℕ → List ℕ) where
  -- The body is an encoding of an image of the path.
  abbrev pub Depicts : List ℕ → List ℕ → Type 0
  Depicts p body = (img : Image) × Shows p img × (encode img p ≡ some body)

  -- What is true of a response, and of the disk after it. The disk of a request that generates is
  -- compared with the one it finds once the image is there.
  abbrev pub Sent :
      StaticMap Float64 M P C
      → Query
      → Outcome dec
      → Option (Cache × Result × Bool)
      → Disk
      → Disk
      → Response
      → Type 0
  Sent s query out made disk d (bad_request e) = (validate float_one s ≡ some e) × (d ≡ disk)
  Sent s query out made disk d (not_modified t) =
      (validate float_one s ≡ none)
      × (query.pregenerate ≡ false)
      × (d ≡ disk)
      × ((t, true) ≡ conditional tag version (path digest g s) query.if_none_match)
  Sent s query out made disk d generation_failed =
      (validate float_one s ≡ none)
      × (d ≡ out.meanwhile disk)
      × ((c : Cache) × (b : Bool) × (made ≡ some (c, failed, b)))
  Sent s query out made disk d encode_failed =
      (validate float_one s ≡ none)
      × (d ≡ out.meanwhile disk)
      × ((img : Image) × Shows (path digest g s) img × (encode img (path digest g s) ≡ none))
  Sent s query out made disk d pregenerate_failed =
      (validate float_one s ≡ none)
      × (query.pregenerate ≡ true)
      × (succeeds dec out.image_calls ≡ false)
      × (d.files (path digest g s) ≡ (out.meanwhile disk).files (path digest g s))
      × Untouched dec out (path digest g s) (marker_path (base_name (path digest g s)))
          (out.meanwhile disk).files d.files
      × (d.queue ≡ (out.meanwhile disk).queue)
  Sent s query out made disk d (serve_content t n body) =
      (validate float_one s ≡ none)
      × (query.pregenerate ≡ false)
      × (d ≡ out.meanwhile disk)
      × (t ≡ content_etag tag version (path digest g s))
      × (n ≡ base_name (path digest g s))
      × Depicts (path digest g s) body
  Sent s query out made disk d (file_name n) =
      (validate float_one s ≡ none)
      × (query.pregenerate ≡ true)
      × (succeeds dec out.image_calls ≡ true)
      × (n ≡ base_name (path digest g s))
      × ((body : List ℕ) × (d.files (path digest g s) ≡ some body) × Depicts (path digest g s) body)
      × (d.files (marker_path (base_name (path digest g s)))
          ≡ marker_after dec query.regeneratable out out.marker
              ((out.meanwhile disk).files (marker_path (base_name (path digest g s)))))
      × Untouched dec out (path digest g s) (marker_path (base_name (path digest g s)))
          (out.meanwhile disk).files d.files
      × Planned dec out.now (effective_ttl (ttl_seconds query.nocache query.pregenerate query.ttl))
          (scheduled dec (path digest g s) (base_path digest g s)) (out.meanwhile disk).queue
          d.queue

  -- The names of temporary files are free when the image is there.
  abbrev pub Fresh : StaticMap Float64 M P C → Outcome dec → Disk → Type 0
  Fresh s out disk =
      FreshNames dec out (path digest g s) (marker_path (base_name (path digest g s)))
        (out.meanwhile disk).files

  module _ (s : StaticMap Float64 M P C) (query : Query) (out : Outcome dec)
      (made : Option (Cache × Result × Bool)) (disk : Disk)
      (v : QueueValid dec (out.meanwhile disk).queue) (fresh : Fresh s out disk)
      (fine : validate float_one s ≡ none) where
    abbrev Told : Option (Disk × Response) → Type 0
    Told o =
        (r : Disk × Response) × (o ≡ some r)
        × QueueValid dec r.0.queue
        × Sent s query out made disk r.0 r.1

    Saved-Told :
        (body : List ℕ)
        → query.pregenerate ≡ true
        → Depicts (path digest g s) body
        → (d : Disk) (a : Response)
        → Saved dec out query.regeneratable
            (effective_ttl (ttl_seconds query.nocache query.pregenerate query.ttl))
            (path digest g s)
            (marker_path (base_name (path digest g s)))
            (base_path digest g s)
            body
            (out.meanwhile disk)
            (d, a)
        → QueueValid dec d.queue × Sent s query out made disk d a
    Saved-Told body pre x d (file_name n) (ends, same, there, marked, kept, planned) = (
      Planned-QueueValid dec out.now _ _ (out.meanwhile disk).queue d.queue planned,
      (fine, pre, ends, same, (body, there, x), marked, kept, planned),
    )
    Saved-Told body pre x d pregenerate_failed (ends, same, kept, queue) =
        (rw queue v, (fine, pre, ends, same, kept, queue))
    Saved-Told body pre x d (bad_request e) t = absurd t
    Saved-Told body pre x d (not_modified e) t = absurd t
    Saved-Told body pre x d generation_failed t = absurd t
    Saved-Told body pre x d encode_failed t = absurd t
    Saved-Told body pre x d (serve_content e n b) t = absurd t

    respond-Told :
        (body : List ℕ)
        → Depicts (path digest g s) body
        → Told (
            respond dec digest g tag version encode marker_path s query out body
              (out.meanwhile disk))
    unfolding respond
    respond-Told body x = elim (Bool-cases query.pregenerate) [
      | inr plain ↦ (
        (
          out.meanwhile disk,
          serve_content (content_etag tag version (path digest g s)) (base_name (path digest g s))
              body,
        ),
        else_branch query.pregenerate _ _ plain,
        v,
        (fine, plain, refl, refl, refl, x),
      )
      | inl pre ↦
          let ttl = effective_ttl (ttl_seconds query.nocache query.pregenerate query.ttl) in
          let (r, e, t) =
            handle_pregenerate-Saved dec query marker_path out ttl (path digest g s)
              (base_path digest g s) body (out.meanwhile disk) fresh v in
          let (w, told) = Saved-Told body pre x r.0 r.1 t in
          (r, then_branch query.pregenerate _ _ pre ∙ e, w, told)
    ]

    finish-Told :
        (r : Result)
        → ((c : Cache) × (b : Bool) × (made ≡ some (c, r, b)))
        → Answers dec Shows (path digest g s) r
        → Told
            (finish dec digest g tag version encode marker_path s query out r (out.meanwhile disk))
    unfolding finish
    finish-Told failed m a = ((out.meanwhile disk, generation_failed), refl, v, (fine, refl, m))
    finish-Told (ok img) m a = elim (Option-cases (encode img (path digest g s))) [
      | inl bad ↦ (
        (out.meanwhile disk, encode_failed),
        rw (bad, finish) refl,
        v,
        (fine, refl, (img, a, bad)),
      )
      | inr (body, e) ↦ rw (e, finish) (respond-Told body (img, a, e))
    ]

  module _ (s : StaticMap Float64 M P C) (query : Query) (flight : Flight dec digest g)
      (out : Outcome dec) (gc : Cache) (disk : Disk) (held : Held dec Shows gc)
      (right : RightFlight dec Shows digest g s flight) (v : QueueValid dec disk.queue)
      (still : QueueValid dec (out.meanwhile disk).queue) (fresh : Fresh s out disk) where
    abbrev pub Handled : Option (Cache × Disk × Response) → Type 0
    Handled o =
        (r : Cache × Disk × Response) × (o ≡ some r)
        × Held dec Shows r.0
        × QueueValid dec r.1.queue
        × Sent s query out (generate_static_map dec digest g s query.nocache flight gc) disk r.1 r.2

    abbrev generating : Option (Cache × Disk × Response)
    generating = generate_static_map dec digest g s query.nocache flight gc >>= λ (c, r, _).
        finish dec digest g tag version encode marker_path s query out r (out.meanwhile disk)
        >>= λ (d, a). some (c, d, a)

    generating-Handled : validate float_one s ≡ none → Handled generating
    generating-Handled fine =
        let ((c, r, cached), e, w, a) =
          generate_static_map-Right dec Shows digest g s query.nocache flight gc held right in
        let ((d, b), f, x, y) =
          finish-Told s query out (generate_static_map dec digest g s query.nocache flight gc) disk
            still fresh fine r (c, cached, e) a in
        ((c, d, b), rw (e, f) refl, w, x, y)

    abbrev known : List ℕ × Bool
    known = conditional tag version (path digest g s) query.if_none_match

    abbrev quick : Bool
    quick = not query.pregenerate && known.1

    -- Under the conditions of the generation, if the queue is valid or absent before and once the
    -- image is there, and then the temporary names are free and they, the image and the marker are
    -- different files, a request ends, keeps cache and queue valid, and asks for one of these
    -- answers: a rejection if and only if a check fails, or 304 only if the tag matches, both with
    -- the disk untouched; an error that occurred or the content of an encoding of an image of the
    -- map with its tag, with the disk as it was once the image was there; an error of a write, if
    -- its write fails, with the file and the queue as they were then; or, if it does not, the name
    -- of a file that holds such an encoding and is scheduled with its base, with the marker of a
    -- regeneratable map beside it that was there or, if it could be encoded and written, is new. No
    -- other file is touched but the temporary ones.
    pub handle_request-Handled :
        Handled
          (handle_request dec digest g tag version encode marker_path s query flight out gc disk)
    unfolding handle_request
    handle_request-Handled = elim (Option-cases (validate float_one s)) [
      | inr (e, bad) ↦
          ((gc, disk, bad_request e), rw (bad, handle_request) refl, held, v, (bad, refl))
      | inl fine ↦
          rw (fine, handle_request)
            (elim (Bool-cases quick) [
              | inr slow ↦
                  let (r, e, w, x, told) = generating-Handled fine in
                  (r, else_branch quick _ _ slow ∙ e, w, x, told)
              | inl same ↦ (
                (gc, disk, not_modified known.0),
                then_branch quick _ _ same,
                held,
                v,
                (fine, ground arith, refl, ground arith),
              )
            ])
    ]

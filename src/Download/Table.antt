-- ===== src/Download/Table.antt =====
-- The life of a download in the table.
use rampardos.Prelude.{
  pos, ℕ, if◌then◌else◌, ◌≡◌, ◌≢◌, ◌⊎◌, inl, inr, refl, Bool, true, false, Option, some, none, ◌∷◌,
  Option-cases, put, delete, put_self, delete_self, arith,
}
use rampardos.Download.{
  DownloadStatus, pending, downloading, complete, error, DownloadInfo, Failure, StartResult,
  started, already_in_progress, cancelling, not_in_progress, percent, DownloadManager, in_progress,
  finished, begin_entry, start_download, get_download, clear_download, cancel_download,
  cancel_untrack, download_begin, download_end,
}

not_finished : (s : DownloadStatus) → in_progress s ≡ true → finished s ≡ false
unfolding in_progress finished
not_finished pending h = refl
not_finished downloading h = refl
not_finished complete h = absurd (cc)
not_finished error h = absurd (cc)

module _ {K : Type 0} (dec : Discrete K) where
  -- The status of the download with a name.
  abbrev pub status_of : K → DownloadManager K → Option DownloadStatus
  status_of name dm = elim (dm.downloads name) [ none ↦ none | some info ↦ some (info.status) ]

  abbrev pub is_started : StartResult (DownloadManager K) → Bool
  is_started (started dm) = true
  is_started already_in_progress = false

  module _ (name : K) (info : DownloadInfo K) (dm : DownloadManager K)
      (h : dm.downloads name ≡ some info) where
    start_refused :
        (url path now : ℕ)
        → in_progress info.status ≡ true
        → start_download dec name url path now dm ≡ already_in_progress
    unfolding start_download
    start_refused url path now p = rw (h, start_download, p) refl

    clear_kept : in_progress info.status ≡ true → clear_download dec name dm ≡ dm
    unfolding clear_download
    clear_kept p = rw (h, clear_download, not_finished info.status p) refl

    began :
        download_begin dec name dm
        ≡ some (record dm {
          downloads = put dec name (record info { status = downloading }) dm.downloads;
        })
    unfolding download_begin
    began = rw (h, download_begin) refl

    ended_well :
        (callback : Bool) (now : ℕ)
        → let dm' = download_end dec callback name none now dm in
          (status_of name dm' ≡ some complete)
          × (dm'.completed ≡ (if callback then name ∷ dm.completed else dm.completed))
    unfolding download_end
    ended_well callback now =
        rw (h, download_end, status_of, put_self dec name _ dm.downloads) (refl, refl)

    ended_badly :
        (callback : Bool) (now : ℕ) (e : Failure)
        → let dm' = download_end dec callback name (some e) now dm in
          (status_of name dm' ≡ some error) × (dm'.completed ≡ dm.completed)
    unfolding download_end
    ended_badly callback now e =
        rw (h, download_end, status_of, put_self dec name _ dm.downloads) (refl, refl)

  abbrev new_info : K → ℕ → ℕ → ℕ → DownloadManager K → DownloadInfo K
  new_info name url path now dm = record {
    name = name;
    url = url;
    path = path;
    status = pending;
    progress = percent 0;
    bytes_total = pos 0;
    bytes_downloaded = 0;
    failure = none;
    started_at = now;
    completed_at = none;
    context = dm.next_context;
  }

  -- A start of the name is refused, a clear does nothing, and it can be cancelled.
  abbrev pub Busy : K → ℕ → DownloadManager K → Type 0
  Busy name path dm =
      ((url path' now : ℕ) → start_download dec name url path' now dm ≡ already_in_progress)
      × (clear_download dec name dm ≡ dm)
      × ((dm' : DownloadManager K) × (cancel_download name dm ≡ cancelling dm' path))

  -- It can no longer be cancelled, and a clear takes it from the table.
  abbrev pub Over : K → DownloadManager K → Type 0
  Over name dm =
      (cancel_download name dm ≡ not_in_progress)
      × (status_of name (clear_download dec name dm) ≡ none)

  busy :
      (name : K) (info : DownloadInfo K) (dm : DownloadManager K)
      → dm.downloads name ≡ some info
      → in_progress info.status ≡ true
      → Busy name info.path dm
  unfolding cancel_download
  busy name info dm h p = (
    λ url path now. start_refused name info dm h url path now p,
    clear_kept name info dm h p,
    (
      record dm { cancelled_contexts = info.context ∷ dm.cancelled_contexts },
      rw (h, cancel_download, p) refl,
    ),
  )

  over :
      (name : K) (info : DownloadInfo K) (dm : DownloadManager K)
      → dm.downloads name ≡ some info
      → in_progress info.status ≡ false
      → finished info.status ≡ true
      → Over name dm
  unfolding cancel_download clear_download
  over name info dm h p f = (
    rw (h, cancel_download, p) refl,
    rw (h, clear_download, f, status_of, delete_self dec name dm.downloads) refl,
  )

  start_free :
      (name : K) (url path now : ℕ) (dm : DownloadManager K)
      → ((info : DownloadInfo K)
          → get_download name dm ≡ some info
          → in_progress info.status ≡ false)
      → start_download dec name url path now dm ≡ started (begin_entry dec name url path now dm)
  unfolding start_download get_download
  start_free name url path now dm free = elim (Option-cases (dm.downloads name)) [
    | inl n ↦ rw (n, start_download) refl
    | inr (info, i) ↦ rw (i, start_download, free info i) refl
  ]

  not_busy :
      (name : K) (dm : DownloadManager K)
      → (status_of name dm ≡ none)
        ⊎ ((status_of name dm ≡ some complete) ⊎ (status_of name dm ≡ some error))
      → (info : DownloadInfo K) → get_download name dm ≡ some info
      → in_progress info.status ≡ false
  unfolding get_download in_progress
  not_busy name dm free info h =
      let is : status_of name dm ≡ some (info.status) = rw (status_of, h) refl in
      elim free [
        | inl n ↦ absurd (cc (n, is))
        | inr (inl c) ↦ let q : info.status ≡ complete = cc (c, is) in rw q refl
        | inr (inr e) ↦ let q : info.status ≡ error = cc (e, is) in rw q refl
      ]

  status_is :
      (name : K) (info : DownloadInfo K) (dm : DownloadManager K)
      → dm.downloads name ≡ some info
      → status_of name dm ≡ some (info.status)
  status_is name info dm h = rw (status_of, h) refl

  ended_over :
      (name : K) (err : Option Failure) (info : DownloadInfo K) (dm : DownloadManager K)
      → dm.downloads name ≡ some info
      → (callback : Bool) (now : ℕ) → Over name (download_end dec callback name err now dm)
  unfolding download_end in_progress finished
  ended_over name none info dm h callback now =
      over name (record info { status = complete; progress = percent 100; completed_at = some now })
        (download_end dec callback name none now dm)
        (rw (h, download_end)
          (put_self dec name
            (record info { status = complete; progress = percent 100; completed_at = some now })
            dm.downloads))
        refl refl
  ended_over name (some e) info dm h callback now =
      over name (record info { status = error; failure = some e; completed_at = some now })
        (download_end dec callback name (some e) now dm)
        (rw (h, download_end)
          (put_self dec name
            (record info { status = error; failure = some e; completed_at = some now })
            dm.downloads))
        refl refl

  -- A download of a name that is not in the table, or has completed or failed there, starts as
  -- pending and runs as downloading; from the start until the end of the transfer another start of
  -- the name is refused, a clear leaves the table as it is and a cancel is accepted; the end of the
  -- transfer sets complete or error and calls the callback for a success alone, after which a
  -- cancel is refused and a clear removes the entry.
  pub start_download-cycle :
      (name : K) (url path now : ℕ) (dm : DownloadManager K)
      → (status_of name dm ≡ none)
        ⊎ ((status_of name dm ≡ some complete) ⊎ (status_of name dm ≡ some error))
      → (dm1 : DownloadManager K) × (dm2 : DownloadManager K) × (start_download dec name url path
            now dm
          ≡ started dm1)
        × (status_of name dm1 ≡ some pending)
        × Busy name path dm1
        × (download_begin dec name dm1 ≡ some dm2)
        × (status_of name dm2 ≡ some downloading)
        × Busy name path dm2
        × ((callback : Bool) (later : ℕ)
            → let dm3 = download_end dec callback name none later dm2 in
              (status_of name dm3 ≡ some complete)
              × (dm3.completed ≡ (if callback then name ∷ dm.completed else dm.completed))
              × Over name dm3)
        × ((callback : Bool) (later : ℕ) (e : Failure)
            → let dm3 = download_end dec callback name (some e) later dm2 in
              (status_of name dm3 ≡ some error) × (dm3.completed ≡ dm.completed) × Over name dm3)
  unfolding begin_entry in_progress finished
  start_download-cycle name url path now dm free =
      let dm1 = begin_entry dec name url path now dm in
      let info1 = new_info name url path now dm in
      let here1 : dm1.downloads name ≡ some info1 = put_self dec name info1 dm.downloads in
      let info2 : DownloadInfo K = record info1 { status = downloading } in
      let dm2 : DownloadManager K = record dm1 { downloads = put dec name info2 dm1.downloads } in
      let here2 : dm2.downloads name ≡ some info2 = put_self dec name info2 dm1.downloads in
      (
        dm1,
        dm2,
        start_free name url path now dm (not_busy name dm free),
        status_is name info1 dm1 here1,
        busy name info1 dm1 here1 refl,
        began name info1 dm1 here1,
        status_is name info2 dm2 here2,
        busy name info2 dm2 here2 refl,
        λ callback later.
            let (done, told) = ended_well name info2 dm2 here2 callback later in
            (done, told, ended_over name none info2 dm2 here2 callback later),
        λ callback later e.
            let (done, told) = ended_badly name info2 dm2 here2 callback later e in
            (done, told, ended_over name (some e) info2 dm2 here2 callback later),
      )

  cancelled_pending :
      (name : K) (url path now : ℕ) (dm : DownloadManager K)
      → let dm1 = begin_entry dec name url path now dm in
        cancel_download name dm1
        ≡ cancelling
            (record dm1 { cancelled_contexts = dm.next_context ∷ dm1.cancelled_contexts })
            path
  unfolding cancel_download begin_entry in_progress
  cancelled_pending name url path now dm =
      rw (cancel_download, put_self dec name _ dm.downloads) refl

  -- A download of a name that is not in progress, started and cancelled before its goroutine begins
  -- leaves the goroutine without an entry in the table, where it panics.
  pub cancelled_before_begin :
      (name : K) (url path now : ℕ) (dm : DownloadManager K)
      → ((info : DownloadInfo K)
          → get_download name dm ≡ some info
          → in_progress info.status ≡ false)
      → (dm1 : DownloadManager K) × (dm2 : DownloadManager K) × (start_download dec name url path
            now dm
          ≡ started dm1)
        × (cancel_download name dm1 ≡ cancelling dm2 path)
        × (download_begin dec name (cancel_untrack dec name dm2) ≡ none)
  unfolding cancel_untrack download_begin
  cancelled_before_begin name url path now dm free =
      let dm1 = begin_entry dec name url path now dm in
      let dm2 = record dm1 { cancelled_contexts = dm.next_context ∷ dm1.cancelled_contexts } in
      (
        dm1,
        dm2,
        start_free name url path now dm free,
        cancelled_pending name url path now dm,
        rw (download_begin, delete_self dec name dm1.downloads) refl,
      )

  module _ (name j : K) (dm dm' : DownloadManager K) (ne : j ≢ name) where
    start_other :
        (url path now : ℕ)
        → start_download dec name url path now dm ≡ started dm'
        → dm'.downloads j ≡ dm.downloads j
    unfolding start_download begin_entry put
    start_other url path now e = ground (arith, e, ne)

    clear_other : clear_download dec name dm ≡ dm' → dm'.downloads j ≡ dm.downloads j
    unfolding clear_download delete
    clear_other e = ground (arith, e, ne)

    cancel_other :
        (path : ℕ)
        → cancel_download name dm ≡ cancelling dm' path
        → dm'.downloads j ≡ dm.downloads j
    unfolding cancel_download
    cancel_other path e = ground (arith, e, ne)

    untrack_other : cancel_untrack dec name dm ≡ dm' → dm'.downloads j ≡ dm.downloads j
    unfolding cancel_untrack delete
    untrack_other e = ground (arith, e, ne)

    begin_other : download_begin dec name dm ≡ some dm' → dm'.downloads j ≡ dm.downloads j
    unfolding download_begin put
    begin_other e = ground (arith, e, ne)

    end_other :
        (callback : Bool) (err : Option Failure) (now : ℕ)
        → download_end dec callback name err now dm ≡ dm'
        → dm'.downloads j ≡ dm.downloads j
    unfolding download_end put
    end_other callback none now e = ground (arith, e, ne)
    end_other callback (some err) now e = ground (arith, e, ne)

  -- No operation on one name changes the download of another name.
  pub other-kept :
      (name j : K) (url path now : ℕ) (callback : Bool) (err : Option Failure)
      (dm dm' : DownloadManager K)
      → j ≢ name
      → (start_download dec name url path now dm ≡ started dm')
        ⊎ (clear_download dec name dm ≡ dm')
        ⊎ (cancel_download name dm ≡ cancelling dm' path)
        ⊎ (cancel_untrack dec name dm ≡ dm')
        ⊎ (download_begin dec name dm ≡ some dm')
        ⊎ (download_end dec callback name err now dm ≡ dm')
      → get_download j dm' ≡ get_download j dm
  unfolding get_download
  other-kept name j url path now callback err dm dm' ne e = elim e [
    | inl a ↦ start_other name j dm dm' ne url path now a
    | inr (inl a) ↦ clear_other name j dm dm' ne a
    | inr (inr (inl a)) ↦ cancel_other name j dm dm' ne path a
    | inr (inr (inr (inl a))) ↦ untrack_other name j dm dm' ne a
    | inr (inr (inr (inr (inl a)))) ↦ begin_other name j dm dm' ne a
    | inr (inr (inr (inr (inr a)))) ↦ end_other name j dm dm' ne callback err now a
  ]

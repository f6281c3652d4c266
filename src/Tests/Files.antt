-- ===== src/Tests/Files.antt =====
-- Concrete runs of the downloads, the cleaner and the file toucher.
use rampardos.Prelude.{
  inl, arith, ℕ, ◌==◌, if◌then◌else◌, ◌≡◌, ◌⊎◌, ◌↔◌, refl, Bool, true, false, some, none, List, [],
  ◌∷◌, length, ℕ_discrete, arith, pos,
}
use rampardos.Download.{
  DownloadStatus, pending, downloading, complete, error, DownloadInfo, Failure, empty_data,
  retries_exhausted, started, already_in_progress, cancelling, DownloadManager, percent,
  get_download, start_download, clear_download, cancel_download, cancel_untrack, download_begin,
  download_end, new_download_manager,
}
use rampardos.Download.Transfer.{
  Read, more, eof, read_error, Response, Attempt, Outcome, success, failure, running, initial,
  download_loop, download_with_progress,
}
use rampardos.Download.Sound.{AllSound, download-file}
use rampardos.Download.Retries.{download_loop-Unanswered, download_loop-Rejected}
use rampardos.Download.Table.{status_of, start_download-cycle, Busy, Over, cancelled_before_begin}
use rampardos.Cleaner.{
  FileInfo, Entry, CacheCleaner, run_once, selected, schedule_drop_all, new_cache_cleaner,
  is_drop_pending,
}
use rampardos.Cleaner.Rounds.{run_once-removes, selected-Stale, Stale}
use rampardos.Toucher as Toucher
use rampardos.Toucher.Batches.{run_once-all}

-- A file of three bytes: the first connection breaks after two, the second one sends the rest.
abbrev broken : Read
broken = record {
  cancelled_before = false;
  bytes = 1 ∷ 2 ∷ [];
  short_write = none;
  after = read_error;
}

abbrev rest : Read
rest = record { cancelled_before = false; bytes = 3 ∷ []; short_write = none; after = eof }

abbrev answered : ℕ → List Read → Attempt
answered status body = record {
  cancelled_waiting = false;
  request_made = true;
  response = some (record {
    status = status;
    content_length = pos 3;
    content_range = none;
    opens = true;
    body = body;
  });
}

abbrev attempts : List Attempt
attempts = answered 200 (broken ∷ []) ∷ answered 206 (rest ∷ []) ∷ []

attempts-AllSound : AllSound (1 ∷ 2 ∷ 3 ∷ []) attempts (initial (some (9 ∷ [])))
unfolding AllSound download_with_progress download_loop rampardos.Download.Transfer.attempt
    rampardos.Download.Transfer.receive rampardos.Download.Transfer.copy_body
    rampardos.Download.Transfer.store rampardos.Download.Transfer.record_total
    rampardos.Download.Transfer.reopen rampardos.Download.Transfer.conclude
attempts-AllSound = (
  (
    record {
      ok = λ _. (3 ∷ [], refl, λ e. absurd (cc));
      partial = λ e. absurd (omega (arith, e));
      no_range = λ e. absurd (omega (arith, e));
    },
    refl,
  ),
  (
    (
      record {
        ok = λ e. absurd (omega (arith, e));
        partial = λ _. ([], refl, λ _. refl);
        no_range = λ e. absurd (omega (arith, e));
      },
      refl,
    ),
    tt,
  ),
)

download-file_example :
    (download_with_progress true true (some (9 ∷ [])) attempts).1.file ≡ some (1 ∷ 2 ∷ 3 ∷ [])
unfolding download_with_progress download_loop rampardos.Download.Transfer.attempt
    rampardos.Download.Transfer.receive rampardos.Download.Transfer.copy_body
    rampardos.Download.Transfer.store rampardos.Download.Transfer.record_total
    rampardos.Download.Transfer.reopen rampardos.Download.Transfer.conclude
download-file_example =
    download-file (1 ∷ 2 ∷ 3 ∷ []) (some (9 ∷ [])) attempts attempts-AllSound refl

abbrev unanswered : Attempt
unanswered = record { cancelled_waiting = false; request_made = true; response = none }

download_loop-Unanswered_example :
    (download_loop (unanswered ∷ unanswered ∷ []) (record (initial none) { retries = 29 })).0
    ≡ failure retries_exhausted
download_loop-Unanswered_example =
    download_loop-Unanswered (unanswered ∷ unanswered ∷ []) (record (initial none) { retries = 29 })
      ((refl, refl, refl), ((refl, refl, refl), tt))

download_loop-Rejected_example :
    let r = download_loop (answered 404 [] ∷ answered 500 [] ∷ []) (initial none) in
    (r.0 ≡ running) × (r.1.retries ≡ 0) × (length r.1.requests ≡ 2)
download_loop-Rejected_example =
    download_loop-Rejected (answered 404 [] ∷ answered 500 [] ∷ []) (initial none)
      ((refl, refl, (_, refl, refl, refl)), ((refl, refl, (_, refl, refl, refl)), tt)) refl

abbrev info : DownloadInfo ℕ
info = record {
  name = 1;
  url = 5;
  path = 6;
  status = pending;
  progress = percent 0;
  bytes_total = pos 0;
  bytes_downloaded = 0;
  failure = none;
  started_at = 0;
  completed_at = none;
  context = 0;
}

abbrev table : DownloadManager ℕ
table = record {
  downloads = λ j. if j == 1 then some info else none;
  cancelled_contexts = [];
  next_context = 1;
  completed = [];
}

start_download-cycle_example :
    (dm1 : DownloadManager ℕ) × (dm2 : DownloadManager ℕ) × (start_download ℕ_discrete 2 5 6 7 table
      ≡ started dm1)
    × (status_of ℕ_discrete 2 dm1 ≡ some pending)
    × Busy ℕ_discrete 2 6 dm1
    × (download_begin ℕ_discrete 2 dm1 ≡ some dm2)
    × (status_of ℕ_discrete 2 dm2 ≡ some downloading)
    × Busy ℕ_discrete 2 6 dm2
    × ((callback : Bool) (later : ℕ)
        → let dm3 = download_end ℕ_discrete callback 2 none later dm2 in
          (status_of ℕ_discrete 2 dm3 ≡ some complete)
          × (dm3.completed ≡ (if callback then 2 ∷ table.completed else table.completed))
          × Over ℕ_discrete 2 dm3)
    × ((callback : Bool) (later : ℕ) (e : Failure)
        → let dm3 = download_end ℕ_discrete callback 2 (some e) later dm2 in
          (status_of ℕ_discrete 2 dm3 ≡ some error)
          × (dm3.completed ≡ table.completed)
          × Over ℕ_discrete 2 dm3)
start_download-cycle_example = start_download-cycle ℕ_discrete 2 5 6 7 table (inl refl)

cancelled_before_begin_example :
    (dm1 : DownloadManager ℕ) × (dm2 : DownloadManager ℕ) × (start_download ℕ_discrete 2 5 6 7 table
      ≡ started dm1)
    × (cancel_download 2 dm1 ≡ cancelling dm2 6)
    × (download_begin ℕ_discrete 2 (cancel_untrack ℕ_discrete 2 dm2) ≡ none)
unfolding get_download
cancelled_before_begin_example =
    cancelled_before_begin ℕ_discrete 2 5 6 7 table (λ i h. absurd (cc))

abbrev cleaner : CacheCleaner
cleaner = record {
  max_age_minutes = 60;
  clear_delay_seconds = 30;
  drop_after_minutes = 0;
  drop_all = false;
  looping = true;
}

abbrev old : Entry ℕ
old = record {
  name = 1;
  is_dir = false;
  info = some (record { mod_time = 600000000000; creation_time = 0; size = 5 });
}

abbrev fresh : Entry ℕ
fresh = record {
  name = 2;
  is_dir = false;
  info = some (record { mod_time = 5400000000000; creation_time = 0; size = 5 });
}

abbrev folder : Entry ℕ
folder = record { name = 3; is_dir = true; info = none }

run_once-removes_example :
    let r = run_once (λ n. n == 1) 6000000000000 true (some (old ∷ fresh ∷ folder ∷ [])) cleaner in
    (r.tried ≡ 1 ∷ [])
    × (r.removed ≡ 1 ∷ [])
    × (r.queue_size ≡ some 1)
    × (is_drop_pending r.cleaner ≡ true)
unfolding selected rampardos.Cleaner.should_remove
run_once-removes_example =
    run_once-removes (λ n. n == 1) 6000000000000 true (old ∷ fresh ∷ folder ∷ []) cleaner

selected-Stale_example : (selected cleaner 6000000000000 old ≡ true) ↔ (
    (false ≡ false)
    × ((is_drop_pending cleaner ≡ true)
        ⊎ Stale cleaner 6000000000000
            (record { mod_time = 600000000000; creation_time = 0; size = 5 })))
selected-Stale_example =
    selected-Stale cleaner 6000000000000 old
      (record { mod_time = 600000000000; creation_time = 0; size = 5 }) (omega arith) (omega arith)
      refl

run_once-all_example : Toucher.run_once (λ n. n == 2) (1 ∷ 2 ∷ 3 ∷ []) ≡ ([], (1 ∷ 2 ∷ 3 ∷ [], 1))
run_once-all_example = run_once-all (λ n. n == 2) (1 ∷ 2 ∷ 3 ∷ [])

-- ===== src/Download.antt =====
-- rampardos/internal/services/download_manager.go: the table of downloads. Each function below is
-- what the code does while it holds the lock, or from one lock to the next. The pointer to an entry
-- does not outlive the lock, so an entry is a value. Times are numbers, a context is the number of
-- the call of `StartDownload` that made it, and Download.Transfer has the transfer itself.
use rampardos.Prelude.{
  ℕ, suc, if◌then◌else◌, Bool, true, false, Option, some, none, List, [], ◌∷◌, put, delete, ℤ, pos,
}
pub mod Transfer
pub mod Resume
pub mod Retries
pub mod Rounds
pub mod Sound
pub mod Table
pub mod Whole

pub data DownloadStatus : Type 0 where
  pending downloading complete error : DownloadStatus

-- The percentage, as the fraction that the code computes in floating point.
pub data Progress : Type 0 where
  percent : ℕ → Progress
  ratio : ℕ → ℤ → Progress

pub data Failure : Type 0 where
  cancelled invalid_url no_directory bad_request no_file empty_data retries_exhausted : Failure

pub record DownloadInfo (K : Type 0) : Type 0 where
  pub name : K
  pub url : ℕ
  pub path : ℕ
  pub status : DownloadStatus
  pub progress : Progress
  pub bytes_total : ℤ
  pub bytes_downloaded : ℕ
  pub failure : Option Failure
  pub started_at : ℕ
  pub completed_at : Option ℕ
  pub context : ℕ

pub data StartResult (S : Type 0) : Type 0 where
  started : S → StartResult S
  already_in_progress : StartResult S

pub data CancelResult (S : Type 0) : Type 0 where
  -- The state after the context was cancelled, and the path of the partial file.
  cancelling : S → ℕ → CancelResult S
  not_found not_in_progress : CancelResult S

unfoldable pub in_progress : DownloadStatus → Bool
in_progress pending = true
in_progress downloading = true
in_progress complete = false
in_progress error = false

unfoldable pub finished : DownloadStatus → Bool
finished pending = false
finished downloading = false
finished complete = true
finished error = true

pub record DownloadManager (K : Type 0) : Type 0 where
  pub downloads : K → Option (DownloadInfo K)
  pub cancelled_contexts : List ℕ
  pub next_context : ℕ
  -- The calls of `onComplete`, last first.
  pub completed : List K

module _ {K : Type 0} where
  unfoldable pub get_download : K → DownloadManager K → Option (DownloadInfo K)
  get_download name dm = dm.downloads name

  -- The copies of all entries, by name.
  unfoldable pub get_all_downloads : DownloadManager K → K → Option (DownloadInfo K)
  get_all_downloads dm = dm.downloads

  -- `CancelDownload` up to the removal of the file, and its second locked part.
  unfoldable pub cancel_download : K → DownloadManager K → CancelResult (DownloadManager K)
  unfolding in_progress
  cancel_download name dm = elim (dm.downloads name) [
    | none ↦ not_found
    | some info ↦
        if in_progress info.status
        then cancelling (record dm { cancelled_contexts = info.context ∷ dm.cancelled_contexts })
            info.path
        else not_in_progress
  ]

module _ {K : Type 0} (dec : Discrete K) where
  unfoldable pub new_download_manager : DownloadManager K
  new_download_manager = record {
    downloads = λ _. none;
    cancelled_contexts = [];
    next_context = 0;
    completed = [];
  }

  pub begin_entry : K → ℕ → ℕ → ℕ → DownloadManager K → DownloadManager K
  begin_entry name url path now dm = record dm {
    downloads =
        put dec name
          (record {
            name = name;
            url = url;
            path = path;
            status = pending;
            progress = percent 0;
            bytes_total = pos 0;
            bytes_downloaded = 0;
            failure = none;
            started_at = now;
            completed_at = none;
            context = dm.next_context;
          })
          dm.downloads;
    next_context = suc dm.next_context;
  }

  -- `StartDownload`; the goroutine that it starts begins with `download_begin`.
  unfoldable pub start_download :
      K → ℕ → ℕ → ℕ → DownloadManager K → StartResult (DownloadManager K)
  unfolding in_progress begin_entry
  start_download name url path now dm = elim (dm.downloads name) [
    | none ↦ started (begin_entry name url path now dm)
    | some info ↦
        if in_progress info.status
        then already_in_progress
        else started (begin_entry name url path now dm)
  ]

  unfoldable pub clear_download : K → DownloadManager K → DownloadManager K
  unfolding finished
  clear_download name dm = elim (dm.downloads name) [
    | none ↦ dm
    | some info ↦
        if finished info.status then record dm { downloads = delete dec name dm.downloads } else dm
  ]

  unfoldable pub cancel_untrack : K → DownloadManager K → DownloadManager K
  cancel_untrack name dm = record dm { downloads = delete dec name dm.downloads }

  -- `download` up to the transfer; `none` is the panic on a missing entry.
  unfoldable pub download_begin : K → DownloadManager K → Option (DownloadManager K)
  download_begin name dm = elim (dm.downloads name) [
    | none ↦ none
    | some info ↦
        some (record dm {
          downloads = put dec name (record info { status = downloading }) dm.downloads;
        })
  ]

  -- `download` after the transfer. `callback` is whether there is an `onComplete`.
  unfoldable pub download_end :
      Bool → K → Option Failure → ℕ → DownloadManager K → DownloadManager K
  download_end callback name none now dm = elim (dm.downloads name) [
    | none ↦ dm
    | some info ↦ record dm {
      downloads =
          put dec name
            (record info { status = complete; progress = percent 100; completed_at = some now })
            dm.downloads;
      completed = if callback then name ∷ dm.completed else dm.completed;
    }
  ]
  download_end callback name (some err) now dm = elim (dm.downloads name) [
    | none ↦ dm
    | some info ↦ record dm {
      downloads =
          put dec name (record info { status = error; failure = some err; completed_at = some now })
            dm.downloads;
    }
  ]

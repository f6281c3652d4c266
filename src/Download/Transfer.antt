-- ===== src/Download/Transfer.antt =====
-- rampardos/internal/services/download_manager.go: `downloadWithProgress`, for what the network and
-- the disk do in each round of its loop. A byte is a number.
use rampardos.Prelude.{
  ℕ, suc, ◌+◌, ◌==◌, ltb, if◌then◌else◌, Bool, false, not, ◌&&◌, ◌||◌, Option, some, none, List, [],
  ◌∷◌, ◌++◌, length, take, ℤ, pos, negsuc, not_positive,
}
use rampardos.Download.{
  Failure, cancelled, no_file, empty_data, retries_exhausted, bad_request, invalid_url,
  no_directory, ratio, percent, Progress,
}

-- `maxRetries`
abbrev pub max_retries : ℕ
max_retries = 30

-- What `resp.Body.Read` and `file.Write` do in one round of the copy loop, and whether the context
-- was cancelled before it.
pub data Next : Type 0 where
  more eof read_error : Next

pub record Read : Type 0 where
  pub cancelled_before : Bool
  pub bytes : List ℕ
  -- How many of the bytes are written before an error, if there is one.
  pub short_write : Option ℕ
  pub after : Next

pub record Response : Type 0 where
  pub status : ℕ
  pub content_length : ℤ
  -- The total of `Content-Range`, when the header is there and is read.
  pub content_range : Option ℤ
  pub opens : Bool
  pub body : List Read

pub record Attempt : Type 0 where
  -- Whether the context was cancelled in the wait before a retry.
  pub cancelled_waiting : Bool
  -- `http.NewRequestWithContext`
  pub request_made : Bool
  -- `client.Do`
  pub response : Option Response

pub data CopyResult : Type 0 where
  copied copy_cancelled write_failed read_failed stalled : CopyResult

pub data Outcome : Type 0 where
  success : Outcome
  failure : Failure → Outcome
  -- The loop goes on, and there is no further attempt yet.
  running : Outcome

pub record Transfer : Type 0 where
  -- The file at `toPath`.
  pub file : Option (List ℕ)
  pub total_size : ℤ
  pub written : ℕ
  pub retries : ℕ
  -- The fields that `downloadWithProgress` sets in the entry of the table.
  pub bytes_total : ℤ
  pub bytes_downloaded : ℕ
  pub progress : Progress
  -- The offsets of the requests sent, last first; 0 has no `Range`.
  pub requests : List ℕ

-- What a write leaves in the file.
abbrev pub written_to : List ℕ → Option (List ℕ) → Option (List ℕ)
written_to bytes none = none
written_to bytes (some content) = some (content ++ bytes)

-- `os.Stat` finds a file that is not empty.
abbrev pub has_content : Option (List ℕ) → Bool
has_content none = false
has_content (some content) = ltb 0 (length content)

-- A round that reads bytes and writes them; the progress is recorded in the entry of the table.
unfoldable pub store : List ℕ → Transfer → Transfer
store bytes t =
    let written = t.written + length bytes in
    if length bytes == 0 then t else record t {
      file = written_to bytes t.file;
      written = written;
      bytes_downloaded = written;
      progress = if not_positive t.total_size then t.progress else ratio written t.total_size;
    }

-- What follows the write in a round: the next round, or the end of the body.
abbrev pub read_on : Next → Transfer → CopyResult × Transfer → CopyResult × Transfer
read_on more t rest = rest
read_on eof t rest = (copied, t)
read_on read_error t rest = (read_failed, t)

-- The copy loop; `stalled` when the body has no further round.
unfoldable pub copy_body : List Read → Transfer → CopyResult × Transfer
copy_body [] t = (stalled, t)
copy_body (r ∷ reads) t =
    let t' = store r.bytes t in
    let rest = read_on r.after t' (copy_body reads t') in
    if r.cancelled_before then (copy_cancelled, t) else elim (r.short_write) [
      | none ↦ rest
      | some n ↦
          if length r.bytes == 0
          then rest
          else (write_failed, record t { file = written_to (take n r.bytes) t.file })
    ]

-- The total is read from the first response, and again while it is 0.
unfoldable pub record_total : Response → Transfer → Transfer
record_total r t =
    let total : ℤ =
      if r.status == 200
      then r.content_length
      else elim (r.content_range) [ none ↦ t.total_size | some n ↦ n ] in
    let unread : Bool = elim (t.total_size) [ pos n ↦ n == 0 | negsuc _ ↦ false ] in
    if (t.retries == 0) || unread then record t { total_size = total; bytes_total = total } else t

-- The file is appended to where the download goes on, and made anew otherwise.
unfoldable pub reopen : Response → Transfer → Transfer
reopen r t =
    if ltb 0 t.written && (r.status == 206) then t else record t { file = some []; written = 0 }

pub data Step : Type 0 where
  return_with : Outcome → Step
  go_on : Step

abbrev retry : Transfer → Transfer
retry t = record t { retries = suc t.retries }

-- The end of a round, for the result of the copy and the bytes written before it.
unfoldable pub conclude : ℕ → CopyResult × Transfer → Step × Transfer
conclude before (copied, t) =
    if t.written == 0
    then (return_with (failure empty_data), record t { file = none })
    else (return_with success, t)
conclude before (copy_cancelled, t) = (return_with (failure cancelled), record t { file = none })
conclude before (stalled, t) = (return_with running, t)
conclude before (write_failed, t) =
    (go_on, if ltb before t.written then record t { retries = 0 } else retry t)
conclude before (read_failed, t) =
    (go_on, if ltb before t.written then record t { retries = 0 } else retry t)

-- The rest of a round, once there is a response.
unfoldable pub receive : Response → Transfer → Step × Transfer
unfolding record_total reopen conclude
receive r t =
    let ready = record_total r t in
    let opened = reopen r ready in
    if r.status == 416
    then if has_content t.file then (return_with success, t) else (go_on, record t { written = 0 })
    else if not ((r.status == 200) || (r.status == 206))
    then (go_on, t)
    else if r.opens
    then conclude opened.written (copy_body r.body opened)
    else (
      return_with (failure no_file),
      if ltb 0 t.written && (r.status == 206) then ready else record ready { written = 0 },
    )

-- One round of the loop of `downloadWithProgress`.
unfoldable pub attempt : Attempt → Transfer → Step × Transfer
unfolding receive
attempt a t =
    let sent = record t { requests = t.written ∷ t.requests } in
    if ltb 0 t.retries && a.cancelled_waiting
    then (return_with (failure cancelled), t)
    else if a.request_made
    then elim (a.response) [ none ↦ (go_on, retry sent) | some r ↦ receive r sent ]
    else (return_with (failure bad_request), t)

abbrev pub give_up : Transfer → Transfer
give_up t = if ltb 0 t.written then record t { file = none } else t

-- The loop of `downloadWithProgress`.
unfoldable pub download_loop : List Attempt → Transfer → Outcome × Transfer
download_loop [] t =
    if ltb max_retries t.retries then (failure retries_exhausted, give_up t) else (running, t)
download_loop (a ∷ attempts) t =
    let (s, t') = attempt a t in
    let rest = download_loop attempts t' in
    if ltb max_retries t.retries
    then (failure retries_exhausted, give_up t)
    else elim s [ return_with o ↦ (o, t') | go_on ↦ rest ]

abbrev pub initial : Option (List ℕ) → Transfer
initial file = record {
  file = file;
  total_size = pos 0;
  written = 0;
  retries = 0;
  bytes_total = pos 0;
  bytes_downloaded = 0;
  progress = percent 0;
  requests = [];
}

-- `downloadWithProgress`, for the results of `url.Parse` and `os.MkdirAll`, and the file that is
-- there before.
unfoldable pub download_with_progress :
    Bool → Bool → Option (List ℕ) → List Attempt → Outcome × Transfer
unfolding download_loop
download_with_progress url_parsed directory_made file attempts =
    if not url_parsed
    then (failure invalid_url, initial file)
    else if not directory_made
    then (failure no_directory, initial file)
    else download_loop attempts (initial file)

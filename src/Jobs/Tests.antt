-- ===== src/Jobs/Tests.antt =====
-- Runs of the job worker: an old job of low priority, a newer one of high priority, and a done one.
use sonotxt_rust.Base.{ℕ, ◌≡◌, refl, ◌⊎◌, true, String, none, some, List, [], ◌∷◌}
use sonotxt_rust.Base.Int.{pos}
use sonotxt_rust.Base.Errors.{ApiError, ok, err}
use sonotxt_rust.Base.Action.{quiet}
use sonotxt_rust.Jobs.{
  JobRow, Status, queued, completed, Queue, Storage, Synthesis, audio, next_job, process_next,
}
use sonotxt_rust.Jobs.Processed.{IsDone, IsInWork, Settled, process_next-Settled}

abbrev row : ℕ → Status → ℕ → JobRow
row id status priority = record {
  id = id;
  status = status;
  text_content = some "hello";
  voice = "ryan";
  storage_type = none;
  content_id = none;
  priority = pos priority;
  created_at = id;
  started_at = none;
  completed_at = none;
  audio_url = none;
  error_message = none;
}

abbrev rows : List JobRow
rows = row 1 queued 0 ∷ row 2 queued 50 ∷ row 3 completed 90 ∷ []

abbrev queue : Queue
queue = record { jobs = rows; content = []; now = 1000 }

abbrev say : String → String → Synthesis
say text voice = audio (1 ∷ 2 ∷ [])

abbrev store : Storage
store id bytes backend = some ("https://storage/2.wav", backend)

second_next : next_job rows ≡ some (row 2 queued 50)
unfolding next_job
second_next = refl

process_next-Settled_example :
    (q' : Queue) × ((((row 2 queued 50).content_id ≡ none)
        × (process_next "minio" (some say) store quiet queue ≡ (ok true, q'))
        × Settled IsDone 2 rows q'.jobs)
      ⊎ ((uuid : ℕ) × ((row 2 queued 50).content_id ≡ some uuid)
          × (process_next "minio" (some say) store quiet queue ≡ (err ApiError.internal_error, q'))
          × Settled IsInWork 2 rows q'.jobs))
process_next-Settled_example =
    process_next-Settled "minio" say store queue (row 2 queued 50) second_next

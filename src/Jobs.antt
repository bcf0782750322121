-- ===== src/Jobs.antt =====
-- sonotxt-api/src/job_worker.rs: the queue of jobs in the database and the worker that empties it.
-- The text of a job comes from its row or from the table content. The synthesis, which is `tts` of
-- the worker pool, and the upload to storage are parameters, each with what it answers. Ids and
-- times in seconds are numbers; costs and durations in floating point are left out.
pub mod Claims
pub mod Processed
pub mod Stuck
mod Tests
use Prim.Native.String.{◌++◌}
use sonotxt_rust.Base.{
  ℕ, ◌+◌, Bool, true, false, ◌&&◌, String, Option, none, some, List, [], ◌∷◌, ltb, leb, ◌==◌,
  if◌then◌else◌,
}
use sonotxt_rust.Base.Int.{ℤ, ltb_ℤ, leb_ℤ}
use sonotxt_rust.Base.Assoc.{Assoc, lookup}
use sonotxt_rust.Base.Bytes.{Bytes}
use sonotxt_rust.Base.Errors.{ApiError, ok, err}
use sonotxt_rust.Base.Action.{Action, Schedule, statement, pure, raise, or_raise, ◌>>=◌, ◌>>◌}

pub data Status : Type 0 where
  queued processing completed failed : Status

-- The columns of jobs that the worker reads or writes.
pub record JobRow : Type 0 where
  pub id : ℕ
  pub status : Status
  pub text_content : Option String
  pub voice : String
  pub storage_type : Option String
  pub content_id : Option ℕ
  pub priority : ℤ
  pub created_at : ℕ
  pub started_at : Option ℕ
  pub completed_at : Option ℕ
  pub audio_url : Option String
  pub error_message : Option String

pub record Queue : Type 0 where
  pub jobs : List JobRow
  pub content : Assoc String
  pub now : ℕ

abbrev pub is_queued : JobRow → Bool
is_queued j = elim j.status [ queued ↦ true | _ ↦ false ]

abbrev pub is_processing : JobRow → Bool
is_processing j = elim j.status [ processing ↦ true | _ ↦ false ]

-- `ORDER BY priority DESC, created_at ASC`: whether `a` may come before `b`
abbrev pub comes_first : JobRow → JobRow → Bool
comes_first a b =
    if ltb_ℤ b.priority a.priority
    then true
    else if ltb_ℤ a.priority b.priority
    then false
    else leb a.created_at b.created_at

-- `SELECT id FROM jobs WHERE status = 'queued' ORDER BY .. LIMIT 1`
unfoldable pub next_job : List JobRow → Option JobRow
next_job [] = none
next_job (j ∷ js) =
    let rest = next_job js in
    if is_queued j
    then (elim rest [ none ↦ some j | some k ↦ if comes_first j k then some j else some k ])
    else rest

-- `UPDATE jobs SET .. WHERE p`
unfoldable pub update_where : (JobRow → Bool) → (JobRow → JobRow) → List JobRow → List JobRow
update_where p f [] = []
update_where p f (j ∷ js) = (if p j then f j else j) ∷ update_where p f js

abbrev pub has_id : ℕ → JobRow → Bool
has_id id j = j.id == id

abbrev pub start : ℕ → JobRow → JobRow
start now j = record j { status = processing; started_at = some now }

-- `UPDATE jobs SET status = 'processing' .. RETURNING ..`
unfoldable pub claim : Queue → Option JobRow × Queue
claim q = elim (next_job q.jobs) [
  | none ↦ (none, q)
  | some j ↦ (some j, record q { jobs = update_where (has_id j.id) (start q.now) q.jobs })
]

-- `recover_zombies`: what a restart finds in work for more than 5 minutes is queued again.
abbrev pub is_zombie : ℕ → JobRow → Bool
is_zombie now j = is_processing j && ltb (j.created_at + 300) now

unfoldable pub recover_zombies : Schedule Queue → Action Queue (Unit {0})
recover_zombies sched = statement sched 0 (λ q. (
  tt,
  record q { jobs = update_where (is_zombie q.now) (λ j. record j { status = queued }) q.jobs },
))

abbrev pub fail : ℕ → String → JobRow → JobRow
fail now reason j = record j {
  status = failed;
  error_message = some reason;
  completed_at = some now;
}

abbrev pub complete : ℕ → String → String → JobRow → JobRow
complete now url storage_type j = record j {
  status = completed;
  audio_url = some url;
  storage_type = some storage_type;
  completed_at = some now;
}

unfoldable pub set_row : ℕ → (ℕ → JobRow → JobRow) → Queue → Unit {0} × Queue
set_row id f q = (tt, record q { jobs = update_where (has_id id) (f q.now) q.jobs })

-- `let _ = sqlx..`: the error is dropped.
ignore : Action Queue (Unit {0}) → Action Queue (Unit {0})
ignore m q = (ok tt, (m q).1)

-- A finished synthesis: its audio, or the text of the error.
pub data Synthesis : Type 0 where
  audio : Bytes → Synthesis
  tts_failed : String → Synthesis

-- What storage makes of a file: nothing, or a URL and the storage it is in.
abbrev pub Storage : Type 0
Storage = (filename : ℕ) → Bytes → (backend : String) → Option (String × String)

module _ (default_storage : String) (workers : Option (String → String → Synthesis))
    (upload : Storage) (sched : Schedule Queue) where
  unfoldable pub mark_failed : ℕ → String → Action Queue (Unit {0})
  unfolding ignore
  mark_failed id reason = ignore (statement sched 3 (set_row id (λ now. fail now reason)))

  -- The result of the synthesis, stored and written to the row.
  unfoldable pub finish_job : JobRow → Synthesis → Action Queue Bool
  finish_job job (tts_failed e) = do mark_failed job.id ("TTS: " ++ e); pure true
  finish_job job (audio bytes) =
      elim (upload job.id bytes (elim job.storage_type [ none ↦ default_storage | some s ↦ s ])) [
        | none ↦ (do mark_failed job.id "Upload failed"; pure true)
        | some (url, storage_type) ↦ (do
          statement sched 2 (set_row job.id (λ now. complete now url storage_type))
          pure true)
      ]

  unfoldable pub process_text : JobRow → String → Action Queue Bool
  process_text job text = do
    pool ← or_raise workers (ApiError.internal "no workers")
    finish_job job (pool text job.voice)

  unfoldable pub process_job : JobRow → Action Queue Bool
  process_job job = elim job.text_content [
    | some text ↦ process_text job text
    | none ↦ elim job.content_id [
      | none ↦ (do mark_failed job.id "No content"; pure true)
      | some content_id ↦ (do
        row ← statement sched 1 (λ q. (lookup content_id q.content, q))
        text ← or_raise row ApiError.internal_error
        process_text job text)
    ]
  ]

  -- `process_next`: whether there was a job. The column content_id is a UUID, which sqlx does not
  -- decode as the `Option<i64>` of the struct `JobRow` unless it is NULL: the row is changed, and
  -- the round ends in an error.
  unfoldable pub process_next : Action Queue Bool
  process_next = do
    job ← statement sched 0 claim
    elim job [
      | none ↦ pure false
      | some j ↦ elim j.content_id [
        | some uuid ↦ raise ApiError.internal_error
        | none ↦ process_job j
      ]
    ]

-- ===== src/Jobs/Processed.antt =====
-- What a round of the job worker leaves of the job that it took.
use sonotxt_rust.Base.{
  ℕ, zero, suc, ◌≡◌, ◌≢◌, refl, ◌∙◌, inl, inr, ◌⊎◌, Bool, true, String, none, some, List, [], ◌∷◌,
  arith, ◌==◌, get_elem?, Bool-cases, Option-cases,
}
use sonotxt_rust.Base.Errors.{ApiError, Result, ok, err}
use sonotxt_rust.Base.Action.{quiet, ◌>>=◌}
use sonotxt_rust.Jobs.{
  JobRow, processing, completed, failed, Queue, Storage, Synthesis, audio, tts_failed, has_id,
  start, next_job, update_where, claim, set_row, mark_failed, finish_job, process_text, process_job,
  process_next, fail, complete,
}

abbrev pub IsDone : JobRow → Type 0
IsDone j = (j.status ≡ completed) ⊎ (j.status ≡ failed)

abbrev pub IsInWork : JobRow → Type 0
IsInWork j = j.status ≡ processing

-- The rows that a job's id names are as told, and all other rows are what they were.
abbrev pub Settled : (JobRow → Type 0) → ℕ → List JobRow → List JobRow → Type 0
Settled Told id before after =
    (n : ℕ) (r : JobRow)
    → get_elem? before n ≡ some r
    → (r' : JobRow) × (get_elem? after n ≡ some r')
      × (r'.id ≡ r.id)
      × (r.id ≡ id → Told r')
      × (r.id ≢ id → r' ≡ r)

-- A last write to a row.
pub record Finishes (g : JobRow → JobRow) : Type 0 where
  pub done : (r : JobRow) → IsDone (g r)
  pub same_id : (r : JobRow) → (g r).id ≡ r.id

Settled-update :
    (id now : ℕ) (g : JobRow → JobRow) (js : List JobRow)
    → Finishes g
    → Settled IsDone id js (update_where (has_id id) g (update_where (has_id id) (start now) js))
unfolding update_where
Settled-update id now g [] h n r found = absurd (ground arith)
Settled-update id now g (j ∷ js) h (suc n) r found = Settled-update id now g js h n r found
Settled-update id now g (j ∷ js) h zero r found =
    let same : j ≡ r = ground arith in
    elim (Bool-cases (j.id == id)) [
      | inl t ↦ (
        g (start now j),
        ground arith,
        rw (← same) (h.same_id (start now j)),
        (λ e. h.done (start now j)),
        (λ ne. absurd (ne (ground arith))),
      )
      | inr f ↦ (j, ground arith, ground arith, (λ e. absurd (ground arith)), (λ ne. same))
    ]

Settled-start :
    (id now : ℕ) (js : List JobRow)
    → Settled IsInWork id js (update_where (has_id id) (start now) js)
unfolding update_where
Settled-start id now [] n r found = absurd (ground arith)
Settled-start id now (j ∷ js) (suc n) r found = Settled-start id now js n r found
Settled-start id now (j ∷ js) zero r found =
    let same : j ≡ r = ground arith in
    elim (Bool-cases (j.id == id)) [
      | inl t ↦ (
        start now j,
        ground arith,
        rw (← same) refl,
        (λ e. refl),
        (λ ne. absurd (ne (ground arith))),
      )
      | inr f ↦ (j, ground arith, ground arith, (λ e. absurd (ground arith)), (λ ne. same))
    ]

module _ (default_storage : String) (pool : String → String → Synthesis) (upload : Storage) where
  -- A step that ends with a last write to the rows of a job.
  abbrev Ends : JobRow → Queue → Result ApiError Bool × Queue → Type 0
  Ends job q out =
      (g : JobRow → JobRow) × Finishes g
      × (out ≡ (ok true, record q { jobs = update_where (has_id job.id) g q.jobs }))

  fail-Finishes : (now : ℕ) (reason : String) → Finishes (fail now reason)
  fail-Finishes now reason = record { done = λ r. inr refl; same_id = λ r. refl }

  complete-Finishes : (now : ℕ) (url storage : String) → Finishes (complete now url storage)
  complete-Finishes now url storage = record { done = λ r. inl refl; same_id = λ r. refl }

  module _ (job : JobRow) (q : Queue) where
    finish_job-Ends :
        (s : Synthesis) → Ends job q (finish_job default_storage (some pool) upload quiet job s q)
    unfolding finish_job mark_failed set_row ◌>>=◌
    finish_job-Ends (tts_failed e) = (_, fail-Finishes q.now _, refl)
    finish_job-Ends (audio bytes) =
        elim (Option-cases
          (upload job.id bytes (elim job.storage_type [ none ↦ default_storage | some s ↦ s ]))) [
            | inl e ↦
                (fail q.now "Upload failed", fail-Finishes q.now "Upload failed", ground arith)
            | inr ((url, storage), e) ↦
                (complete q.now url storage, complete-Finishes q.now url storage, ground arith)
          ]

    process_text-Ends :
        (text : String)
        → Ends job q (process_text default_storage (some pool) upload quiet job text q)
    unfolding process_text ◌>>=◌
    process_text-Ends text = finish_job-Ends (pool text job.voice)

    abbrev processed : Result ApiError Bool × Queue
    processed = process_job default_storage (some pool) upload quiet job q

    with_text :
        (text : String)
        → job.text_content ≡ some text
        → processed ≡ process_text default_storage (some pool) upload quiet job text q
    unfolding process_job
    with_text text e = ground arith

    process_job-Ends : job.content_id ≡ none → Ends job q processed
    unfolding process_job mark_failed set_row ◌>>=◌
    process_job-Ends f = elim (Option-cases job.text_content) [
      | inr (text, e) ↦ rw (with_text text e) (process_text-Ends text)
      | inl e ↦ (fail q.now "No content", fail-Finishes q.now "No content", ground arith)
    ]

  -- The queue after a claim.
  abbrev pub claimed : JobRow → Queue → Queue
  claimed j q = record q { jobs = update_where (has_id j.id) (start q.now) q.jobs }

  module _ (q : Queue) (j : JobRow) (next : next_job q.jobs ≡ some j) where
    claim_next :
        j.content_id ≡ none
        → process_next default_storage (some pool) upload quiet q
          ≡ process_job default_storage (some pool) upload quiet j (claimed j q)
    unfolding process_next claim ◌>>=◌
    claim_next f = ground arith

    claim_undecoded :
        (uuid : ℕ)
        → j.content_id ≡ some uuid
        → process_next default_storage (some pool) upload quiet q
          ≡ (err ApiError.internal_error, claimed j q)
    unfolding process_next claim ◌>>=◌
    claim_undecoded uuid f = ground arith

    -- With nobody interfering, the database answering and a worker pool, a round that takes a job
    -- that names no content ends well: the rows of that job are completed or failed, and all
    -- others are what they were. One that takes a job that names a content ends in an error, and
    -- leaves the rows of that job in work and all others what they were.
    pub process_next-Settled :
        (q' : Queue) × (((j.content_id ≡ none)
            × (process_next default_storage (some pool) upload quiet q ≡ (ok true, q'))
            × Settled IsDone j.id q.jobs q'.jobs)
          ⊎ ((uuid : ℕ) × (j.content_id ≡ some uuid)
              × (process_next default_storage (some pool) upload quiet q
                  ≡ (err ApiError.internal_error, q'))
              × Settled IsInWork j.id q.jobs q'.jobs))
    process_next-Settled = elim (Option-cases j.content_id) [
      | inl f ↦
          let (g, h, r) = process_job-Ends j (claimed j q) f in
          (_, inl (f, claim_next f ∙ r, Settled-update j.id q.now g q.jobs h))
      | inr (uuid, f) ↦
          (claimed j q, inr (uuid, f, claim_undecoded uuid f, Settled-start j.id q.now q.jobs))
    ]

-- ===== src/Jobs/Stuck.antt =====
-- How the job worker leaves a job in work for good.
use sonotxt_rust.Base.{
  ◌≢◌, ℕ, zero, suc, ◌≡◌, inl, inr, String, none, some, List, [], ◌∷◌, arith, ◌==◌, get_elem?,
  Bool-cases,
}
use sonotxt_rust.Base.Errors.{ApiError, err}
use sonotxt_rust.Base.Action.{quiet, ◌>>=◌}
use sonotxt_rust.Jobs.Claims.{next_job_lem}
use sonotxt_rust.Jobs.{
  JobRow, processing, Queue, Storage, has_id, start, next_job, update_where, claim, process_text,
  process_job, process_next,
}

-- The rows with an id after it was claimed.
claimed-processing :
    (id now n : ℕ) (js : List JobRow) (r : JobRow)
    → get_elem? (update_where (has_id id) (start now) js) n ≡ some r
    → r.id ≡ id
    → r.status ≡ processing
unfolding update_where
claimed-processing id now n [] r found e = absurd (ground arith)
claimed-processing id now (suc n) (j ∷ js) r found e = claimed-processing id now n js r found e
claimed-processing id now zero (j ∷ js) r found e = elim (Bool-cases (j.id == id)) [
  | inl t ↦ let same : start now j ≡ r = ground arith in rw (← same)
  | inr f ↦ let same : j ≡ r = ground arith in absurd (ground arith)
]

-- A job whose rows are all in work is not the next job.
not_next :
    (id : ℕ) (js : List JobRow)
    → ((n : ℕ) (r : JobRow) → get_elem? js n ≡ some r → r.id ≡ id → r.status ≡ processing)
    → (k : JobRow) → next_job js ≡ some k
    → k.id ≢ id
not_next id js busy k e = elim (next_job_lem js) [
  | inl (idle, _) ↦ absurd (ground arith)
  | inr (j, is_j, h) ↦ λ same.
      let it : j ≡ k = ground arith in
      let works : j.status ≡ processing = busy h.place j h.there (rw it same) in
      let waits = h.waits in ground arith
]

module _ (default_storage : String) (upload : Storage) where
  -- Without a worker pool, a round that takes a job with a text that names no content, with nobody interfering, ends in
  -- an error and leaves the rows of the job in work, where no later round finds it.
  pub process_next_stuck :
      (q : Queue) (j : JobRow) (text : String)
      → next_job q.jobs ≡ some j
      → j.text_content ≡ some text
      → j.content_id ≡ none
      → (q' : Queue) × (process_next default_storage none upload quiet q
          ≡ (err (ApiError.internal "no workers"), q'))
        × ((n : ℕ) (r : JobRow)
            → get_elem? q'.jobs n ≡ some r
            → r.id ≡ j.id
            → r.status ≡ processing)
        × ((k : JobRow) → next_job q'.jobs ≡ some k → k.id ≢ j.id)
  unfolding process_next claim process_job process_text ◌>>=◌
  process_next_stuck q j text e has bare =
      let busy = claimed-processing j.id q.now in
      let after = update_where (has_id j.id) (start q.now) q.jobs in
      (
        record q { jobs = after },
        ground arith,
        (λ n r found same. busy n q.jobs r found same),
        (λ k next. not_next j.id after (λ n r found same. busy n q.jobs r found same) k next),
      )

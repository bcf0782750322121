-- ===== src/Pool/Retry.antt =====
-- `with_retry`: the first attempt that succeeds is the result, else the last error.
use Prim.Native.String.{◌++◌}
use sonotxt_rust.Base.{
  ℕ, zero, suc, ◌+◌, ◌≤◌, ◌<◌, ◌≡◌, refl, inl, inr, none, some, List, [], ◌∷◌, arith, length,
  get_elem?, ap, ◌∙◌, String, ◌⊎◌,
}
use sonotxt_rust.Base.Bytes.{Bytes}
use sonotxt_rust.Pool.{Worker, WorkerPool, update, change, next, pick_from, pick_any, pick}
use sonotxt_rust.Pool.Pick.{pick_total}
use sonotxt_rust.Pool.Calls.{
  Outcome, ok, err, timeout, failed, unavailable, Reply, stalled, send_failed, answered,
  ServiceError, begin_counted, finish, count_failure, TtsResponse, tts_result, tts_call,
}
use sonotxt_rust.Pool.Requests.{timed, retry_loop, with_retry, tts}

pub pick-workers : (pool : WorkerPool) → (pick pool).1.workers ≡ pool.workers
unfolding pick pick_from pick_any next
pick-workers pool = ground arith

pub pick-max_retries : (pool : WorkerPool) → (pick pool).1.max_retries ≡ pool.max_retries
unfolding pick pick_from pick_any next
pick-max_retries pool = ground arith

pub Outcome-cases :
    {A : Type 0} (r : Outcome A) → ((a : A) × (r ≡ ok a)) ⊎ ((e : ServiceError) × (r ≡ err e))
Outcome-cases (ok a) = inl (a, refl)
Outcome-cases (err e) = inr (e, refl)

module _ {A : Type 0} (f : ℕ → ℕ → WorkerPool → Outcome A × WorkerPool) where
  -- What one round of the loop does, by what `pick` and the attempt give.
  pub retry-none :
      (n k : ℕ) (e : ServiceError) (pool : WorkerPool)
      → (pick pool).0 ≡ none
      → retry_loop f (suc n) k e pool ≡ (err unavailable, (pick pool).1)
  unfolding retry_loop
  retry-none n k e pool q = rw (q, retry_loop)

  pub retry-ok :
      (n k worker : ℕ) (e : ServiceError) (a : A) (pool : WorkerPool)
      → (pick pool).0 ≡ some worker
      → (f k worker (pick pool).1).0 ≡ ok a
      → retry_loop f (suc n) k e pool ≡ (ok a, (f k worker (pick pool).1).1)
  unfolding retry_loop
  retry-ok n k worker e a pool q r = rw (q, retry_loop, r)

  pub retry-err :
      (n k worker : ℕ) (e e' : ServiceError) (pool : WorkerPool)
      → (pick pool).0 ≡ some worker
      → (f k worker (pick pool).1).0 ≡ err e'
      → retry_loop f (suc n) k e pool
        ≡ retry_loop f n (suc k) e' (update count_failure worker (f k worker (pick pool).1).1)
  unfolding retry_loop
  retry-err n k worker e e' pool q r = rw (q, retry_loop, r)

pub length-change :
    (g : Worker → Worker) (i : ℕ) (ws : List Worker) → length (change g i ws) ≡ length ws
unfolding change
length-change g i [] = refl
length-change g zero (w ∷ ws) = refl
length-change g (suc i) (w ∷ ws) = ap suc (length-change g i ws)

-- From a pool with workers, one is picked.
pub pick_one :
    (pool : WorkerPool)
    → 1 ≤ length pool.workers
    → (k : ℕ) × (v : Worker) × ((pick pool).0 ≡ some k) × (get_elem? pool.workers k ≡ some v)
pick_one pool some_there = elim (pick_total pool) [
  | inl (e, _) ↦ absurd (omega (arith, ap (length {A = Worker}) e))
  | inr r ↦ r
]

module _ {A : Type 0} (f : ℕ → ℕ → WorkerPool → Outcome A × WorkerPool) (outcome : ℕ → Outcome A)
    (same_result : (k worker : ℕ) (pool : WorkerPool) → (f k worker pool).0 ≡ outcome k)
    (same_length : (k worker : ℕ) (pool : WorkerPool)
      → length (f k worker pool).1.workers ≡ length pool.workers) where
  retry-step :
      (n k : ℕ) (e e' : ServiceError) (pool : WorkerPool)
      → 1 ≤ length pool.workers
      → outcome k ≡ err e'
      → (pool' : WorkerPool) × (1 ≤ length pool'.workers)
        × (retry_loop f (suc n) k e pool ≡ retry_loop f n (suc k) e' pool')
  unfolding update
  retry-step n k e e' pool some_there fails =
      let (worker, v, q, _) = pick_one pool some_there in
      let pool' = update count_failure worker (f k worker (pick pool).1).1 in
      (
        pool',
        omega (
          arith,
          length-change count_failure worker (f k worker (pick pool).1).1.workers,
          same_length k worker (pick pool).1,
          ap (length {A = Worker}) (pick-workers pool),
        ),
        retry-err f n k worker e e' pool q (same_result k worker (pick pool).1 ∙ fails),
      )

  retry_first_ok :
      (m n k : ℕ) (e : ServiceError) (a : A) (pool : WorkerPool)
      → 1 ≤ length pool.workers
      → m < n
      → ((j : ℕ) → j < m → (e' : ServiceError) × (outcome (k + j) ≡ err e'))
      → outcome (k + m) ≡ ok a
      → (retry_loop f n k e pool).0 ≡ ok a
  retry_first_ok m zero k e a pool some_there less fails succeeds = absurd (omega arith)
  retry_first_ok zero (suc n) k e a pool some_there less fails succeeds =
      let (worker, v, q, _) = pick_one pool some_there in
      rw (
        retry-ok f n k worker e a pool q
          (same_result k worker (pick pool).1 ∙ ap outcome (omega arith) ∙ succeeds))
  retry_first_ok (suc m) (suc n) k e a pool some_there less fails succeeds =
      let (e', first) = fails 0 (omega arith) in
      let (pool', there, step) =
        retry-step n k e e' pool some_there (ap outcome (omega arith) ∙ first) in
      rw step (
        retry_first_ok m n (suc k) e' a pool' there (omega arith)
          (λ j h. let (x, q) = fails (suc j) (omega arith) in (x, ap outcome (omega arith) ∙ q))
          (ap outcome (omega arith) ∙ succeeds))

  retry_all_fail :
      (n k : ℕ) (e e' : ServiceError) (pool : WorkerPool)
      → 1 ≤ length pool.workers
      → ((j : ℕ) → j ≤ n → (x : ServiceError) × (outcome (k + j) ≡ err x))
      → outcome (k + n) ≡ err e'
      → (retry_loop f (suc n) k e pool).0 ≡ err e'
  unfolding retry_loop
  retry_all_fail zero k e e' pool some_there fails last =
      let (pool', there, step) =
        retry-step zero k e e' pool some_there (ap outcome (omega arith) ∙ last) in
      rw step
  retry_all_fail (suc n) k e e' pool some_there fails last =
      let (x, first) = fails 0 (omega arith) in
      let (pool', there, step) =
        retry-step (suc n) k e x pool some_there (ap outcome (omega arith) ∙ first) in
      rw step (
        retry_all_fail n (suc k) x e' pool' there
          (λ j h. let (y, q) = fails (suc j) (omega arith) in (y, ap outcome (omega arith) ∙ q))
          (ap outcome (omega arith) ∙ last))

-- What an attempt comes to, by the reply it meets alone.
unfoldable pub tts_outcome : (Bytes → String) → Reply Bytes → ℕ → Outcome TtsResponse
tts_outcome text stalled ms = err timeout
tts_outcome text (send_failed e) ms = err (failed ("http: " ++ e))
tts_outcome text (answered status reading) ms = elim (tts_result text status reading ms).0 [
  | none ↦ err timeout
  | some r ↦ r
]

module _ (text : Bytes → String) (reply : Reply Bytes) (ms worker : ℕ) (pool : WorkerPool) where
  tts_call-outcome : (timed (tts_call text reply ms worker) pool).0 ≡ tts_outcome text reply ms
  unfolding timed tts_call tts_outcome
  tts_call-outcome = ground arith

  length-tts_call :
      length (timed (tts_call text reply ms worker) pool).1.workers ≡ length pool.workers
  unfolding timed tts_call update
  length-tts_call =
      let begun = change begin_counted worker pool.workers in
      ground (
        arith,
        length-change begin_counted worker pool.workers,
        length-change finish worker begun,
        length-change count_failure worker (change finish worker begun),
      )

module _ (text : Bytes → String) (replies : ℕ → Reply Bytes) (times : ℕ → ℕ)
    (pool : WorkerPool) where
  abbrev outcome_at : ℕ → Outcome TtsResponse
  outcome_at k = tts_outcome text (replies k) (times k)

  -- From a pool with workers, the first attempt that succeeds, of at most max_retries more than
  -- one, is the result of tts.
  pub tts_retries :
      (m : ℕ) (resp : TtsResponse)
      → 1 ≤ length pool.workers
      → m ≤ pool.max_retries
      → ((j : ℕ) → j < m → (e : ServiceError) × (tts_outcome text (replies j) (times j) ≡ err e))
      → tts_outcome text (replies m) (times m) ≡ ok resp
      → (tts text replies times pool).0 ≡ ok resp
  unfolding tts with_retry
  tts_retries m resp some_there within fails succeeds =
      retry_first_ok _ outcome_at
        (λ k worker p. tts_call-outcome text (replies k) (times k) worker p)
        (λ k worker p. length-tts_call text (replies k) (times k) worker p) m (pool.max_retries + 1)
        0 unavailable resp pool some_there (omega arith)
        (λ j h. let (x, q) = fails j h in (x, ap outcome_at (omega arith) ∙ q))
        (ap outcome_at (omega arith) ∙ succeeds)

  -- From a pool with workers, if every attempt of tts fails, the result is the error of the last
  -- one.
  pub tts_exhausted :
      (e : ServiceError)
      → 1 ≤ length pool.workers
      → ((j : ℕ)
          → j ≤ pool.max_retries
          → (x : ServiceError) × (tts_outcome text (replies j) (times j) ≡ err x))
      → tts_outcome text (replies pool.max_retries) (times pool.max_retries) ≡ err e
      → (tts text replies times pool).0 ≡ err e
  unfolding tts with_retry
  tts_exhausted e some_there fails last =
      let n : pool.max_retries + 1 ≡ suc pool.max_retries = omega arith in
      rw n (
        retry_all_fail _ outcome_at
          (λ k worker p. tts_call-outcome text (replies k) (times k) worker p)
          (λ k worker p. length-tts_call text (replies k) (times k) worker p) pool.max_retries 0
          unavailable e pool some_there
          (λ j h. let (x, q) = fails j h in (x, ap outcome_at (omega arith) ∙ q))
          (ap outcome_at (omega arith) ∙ last))

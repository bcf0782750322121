-- ===== src/Pool/Inflight.antt =====
-- The accounts of worker_pool.rs: a call that ends leaves the load of each worker as it was.
use sonotxt_rust.Base.{
  ℕ, zero, suc, ◌+◌, ◌^◌, ◌<◌, ◌≡◌, ◌≢◌, refl, inl, inr, some, List, [], ◌∷◌, arith, get_elem?, ap,
  ◌∙◌, Bool-cases, Option-cases, String, Bool, none,
}
use sonotxt_rust.Base.Bytes.{Bytes}
use sonotxt_rust.Pool.{Worker, WorkerPool, update, change, pick}
use sonotxt_rust.Pool.Calls.{
  Outcome, unavailable, Reply, stalled, send_failed, answered, ServiceError, begin_counted, finish,
  count_failure, tts_result, tts_call,
}
use sonotxt_rust.Pool.Requests.{
  EncryptedReply, encrypted_timeout, encrypted_failed, encrypted_answer, store_latency,
  encrypted_result, encrypted_tts, timed, retry_loop, with_retry, tts,
}
use sonotxt_rust.Pool.Retry.{pick-workers, retry-none, retry-ok, retry-err, Outcome-cases}

abbrev pub loads : List Worker → List ℕ
loads [] = []
loads (w ∷ ws) = w.inflight ∷ loads ws

-- Each load leaves room for `n` more in an AtomicU64.
abbrev pub Room : ℕ → List Worker → Type 0
Room n ws = (i : ℕ) (w : Worker) → get_elem? ws i ≡ some w → w.inflight + n < 2 ^ 64

pub Room-tail : (n : ℕ) (w : Worker) (ws : List Worker) → Room n (w ∷ ws) → Room n ws
Room-tail n w ws room i v e = room (suc i) v e

pub loads-change :
    (f : Worker → Worker) (i : ℕ) (ws : List Worker)
    → ((w : Worker) → (f w).inflight ≡ w.inflight)
    → loads (change f i ws) ≡ loads ws
unfolding change
loads-change f i [] same = refl
loads-change f zero (w ∷ ws) same = ap (λ l. l ∷ loads ws) (same w)
loads-change f (suc i) (w ∷ ws) same = ap (◌∷◌ w.inflight) (loads-change f i ws same)

-- A call that has begun and ended leaves the loads as they were.
loads-finish-begin :
    (i : ℕ) (ws : List Worker)
    → Room 0 ws
    → loads (change finish i (change begin_counted i ws)) ≡ loads ws
unfolding change
loads-finish-begin i [] room = refl
loads-finish-begin zero (w ∷ ws) room = ap (λ l. l ∷ loads ws) (omega (arith, room 0 w refl))
loads-finish-begin (suc i) (w ∷ ws) room =
    ap (◌∷◌ w.inflight) (loads-finish-begin i ws (Room-tail 0 w ws room))

-- The same loads leave the same room.
pub Room-loads : (n : ℕ) (vs ws : List Worker) → loads vs ≡ loads ws → Room n ws → Room n vs
Room-loads n [] ws e room i v found = absurd (ground arith)
Room-loads n (v' ∷ vs) [] e room i v found = absurd (ground arith)
Room-loads n (v' ∷ vs) (w ∷ ws) e room zero v found =
    let same : v.inflight ≡ w.inflight = ground arith in omega (arith, room 0 w refl)
Room-loads n (v' ∷ vs) (w ∷ ws) e room (suc i) v found =
    Room-loads n vs ws (ground arith) (Room-tail n w ws room) i v found

loads-tts_call :
    (text : Bytes → String) (reply : Reply Bytes) (ms worker : ℕ) (pool : WorkerPool)
    → Room 0 pool.workers
    → reply ≢ stalled
    → loads (tts_call text reply ms worker pool).1.workers ≡ loads pool.workers
unfolding tts_call update
loads-tts_call text stalled ms worker pool room ne = absurd (ne refl)
loads-tts_call text (send_failed e) ms worker pool room ne =
    loads-change count_failure worker _ (λ w. refl) ∙ loads-finish-begin worker pool.workers room
loads-tts_call text (answered status reading) ms worker pool room ne =
    elim (Bool-cases (tts_result text status reading ms).1) [
      | inl t ↦ rw t (
          loads-change count_failure worker _ (λ w. refl)
          ∙ loads-finish-begin worker pool.workers room)
      | inr f ↦ rw f (loads-finish-begin worker pool.workers room)
    ]

module _ {A : Type 0} (f : ℕ → ℕ → WorkerPool → Outcome A × WorkerPool) where
  retry_loop-loads :
      (keeps : (k worker : ℕ) (pool : WorkerPool)
        → Room 0 pool.workers
        → loads (f k worker pool).1.workers ≡ loads pool.workers)
      (n k : ℕ) (e : ServiceError) (pool : WorkerPool)
      → Room 0 pool.workers
      → loads (retry_loop f n k e pool).1.workers ≡ loads pool.workers
  unfolding retry_loop update
  retry_loop-loads keeps zero k e pool room = refl
  retry_loop-loads keeps (suc n) k e pool room = elim (Option-cases (pick pool).0) [
    | inl q ↦ rw (retry-none f n k e pool q) (ap loads (pick-workers pool))
    | inr (worker, q) ↦
        let picked = pick-workers pool in
        let same = keeps k worker (pick pool).1 (rw picked room) ∙ ap loads picked in
        elim (Outcome-cases (f k worker (pick pool).1).0) [
          | inl (a, r) ↦ rw (retry-ok f n k worker e a pool q r) same
          | inr (e', r) ↦
              let pool' = update count_failure worker (f k worker (pick pool).1).1 in
              let after : loads pool'.workers ≡ loads pool.workers =
                loads-change count_failure worker _ (λ w. refl) ∙ same in
              rw (retry-err f n k worker e e' pool q r) (
                retry_loop-loads keeps n (suc k) e' pool'
                  (Room-loads 0 pool'.workers pool.workers after room)
                ∙ after)
        ]
  ]

-- From loads that fit their counters, a synthesis none of whose requests is dropped while it is
-- sent leaves the load of every worker as it was, however its attempts end.
pub tts-loads :
    (text : Bytes → String) (replies : ℕ → Reply Bytes) (times : ℕ → ℕ) (pool : WorkerPool)
    → Room 0 pool.workers
    → ((k : ℕ) → replies k ≢ stalled)
    → loads (tts text replies times pool).1.workers ≡ loads pool.workers
unfolding tts with_retry timed
tts-loads text replies times pool room answers =
    retry_loop-loads
      (λ attempt worker. timed (tts_call text (replies attempt) (times attempt) worker))
      (λ k worker p r. loads-tts_call text (replies k) (times k) worker p r (answers k))
      (pool.max_retries + 1) 0 unavailable pool room

module _ (ms : ℕ) (pool : WorkerPool) (room : Room 0 pool.workers) where
  abbrev sent : ℕ → WorkerPool
  sent worker = update finish worker (update begin_counted worker (pick pool).1)

  loads-sent : (worker : ℕ) → loads (sent worker).workers ≡ loads pool.workers
  unfolding update
  loads-sent worker =
      loads-finish-begin worker (pick pool).1.workers (rw (pick-workers pool) room)
      ∙ ap loads (pick-workers pool)

  encrypted_result-loads :
      (reply : EncryptedReply) (worker : ℕ)
      → loads (encrypted_result reply ms worker (sent worker)).1.workers ≡ loads pool.workers
  unfolding encrypted_result update
  encrypted_result-loads encrypted_timeout worker = loads-sent worker
  encrypted_result-loads (encrypted_failed e) worker =
      loads-change count_failure worker _ (λ w. refl) ∙ loads-sent worker
  encrypted_result-loads (encrypted_answer (some e) audio format seconds) worker =
      loads-change count_failure worker _ (λ w. refl) ∙ loads-sent worker
  encrypted_result-loads (encrypted_answer none audio format seconds) worker =
      loads-change (store_latency ms) worker _ (λ w. refl) ∙ loads-sent worker

  -- From loads that fit their counters, an encrypted synthesis leaves the load of every worker as
  -- it was, also when it times out.
  pub encrypted_tts-loads :
      (connected : ℕ → Bool) (reply : EncryptedReply)
      → loads (encrypted_tts connected reply ms pool).1.workers ≡ loads pool.workers
  unfolding encrypted_tts
  encrypted_tts-loads connected reply = elim (Option-cases (pick pool).0) [
    | inl q ↦ rw (q, encrypted_tts) (ap loads (pick-workers pool))
    | inr (worker, q) ↦ elim (Bool-cases (connected worker)) [
      | inr f ↦ rw (q, encrypted_tts, f) (ap loads (pick-workers pool))
      | inl t ↦ rw (q, encrypted_tts, t) (encrypted_result-loads reply worker)
    ]
  ]

-- ===== src/Pool/Leaks.antt =====
-- What stays behind in worker_pool.rs when a timeout drops a request: its place in `inflight`.
use sonotxt_rust.Base.{
  ℕ, zero, suc, ◌+◌, ◌≤◌, ◌≡◌, refl, some, List, [], ◌∷◌, arith, length, get_elem?, String, ap,
}
use sonotxt_rust.Base.Bytes.{Bytes}
use sonotxt_rust.Pool.{Worker, WorkerPool, update, change, pick}
use sonotxt_rust.Pool.Calls.{
  Outcome, err, timeout, unavailable, stalled, ServiceError, begin_counted, count_failure,
  TtsResponse, tts_call,
}
use sonotxt_rust.Pool.Requests.{timed, retry_loop, with_retry, tts}
use sonotxt_rust.Pool.Retry.{
  pick-workers, retry-err, length-change, pick_one, tts_outcome, tts_exhausted,
}
use sonotxt_rust.Pool.Inflight.{loads, Room, Room-tail, Room-loads, loads-change}

unfoldable pub total : List ℕ → ℕ
total [] = 0
total (n ∷ ns) = n + total ns

-- Room for one less, when every load has grown by one at most.
Room-change :
    (n : ℕ) (f : Worker → Worker) (i : ℕ) (ws : List Worker)
    → ((w : Worker) → (f w).inflight ≤ w.inflight + 1)
    → Room (suc n) ws
    → Room n (change f i ws)
unfolding change
Room-change n f i [] grows room j v found = absurd (ground arith)
Room-change n f zero (w ∷ ws) grows room zero v found =
    let same : (f w).inflight ≡ v.inflight = ground arith in omega (arith, grows w, room 0 w refl)
Room-change n f zero (w ∷ ws) grows room (suc j) v found = omega (arith, room (suc j) v found)
Room-change n f (suc i) (w ∷ ws) grows room zero v found =
    let same : w.inflight ≡ v.inflight = ground arith in omega (arith, room 0 w refl)
Room-change n f (suc i) (w ∷ ws) grows room (suc j) v found =
    Room-change n f i ws grows (Room-tail (suc n) w ws room) j v found

total-begin :
    (i : ℕ) (ws : List Worker) (v : Worker)
    → get_elem? ws i ≡ some v
    → Room 1 ws
    → total (loads (change begin_counted i ws)) ≡ total (loads ws) + 1
unfolding change total
total-begin i [] v found room = absurd (ground arith)
total-begin zero (w ∷ ws) v found room = omega (arith, room 0 w refl)
total-begin (suc i) (w ∷ ws) v found room =
    omega (arith, total-begin i ws v found (Room-tail 1 w ws room))

module _ (text : Bytes → String) (times : ℕ → ℕ) where
  abbrev silent : ℕ → ℕ → WorkerPool → Outcome TtsResponse × WorkerPool
  silent attempt worker = timed (tts_call text stalled (times attempt) worker)

  leak_loop :
      (n k : ℕ) (e : ServiceError) (pool : WorkerPool)
      → 1 ≤ length pool.workers
      → Room n pool.workers
      → total (loads (retry_loop silent n k e pool).1.workers) ≡ total (loads pool.workers) + n
  unfolding retry_loop timed tts_call update
  leak_loop zero k e pool some_there room = omega arith
  leak_loop (suc n) k e pool some_there room =
      let (worker, v, q, found) = pick_one pool some_there in
      let picked = pick-workers pool in
      let begun = change begin_counted worker (pick pool).1.workers in
      let pool' = update count_failure worker (silent k worker (pick pool).1).1 in
      let same : loads pool'.workers ≡ loads begun =
        loads-change count_failure worker begun (λ w. refl) in
      let room1 : Room (suc n) (pick pool).1.workers = rw picked room in
      let one : Room 1 (pick pool).1.workers = λ i w h. omega (arith, room1 i w h) in
      let grown = total-begin worker (pick pool).1.workers v (rw picked found) one in
      let room' : Room n pool'.workers =
        Room-loads n pool'.workers begun same
          (Room-change n begin_counted worker (pick pool).1.workers (λ w. omega arith) room1) in
      let there : 1 ≤ length pool'.workers = omega (
        arith,
        length-change count_failure worker begun,
        length-change begin_counted worker (pick pool).1.workers,
        ap (length {A = Worker}) picked,
      ) in
      rw (retry-err silent n k worker e timeout pool q refl) (
        omega (
          arith,
          leak_loop n (suc k) timeout pool' there room',
          ap total same,
          grown,
          ap (λ ws. total (loads ws)) picked,
        ))

  -- From a pool with workers whose loads leave room for the attempts, if every request of a
  -- synthesis is dropped by its timeout while it is sent, the result is a timeout, and the loads
  -- of the workers together stay higher by the number of attempts.
  pub tts_leak :
      (pool : WorkerPool)
      → 1 ≤ length pool.workers
      → Room (pool.max_retries + 1) pool.workers
      → ((tts text (λ k. stalled) times pool).0 ≡ err timeout)
        × (total (loads (tts text (λ k. stalled) times pool).1.workers)
            ≡ total (loads pool.workers) + (pool.max_retries + 1))
  unfolding tts with_retry tts_outcome
  tts_leak pool some_there room = (
    tts_exhausted text (λ k. stalled) times pool timeout some_there (λ j h. (timeout, refl)) refl,
    leak_loop (pool.max_retries + 1) 0 unavailable pool some_there room,
  )

-- ===== src/Pool.antt =====
-- sonotxt-api/src/services/worker_pool.rs: the workers, their counters and the choice of one. A
-- worker is named by its place in `workers`, which stands for the shared pointer to it. Each
-- counter is an AtomicU64, which wraps.
pub mod Places
pub mod Pick
pub mod Turns
pub mod Calls
pub mod Requests
pub mod Inflight
pub mod Leaks
pub mod Retry
pub mod Health
mod Tests
use sonotxt_rust.Base.{
  ℕ, zero, suc, ◌+◌, ◌-◌, ◌%◌, ◌^◌, min, Bool, true, false, not, ◌&&◌, String, Option, none, some,
  List, [], ◌∷◌, ◌==◌, if◌then◌else◌, length, get_elem?,
}

pub record Worker : Type 0 where
  pub speech_url : String
  pub llm_url : String
  pub healthy : Bool
  pub inflight : ℕ
  pub total_requests : ℕ
  pub total_failures : ℕ
  pub last_latency_ms : ℕ

pub record WorkerPool : Type 0 where
  pub workers : List Worker
  pub rr_counter : ℕ
  pub max_retries : ℕ

-- `fetch_add(1)` and `fetch_sub(1)`
abbrev pub fetch_add : ℕ → ℕ
fetch_add n = (n + 1) % 2 ^ 64

abbrev pub fetch_sub : ℕ → ℕ
fetch_sub n = (n + (2 ^ 64 - 1)) % 2 ^ 64

-- `iter().filter(p)`, as the places of the workers that pass, the first worker at place `i`
unfoldable pub places : (ℕ → Worker → Bool) → ℕ → List Worker → List ℕ
places p i [] = []
places p i (w ∷ ws) = let rest = places p (suc i) ws in if p i w then i ∷ rest else rest

-- A field of the worker at a place.
abbrev pub inflight_at : List Worker → ℕ → ℕ
inflight_at ws i = elim (get_elem? ws i) [ none ↦ 0 | some w ↦ w.inflight ]

-- `.min().unwrap_or(0)` of the loads
abbrev pub min_load : List Worker → List ℕ → ℕ
min_load ws [] = 0
min_load ws (i ∷ []) = inflight_at ws i
min_load ws (i ∷ j ∷ is) = min (inflight_at ws i) (min_load ws (j ∷ is))

-- The candidates with this load.
unfoldable pub with_load : List Worker → ℕ → List ℕ → List ℕ
with_load ws load [] = []
with_load ws load (i ∷ is) =
    let rest = with_load ws load is in if inflight_at ws i == load then i ∷ rest else rest

-- `candidates[rr_counter.fetch_add(1) % candidates.len()]`, for candidates that are not empty
unfoldable pub next : List ℕ → WorkerPool → Option ℕ × WorkerPool
next candidates pool = (
  get_elem? candidates (pool.rr_counter % length candidates),
  record pool { rr_counter = fetch_add pool.rr_counter },
)

-- The places of the healthy workers.
abbrev pub healthy_places : List Worker → List ℕ
healthy_places ws = places (λ i w. w.healthy) 0 ws

-- `pick_from`
unfoldable pub pick_from : List ℕ → WorkerPool → Option ℕ × WorkerPool
pick_from [] pool = (none, pool)
pick_from (i ∷ is) pool =
    next (with_load pool.workers (min_load pool.workers (i ∷ is)) (i ∷ is)) pool

-- The branch of `pick` without healthy workers: any worker, in turn.
unfoldable pub pick_any : WorkerPool → Option ℕ × WorkerPool
pick_any pool = elim pool.workers [
  | [] ↦ (none, pool)
  | w ∷ ws ↦ next (places (λ i w. true) 0 pool.workers) pool
]

unfoldable pub pick : WorkerPool → Option ℕ × WorkerPool
pick pool = elim (healthy_places pool.workers) [
  | [] ↦ pick_any pool
  | i ∷ is ↦ pick_from (i ∷ is) pool
]

-- The healthy workers other than `exclude`.
abbrev pub other_places : ℕ → List Worker → List ℕ
other_places exclude ws = places (λ i w. w.healthy && not (i == exclude)) 0 ws

unfoldable pub pick_different : ℕ → WorkerPool → Option ℕ × WorkerPool
pick_different exclude pool = elim (other_places exclude pool.workers) [
  | [] ↦ (none, pool)
  | i ∷ is ↦ next (i ∷ is) pool
]

-- `healthy_count` and `len`
unfoldable pub healthy_count : WorkerPool → ℕ
healthy_count pool = length (healthy_places pool.workers)

abbrev pub len : WorkerPool → ℕ
len pool = length pool.workers

-- A worker's counters changed in place.
unfoldable pub change : (Worker → Worker) → ℕ → List Worker → List Worker
change f i [] = []
change f zero (w ∷ ws) = f w ∷ ws
change f (suc i) (w ∷ ws) = w ∷ change f i ws

unfoldable pub update : (Worker → Worker) → ℕ → WorkerPool → WorkerPool
update f i pool = record pool { workers = change f i pool.workers }

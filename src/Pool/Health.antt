-- ===== src/Pool/Health.antt =====
-- `health_check` of worker_pool.rs: which workers a round of health checks leaves in service.
use sonotxt_rust.Base.{
  ℕ, zero, suc, ◌+◌, ◌≤◌, ◌≡◌, refl, ap, ◌∙◌, sym, Bool, true, false, ◌&&◌, Option, none, some,
  List, [], ◌∷◌, arith, if◌then◌else◌, get_elem?, leb, ltb,
}
use sonotxt_rust.Wire.{WorkerHealth}
use sonotxt_rust.Pool.{Worker, WorkerPool, pick}
use sonotxt_rust.Pool.Pick.{pick_least}

-- The JSON of HTTP `/health`.
pub record HealthResponse : Type 0 where
  pub tts_loaded : Option Bool
  pub model_loaded : Option Bool

-- A GET of `/health` within 5 seconds: nothing, or a status and the JSON if it can be parsed.
pub data HealthReply : Type 0 where
  no_reply : HealthReply
  reply : (code : ℕ) → Option HealthResponse → HealthReply

-- The two labels that `check_health_http` is called with.
pub data Label : Type 0 where
  speech llm : Label

abbrev loaded : Option Bool → Bool
loaded none = false
loaded (some b) = b

unfoldable pub check_health_http : HealthReply → Label → Bool
check_health_http no_reply label = false
check_health_http (reply code none) label = false
check_health_http (reply code (some h)) label =
    if leb 200 code && ltb code 300
    then (elim label [ speech ↦ loaded h.tts_loaded | llm ↦ loaded h.model_loaded ])
    else false

-- What a round finds at a worker: the health over QUIC if that worked, what HTTP answers for both
-- of its services, and how long it took.
pub record Probe : Type 0 where
  pub quic_health : Option WorkerHealth
  pub speech_reply : HealthReply
  pub llm_reply : HealthReply
  pub elapsed_ms : ℕ

-- `speech_ok && llm_ok`
unfoldable pub is_up : Probe → Bool
unfolding check_health_http
is_up p = elim p.quic_health [
  | some health ↦ health.speech_ok && health.llm_ok
  | none ↦ check_health_http p.speech_reply speech && check_health_http p.llm_reply llm
]

check_worker : Probe → Worker → Worker
unfolding is_up
check_worker p w = record w { last_latency_ms = p.elapsed_ms; healthy = is_up p }

-- The workers from place `i` on.
check_workers : (ℕ → Probe) → ℕ → List Worker → List Worker
unfolding check_worker
check_workers probe i [] = []
check_workers probe i (w ∷ ws) = check_worker (probe i) w ∷ check_workers probe (suc i) ws

unfoldable pub health_check : (ℕ → Probe) → WorkerPool → WorkerPool
unfolding check_workers
health_check probe pool = record pool { workers = check_workers probe 0 pool.workers }

-- The worker at a place is checked with the probe of that place.
check_workers-at :
    (probe : ℕ → Probe) (i n : ℕ) (ws : List Worker) (w : Worker)
    → get_elem? ws n ≡ some w
    → get_elem? (check_workers probe i ws) n ≡ some (check_worker (probe (i + n)) w)
unfolding check_workers
check_workers-at probe i n [] w found = absurd (ground arith)
check_workers-at probe i zero (v ∷ ws) w found =
    let same : v ≡ w = ground arith in let here : i ≡ i + 0 = omega arith in rw (same, ← here)
check_workers-at probe i (suc n) (v ∷ ws) w found =
    let next : suc i + n ≡ i + suc n = omega arith in
    rw (← next) (check_workers-at probe (suc i) n ws w found)

-- Conversely.
check_workers-from :
    (probe : ℕ → Probe) (i n : ℕ) (ws : List Worker) (v : Worker)
    → get_elem? (check_workers probe i ws) n ≡ some v
    → (w : Worker) × (get_elem? ws n ≡ some w) × (v ≡ check_worker (probe (i + n)) w)
unfolding check_workers
check_workers-from probe i n [] v found = absurd (ground arith)
check_workers-from probe i zero (w ∷ ws) v found =
    let here : i ≡ i + 0 = omega arith in (w, refl, rw (← here) (ground arith))
check_workers-from probe i (suc n) (w ∷ ws) v found =
    let (u, at_n, e) = check_workers-from probe (suc i) n ws v found in
    let next : suc i + n ≡ i + suc n = omega arith in (u, at_n, rw (← next) e)

-- After a round of health checks in which some worker answered well for both of its services,
-- pick gives a worker that did, with at most that worker's load.
pub health_check-pick :
    (probe : ℕ → Probe) (pool : WorkerPool) (n : ℕ) (w : Worker)
    → get_elem? pool.workers n ≡ some w
    → is_up (probe n) ≡ true
    → (k : ℕ) × (v : Worker) × ((pick (health_check probe pool)).0 ≡ some k)
      × (get_elem? pool.workers k ≡ some v)
      × (is_up (probe k) ≡ true)
      × (v.inflight ≤ w.inflight)
unfolding health_check check_worker
health_check-pick probe pool n w found up =
    let (k, v, r, there, healthy, least) =
      pick_least (health_check probe pool) n (check_worker (probe n) w)
        (check_workers-at probe 0 n pool.workers w found
          ∙ ap (λ i. some (check_worker (probe i) w)) (omega arith))
        up in
    let (u, at_k, e) = check_workers-from probe 0 k pool.workers v there in
    let here : 0 + k ≡ k = omega arith in
    (
      k,
      u,
      r,
      at_k,
      rw (← here) (ap (λ (x : Worker). x.healthy) (sym e) ∙ healthy),
      omega (arith, ap (λ (x : Worker). x.inflight) e),
    )

-- ===== src/Pool/Tests.antt =====
-- Runs of the pool: three workers, the last one unhealthy.
use sonotxt_rust.Base.{
  ℕ, zero, suc, ◌≤◌, ◌<◌, ◌≡◌, ◌≢◌, refl, Bool, true, false, String, none, some, [], ◌∷◌, arith,
  get_elem?,
}
use sonotxt_rust.Base.Bytes.{Bytes}
use sonotxt_rust.Pool.{Worker, WorkerPool, pick}
use sonotxt_rust.Pool.Turns.{picks, IsLeastLoaded, pick_turn}
use sonotxt_rust.Pool.Calls.{
  ServiceError, ok, err, failed, Reply, stalled, send_failed, answered, body, TtsResponse,
  no_duration, wav_duration, tts_result,
}
use sonotxt_rust.Pool.Requests.{tts}
use sonotxt_rust.Pool.Retry.{tts_outcome, tts_retries}
use sonotxt_rust.Pool.Inflight.{loads, Room, tts-loads}
use sonotxt_rust.Pool.Health.{Probe, no_reply, is_up, health_check, health_check-pick}

abbrev worker : Bool → ℕ → Worker
worker healthy inflight = record {
  speech_url = "http://10.0.0.1:8080";
  llm_url = "http://10.0.0.1:8090";
  healthy = healthy;
  inflight = inflight;
  total_requests = 9;
  total_failures = 0;
  last_latency_ms = 20;
}

abbrev pool : WorkerPool
pool = record {
  workers = worker true 4 ∷ worker true 1 ∷ worker false 0 ∷ [];
  rr_counter = 7;
  max_retries = 1;
}

pool-Room : (n : ℕ) → n ≤ 2 → Room n pool.workers
pool-Room n small zero w found = ground arith
pool-Room n small (suc zero) w found = ground arith
pool-Room n small (suc (suc zero)) w found = ground arith
pool-Room n small i w found = absurd (ground arith)

abbrev even : WorkerPool
even = record { workers = worker true 2 ∷ worker true 2 ∷ []; rr_counter = 7; max_retries = 1 }

even-least :
    (d : ℕ) (v : Worker) → get_elem? even.workers d ≡ some v → v.healthy ≡ true → 2 ≤ v.inflight
even-least zero v found h = ground arith
even-least (suc zero) v found h = ground arith
even-least d v found h = absurd (ground arith)

even-IsLeastLoaded : IsLeastLoaded even.workers 0
even-IsLeastLoaded = record {
  worker = worker true 2;
  is_at = refl;
  is_healthy = refl;
  least = even-least;
}

pick_turn_example : (k : ℕ) × (k < 2) × ((pick (picks k even)).0 ≡ some 0)
pick_turn_example = pick_turn even 0 even-IsLeastLoaded (omega arith)

abbrev text : Bytes → String
text b = "?"

-- The first attempt finds no route, the second gets an empty WAV file.
abbrev replies : ℕ → Reply Bytes
replies zero = send_failed "no route"
replies k = answered (record { code = 200; display = "200 OK" }) (body [])

abbrev no_route : ℕ → Reply Bytes
no_route k = send_failed "no route"

abbrev times : ℕ → ℕ
times k = 30

abbrev empty_wav : TtsResponse
empty_wav = record {
  audio_data = [];
  format = "wav";
  duration_seconds = no_duration;
  runtime_ms = 30;
}

first_fails :
    (j : ℕ) → j < 1 → (e : ServiceError) × (tts_outcome text (replies j) (times j) ≡ err e)
unfolding tts_outcome
first_fails zero h = (failed "http: no route", refl)
first_fails j h = absurd (omega arith)

tts_retries_example : (tts text replies times pool).0 ≡ ok empty_wav
unfolding tts_outcome tts_result wav_duration
tts_retries_example =
    tts_retries text replies times pool 1 empty_wav (omega arith) (omega arith) first_fails refl

not_stalled : (k : ℕ) → no_route k ≢ stalled
not_stalled k e = ground arith

tts-loads_example : loads (tts text no_route times pool).1.workers ≡ 4 ∷ 1 ∷ 0 ∷ []
tts-loads_example = tts-loads text no_route times pool (pool-Room 0 (omega arith)) not_stalled

-- Only the last worker answers, over QUIC.
abbrev probe : ℕ → Probe
probe (suc (suc zero)) = record {
  quic_health =
      some (record { speech_ok = true; llm_ok = true; jobs_processing = 0; uptime_secs = 9 });
  speech_reply = no_reply;
  llm_reply = no_reply;
  elapsed_ms = 3;
}
probe k = record {
  quic_health = none;
  speech_reply = no_reply;
  llm_reply = no_reply;
  elapsed_ms = 5000;
}

health_check-pick_example :
    (k : ℕ) × (v : Worker) × ((pick (health_check probe pool)).0 ≡ some k)
    × (get_elem? pool.workers k ≡ some v)
    × (is_up (probe k) ≡ true)
    × (v.inflight ≤ 0)
unfolding is_up
health_check-pick_example = health_check-pick probe pool 2 (worker false 0) refl refl

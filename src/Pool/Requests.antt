-- ===== src/Pool/Requests.antt =====
-- The requests of worker_pool.rs that its clients make: `tts` with timeout and retries, `asr` over
-- QUIC or HTTP, `llm`, `tts_with_backup` and `encrypted_tts`.
use Prim.Native.String.{◌++◌}
use sonotxt_rust.Base.{ℕ, zero, suc, ◌+◌, String, Option, none, some, Bool, if◌then◌else◌}
use sonotxt_rust.Base.Bytes.{Bytes}
use sonotxt_rust.Pool.{WorkerPool, update, pick, pick_different, Worker}
use sonotxt_rust.Pool.Calls.{
  ServiceError, timeout, unavailable, failed, Outcome, ok, err, Reply, TtsResponse, LlmBody,
  LlmResponse, Call, count_failure, tts_call, asr_call, llm_call, Duration, begin_counted, finish,
}

-- `tokio::time::timeout(..).await.map_err(|_| ServiceError::Timeout)?`
unfoldable pub timed : {A : Type 0} → Call A → WorkerPool → Outcome A × WorkerPool
timed call pool =
    let (result, pool') = call pool in (elim result [ none ↦ err timeout | some r ↦ r ], pool')

-- The loop of `with_retry` with `n` attempts left, of which this is number `attempt`.
unfoldable pub retry_loop :
    {A : Type 0}
    → (ℕ → ℕ → WorkerPool → Outcome A × WorkerPool)
    → ℕ
    → ℕ
    → ServiceError
    → WorkerPool
    → Outcome A × WorkerPool
retry_loop f zero attempt last_err pool = (err last_err, pool)
retry_loop f (suc n) attempt last_err pool =
    let (chosen, pool1) = pick pool in
    elim chosen [
      | none ↦ (err unavailable, pool1)
      | some worker ↦
          let (result, pool2) = f attempt worker pool1 in
          elim result [
            | ok resp ↦ (ok resp, pool2)
            | err e ↦ retry_loop f n (suc attempt) e (update count_failure worker pool2)
          ]
    ]

unfoldable pub with_retry :
    {A : Type 0}
    → (ℕ → ℕ → WorkerPool → Outcome A × WorkerPool)
    → WorkerPool
    → Outcome A × WorkerPool
with_retry f pool = retry_loop f (pool.max_retries + 1) 0 unavailable pool

-- `WorkerPool::tts`: attempt `k` meets `replies k` after `times k` milliseconds.
unfoldable pub tts :
    (Bytes → String) → (ℕ → Reply Bytes) → (ℕ → ℕ) → WorkerPool → Outcome TtsResponse × WorkerPool
tts text replies times =
    with_retry (λ attempt worker. timed (tts_call text (replies attempt) (times attempt) worker))

-- What the QUIC connection of a worker does with an encrypted request, within the timeout.
pub data QuicReply : Type 0 where
  quic_timeout : QuicReply
  quic_failed : QuicReply
  quic_answer : (text : String) (error : Option String) → QuicReply

-- `WorkerPool::asr`: over QUIC if the worker has a connection, else or on failure over HTTP
unfoldable pub asr :
    (ℕ → Option QuicReply) → Reply String → WorkerPool → Outcome String × WorkerPool
asr quic reply pool =
    let (chosen, pool1) = pick pool in
    elim chosen [
      | none ↦ (err unavailable, pool1)
      | some worker ↦ elim (quic worker) [
        | some (quic_answer text (some e)) ↦ (err (failed e), pool1)
        | some (quic_answer text none) ↦ (ok text, pool1)
        | _ ↦ timed (asr_call reply worker) pool1
      ]
    ]

-- `WorkerPool::llm`
unfoldable pub llm : Reply LlmBody → ℕ → WorkerPool → Outcome LlmResponse × WorkerPool
llm reply runtime_ms pool =
    let (chosen, pool1) = pick pool in
    elim chosen [
      | none ↦ (err unavailable, pool1)
      | some worker ↦ timed (llm_call reply runtime_ms worker) pool1
    ]

-- `WorkerPool::tts_with_backup`: `primary` is the first request's reply within the cutoff, else
-- its future is dropped and the backup is called, which waits without a limit.
unfoldable pub tts_with_backup :
    (Bytes → String) → (primary backup : Reply Bytes) → ℕ → Call TtsResponse
tts_with_backup text primary backup runtime_ms pool =
    let (chosen, pool1) = pick pool in
    elim chosen [
      | none ↦ (some (err unavailable), pool1)
      | some first ↦
          let (other, pool2) = pick_different first pool1 in
          let (result, pool3) = tts_call text primary runtime_ms first pool2 in
          elim other [
            | none ↦ (some (elim result [ none ↦ err timeout | some r ↦ r ]), pool3)
            | some second ↦ elim result [
              | some r ↦ (some r, pool3)
              | none ↦ tts_call text backup runtime_ms second pool3
            ]
          ]
    ]

-- What the QUIC connection makes of an encrypted synthesis, within the timeout.
pub data EncryptedReply : Type 0 where
  encrypted_timeout : EncryptedReply
  encrypted_failed : String → EncryptedReply
  encrypted_answer :
      (error : Option String) (audio : Bytes) (format : String) → Duration → EncryptedReply

abbrev pub store_latency : ℕ → Worker → Worker
store_latency ms w = record w { last_latency_ms = ms }

-- The result of `encrypted_tts` after the request, at the pool where it is no longer under way.
unfoldable pub encrypted_result :
    EncryptedReply → ℕ → ℕ → WorkerPool → Outcome TtsResponse × WorkerPool
encrypted_result encrypted_timeout runtime_ms worker sent = (err timeout, sent)
encrypted_result (encrypted_failed e) runtime_ms worker sent =
    (err (failed ("quic tts: " ++ e)), update count_failure worker sent)
encrypted_result (encrypted_answer (some e) audio format seconds) runtime_ms worker sent =
    (err (failed e), update count_failure worker sent)
encrypted_result (encrypted_answer none audio format seconds) runtime_ms worker sent = (
  ok (record {
    audio_data = audio;
    format = format;
    duration_seconds = seconds;
    runtime_ms = runtime_ms;
  }),
  update (store_latency runtime_ms) worker sent,
)

-- `WorkerPool::encrypted_tts`; `connected` says which workers have a QUIC connection.
unfoldable pub encrypted_tts :
    (ℕ → Bool) → EncryptedReply → ℕ → WorkerPool → Outcome TtsResponse × WorkerPool
encrypted_tts connected reply runtime_ms pool =
    let (chosen, pool1) = pick pool in
    elim chosen [
      | none ↦ (err unavailable, pool1)
      | some worker ↦
          if connected worker
          then encrypted_result reply runtime_ms worker
              (update finish worker (update begin_counted worker pool1))
          else (err unavailable, pool1)
    ]

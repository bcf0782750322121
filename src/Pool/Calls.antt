-- ===== src/Pool/Calls.antt =====
-- The calls of worker_pool.rs to a worker: `TtsService`, `AsrService`, `LlmService`. What the network answers is given to each call; a future that is dropped by a
-- timeout ends where it waits.
use Prim.Native.String.{◌++◌}
use sonotxt_rust.Base.{
  ℕ, Bool, true, false, ◌&&◌, String, Option, none, some, List, leb, ltb, if◌then◌else◌, length,
}
use sonotxt_rust.Base.Bytes.{Bytes, u32_from_le_bytes}
use sonotxt_rust.Pool.{Worker, WorkerPool, fetch_add, fetch_sub, update}

pub data ServiceError : Type 0 where
  timeout unavailable cancelled : ServiceError
  failed : String → ServiceError

pub data Outcome (A : Type 0) : Type 0 where
  ok : A → Outcome A
  err : ServiceError → Outcome A

-- An HTTP status, with the text that it is displayed as.
pub record Status : Type 0 where
  pub code : ℕ
  pub display : String

abbrev is_success : Status → Bool
is_success s = leb 200 s.code && ltb s.code 300

-- Reading a response's body: never done, failed with an error's text, or done.
pub data Reading (B : Type 0) : Type 0 where
  body_stalled : Reading B
  body_failed : String → Reading B
  body : B → Reading B

-- What `send().await` meets: no answer while it waits, an error, or a response.
pub data Reply (B : Type 0) : Type 0 where
  stalled : Reply B
  send_failed : String → Reply B
  answered : Status → Reading B → Reply B

-- `duration_seconds`: 0, or the quotient of the WAV header's data size and twice its sample rate
pub data Duration : Type 0 where
  no_duration : Duration
  quotient : (data_size sample_rate : ℕ) → Duration

pub record TtsResponse : Type 0 where
  pub audio_data : Bytes
  pub format : String
  pub duration_seconds : Duration
  pub runtime_ms : ℕ

-- The JSON body of the language model's answer.
pub record LlmBody : Type 0 where
  pub sentences : List String
  pub full_response : String
  pub tokens : Option ℕ

pub record LlmResponse : Type 0 where
  pub sentences : List String
  pub full_response : String
  pub tokens : ℕ
  pub runtime_ms : ℕ

-- A future over the pool: none if it waits for ever.
abbrev pub Call : Type 0 → Type 0
Call A = WorkerPool → Option (Outcome A) × WorkerPool

-- `inflight.fetch_add(1)`, and with it `total_requests` for tts; `inflight.fetch_sub(1)`;
-- `total_failures.fetch_add(1)`
abbrev pub begin : Worker → Worker
begin w = record w { inflight = fetch_add w.inflight }

abbrev pub begin_counted : Worker → Worker
begin_counted w = record w {
  inflight = fetch_add w.inflight;
  total_requests = fetch_add w.total_requests;
}

abbrev pub finish : Worker → Worker
finish w = record w { inflight = fetch_sub w.inflight }

abbrev pub count_failure : Worker → Worker
count_failure w = record w { total_failures = fetch_add w.total_failures }

-- The duration that a WAV header gives.
unfoldable pub wav_duration : Bytes → Duration
wav_duration wav_data =
    if ltb 44 (length wav_data)
    then quotient (u32_from_le_bytes wav_data 40) (u32_from_le_bytes wav_data 24)
    else no_duration

-- `TtsService::call` once the request was sent: the result, and whether a failure is counted.
-- `text` is the body as text.
unfoldable pub tts_result :
    (Bytes → String) → Status → Reading Bytes → ℕ → Option (Outcome TtsResponse) × Bool
tts_result text status reading runtime_ms =
    if is_success status
    then (elim reading [
      | body_stalled ↦ (none, false)
      | body_failed e ↦ (some (err (failed ("read body: " ++ e))), false)
      | body wav_data ↦ (
        some (
            ok (record {
              audio_data = wav_data;
              format = "wav";
              duration_seconds = wav_duration wav_data;
              runtime_ms = runtime_ms;
            })),
        false,
      )
    ])
    else (elim reading [
      | body_stalled ↦ (none, false)
      | body_failed e ↦ (some (err (failed ("tts " ++ (status.display ++ ": ")))), true)
      | body b ↦ (some (err (failed ("tts " ++ (status.display ++ (": " ++ text b))))), true)
    ])

unfoldable pub tts_call : (Bytes → String) → Reply Bytes → ℕ → ℕ → Call TtsResponse
tts_call text reply runtime_ms worker pool =
    let sending = update begin_counted worker pool in
    let sent = update finish worker sending in
    elim reply [
      | stalled ↦ (none, sending)
      | send_failed e ↦ (some (err (failed ("http: " ++ e))), update count_failure worker sent)
      | answered status reading ↦
          let (result, counted) = tts_result text status reading runtime_ms in
          (result, if counted then update count_failure worker sent else sent)
    ]

-- `AsrService::call`: the body is the JSON object with the text.
unfoldable pub asr_call : Reply String → ℕ → Call String
asr_call reply worker pool =
    let sending = update begin worker pool in
    let sent = update finish worker sending in
    elim reply [
      | stalled ↦ (none, sending)
      | send_failed e ↦ (some (err (failed ("http: " ++ e))), sent)
      | answered status reading ↦ (
        if is_success status
            then (elim reading [
              | body_stalled ↦ none
              | body_failed e ↦ some (err (failed ("json: " ++ e)))
              | body t ↦ some (ok t)
            ])
            else some (err (failed ("asr: " ++ status.display))),
        sent,
      )
    ]

-- `LlmService::call`
unfoldable pub llm_call : Reply LlmBody → ℕ → ℕ → Call LlmResponse
llm_call reply runtime_ms worker pool =
    let sending = update begin worker pool in
    let sent = update finish worker sending in
    elim reply [
      | stalled ↦ (none, sending)
      | send_failed e ↦ (some (err (failed ("http: " ++ e))), sent)
      | answered status reading ↦ (
        if is_success status
            then (elim reading [
              | body_stalled ↦ none
              | body_failed e ↦ some (err (failed ("json: " ++ e)))
              | body b ↦ some (
                  ok (record {
                    sentences = b.sentences;
                    full_response = b.full_response;
                    tokens = elim b.tokens [ none ↦ 0 | some n ↦ n ];
                    runtime_ms = runtime_ms;
                  }))
            ])
            else some (err (failed ("llm: " ++ status.display))),
        sent,
      )
    ]

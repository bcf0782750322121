-- ===== src/Api/Synthesis.antt =====
-- sonotxt-api/src/routes/api.rs, the handler `tts`: a job for a text, paid from the balance or the
-- channel, or within the free allowance. The text is `req.text.trim()`; its price, which the code
-- computes in floating point, and the hashes of accounts are parameters. What workers are told of
-- a new job is not part of the state.
use text.Mathlib.Text.{◌==◌, starts_with}
use Prim.Native.String.{len}
use sonotxt_rust.Base.{
  ℕ, Bool, true, false, ◌||◌, String, Option, none, some, List, [], ◌∷◌, ltb, if◌then◌else◌,
}
use sonotxt_rust.Base.Int.{as_i32, ℤ, ◌-ℤ◌}
use sonotxt_rust.Base.Errors.{ApiError, ok, err}
use sonotxt_rust.Base.Action.{Action, Schedule, statement, pure, raise_if, ◌>>=◌, ◌>>◌}
use sonotxt_rust.Billing.{Ledger, check_and_charge}
use sonotxt_rust.Api.{Store, Job, Owner, on_ledger, attempt}
use sonotxt_rust.Api.FreeTier.{
  add_used, check_free_tier_limit, check_free_tier_limit_with, consume_free_tier,
  free_tier_logged_in_limit,
}

-- `TtsUser`; an authenticated user's account, key and wallet
pub data TtsUser : Type 0 where
  authenticated : (account_id key : ℕ) → (wallet_address : Option String) → TtsUser
  free_tier : (hash : ℕ) → TtsUser

abbrev pub is_free_tier : TtsUser → Bool
is_free_tier (authenticated account_id key wallet) = false
is_free_tier (free_tier hash) = true

-- The fields of the request that the handler reads.
pub record TtsRequest : Type 0 where
  pub text : String
  pub voice : String
  pub storage : Option String
  pub engine : String

pub record TtsResponse : Type 0 where
  pub job_id : ℕ
  pub free_tier_remaining : Option ℤ

abbrev valid_voices : List String
valid_voices =
    "ryan" ∷ "serena" ∷ "aiden" ∷ "vivian" ∷ "eric" ∷ "dylan" ∷ "sohee" ∷ "ono_anna" ∷ "uncle_fu"
    ∷ []

abbrev contains : List String → String → Bool
contains [] s = false
contains (t ∷ ts) s = (t == s) || contains ts s

abbrev pub choose_voice : String → String
choose_voice voice = if contains valid_voices voice then voice else "serena"

abbrev pub choose_engine : String → String
choose_engine engine =
    if contains ("qwen" ∷ "vibevoice" ∷ "vibevoice-streaming" ∷ []) engine then engine else "qwen"

-- The engine of a free job.
abbrev pub engine_type : String → String
engine_type voice = if starts_with voice "en-" then "vibevoice-streaming" else "qwen"

-- `INSERT INTO jobs`
abbrev insert_job : Job → Store → Unit {0} × Store
insert_job job s = (tt, record s { jobs = job ∷ s.jobs })

-- The row of a job that is paid for.
abbrev pub paid_job : TtsRequest → ℕ → ℕ → Job
paid_job req key job_id = record {
  id = job_id;
  owner = Owner.api_key key;
  text_content = req.text;
  voice = choose_voice req.voice;
  storage_type = req.storage;
  engine = choose_engine req.engine;
  is_free_tier = false;
  char_count = as_i32 (len req.text);
  priority = 50;
}

-- The row of a free job.
abbrev pub free_job : TtsRequest → Owner → ℕ → ℕ → Job
free_job req owner job_id priority = record {
  id = job_id;
  owner = owner;
  text_content = req.text;
  voice = choose_voice req.voice;
  storage_type = some "minio";
  engine = engine_type (choose_voice req.voice);
  is_free_tier = true;
  char_count = as_i32 (len req.text);
  priority = priority;
}

-- The statements on the tables of this file are numbers 0 to 3; `during` is what happens to the
-- ledger while the charge runs.
module _ (ss58_to_h160 : String → Option ℕ) (sono : Bool) (txt_cost_for_chars : ℕ → ℤ)
    (hash_account : ℕ → ℕ) (max_content_size : ℕ) (during : Schedule Ledger)
    (sched : Schedule Store) where
  -- `Ok(_charge)`: the job is paid for.
  unfoldable pub tts_paid : TtsRequest → ℕ → ℕ → Action Store TtsResponse
  tts_paid req key job_id = do
    statement sched 0 (insert_job (paid_job req key job_id))
    pure (record { job_id = job_id; free_tier_remaining = none })

  -- `Err(_)`: the allowance of a user who is logged in.
  unfoldable pub tts_logged_in : TtsRequest → (account_id key : ℕ) → ℕ → Action Store TtsResponse
  tts_logged_in req account_id key job_id = do
    let user_hash = hash_account account_id
    let chars = as_i32 (len req.text)
    remaining ← check_free_tier_limit_with sched 1 user_hash chars free_tier_logged_in_limit
    consume_free_tier sched 2 user_hash chars
    statement sched 3 (insert_job (free_job req (Owner.api_key key) job_id 10))
    pure (record { job_id = job_id; free_tier_remaining = some (remaining -ℤ chars) })

  unfoldable pub tts_authenticated :
      TtsRequest → (account_id key : ℕ) → Option String → ℕ → Action Store TtsResponse
  tts_authenticated req account_id key wallet job_id = do
    let cost = txt_cost_for_chars (len req.text)
    charged ← attempt (on_ledger (check_and_charge during ss58_to_h160 sono account_id wallet cost))
    elim charged [
      | ok _ ↦ tts_paid req key job_id
      | err _ ↦ tts_logged_in req account_id key job_id
    ]

  -- The allowance of an address; the two writes are one transaction.
  unfoldable pub tts_free : TtsRequest → ℕ → ℕ → Action Store TtsResponse
  tts_free req hash job_id = do
    let chars = as_i32 (len req.text)
    remaining ← check_free_tier_limit sched 1 hash chars
    statement sched 2
        (λ s. insert_job (free_job req (Owner.ip_hash hash) job_id 0) (add_used hash chars s).1)
    pure (record { job_id = job_id; free_tier_remaining = some (remaining -ℤ chars) })

  unfoldable pub tts : TtsUser → TtsRequest → ℕ → Action Store TtsResponse
  tts user req job_id = do
    let max_size = if is_free_tier user then 1000 else max_content_size
    raise_if (req.text == "") ApiError.invalid_request_error
    raise_if (ltb max_size (len req.text)) ApiError.content_too_large
    elim user [
      | authenticated account_id key wallet ↦ tts_authenticated req account_id key wallet job_id
      | free_tier hash ↦ tts_free req hash job_id
    ]

-- ===== src/Api.antt =====
-- The state behind the synthesis endpoint: the ledger of billing.rs, the table free_tier_usage
-- and the table jobs. Columns in floating point (cost, estimated_duration_ms) are left out. An
-- account, a hash and a job id are numbers, and so is a date.
pub mod FreeTier
pub mod Synthesis
pub mod Quota
pub mod Queued
pub mod Unpaid
mod Tests
use sonotxt_rust.Base.{ℕ, Bool, String, Option, List}
use sonotxt_rust.Base.Int.{ℤ}
use sonotxt_rust.Base.Errors.{ApiError, Result, ok}
use sonotxt_rust.Base.Assoc.{Assoc}
use sonotxt_rust.Base.Action.{Action}
use sonotxt_rust.Billing.{Ledger}

-- A row of free_tier_usage.
pub record Usage : Type 0 where
  pub chars_used : ℤ
  pub last_reset : ℕ

-- Who a job belongs to: the column api_key, or the column ip_hash.
pub data Owner : Type 0 where
  api_key ip_hash : ℕ → Owner

pub record Job : Type 0 where
  pub id : ℕ
  pub owner : Owner
  pub text_content : String
  pub voice : String
  pub storage_type : Option String
  pub engine : String
  pub is_free_tier : Bool
  pub char_count : ℤ
  pub priority : ℕ

pub record Store : Type 0 where
  pub ledger : Ledger
  pub usage : Assoc Usage
  pub jobs : List Job
  pub today : ℕ

-- A handler of billing.rs, on the ledger of the store.
abbrev pub on_ledger : {A : Type 0} → Action Ledger A → Action Store A
on_ledger m s = let (r, ledger) = m s.ledger in (r, record s { ledger = ledger })

-- `match m { Ok(..) => .., Err(..) => .. }`
abbrev pub attempt : {A : Type 0} → Action Store A → Action Store (Result ApiError A)
attempt m s = let (r, s') = m s in (ok r, s')

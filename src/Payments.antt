-- ===== src/Payments.antt =====
-- sonotxt-api/src/services/payments/mod.rs: the deposits of all chains, and what credits them. The
-- children have the chains and routes/payments.rs. Amounts of money, in floating point in the
-- code, are integers, in millionths; accounts and ids are numbers, hashes and addresses texts.
pub mod Deposits
pub mod Checkout
pub mod Once
pub mod Lost
pub mod Addresses
pub mod Rotated
pub mod Zcash
mod Tests
use sonotxt_rust.Base.{
  ℕ, ◌+◌, Bool, true, false, ◌||◌, String, Option, none, some, List, [], ◌∷◌, ◌==◌, if◌then◌else◌,
  map, any,
}
use sonotxt_rust.Base.Int.{ℤ, ◌+ℤ◌}
use sonotxt_rust.Base.Text.{Text, eq_text}
use sonotxt_rust.Base.Errors.{ApiError, Result, ok, err}
use sonotxt_rust.Base.Assoc.{Assoc, lookup, insert}
use sonotxt_rust.Base.Action.{Action, Schedule, statement, pure, raise, map_err, ◌>>=◌, ◌>>◌}
use sonotxt_rust.Billing.{Ledger}

pub data Chain : Type 0 where
  assethub : Chain
  penumbra : Chain
  stripe : Chain

pub data Status : Type 0 where
  pending : Status
  confirmed : Status
  credited : Status

-- A row of `deposits`.
pub record DepositRow : Type 0 where
  pub id : ℕ
  pub account_id : ℕ
  pub chain : Chain
  pub tx_hash : Text
  pub amount : ℤ
  pub status : Status

-- A row of `transactions` for a purchase.
pub record Purchase : Type 0 where
  pub account_id : ℕ
  pub amount : ℤ
  pub deposit_id : Option ℕ

-- A row of `payment_addresses`.
pub record AddressRow : Type 0 where
  pub account_id : ℕ
  pub chain : Chain
  pub address : Text
  pub derivation_index : ℕ
  pub penumbra_index : Option ℕ
  pub is_active : Bool

-- The balances of `account_credits` by account, and the ledger of TXT.
pub record Payments : Type 0 where
  pub deposits : List DepositRow
  pub credits : Assoc ℤ
  pub purchases : List Purchase
  pub addresses : List AddressRow
  pub ledger : Ledger

abbrev pub has_hash : Text → DepositRow → Bool
has_hash tx_hash d = eq_text d.tx_hash tx_hash

-- `SELECT EXISTS(SELECT 1 FROM deposits WHERE tx_hash = $1)`
abbrev pub exists : Text → Payments → Bool
exists tx_hash p = any (has_hash tx_hash) p.deposits

-- `UPDATE account_credits SET balance = balance + $1 .. WHERE account_id = $2`
abbrev pub add_credit : ℕ → ℤ → Assoc ℤ → Assoc ℤ
add_credit account amount credits = elim (lookup account credits) [
  | none ↦ credits
  | some b ↦ insert account (b +ℤ amount) credits
]

-- `UPDATE deposits SET status = 'credited' .. WHERE id = $1`
abbrev pub set_credited : ℕ → DepositRow → DepositRow
set_credited id d = if d.id == id then record d { status = credited } else d

-- The three statements of `credit_deposit`.
unfoldable pub credit : (deposit_id account_id : ℕ) (amount : ℤ) → Payments → Payments
credit deposit_id account_id amount p = record p {
  deposits = map (set_credited deposit_id) p.deposits;
  credits = add_credit account_id amount p.credits;
  purchases =
      record { account_id = account_id; amount = amount; deposit_id = some deposit_id }
      ∷ p.purchases;
}

-- `e.to_string()` of an error of sqlx
module _ (db_error : String) (sched : Schedule Payments) where
  abbrev pub to_internal : ApiError → ApiError
  to_internal e = ApiError.internal db_error

  -- One transaction, which is committed as a whole or not at all. Its statements are numbers 2 to 6,
  -- with its begin and its commit; nobody sees the state between them.
  unfoldable pub credit_deposit :
      (deposit_id account_id : ℕ) (amount : ℤ) → Action Payments (Unit {0})
  credit_deposit deposit_id account_id amount p =
      let p' = sched.others 2 p in
      if sched.fails 2 || (sched.fails 3 || (sched.fails 4 || (sched.fails 5 || sched.fails 6)))
      then (err (to_internal ApiError.internal_error), p')
      else (ok tt, credit deposit_id account_id amount p')

-- `INSERT INTO deposits ..`; `tx_hash` is UNIQUE.
unfoldable pub insert_deposit : Schedule Payments → ℕ → DepositRow → Action Payments (Unit {0})
insert_deposit sched k d = do
  fresh ←
      statement sched k λ p.
        if exists d.tx_hash p then (false, p) else (true, record p { deposits = d ∷ p.deposits })
  if fresh then pure tt else raise ApiError.internal_error

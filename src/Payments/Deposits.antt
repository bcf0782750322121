-- ===== src/Payments/Deposits.antt =====
-- The deposits on chains: `DepositHandler` of sonotxt-api/src/services/payments/assethub.rs,
-- `PenumbraDepositHandler` of payments/penumbra.rs, and the deposits that users record themselves.
-- The boxed errors of the handlers are `internal_error`.
use sonotxt_rust.Base.{
  ℕ, Bool, true, false, ◌&&◌, String, Option, none, some, ◌==◌, if◌then◌else◌, find,
}
use sonotxt_rust.Base.Int.{ℤ, pos_part}
use sonotxt_rust.Base.Text.{Text}
use sonotxt_rust.Base.Errors.{ApiError}
use sonotxt_rust.Base.Action.{
  Action, Schedule, statement, pure, raise_if, or_raise, map_err, unwrap_or, ◌>>=◌, ◌>>◌,
}
use sonotxt_rust.Payments.{
  Payments, Chain, assethub, penumbra, stripe, pending, confirmed, AddressRow, exists, to_internal,
  credit_deposit, insert_deposit,
}

-- The assets of the crate hwpay.
pub data Asset : Type 0 where
  usdc : Asset
  usdt : Asset
  dot : Asset
  zec : Asset

-- A deposit that hwpay reports; `user_id` is none if it is no UUID.
pub record Deposit : Type 0 where
  pub user_id : Option ℕ
  pub derivation_index : ℕ
  pub tx_hash : Text
  pub asset : Asset
  pub amount : ℤ

-- The sweep asked of hwpay, whose result is only logged.
pub record Sweep : Type 0 where
  pub asset_id : ℕ
  pub amount_raw : ℕ
  pub destination : Text

-- The configuration of the sweep, as `with_sweep` takes it.
pub record SweepTo : Type 0 where
  pub sweep_destination : Text
  pub usdc_asset_id : ℕ
  pub usdt_asset_id : ℕ

abbrev pub asset_id : SweepTo → Asset → Option ℕ
asset_id to usdc = some to.usdc_asset_id
asset_id to usdt = some to.usdt_asset_id
asset_id to dot = none
asset_id to zec = none

abbrev pub sweep_of : Option SweepTo → Deposit → Option Sweep
sweep_of none d = none
sweep_of (some to) d = elim (asset_id to d.asset) [
  | none ↦ none
  | some a ↦
      some (record {
        asset_id = a;
        amount_raw = pos_part d.amount;
        destination = to.sweep_destination;
      })
]

abbrev pub is_penumbra : Chain → Bool
is_penumbra penumbra = true
is_penumbra assethub = false
is_penumbra stripe = false

abbrev pub has_index : ℕ → AddressRow → Bool
has_index index r =
    is_penumbra r.chain && (elim r.penumbra_index [ none ↦ false | some i ↦ i == index ])

module _ (db_error : String) (sched : Schedule Payments) where
  -- What both handlers do with an account, and whether the deposit was new: `id` is its id.
  unfoldable pub record_and_credit :
      (id account_id : ℕ) (chain : Chain) (d : Deposit) → Action Payments Bool
  record_and_credit id account_id chain d = do
    known ← statement sched 0 λ p. (exists d.tx_hash p, p)
    if known then pure false else (do
      insert_deposit sched 1 (record {
        id = id;
        account_id = account_id;
        chain = chain;
        tx_hash = d.tx_hash;
        amount = d.amount;
        status = confirmed;
      })
      credit_deposit db_error sched id account_id d.amount
      pure true)

  -- `DepositHandler::on_deposit`, with the sweep that a new deposit asks for.
  unfoldable pub on_assethub_deposit :
      (to : Option SweepTo) (id : ℕ) (d : Deposit) → Action Payments (Option Sweep)
  on_assethub_deposit to id d = do
    account_id ← or_raise d.user_id ApiError.internal_error
    new ← record_and_credit id account_id assethub d
    pure (if new then sweep_of to d else none)

  -- `PenumbraDepositHandler::on_deposit`; the lookup of the account is number 7.
  unfoldable pub on_penumbra_deposit : (id : ℕ) (d : Deposit) → Action Payments (Unit {0})
  on_penumbra_deposit id d = do
    row ← statement sched 7 λ p. (find (has_index d.derivation_index) p.addresses, p)
    elim row [
      | none ↦ pure tt
      | some r ↦ (do new ← record_and_credit id r.account_id penumbra d; pure tt)
    ]

  -- `record_deposit` of the two services, for the chain of each.
  unfoldable pub record_deposit :
      (chain : Chain) (id account_id : ℕ) (tx_hash : Text) (amount : ℤ) → Action Payments ℕ
  record_deposit chain id account_id tx_hash amount = do
    known ← unwrap_or (statement sched 0 λ p. (exists tx_hash p, p)) false
    raise_if known (ApiError.invalid_request "deposit already recorded")
    map_err
        (insert_deposit sched 1 (record {
          id = id;
          account_id = account_id;
          chain = chain;
          tx_hash = tx_hash;
          amount = amount;
          status = pending;
        }))
        (to_internal db_error sched)
    pure id

  -- The handler of routes/payments.rs, for a user who is logged in.
  unfoldable pub record_penumbra_deposit :
      (id account_id : ℕ) (tx_hash : Text) (amount : ℤ) → Action Payments ℕ
  unfolding record_deposit
  record_penumbra_deposit id account_id tx_hash amount =
      record_deposit penumbra id account_id tx_hash amount

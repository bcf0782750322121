-- ===== src/Billing.antt =====
-- sonotxt-api/src/services/billing.rs and the payment channels of services/sono.rs that it draws
-- on. A user and an EVM address are numbers. `users.txt_balance` is an i64, a channel's amounts
-- are U256, whose `+` wraps. What resolves a wallet address, `ss58_to_h160`, is a parameter.
pub mod Channel
pub mod Parts
pub mod Linked
pub mod Charge
pub mod Races
pub mod Interleavings
pub mod Credit
pub mod Withdraw
mod Tests
use sonotxt_rust.Base.{
  ℕ, ◌-◌, ◌^◌, min, Bool, true, false, ◌&&◌, ◌||◌, String, Option, none, some, List, [], ◌∷◌, leb,
  if◌then◌else◌,
}
use sonotxt_rust.Base.Int.{ℤ, pos, negsuc, ◌+ℤ◌, ◌-ℤ◌, ltb_ℤ, leb_ℤ}
use sonotxt_rust.Base.Errors.{ApiError, Result, ok, err}
use sonotxt_rust.Base.Assoc.{Assoc, lookup, insert}
use sonotxt_rust.Base.Action.{
  Action, pure, raise, or_raise, ◌>>=◌, ◌>>◌, raise_if, Schedule, statement, locked,
}
use Channel.{ChannelState, remaining, charge}

-- A row of `transactions`, in raw units.
pub record Transaction : Type 0 where
  pub account : ℕ
  pub amount : ℤ

pub record Ledger : Type 0 where
  pub balances : Assoc ℤ
  pub channels : Assoc ChannelState
  pub transactions : List Transaction

pub record ChargeResult : Type 0 where
  pub from_custodial : ℤ
  pub from_channel : ℤ

-- `SELECT txt_balance FROM users WHERE id = $1`, 0 if there is no such user
abbrev pub balance : ℕ → Ledger → ℤ
balance user w = elim (lookup user w.balances) [ none ↦ pos 0 | some b ↦ b ]

-- `n as u128` of an i64
abbrev pub as_u128 : ℤ → ℕ
as_u128 (pos n) = n
as_u128 (negsuc n) = 2 ^ 128 - 1 - n

-- `UPDATE users SET txt_balance = txt_balance - cost WHERE id = user AND txt_balance >= cost`,
-- and whether a row was affected
unfoldable pub deduct : ℕ → ℤ → Ledger → Bool × Ledger
deduct user cost w = elim (lookup user w.balances) [
  | none ↦ (false, w)
  | some b ↦
      if leb_ℤ cost b
      then (true, record w { balances = insert user (b -ℤ cost) w.balances })
      else (false, w)
]

-- `UPDATE users SET txt_balance = 0 WHERE id = user`
unfoldable pub drain : ℕ → Ledger → Unit {0} × Ledger
drain user w = elim (lookup user w.balances) [
  | none ↦ (tt, w)
  | some b ↦ (tt, record w { balances = insert user (pos 0) w.balances })
]

-- The EVM address of a user's wallet, if there is one and it is valid
abbrev pub address : (String → Option ℕ) → Option String → Option ℕ
address ss58_to_h160 none = none
address ss58_to_h160 (some wallet) = ss58_to_h160 wallet

-- `remaining.try_into().unwrap_or(i64::MAX)`
abbrev pub channel_rest : Option ℕ → Assoc ChannelState → ℕ
channel_rest none channels = 0
channel_rest (some evm) channels = min (remaining evm channels) (2 ^ 63 - 1)

module _ (sched : Schedule Ledger) where
  -- `sono.charge(..).await.map_err(|_| InsufficientBalance)?`
  unfoldable pub charge_channel : ℕ → ℕ → ℕ → Action Ledger (Unit {0})
  charge_channel k evm amount = locked sched k λ w. elim (charge evm amount w.channels) [
    | none ↦ (err ApiError.insufficient_balance, w)
    | some (new_spent, channels) ↦ (ok tt, record w { channels = channels })
  ]

  -- The part of `check_and_charge` with a channel: `custodial` is what the first statement read.
  unfoldable pub charge_linked : ℕ → ℕ → ℤ → ℤ → Action Ledger ChargeResult
  charge_linked user evm cost custodial = do
    left ← locked sched 2 (λ w. (ok (remaining evm w.channels), w))
    let rest = cost -ℤ custodial
    if ltb_ℤ (pos 0) custodial && leb (as_u128 rest) left
        then (do
          statement sched 3 (drain user)
          charge_channel 4 evm (as_u128 rest)
          pure (record { from_custodial = custodial; from_channel = rest }))
        else (if leb (as_u128 cost) left
            then (do
              charge_channel 5 evm (as_u128 cost)
              pure (record { from_custodial = pos 0; from_channel = cost }))
            else raise ApiError.insufficient_balance)

  -- `if let (Some(sono), Some(wallet_addr)) = (sono, wallet_address)`; `sono` says whether
  -- channels are configured.
  unfoldable pub charge_wallet :
      (String → Option ℕ) → Bool → ℕ → Option String → ℤ → ℤ → Action Ledger ChargeResult
  charge_wallet ss58_to_h160 sono user none cost custodial = raise ApiError.insufficient_balance
  charge_wallet ss58_to_h160 sono user (some wallet) cost custodial =
      if sono
      then (do
        evm ← or_raise (ss58_to_h160 wallet) ApiError.insufficient_balance
        charge_linked user evm cost custodial)
      else raise ApiError.insufficient_balance

  unfoldable pub check_and_charge :
      (String → Option ℕ) → Bool → ℕ → Option String → ℤ → Action Ledger ChargeResult
  check_and_charge ss58_to_h160 sono user wallet cost =
      if leb_ℤ cost (pos 0)
      then pure (record { from_custodial = pos 0; from_channel = pos 0 })
      else (do
        custodial ← statement sched 0 (λ w. (balance user w, w))
        paid ← (if leb_ℤ cost custodial then statement sched 1 (deduct user cost) else pure false)
        if paid
            then pure (record { from_custodial = cost; from_channel = pos 0 })
            else charge_wallet ss58_to_h160 sono user wallet cost custodial)

  -- `credit_txt`: one transaction, which is committed as a whole or not at all. The statements
  -- are numbers 6 to 8; nobody sees the state between them.
  unfoldable pub credit_txt : ℕ → ℤ → Action Ledger ℤ
  credit_txt user amount w =
      let w' = sched.others 6 w in
      elim (lookup user w'.balances) [
        | none ↦ (err ApiError.internal_error, w')
        | some b ↦
            if sched.fails 6 || (sched.fails 7 || sched.fails 8)
            then (err ApiError.internal_error, w')
            else (
              ok (b +ℤ amount),
              record w' {
                balances = insert user (b +ℤ amount) w'.balances;
                transactions = record { account = user; amount = amount } ∷ w'.transactions;
              },
            )
      ]

  -- `total_balance`: the custodial balance, and the channel's rest as an i64, cut to `i64::MAX`
  unfoldable pub total_balance :
      (String → Option ℕ) → Bool → ℕ → Option String → Action Ledger (ℤ × ℤ)
  total_balance ss58_to_h160 sono user wallet = do
    custodial ← statement sched 0 (λ w. (balance user w, w))
    channel ← locked sched 1 (λ w.
        (ok (pos (if sono then channel_rest (address ss58_to_h160 wallet) w.channels else 0)), w))
    pure (custodial, channel)

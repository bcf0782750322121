-- ===== src/Billing/Withdraw.antt =====
-- sonotxt-api/src/routes/billing.rs, `withdraw_txt`: custodial TXT to a wallet on chain, which
-- `drip_testnet` of services/sono.rs sends. The text of its error is a parameter.
pub mod Ended
use sonotxt_rust.Base.{
  ℕ, ◌≡◌, ◌≢◌, ◌⊎◌, refl, Bool, true, false, String, Option, none, some, List, ◌∷◌, arith, inl, inr,
  ltb, Option-cases, Bool-cases, if◌then◌else◌,
}
use sonotxt_rust.Base.Int.{ℤ, pos, ◌+ℤ◌, ◌-ℤ◌, ◌≤ℤ◌, leb_ℤ, sub_add}
use sonotxt_rust.Base.Errors.{ApiError, Result, ok, err}
use sonotxt_rust.Base.Assoc.{lookup, insert, lookup-insert, lookup-insert_self, lookup-insert_ne}
use sonotxt_rust.Base.Action.{
  Action, Schedule, quiet, pure, raise, or_raise, raise_if, statement, ◌>>=◌, ◌>>◌,
}
use sonotxt_rust.Billing.{Ledger, balance, as_u128}
use sonotxt_rust.Sono.{Transfer, txt, Fate, not_sent, no_receipt, receipt, transfer, drip_testnet}

pub record WithdrawResponse : Type 0 where
  pub amount : ℤ
  pub new_balance : ℤ

-- The ledger, and the transactions that were sent.
pub record Funds : Type 0 where
  pub ledger : Ledger
  pub sent : List Transfer

-- `UPDATE users SET txt_balance = txt_balance - amount WHERE id = user AND txt_balance >= amount
-- RETURNING txt_balance`
unfoldable pub deduct_returning : ℕ → ℤ → Ledger → Option ℤ × Ledger
deduct_returning user amount w = elim (lookup user w.balances) [
  | none ↦ (none, w)
  | some b ↦
      if leb_ℤ amount b
      then (some (b -ℤ amount), record w { balances = insert user (b -ℤ amount) w.balances })
      else (none, w)
]

-- `UPDATE users SET txt_balance = txt_balance + amount WHERE id = user`
unfoldable pub refund : ℕ → ℤ → Ledger → Unit {0} × Ledger
refund user amount w = elim (lookup user w.balances) [
  | none ↦ (tt, w)
  | some b ↦ (tt, record w { balances = insert user (b +ℤ amount) w.balances })
]

-- A statement on the ledger.
abbrev on_ledger : {A : Type 0} → (Ledger → A × Ledger) → Funds → A × Funds
on_ledger f w = ((f w.ledger).0, record w { ledger = (f w.ledger).1 })

-- `let _ = statement`: the error is dropped.
ignore : Action Funds (Unit {0}) → Action Funds (Unit {0})
ignore m w = (ok tt, (m w).1)

module _ (ss58_to_h160 : String → Option ℕ) (fate : Transfer → Fate) (failure : String)
    (sched : Schedule Funds) where
  -- Whether the drip fails, which is a value here.
  unfoldable pub drip : ℕ → ℤ → Funds → Result ApiError (Result ApiError (Unit {0})) × Funds
  unfolding drip_testnet
  drip evm amount w =
      let (r, sent) = drip_testnet fate evm 0 (as_u128 amount) w.sent in
      (ok r, record w { sent = sent })

  -- After the deduction: send, and on failure give the amount back.
  unfoldable pub send_or_refund : ℕ → ℕ → ℤ → ℤ → Action Funds WithdrawResponse
  unfolding drip ignore
  send_or_refund user evm amount new_balance = do
    result ← drip evm amount
    elim result [
      | ok _ ↦ pure (record { amount = amount; new_balance = new_balance })
      | err e ↦ (do
        ignore (statement sched 1 (on_ledger (refund user amount)))
        raise (ApiError.internal failure))
    ]

  unfoldable pub withdraw_txt : Bool → ℕ → ℤ → String → Action Funds WithdrawResponse
  withdraw_txt sono user amount wallet_address = do
    raise_if (leb_ℤ amount (pos 0)) (ApiError.invalid_request "amount must be positive")
    raise_if (if sono then false else true) (ApiError.invalid_request "withdrawals not available")
    evm ← or_raise (ss58_to_h160 wallet_address) (ApiError.invalid_request "invalid wallet address")
    deducted ← statement sched 0 (on_ledger (deduct_returning user amount))
    new_balance ← or_raise deducted ApiError.insufficient_balance
    send_or_refund user evm amount new_balance

-- The transfer that a withdrawal asks for.
abbrev pub asked : ℕ → ℤ → Transfer
asked evm amount = txt evm (as_u128 amount)

module _ (ss58_to_h160 : String → Option ℕ) (fate : Transfer → Fate) (sono : Bool) (user : ℕ)
    (amount : ℤ) (wallet : String) (w : Funds) where
  -- Why a withdrawal fails, and what was sent then: the last is a transfer without a receipt.
  abbrev pub Failed : List Transfer → Type 0
  Failed sent =
      ((sent ≡ w.sent)
        × ((amount ≤ℤ pos 0)
            ⊎ ((sono ≡ false)
                ⊎ ((ss58_to_h160 wallet ≡ none)
                    ⊎ ((balance user w.ledger +ℤ pos 1 ≤ℤ amount)
                        ⊎ ((evm : ℕ) × (ss58_to_h160 wallet ≡ some evm)
                            × (fate (asked evm amount) ≡ not_sent)))))))
      ⊎ ((evm : ℕ) × (ss58_to_h160 wallet ≡ some evm)
          × (fate (asked evm amount) ≡ no_receipt)
          × (sent ≡ asked evm amount ∷ w.sent))

  -- How a withdrawal that began at `w` ended: the amount is gone from the balance and its transfer
  -- was sent and has a receipt, or every balance is what it was, for a reason.
  abbrev pub Withdrawn : Result ApiError WithdrawResponse × Funds → Type 0
  Withdrawn (ok r, w') =
      (pos 1 ≤ℤ amount)
      × (amount ≤ℤ balance user w.ledger)
      × (r.amount ≡ amount)
      × (r.new_balance +ℤ amount ≡ balance user w.ledger)
      × (balance user w'.ledger ≡ r.new_balance)
      × ((u : ℕ) → user ≢ u → lookup u w'.ledger.balances ≡ lookup u w.ledger.balances)
      × ((evm : ℕ) × (reverted : Bool) × (ss58_to_h160 wallet ≡ some evm)
          × (fate (asked evm amount) ≡ receipt reverted)
          × (w'.sent ≡ asked evm amount ∷ w.sent))
  Withdrawn (err e, w') =
      ((u : ℕ) → lookup u w'.ledger.balances ≡ lookup u w.ledger.balances) × Failed w'.sent

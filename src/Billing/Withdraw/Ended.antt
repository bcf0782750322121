-- ===== src/Billing/Withdraw/Ended.antt =====
-- How a withdrawal ends, on each of its ways.
use sonotxt_rust.Base.{
  ℕ, ◌≡◌, refl, Bool, true, false, String, Option, some, ◌∷◌, arith, inl, inr, ltb, Option-cases,
  Bool-cases,
}
use sonotxt_rust.Base.Int.{ℤ, pos, ◌+ℤ◌, ◌-ℤ◌, ◌≤ℤ◌, leb_ℤ, sub_add}
use sonotxt_rust.Base.Errors.{ApiError, Result, ok, err}
use sonotxt_rust.Base.Assoc.{lookup, insert, lookup-insert, lookup-insert_self, lookup-insert_ne}
use sonotxt_rust.Base.Action.{quiet, ◌>>=◌}
use sonotxt_rust.Billing.{Ledger, balance, as_u128}
use sonotxt_rust.Sono.{Transfer, Fate, not_sent, no_receipt, receipt, transfer, drip_testnet}
use sonotxt_rust.Billing.Withdraw.{
  WithdrawResponse, Funds, deduct_returning, refund, drip, send_or_refund, withdraw_txt, asked,
  Failed, Withdrawn,
}

-- Taking an amount and giving it back leaves every balance as it was.
refund-deducted :
    (user : ℕ) (amount b : ℤ) (w : Ledger) (u : ℕ)
    → lookup user w.balances ≡ some b
    → lookup u
        (refund user amount
          (record w { balances = insert user (b -ℤ amount) w.balances })).1.balances
      ≡ lookup u w.balances
unfolding refund
refund-deducted user amount b w u has =
    let taken = insert user (b -ℤ amount) w.balances in
    ground (
      arith,
      lookup-insert_self user (b -ℤ amount) w.balances,
      lookup-insert user u (b -ℤ amount) w.balances,
      lookup-insert user u (b -ℤ amount +ℤ amount) taken,
      sub_add b amount,
    )

module _ (ss58_to_h160 : String → Option ℕ) (fate : Transfer → Fate) (failure : String)
    (sono : Bool) (user evm : ℕ) (amount b : ℤ) (wallet : String) (w : Funds)
    (one : pos 1 ≤ℤ amount) where
  abbrev taken : Funds
  taken = record w {
    ledger = record w.ledger { balances = insert user (b -ℤ amount) w.ledger.balances };
  }

  abbrev sent_outcome : Result ApiError WithdrawResponse × Funds
  sent_outcome = send_or_refund ss58_to_h160 fate failure quiet user evm amount (b -ℤ amount) taken

  abbrev given_back : Ledger
  given_back = (refund user amount taken.ledger).1

  some_amount : ltb 0 (as_u128 amount) ≡ true
  some_amount = ground arith

  sent_ok :
      (reverted : Bool)
      → fate (asked evm amount) ≡ receipt reverted
      → sent_outcome ≡ (
        ok (record { amount = amount; new_balance = b -ℤ amount }),
        record taken { sent = asked evm amount ∷ w.sent },
      )
  unfolding send_or_refund drip drip_testnet transfer ◌>>=◌
  sent_ok reverted e = ground (arith, some_amount)

  sent_no_receipt :
      fate (asked evm amount) ≡ no_receipt
      → sent_outcome ≡ (
        err (ApiError.internal failure),
        record { ledger = given_back; sent = asked evm amount ∷ w.sent },
      )
  unfolding send_or_refund drip drip_testnet transfer ◌>>=◌
  sent_no_receipt e = ground (arith, some_amount)

  sent_not :
      fate (asked evm amount) ≡ not_sent
      → sent_outcome
        ≡ (err (ApiError.internal failure), record { ledger = given_back; sent = w.sent })
  unfolding send_or_refund drip drip_testnet transfer ◌>>=◌
  sent_not e = ground (arith, some_amount)

  send_or_refund-Withdrawn :
      amount ≤ℤ b
      → lookup user w.ledger.balances ≡ some b
      → ss58_to_h160 wallet ≡ some evm
      → (f : Fate) → fate (asked evm amount) ≡ f
      → Withdrawn ss58_to_h160 fate sono user amount wallet w sent_outcome
  send_or_refund-Withdrawn enough has resolved (receipt reverted) e = rw (sent_ok reverted e) (
    one,
    ground arith,
    refl,
    ground (arith, sub_add b amount),
    ground (arith, lookup-insert_self user (b -ℤ amount) w.ledger.balances),
    (λ u ne. lookup-insert_ne user u (b -ℤ amount) w.ledger.balances ne),
    (evm, reverted, resolved, e, refl),
  )
  send_or_refund-Withdrawn enough has resolved no_receipt e =
      rw (sent_no_receipt e)
        ((λ u. refund-deducted user amount b w.ledger u has), inr (evm, resolved, e, refl))
  send_or_refund-Withdrawn enough has resolved not_sent e = rw (sent_not e) (
    (λ u. refund-deducted user amount b w.ledger u has),
    inl (refl, inr (inr (inr (inr (evm, resolved, e))))),
  )

module _ (ss58_to_h160 : String → Option ℕ) (fate : Transfer → Fate) (failure : String)
    (sono : Bool) (user : ℕ) (amount : ℤ) (wallet : String) (w : Funds) where
  abbrev outcome : Result ApiError WithdrawResponse × Funds
  outcome = withdraw_txt ss58_to_h160 fate failure quiet sono user amount wallet w

  abbrev IsShort : Type 0
  IsShort = balance user w.ledger +ℤ pos 1 ≤ℤ amount

  refused :
      (e : ApiError)
      → outcome ≡ (err e, w)
      → Failed ss58_to_h160 fate sono user amount wallet w w.sent
      → Withdrawn ss58_to_h160 fate sono user amount wallet w outcome
  refused e eq why = rw eq ((λ u. refl), why)

  uncovered : (held : ℤ) → balance user w.ledger ≡ held → leb_ℤ amount held ≡ false → IsShort
  unfolding ◌+ℤ◌
  uncovered held e f = rw e (ground arith)

  deducted :
      (evm : ℕ) (b : ℤ)
      → pos 1 ≤ℤ amount
      → sono ≡ true
      → ss58_to_h160 wallet ≡ some evm
      → lookup user w.ledger.balances ≡ some b
      → amount ≤ℤ b
      → outcome
        ≡ send_or_refund ss58_to_h160 fate failure quiet user evm amount (b -ℤ amount) (record w {
          ledger = record w.ledger { balances = insert user (b -ℤ amount) w.ledger.balances };
        })
  unfolding withdraw_txt deduct_returning ◌>>=◌
  deducted evm b one on resolved has enough = ground arith

  -- With nobody interfering, the database answering and the RPC address of the configuration well
  -- formed, a withdrawal either takes the amount from the balance, once its transfer was sent and
  -- has a receipt, reverted or not; or it fails and every balance is what it was. It fails only if
  -- it is not allowed or not covered, and then nothing was sent, or if the transfer could not be
  -- sent, or if it was sent and the receipt was not had.
  pub withdraw_txt-Withdrawn : Withdrawn ss58_to_h160 fate sono user amount wallet w outcome
  unfolding withdraw_txt deduct_returning ◌>>=◌
  withdraw_txt-Withdrawn = elim (Bool-cases (leb_ℤ amount (pos 0))) [
    | inl t ↦
        refused (ApiError.invalid_request "amount must be positive") (ground arith)
          (inl (refl, inl (ground arith)))
    | inr t ↦ elim (Bool-cases sono) [
      | inr off ↦
          refused (ApiError.invalid_request "withdrawals not available") (ground arith)
            (inl (refl, inr (inl off)))
      | inl on ↦ elim (Option-cases (ss58_to_h160 wallet)) [
        | inl e ↦
            refused (ApiError.invalid_request "invalid wallet address") (ground arith)
              (inl (refl, inr (inr (inl e))))
        | inr (evm, e) ↦ elim (Option-cases (lookup user w.ledger.balances)) [
          | inl h ↦
              refused ApiError.insufficient_balance (ground arith) (
                inl (refl, inr (inr (inr (inl (uncovered (pos 0) (ground arith) (ground arith)))))))
          | inr (b, h) ↦ elim (Bool-cases (leb_ℤ amount b)) [
            | inr few ↦
                refused ApiError.insufficient_balance (ground arith)
                  (inl (refl, inr (inr (inr (inl (uncovered b (ground arith) few))))))
            | inl enough ↦ rw (deducted evm b (ground arith) on e h (ground arith)) (
                send_or_refund-Withdrawn ss58_to_h160 fate failure sono user evm amount b wallet w
                  (ground arith) (ground arith) h e _ refl)
          ]
        ]
      ]
    ]
  ]

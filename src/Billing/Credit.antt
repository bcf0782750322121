-- ===== src/Billing/Credit.antt =====
-- `credit_txt` and `total_balance`: what a credit adds, and what the total promises.
use sonotxt_rust.Base.{
  ℕ, ◌≤◌, ◌≡◌, ◌≢◌, refl, true, String, Option, none, some, ◌∷◌, arith, inl, inr, Option-cases,
  Bool-cases, ◌||◌,
}
use sonotxt_rust.Base.Int.{ℤ, pos, ◌+ℤ◌, ◌≤ℤ◌, int_laws}
use sonotxt_rust.Base.Errors.{ApiError, Result, ok, err}
use sonotxt_rust.Base.Assoc.{lookup, lookup-insert_self, lookup-insert_ne}
use sonotxt_rust.Base.Action.{Schedule, quiet, ◌>>=◌}
use sonotxt_rust.Billing.{
  Ledger, ChargeResult, balance, address, channel_rest, credit_txt, total_balance, check_and_charge,
}
use sonotxt_rust.Billing.Parts.{Fits, Charged, left}
use sonotxt_rust.Billing.Charge.{check_and_charge-Charged}

-- How a credit that found the ledger `w` ended: it gave the new balance, which is the old one and
-- the amount, with one row for it in the log; or it failed and changed nothing.
abbrev pub Credited : ℕ → ℤ → Ledger → Result ApiError ℤ × Ledger → Type 0
Credited user amount w (ok new_balance, w') =
    (new_balance ≡ balance user w +ℤ amount)
    × (lookup user w'.balances ≡ some new_balance)
    × ((u : ℕ) → user ≢ u → lookup u w'.balances ≡ lookup u w.balances)
    × (w'.transactions ≡ record { account = user; amount = amount } ∷ w.transactions)
    × (w'.channels ≡ w.channels)
Credited user amount w (err e, w') = (e ≡ ApiError.internal_error) × (w' ≡ w)

-- Under every schedule a credit is made in full, balance and log, or not at all; for a user that
-- is not there it fails.
pub credit_txt-Credited :
    (sched : Schedule Ledger) (user : ℕ) (amount : ℤ) (w : Ledger)
    → Credited user amount (sched.others 6 w) (credit_txt sched user amount w)
      × (lookup user (sched.others 6 w).balances ≡ none
          → credit_txt sched user amount w ≡ (err ApiError.internal_error, sched.others 6 w))
unfolding credit_txt
credit_txt-Credited sched user amount w =
    elim (Option-cases (lookup user (sched.others 6 w).balances)) [
      | inl e ↦ rw (e, credit_txt) ((refl, refl), λ _. refl)
      | inr (b, e) ↦ elim (Bool-cases (sched.fails 6 || (sched.fails 7 || sched.fails 8))) [
        | inl f ↦ rw (e, credit_txt, f) ((refl, refl), λ p. cc)
        | inr f ↦
            let v = sched.others 6 w in
            rw (e, credit_txt, f)
              (
                (
                  ground arith,
                  lookup-insert_self user (b +ℤ amount) v.balances,
                  (λ u ne. lookup-insert_ne user u (b +ℤ amount) v.balances ne),
                  refl,
                  refl,
                ),
                λ p. cc,
              )
      ]
    ]

-- A result that is charged or refused is charged if the cost is covered.
covered_then_ok :
    (user : ℕ) (addr : Option ℕ) (cost : ℤ) (w : Ledger)
    (out : Result ApiError ChargeResult × Ledger)
    → Charged user addr cost w out
    → pos 1 ≤ℤ balance user w
    → cost ≤ℤ balance user w +ℤ pos (left addr w)
    → (r : ChargeResult) × (w' : Ledger) × (out ≡ (ok r, w'))
covered_then_ok user addr cost w (ok r, w') h some_there covered = (r, w', refl)
covered_then_ok user addr cost w (err e, w') h some_there covered = absurd (h.4 some_there covered)

channel_rest-le : (addr : Option ℕ) (w : Ledger) → channel_rest addr w.channels ≤ left addr w
channel_rest-le none w = omega arith
channel_rest-le (some evm) w = omega arith

-- With nobody interfering, the database answering, channels configured and deposits that are U256
-- values, what total_balance shows can be spent: with a positive custodial part, a positive cost
-- within the sum of the two parts is charged.
pub total_balance_spendable :
    (ss58_to_h160 : String → Option ℕ) (user c : ℕ) (wallet : Option String) (w : Ledger)
    (custodial channel : ℤ)
    → Fits w.channels
    → total_balance quiet ss58_to_h160 true user wallet w ≡ (ok (custodial, channel), w)
    → pos 1 ≤ℤ custodial
    → 1 ≤ c
    → pos c ≤ℤ custodial +ℤ channel
    → (r : ChargeResult) × (w' : Ledger) × (check_and_charge quiet ss58_to_h160 true user wallet
          (pos c)
          w
        ≡ (ok r, w'))
unfolding total_balance ◌>>=◌
total_balance_spendable ss58_to_h160 user c wallet w custodial channel fits shown some_there one
      covered =
    let bal : balance user w ≡ custodial = cc in
    let rest : pos (channel_rest (address ss58_to_h160 wallet) w.channels) ≡ channel = cc in
    covered_then_ok user (address ss58_to_h160 wallet) (pos c) w _
      (check_and_charge-Charged ss58_to_h160 true user c wallet w fits one) (rw bal some_there)
      (rw bal
        (omega (int_laws, rw (← rest) at covered, channel_rest-le (address ss58_to_h160 wallet) w)))

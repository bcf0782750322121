-- ===== src/Payments/Tests.antt =====
-- Runs of the payments: account 1 has a balance of 30 and one address, account 2 neither.
use sonotxt_rust.Base.{
  ℕ, ◌+◌, ◌≡◌, ◌≢◌, refl, Option, none, some, [], ◌∷◌, String, arith, ◌==◌, length, filter,
}
use sonotxt_rust.Base.Int.{ℤ, pos, ◌+ℤ◌}
use sonotxt_rust.Base.Text.{Text, codes}
use sonotxt_rust.Base.Errors.{ApiError, Result, ok, err}
use sonotxt_rust.Base.Assoc.{lookup}
use sonotxt_rust.Base.Action.{Schedule, quiet, ◌>>=◌}
use sonotxt_rust.Billing.{Ledger, credit_txt}
use sonotxt_rust.Payments.{Payments, AddressRow, assethub, credit, credit_deposit, insert_deposit}
use sonotxt_rust.Payments.Deposits.{SweepTo, Deposit, usdc, on_assethub_deposit, record_and_credit}
use sonotxt_rust.Payments.Checkout.{Session, str, missing, amount_of}
use sonotxt_rust.Payments.Addresses.{
  of_account, is_current, new_row, get_deposit_address, rotate_address, max_index, next_index,
}
use sonotxt_rust.Payments.Once.{row_of, with_row, deposit_once}
use sonotxt_rust.Payments.Rotated.{rotate-current}

abbrev address : AddressRow
address = new_row 1 (codes "5A") 0

abbrev no_ledger : Ledger
no_ledger = record { balances = []; channels = []; transactions = [] }

abbrev start : Payments
start = record {
  deposits = [];
  credits = (1, pos 30) ∷ [];
  purchases = [];
  addresses = address ∷ [];
  ledger = no_ledger;
}

abbrev sweep_to : SweepTo
sweep_to = record { sweep_destination = codes "5B"; usdc_asset_id = 1337; usdt_asset_id = 1984 }

abbrev deposit : Deposit
deposit = record {
  user_id = some 1;
  derivation_index = 0;
  tx_hash = codes "0xa";
  asset = usdc;
  amount = pos 12;
}

known_account : lookup 1 start.credits ≡ some (pos 30)
unfolding lookup
known_account = refl

reported : on_assethub_deposit "" quiet (some sweep_to) 9 deposit start ≡ (
  ok (some (record { asset_id = 1337; amount_raw = 12; destination = codes "5B" })),
  credit 9 1 (pos 12) (with_row (row_of 9 1 assethub deposit) start),
)
unfolding on_assethub_deposit record_and_credit insert_deposit credit_deposit ◌>>=◌
reported = refl

deposit_once_example :
    (lookup 1 (credit 9 1 (pos 12) (with_row (row_of 9 1 assethub deposit) start)).credits
      ≡ some (pos 30 +ℤ pos 12))
    × ((other : ℕ)
        → 1 ≢ other
        → lookup other (credit 9 1 (pos 12) (with_row (row_of 9 1 assethub deposit) start)).credits
          ≡ lookup other start.credits)
    × ((dest' : Option SweepTo) (id' account' : ℕ) (d' : Deposit)
        → d'.user_id ≡ some account'
        → d'.tx_hash ≡ deposit.tx_hash
        → on_assethub_deposit "" quiet dest' id' d'
            (credit 9 1 (pos 12) (with_row (row_of 9 1 assethub deposit) start))
          ≡ (ok none, credit 9 1 (pos 12) (with_row (row_of 9 1 assethub deposit) start)))
deposit_once_example =
    deposit_once "" (some sweep_to) 9 1 deposit start
      (credit 9 1 (pos 12) (with_row (row_of 9 1 assethub deposit) start))
      (some (record { asset_id = 1337; amount_raw = 12; destination = codes "5B" })) (pos 30) refl
      refl known_account reported

abbrev one_uuid : Text → Option ℕ
one_uuid t = some 1

abbrev ten_each : ℤ → ℤ
ten_each amount = amount +ℤ amount

abbrev session : Session
session = record {
  account_id = some (codes "u");
  amount_total = some (pos 500);
  payment_intent = str (codes "pi");
  id = missing;
}

-- The user's row cannot be written.
abbrev txt_fails : Schedule Ledger
txt_fails = record { others = λ k w. w; fails = λ k. k == 6 }

no_txt :
    credit_txt txt_fails 1 (ten_each (amount_of session)) no_ledger
    ≡ (err ApiError.internal_error, no_ledger)
unfolding credit_txt lookup
no_txt = refl

abbrev derived : (account index : ℕ) → Result ApiError Text
derived account index = ok (codes "5C")

abbrev limit_message : (n m : ℕ) → String
limit_message n m = "address limit reached"

next_is_one : next_index (max_index 1 start.addresses) ≡ 1
unfolding max_index
next_is_one = refl

rotate-current_example :
    let (r, p') = rotate_address derived limit_message "" 5 quiet 1 start in
    (r ≡ ok (codes "5C"))
    × (length (filter (of_account 1) p'.addresses)
        ≡ length (filter (of_account 1) start.addresses) + 1)
    × (filter (is_current 1) p'.addresses
        ≡ new_row 1 (codes "5C") (next_index (max_index 1 start.addresses)) ∷ [])
    × (get_deposit_address derived limit_message "" 5 quiet 1 p' ≡ (ok (codes "5C"), p'))
rotate-current_example =
    rotate-current derived limit_message "" 5 1 start (codes "5C") (omega arith) refl

-- ===== src/Payments/Lost.antt =====
-- A hash that is in the table counts as credited, whatever put it there.
use sonotxt_rust.Base.{ℕ, ◌≡◌, refl, sym, subst, true, false, String, Option, none, some, arith}
use sonotxt_rust.Base.Int.{ℤ}
use sonotxt_rust.Base.Text.{Text}
use sonotxt_rust.Base.Errors.{ApiError, ok, err}
use sonotxt_rust.Base.Action.{Schedule, quiet, map_err, unwrap_or, ◌>>=◌}
use sonotxt_rust.Billing.{Ledger, credit_txt}
use sonotxt_rust.Payments.{
  Payments, stripe, penumbra, pending, confirmed, DepositRow, exists, insert_deposit,
}
use sonotxt_rust.Payments.Deposits.{
  Deposit, SweepTo, on_assethub_deposit, record_deposit, record_penumbra_deposit,
}
use sonotxt_rust.Payments.Checkout.{Session, payment_id, amount_of, handle_checkout_complete}
use sonotxt_rust.Payments.Once.{with_row, exists-with_row, assethub_known}

module _ (parse_uuid : Text → Option ℕ) (fiat_to_txt : ℤ → ℤ) (db_error : String) where
  module _ (s : Session) (uuid : Text) (account : ℕ) (given : s.account_id ≡ some uuid)
      (parsed : parse_uuid uuid ≡ some account) where
    abbrev stripe_row : ℕ → DepositRow
    stripe_row id = record {
      id = id;
      account_id = account;
      chain = stripe;
      tx_hash = payment_id s;
      amount = amount_of s;
      status = confirmed;
    }

    checkout_known :
        (id : ℕ) (p : Payments)
        → exists (payment_id s) p ≡ true
        → handle_checkout_complete parse_uuid fiat_to_txt db_error quiet quiet id s p ≡ (ok tt, p)
    unfolding handle_checkout_complete unwrap_or ◌>>=◌
    checkout_known id p known = ground arith

    checkout_fails :
        (txt : Schedule Ledger) (id : ℕ) (p : Payments)
        → exists (payment_id s) p ≡ false
        → credit_txt txt account (fiat_to_txt (amount_of s)) p.ledger
          ≡ (err ApiError.internal_error, p.ledger)
        → handle_checkout_complete parse_uuid fiat_to_txt db_error quiet txt id s p
          ≡ (err ApiError.internal_error, with_row (stripe_row id) p)
    unfolding handle_checkout_complete insert_deposit unwrap_or map_err ◌>>=◌
    checkout_fails txt id p new fails = ground arith

    -- If the credit of TXT for a new payment fails and changes nothing, the webhook ends in an
    -- error with the payment in the table and no balance changed; and every later delivery of that
    -- payment, with nobody interfering and the database answering, is acknowledged and changes
    -- nothing.
    pub payment_lost :
        (txt : Schedule Ledger) (id : ℕ) (p : Payments)
        → exists (payment_id s) p ≡ false
        → credit_txt txt account (fiat_to_txt (amount_of s)) p.ledger
          ≡ (err ApiError.internal_error, p.ledger)
        → let (r, p') = handle_checkout_complete parse_uuid fiat_to_txt db_error quiet txt id s p in
          (r ≡ err ApiError.internal_error)
          × (p'.credits ≡ p.credits)
          × (p'.ledger ≡ p.ledger)
          × ((id' : ℕ)
              → handle_checkout_complete parse_uuid fiat_to_txt db_error quiet quiet id' s p'
                ≡ (ok tt, p'))
    payment_lost txt id p new fails = rw (checkout_fails txt id p new fails) (
      refl,
      refl,
      refl,
      λ id'. checkout_known id' (with_row (stripe_row id) p) (exists-with_row (stripe_row id) p),
    )

module _ (db_error : String) where
  claimed :
      (id claimant : ℕ) (tx_hash : Text) (amount : ℤ) (p : Payments)
      → exists tx_hash p ≡ false
      → record_penumbra_deposit db_error quiet id claimant tx_hash amount p ≡ (
        ok id,
        with_row
            (record {
              id = id;
              account_id = claimant;
              chain = penumbra;
              tx_hash = tx_hash;
              amount = amount;
              status = pending;
            })
            p,
      )
  unfolding record_penumbra_deposit record_deposit insert_deposit unwrap_or map_err ◌>>=◌
  claimed id claimant tx_hash amount p new = ground arith

  -- With nobody interfering and the database answering, any user can record any hash that is new;
  -- a deposit on the asset hub with that hash, of whatever amount for whichever account, then
  -- changes nothing, whenever it is reported.
  pub hash_claimed :
      (id claimant : ℕ) (tx_hash : Text) (claim : ℤ) (p : Payments)
      → exists tx_hash p ≡ false
      → let (r, p') = record_penumbra_deposit db_error quiet id claimant tx_hash claim p in
        (r ≡ ok id)
        × ((dest : Option SweepTo) (id' account : ℕ) (d : Deposit)
            → d.user_id ≡ some account
            → d.tx_hash ≡ tx_hash
            → on_assethub_deposit db_error quiet dest id' d p' ≡ (ok none, p'))
  hash_claimed id claimant tx_hash claim p new =
      let row : DepositRow = record {
        id = id;
        account_id = claimant;
        chain = penumbra;
        tx_hash = tx_hash;
        amount = claim;
        status = pending;
      } in
      rw (claimed id claimant tx_hash claim p new) (
        refl,
        λ dest id' account d user same.
            assethub_known db_error dest id' account d (with_row row p) user
              (subst (λ h. exists h (with_row row p) ≡ true) (sym same) (exists-with_row row p)),
      )

-- ===== src/Payments/Once.antt =====
-- Each deposit is credited once, and a hash that is known is passed over.
use sonotxt_rust.Base.{
  ℕ, ◌≡◌, ◌≢◌, refl, ◌∙◌, sym, subst, true, false, String, Option, none, some, List, [], ◌∷◌, arith,
  any, map,
}
use sonotxt_rust.Base.Int.{ℤ, ◌+ℤ◌}
use sonotxt_rust.Base.Text.{Text, eq_text_refl}
use sonotxt_rust.Base.Errors.{ApiError, Result, ok}
use sonotxt_rust.Base.Assoc.{lookup, lookup-insert_self, lookup-insert_ne}
use sonotxt_rust.Base.Action.{quiet, ◌>>=◌}
use sonotxt_rust.Payments.{
  Payments, Chain, assethub, confirmed, DepositRow, has_hash, exists, set_credited, credit,
  credit_deposit, insert_deposit,
}
use sonotxt_rust.Payments.Deposits.{
  Deposit, Sweep, SweepTo, sweep_of, record_and_credit, on_assethub_deposit,
}

-- The row of a new deposit.
abbrev pub row_of : (id account_id : ℕ) → Chain → Deposit → DepositRow
row_of id account_id chain d = record {
  id = id;
  account_id = account_id;
  chain = chain;
  tx_hash = d.tx_hash;
  amount = d.amount;
  status = confirmed;
}

abbrev pub with_row : DepositRow → Payments → Payments
with_row r p = record p { deposits = r ∷ p.deposits }

-- Crediting changes no hash.
pub exists-credit :
    (tx_hash : Text) (id account_id : ℕ) (amount : ℤ) (p : Payments)
    → exists tx_hash (credit id account_id amount p) ≡ exists tx_hash p
unfolding credit
exists-credit tx_hash id account_id amount p = go p.deposits
  where
    go :
        (ds : List DepositRow)
        → any (has_hash tx_hash) (map (set_credited id) ds) ≡ any (has_hash tx_hash) ds
    go [] = refl
    go (d ∷ ds) = ground (arith, go ds)

pub exists-with_row : (r : DepositRow) (p : Payments) → exists r.tx_hash (with_row r p) ≡ true
exists-with_row r p = ground (arith, eq_text_refl r.tx_hash)

module _ (db_error : String) where
  module _ (id account_id : ℕ) (chain : Chain) (d : Deposit) (p : Payments) where
    pub record_new :
        exists d.tx_hash p ≡ false
        → record_and_credit db_error quiet id account_id chain d p
          ≡ (ok true, credit id account_id d.amount (with_row (row_of id account_id chain d) p))
    unfolding record_and_credit insert_deposit credit_deposit ◌>>=◌
    record_new new = ground arith

    pub record_known :
        exists d.tx_hash p ≡ true
        → record_and_credit db_error quiet id account_id chain d p ≡ (ok false, p)
    unfolding record_and_credit ◌>>=◌
    record_known known = ground arith

  pub assethub_known :
      (dest : Option SweepTo) (id account_id : ℕ) (d : Deposit) (p : Payments)
      → d.user_id ≡ some account_id
      → exists d.tx_hash p ≡ true
      → on_assethub_deposit db_error quiet dest id d p ≡ (ok none, p)
  unfolding on_assethub_deposit ◌>>=◌
  assethub_known dest id account_id d p user known =
      ground (arith, record_known id account_id assethub d p known)

  assethub_new :
      (dest : Option SweepTo) (id account_id : ℕ) (d : Deposit) (p : Payments)
      → d.user_id ≡ some account_id
      → exists d.tx_hash p ≡ false
      → on_assethub_deposit db_error quiet dest id d p ≡ (
        ok (sweep_of dest d),
        credit id account_id d.amount (with_row (row_of id account_id assethub d) p),
      )
  unfolding on_assethub_deposit ◌>>=◌
  assethub_new dest id account_id d p user new =
      ground (arith, record_new id account_id assethub d p new)

  -- With nobody interfering and the database answering, a deposit on the asset hub whose hash is
  -- new adds its amount to the balance of its account and to no other; every later report of its
  -- hash for an account changes nothing and asks for no sweep.
  pub deposit_once :
      (dest : Option SweepTo) (id account_id : ℕ) (d : Deposit) (p p' : Payments)
      (sweep : Option Sweep) (b : ℤ)
      → d.user_id ≡ some account_id
      → exists d.tx_hash p ≡ false
      → lookup account_id p.credits ≡ some b
      → on_assethub_deposit db_error quiet dest id d p ≡ (ok sweep, p')
      → (lookup account_id p'.credits ≡ some (b +ℤ d.amount))
        × ((other : ℕ) → account_id ≢ other → lookup other p'.credits ≡ lookup other p.credits)
        × ((dest' : Option SweepTo) (id' account' : ℕ) (d' : Deposit)
            → d'.user_id ≡ some account'
            → d'.tx_hash ≡ d.tx_hash
            → on_assethub_deposit db_error quiet dest' id' d' p' ≡ (ok none, p'))
  unfolding credit
  deposit_once dest id account_id d p p' sweep b user new has done =
      let after : Payments =
        credit id account_id d.amount (with_row (row_of id account_id assethub d) p) in
      let both : ◌≡◌ {A = Result ApiError (Option Sweep) × Payments} (ok sweep, p')
          (ok (sweep_of dest d), after) =
        sym done ∙ assethub_new dest id account_id d p user new in
      let here : p' ≡ after = cc in
      let known : exists d.tx_hash after ≡ true =
        exists-credit d.tx_hash id account_id d.amount
          (with_row (row_of id account_id assethub d) p)
        ∙ exists-with_row (row_of id account_id assethub d) p in
      rw here (
        ground (arith, lookup-insert_self account_id (b +ℤ d.amount) p.credits),
        (λ other ne.
            ground (arith, lookup-insert_ne account_id other (b +ℤ d.amount) p.credits ne)),
        λ dest' id' account' d' user' same.
            assethub_known dest' id' account' d' after user'
              (subst (λ h. exists h after ≡ true) (sym same) known),
      )

-- ===== src/Payments/Addresses.antt =====
-- `AssetHubService` of sonotxt-api/src/services/payments/assethub.rs: the deposit addresses of an
-- account, one of them active. What derives an address from the configured seed and the texts of
-- its errors are parameters.
use sonotxt_rust.Base.{
  ℕ, ◌+◌, ◌-◌, Bool, true, false, ◌&&◌, String, Option, none, some, List, [], ◌∷◌, leb, ◌==◌,
  if◌then◌else◌, max, map, filter, find, any, length,
}
use sonotxt_rust.Base.Text.{Text}
use sonotxt_rust.Base.Errors.{ApiError, Result, ok, err}
use sonotxt_rust.Base.Action.{
  Action, Schedule, statement, pure, raise, raise_if, or_raise, map_err, ◌>>=◌, ◌>>◌,
}
use sonotxt_rust.Payments.{Payments, Chain, assethub, penumbra, stripe, AddressRow, to_internal}

abbrev pub is_assethub : Chain → Bool
is_assethub assethub = true
is_assethub penumbra = false
is_assethub stripe = false

-- `account_id = $1 AND chain = 'polkadot_assethub'`
abbrev pub of_account : ℕ → AddressRow → Bool
of_account account r = r.account_id == account && is_assethub r.chain

abbrev pub is_current : ℕ → AddressRow → Bool
is_current account r = of_account account r && r.is_active

-- `SELECT MAX(derivation_index) ..`
unfoldable pub max_index : ℕ → List AddressRow → Option ℕ
max_index account [] = none
max_index account (r ∷ rs) =
    let rest = max_index account rs in
    if of_account account r
    then (elim rest [ none ↦ some r.derivation_index | some m ↦ some (max r.derivation_index m) ])
    else rest

-- `UPDATE payment_addresses SET is_active = false ..`
abbrev pub deactivate : ℕ → AddressRow → AddressRow
deactivate account r = if of_account account r then record r { is_active = false } else r

-- `max_index.unwrap_or(-1) + 1`
abbrev pub next_index : Option ℕ → ℕ
next_index none = 0
next_index (some m) = m + 1

abbrev pub new_row : (account : ℕ) (address : Text) (index : ℕ) → AddressRow
new_row account address index = record {
  account_id = account;
  chain = assethub;
  address = address;
  derivation_index = index;
  penumbra_index = none;
  is_active = true;
}

module _ (derive : (account index : ℕ) → Result ApiError Text) (limit_message : (n m : ℕ) → String)
    (db_error : String) (max_addresses_per_user : ℕ) (sched : Schedule Payments) where
  -- A query, or a write, whose error of sqlx is turned into an internal one.
  abbrev pub query {ℓ} : {A : Type ℓ} → ℕ → (Payments → A × Payments) → Action Payments A
  query k f = map_err (statement sched k f) (to_internal db_error sched)

  unfoldable pub count_addresses : ℕ → ℕ → Action Payments ℕ
  unfolding map_err
  count_addresses k account = query k λ p. (length (filter (of_account account) p.addresses), p)

  -- The row is number 4; `(account_id, chain, derivation_index)` is UNIQUE.
  unfoldable pub derive_and_store_address : (account index : ℕ) → Action Payments Text
  unfolding map_err
  derive_and_store_address account index = elim (derive account index) [
    | err e ↦ raise e
    | ok address ↦ (do
      fresh ← query 4 λ p.
          if any (λ r. of_account account r && r.derivation_index == index) p.addresses
          then (false, p)
          else (true, record p { addresses = new_row account address index ∷ p.addresses })
      if fresh then pure address else raise (to_internal db_error sched ApiError.internal_error))
  ]

  unfoldable pub get_deposit_address : ℕ → Action Payments Text
  unfolding derive_and_store_address
  get_deposit_address account = do
    existing ← query 0 λ p. (find (is_current account) p.addresses, p)
    elim existing [ some r ↦ pure r.address | none ↦ derive_and_store_address account 0 ]

  unfoldable pub rotate_address : ℕ → Action Payments Text
  unfolding count_addresses derive_and_store_address
  rotate_address account = do
    count ← count_addresses 1 account
    raise_if (leb max_addresses_per_user count)
        (ApiError.invalid_request (limit_message count max_addresses_per_user))
    index ← query 2 λ p. (max_index account p.addresses, p)
    query 3 λ p. (tt, record p { addresses = map (deactivate account) p.addresses })
    derive_and_store_address account (next_index index)

  -- The handler of routes/payments.rs: the new address and its index.
  unfoldable pub rotate_polkadot_address : ℕ → Action Payments (Text × ℕ)
  unfolding rotate_address map_err
  rotate_polkadot_address account = do
    new_address ← rotate_address account
    row ← query 5 λ p. (find (is_current account) p.addresses, p)
    r ← or_raise row (to_internal db_error sched ApiError.internal_error)
    pure (new_address, r.derivation_index)

  unfoldable pub remaining_address_slots : ℕ → Action Payments ℕ
  unfolding count_addresses
  remaining_address_slots account = do
    count ← count_addresses 0 account
    pure (max_addresses_per_user - count)

-- ===== src/Payments/Rotated.antt =====
-- Rotation: one address is active, and what remains of a rotation that fails.
use sonotxt_rust.Base.{
  ℕ, ◌+◌, ◌≤◌, ◌<◌, ◌≡◌, refl, Bool, true, false, ◌&&◌, String, none, List, [], ◌∷◌, arith, ◌==◌,
  map, filter, find, any, length,
}
use sonotxt_rust.Base.Text.{Text}
use sonotxt_rust.Base.Errors.{ApiError, Result, ok, err}
use sonotxt_rust.Base.Action.{Schedule, quiet, map_err, ◌>>=◌}
use sonotxt_rust.Payments.{Payments, AddressRow}
use sonotxt_rust.Payments.Addresses.{
  rotate_polkadot_address, of_account, is_current, max_index, deactivate, next_index, new_row,
  get_deposit_address, rotate_address,
}

none_current :
    (account : ℕ) (rs : List AddressRow)
    → filter (is_current account) (map (deactivate account) rs) ≡ []
none_current account [] = refl
none_current account (r ∷ rs) = ground (arith, none_current account rs)

count_kept :
    (account : ℕ) (rs : List AddressRow)
    → length (filter (of_account account) (map (deactivate account) rs))
      ≡ length (filter (of_account account) rs)
count_kept account [] = refl
count_kept account (r ∷ rs) = ground (arith, count_kept account rs)

abbrev at_index : ℕ → ℕ → AddressRow → Bool
at_index account index r = of_account account r && r.derivation_index == index

-- No address of the account has an index past the greatest.
past_max :
    (account index : ℕ) (rs : List AddressRow)
    → next_index (max_index account rs) ≤ index
    → any (at_index account index) (map (deactivate account) rs) ≡ false
unfolding max_index
past_max account index [] h = refl
past_max account index (r ∷ rs) h = ground (arith, past_max account index rs)

module _ (derive : (account index : ℕ) → Result ApiError Text) (limit_message : (n m : ℕ) → String)
    (db_error : String) (most account : ℕ) (p : Payments) where
  abbrev index : ℕ
  index = next_index (max_index account p.addresses)

  abbrev inactive : Payments
  inactive = record p { addresses = map (deactivate account) p.addresses }

  rotated :
      (address : Text)
      → length (filter (of_account account) p.addresses) < most
      → derive account index ≡ ok address
      → rotate_address derive limit_message db_error most quiet account p ≡ (
        ok address,
        record inactive { addresses = new_row account address index ∷ inactive.addresses },
      )
  unfolding rotate_address map_err ◌>>=◌
  rotated address room e = ground (arith, past_max account index p.addresses)

  -- With nobody interfering and the database answering, an account with room for an address and a
  -- seed to derive it from gets one more, with the index after the greatest; it is the account's
  -- only active address, and the one that is given out from then on.
  pub rotate-current :
      (address : Text)
      → length (filter (of_account account) p.addresses) < most
      → derive account index ≡ ok address
      → let (r, p') = rotate_address derive limit_message db_error most quiet account p in
        (r ≡ ok address)
        × (length (filter (of_account account) p'.addresses)
            ≡ length (filter (of_account account) p.addresses) + 1)
        × (filter (is_current account) p'.addresses ≡ new_row account address index ∷ [])
        × (get_deposit_address derive limit_message db_error most quiet account p'
            ≡ (ok address, p'))
  unfolding get_deposit_address map_err ◌>>=◌
  rotate-current address room e = rw (rotated address room e) (
    refl,
    ground (arith, count_kept account p.addresses),
    ground (arith, none_current account p.addresses),
    ground arith,
  )

  -- The handler answers with the address and with the index after the greatest.
  pub rotate_polkadot_address-index :
      (address : Text)
      → length (filter (of_account account) p.addresses) < most
      → derive account index ≡ ok address
      → (rotate_polkadot_address derive limit_message db_error most quiet account p).0
        ≡ ok (address, index)
  unfolding rotate_polkadot_address map_err ◌>>=◌
  rotate_polkadot_address-index address room e = ground (arith, rotated address room e)

  -- The insert of the new row fails.
  abbrev no_insert : Schedule Payments
  no_insert = record { others = λ k s. s; fails = λ k. k == 4 }

  fails_to_insert :
      (address : Text)
      → length (filter (of_account account) p.addresses) < most
      → derive account index ≡ ok address
      → rotate_address derive limit_message db_error most no_insert account p
        ≡ (err (ApiError.internal db_error), inactive)
  unfolding rotate_address map_err ◌>>=◌
  fails_to_insert address room e = ground arith

  index_kept :
      (rs : List AddressRow)
      → any (at_index account 0) (map (deactivate account) rs) ≡ any (at_index account 0) rs
  index_kept [] = refl
  index_kept (r ∷ rs) = ground (arith, index_kept rs)

  find_current :
      (rs : List AddressRow) → find (is_current account) (map (deactivate account) rs) ≡ none
  find_current [] = refl
  find_current (r ∷ rs) = ground (arith, find_current rs)

  -- If only the insert of a rotation fails, for an account that has an address with index 0, the
  -- account is left without an active address, and asking for its address then always ends in an
  -- error and changes nothing.
  pub rotation_stuck :
      (address first : Text)
      → length (filter (of_account account) p.addresses) < most
      → derive account index ≡ ok address
      → derive account 0 ≡ ok first
      → any (at_index account 0) p.addresses ≡ true
      → let (r, p') = rotate_address derive limit_message db_error most no_insert account p in
        (r ≡ err (ApiError.internal db_error))
        × (find (is_current account) p'.addresses ≡ none)
        × (get_deposit_address derive limit_message db_error most quiet account p'
            ≡ (err (ApiError.internal db_error), p'))
  unfolding get_deposit_address map_err ◌>>=◌
  rotation_stuck address first room e e0 zeroth = rw (fails_to_insert address room e) (
    refl,
    find_current p.addresses,
    ground (arith, find_current p.addresses, index_kept p.addresses),
  )

-- ===== src/Billing/Charge.antt =====
-- What `check_and_charge` does when nobody interferes and the database answers.
use sonotxt_rust.Base.{
  ℕ, ◌≤◌, ◌≡◌, refl, ap, inl, inr, Bool, true, false, String, Option, none, some, arith,
  Option-cases,
}
use sonotxt_rust.Base.Int.{pos, ◌≤ℤ◌, int_laws, dec_le_ℤ}
use sonotxt_rust.Base.Errors.{ApiError, ok, err}
use sonotxt_rust.Base.Action.{quiet, or_raise, ◌>>=◌}
use sonotxt_rust.Billing.{Ledger, balance, address, deduct, charge_wallet, check_and_charge}
use sonotxt_rust.Billing.Channel.{remaining}
use sonotxt_rust.Billing.Parts.{Fits, left, Charged, deduct_lem}
use sonotxt_rust.Billing.Linked.{charge_linked-Charged}

module _ (ss58_to_h160 : String → Option ℕ) (sono : Bool) (user c : ℕ) (wallet : Option String)
    (w : Ledger) where
  check_from_balance :
      (w' : Ledger)
      → 1 ≤ c
      → pos c ≤ℤ balance user w
      → deduct user (pos c) w ≡ (true, w')
      → check_and_charge quiet ss58_to_h160 sono user wallet (pos c) w
        ≡ (ok (record { from_custodial = pos c; from_channel = pos 0 }), w')
  unfolding check_and_charge ◌>>=◌
  check_from_balance w' one enough e = ground arith

  check_from_wallet :
      1 ≤ c
      → ¬ (pos c ≤ℤ balance user w)
      → check_and_charge quiet ss58_to_h160 sono user wallet (pos c) w
        ≡ charge_wallet quiet ss58_to_h160 sono user wallet (pos c) (balance user w) w
  unfolding check_and_charge ◌>>=◌
  check_from_wallet one over = ground arith

-- The channel that a charge can draw on: none unless channels are configured.
abbrev pub channel_of : (String → Option ℕ) → Bool → Option String → Option ℕ
channel_of ss58_to_h160 true wallet = address ss58_to_h160 wallet
channel_of ss58_to_h160 false wallet = none

left_same :
    (addr : Option ℕ) (w w' : Ledger) → w'.channels ≡ w.channels → left addr w' ≡ left addr w
left_same none w w' e = refl
left_same (some evm) w w' e = ap (remaining evm) e

no_channel-Charged :
    (user c : ℕ) (w : Ledger)
    → ¬ (pos c ≤ℤ balance user w)
    → 1 ≤ c
    → Charged user none (pos c) w (err ApiError.insufficient_balance, w)
no_channel-Charged user c w over one = (refl, refl, over, omega arith, λ p q. over (omega int_laws))

charge_wallet-Charged :
    (ss58_to_h160 : String → Option ℕ) (sono : Bool) (user c : ℕ) (wallet : Option String)
    (w : Ledger)
    → Fits w.channels
    → 1 ≤ c
    → ¬ (pos c ≤ℤ balance user w)
    → Charged user
        (channel_of ss58_to_h160 sono wallet)
        (pos c)
        w
        (charge_wallet quiet ss58_to_h160 sono user wallet (pos c) (balance user w) w)
unfolding charge_wallet ◌>>=◌
charge_wallet-Charged ss58_to_h160 true user c none w fits one over =
    no_channel-Charged user c w over one
charge_wallet-Charged ss58_to_h160 false user c none w fits one over =
    no_channel-Charged user c w over one
charge_wallet-Charged ss58_to_h160 false user c (some a) w fits one over =
    no_channel-Charged user c w over one
charge_wallet-Charged ss58_to_h160 true user c (some a) w fits one over =
    elim (Option-cases (ss58_to_h160 a)) [
      | inl e ↦ rw (e, or_raise, address) (no_channel-Charged user c w over one)
      | inr (evm, e) ↦
          rw (e, or_raise, address)
            (charge_linked-Charged user evm c w fits (balance user w) refl one over)
    ]

-- With nobody interfering, the database answering and deposits that are U256 values, a positive
-- cost is charged in full from the parts the result names, or refused with nothing changed
-- because neither the balance, nor the channel, nor a positive balance together with the channel
-- covers it.
pub check_and_charge-Charged :
    (ss58_to_h160 : String → Option ℕ) (sono : Bool) (user c : ℕ) (wallet : Option String)
    (w : Ledger)
    → Fits w.channels
    → 1 ≤ c
    → Charged user
        (channel_of ss58_to_h160 sono wallet)
        (pos c)
        w
        (check_and_charge quiet ss58_to_h160 sono user wallet (pos c) w)
check_and_charge-Charged ss58_to_h160 sono user c wallet w fits one =
    elim (dec_le_ℤ (pos c) (balance user w)) [
      | yes enough ↦
          let (w', e, paid, others, channels, log) =
            deduct_lem user (pos c) w (omega arith) enough in
          rw (check_from_balance ss58_to_h160 sono user c wallet w w' one enough e) (
            omega int_laws,
            omega arith,
            omega arith,
            paid,
            omega (int_laws, left_same (channel_of ss58_to_h160 sono wallet) w w' channels),
            others,
            (λ a ne. rw channels),
            log,
          )
      | no over ↦
          rw (check_from_wallet ss58_to_h160 sono user c wallet w one over)
            (charge_wallet-Charged ss58_to_h160 sono user c wallet w fits one over)
    ]

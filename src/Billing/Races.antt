-- ===== src/Billing/Races.antt =====
-- What holds of `check_and_charge` whatever other tasks do between its statements and whichever
-- statements fail, and what is lost when they do.
use sonotxt_rust.Base.{
  ℕ, ◌≤◌, ◌≡◌, inl, inr, Bool, true, String, Option, none, some, arith, Option-cases, Bool-cases,
}
use sonotxt_rust.Base.Int.{ℤ, pos, ◌-ℤ◌, ◌≤ℤ◌, leb_ℤ}
use sonotxt_rust.Base.Assoc.{Assoc, lookup, insert, lookup-insert}
use sonotxt_rust.Base.Action.{Schedule}
use sonotxt_rust.Base.Action.Keeps.{Keeps, Keeps-locked, keeps_rules}
use sonotxt_rust.Billing.{
  Ledger, deduct, drain, charge_channel, charge_linked, charge_wallet, check_and_charge,
}
use sonotxt_rust.Billing.Channel.{ChannelState, charge}

-- No balance is negative and no channel is overdrawn.
pub record IsSound (w : Ledger) : Type 0 where
  pub balances_nonneg : (u : ℕ) (b : ℤ) → lookup u w.balances ≡ some b → pos 0 ≤ℤ b
  pub channels_within :
      (e : ℕ) (ch : ChannelState) → lookup e w.channels ≡ some ch → ch.spent ≤ ch.deposit

-- Writing a balance that is not negative.
write-IsSound :
    (user : ℕ) (b : ℤ) (w : Ledger)
    → pos 0 ≤ℤ b
    → IsSound w
    → IsSound (record w { balances = insert user b w.balances })
write-IsSound user b w nonneg h = record {
  balances_nonneg =
      λ u x e. ground (arith, lookup-insert user u b w.balances, h.balances_nonneg u x);
  channels_within = h.channels_within;
}

covered : (b cost : ℤ) → leb_ℤ cost b ≡ true → pos 0 ≤ℤ b -ℤ cost
unfolding ◌-ℤ◌
covered b cost t = ground arith

pub deduct-IsSound : (user : ℕ) (cost : ℤ) (w : Ledger) → IsSound w → IsSound (deduct user cost w).1
unfolding deduct
deduct-IsSound user cost w h = elim (Option-cases (lookup user w.balances)) [
  | inl e ↦ rw (e, deduct) h
  | inr (b, e) ↦ elim (Bool-cases (leb_ℤ cost b)) [
    | inl t ↦ rw (e, deduct, t) (write-IsSound user (b -ℤ cost) w (covered b cost t) h)
    | inr t ↦ rw (e, deduct, t) h
  ]
]

drain-IsSound : (user : ℕ) (w : Ledger) → IsSound w → IsSound (drain user w).1
unfolding drain
drain-IsSound user w h = elim (Option-cases (lookup user w.balances)) [
  | inl e ↦ rw (e, drain) h
  | inr (b, e) ↦ rw (e, drain) (write-IsSound user (pos 0) w (omega arith) h)
]

charge_within_deposit :
    (evm amount s : ℕ) (channels channels' : Assoc ChannelState) (e : ℕ) (ch : ChannelState)
    → ((a : ℕ) (c : ChannelState) → lookup a channels ≡ some c → c.spent ≤ c.deposit)
    → charge evm amount channels ≡ some (s, channels')
    → lookup e channels' ≡ some ch
    → ch.spent ≤ ch.deposit
unfolding charge
charge_within_deposit evm amount s channels channels' e ch h done found =
    grind (arith, lookup-insert, h e ch)

charge-IsSound :
    (evm amount : ℕ) (w : Ledger) (s : ℕ) (channels : Assoc ChannelState)
    → charge evm amount w.channels ≡ some (s, channels)
    → IsSound w
    → IsSound (record w { channels = channels })
charge-IsSound evm amount w s channels done h = record {
  balances_nonneg = h.balances_nonneg;
  channels_within = λ e ch found.
      charge_within_deposit evm amount s w.channels channels e ch h.channels_within done found;
}

module _ (sched : Schedule Ledger)
    (others : (k : ℕ) (w : Ledger) → IsSound w → IsSound (sched.others k w)) where
  charge_channel-Keeps : (k evm amount : ℕ) → Keeps IsSound (charge_channel sched k evm amount)
  unfolding charge_channel
  charge_channel-Keeps k evm amount = Keeps-locked sched k _ others (record {
    at = λ w h. elim (Option-cases (charge evm amount w.channels)) [
      | inl e ↦ rw e h
      | inr (r, e) ↦ rw e (charge-IsSound evm amount w r.0 r.1 e h)
    ];
  })

  charge_linked-Keeps :
      (user evm : ℕ) (cost custodial : ℤ)
      → Keeps IsSound (charge_linked sched user evm cost custodial)
  unfolding charge_linked
  charge_linked-Keeps user evm cost custodial =
      search (keeps_rules, charge_channel-Keeps, drain-IsSound, others)

  charge_wallet-Keeps :
      (ss58_to_h160 : String → Option ℕ) (sono : Bool) (user : ℕ) (wallet : Option String)
      (cost custodial : ℤ)
      → Keeps IsSound (charge_wallet sched ss58_to_h160 sono user wallet cost custodial)
  unfolding charge_wallet
  charge_wallet-Keeps ss58_to_h160 sono user none cost custodial = search keeps_rules
  charge_wallet-Keeps ss58_to_h160 sono user (some a) cost custodial =
      search (keeps_rules, charge_linked-Keeps)

  check_and_charge-Keeps :
      (ss58_to_h160 : String → Option ℕ) (sono : Bool) (user : ℕ) (wallet : Option String)
      (cost : ℤ)
      → Keeps IsSound (check_and_charge sched ss58_to_h160 sono user wallet cost)
  unfolding check_and_charge
  check_and_charge-Keeps ss58_to_h160 sono user wallet cost =
      search (keeps_rules, charge_wallet-Keeps, deduct-IsSound, others) depth 9

  -- Whatever other tasks do between the statements, as long as they keep the ledger sound, and
  -- whichever statements fail, a charge leaves no negative balance and no overdrawn channel.
  pub check_and_charge-IsSound :
      (ss58_to_h160 : String → Option ℕ) (sono : Bool) (user : ℕ) (wallet : Option String)
      (cost : ℤ) (w : Ledger)
      → IsSound w
      → IsSound (check_and_charge sched ss58_to_h160 sono user wallet cost w).1
  check_and_charge-IsSound ss58_to_h160 sono user wallet cost w h =
      (check_and_charge-Keeps ss58_to_h160 sono user wallet cost).at w h

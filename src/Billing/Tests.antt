-- ===== src/Billing/Tests.antt =====
-- Runs of billing.rs for user 1, whose wallet is the EVM address 20 with a channel.
use sonotxt_rust.Base.{ℕ, ◌≡◌, refl, true, String, Option, some, [], ◌∷◌, arith, ◌==◌}
use sonotxt_rust.Base.Int.{pos}
use sonotxt_rust.Base.Errors.{ok}
use sonotxt_rust.Base.Assoc.{lookup}
use sonotxt_rust.Base.Action.{Schedule, quiet, before_statement, ◌>>=◌}
use sonotxt_rust.Billing.{Ledger, check_and_charge, total_balance, deduct, balance}
use sonotxt_rust.Billing.Channel.{ChannelState, remaining}
use sonotxt_rust.Billing.Parts.{Fits, Charged}
use sonotxt_rust.Billing.Charge.{channel_of, check_and_charge-Charged}
use sonotxt_rust.Billing.Races.{IsSound, deduct-IsSound, check_and_charge-IsSound}
use sonotxt_rust.Billing.Interleavings.{free_ride}
use sonotxt_rust.Billing.Withdraw.{Funds, Withdrawn, withdraw_txt}
use sonotxt_rust.Billing.Withdraw.Ended.{withdraw_txt-Withdrawn}
use sonotxt_rust.Sono.{Transfer, Fate, no_receipt}

abbrev to_h160 : String → Option ℕ
to_h160 wallet = some 20

abbrev channel : ChannelState
channel = record { deposit = 60; spent = 20; nonce = 3 }

abbrev ledger : Ledger
ledger = record { balances = (1, pos 30) ∷ []; channels = (20, channel) ∷ []; transactions = [] }

found_channel : (e : ℕ) (ch : ChannelState) → lookup e ledger.channels ≡ some ch → ch ≡ channel
unfolding lookup
found_channel e ch found = ground arith

ledger-Fits : Fits ledger.channels
ledger-Fits e ch found = rw (found_channel e ch found) (omega arith)

ledger-IsSound : IsSound ledger
unfolding lookup
ledger-IsSound = record {
  balances_nonneg = λ u b e. ground arith;
  channels_within = λ e ch found. rw (found_channel e ch found) (omega arith);
}

check_and_charge-Charged_example :
    Charged 1
      (channel_of to_h160 true (some "5F"))
      (pos 50)
      ledger
      (check_and_charge quiet to_h160 true 1 (some "5F") (pos 50) ledger)
check_and_charge-Charged_example =
    check_and_charge-Charged to_h160 true 1 50 (some "5F") ledger ledger-Fits (omega arith)

-- Another task charges 20 before each statement.
abbrev busy : Schedule Ledger
busy = record { others = λ k w. (deduct 1 (pos 20) w).1; fails = λ k. k == 4 }

check_and_charge-IsSound_example :
    IsSound (check_and_charge busy to_h160 true 1 (some "5F") (pos 25) ledger).1
check_and_charge-IsSound_example =
    check_and_charge-IsSound busy (λ k w h. deduct-IsSound 1 (pos 20) w h) to_h160 true 1
      (some "5F") (pos 25) ledger ledger-IsSound

-- Another task charges 20 of the 30.
abbrev charge_20 : Ledger → Ledger
charge_20 w = record w { balances = (1, pos 10) ∷ [] }

free_ride_example :
    (w' : Ledger) × (check_and_charge
        (before_statement 1 charge_20)
        to_h160
        true
        1
        (some "5F")
        (pos 30)
        ledger
      ≡ (ok (record { from_custodial = pos 30; from_channel = pos 0 }), w'))
    × (balance 1 w' ≡ pos 0)
    × (remaining 20 w'.channels ≡ remaining 20 ledger.channels)
unfolding lookup
free_ride_example =
    free_ride to_h160 1 20 30 "5F" refl ledger (omega arith) charge_20 channel refl (omega arith)
      refl (omega arith) (omega arith)

shown : total_balance quiet to_h160 true 1 (some "5F") ledger ≡ (ok (pos 30, pos 40), ledger)
unfolding total_balance remaining lookup ◌>>=◌
shown = ground arith

-- The chain refuses every transfer.
abbrev unconfirmed : Transfer → Fate
unconfirmed t = no_receipt

abbrev funds : Funds
funds = record { ledger = ledger; sent = [] }

withdraw_txt-Withdrawn_example :
    Withdrawn to_h160 unconfirmed true 1
      (pos 10)
      "5F"
      funds
      (withdraw_txt to_h160 unconfirmed "no receipt" quiet true 1 (pos 10) "5F" funds)
withdraw_txt-Withdrawn_example =
    withdraw_txt-Withdrawn to_h160 unconfirmed "no receipt" true 1 (pos 10) "5F" funds

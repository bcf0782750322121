-- ===== src/Billing/Interleavings.antt =====
-- What a charge loses to a task that runs between two of its statements.
use sonotxt_rust.Base.{
  ℕ, ◌+◌, ◌-◌, ◌%◌, ◌^◌, ◌≤◌, ◌<◌, ◌≡◌, true, false, String, Option, some, arith, inl, inr,
  Option-cases,
}
use sonotxt_rust.Base.Int.{pos, ◌-ℤ◌, ◌≤ℤ◌}
use sonotxt_rust.Base.Errors.{ok}
use sonotxt_rust.Base.Assoc.{Assoc, lookup, insert, lookup-insert_self}
use sonotxt_rust.Base.Action.{before_statement, ◌>>=◌}
use sonotxt_rust.Billing.{
  Ledger, balance, deduct, drain, charge_channel, charge_linked, charge_wallet, check_and_charge,
}
use sonotxt_rust.Billing.Channel.{ChannelState, remaining, charge}
use sonotxt_rust.Billing.Parts.{Fits, charge_within}

deduct_refused :
    (user c : ℕ) (w : Ledger) → ¬ (pos c ≤ℤ balance user w) → deduct user (pos c) w ≡ (false, w)
unfolding deduct
deduct_refused user c w over = ground arith

drain-balance : (user : ℕ) (w : Ledger) → balance user (drain user w).1 ≡ pos 0
unfolding drain
drain-balance user w = elim (Option-cases (lookup user w.balances)) [
  | inl e ↦ ground arith
  | inr (b, e) ↦ ground (arith, lookup-insert_self user (pos 0) w.balances)
]

drain-channels : (user : ℕ) (w : Ledger) → (drain user w).1.channels ≡ w.channels
unfolding drain
drain-channels user w = ground arith

-- A charge of nothing always goes through and leaves what remains.
charge_nothing :
    (evm : ℕ) (channels : Assoc ChannelState) (ch : ChannelState)
    → lookup evm channels ≡ some ch
    → ch.spent ≤ ch.deposit
    → ch.deposit < 2 ^ 256
    → (s : ℕ) × (channels' : Assoc ChannelState) × (charge evm 0 channels ≡ some (s, channels'))
      × (remaining evm channels' ≡ remaining evm channels)
unfolding charge remaining
charge_nothing evm channels ch found within fits =
    let spent = (ch.spent + 0) % 2 ^ 256 in
    let charged : ChannelState = record {
      deposit = ch.deposit;
      spent = spent;
      nonce = (ch.nonce + 1) % 2 ^ 64;
    } in
    (
      spent,
      insert evm charged channels,
      ground arith,
      ground (arith, lookup-insert_self evm charged channels),
    )

module _ (ss58_to_h160 : String → Option ℕ) (user evm c : ℕ) (wallet : String)
    (resolved : ss58_to_h160 wallet ≡ some evm) (w : Ledger) (one : 1 ≤ c) where
  free_ride_run :
      (others : Ledger → Ledger) (s : ℕ) (channels : Assoc ChannelState)
      → balance user w ≡ pos c
      → deduct user (pos c) (others w) ≡ (false, others w)
      → charge evm 0 (others w).channels ≡ some (s, channels)
      → check_and_charge (before_statement 1 others) ss58_to_h160 true user (some wallet) (pos c) w
        ≡ (
          ok (record { from_custodial = pos c; from_channel = pos 0 }),
          record (drain user (others w)).1 { channels = channels },
        )
  unfolding check_and_charge charge_wallet charge_linked charge_channel ◌-ℤ◌ ◌>>=◌
  free_ride_run others s channels has refused charged =
      ground (arith, drain-channels user (others w))

  -- If the balance was exactly the cost when it was read, and another task took some of it before
  -- the deduction, the charge still succeeds for a user with a channel that is not overdrawn: it
  -- reports the whole cost as paid from the balance, takes what the balance has left, and nothing
  -- from the channel.
  pub free_ride :
      (others : Ledger → Ledger) (ch : ChannelState)
      → balance user w ≡ pos c
      → ¬ (pos c ≤ℤ balance user (others w))
      → lookup evm (others w).channels ≡ some ch
      → ch.spent ≤ ch.deposit
      → ch.deposit < 2 ^ 256
      → (w' : Ledger) × (check_and_charge
            (before_statement 1 others)
            ss58_to_h160
            true
            user
            (some wallet)
            (pos c)
            w
          ≡ (ok (record { from_custodial = pos c; from_channel = pos 0 }), w'))
        × (balance user w' ≡ pos 0)
        × (remaining evm w'.channels ≡ remaining evm (others w).channels)
  free_ride others ch has taken found within fits =
      let (s, channels, charged, same) =
        charge_nothing evm (others w).channels ch found within fits in
      (
        record (drain user (others w)).1 { channels = channels },
        free_ride_run others s channels has (deduct_refused user c (others w) taken) charged,
        drain-balance user (others w),
        same,
      )

  lost_credit_run :
      (others : Ledger → Ledger) (b s : ℕ) (channels : Assoc ChannelState)
      → balance user w ≡ pos b
      → 1 ≤ b
      → b < c
      → c - b ≤ remaining evm w.channels
      → charge evm (c - b) (others w).channels ≡ some (s, channels)
      → check_and_charge (before_statement 3 others) ss58_to_h160 true user (some wallet) (pos c) w
        ≡ (
          ok (record { from_custodial = pos b; from_channel = pos (c - b) }),
          record (drain user (others w)).1 { channels = channels },
        )
  unfolding check_and_charge charge_wallet charge_linked charge_channel ◌-ℤ◌ ◌>>=◌
  lost_credit_run others b s channels has some_there less within charged =
      ground (arith, drain-channels user (others w))

  -- If a credit reaches the user while a positive balance and the channel together pay a cost,
  -- just before the balance is set to 0, the credit is lost: the charge reports only the balance
  -- it had read, and the balance is 0.
  pub lost_credit :
      (b credit : ℕ)
      → Fits w.channels
      → balance user w ≡ pos b
      → 1 ≤ b
      → b < c
      → c - b ≤ remaining evm w.channels
      → (w' : Ledger) × (check_and_charge
            (before_statement 3
              (λ v. record v { balances = insert user (pos (b + credit)) v.balances }))
            ss58_to_h160
            true
            user
            (some wallet)
            (pos c)
            w
          ≡ (ok (record { from_custodial = pos b; from_channel = pos (c - b) }), w'))
        × (balance user w' ≡ pos 0)
  lost_credit b credit fits has some_there less within =
      let others : Ledger → Ledger =
        λ v. record v { balances = insert user (pos (b + credit)) v.balances } in
      let (s, channels, charged, _, _) =
        charge_within evm (c - b) w.channels fits (omega arith) within in
      (
        record (drain user (others w)).1 { channels = channels },
        lost_credit_run others b s channels has some_there less within charged,
        drain-balance user (others w),
      )

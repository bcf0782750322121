-- ===== src/Billing/Parts.antt =====
-- What a charge of billing.rs promises, and its parts: the channel, the deduction, the drain.
use sonotxt_rust.Base.{
  ℕ, ◌+◌, ◌%◌, ◌^◌, ◌≤◌, ◌<◌, ◌≡◌, ◌≢◌, refl, inl, inr, true, Option, none, some, arith,
  Option-cases,
}
use sonotxt_rust.Base.Int.{ℤ, pos, ◌+ℤ◌, ◌-ℤ◌, ◌≤ℤ◌, sub_add}
use sonotxt_rust.Base.Errors.{ApiError, Result, ok, err}
use sonotxt_rust.Base.Assoc.{Assoc, lookup, insert, lookup-insert_self, lookup-insert_ne}
use sonotxt_rust.Billing.{Ledger, ChargeResult, balance, deduct, drain}
use sonotxt_rust.Billing.Channel.{ChannelState, remaining, charge}

-- The deposits are U256 values.
abbrev pub Fits : Assoc ChannelState → Type 0
Fits channels = (evm : ℕ) (ch : ChannelState) → lookup evm channels ≡ some ch → ch.deposit < 2 ^ 256

-- What remains in the channel of an address, if there is one.
abbrev pub left : Option ℕ → Ledger → ℕ
left none w = 0
left (some evm) w = remaining evm w.channels

-- A charge within what remains goes through, takes the amount and touches no other channel.
pub charge_within :
    (evm amount : ℕ) (channels : Assoc ChannelState)
    → Fits channels
    → 1 ≤ amount
    → amount ≤ remaining evm channels
    → (spent : ℕ) × (channels' : Assoc ChannelState) × (charge evm amount channels
        ≡ some (spent, channels'))
      × (remaining evm channels' + amount ≡ remaining evm channels)
      × ((e : ℕ) → evm ≢ e → lookup e channels' ≡ lookup e channels)
unfolding charge remaining
charge_within evm amount channels fits one within = elim (Option-cases (lookup evm channels)) [
  | inl e ↦ absurd (ground arith)
  | inr (ch, e) ↦
      let room = fits evm ch e in
      let spent = (ch.spent + amount) % 2 ^ 256 in
      let charged : ChannelState = record {
        deposit = ch.deposit;
        spent = spent;
        nonce = (ch.nonce + 1) % 2 ^ 64;
      } in
      (
        spent,
        insert evm charged channels,
        ground arith,
        ground (arith, lookup-insert_self evm charged channels),
        λ other ne. lookup-insert_ne evm other charged channels ne,
      )
]

-- How a charge of `cost` that began at `w` ended, for a user with the address `addr`. Paid: the
-- two parts add up to the cost, each came from where it says, and nothing else has changed.
-- Refused: nothing has changed, and neither the balance alone, nor the channel alone, nor a
-- positive balance with the channel covers the cost.
abbrev pub Charged : ℕ → Option ℕ → ℤ → Ledger → Result ApiError ChargeResult × Ledger → Type 0
Charged user addr cost w (ok r, w') =
    (r.from_custodial +ℤ r.from_channel ≡ cost)
    × (pos 0 ≤ℤ r.from_custodial)
    × (pos 0 ≤ℤ r.from_channel)
    × (balance user w' +ℤ r.from_custodial ≡ balance user w)
    × (pos (left addr w') +ℤ r.from_channel ≡ pos (left addr w))
    × ((u : ℕ) → user ≢ u → lookup u w'.balances ≡ lookup u w.balances)
    × ((e : ℕ) → addr ≢ some e → lookup e w'.channels ≡ lookup e w.channels)
    × (w'.transactions ≡ w.transactions)
Charged user addr cost w (err e, w') =
    (e ≡ ApiError.insufficient_balance)
    × (w' ≡ w)
    × (¬ (cost ≤ℤ balance user w))
    × (¬ (cost ≤ℤ pos (left addr w)))
    × (pos 1 ≤ℤ balance user w → ¬ (cost ≤ℤ balance user w +ℤ pos (left addr w)))

-- A user who has the cost pays it from the balance.
pub deduct_lem :
    (user : ℕ) (cost : ℤ) (w : Ledger)
    → pos 1 ≤ℤ cost
    → cost ≤ℤ balance user w
    → (w' : Ledger) × (deduct user cost w ≡ (true, w'))
      × (balance user w' +ℤ cost ≡ balance user w)
      × ((u : ℕ) → user ≢ u → lookup u w'.balances ≡ lookup u w.balances)
      × (w'.channels ≡ w.channels)
      × (w'.transactions ≡ w.transactions)
unfolding deduct
deduct_lem user cost w one enough = elim (Option-cases (lookup user w.balances)) [
  | inl e ↦ absurd (ground arith)
  | inr (b, e) ↦
      let bs = insert user (b -ℤ cost) w.balances in
      (
        record w { balances = bs },
        ground arith,
        ground (arith, lookup-insert_self user (b -ℤ cost) w.balances, sub_add b cost),
        λ other ne. lookup-insert_ne user other (b -ℤ cost) w.balances ne,
        refl,
        refl,
      )
]

pub drain_lem :
    (user b : ℕ) (w : Ledger)
    → 1 ≤ b
    → balance user w ≡ pos b
    → (balance user (drain user w).1 ≡ pos 0)
      × ((u : ℕ) → user ≢ u → lookup u (drain user w).1.balances ≡ lookup u w.balances)
      × ((drain user w).1.transactions ≡ w.transactions)
      × ((drain user w).1.channels ≡ w.channels)
unfolding drain
drain_lem user b w one e = elim (Option-cases (lookup user w.balances)) [
  | inl none_there ↦ absurd (ground arith)
  | inr (x, found) ↦ (
    ground (arith, lookup-insert_self user (pos 0) w.balances),
    λ other ne. ground (arith, lookup-insert_ne user other (pos 0) w.balances ne),
    ground arith,
    ground arith,
  )
]

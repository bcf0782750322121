-- ===== src/Sono.antt =====
-- sonotxt-api/src/services/sono.rs: the service's side of the payment channels. Here what it keeps
-- and signs; the children have the listener, the prices and routes/sono.rs. Addresses are numbers,
-- amounts U256 values. The chain is a parameter; the boxed errors of other crates are
-- `internal_error`.
pub mod Listener
pub mod Prices
pub mod Chain
pub mod Polled
pub mod Tracked
pub mod Forgotten
pub mod Routes
pub mod Settled
mod Tests
use sonotxt_rust.Base.{
  ℕ, Bool, true, false, not, Option, none, some, List, [], ◌∷◌, ◌++◌, ltb, if◌then◌else◌,
}
use mathlib.Core.List.{reverse}
use sonotxt_rust.Base.Bytes.{Bytes, to_bytes}
use sonotxt_rust.Base.Errors.{ApiError, ok, err}
use sonotxt_rust.Base.Assoc.{Assoc, lookup, erase}
use sonotxt_rust.Base.Action.{
  Action, Schedule, locked, pure, raise, raise_if, or_raise, ◌>>=◌, ◌>>◌,
}
use sonotxt_rust.Billing.Channel.{ChannelState}

-- The channels by the user's address, and the block up to which the listener has polled.
pub record Sono : Type 0 where
  pub channels : Assoc ChannelState
  pub last_block : ℕ

pub record SignedState : Type 0 where
  pub spent : ℕ
  pub nonce : ℕ
  pub signature : Bytes

-- `get_channel`
abbrev pub get_channel : ℕ → Sono → Option ChannelState
get_channel user s = lookup user s.channels

-- What is hashed: the channel, the amount and the nonce, big-endian.
unfoldable pub state_message : (channel_id : Bytes) (spent nonce : ℕ) → Bytes
state_message channel_id spent nonce =
    channel_id ++ (reverse (to_bytes 32 spent) ++ reverse (to_bytes 8 nonce))

module _ (sched : Schedule Sono) where
  -- The channel of a user, under the lock.
  abbrev pub active_channel : (k user : ℕ) → Action Sono ChannelState
  active_channel k user = do
    ch ← locked sched k λ s. (ok (get_channel user s), s)
    or_raise ch (ApiError.internal "no active channel")

  -- `channel_id` is the view of the contract, `sign` the signature of the hash of a message.
  unfoldable pub sign_state :
      (channel_id : ℕ → Option Bytes) (sign : Bytes → Option Bytes) (user : ℕ)
      → Action Sono SignedState
  sign_state channel_id sign user = do
    ch ← active_channel 0 user
    cid ← or_raise (channel_id user) ApiError.internal_error
    sig ← or_raise (sign (state_message cid ch.spent ch.nonce)) ApiError.internal_error
    pure (record { spent = ch.spent; nonce = ch.nonce; signature = sig })

  -- `cooperative_close` says whether the transaction has a receipt. The lock is held until then,
  -- and taken again to remove the channel.
  unfoldable pub settle :
      (cooperative_close : (user spent nonce : ℕ) (sig : Bytes) → Bool) (user : ℕ)
      (user_sig : Bytes)
      → Action Sono (Unit {0})
  settle cooperative_close user user_sig = do
    ch ← active_channel 0 user
    raise_if (not (cooperative_close user ch.spent ch.nonce user_sig)) ApiError.internal_error
    locked sched 1 λ s. (ok tt, record s { channels = erase user s.channels })

-- What the faucet sends.
pub data Transfer : Type 0 where
  native : (to amount : ℕ) → Transfer
  txt : (to amount : ℕ) → Transfer

-- What becomes of a transaction: it is not sent, it is sent and its receipt is not had, or there
-- is a receipt, of a transfer that may have been reverted, which the code does not ask.
pub data Fate : Type 0 where
  not_sent : Fate
  no_receipt : Fate
  receipt : (reverted : Bool) → Fate

-- The transactions that were sent: the state of `drip_testnet`, behind a provider that was made.
unfoldable pub transfer : (fate : Transfer → Fate) → Transfer → Action (List Transfer) (Unit {0})
transfer fate t sent = elim (fate t) [
  | not_sent ↦ (err ApiError.internal_error, sent)
  | no_receipt ↦ (err ApiError.internal_error, t ∷ sent)
  | receipt reverted ↦ (ok tt, t ∷ sent)
]

unfoldable pub drip_testnet :
    (fate : Transfer → Fate) (user_evm pas_amount txt_amount : ℕ)
    → Action (List Transfer) (Unit {0})
unfolding transfer
drip_testnet fate user_evm pas_amount txt_amount = do
  if ltb 0 pas_amount then transfer fate (native user_evm pas_amount) else pure tt
  if ltb 0 txt_amount then transfer fate (txt user_evm txt_amount) else pure tt

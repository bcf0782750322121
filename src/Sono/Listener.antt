-- ===== src/Sono/Listener.antt =====
-- The listener of services/sono.rs: it takes the channels over from the chain at its start, and
-- then polls the events of the contract. A log that does not decode is none.
use sonotxt_rust.Base.{
  ℕ, ◌+◌, ◌-◌, Option, none, some, List, [], ◌∷◌, ltb, leb, ◌==◌, if◌then◌else◌,
}
use sonotxt_rust.Base.Errors.{ApiError, ok}
use sonotxt_rust.Base.Assoc.{Assoc, lookup, insert, erase}
use sonotxt_rust.Base.Action.{Action, Schedule, locked, pure, or_raise, ◌>>=◌, ◌>>◌}
use sonotxt_rust.Billing.Channel.{ChannelState}
use sonotxt_rust.Sono.{Sono}

pub record ChannelOpened : Type 0 where
  pub user : ℕ
  pub service : ℕ
  pub deposit : ℕ

pub record ChannelToppedUp : Type 0 where
  pub user : ℕ
  pub service : ℕ
  pub total : ℕ

pub record ChannelSettled : Type 0 where
  pub user : ℕ
  pub service : ℕ

-- What the node answers; none is an error. `get_channel` is the view of the contract.
pub record Provider : Type 0 where
  pub get_block_number : Option ℕ
  pub opened : (from to : ℕ) → Option (List (Option ChannelOpened))
  pub topped_up : (from to : ℕ) → Option (List (Option ChannelToppedUp))
  pub settled : (from to : ℕ) → Option (List (Option ChannelSettled))
  pub get_channel : (user : ℕ) → Option ChannelState

-- A loop over logs that counts.
unfoldable pub each {ℓ} : {A : Type ℓ} → (A → Action Sono ℕ) → List A → Action Sono ℕ
each f [] = pure 0
each f (x ∷ xs) = do n ← f x; m ← each f xs; pure (n + m)

abbrev pub set_channels : (Assoc ChannelState → Assoc ChannelState) → Sono → Sono
set_channels f s = record s { channels = f s.channels }

-- The first block of a poll.
abbrev pub from_block : (last_block current : ℕ) → ℕ
from_block last_block current = if last_block == 0 then current - 100 else last_block + 1

module _ (service : ℕ) (sched : Schedule Sono) where
  -- A change of the channels, under the lock.
  abbrev pub change : ℕ → (Assoc ChannelState → Assoc ChannelState) → Action Sono (Unit {0})
  change k f = locked sched k λ s. (ok tt, set_channels f s)

  unfoldable pub on_opened : Option ChannelOpened → Action Sono ℕ
  on_opened none = pure 0
  on_opened (some e) =
      if e.service == service
      then (do
        change 0 (insert e.user (record { deposit = e.deposit; spent = 0; nonce = 0 }))
        pure 1)
      else pure 0

  unfoldable pub on_topped_up : Option ChannelToppedUp → Action Sono ℕ
  on_topped_up none = pure 0
  on_topped_up (some e) =
      if e.service == service
      then locked sched 1 (λ s. elim (lookup e.user s.channels) [
        | none ↦ (ok 0, s)
        | some ch ↦ (ok 1, set_channels (insert e.user (record ch { deposit = e.total })) s)
      ])
      else pure 0

  unfoldable pub on_settled : Option ChannelSettled → Action Sono ℕ
  on_settled none = pure 0
  on_settled (some e) =
      if e.service == service then (do change 2 (erase e.user); pure 1) else pure 0

  unfoldable pub poll_events : Provider → Action Sono ℕ
  unfolding on_opened on_topped_up on_settled each
  poll_events p = do
    current ← or_raise p.get_block_number ApiError.internal_error
    last ← λ s. (ok s.last_block, s)
    if leb current last then pure 0 else (do
      let from = from_block last current
      opened ← or_raise (p.opened from current) ApiError.internal_error
      n ← each on_opened opened
      topped_up ← or_raise (p.topped_up from current) ApiError.internal_error
      m ← each on_topped_up topped_up
      settled ← or_raise (p.settled from current) ApiError.internal_error
      j ← each on_settled settled
      λ s. (ok (n + m + j), record s { last_block = current }))

  unfoldable pub sync_channel : Provider → Option ChannelOpened → Action Sono ℕ
  sync_channel p none = pure 0
  sync_channel p (some e) =
      if e.service == service
      then (elim (p.get_channel e.user) [
        | none ↦ pure 0
        | some on_chain ↦
            if ltb 0 on_chain.deposit
            then locked sched 3 (λ s. elim (lookup e.user s.channels) [
              | some ch ↦ (ok 0, s)
              | none ↦ (ok 1, set_channels (insert e.user on_chain) s)
            ])
            else pure 0
      ])
      else pure 0

  unfoldable pub sync_channels : Provider → Action Sono ℕ
  unfolding sync_channel each
  sync_channels p = do
    current ← or_raise p.get_block_number ApiError.internal_error
    logs ← or_raise (p.opened (current - 1000) current) ApiError.internal_error
    each (sync_channel p) logs

  -- The rounds of `start_listener`, on what the node answers in each: errors are logged.
  unfoldable pub poll_rounds : List Provider → Sono → Sono
  unfolding poll_events
  poll_rounds [] s = s
  poll_rounds (p ∷ ps) s = poll_rounds ps (poll_events p s).1

  unfoldable pub start_listener : Provider → List Provider → Sono → Sono
  unfolding sync_channels poll_rounds
  start_listener p ps s = poll_rounds ps (sync_channels p s).1

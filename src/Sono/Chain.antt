-- ===== src/Sono/Chain.antt =====
-- What the contract does to a channel, event by event, and what a poll makes of the same events,
-- which it takes kind by kind.
use sonotxt_rust.Base.{
  ap, ◌∙◌, ℕ, ◌+◌, ◌≤◌, ◌≡◌, refl, Bool, ◌&&◌, Option, none, some, List, [], ◌∷◌, arith, ◌==◌,
  if◌then◌else◌, inl, inr, Bool-cases,
}
use sonotxt_rust.Billing.Channel.{ChannelState}
use sonotxt_rust.Sono.Listener.{ChannelOpened, ChannelToppedUp, ChannelSettled}

-- The events of the contract, in the order of the chain.
pub data Event : Type 0 where
  opened : ChannelOpened → Event
  topped_up : ChannelToppedUp → Event
  settled : ChannelSettled → Event

-- The logs of one kind: the filter by signature.
abbrev pub opened_logs : List Event → List (Option ChannelOpened)
opened_logs [] = []
opened_logs (opened e ∷ es) = some e ∷ opened_logs es
opened_logs (topped_up e ∷ es) = opened_logs es
opened_logs (settled e ∷ es) = opened_logs es

abbrev pub topped_up_logs : List Event → List (Option ChannelToppedUp)
topped_up_logs [] = []
topped_up_logs (opened e ∷ es) = topped_up_logs es
topped_up_logs (topped_up e ∷ es) = some e ∷ topped_up_logs es
topped_up_logs (settled e ∷ es) = topped_up_logs es

abbrev pub settled_logs : List Event → List (Option ChannelSettled)
settled_logs [] = []
settled_logs (opened e ∷ es) = settled_logs es
settled_logs (topped_up e ∷ es) = settled_logs es
settled_logs (settled e ∷ es) = some e ∷ settled_logs es

abbrev pub new_channel : ℕ → ChannelState
new_channel deposit = record { deposit = deposit; spent = 0; nonce = 0 }

abbrev pub deposit_of : Option ChannelState → Option ℕ
deposit_of none = none
deposit_of (some ch) = some ch.deposit

module _ (service user : ℕ) where
  abbrev pub is_own : (event_user event_service : ℕ) → Bool
  is_own u s = u == user && s == service

  -- What each kind of event does to the channel of the user with the service.
  abbrev pub after_opened : ChannelOpened → Option ChannelState → Option ChannelState
  after_opened e ch = if is_own e.user e.service then some (new_channel e.deposit) else ch

  abbrev pub after_topped_up : ChannelToppedUp → Option ChannelState → Option ChannelState
  after_topped_up e none = none
  after_topped_up e (some ch) =
      some (if is_own e.user e.service then record ch { deposit = e.total } else ch)

  abbrev pub after_settled : ChannelSettled → Option ChannelState → Option ChannelState
  after_settled e ch = if is_own e.user e.service then none else ch

  abbrev pub happens : Event → Option ChannelState → Option ChannelState
  happens (opened e) ch = after_opened e ch
  happens (topped_up e) ch = after_topped_up e ch
  happens (settled e) ch = after_settled e ch

  -- The channel after events in their order.
  unfoldable pub follow : List Event → Option ChannelState → Option ChannelState
  follow [] ch = ch
  follow (e ∷ es) ch = follow es (happens e ch)

  -- The deposit that the contract has of the channel after events, from the one that it had: it
  -- tops up and settles open channels only.
  abbrev pub deposit_happens : Event → Option ℕ → Option ℕ
  deposit_happens (opened e) d = if is_own e.user e.service then some e.deposit else d
  deposit_happens (topped_up e) none = none
  deposit_happens (topped_up e) (some d) = some (if is_own e.user e.service then e.total else d)
  deposit_happens (settled e) d = if is_own e.user e.service then none else d

  unfoldable pub deposit_after : List Event → Option ℕ → Option ℕ
  deposit_after [] d = d
  deposit_after (e ∷ es) d = deposit_after es (deposit_happens e d)

  happens-deposit :
      (e : Event) (ch : Option ChannelState)
      → deposit_of (happens e ch) ≡ deposit_happens e (deposit_of ch)
  happens-deposit (opened e) ch = ground arith
  happens-deposit (topped_up e) none = refl
  happens-deposit (topped_up e) (some ch) = ground arith
  happens-deposit (settled e) ch = ground arith

  pub follow-deposit :
      (es : List Event) (ch : Option ChannelState)
      → deposit_of (follow es ch) ≡ deposit_after es (deposit_of ch)
  unfolding follow deposit_after
  follow-deposit [] ch = refl
  follow-deposit (e ∷ es) ch =
      follow-deposit es (happens e ch) ∙ ap (deposit_after es) (happens-deposit e ch)

  -- The number of events that concern the channel.
  abbrev pub concerns : Event → Bool
  concerns (opened e) = is_own e.user e.service
  concerns (topped_up e) = is_own e.user e.service
  concerns (settled e) = is_own e.user e.service

  unfoldable pub count : List Event → ℕ
  count [] = 0
  count (e ∷ es) = let rest = count es in if concerns e then rest + 1 else rest

  -- The channel after the events of one kind.
  unfoldable pub opens : List Event → Option ChannelState → Option ChannelState
  opens [] ch = ch
  opens (opened e ∷ es) ch = opens es (after_opened e ch)
  opens (topped_up e ∷ es) ch = opens es ch
  opens (settled e ∷ es) ch = opens es ch

  unfoldable pub tops_up : List Event → Option ChannelState → Option ChannelState
  tops_up [] ch = ch
  tops_up (opened e ∷ es) ch = tops_up es ch
  tops_up (topped_up e ∷ es) ch = tops_up es (after_topped_up e ch)
  tops_up (settled e ∷ es) ch = tops_up es ch

  unfoldable pub settles : List Event → Option ChannelState → Option ChannelState
  settles [] ch = ch
  settles (opened e ∷ es) ch = settles es ch
  settles (topped_up e ∷ es) ch = settles es ch
  settles (settled e ∷ es) ch = settles es (after_settled e ch)

  -- Events of others change nothing.
  pub others_only :
      (es : List Event) (ch : Option ChannelState)
      → count es ≡ 0
      → (follow es ch ≡ ch) × (opens es ch ≡ ch) × (tops_up es ch ≡ ch) × (settles es ch ≡ ch)
  unfolding count follow opens tops_up settles
  others_only [] ch h = (refl, refl, refl, refl)
  others_only (opened e ∷ es) ch h =
      let (f, o, t, s) = others_only es ch (ground arith) in
      (ground arith, ground arith, ground arith, ground arith)
  others_only (topped_up e ∷ es) none h =
      let (f, o, t, s) = others_only es none (ground arith) in
      (ground arith, ground arith, ground arith, ground arith)
  others_only (topped_up e ∷ es) (some ch) h =
      let (f, o, t, s) = others_only es (some ch) (ground arith) in
      (ground arith, ground arith, ground arith, ground arith)
  others_only (settled e ∷ es) ch h =
      let (f, o, t, s) = others_only es ch (ground arith) in
      (ground arith, ground arith, ground arith, ground arith)

  -- With one event of the user at most, the order of the kinds does not show.
  pub one_event :
      (es : List Event) (ch : Option ChannelState)
      → count es ≤ 1
      → settles es (tops_up es (opens es ch)) ≡ follow es ch
  unfolding count follow opens tops_up settles
  one_event [] ch h = refl
  one_event (opened e ∷ es) ch h =
      let next : Option ChannelState = after_opened e ch in
      elim (Bool-cases (is_own e.user e.service)) [
        | inl here ↦ ground (arith, others_only es next (ground arith))
        | inr not_here ↦ ground (arith, one_event es ch (ground arith))
      ]
  one_event (topped_up e ∷ es) none h =
      let next : Option ChannelState = after_topped_up e none in
      elim (Bool-cases (is_own e.user e.service)) [
        | inl here ↦ ground (arith, others_only es next (ground arith))
        | inr not_here ↦ ground (arith, one_event es none (ground arith))
      ]
  one_event (topped_up e ∷ es) (some ch) h =
      let next : Option ChannelState = after_topped_up e (some ch) in
      elim (Bool-cases (is_own e.user e.service)) [
        | inl here ↦
            ground
              (arith, others_only es next (ground arith), others_only es (some ch) (ground arith))
        | inr not_here ↦ ground (arith, one_event es (some ch) (ground arith))
      ]
  one_event (settled e ∷ es) ch h =
      let next : Option ChannelState = after_settled e ch in
      elim (Bool-cases (is_own e.user e.service)) [
        | inl here ↦ ground (arith, others_only es next (ground arith))
        | inr not_here ↦ ground (arith, one_event es ch (ground arith))
      ]

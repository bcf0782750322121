-- ===== src/Sono/Forgotten.antt =====
-- What is spent between a poll that fails half way and the next is spent for free.
use sonotxt_rust.Base.{ℕ, ◌<◌, ◌≡◌, ap, ◌∙◌, Option, none, some, List, [], ◌∷◌, ◌++◌, arith}
use sonotxt_rust.Base.Errors.{ApiError, ok, err}
use sonotxt_rust.Base.Assoc.{Assoc, lookup}
use sonotxt_rust.Base.Action.{quiet, ◌>>=◌}
use sonotxt_rust.Billing.Channel.{ChannelState, remaining, charge}
use sonotxt_rust.Sono.{Sono}
use sonotxt_rust.Sono.Listener.{Provider, each, on_opened, from_block, poll_events}
use sonotxt_rust.Sono.Chain.{
  Event, opened, topped_up, settled, opened_logs, new_channel, count, opens, tops_up, settles,
  others_only, after_opened,
}
use sonotxt_rust.Sono.Polled.{opened-Turns}
use sonotxt_rust.Sono.Tracked.{Serves, poll_turns}

module _ (service user deposit : ℕ) where
  abbrev pub opening : Event
  opening = opened (record { user = user; service = service; deposit = deposit })

  -- The only event of the user is an opening.
  opens_once :
      (before after : List Event) (ch : Option ChannelState)
      → count service user before ≡ 0
      → count service user after ≡ 0
      → (opens service user (before ++ opening ∷ after) ch ≡ some (new_channel deposit))
        × (tops_up service user (before ++ opening ∷ after) (some (new_channel deposit))
            ≡ some (new_channel deposit))
        × (settles service user (before ++ opening ∷ after) (some (new_channel deposit))
            ≡ some (new_channel deposit))
  unfolding count opens tops_up settles
  opens_once [] after ch none_before none_after =
      let (f, o, t, s) = others_only service user after (some (new_channel deposit)) none_after in
      (ground arith, ground arith, ground arith)
  opens_once (opened e ∷ es) after ch none_before none_after =
      let (o, t, s) =
        opens_once es after (after_opened service user e ch) (ground arith) none_after in
      (ground arith, ground arith, ground arith)
  opens_once (topped_up e ∷ es) after ch none_before none_after =
      let (o, t, s) = opens_once es after ch (ground arith) none_after in
      (ground arith, ground arith, ground arith)
  opens_once (settled e ∷ es) after ch none_before none_after =
      let (o, t, s) = opens_once es after ch (ground arith) none_after in
      (ground arith, ground arith, ground arith)

  module _ (p : Provider) (s : Sono) (current : ℕ) (es : List Event)
      (later : s.last_block < current) (number : p.get_block_number ≡ some current)
      (answers : p.opened (from_block s.last_block current) current ≡ some (opened_logs es))
      (fails : p.topped_up (from_block s.last_block current) current ≡ none) where
    poll_fails :
        (n : ℕ) (a : Sono)
        → each (on_opened service quiet) (opened_logs es) s ≡ (ok n, a)
        → poll_events service quiet p s ≡ (err ApiError.internal_error, a)
    unfolding poll_events ◌>>=◌
    poll_fails n a first = ground arith

    -- A poll whose second query fails keeps the channels that it has opened, but not its place.
    half_polled :
        (a : Sono) × (poll_events service quiet p s ≡ (err ApiError.internal_error, a))
        × (a.last_block ≡ s.last_block)
    half_polled =
        let (n, a, first, (same, turned)) = opened-Turns service es s in
        (a, poll_fails n a first, same)

  left_over :
      (channels : Assoc ChannelState)
      → lookup user channels ≡ some (new_channel deposit)
      → remaining user channels ≡ deposit
  unfolding remaining
  left_over channels there = ground arith

-- If a user opened a channel since the last poll and did nothing else there, and a poll fails in
-- its second query, then whatever is charged before the next poll, which the node answers for the
-- same blocks, is forgotten: the whole deposit is left after it. Nobody else interferes.
pub spending_forgotten :
    (service user deposit amount spent : ℕ) (p p' : Provider) (s : Sono) (current : ℕ)
    (before after : List Event) (channels : Assoc ChannelState)
    → count service user before ≡ 0
    → count service user after ≡ 0
    → p.get_block_number ≡ some current
    → p.opened (from_block s.last_block current) current
      ≡ some (opened_logs (before ++ opening service user deposit ∷ after))
    → p.topped_up (from_block s.last_block current) current ≡ none
    → Serves p' s.last_block current (before ++ opening service user deposit ∷ after)
    → let (r, failed) = poll_events service quiet p s in
      charge user amount failed.channels ≡ some (spent, channels)
      → (r ≡ err ApiError.internal_error)
        × (n : ℕ) × (s' : Sono) × (poll_events service quiet p'
              (record failed { channels = channels })
            ≡ (ok n, s'))
        × (remaining user s'.channels ≡ deposit)
spending_forgotten service user deposit amount spent p p' s current before after channels
      none_before none_after number answers fails serves charged =
    let es : List Event = before ++ opening service user deposit ∷ after in
    let (a, failed, same) =
      half_polled service user deposit p s current es serves.later number answers fails in
    let again : Sono = record (poll_events service quiet p s).1 { channels = channels } in
    let place : again.last_block ≡ s.last_block = ap (λ r. r.1.last_block) failed ∙ same in
    let (n, s', done, at, turned) = poll_turns service p' again current es (rw place serves) in
    let (o, t, st) =
      opens_once service user deposit before after (lookup user channels) none_before none_after in
    (
      ap (λ r. r.0) failed,
      n,
      s',
      done,
      left_over service user deposit s'.channels (
          turned user
          ∙ ap (λ c. settles service user es (tops_up service user es c)) o
          ∙ ap (settles service user es) t
          ∙ st),
    )

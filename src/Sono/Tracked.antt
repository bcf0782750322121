-- ===== src/Sono/Tracked.antt =====
-- A poll against the contract: when the channels are the contract's, and when a channel is lost.
use sonotxt_rust.Base.{
  ℕ, ◌+◌, ◌≤◌, ◌<◌, ◌≡◌, refl, ap, ◌∙◌, sym, Option, none, some, List, [], ◌∷◌, ◌++◌, arith,
  append_assoc,
}
use sonotxt_rust.Base.Errors.{ok}
use sonotxt_rust.Base.Assoc.{lookup}
use sonotxt_rust.Base.Action.{quiet, ◌>>=◌}
use sonotxt_rust.Billing.Channel.{ChannelState}
use sonotxt_rust.Sono.{Sono}
use sonotxt_rust.Sono.Listener.{
  Provider, each, on_opened, on_topped_up, on_settled, from_block, poll_events,
}
use sonotxt_rust.Sono.Chain.{
  Event, opened, topped_up, settled, opened_logs, topped_up_logs, settled_logs, new_channel,
  happens, follow, count, opens, tops_up, settles, one_event, after_settled, deposit_of,
  deposit_after, follow-deposit, others_only,
}
use sonotxt_rust.Sono.Polled.{opened-Turns, topped_up-Turns, settled-Turns}

-- A node that is at a block after those polled, and whose logs since are those of the events.
pub record Serves (p : Provider) (last_block current : ℕ) (es : List Event) : Type 0 where
  pub later : last_block < current
  pub number : p.get_block_number ≡ some current
  pub opens : p.opened (from_block last_block current) current ≡ some (opened_logs es)
  pub tops_up : p.topped_up (from_block last_block current) current ≡ some (topped_up_logs es)
  pub settles : p.settled (from_block last_block current) current ≡ some (settled_logs es)

module _ (service : ℕ) (p : Provider) (s : Sono) (current : ℕ) (es : List Event) where
  poll_run :
      (n m j : ℕ) (a b c : Sono)
      → Serves p s.last_block current es
      → each (on_opened service quiet) (opened_logs es) s ≡ (ok n, a)
      → each (on_topped_up service quiet) (topped_up_logs es) a ≡ (ok m, b)
      → each (on_settled service quiet) (settled_logs es) b ≡ (ok j, c)
      → poll_events service quiet p s ≡ (ok (n + m + j), record c { last_block = current })
  unfolding poll_events ◌>>=◌
  poll_run n m j a b c h first second third =
      ground (arith, h.later, h.number, h.opens, h.tops_up, h.settles)

  -- A poll that nobody disturbs takes the events kind by kind.
  pub poll_turns :
      Serves p s.last_block current es
      → (n : ℕ) × (s' : Sono) × (poll_events service quiet p s ≡ (ok n, s'))
        × (s'.last_block ≡ current)
        × ((user : ℕ)
            → lookup user s'.channels
              ≡ settles service user es
                  (tops_up service user es (opens service user es (lookup user s.channels))))
  poll_turns h =
      let (n, a, first, (la, fa)) = opened-Turns service es s in
      let (m, b, second, (lb, fb)) = topped_up-Turns service es a in
      let (j, c, third, (lc, fc)) = settled-Turns service es b in
      (
        n + m + j,
        record c { last_block = current },
        poll_run n m j a b c h first second third,
        refl,
        λ user.
            fc user
            ∙ ap (settles service user es) (fb user ∙ ap (tops_up service user es) (fa user)),
      )

  -- If the events since the last poll concern each channel once at most, and the service had the
  -- deposits of the contract, those on the chain before these events, then a poll that nobody
  -- disturbs and that the node answers leaves it with the deposits that the contract has after
  -- them, changes each channel as its event says, and stands at the node's block.
  pub poll_events-follow :
      (on_chain : ℕ → Option ℕ)
      → ((user : ℕ) → deposit_of (lookup user s.channels) ≡ on_chain user)
      → Serves p s.last_block current es
      → ((user : ℕ) → count service user es ≤ 1)
      → (n : ℕ) × (s' : Sono) × (poll_events service quiet p s ≡ (ok n, s'))
        × (s'.last_block ≡ current)
        × ((user : ℕ)
            → deposit_of (lookup user s'.channels) ≡ deposit_after service user es (on_chain user))
        × ((user : ℕ) → lookup user s'.channels ≡ follow service user es (lookup user s.channels))
  poll_events-follow on_chain agrees h once =
      let (n, s', done, at, turned) = poll_turns h in
      let followed : (user : ℕ)
          → lookup user s'.channels ≡ follow service user es (lookup user s.channels) =
        λ user. turned user ∙ one_event service user es (lookup user s.channels) (once user) in
      (
        n,
        s',
        done,
        at,
        (λ user.
            ap deposit_of (followed user)
            ∙ follow-deposit service user es (lookup user s.channels)
            ∙ ap (deposit_after service user es) (agrees user)),
        followed,
      )

settled_none : (service user : ℕ) (es : List Event) → settles service user es none ≡ none
unfolding settles
settled_none service user [] = refl
settled_none service user (opened e ∷ es) = settled_none service user es
settled_none service user (topped_up e ∷ es) = settled_none service user es
settled_none service user (settled e ∷ es) = ground (arith, settled_none service user es)

settled_gone :
    (service user : ℕ) (before after : List Event) (ch : Option ChannelState)
    → settles service user
        (before ++ settled (record { user = user; service = service }) ∷ after)
        ch
      ≡ none
unfolding settles
settled_gone service user [] after ch = ground (arith, settled_none service user after)
settled_gone service user (opened e ∷ es) after ch = settled_gone service user es after ch
settled_gone service user (topped_up e ∷ es) after ch = settled_gone service user es after ch
settled_gone service user (settled e ∷ es) after ch =
    settled_gone service user es after (after_settled service user e ch)

follow_opened :
    (service user deposit : ℕ) (es after : List Event) (ch : Option ChannelState)
    → count service user after ≡ 0
    → follow service user
        (es ++ opened (record { user = user; service = service; deposit = deposit }) ∷ after)
        ch
      ≡ some (new_channel deposit)
unfolding follow
follow_opened service user deposit [] after ch rest =
    ground (arith, (others_only service user after (some (new_channel deposit)) rest).0)
follow_opened service user deposit (e ∷ es) after ch rest =
    follow_opened service user deposit es after (happens service user e ch) rest

-- If a user's channel was settled and then opened again since the last poll, and no event after
-- that concerned it, whatever happened before and to others, then the contract has the new
-- channel, but a poll that nobody disturbs and that the node answers leaves the user without a
-- channel, and goes on from there.
pub reopened_lost :
    (service user deposit : ℕ) (before between after : List Event) (p : Provider) (s : Sono)
    (current : ℕ)
    → let es : List Event =
        before
        ++ settled (record { user = user; service = service })
          ∷ (between
              ++ opened (record { user = user; service = service; deposit = deposit }) ∷ after) in
      count service user after ≡ 0
      → Serves p s.last_block current es
      → (follow service user es (lookup user s.channels) ≡ some (new_channel deposit))
        × (n : ℕ) × (s' : Sono) × (poll_events service quiet p s ≡ (ok n, s'))
        × (s'.last_block ≡ current)
        × (lookup user s'.channels ≡ none)
reopened_lost service user deposit before between after p s current rest h =
    let last : List Event =
      opened (record { user = user; service = service; deposit = deposit }) ∷ after in
    let (n, s', done, at, turned) =
      poll_turns service p s current
        (before ++ settled (record { user = user; service = service }) ∷ (between ++ last)) h in
    (
      ap (λ es. follow service user es (lookup user s.channels))
            (sym (
              append_assoc before (settled (record { user = user; service = service }) ∷ between)
                last))
          ∙ follow_opened service user deposit
              (before ++ settled (record { user = user; service = service }) ∷ between) after
              (lookup user s.channels) rest,
      n,
      s',
      done,
      at,
      turned user ∙ settled_gone service user before (between ++ last) _,
    )

-- ===== src/Sono/Tests.antt =====
-- Runs of the channels: service 1, and user 20, who opens a channel of 50 in block 7.
use sonotxt_rust.Base.{Option, ℕ, ◌≤◌, ◌≡◌, refl, none, some, List, [], ◌∷◌, ◌++◌, arith}
use sonotxt_rust.Base.Errors.{ApiError, ok, err}
use sonotxt_rust.Base.Assoc.{lookup, insert}
use sonotxt_rust.Base.Action.{quiet, ◌>>=◌}
use sonotxt_rust.Billing.Channel.{remaining, charge}
use sonotxt_rust.Sono.{Sono}
use sonotxt_rust.Sono.Listener.{Provider, each, on_opened, poll_events}
use sonotxt_rust.Sono.Chain.{
  Event, settled, opened_logs, topped_up_logs, settled_logs, new_channel, deposit_of, deposit_after,
  follow, count,
}
use sonotxt_rust.Sono.Tracked.{Serves, poll_events-follow, reopened_lost}
use sonotxt_rust.Sono.Forgotten.{opening, spending_forgotten}
use sonotxt_rust.Sono.Settled.{state_message_injective}

abbrev start : Sono
start = record { channels = []; last_block = 5 }

-- A node at block 9 that answers with the logs of the events.
abbrev node : List Event → Provider
node es = record {
  get_block_number = some 9;
  opened = λ from to. some (opened_logs es);
  topped_up = λ from to. some (topped_up_logs es);
  settled = λ from to. some (settled_logs es);
  get_channel = λ user. none;
}

node-Serves : (es : List Event) → Serves (node es) 5 9 es
node-Serves es = record {
  later = omega arith;
  number = refl;
  opens = refl;
  tops_up = refl;
  settles = refl;
}

abbrev one_opening : List Event
one_opening = opening 1 20 50 ∷ []

once : (user : ℕ) → count 1 user one_opening ≤ 1
unfolding count
once user = ground arith

abbrev none_open : ℕ → Option ℕ
none_open user = none

starts_closed : (user : ℕ) → deposit_of (lookup user start.channels) ≡ none_open user
unfolding lookup
starts_closed user = refl

poll_events-follow_example :
    (n : ℕ) × (s' : Sono) × (poll_events 1 quiet (node one_opening) start ≡ (ok n, s'))
    × (s'.last_block ≡ 9)
    × ((user : ℕ)
        → deposit_of (lookup user s'.channels) ≡ deposit_after 1 user one_opening (none_open user))
    × ((user : ℕ)
        → lookup user s'.channels ≡ follow 1 user one_opening (lookup user start.channels))
poll_events-follow_example =
    poll_events-follow 1 (node one_opening) start 9 one_opening none_open starts_closed
      (node-Serves one_opening) once

abbrev reopening : List Event
reopening = settled (record { user = 20; service = 1 }) ∷ ([] ++ opening 1 20 50 ∷ [])

nothing_else : count 1 20 [] ≡ 0
unfolding count
nothing_else = refl

reopened_lost_example :
    (follow 1 20 reopening (lookup 20 start.channels) ≡ some (new_channel 50))
    × (n : ℕ) × (s' : Sono) × (poll_events 1 quiet (node reopening) start ≡ (ok n, s'))
    × (s'.last_block ≡ 9)
    × (lookup 20 s'.channels ≡ none)
reopened_lost_example =
    reopened_lost 1 20 50 [] [] [] (node reopening) start 9 nothing_else (node-Serves reopening)

-- The second query fails.
abbrev broken : Provider
broken = record (node one_opening) { topped_up = λ from to. none }

charged :
    charge 20 30 (poll_events 1 quiet broken start).1.channels
    ≡ some (30, (20, record { deposit = 50; spent = 30; nonce = 1 }) ∷ [])
unfolding poll_events on_opened each charge insert lookup ◌>>=◌
charged = refl

spending_forgotten_example :
    let (r, failed) = poll_events 1 quiet broken start in
    (r ≡ err ApiError.internal_error)
    × (n : ℕ) × (s' : Sono) × (poll_events 1 quiet
          (node one_opening)
          (record failed { channels = (20, record { deposit = 50; spent = 30; nonce = 1 }) ∷ [] })
        ≡ (ok n, s'))
    × (remaining 20 s'.channels ≡ 50)
spending_forgotten_example =
    spending_forgotten 1 20 50 30 30 broken (node one_opening) start 9 [] []
      ((20, record { deposit = 50; spent = 30; nonce = 1 }) ∷ []) nothing_else nothing_else refl
      refl refl (node-Serves one_opening) charged

abbrev thirty : ℕ
thirty = 30

abbrev one : ℕ
one = 1

state_message_injective_example : (thirty ≡ thirty) × (one ≡ one)
state_message_injective_example =
    state_message_injective (7 ∷ []) (7 ∷ []) thirty thirty one one (omega arith) (omega arith)
      (omega arith) (omega arith) refl

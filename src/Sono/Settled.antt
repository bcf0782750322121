-- ===== src/Sono/Settled.antt =====
-- What the service signs says what the user owes; what is settled is what was read first.
use mathlib.Core.List.{reverse, reverse-reverse, reverse-append}
use sonotxt_rust.Base.{
  ℕ, ◌^◌, ◌<◌, ◌≡◌, refl, ap, ◌∙◌, sym, Bool, true, none, some, [], ◌++◌, arith, append_assoc,
  slice, slice-append,
}
use sonotxt_rust.Base.Bytes.{Bytes, to_bytes, of_bytes, of_bytes-to_bytes, length-to_bytes}
use sonotxt_rust.Base.Errors.{ok}
use sonotxt_rust.Base.Assoc.{lookup, lookup-erase}
use sonotxt_rust.Base.Action.{before_statement, ◌>>=◌}
use sonotxt_rust.Billing.Channel.{ChannelState, charge}
use sonotxt_rust.Sono.{Sono, state_message, settle}

module _ (cid : Bytes) (spent nonce : ℕ) where
  -- The message backwards: both numbers little-endian, then the channel.
  backwards :
      reverse (state_message cid spent nonce)
      ≡ to_bytes 8 nonce ++ (to_bytes 32 spent ++ reverse cid)
  unfolding state_message
  backwards =
      reverse-append cid (reverse (to_bytes 32 spent) ++ reverse (to_bytes 8 nonce))
      ∙ ap (λ b. b ++ reverse cid)
          (reverse-append (reverse (to_bytes 32 spent)) (reverse (to_bytes 8 nonce)))
      ∙ ap (λ b. (b ++ reverse (reverse (to_bytes 32 spent))) ++ reverse cid)
          (reverse-reverse (to_bytes 8 nonce))
      ∙ ap (λ b. (to_bytes 8 nonce ++ b) ++ reverse cid) (reverse-reverse (to_bytes 32 spent))
      ∙ append_assoc (to_bytes 8 nonce) (to_bytes 32 spent) (reverse cid)

  nonce_of :
      nonce < 256 ^ 8 → of_bytes (slice (reverse (state_message cid spent nonce)) 0 8) ≡ nonce
  nonce_of small =
      rw
        (
          backwards,
          slice-append [] (to_bytes 8 nonce) (to_bytes 32 spent ++ reverse cid) 0 8 refl
              (omega (arith, length-to_bytes 8 nonce)),
        )
        (of_bytes-to_bytes 8 nonce small)

  spent_of :
      spent < 256 ^ 32 → of_bytes (slice (reverse (state_message cid spent nonce)) 8 40) ≡ spent
  spent_of small =
      rw
        (
          backwards,
          slice-append (to_bytes 8 nonce) (to_bytes 32 spent) (reverse cid) 8 40
              (sym (length-to_bytes 8 nonce))
              (omega (arith, length-to_bytes 8 nonce, length-to_bytes 32 spent)),
        )
        (of_bytes-to_bytes 32 spent small)

-- The message that is signed determines the amount and the nonce, of 256 and of 64 bits.
pub state_message_injective :
    (cid cid' : Bytes) (spent spent' nonce nonce' : ℕ)
    → spent < 2 ^ 256
    → spent' < 2 ^ 256
    → nonce < 2 ^ 64
    → nonce' < 2 ^ 64
    → state_message cid spent nonce ≡ state_message cid' spent' nonce'
    → (spent ≡ spent') × (nonce ≡ nonce')
state_message_injective cid cid' spent spent' nonce nonce' s s' n n' e = (
  sym (spent_of cid spent nonce (omega arith))
      ∙ ap (λ m. of_bytes (slice (reverse m) 8 40)) e
      ∙ spent_of cid' spent' nonce' (omega arith),
  sym (nonce_of cid spent nonce (omega arith))
      ∙ ap (λ m. of_bytes (slice (reverse m) 0 8)) e
      ∙ nonce_of cid' spent' nonce' (omega arith),
)

-- A charge that succeeds after the channel was closed with what had been spent, and before it is
-- removed, is in no settlement: `settle` succeeds, and the channel is gone.
pub charged_while_settled :
    (close : (user spent nonce : ℕ) (sig : Bytes) → Bool) (user amount spent : ℕ) (sig : Bytes)
    (s charged : Sono) (ch : ChannelState)
    → lookup user s.channels ≡ some ch
    → close user ch.spent ch.nonce sig ≡ true
    → charge user amount s.channels ≡ some (spent, charged.channels)
    → let (r, s') = settle (before_statement 1 (λ t. charged)) close user sig s in
      (r ≡ ok tt) × (lookup user s'.channels ≡ none)
unfolding settle ◌>>=◌
charged_while_settled close user amount spent sig s charged ch there closed paid =
    (ground arith, ground (arith, lookup-erase user user charged.channels))

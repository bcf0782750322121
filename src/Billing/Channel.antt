-- ===== src/Billing/Channel.antt =====
-- The payment channels of services/sono.rs: what a user has left, and a charge.
use sonotxt_rust.Base.{ℕ, ◌+◌, ◌-◌, ◌%◌, ◌^◌, Option, none, some, ltb, if◌then◌else◌}
use sonotxt_rust.Base.Assoc.{Assoc, lookup, insert}

pub record ChannelState : Type 0 where
  pub deposit : ℕ
  pub spent : ℕ
  pub nonce : ℕ

-- `remaining`: the saturating difference, 0 without a channel
unfoldable pub remaining : ℕ → Assoc ChannelState → ℕ
remaining user channels = elim (lookup user channels) [ none ↦ 0 | some ch ↦ ch.deposit - ch.spent ]

-- `charge`: the new amount spent and the new channels, or no channel or too little in it
unfoldable pub charge : ℕ → ℕ → Assoc ChannelState → Option (ℕ × Assoc ChannelState)
charge user amount channels = elim (lookup user channels) [
  | none ↦ none
  | some ch ↦
      let new_spent = (ch.spent + amount) % 2 ^ 256 in
      if ltb ch.deposit new_spent
      then none
      else some (
        new_spent,
        insert user (record ch { spent = new_spent; nonce = (ch.nonce + 1) % 2 ^ 64 }) channels,
      )
]

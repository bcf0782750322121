-- ===== src/Billing/Linked.antt =====
-- The three ways through `charge_linked`: balance and channel, channel alone, refused.
use sonotxt_rust.Base.{ℕ, ◌-◌, ◌≤◌, ◌<◌, ◌≡◌, refl, ap, some, arith}
use native.Mathlib.Decide.{dec_le}
use sonotxt_rust.Base.Int.{ℤ, pos, negsuc, ◌+ℤ◌, ◌-ℤ◌, ◌≤ℤ◌, int_laws}
use sonotxt_rust.Base.Errors.{ApiError, ok, err}
use sonotxt_rust.Base.Assoc.{Assoc}
use sonotxt_rust.Base.Action.{quiet, ◌>>=◌}
use sonotxt_rust.Billing.{Ledger, balance, drain, charge_channel, charge_linked}
use sonotxt_rust.Billing.Channel.{ChannelState, remaining, charge}
use sonotxt_rust.Billing.Parts.{Fits, charge_within, Charged, drain_lem}

-- The three ways through `charge_linked`.
module _ (user evm c : ℕ) (w : Ledger) where
  charge_linked_partial :
      (b s : ℕ) (channels : Assoc ChannelState)
      → 1 ≤ b
      → b < c
      → c - b ≤ remaining evm w.channels
      → charge evm (c - b) w.channels ≡ some (s, channels)
      → charge_linked quiet user evm (pos c) (pos b) w ≡ (
        ok (record { from_custodial = pos b; from_channel = pos (c - b) }),
        record (drain user w).1 { channels = channels },
      )
  unfolding charge_linked charge_channel drain ◌-ℤ◌ ◌>>=◌
  charge_linked_partial b s channels one less within e = ground arith

  charge_linked_full :
      (b : ℤ) (s : ℕ) (channels : Assoc ChannelState)
      → (pos 1 ≤ℤ b → ¬ (pos c ≤ℤ b +ℤ pos (remaining evm w.channels)))
      → c ≤ remaining evm w.channels
      → charge evm c w.channels ≡ some (s, channels)
      → charge_linked quiet user evm (pos c) b w ≡ (
        ok (record { from_custodial = pos 0; from_channel = pos c }),
        record w { channels = channels },
      )
  unfolding charge_linked charge_channel ◌-ℤ◌ ◌+ℤ◌ ◌>>=◌
  charge_linked_full b s channels short within e = ground arith

  charge_linked_refused :
      (b : ℤ)
      → ¬ (pos c ≤ℤ b)
      → (pos 1 ≤ℤ b → ¬ (pos c ≤ℤ b +ℤ pos (remaining evm w.channels)))
      → remaining evm w.channels < c
      → charge_linked quiet user evm (pos c) b w ≡ (err ApiError.insufficient_balance, w)
  unfolding charge_linked charge_channel ◌-ℤ◌ ◌+ℤ◌ ◌>>=◌
  charge_linked_refused b over short none_left = ground arith

module _ (user evm c : ℕ) (w : Ledger) (fits : Fits w.channels) where
  linked_partial :
      (b : ℕ)
      → balance user w ≡ pos b
      → 1 ≤ b
      → b < c
      → c - b ≤ remaining evm w.channels
      → Charged user (some evm) (pos c) w (charge_linked quiet user evm (pos c) (pos b) w)
  linked_partial b has one less within =
      let (s, channels, e, rest, apart) =
        charge_within evm (c - b) w.channels fits (omega arith) within in
      let (drained, others, same, _) = drain_lem user b w one has in
      rw (charge_linked_partial user evm c w b s channels one less within e) (
        omega int_laws,
        omega arith,
        omega arith,
        rw (drained, has) (omega int_laws),
        omega int_laws,
        others,
        λ e ne. apart e (λ q. ne (ap some q)),
        same,
      )

  linked_full :
      (b : ℤ)
      → 1 ≤ c
      → (pos 1 ≤ℤ b → ¬ (pos c ≤ℤ b +ℤ pos (remaining evm w.channels)))
      → c ≤ remaining evm w.channels
      → Charged user (some evm) (pos c) w (charge_linked quiet user evm (pos c) b w)
  linked_full b one short within =
      let (s, channels, e, rest, apart) = charge_within evm c w.channels fits one within in
      rw (charge_linked_full user evm c w b s channels short within e) (
        omega int_laws,
        omega arith,
        omega arith,
        omega int_laws,
        omega int_laws,
        λ u ne. refl,
        λ e ne. apart e (λ q. ne (ap some q)),
        refl,
      )

  linked_short :
      (b : ℤ)
      → balance user w ≡ b
      → 1 ≤ c
      → ¬ (pos c ≤ℤ b)
      → (pos 1 ≤ℤ b → ¬ (pos c ≤ℤ b +ℤ pos (remaining evm w.channels)))
      → Charged user (some evm) (pos c) w (charge_linked quiet user evm (pos c) b w)
  linked_short b has one over short = elim (dec_le c (remaining evm w.channels)) [
    | yes enough ↦ linked_full b one short enough
    | no few ↦
        rw (charge_linked_refused user evm c w b over short (omega arith))
          (refl, refl, (rw has over), omega arith, rw has short)
  ]

  -- Which way it goes is told by the balance and by what remains.
  pub charge_linked-Charged :
      (b : ℤ)
      → balance user w ≡ b
      → 1 ≤ c
      → ¬ (pos c ≤ℤ b)
      → Charged user (some evm) (pos c) w (charge_linked quiet user evm (pos c) b w)
  charge_linked-Charged (negsuc b) has one over =
      linked_short (negsuc b) has one over (λ p. absurd (omega arith))
  charge_linked-Charged (pos b) has one over = elim (dec_le 1 b) [
    | no none_there ↦ linked_short (pos b) has one over (λ p. absurd (omega arith))
    | yes some_there ↦ elim (dec_le (c - b) (remaining evm w.channels)) [
      | yes within ↦ linked_partial b has some_there (omega arith) within
      | no beyond ↦ linked_short (pos b) has one over (λ p q. beyond (omega int_laws))
    ]
  ]

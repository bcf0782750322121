-- ===== src/Sono/Routes.antt =====
-- sonotxt-api/src/routes/sono.rs: the handlers of the channels. What parses addresses and hex is a
-- parameter, and numbers are not printed.
use sonotxt_rust.Base.{ℕ, ◌-◌, Bool, true, false, Option, none, some, ltb}
use sonotxt_rust.Base.Bytes.{Bytes}
use sonotxt_rust.Base.Text.{Text}
use sonotxt_rust.Base.Errors.{Result, ok, err}
use sonotxt_rust.Base.Action.{Schedule}
use sonotxt_rust.Billing.Channel.{ChannelState, remaining}
use sonotxt_rust.Sono.{Sono, SignedState, get_channel, sign_state, settle}

pub data StatusCode : Type 0 where
  service_unavailable bad_request internal_server_error : StatusCode

pub record ChannelResponse : Type 0 where
  pub has_channel : Bool
  pub deposit : ℕ
  pub spent : ℕ
  pub remaining : ℕ
  pub nonce : ℕ

pub record BalanceResponse : Type 0 where
  pub balance : ℕ
  pub has_channel : Bool
  pub channel_remaining : ℕ

-- A handler of a service that may not be configured, for an address that may not parse.
abbrev pub with_user :
    {A : Type 0}
    → (sono : Option Sono) (user : Option ℕ) → (ℕ → Sono → Result StatusCode A × Sono)
    → Result StatusCode A × Option Sono
with_user none user f = (err service_unavailable, none)
with_user (some s) none f = (err bad_request, some s)
with_user (some s) (some user) f = let (r, s') = f user s in (r, some s')

-- `map_err(|e| INTERNAL_SERVER_ERROR)`
abbrev pub internal {ℓ} : {E : Type ℓ} {A : Type 0} → Result E A → Result StatusCode A
internal (ok a) = ok a
internal (err e) = err internal_server_error

abbrev pub channel_response : Option ChannelState → ChannelResponse
channel_response (some ch) = record {
  has_channel = true;
  deposit = ch.deposit;
  spent = ch.spent;
  remaining = ch.deposit - ch.spent;
  nonce = ch.nonce;
}
channel_response none = record {
  has_channel = false;
  deposit = 0;
  spent = 0;
  remaining = 0;
  nonce = 0;
}

module _ (parse_address : Text → Option ℕ) (sono : Option Sono) where
  unfoldable pub channel_status : Text → Result StatusCode ChannelResponse × Option Sono
  channel_status user =
      with_user sono (parse_address user) λ u s. (ok (channel_response (get_channel u s)), s)

  unfoldable pub balance : Text → Result StatusCode BalanceResponse × Option Sono
  balance user = with_user sono (parse_address user) λ u s. (
    ok (record {
      balance = remaining u s.channels;
      has_channel = ltb 0 (remaining u s.channels);
      channel_remaining = remaining u s.channels;
    }),
    s,
  )

  unfoldable pub sign_state_route :
      (channel_id : ℕ → Option Bytes) (sign : Bytes → Option Bytes) (sched : Schedule Sono)
      → Text
      → Result StatusCode SignedState × Option Sono
  sign_state_route channel_id sign sched user =
      with_user sono (parse_address user)
        λ u s. let (r, s') = sign_state sched channel_id sign u s in (internal r, s')

  unfoldable pub settle_route :
      (decode_hex : Text → Option Bytes)
      (cooperative_close : (user spent nonce : ℕ) (sig : Bytes) → Bool) (sched : Schedule Sono)
      (user signature : Text)
      → Result StatusCode (Unit {0}) × Option Sono
  settle_route decode_hex cooperative_close sched user signature =
      with_user sono (parse_address user) λ u s. elim (decode_hex signature) [
        | none ↦ (err bad_request, s)
        | some sig ↦ let (r, s') = settle sched cooperative_close u sig s in (internal r, s')
      ]

-- ===== src/Api/Tests.antt =====
-- Runs of the synthesis endpoint: account 1 has 30, address hash 77 has used 290 of 300 today.
use Prim.Native.String.{len}
use sonotxt_rust.Base.{ℕ, ◌≡◌, refl, false, String, Option, none, [], ◌∷◌, arith}
use sonotxt_rust.Base.Int.{as_i32, ℤ, pos, ◌-ℤ◌, ltb_ℤ}
use sonotxt_rust.Base.Errors.{ok}
use sonotxt_rust.Base.Assoc.{lookup, insert}
use sonotxt_rust.Base.Action.{quiet, ◌>>=◌}
use sonotxt_rust.Billing.{Ledger, deduct, check_and_charge}
use sonotxt_rust.Billing.Parts.{Fits}
use sonotxt_rust.Billing.Charge.{channel_of}
use sonotxt_rust.Api.{Store}
use sonotxt_rust.Api.FreeTier.{used_today, free_tier_daily_limit}
use sonotxt_rust.Api.Synthesis.{TtsRequest, authenticated, tts}
use sonotxt_rust.Api.Queued.{Served, tts-Served}

abbrev to_h160 : String → Option ℕ
to_h160 wallet = none

abbrev price : ℕ → ℤ
price n = pos 20

abbrev hash_account : ℕ → ℕ
hash_account n = n

abbrev ledger : Ledger
ledger = record { balances = (1, pos 30) ∷ []; channels = []; transactions = [] }

abbrev store : Store
store = record {
  ledger = ledger;
  usage = (77, record { chars_used = pos 290; last_reset = 5 }) ∷ [];
  jobs = [];
  today = 5;
}

abbrev request : TtsRequest
request = record { text = "hello"; voice = "ryan"; storage = none; engine = "qwen" }

no_channels : Fits ledger.channels
unfolding lookup
no_channels e ch found = absurd (ground arith)

tts-Served_example :
    Served 1
      (channel_of to_h160 false none)
      (hash_account 1)
      (as_i32 (len request.text))
      (price (len request.text))
      store
      (tts to_h160 false price hash_account 5000 quiet quiet
        (authenticated 1 9 none)
        request
        8
        store)
tts-Served_example =
    tts-Served to_h160 false price hash_account 5000 request 1 9 8 none store 20 no_channels
      (omega arith) refl

paid_20 : check_and_charge quiet to_h160 false 1 none (price (len request.text)) ledger ≡ (
  ok (record { from_custodial = pos 20; from_channel = pos 0 }),
  record ledger { balances = (1, pos 30 -ℤ pos 20) ∷ [] },
)
unfolding check_and_charge deduct lookup insert ◌>>=◌
paid_20 = refl

room_left : ltb_ℤ (free_tier_daily_limit -ℤ used_today 77 store) (as_i32 (len request.text)) ≡ false
unfolding used_today lookup ◌-ℤ◌
room_left = refl

-- ===== src/Api/Unpaid.antt =====
-- What the handler `tts` loses when a statement fails, or another request runs, in between.
use text.Mathlib.Text.{◌==◌}
use Prim.Native.String.{len}
use sonotxt_rust.Base.{ℕ, ◌≡◌, ap, ◌∙◌, Bool, false, String, Option, some, ◌∷◌, arith, ltb}
use sonotxt_rust.Base.{◌==◌ as ◌=ℕ◌}
use sonotxt_rust.Base.Int.{as_i32, ℤ, ◌+ℤ◌, ◌-ℤ◌, ltb_ℤ}
use sonotxt_rust.Base.Errors.{ApiError, ok, err}
use sonotxt_rust.Base.Assoc.{insert, lookup-insert_self}
use sonotxt_rust.Base.Action.{Schedule, quiet, before_statement, ◌>>=◌}
use sonotxt_rust.Billing.{Ledger, ChargeResult, check_and_charge}
use sonotxt_rust.Api.{Store, Owner}
use sonotxt_rust.Api.FreeTier.{
  used_today, touch, add_used, check_free_tier_limit_with, free_tier_daily_limit,
}
use sonotxt_rust.Api.Quota.{row, added, add_used-touch, touch-used}
use sonotxt_rust.Api.Synthesis.{
  TtsRequest, TtsResponse, authenticated, free_job, tts_free, tts_paid, tts_authenticated, tts,
}

used_twice :
    (ip : ℕ) (a b : ℤ) (s : Store)
    → used_today ip (add_used ip b (add_used ip a (touch ip s).1).1).1 ≡ used_today ip s +ℤ a +ℤ b
unfolding used_today add_used
used_twice ip a b s =
    ap (λ v. used_today ip (add_used ip b v).1) (add_used-touch ip a s)
    ∙ ground (
      arith,
      lookup-insert_self ip (added ip a s) (insert ip (row ip a s) s.usage),
      lookup-insert_self ip
          (record { chars_used = used_today ip s +ℤ a +ℤ b; last_reset = s.today })
          (insert ip (added ip a s) (insert ip (row ip a s) s.usage)),
    )

-- Only the statement `k` fails.
abbrev pub failing : ℕ → Schedule Store
failing k = record { others = λ j s. s; fails = λ j. j =ℕ k }

module _ (ss58_to_h160 : String → Option ℕ) (sono : Bool) (txt_cost_for_chars : ℕ → ℤ)
    (hash_account : ℕ → ℕ) (max_content_size : ℕ) (req : TtsRequest) where
  -- If the charge goes through and the job of an admissible text cannot be written, the answer is
  -- an error and there is no job, but the ledger is the one after the charge.
  pub charged_without_job :
      (account key job_id : ℕ) (wallet : Option String) (paid : ChargeResult) (ledger : Ledger)
      (s : Store)
      → (req.text == "") ≡ false
      → ltb max_content_size (len req.text) ≡ false
      → check_and_charge quiet ss58_to_h160 sono account wallet
          (txt_cost_for_chars (len req.text))
          s.ledger
        ≡ (ok paid, ledger)
      → tts ss58_to_h160 sono txt_cost_for_chars hash_account max_content_size quiet
          (failing 0)
          (authenticated account key wallet)
          req
          job_id
          s
        ≡ (err ApiError.internal_error, record s { ledger = ledger })
  unfolding tts tts_authenticated tts_paid ◌>>=◌
  charged_without_job account key job_id wallet paid ledger s some_text small charged = ground arith

  overrun_run :
      (hash job_id : ℕ) (extra : ℤ) (during : Schedule Ledger) (s : Store)
      → ltb_ℤ (free_tier_daily_limit -ℤ used_today hash s) (as_i32 (len req.text)) ≡ false
      → tts_free ss58_to_h160 sono txt_cost_for_chars hash_account max_content_size during
          (before_statement 2 (λ v. (add_used hash extra v).1))
          req
          hash
          job_id
          s
        ≡ (
          ok (record {
            job_id = job_id;
            free_tier_remaining =
                some (free_tier_daily_limit -ℤ used_today hash s -ℤ as_i32 (len req.text));
          }),
          (let s' =
                (add_used hash
                  (as_i32 (len req.text))
                  (add_used hash extra (touch hash s).1).1).1 in
              record s' { jobs = free_job req (Owner.ip_hash hash) job_id 0 ∷ s'.jobs }),
        )
  unfolding tts_free check_free_tier_limit_with ◌>>=◌
  overrun_run hash job_id extra during s room = ground (arith, touch-used hash s)

  -- If another request for the same address counts its characters between the check and the
  -- write, a synthesis within what the check saw is queued all the same, whatever the sum is.
  pub allowance_overrun :
      (hash job_id : ℕ) (extra : ℤ) (during : Schedule Ledger) (s : Store)
      → ltb_ℤ (free_tier_daily_limit -ℤ used_today hash s) (as_i32 (len req.text)) ≡ false
      → (r : TtsResponse) × (s' : Store) × (tts_free ss58_to_h160 sono txt_cost_for_chars
            hash_account max_content_size during
            (before_statement 2 (λ v. (add_used hash extra v).1))
            req
            hash
            job_id
            s
          ≡ (ok r, s'))
        × (used_today hash s' ≡ used_today hash s +ℤ extra +ℤ as_i32 (len req.text))
  unfolding used_today
  allowance_overrun hash job_id extra during s room =
      let chars = as_i32 (len req.text) in
      let s' = (add_used hash chars (add_used hash extra (touch hash s).1).1).1 in
      (
        record {
          job_id = job_id;
          free_tier_remaining = some (free_tier_daily_limit -ℤ used_today hash s -ℤ chars);
        },
        record s' { jobs = free_job req (Owner.ip_hash hash) job_id 0 ∷ s'.jobs },
        overrun_run hash job_id extra during s room,
        used_twice hash extra chars s,
      )

-- ===== src/Api/Queued.antt =====
-- The handler `tts` for a user who is logged in: each job is paid for, or within the allowance.
use text.Mathlib.Text.{◌==◌}
use Prim.Native.String.{len}
use sonotxt_rust.Base.{
  ℕ, ◌≤◌, ◌≡◌, refl, subst, inl, inr, ◌⊎◌, Bool, true, false, String, Option, none, some, ◌∷◌,
  arith, ltb, Bool-cases,
}
use sonotxt_rust.Base.Int.{as_i32, ℤ, pos, ◌-ℤ◌, ◌≤ℤ◌, ltb_ℤ}
use sonotxt_rust.Base.Errors.{ApiError, Result, ok, err, Result-cases}
use sonotxt_rust.Base.Action.{quiet, ◌>>=◌}
use sonotxt_rust.Billing.{Ledger, ChargeResult, balance, check_and_charge}
use sonotxt_rust.Billing.Parts.{Fits, Charged, left}
use sonotxt_rust.Billing.Charge.{channel_of, check_and_charge-Charged}
use sonotxt_rust.Api.{Store, Job, Owner}
use sonotxt_rust.Api.FreeTier.{
  used_today, touch, add_used, check_free_tier_limit_with, consume_free_tier,
  free_tier_logged_in_limit,
}
use sonotxt_rust.Api.Synthesis.{
  TtsRequest, TtsResponse, authenticated, free_job, paid_job, tts_paid, tts_logged_in,
  tts_authenticated, tts,
}
use sonotxt_rust.Api.Quota.{Allowed, touch-used, refused-Allowed, accepted-Allowed}

-- How a synthesis that began at `s` ended, for an account with this address, allowance and cost.
-- Paid: the cost was charged, one job was queued that is not free, and no allowance was used.
-- Free: the cost was not covered, and the job is within the allowance. Refused: no charge, no job,
-- nothing counted.
abbrev pub Served : ℕ → Option ℕ → ℕ → ℤ → ℤ → Store → Result ApiError TtsResponse × Store → Type 0
Served account addr hash chars cost s (ok r, s') =
    ((paid : ChargeResult) × (job : Job) × Charged account addr cost s.ledger (ok paid, s'.ledger)
      × (s'.jobs ≡ job ∷ s.jobs)
      × (job.id ≡ r.job_id)
      × (job.is_free_tier ≡ false)
      × (job.char_count ≡ chars)
      × (s'.usage ≡ s.usage))
    ⊎ ((¬ (cost ≤ℤ balance account s.ledger))
        × (¬ (cost ≤ℤ pos (left addr s.ledger)))
        × Allowed hash chars free_tier_logged_in_limit s (ok r, s'))
Served account addr hash chars cost s (err e, s') =
    (s'.jobs ≡ s.jobs) × ((h : ℕ) → used_today h s' ≡ used_today h s) × (s'.ledger ≡ s.ledger)

Charged-result :
    (account : ℕ) (addr : Option ℕ) (cost : ℤ) (w : Ledger)
    (out : Result ApiError ChargeResult × Ledger) (r : Result ApiError ChargeResult)
    → out.0 ≡ r
    → Charged account addr cost w out
    → Charged account addr cost w (r, out.1)
Charged-result account addr cost w out r e h =
    subst (λ x. Charged account addr cost w (x, out.1)) e h

module _ (ss58_to_h160 : String → Option ℕ) (sono : Bool) (txt_cost_for_chars : ℕ → ℤ)
    (hash_account : ℕ → ℕ) (max_content_size : ℕ) (req : TtsRequest) (account key job_id : ℕ)
    (wallet : Option String) where
  abbrev chars : ℤ
  chars = as_i32 (len req.text)

  abbrev cost : ℤ
  cost = txt_cost_for_chars (len req.text)

  abbrev logged_in : Store → Result ApiError TtsResponse × Store
  logged_in s =
      tts_logged_in ss58_to_h160 sono txt_cost_for_chars hash_account max_content_size quiet quiet
        req account key job_id s

  logged_in_refused :
      (s : Store)
      → ltb_ℤ (free_tier_logged_in_limit -ℤ used_today (hash_account account) s) chars ≡ true
      → logged_in s ≡ (
        err (
            ApiError.free_tier_limit_exceeded
              (free_tier_logged_in_limit -ℤ used_today (hash_account account) s)
              free_tier_logged_in_limit),
        (touch (hash_account account) s).1,
      )
  unfolding tts_logged_in check_free_tier_limit_with ◌>>=◌
  logged_in_refused s t = ground (arith, touch-used (hash_account account) s)

  logged_in_accepted :
      (s : Store)
      → ltb_ℤ (free_tier_logged_in_limit -ℤ used_today (hash_account account) s) chars ≡ false
      → logged_in s ≡ (
        ok (record {
          job_id = job_id;
          free_tier_remaining =
              some (free_tier_logged_in_limit -ℤ used_today (hash_account account) s -ℤ chars);
        }),
        (let s' = (add_used (hash_account account) chars (touch (hash_account account) s).1).1 in
            record s' { jobs = free_job req (Owner.api_key key) job_id 10 ∷ s'.jobs }),
      )
  unfolding tts_logged_in check_free_tier_limit_with consume_free_tier ◌>>=◌
  logged_in_accepted s t = ground (arith, touch-used (hash_account account) s)

  logged_in-Allowed :
      (s : Store) → Allowed (hash_account account) chars free_tier_logged_in_limit s (logged_in s)
  logged_in-Allowed s =
      let hash = hash_account account in
      elim (Bool-cases (ltb_ℤ (free_tier_logged_in_limit -ℤ used_today hash s) chars)) [
        | inl t ↦ rw (logged_in_refused s t) (
            refused-Allowed hash chars free_tier_logged_in_limit s (
              ApiError.free_tier_limit_exceeded (free_tier_logged_in_limit -ℤ used_today hash s)
                free_tier_logged_in_limit))
        | inr t ↦ rw (logged_in_accepted s t) (
            accepted-Allowed hash chars free_tier_logged_in_limit s
              (free_job req (Owner.api_key key) job_id 10) refl refl t)
      ]

  abbrev charge : Store → Result ApiError ChargeResult × Ledger
  charge s = check_and_charge quiet ss58_to_h160 sono account wallet cost s.ledger

  abbrev outcome : Store → Result ApiError TtsResponse × Store
  outcome s =
      tts ss58_to_h160 sono txt_cost_for_chars hash_account max_content_size quiet quiet
        (authenticated account key wallet) req job_id s

  module _ (s : Store) (some_text : (req.text == "") ≡ false)
      (small : ltb max_content_size (len req.text) ≡ false) where
    outcome_paid :
        (paid : ChargeResult)
        → (charge s).0 ≡ ok paid
        → outcome s ≡ (
          ok (record { job_id = job_id; free_tier_remaining = none }),
          record s { ledger = (charge s).1; jobs = paid_job req key job_id ∷ s.jobs },
        )
    unfolding tts tts_authenticated tts_paid ◌>>=◌
    outcome_paid paid e = ground arith

    outcome_free :
        (e : ApiError)
        → (charge s).0 ≡ err e
        → outcome s ≡ logged_in (record s { ledger = (charge s).1 })
    unfolding tts tts_authenticated ◌>>=◌
    outcome_free e q = ground arith

  abbrev IsServed : Store → Type 0
  IsServed s =
      Served account (channel_of ss58_to_h160 sono wallet) (hash_account account) chars cost s
        (outcome s)

  unchanged : (s : Store) (e : ApiError) → outcome s ≡ (err e, s) → IsServed s
  unchanged s e q = rw q (refl, (λ h. refl), refl)

  charge-Charged :
      (s : Store) (c : ℕ)
      → Fits s.ledger.channels
      → 1 ≤ c
      → cost ≡ pos c
      → Charged account (channel_of ss58_to_h160 sono wallet) cost s.ledger (charge s)
  charge-Charged s c fits one e =
      rw e (check_and_charge-Charged ss58_to_h160 sono account c wallet s.ledger fits one)

  free-Served :
      (s : Store)
      → ¬ (cost ≤ℤ balance account s.ledger)
      → ¬ (cost ≤ℤ pos (left (channel_of ss58_to_h160 sono wallet) s.ledger))
      → (out : Result ApiError TtsResponse × Store)
      → Allowed (hash_account account) chars free_tier_logged_in_limit s out
      → Served account (channel_of ss58_to_h160 sono wallet) (hash_account account) chars cost s out
  free-Served s over beyond (ok r, s') h = inr (over, beyond, h)
  free-Served s over beyond (err e, s') h = h

  queued :
      (s : Store) (c : ℕ)
      → Fits s.ledger.channels
      → 1 ≤ c
      → cost ≡ pos c
      → (req.text == "") ≡ false
      → ltb max_content_size (len req.text) ≡ false
      → IsServed s
  queued s c fits one e some_text small =
      let h = charge-Charged s c fits one e in
      elim (Result-cases (charge s).0) [
        | inl (paid, q) ↦ rw (outcome_paid s some_text small paid q) (
            inl (
              paid,
              paid_job req key job_id,
              Charged-result _ _ _ _ (charge s) (ok paid) q h,
              refl,
              refl,
              refl,
              refl,
              refl,
            ))
        | inr (x, q) ↦
            let (_, same, over, beyond, _) = Charged-result _ _ _ _ (charge s) (err x) q h in
            rw (outcome_free s some_text small x q, same)
              (free-Served s over beyond (logged_in s) (logged_in-Allowed s))
      ]

  -- With nobody interfering, the database answering and deposits that are U256 values, a
  -- synthesis of positive cost for a user who is logged in is paid in full, or is free within the
  -- day's 1000 characters because neither the balance nor the channel covers it, or leaves no
  -- charge, no job and no count behind.
  pub tts-Served : (s : Store) (c : ℕ) → Fits s.ledger.channels → 1 ≤ c → cost ≡ pos c → IsServed s
  unfolding tts ◌>>=◌
  tts-Served s c fits one e = elim (Bool-cases (req.text == "")) [
    | inl t ↦ unchanged s ApiError.invalid_request_error (ground arith)
    | inr some_text ↦ elim (Bool-cases (ltb max_content_size (len req.text))) [
      | inl t ↦ unchanged s ApiError.content_too_large (ground arith)
      | inr small ↦ queued s c fits one e some_text small
    ]
  ]

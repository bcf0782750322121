-- ===== src/Api/Quota.antt =====
-- The free allowance as the endpoint uses it: what is counted, and up to where.
use text.Mathlib.Text.{◌==◌}
use Prim.Native.String.{len}
use sonotxt_rust.Base.{
  ℕ, ◌≤◌, ◌<◌, ◌≡◌, ◌≢◌, ◌⊎◌, refl, ap, ◌∙◌, Bool, true, false, String, Option, some, ◌∷◌, arith,
}
use sonotxt_rust.Base.Int.{as_i32, ℤ, pos, ◌+ℤ◌, ◌-ℤ◌, ◌≤ℤ◌, ltb_ℤ}
use sonotxt_rust.Base.Errors.{ApiError, Result, ok, err}
use sonotxt_rust.Base.Assoc.{insert, lookup-insert, lookup-insert_self, lookup-insert_ne}
use sonotxt_rust.Base.Action.{Schedule, quiet}
use sonotxt_rust.Billing.{Ledger}
use sonotxt_rust.Api.{Store, Usage, Job}
use sonotxt_rust.Api.FreeTier.{used_today, touch, add_used}
use sonotxt_rust.Api.Synthesis.{TtsRequest, TtsResponse, free_tier, tts_free, tts}

pub touch-used : (ip : ℕ) (s : Store) → (touch ip s).0 ≡ used_today ip s
unfolding touch
touch-used ip s = refl

-- Looking up what is used changes nothing that counts, for anyone.
pub used_today-touch : (h ip : ℕ) (s : Store) → used_today h (touch ip s).1 ≡ used_today h s
unfolding used_today touch
used_today-touch h ip s = ground (
  arith,
  lookup-insert ip h (record { chars_used = used_today ip s; last_reset = s.today }) s.usage,
)

module _ (ip : ℕ) (chars : ℤ) (s : Store) where
  abbrev pub row : Usage
  row = record { chars_used = used_today ip s; last_reset = s.today }

  abbrev pub added : Usage
  added = record { chars_used = used_today ip s +ℤ chars; last_reset = s.today }

  pub add_used-touch :
      (add_used ip chars (touch ip s).1).1
      ≡ record s { usage = insert ip added (insert ip row s.usage) }
  unfolding add_used touch
  add_used-touch = ground (arith, lookup-insert_self ip row s.usage)

  -- Then characters are added to the count of one alone.
  pub used_today-add_used :
      used_today ip (add_used ip chars (touch ip s).1).1 ≡ used_today ip s +ℤ chars
  unfolding used_today
  used_today-add_used =
      ap (used_today ip) add_used-touch
      ∙ ground (arith, lookup-insert_self ip added (insert ip row s.usage))

  pub used_today-add_used_ne :
      (h : ℕ) → ip ≢ h → used_today h (add_used ip chars (touch ip s).1).1 ≡ used_today h s
  unfolding used_today
  used_today-add_used_ne h ne =
      ap (used_today h) add_used-touch
      ∙ ground (
        arith,
        lookup-insert_ne ip h added (insert ip row s.usage) ne,
        lookup-insert_ne ip h row s.usage ne,
      )

-- How a free synthesis of `chars` characters that began at `s` ended: within the limit, one job was
-- queued and the characters are counted, for that address alone; or nothing has changed that
-- counts. It never touches the ledger.
abbrev pub Allowed : ℕ → ℤ → ℤ → Store → Result ApiError TtsResponse × Store → Type 0
Allowed hash chars limit s (ok r, s') =
    (chars +ℤ used_today hash s ≤ℤ limit)
    × (used_today hash s' ≡ used_today hash s +ℤ chars)
    × (r.free_tier_remaining ≡ some (limit -ℤ used_today hash s -ℤ chars))
    × ((job : Job) × (s'.jobs ≡ job ∷ s.jobs)
        × (job.id ≡ r.job_id)
        × (job.is_free_tier ≡ true)
        × (job.char_count ≡ chars))
    × ((h : ℕ) → hash ≢ h → used_today h s' ≡ used_today h s)
    × (s'.ledger ≡ s.ledger)
Allowed hash chars limit s (err e, s') =
    (s'.jobs ≡ s.jobs) × ((h : ℕ) → used_today h s' ≡ used_today h s) × (s'.ledger ≡ s.ledger)

pub touch-rest :
    (ip : ℕ) (s : Store) → ((touch ip s).1.jobs ≡ s.jobs) × ((touch ip s).1.ledger ≡ s.ledger)
unfolding touch
touch-rest ip s = (refl, refl)

pub add_used-rest :
    (ip : ℕ) (chars : ℤ) (s : Store)
    → ((add_used ip chars s).1.jobs ≡ s.jobs) × ((add_used ip chars s).1.ledger ≡ s.ledger)
unfolding add_used
add_used-rest ip chars s = (ground arith, ground arith)

within : (used chars limit : ℤ) → ltb_ℤ (limit -ℤ used) chars ≡ false → chars +ℤ used ≤ℤ limit
unfolding ◌-ℤ◌ ◌+ℤ◌
within used chars limit t = ground arith

-- The two ways that the check of an allowance ends, for the endpoint.
pub refused-Allowed :
    (hash : ℕ) (chars limit : ℤ) (s : Store) (e : ApiError)
    → Allowed hash chars limit s (err e, (touch hash s).1)
refused-Allowed hash chars limit s e =
    ((touch-rest hash s).0, (λ h. used_today-touch h hash s), (touch-rest hash s).1)

pub accepted-Allowed :
    (hash : ℕ) (chars limit : ℤ) (s : Store) (job : Job)
    → job.is_free_tier ≡ true
    → job.char_count ≡ chars
    → ltb_ℤ (limit -ℤ used_today hash s) chars ≡ false
    → Allowed hash chars limit s (
      ok (record {
        job_id = job.id;
        free_tier_remaining = some (limit -ℤ used_today hash s -ℤ chars);
      }),
      (let s' = (add_used hash chars (touch hash s).1).1 in record s' { jobs = job ∷ s'.jobs }),
    )
unfolding used_today
accepted-Allowed hash chars limit s job free count t =
    let (jobs, ledger) = add_used-rest hash chars (touch hash s).1 in
    (
      within _ chars _ t,
      used_today-add_used hash chars s,
      refl,
      (job, ap (◌∷◌ job) (jobs ∙ (touch-rest hash s).0), refl, free, count),
      (λ h ne. used_today-add_used_ne hash chars s h ne),
      ledger ∙ (touch-rest hash s).1,
    )

-- Why a free synthesis that began at `s` ends in this error.
abbrev pub IsReason : ℕ → ℤ → TtsRequest → Store → ApiError → Type 0
IsReason hash limit req s e =
    ((e ≡ ApiError.invalid_request_error) × ((req.text == "") ≡ true))
    ⊎ (((e ≡ ApiError.content_too_large) × (1000 < len req.text))
        ⊎ ((e ≡ ApiError.free_tier_limit_exceeded (limit -ℤ used_today hash s) limit)
            × (limit +ℤ pos 1 ≤ℤ as_i32 (len req.text) +ℤ used_today hash s)))

-- Which of the two a free synthesis ends in, and with what.
abbrev pub Decided : ℕ → ℤ → TtsRequest → Store → Result ApiError TtsResponse × Store → Type 0
Decided hash limit req s (ok r, s') =
    ((req.text == "") ≡ false)
    × (len req.text ≤ 1000)
    × Allowed hash (as_i32 (len req.text)) limit s (ok r, s')
Decided hash limit req s (err e, s') =
    IsReason hash limit req s e × Allowed hash (as_i32 (len req.text)) limit s (err e, s')

module _ (ss58_to_h160 : String → Option ℕ) (sono : Bool) (txt_cost_for_chars : ℕ → ℤ)
    (hash_account : ℕ → ℕ) (max_content_size : ℕ) (during : Schedule Ledger) (req : TtsRequest)
    (hash job_id : ℕ) (s : Store) where
  abbrev chars : ℤ
  chars = as_i32 (len req.text)

  abbrev free_outcome : Result ApiError TtsResponse × Store
  free_outcome =
      tts_free ss58_to_h160 sono txt_cost_for_chars hash_account max_content_size during quiet req
        hash job_id s

  abbrev outcome : Result ApiError TtsResponse × Store
  outcome =
      tts ss58_to_h160 sono txt_cost_for_chars hash_account max_content_size during quiet
        (free_tier hash) req job_id s

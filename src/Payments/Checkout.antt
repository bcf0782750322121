-- ===== src/Payments/Checkout.antt =====
-- The Stripe webhook of sonotxt-api/src/routes/payments.rs. What verifies and parses the body, the
-- parser of UUIDs, the rate of TXT and the text of a database error are parameters. The currency
-- and the log are left out.
use sonotxt_rust.Base.{ℕ, ◌+◌, ◌*◌, false, String, Option, none, some, if◌then◌else◌}
use Prim.Native.String.{◌++◌}
use sonotxt_rust.Base.Int.{ℤ, pos, negsuc}
use sonotxt_rust.Base.Text.{Text, codes, eq_text}
use sonotxt_rust.Base.Errors.{ApiError, Result, ok, err}
use sonotxt_rust.Base.Action.{
  Action, Schedule, statement, pure, raise, or_raise, map_err, unwrap_or, ◌>>=◌, ◌>>◌,
}
use sonotxt_rust.Billing.{Ledger, credit_txt}
use sonotxt_rust.Payments.{
  Payments, stripe, confirmed, exists, to_internal, credit_deposit, insert_deposit,
}

-- A member of a JSON object: not there, no string, or a string.
pub data Field : Type 0 where
  missing : Field
  other : Field
  str : Text → Field

-- What `handle_checkout_complete` reads of a session: `metadata.account_id` and `amount_total` are
-- none if they are not there or of another type.
pub record Session : Type 0 where
  pub account_id : Option Text
  pub amount_total : Option ℤ
  pub payment_intent : Field
  pub id : Field

pub record WebhookEvent : Type 0 where
  pub event_type : Text
  pub object : Session

abbrev pub as_str : Field → Option Text
as_str missing = none
as_str other = none
as_str (str s) = some s

-- `session.get(a).or_else(|| session.get(b))`
abbrev pub or_else : Field → Field → Field
or_else missing f = f
or_else other f = other
or_else (str s) f = str s

abbrev pub text_or : Option Text → Text → Text
text_or none d = d
text_or (some s) d = s

abbrev pub payment_id : Session → Text
payment_id s = text_or (as_str (or_else s.payment_intent s.id)) (codes "unknown")

-- `amount_cents as f64 / 100.0`, in millionths
abbrev pub from_cents : ℤ → ℤ
from_cents (pos n) = pos (n * 10000)
from_cents (negsuc n) = negsuc (n * 10000 + 9999)

abbrev pub amount_of : Session → ℤ
amount_of s = elim s.amount_total [ none ↦ pos 0 | some cents ↦ from_cents cents ]

-- A handler of billing.rs, on the ledger of TXT, with what others do to it there.
abbrev pub on_ledger : {A : Type 0} → Action Ledger A → Action Payments A
on_ledger m p = let (r, ledger) = m p.ledger in (r, record p { ledger = ledger })

module _ (parse_uuid : Text → Option ℕ) (fiat_to_txt : ℤ → ℤ) (db_error : String)
    (sched : Schedule Payments) (txt : Schedule Ledger) where
  -- `account_id` of the metadata
  abbrev pub account_of : Session → Action Payments ℕ
  account_of s = do
    uuid ← or_raise s.account_id (ApiError.internal "no account_id in metadata")
    or_raise (parse_uuid uuid) (ApiError.internal "invalid account id")

  -- `id` is the new id of the deposit.
  unfoldable pub handle_checkout_complete : (id : ℕ) → Session → Action Payments (Unit {0})
  handle_checkout_complete id s = do
    account_id ← account_of s
    known ← unwrap_or (statement sched 0 λ p. (exists (payment_id s) p, p)) false
    if known then pure tt else (do
      map_err
          (insert_deposit sched 1 (record {
            id = id;
            account_id = account_id;
            chain = stripe;
            tx_hash = payment_id s;
            amount = amount_of s;
            status = confirmed;
          }))
          (to_internal db_error sched)
      new_balance ← on_ledger (credit_txt txt account_id (fiat_to_txt (amount_of s)))
      credit_deposit db_error sched id account_id (amount_of s))

  -- The handler, with the result of the signature's check and of the parser.
  unfoldable pub stripe_webhook :
      (signature : Option Text) (configured : Result String (Unit {0}))
      → (verified : Result String (Unit {0})) (event : Result String WebhookEvent) (id : ℕ)
      → Action Payments (Unit {0})
  unfolding handle_checkout_complete
  stripe_webhook signature configured verified event id = do
    header ← or_raise signature (ApiError.invalid_request "missing signature")
    elim configured [
      | err e ↦ raise (ApiError.internal ("stripe not configured: " ++ e))
      | ok _ ↦ elim verified [
        | err e ↦ raise (ApiError.invalid_request ("invalid signature: " ++ e))
        | ok _ ↦ elim event [
          | err e ↦ raise (ApiError.invalid_request ("invalid event: " ++ e))
          | ok ev ↦
              if eq_text ev.event_type (codes "checkout.session.completed")
              then handle_checkout_complete id ev.object
              else pure tt
        ]
      ]
    ]

-- ===== src/Api/FreeTier.antt =====
-- sonotxt-api/src/auth/free_tier.rs: the daily allowance of characters.
use sonotxt_rust.Base.{ℕ, none, some, ltb, if◌then◌else◌}
use sonotxt_rust.Base.Int.{ℤ, pos, ◌+ℤ◌, ◌-ℤ◌, ltb_ℤ}
use sonotxt_rust.Base.Errors.{ApiError}
use sonotxt_rust.Base.Assoc.{lookup, insert}
use sonotxt_rust.Base.Action.{Action, Schedule, statement, pure, raise, ◌>>=◌}
use sonotxt_rust.Api.{Store}

abbrev pub free_tier_daily_limit : ℤ
free_tier_daily_limit = pos 300

abbrev pub free_tier_logged_in_limit : ℤ
free_tier_logged_in_limit = pos 1000

-- What counts today: nothing without a row, or with one from an earlier day.
unfoldable pub used_today : ℕ → Store → ℤ
used_today ip_hash s = elim (lookup ip_hash s.usage) [
  | none ↦ pos 0
  | some u ↦ if ltb u.last_reset s.today then pos 0 else u.chars_used
]

-- `INSERT .. ON CONFLICT (ip_hash) DO UPDATE .. RETURNING chars_used`
unfoldable pub touch : ℕ → Store → ℤ × Store
touch ip_hash s =
    let used = used_today ip_hash s in
    (
      used,
      record s {
        usage = insert ip_hash (record { chars_used = used; last_reset = s.today }) s.usage;
      },
    )

-- `UPDATE free_tier_usage SET chars_used = chars_used + chars WHERE ip_hash = ..`
unfoldable pub add_used : ℕ → ℤ → Store → Unit {0} × Store
add_used ip_hash chars s = elim (lookup ip_hash s.usage) [
  | none ↦ (tt, s)
  | some u ↦ (
    tt,
    record s { usage = insert ip_hash (record u { chars_used = u.chars_used +ℤ chars }) s.usage },
  )
]

module _ (sched : Schedule Store) (k : ℕ) where
  unfoldable pub check_free_tier_limit_with : ℕ → ℤ → ℤ → Action Store ℤ
  check_free_tier_limit_with ip_hash chars_needed limit = do
    used ← statement sched k (touch ip_hash)
    let remaining = limit -ℤ used
    if ltb_ℤ remaining chars_needed
        then raise (ApiError.free_tier_limit_exceeded remaining limit)
        else pure remaining

  abbrev pub check_free_tier_limit : ℕ → ℤ → Action Store ℤ
  check_free_tier_limit ip_hash chars_needed =
      check_free_tier_limit_with ip_hash chars_needed free_tier_daily_limit

  unfoldable pub consume_free_tier : ℕ → ℤ → Action Store (Unit {0})
  consume_free_tier ip_hash chars = statement sched k (add_used ip_hash chars)

  -- `(limit - row.chars_used).max(0)` and the limit
  unfoldable pub get_free_tier_remaining : ℕ → ℤ → Action Store (ℤ × ℤ)
  get_free_tier_remaining ip_hash limit = do
    used ← statement sched k (touch ip_hash)
    let remaining = limit -ℤ used
    pure (if ltb_ℤ remaining (pos 0) then pos 0 else remaining, limit)

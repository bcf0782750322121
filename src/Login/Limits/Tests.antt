-- ===== src/Login/Limits/Tests.antt =====
-- Runs of the rate limit for one client.
use sonotxt_rust.Base.{◌≡◌, refl, none, [], ◌∷◌}
use sonotxt_rust.Base.Text.{codes, eq_text}
use sonotxt_rust.Base.Errors.{ApiError, ok, err}
use sonotxt_rust.Base.Action.{◌>>=◌}
use sonotxt_rust.Login.Tables.{Auth}
use sonotxt_rust.Login.Limits.{limit_key, lockout_key, check_rate_limit, clear_rate_limit}
use sonotxt_rust.Login.Limits.Window.{idle, attempt_after, success_after, expected}
use sonotxt_rust.Login.Limits.Refined.{results, results-expected}

abbrev start : Auth
start = record { users = []; auth_challenges = []; sessions = []; redis = λ k. none; now = 1000 }

-- A success forgets two attempts; the sixth after it is refused, and so is one ten minutes later,
-- but not one after the fifteen minutes of the lockout.
run :
    results
      (codes "login")
      (codes "ann")
      (attempt_after 1
        ∷ attempt_after 1
        ∷ success_after 1
        ∷ attempt_after 1
        ∷ attempt_after 1
        ∷ attempt_after 1
        ∷ attempt_after 1
        ∷ attempt_after 1
        ∷ attempt_after 1
        ∷ attempt_after 600
        ∷ attempt_after 301
        ∷ [])
      start
    ≡ ok tt
      ∷ ok tt
      ∷ ok tt
      ∷ ok tt
      ∷ ok tt
      ∷ ok tt
      ∷ ok tt
      ∷ err ApiError.rate_limited
      ∷ err ApiError.rate_limited
      ∷ ok tt
      ∷ []
unfolding results check_rate_limit clear_rate_limit limit_key lockout_key eq_text ◌>>=◌
run = refl

results-expected_example :
    results
      (codes "login")
      (codes "ann")
      (attempt_after 1 ∷ success_after 9 ∷ attempt_after 5 ∷ [])
      start
    ≡ expected (attempt_after 1 ∷ success_after 9 ∷ attempt_after 5 ∷ []) 1000 idle
results-expected_example =
    results-expected (codes "login") (codes "ann")
      (attempt_after 1 ∷ success_after 9 ∷ attempt_after 5 ∷ []) start refl refl

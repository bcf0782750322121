-- ===== src/Login/Limits/Window.antt =====
-- What `check_rate_limit` promises a client: a window of 300 seconds from the first attempt, with
-- five attempts, and a lockout of 900 seconds from the sixth.
use sonotxt_rust.Base.{
  ℕ, ◌+◌, ◌≤◌, ◌<◌, ◌≡◌, refl, ap, List, [], ◌∷◌, arith, ltb, leb, zero, suc, if◌then◌else◌, map,
  replicate, length,
}
use sonotxt_rust.Base.Errors.{ApiError, Result, ok, err}

-- Where a client stands: nothing counted; so many attempts in a window that ends then; locked out
-- until then.
pub data Status : Type 0 where
  idle : Status
  counting : (n deadline : ℕ) → Status
  locked : (until : ℕ) → Status

-- Whether an attempt at a time goes through, and what the client's status is then.
unfoldable pub attempt : ℕ → Status → Result ApiError (Unit {0}) × Status
attempt now idle = (ok tt, counting 1 (now + 300))
attempt now (counting n deadline) =
    if leb deadline now
    then (ok tt, counting 1 (now + 300))
    else if ltb n 5
    then (ok tt, counting (n + 1) deadline)
    else (err ApiError.rate_limited, locked (now + 900))
attempt now (locked until) =
    if ltb now until
    then (err ApiError.rate_limited, locked until)
    else (ok tt, counting 1 (now + 300))

-- A success forgets the attempts, but ends no lockout.
unfoldable pub cleared : Status → Status
cleared idle = idle
cleared (counting n deadline) = idle
cleared (locked until) = locked until

-- What a client does, each so many seconds after what went before.
pub data Event : Type 0 where
  attempt_after : ℕ → Event
  success_after : ℕ → Event

-- The results of the attempts among the events.
unfoldable pub expected : List Event → ℕ → Status → List (Result ApiError (Unit {0}))
expected [] now s = []
expected (attempt_after gap ∷ events) now s =
    let (r, s') = attempt (now + gap) s in r ∷ expected events (now + gap) s'
expected (success_after gap ∷ events) now s = expected events (now + gap) (cleared s)

-- So many results of attempts of which the first few go through.
abbrev pub allowed : (left n : ℕ) → List (Result ApiError (Unit {0}))
allowed zero n = replicate n (err ApiError.rate_limited)
allowed (suc left) zero = []
allowed (suc left) (suc n) = ok tt ∷ allowed left n

abbrev pub total : List ℕ → ℕ
total [] = 0
total (n ∷ ns) = n + total ns

expected-locked :
    (gaps : List ℕ) (now until : ℕ)
    → now + total gaps < until
    → expected (map attempt_after gaps) now (locked until)
      ≡ replicate (length gaps) (err ApiError.rate_limited)
unfolding expected attempt
expected-locked [] now until h = refl
expected-locked (g ∷ gaps) now until h = ground (arith, expected-locked gaps (now + g) until)

expected-counting :
    (left : ℕ) (gaps : List ℕ) (n now deadline : ℕ)
    → left + n ≡ 5
    → now + total gaps < deadline
    → deadline ≤ now + 300
    → expected (map attempt_after gaps) now (counting n deadline) ≡ allowed left (length gaps)
unfolding expected attempt
expected-counting zero [] n now deadline five h soon = refl
expected-counting zero (g ∷ gaps) n now deadline five h soon =
    ground (arith, expected-locked gaps (now + g) (now + g + 900))
expected-counting (suc left) [] n now deadline five h soon = refl
expected-counting (suc left) (g ∷ gaps) n now deadline five h soon =
    ground (arith, expected-counting left gaps (n + 1) (now + g) deadline)

pub expected_first_five :
    (g : ℕ) (gaps : List ℕ) (now : ℕ)
    → total gaps < 300
    → expected (map attempt_after (g ∷ gaps)) now idle ≡ allowed 5 (length (g ∷ gaps))
unfolding expected attempt
expected_first_five g gaps now h =
    ap (◌∷◌ (ok tt))
      (expected-counting 4 gaps 1 (now + g) (now + g + 300) refl (omega arith) (omega arith))

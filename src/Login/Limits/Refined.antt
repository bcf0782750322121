-- ===== src/Login/Limits/Refined.antt =====
-- `check_rate_limit` and `clear_rate_limit` implement the window and the lockout.
use sonotxt_rust.Base.{
  ℕ, ◌+◌, ◌≤◌, ◌<◌, ◌≡◌, refl, ap, ◌∙◌, false, Option, none, some, List, [], ◌∷◌, arith, ltb, leb,
  Bool-cases, map, length, inl, inr,
}
use sonotxt_rust.Base.Text.{Text, eq_text, eq_text_refl}
use sonotxt_rust.Base.Errors.{ApiError, Result, ok, err}
use sonotxt_rust.Base.Action.{quiet, ◌>>=◌}
use sonotxt_rust.Login.Tables.{Auth, Counter}
use sonotxt_rust.Login.Limits.{
  limit_key, lockout_key, live, get, put, check_rate_limit, clear_rate_limit,
}
use sonotxt_rust.Login.Limits.Window.{
  Status, idle, counting, locked, attempt, cleared, Event, attempt_after, success_after, expected,
  allowed, total, expected_first_five,
}

abbrev pub later : ℕ → Auth → Auth
later gap a = record a { now = a.now + gap }

live_mono : (t u : ℕ) (c : Option Counter) → t ≤ u → live t c ≡ none → live u c ≡ none
live_mono t u c le h = ground arith

module _ (key_prefix identifier : Text) where
  abbrev lim : Text
  lim = limit_key key_prefix identifier

  abbrev lock : Text
  lock = lockout_key key_prefix identifier

  -- What the two keys hold for a status.
  abbrev Represents : Status → Auth → Type 0
  Represents idle a = (get lock a ≡ none) × (get lim a ≡ none)
  Represents (counting n deadline) a =
      (get lock a ≡ none)
      × (0 < n)
      × (n ≤ 5)
      × (deadline ≤ a.now + 300)
      × (a.redis lim ≡ some (record { value = n; expires_at = some deadline }))
  Represents (locked until) a =
      (a.redis lock ≡ some (record { value = 1; expires_at = some until }))
      × (live until (a.redis lim) ≡ none)

  keys_apart : eq_text lim lock ≡ false
  unfolding eq_text limit_key lockout_key
  keys_apart = refl

  keys_apart' : eq_text lock lim ≡ false
  unfolding eq_text limit_key lockout_key
  keys_apart' = refl

  abbrev counter : ℕ → ℕ → Option Counter
  counter n deadline = some (record { value = n; expires_at = some deadline })

  module _ (a : Auth) where
    check_locked :
        (c : Counter)
        → get lock a ≡ some c
        → check_rate_limit quiet key_prefix identifier a ≡ (err ApiError.rate_limited, a)
    unfolding check_rate_limit ◌>>=◌
    check_locked c h = ground arith

    check_first :
        get lock a ≡ none
        → get lim a ≡ none
        → check_rate_limit quiet key_prefix identifier a ≡ (
          ok tt,
          put lim
              (counter 1 (a.now + 300))
              (put lim (some (record { value = 1; expires_at = none })) a),
        )
    unfolding check_rate_limit ◌>>=◌
    check_first h k = ground (arith, eq_text_refl lim)

    check_next :
        (n deadline : ℕ)
        → get lock a ≡ none
        → get lim a ≡ counter n deadline
        → 0 < n
        → n < 5
        → check_rate_limit quiet key_prefix identifier a
          ≡ (ok tt, put lim (counter (n + 1) deadline) a)
    unfolding check_rate_limit ◌>>=◌
    check_next n deadline h k pos few = ground arith

    check_last :
        (n deadline : ℕ)
        → get lock a ≡ none
        → get lim a ≡ counter n deadline
        → n ≡ 5
        → check_rate_limit quiet key_prefix identifier a ≡ (
          err ApiError.rate_limited,
          put lock (counter 1 (a.now + 900)) (put lim (counter (n + 1) deadline) a),
        )
    unfolding check_rate_limit ◌>>=◌
    check_last n deadline h k five = ground arith

  fresh_window :
      (a : Auth)
      → get lock a ≡ none
      → get lim a ≡ none
      → ((check_rate_limit quiet key_prefix identifier a).0 ≡ ok tt)
        × Represents (counting 1 (a.now + 300)) (check_rate_limit quiet key_prefix identifier a).1
  fresh_window a h k = rw (check_first a h k) (
    refl,
    (
      ground (arith, keys_apart),
      omega arith,
      omega arith,
      omega arith,
      ground (arith, eq_text_refl lim),
    ),
  )

  check-attempt :
      (s : Status) (a : Auth)
      → Represents s a
      → ((check_rate_limit quiet key_prefix identifier a).0 ≡ (attempt a.now s).0)
        × Represents (attempt a.now s).1 (check_rate_limit quiet key_prefix identifier a).1
  unfolding attempt
  check-attempt idle a (h, k) = fresh_window a h k
  check-attempt (counting n deadline) a (h, pos, few, soon, e) =
      elim (Bool-cases (leb deadline a.now)) [
        | inl over ↦ rw over (fresh_window a h (ground arith))
        | inr on ↦
            let here : get lim a ≡ counter n deadline = ground arith in
            elim (Bool-cases (ltb n 5)) [
              | inl more ↦
                  rw (on, more, check_next a n deadline h here pos (ground arith))
                    (
                      refl,
                      (
                        ground (arith, keys_apart),
                        omega arith,
                        ground arith,
                        soon,
                        ground (arith, eq_text_refl lim),
                      ),
                    )
              | inr full ↦
                  rw (on, full, check_last a n deadline h here (ground arith))
                    (
                      refl,
                      (
                        ground (arith, eq_text_refl lock),
                        ground (arith, keys_apart', eq_text_refl lim),
                      ),
                    )
            ]
      ]
  check-attempt (locked until) a (el, dead) = elim (Bool-cases (ltb a.now until)) [
    | inl on ↦
        rw (on, check_locked a (record { value = 1; expires_at = some until }) (ground arith))
          (refl, (el, dead))
    | inr over ↦
        rw over
          (fresh_window a (ground arith) (live_mono until a.now (a.redis lim) (ground arith) dead))
  ]

  later-Represents : (s : Status) (a : Auth) (gap : ℕ) → Represents s a → Represents s (later gap a)
  later-Represents idle a gap (h, k) = (
    live_mono a.now (a.now + gap) (a.redis lock) (omega arith) h,
    live_mono a.now (a.now + gap) (a.redis lim) (omega arith) k,
  )
  later-Represents (counting n deadline) a gap (h, pos, few, soon, e) =
      (live_mono a.now (a.now + gap) (a.redis lock) (omega arith) h, pos, few, omega arith, e)
  later-Represents (locked until) a gap (el, dead) = (el, dead)

  -- No call of redis moves the clock.
  check-now : (a : Auth) → (check_rate_limit quiet key_prefix identifier a).1.now ≡ a.now
  unfolding check_rate_limit ◌>>=◌
  check-now a = ground arith

  clear_rate_limit_lem :
      (a : Auth) → clear_rate_limit quiet 4 key_prefix identifier a ≡ (ok tt, put lim none a)
  unfolding clear_rate_limit ◌>>=◌
  clear_rate_limit_lem a = refl

  clear-cleared :
      (s : Status) (a : Auth)
      → Represents s a
      → Represents (cleared s) (clear_rate_limit quiet 4 key_prefix identifier a).1
  unfolding cleared
  clear-cleared idle a (h, k) =
      rw (clear_rate_limit_lem a) (ground (arith, keys_apart), ground (arith, eq_text_refl lim))
  clear-cleared (counting n deadline) a (h, pos, few, soon, e) =
      rw (clear_rate_limit_lem a) (ground (arith, keys_apart), ground (arith, eq_text_refl lim))
  clear-cleared (locked until) a (el, dead) =
      rw (clear_rate_limit_lem a) (ground (arith, keys_apart), ground (arith, eq_text_refl lim))

  -- The results of the service on a sequence of events.
  unfoldable pub results : List Event → Auth → List (Result ApiError (Unit {0}))
  results [] a = []
  results (attempt_after gap ∷ events) a =
      let (r, a') = check_rate_limit quiet key_prefix identifier (later gap a) in
      r ∷ results events a'
  results (success_after gap ∷ events) a =
      results events (clear_rate_limit quiet 4 key_prefix identifier (later gap a)).1

  results-expected_from :
      (events : List Event) (s : Status) (a : Auth)
      → Represents s a
      → results events a ≡ expected events a.now s
  unfolding results expected
  results-expected_from [] s a h = refl
  results-expected_from (attempt_after gap ∷ events) s a h =
      let (same, next) = check-attempt s (later gap a) (later-Represents s a gap h) in
      let rest = results-expected_from events _ _ next in
      let now = check-now (later gap a) in rw (same, rest, now) refl
  results-expected_from (success_after gap ∷ events) s a h =
      let next = clear-cleared s (later gap a) (later-Represents s a gap h) in
      let rest = results-expected_from events _ _ next in
      let e = clear_rate_limit_lem (later gap a) in
      rest ∙ ap (λ (x : Result ApiError (Unit {0}) × Auth). expected events x.1.now (cleared s)) e

  -- With nobody interfering and redis answering, what the service answers a client that has
  -- nothing counted is what the window and the lockout answer, whatever the client attempts and
  -- succeeds in, and when.
  pub results-expected :
      (events : List Event) (a : Auth)
      → get lock a ≡ none
      → get lim a ≡ none
      → results events a ≡ expected events a.now idle
  results-expected events a h k = results-expected_from events idle a (h, k)

  -- Of the attempts of a client that has nothing counted, none of which succeeds, in less than 300
  -- seconds after the first, exactly the first five go through.
  pub results_first_five :
      (g : ℕ) (gaps : List ℕ) (a : Auth)
      → get lock a ≡ none
      → get lim a ≡ none
      → total gaps < 300
      → results (map attempt_after (g ∷ gaps)) a ≡ allowed 5 (length (g ∷ gaps))
  results_first_five g gaps a h k soon =
      results-expected _ a h k ∙ expected_first_five g gaps a.now soon

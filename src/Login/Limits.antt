-- ===== src/Login/Limits.antt =====
-- `check_rate_limit` and `clear_rate_limit` of sonotxt-api/src/services/user_auth.rs, on the keys in
-- redis. Every call of redis is followed by `unwrap_or`: an error counts as the default given.
pub mod Window
pub mod Refined
mod Tests
use sonotxt_rust.Base.{
  ℕ, ◌+◌, ◌^◌, Bool, true, false, Option, none, some, List, ◌∷◌, ◌++◌, ltb, ◌==◌, if◌then◌else◌,
  is_some,
}
use sonotxt_rust.Base.Text.{Text, codes, eq_text}
use sonotxt_rust.Base.Errors.{ApiError, Result, ok, err}
use sonotxt_rust.Base.Action.{
  unwrap_or, Action, Schedule, statement, pure, raise, raise_if, ◌>>=◌, ◌>>◌,
}
use sonotxt_rust.Login.Tables.{Auth, Counter}

abbrev pub max_auth_attempts : ℕ
max_auth_attempts = 5

abbrev pub rate_limit_window : ℕ
rate_limit_window = 300

abbrev pub lockout_duration : ℕ
lockout_duration = 900

unfoldable pub limit_key : (key_prefix identifier : Text) → Text
limit_key key_prefix identifier = codes "auth_limit:" ++ (key_prefix ++ (codes ":" ++ identifier))

unfoldable pub lockout_key : (key_prefix identifier : Text) → Text
lockout_key key_prefix identifier =
    codes "auth_lockout:" ++ (key_prefix ++ (codes ":" ++ identifier))

-- A key that has not expired.
abbrev pub live : ℕ → Option Counter → Option Counter
live now none = none
live now (some c) = elim c.expires_at [
  | none ↦ some c
  | some t ↦ if ltb now t then some c else none
]

abbrev pub get : Text → Auth → Option Counter
get key a = live a.now (a.redis key)

abbrev pub put : Text → Option Counter → Auth → Auth
put key c a = record a { redis = λ k. if eq_text key k then c else a.redis k }

-- `INCR`: a new key counts from 0 and does not expire.
abbrev pub incr : Text → Auth → ℕ × Auth
incr key a = elim (get key a) [
  | none ↦ (1, put key (some (record { value = 1; expires_at = none })) a)
  | some c ↦ (c.value + 1, put key (some (record c { value = c.value + 1 })) a)
]

-- `EXPIRE`
abbrev pub expire : Text → ℕ → Auth → Unit {0} × Auth
expire key seconds a = elim (get key a) [
  | none ↦ (tt, a)
  | some c ↦ (tt, put key (some (record c { expires_at = some (a.now + seconds) })) a)
]

-- `SETEX` of "1", `DEL`
abbrev pub set_ex : Text → ℕ → Auth → Unit {0} × Auth
set_ex key seconds a =
    (tt, put key (some (record { value = 1; expires_at = some (a.now + seconds) })) a)

abbrev pub del : Text → Auth → Unit {0} × Auth
del key a = (tt, put key none a)

-- Read as a u32.
abbrev pub as_u32 : ℕ → ℕ
as_u32 n = if ltb n (2 ^ 32) then n else 1

module _ (sched : Schedule Auth) where
  -- Sets the expiry on the first attempt.
  unfoldable pub start_window : ℕ → Text → Action Auth (Unit {0})
  unfolding unwrap_or
  start_window attempts key =
      if attempts == 1
      then unwrap_or (statement sched 2 (expire key rate_limit_window)) tt
      else pure tt

  -- Refuses an attempt too many, and sets the lockout.
  unfoldable pub lock_out : ℕ → Text → Action Auth (Unit {0})
  unfolding unwrap_or
  lock_out attempts key =
      if ltb max_auth_attempts attempts
      then (do
        unwrap_or (statement sched 3 (set_ex key lockout_duration)) tt
        raise ApiError.rate_limited)
      else pure tt

  unfoldable pub check_rate_limit : (key_prefix identifier : Text) → Action Auth (Unit {0})
  unfolding unwrap_or start_window lock_out
  check_rate_limit key_prefix identifier = do
    locked ← unwrap_or (statement sched 0 λ a. (get (lockout_key key_prefix identifier) a, a)) none
    raise_if (is_some locked) ApiError.rate_limited
    attempts ← unwrap_or (statement sched 1 (incr (limit_key key_prefix identifier))) 1
    start_window (as_u32 attempts) (limit_key key_prefix identifier)
    lock_out (as_u32 attempts) (lockout_key key_prefix identifier)

  unfoldable pub clear_rate_limit : (k : ℕ) (key_prefix identifier : Text) → Action Auth (Unit {0})
  unfolding unwrap_or
  clear_rate_limit k key_prefix identifier =
      unwrap_or (statement sched k (del (limit_key key_prefix identifier))) tt

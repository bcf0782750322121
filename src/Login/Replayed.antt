-- ===== src/Login/Replayed.antt =====
-- The login by public key does not ask for its challenge.
use sonotxt_rust.Base.{ℕ, ◌≡◌, refl, ap, true, Option, none, some, arith, find}
use sonotxt_rust.Base.Bytes.{Bytes}
use sonotxt_rust.Base.Text.{Text}
use sonotxt_rust.Base.Errors.{ApiError, Result, ok}
use sonotxt_rust.Base.Action.{quiet, ◌>>=◌}
use sonotxt_rust.Login.{Env, User, validate_public_key, verify_signature, hash_token}
use sonotxt_rust.Login.Tables.{
  Auth, UserRow, ChallengeRow, to_user, with_key, live_challenge, delete_challenge,
}
use sonotxt_rust.Login.Register.{get_or_create_user_by_pubkey}
use sonotxt_rust.Login.Ways.{verify_pubkey_login}
use sonotxt_rust.Login.Opened.{opened, later, token, IsFresh, create_session_lem, find-touched}

-- Without the challenge that was found, if one was.
abbrev spent : Option ChallengeRow → Auth → Auth
spent none a = a
spent (some c) a = (delete_challenge c.id a).1

module _ (env : Env) (public_key challenge signature : Text)
    (valid : validate_public_key env public_key ≡ ok tt)
    (signed : verify_signature env public_key challenge signature ≡ true) where
  module _ (id : ℕ) (random : Bytes) (a : Auth) (u : UserRow)
      (user : find (with_key public_key) a.users ≡ some u) (fresh : IsFresh env random a) where
    abbrev by_key : Result ApiError (User × Text) × Auth
    by_key = verify_pubkey_login env quiet id random public_key challenge signature a

    enters :
        (found : Option ChallengeRow)
        → find (live_challenge public_key challenge a.now) a.auth_challenges ≡ found
        → by_key ≡ (
          ok (to_user u, token env random),
          opened u.id (hash_token env (token env random)) (spent found a),
        )
    unfolding verify_pubkey_login get_or_create_user_by_pubkey ◌>>=◌
    enters none e = ground (arith, create_session_lem env random 4 u.id a fresh)
    enters (some c) e =
        ground (arith, create_session_lem env random 4 u.id (delete_challenge c.id a).1 fresh)

    stays :
        (d : ℕ) (found : Option ChallengeRow)
        → (v : UserRow) × (find
              (with_key public_key)
              (later d (opened u.id (hash_token env (token env random)) (spent found a))).users
            ≡ some v)
          × (v.id ≡ u.id)
    unfolding opened
    stays d none = find-touched (with_key public_key) u.id a.now a.users u (λ w. ground arith) user
    stays d (some c) =
        find-touched (with_key public_key) u.id a.now a.users u (λ w. ground arith) user

  -- With nobody interfering and the database answering, a user's signature of any text, whether or
  -- not it was ever a challenge, logs in, and the same signature logs in to that account again at
  -- any later time.
  pub pubkey_replay :
      (id id' d : ℕ) (random random' : Bytes) (a : Auth) (u : UserRow)
      → find (with_key public_key) a.users ≡ some u
      → IsFresh env random a
      → let (r, b) = verify_pubkey_login env quiet id random public_key challenge signature a in
        (r ≡ ok (to_user u, token env random))
        × (IsFresh env random' b
            → (v : User) × ((verify_pubkey_login env quiet id' random' public_key challenge
                  signature
                  (later d b)).0
                ≡ ok (v, token env random'))
              × (v.id ≡ u.id))
  pubkey_replay id id' d random random' a u user fresh =
      let found = find (live_challenge public_key challenge a.now) a.auth_challenges in
      let first = enters id random a u user fresh found refl in
      let (v, there, same) = stays id random a u user fresh d found in
      let again =
        λ (fresh' : IsFresh env random'
            (opened u.id (hash_token env (token env random)) (spent found a))).
          ap (λ (x : Result ApiError (User × Text) × Auth). x.0)
            (enters id' random'
              (later d (opened u.id (hash_token env (token env random)) (spent found a))) v there
              fresh' _ refl) in
      rw first (refl, λ fresh'. (to_user v, again fresh', same))

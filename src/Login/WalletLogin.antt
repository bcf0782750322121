-- ===== src/Login/WalletLogin.antt =====
-- Logins by wallet: whom they let in.
use sonotxt_rust.Base.{
  ℕ, ◌≡◌, refl, true, false, none, some, List, [], ◌∷◌, arith, find, any, inl, inr, Bool-cases,
  Option-cases,
}
use sonotxt_rust.Base.Bytes.{Bytes}
use sonotxt_rust.Base.Text.{Text, as_bytes}
use sonotxt_rust.Base.Errors.{ApiError, Result, ok, err, Result-cases}
use sonotxt_rust.Base.Action.{quiet, ◌>>=◌}
use sonotxt_rust.Login.{Env, User, Ss58Error, verify_sr25519, hash_token}
use sonotxt_rust.Login.Ss58.{decode_ss58}
use sonotxt_rust.Login.Tables.{
  Auth, UserRow, ChallengeRow, to_user, with_wallet, with_id, live_challenge, delete_challenge,
  clashes, insert_user,
}
use sonotxt_rust.Login.Register.{wallet_row, get_or_create_wallet_user}
use sonotxt_rust.Login.Ways.{challenge_key, wrapped, verify_wallet_login}
use sonotxt_rust.Login.Opened.{opened, token, IsFresh, create_session_lem}

-- The account of a wallet, new or old, and the state with it.
abbrev pub account : ℕ → Text → Auth → UserRow × Auth
account id address a = elim (find (with_wallet address) a.users) [
  | some u ↦ (u, a)
  | none ↦ (wallet_row id address, record a { users = wallet_row id address ∷ a.users })
]

-- A new row of a wallet that nobody has breaks no UNIQUE column, if nobody has its id.
no-clash :
    (id : ℕ) (address : Text) (us : List UserRow)
    → find (with_wallet address) us ≡ none
    → any (with_id id) us ≡ false
    → any (clashes (wallet_row id address)) us ≡ false
unfolding clashes
no-clash id address [] h k = refl
no-clash id address (u ∷ us) h k = ground (arith, no-clash id address us)

account_lem :
    (env : Env) (id : ℕ) (address : Text) (a : Auth)
    → any (with_id id) a.users ≡ false
    → get_or_create_wallet_user env quiet 2 id address a
      ≡ (ok (to_user (account id address a).0), (account id address a).1)
unfolding get_or_create_wallet_user insert_user ◌>>=◌
account_lem env id address a free = ground (arith, no-clash id address a.users)

module _ (env : Env) (id : ℕ) (random : Bytes) (address challenge signature : Text) (a : Auth) where
  -- A challenge for the wallet that is not over, and its signature by the key in the address.
  abbrev pub Credentials : Bytes → ChallengeRow → Type 0
  Credentials pubkey c =
      (decode_ss58 env address ≡ ok pubkey)
      × (find (live_challenge (challenge_key address) challenge a.now) a.auth_challenges ≡ some c)
      × (verify_sr25519 env pubkey (as_bytes (wrapped challenge)) signature ≡ true)

  abbrev pub member : ChallengeRow → UserRow × Auth
  member c = account id address (delete_challenge c.id a).1

  -- What a login ends in.
  abbrev pub Decided : Result ApiError (User × Text) × Auth → Type 0
  Decided (ok (user, t), a') =
      (pubkey : Bytes) × (c : ChallengeRow) × Credentials pubkey c
      × (user ≡ to_user (member c).0)
      × (t ≡ token env random)
      × (a' ≡ opened (member c).0.id (hash_token env (token env random)) (member c).1)
  Decided (err e, a') = (a' ≡ a) × ((pubkey : Bytes) (c : ChallengeRow) → ¬ Credentials pubkey c)

  abbrev by_wallet : Result ApiError (User × Text) × Auth
  by_wallet = verify_wallet_login env quiet id random address challenge signature a

  member-IsFresh : (c : ChallengeRow) → IsFresh env random a → IsFresh env random (member c).1
  member-IsFresh c fresh = ground arith

  pub let_in :
      (pubkey : Bytes) (c : ChallengeRow)
      → any (with_id id) a.users ≡ false
      → IsFresh env random a
      → Credentials pubkey c
      → by_wallet ≡ (
        ok (to_user (member c).0, token env random),
        opened (member c).0.id (hash_token env (token env random)) (member c).1,
      )
  unfolding verify_wallet_login ◌>>=◌
  let_in pubkey c free fresh (decodes, live, signed) = ground (
    arith,
    account_lem env id address (delete_challenge c.id a).1 free,
    create_session_lem env random 4 (member c).0.id (member c).1 (member-IsFresh c fresh),
  )

  bad_address :
      (e : Ss58Error)
      → decode_ss58 env address ≡ err e
      → by_wallet ≡ (err (ApiError.invalid_request (env.describe e)), a)
  unfolding verify_wallet_login ◌>>=◌
  bad_address e h = ground arith

  no_challenge :
      (pubkey : Bytes)
      → decode_ss58 env address ≡ ok pubkey
      → find (live_challenge (challenge_key address) challenge a.now) a.auth_challenges ≡ none
      → by_wallet ≡ (err ApiError.invalid_credentials, a)
  unfolding verify_wallet_login ◌>>=◌
  no_challenge pubkey h k = ground arith

  no_signature :
      (pubkey : Bytes) (c : ChallengeRow)
      → decode_ss58 env address ≡ ok pubkey
      → find (live_challenge (challenge_key address) challenge a.now) a.auth_challenges ≡ some c
      → verify_sr25519 env pubkey (as_bytes (wrapped challenge)) signature ≡ false
      → by_wallet ≡ (err ApiError.invalid_credentials, a)
  unfolding verify_wallet_login ◌>>=◌
  no_signature pubkey c h k s = ground arith

  unsigned :
      (pubkey pubkey' : Bytes)
      → decode_ss58 env address ≡ ok pubkey
      → decode_ss58 env address ≡ ok pubkey'
      → verify_sr25519 env pubkey (as_bytes (wrapped challenge)) signature ≡ false
      → verify_sr25519 env pubkey' (as_bytes (wrapped challenge)) signature ≡ true
      → ⊥
  unsigned pubkey pubkey' h h' s s' = let same : pubkey ≡ pubkey' = ground arith in cc

  -- With nobody interfering, the database answering and a token and an id that nobody has, a login
  -- by wallet succeeds exactly with a decoded address, a challenge that was stored for it and is not
  -- over, and its wrapped signature by the address's key. The challenge is then gone, and the one
  -- account of the wallet, made if it was not there, has a session; else nothing changes.
  pub verify_wallet_login-Decided :
      any (with_id id) a.users ≡ false → IsFresh env random a → Decided by_wallet
  verify_wallet_login-Decided free fresh = elim (Result-cases (decode_ss58 env address)) [
    | inr (e, h) ↦ rw (bad_address e h) (refl, λ pubkey c cr. ground (arith, cr.0))
    | inl (pubkey, h) ↦
        elim (Option-cases
          (find (live_challenge (challenge_key address) challenge a.now) a.auth_challenges)) [
            | inl k ↦ rw (no_challenge pubkey h k) (refl, λ pubkey' c cr. ground (arith, cr.1))
            | inr (c, k) ↦
                elim (Bool-cases
                  (verify_sr25519 env pubkey (as_bytes (wrapped challenge)) signature)) [
                    | inl s ↦
                        rw (let_in pubkey c free fresh (h, k, s))
                          (pubkey, c, (h, k, s), refl, refl, refl)
                    | inr s ↦
                        rw (no_signature pubkey c h k s)
                          (refl, λ pubkey' c' cr. unsigned pubkey pubkey' h cr.0 s cr.2)
                  ]
          ]
  ]

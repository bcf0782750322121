-- ===== src/Login/Registered.antt =====
-- Who registers with a nickname and a key can log in with them.
use sonotxt_rust.Base.{
  Bool, ℕ, ◌+◌, ◌*◌, ◌<◌, ◌≡◌, refl, ap, ◌∙◌, sym, String, true, Option, none, some, ◌∷◌, arith,
  any, find, inl, inr, Bool-cases,
}
use sonotxt_rust.Base.Bytes.{Bytes}
use sonotxt_rust.Base.Text.{Text, eq_text_refl}
use sonotxt_rust.Base.Errors.{ApiError, Result, ok, err}
use sonotxt_rust.Base.Action.{quiet, ◌>>=◌}
use sonotxt_rust.Base.Action.Reads.{Reads, Reads-raise_if, Reads-raise, Reads-pure, after_read}
use sonotxt_rust.Login.{
  Env, User, hash_nickname, validate_nickname, validate_public_key, generate_challenge,
  verify_signature,
}
use sonotxt_rust.Login.Tables.{
  Auth, UserRow, ChallengeRow, to_user, login_row, live_challenge, clashes, insert_user,
  store_challenge,
}
use sonotxt_rust.Login.Register.{
  select_one, require, email_lower, is_nickname_actually_available, check_email, new_row,
  register_with_pubkey,
}
use sonotxt_rust.Login.Ways.{get_login_challenge, verify_and_login}
use sonotxt_rust.Login.Opened.{later, token, IsFresh}
use sonotxt_rust.Login.Verified.{let_in}

Reads-require : (r : Result String (Unit {0})) → Reads (require r)
Reads-require (ok t) = Reads-pure tt
Reads-require (err e) = Reads-raise (ApiError.invalid_request e)

Reads-select_one : (k : ℕ) (test : UserRow → Bool) → Reads (select_one quiet k test)
unfolding select_one ◌>>=◌
Reads-select_one k test = record { at = λ a. ground arith }

Reads-available :
    (env : Env) (nickname : Text) → Reads (is_nickname_actually_available env quiet 0 nickname)
unfolding is_nickname_actually_available select_one ◌>>=◌
Reads-available env nickname = record { at = λ a. ground arith }

Reads-check_email : (env : Env) (e : Option Text) → Reads (check_email env quiet 2 e)
unfolding check_email select_one ◌>>=◌
Reads-check_email env none = record { at = λ a. refl }
Reads-check_email env (some e) = record { at = λ a. ground arith }

insert_user-ok :
    (k : ℕ) (u : UserRow) (a a' : Auth) (user : User)
    → insert_user quiet k u a ≡ (ok user, a')
    → (user ≡ to_user u) × (a' ≡ record a { users = u ∷ a.users })
unfolding insert_user ◌>>=◌
insert_user-ok k u a a' user e = elim (Bool-cases (any (clashes u) a.users)) [
  | inl clash ↦ absurd (ground arith)
  | inr free ↦ (ground arith, ground arith)
]

module _ (env : Env) (id : ℕ) (nickname public_key : Text) (email share : Option Text) (a a' : Auth)
    (user : User)
    (registered : register_with_pubkey env quiet id nickname public_key email share a
      ≡ (ok user, a')) where
  abbrev row : UserRow
  row = new_row env id nickname public_key email share

  register-inserted : (user ≡ to_user row) × (a' ≡ record a { users = row ∷ a.users })
  unfolding register_with_pubkey
  register-inserted =
      let (_, _, e1) =
        after_read _ _ a a' user (Reads-require (validate_nickname env nickname)) registered in
      let (_, _, e2) =
        after_read _ _ a a' user (Reads-require (validate_public_key env public_key)) e1 in
      let (_, _, e3) = after_read _ _ a a' user (Reads-raise_if _ _) e2 in
      let (_, _, e4) = after_read _ _ a a' user (Reads-raise_if _ _) e3 in
      let (_, _, e5) = after_read _ _ a a' user (Reads-available env nickname) e4 in
      let (_, _, e6) = after_read _ _ a a' user (Reads-raise_if _ _) e5 in
      let (_, _, e7) = after_read _ _ a a' user (Reads-select_one 1 _) e6 in
      let (_, _, e8) = after_read _ _ a a' user (Reads-raise_if _ _) e7 in
      let (_, _, e9) =
        after_read _ _ a a' user (Reads-check_email env (email_lower env email)) e8 in
      insert_user-ok 3 row a a' user e9

  module _ (challenge_id : ℕ) (drawn : Bytes) where
    abbrev challenge : Text
    challenge = generate_challenge env drawn

    abbrev stored : ChallengeRow
    stored = record {
      id = challenge_id;
      public_key = public_key;
      challenge = challenge;
      expires_at = a.now + 5 * 60;
    }

    found_row : login_row (hash_nickname env nickname) (row ∷ a.users) ≡ some (row, public_key)
    unfolding login_row
    found_row = ground (arith, eq_text_refl (hash_nickname env nickname))

    abbrev after : Auth
    after = record a { users = row ∷ a.users; auth_challenges = stored ∷ a.auth_challenges }

    challenged :
        get_login_challenge env quiet challenge_id drawn nickname a'
        ≡ (ok (challenge, public_key), after)
    unfolding get_login_challenge store_challenge ◌>>=◌
    challenged = rw (register-inserted.1) (ground (arith, found_row))

    logs_in :
        (d : ℕ) (random : Bytes) (signature : Text)
        → d < 300
        → verify_signature env public_key challenge signature ≡ true
        → IsFresh env random after
        → (verify_and_login env quiet random nickname challenge signature (later d after)).0
          ≡ ok (user, token env random)
    logs_in d random signature soon signed fresh =
        let live : find (live_challenge public_key challenge (a.now + d))
              (stored ∷ a.auth_challenges)
            ≡ some stored =
          ground (arith, eq_text_refl public_key, eq_text_refl challenge) in
        rw (register-inserted.0) (
          ap (λ (x : Result ApiError (User × Text) × Auth). x.0)
            (let_in env random nickname challenge signature (later d after) row public_key stored
              fresh (found_row, live, signed)))

    -- With nobody interfering and the database answering: who has registered with a nickname and a
    -- key, and asks for a challenge of that nickname in the state that the registration left, is
    -- challenged for that key, and within five minutes logs in to that account with a signature of
    -- the challenge by it, if the token that is drawn is that of no session.
    pub register-login :
        (got : Text × Text) (b : Auth)
        → get_login_challenge env quiet challenge_id drawn nickname a' ≡ (ok got, b)
        → (got.1 ≡ public_key)
          × ((d : ℕ) (random : Bytes) (signature : Text)
              → d < 300
              → verify_signature env got.1 got.0 signature ≡ true
              → IsFresh env random b
              → (verify_and_login env quiet random nickname got.0 signature (later d b)).0
                ≡ ok (user, token env random))
    register-login got b e =
        let both : ◌≡◌ {A = Result ApiError (Text × Text) × Auth} (ok got, b)
            (ok (challenge, public_key), after) =
          sym e ∙ challenged in
        let same : got ≡ (challenge, public_key) = cc in
        let here : b ≡ after = cc in rw (same, here) (refl, logs_in)

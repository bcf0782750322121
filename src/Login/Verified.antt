-- ===== src/Login/Verified.antt =====
-- Logins by nickname: whom they let in, and that a challenge serves once.
use sonotxt_rust.Base.{
  ℕ, ◌+◌, ◌≤◌, ◌<◌, ◌≡◌, refl, subst, ◌∙◌, sym, true, false, not, Option, none, some, List, [], ◌∷◌,
  arith, ◌==◌, find, filter, inl, inr, Bool-cases, Option-cases, All,
}
use sonotxt_rust.Base.Bytes.{Bytes}
use sonotxt_rust.Base.Text.{Text, eq_text}
use sonotxt_rust.Base.Errors.{ApiError, Result, ok, err}
use sonotxt_rust.Base.Action.{quiet, ◌>>=◌}
use sonotxt_rust.Login.{Env, User, hash_nickname, verify_signature, hash_token}
use sonotxt_rust.Login.Tables.{
  Auth, UserRow, ChallengeRow, to_user, with_id, login_row, live_challenge, delete_challenge,
}
use sonotxt_rust.Login.Sessions.{validate_session}
use sonotxt_rust.Login.Ways.{verify_and_login}
use sonotxt_rust.Login.Opened.{
  opened, later, token, thirty_days, IsFresh, create_session_lem, validate-opened,
}

-- The state after a login: the challenge is gone, and the user has a session.
abbrev pub logged_in : Env → Bytes → Auth → UserRow → ChallengeRow → Auth
logged_in env random a u c =
    opened u.id (hash_token env (token env random)) (delete_challenge c.id a).1

module _ (env : Env) (random : Bytes) (nickname challenge signature : Text) (a : Auth) where
  -- A user of this name with a key, a challenge for the key that is not over, and its signature.
  abbrev pub Credentials : UserRow → Text → ChallengeRow → Type 0
  Credentials u key c =
      (login_row (hash_nickname env nickname) a.users ≡ some (u, key))
      × (find (live_challenge key challenge a.now) a.auth_challenges ≡ some c)
      × (verify_signature env key challenge signature ≡ true)

  -- What a login ends in.
  abbrev pub Decided : Result ApiError (User × Text) × Auth → Type 0
  Decided (ok (user, t), a') =
      (u : UserRow) × (key : Text) × (c : ChallengeRow) × Credentials u key c
      × (user ≡ to_user u)
      × (t ≡ token env random)
      × (a' ≡ logged_in env random a u c)
  Decided (err e, a') =
      (e ≡ ApiError.invalid_credentials)
      × (a' ≡ a)
      × ((u : UserRow) (key : Text) (c : ChallengeRow) → ¬ Credentials u key c)

  abbrev by_nickname : Result ApiError (User × Text) × Auth
  by_nickname = verify_and_login env quiet random nickname challenge signature a

  pub let_in :
      (u : UserRow) (key : Text) (c : ChallengeRow)
      → IsFresh env random a
      → Credentials u key c
      → by_nickname ≡ (ok (to_user u, token env random), logged_in env random a u c)
  unfolding verify_and_login ◌>>=◌
  let_in u key c fresh (user, live, signed) =
      ground (arith, create_session_lem env random 3 u.id (delete_challenge c.id a).1 fresh)

  no_user :
      login_row (hash_nickname env nickname) a.users ≡ none
      → by_nickname ≡ (err ApiError.invalid_credentials, a)
  unfolding verify_and_login ◌>>=◌
  no_user e = ground arith

  pub no_challenge :
      (u : UserRow) (key : Text)
      → login_row (hash_nickname env nickname) a.users ≡ some (u, key)
      → find (live_challenge key challenge a.now) a.auth_challenges ≡ none
      → by_nickname ≡ (err ApiError.invalid_credentials, a)
  unfolding verify_and_login ◌>>=◌
  no_challenge u key e d = ground arith

  no_signature :
      (u : UserRow) (key : Text) (c : ChallengeRow)
      → login_row (hash_nickname env nickname) a.users ≡ some (u, key)
      → find (live_challenge key challenge a.now) a.auth_challenges ≡ some c
      → verify_signature env key challenge signature ≡ false
      → by_nickname ≡ (err ApiError.invalid_credentials, a)
  unfolding verify_and_login ◌>>=◌
  no_signature u key c e d s = ground arith

  same_key :
      {u u' : UserRow} {key key' : Text}
      → login_row (hash_nickname env nickname) a.users ≡ some (u, key)
      → login_row (hash_nickname env nickname) a.users ≡ some (u', key')
      → key ≡ key'
  same_key e e' = ground arith

  no_challenge_at :
      {key key' : Text} {c : ChallengeRow}
      → key ≡ key'
      → find (live_challenge key challenge a.now) a.auth_challenges ≡ none
      → find (live_challenge key' challenge a.now) a.auth_challenges ≡ some c
      → ⊥
  no_challenge_at {c = c} same d d' =
      let gone =
        subst (λ k. find (live_challenge k challenge a.now) a.auth_challenges ≡ none) same d in
      let both : ◌≡◌ {A = Option ChallengeRow} none (some c) = sym gone ∙ d' in cc

  no_signature_at :
      {key key' : Text}
      → key ≡ key'
      → verify_signature env key challenge signature ≡ false
      → verify_signature env key' challenge signature ≡ true
      → ⊥
  no_signature_at same s s' = cc

  -- With nobody interfering, the database answering and a token that no session has, a login by
  -- nickname succeeds exactly with credentials: a user of that name with a key, a challenge stored
  -- for the key and not over, and its signature by the key. The challenge is then gone and the user
  -- has a session; else the answer is invalid credentials and nothing changes.
  pub verify_and_login-Decided : IsFresh env random a → Decided by_nickname
  verify_and_login-Decided fresh =
      elim (Option-cases (login_row (hash_nickname env nickname) a.users)) [
        | inl e ↦ rw (no_user e) (refl, refl, λ u key c h. ground (arith, h.0))
        | inr ((u, key), e) ↦
            elim (Option-cases (find (live_challenge key challenge a.now) a.auth_challenges)) [
              | inl d ↦
                  rw (no_challenge u key e d)
                    (refl, refl, λ u' key' c h. no_challenge_at (same_key e h.0) d h.1)
              | inr (c, d) ↦ elim (Bool-cases (verify_signature env key challenge signature)) [
                | inl s ↦
                    rw (let_in u key c fresh (e, d, s)) (u, key, c, (e, d, s), refl, refl, refl)
                | inr s ↦
                    rw (no_signature u key c e d s)
                      (refl, refl, λ u' key' c' h. no_signature_at (same_key e h.0) s h.2)
              ]
            ]
      ]

refused :
    (env : Env) (random : Bytes) (nickname challenge signature : Text) (b : Auth)
    → ((key : Text) → find (live_challenge key challenge b.now) b.auth_challenges ≡ none)
    → (verify_and_login env quiet random nickname challenge signature b).0
      ≡ err ApiError.invalid_credentials
refused env random nickname challenge signature b gone =
    elim (Option-cases (login_row (hash_nickname env nickname) b.users)) [
      | inl e ↦ rw (no_user env random nickname challenge signature b e) refl
      | inr ((u, key), e) ↦
          rw (no_challenge env random nickname challenge signature b u key e (gone key)) refl
    ]

-- A user that logs in by a nickname is in the table.
login_row-find :
    (hash : Text) (us : List UserRow) (u : UserRow) (key : Text)
    → login_row hash us ≡ some (u, key)
    → (v : UserRow) × (find (with_id u.id) us ≡ some v)
unfolding login_row
login_row-find hash [] u key e = absurd (cc)
login_row-find hash (w ∷ us) u key e = elim (Bool-cases (w.id == u.id)) [
  | inl here ↦ (w, ground arith)
  | inr there ↦
      let rest : login_row hash us ≡ some (u, key) = ground arith in
      let (v, found) = login_row-find hash us u key rest in (v, ground arith)
]

-- No row has this challenge, but for those of an id.
abbrev pub IsOnlyAt : ℕ → Text → List ChallengeRow → Type 0
IsOnlyAt id challenge = All (λ (c : ChallengeRow). eq_text c.challenge challenge ≡ true → c.id ≡ id)

find-deleted :
    (id now : ℕ) (key challenge : Text) (cs : List ChallengeRow)
    → IsOnlyAt id challenge cs
    → find (live_challenge key challenge now) (filter (λ c. not (c.id == id)) cs) ≡ none
find-deleted id now key challenge [] h = refl
find-deleted id now key challenge (c ∷ cs) h =
    ground (arith, find-deleted id now key challenge cs h.1)

find-id :
    (id now : ℕ) (key challenge : Text) (cs : List ChallengeRow) (c : ChallengeRow)
    → IsOnlyAt id challenge cs
    → find (live_challenge key challenge now) cs ≡ some c
    → c.id ≡ id
find-id id now key challenge [] c h e = absurd (cc)
find-id id now key challenge (b ∷ cs) c h e = ground (arith, find-id id now key challenge cs c h.1)

module _ (env : Env) (random : Bytes) (nickname challenge signature : Text) (a a' : Auth)
    (user : User) (t : Text) (fresh : IsFresh env random a)
    (success : verify_and_login env quiet random nickname challenge signature a
      ≡ (ok (user, t), a')) where
  decided : Decided env random nickname challenge signature a (ok (user, t), a')
  decided =
      subst (Decided env random nickname challenge signature a) success
        (verify_and_login-Decided env random nickname challenge signature a fresh)

  -- With nobody interfering and the database answering, the token of a successful login by nickname,
  -- which no session had before, is good for that user for thirty days, and is then refused.
  pub login_lasts :
      (d : ℕ)
      → (d < thirty_days
          → (v : User) × ((validate_session env quiet t (later d a')).0 ≡ ok v) × (v.id ≡ user.id))
        × (thirty_days ≤ d
            → (validate_session env quiet t (later d a')).0 ≡ err ApiError.unauthorized)
  login_lasts d =
      let (u, key, c, (row, live, signed), same, eq_t, eq_a) = decided in
      let (v, found) = login_row-find _ a.users u key row in
      let lasts =
        validate-opened env (token env random) u.id d (delete_challenge c.id a).1 v fresh found in
      rw (same, eq_t, eq_a) lasts

  -- With nobody interfering and the database answering, the challenge of a successful login by
  -- nickname, if it was stored under one id only, serves for no login by nickname again, by anyone
  -- and with any signature.
  pub replay_refused :
      (id d : ℕ) (random' : Bytes) (nickname' signature' : Text)
      → IsOnlyAt id challenge a.auth_challenges
      → (verify_and_login env quiet random' nickname' challenge signature' (later d a')).0
        ≡ err ApiError.invalid_credentials
  unfolding opened
  replay_refused id d random' nickname' signature' only =
      let (u, key, c, (row, live, signed), same, eq_t, eq_a) = decided in
      let same_id = find-id id a.now key challenge a.auth_challenges c only live in
      refused env random' nickname' challenge signature' (later d a') λ k.
        subst (λ (b : Auth). find (live_challenge k challenge (b.now + d)) b.auth_challenges ≡ none)
          (sym eq_a) (rw same_id (find-deleted id (a.now + d) k challenge a.auth_challenges only))

-- ===== src/Login/Opened.antt =====
-- The session that a login opens, and how long its token is good.
use sonotxt_rust.Base.{
  ℕ, ◌+◌, ◌*◌, ◌≤◌, ◌<◌, ◌≡◌, refl, ap, ◌∙◌, Bool, false, ◌&&◌, not, none, some, List, [], ◌∷◌,
  arith, ltb, find, find-map, filter, any, map,
}
use sonotxt_rust.Base.Bytes.{Bytes}
use sonotxt_rust.Base.Text.{Text, eq_text, eq_text_refl}
use sonotxt_rust.Base.Errors.{ApiError, Result, ok, err}
use sonotxt_rust.Base.Action.{quiet, ◌>>=◌}
use sonotxt_rust.Login.{Env, User, generate_session_token, hash_token}
use sonotxt_rust.Login.Tables.{Auth, UserRow, SessionRow, with_id, touch, touched, insert_session}
use sonotxt_rust.Login.Sessions.{whole_user, create_session, validate_session, logout}

abbrev pub thirty_days : ℕ
thirty_days = 30 * 24 * 60 * 60

abbrev pub later : ℕ → Auth → Auth
later d a = record a { now = a.now + d }

abbrev pub has_hash : Text → SessionRow → Bool
has_hash hash s = eq_text s.token_hash hash

-- The state with a new session of a user, who has just logged in.
unfoldable pub opened : ℕ → Text → Auth → Auth
opened user_id hash a =
    (touch user_id (record a {
      sessions =
          record { user_id = user_id; token_hash = hash; expires_at = a.now + thirty_days }
          ∷ a.sessions;
    })).1

module _ (env : Env) (random : Bytes) where
  abbrev pub token : Text
  token = generate_session_token env random

  -- No session has this token yet.
  abbrev pub IsFresh : Auth → Type 0
  IsFresh a = any (has_hash (hash_token env token)) a.sessions ≡ false

  pub create_session_lem :
      (k user_id : ℕ) (a : Auth)
      → IsFresh a
      → create_session env quiet k user_id random a
        ≡ (ok token, opened user_id (hash_token env token) a)
  unfolding create_session insert_session opened ◌>>=◌
  create_session_lem k user_id a fresh = ground arith

-- A user that a query finds by what a login does not change is found after it, with the same id.
pub find-touched :
    (p : UserRow → Bool) (id now : ℕ) (us : List UserRow) (u : UserRow)
    → ((v : UserRow) → p (touched id now v) ≡ p v)
    → find p us ≡ some u
    → (v : UserRow) × (find p (map (touched id now) us) ≡ some v) × (v.id ≡ u.id)
find-touched p id now us u same e =
    (touched id now u, find-map p (touched id now) us u same e, ground arith)

with_id-found :
    (id : ℕ) (us : List UserRow) (u : UserRow) → find (with_id id) us ≡ some u → u.id ≡ id
with_id-found id [] u e = absurd (cc)
with_id-found id (v ∷ us) u e = ground (arith, with_id-found id us u)

not-found :
    (hash : Text) (now : ℕ) (ss : List SessionRow)
    → any (has_hash hash) ss ≡ false
    → find (λ (s : SessionRow). eq_text s.token_hash hash && ltb now s.expires_at) ss ≡ none
not-found hash now [] h = refl
not-found hash now (s ∷ ss) h = ground (arith, not-found hash now ss)

filter-has_hash :
    (hash : Text) (ss : List SessionRow)
    → any (has_hash hash) (filter (λ s. not (has_hash hash s)) ss) ≡ false
filter-has_hash hash [] = refl
filter-has_hash hash (s ∷ ss) = ground (arith, filter-has_hash hash ss)

module _ (env : Env) (t : Text) where
  pub validate_none :
      (a : Auth)
      → any (has_hash (hash_token env t)) a.sessions ≡ false
      → validate_session env quiet t a ≡ (err ApiError.unauthorized, a)
  unfolding validate_session ◌>>=◌
  validate_none a h = ground (arith, not-found (hash_token env t) a.now a.sessions)

  -- A session is good for thirty days, and is then refused.
  pub validate-opened :
      (id d : ℕ) (a : Auth) (u : UserRow)
      → any (has_hash (hash_token env t)) a.sessions ≡ false
      → find (with_id id) a.users ≡ some u
      → (d < thirty_days
          → (v : User) × ((validate_session env quiet t
                (later d (opened id (hash_token env t) a))).0
              ≡ ok v)
            × (v.id ≡ id))
        × (thirty_days ≤ d
            → (validate_session env quiet t (later d (opened id (hash_token env t) a))).0
              ≡ err ApiError.unauthorized)
  unfolding validate_session opened ◌>>=◌
  validate-opened id d a u fresh here =
      let (v, found, kept) =
        find-touched (with_id id) id a.now a.users u (λ w. ground arith) here in
      let same : v.id ≡ id = kept ∙ with_id-found id a.users u here in
      (
        λ soon. (whole_user v, ground (arith, eq_text_refl (hash_token env t)), same),
        λ late. ground (arith, not-found (hash_token env t) (a.now + d) a.sessions),
      )

  -- After logout a token is refused, at any time.
  pub logout-validate :
      (d : ℕ) (a : Auth)
      → (validate_session env quiet t (later d (logout env quiet t a).1)).0
        ≡ err ApiError.unauthorized
  unfolding logout ◌>>=◌
  logout-validate d a =
      ap (λ (x : Result ApiError User × Auth). x.0)
        (validate_none (later d (logout env quiet t a).1)
          (filter-has_hash (hash_token env t) a.sessions))

-- ===== src/Access/Cached.antt =====
-- The cache vouches only for tokens that were issued, and so do the extractors.
use sonotxt_rust.Base.{
  ℕ, ◌+◌, ◌<◌, ◌≡◌, refl, ap, ◌∙◌, sym, subst, inl, inr, ◌⊎◌, true, false, String, Option, none,
  some, arith, ◌==◌, Bool-cases, Option-cases,
}
use sonotxt_rust.Base.Errors.{ApiError, Result, ok, err}
use sonotxt_rust.Base.Assoc.{lookup, lookup-insert}
use sonotxt_rust.Base.Action.{quiet, or_raise, ◌>>=◌}
use sonotxt_rust.Api.Synthesis.{TtsUser, authenticated, free_tier}
use sonotxt_rust.Access.{
  Access, ApiKey, Entry, KeyRow, SessionRow, get, setex, session_of, remember, by_address,
  by_session, by_key, tts_user,
}

module _ (token_hash : ℕ → ℕ) where
  -- The token is an API key or the token of a session, of this account.
  abbrev pub Issued : ℕ → ℕ → Access → Type 0
  Issued token account a =
      ((r : KeyRow) × (lookup token a.api_keys ≡ some r) × (r.account_id ≡ account))
      ⊎ ((s : SessionRow) × (lookup (token_hash token) a.sessions ≡ some s) × (s.user_id ≡ account))

  -- Each key in the cache is under its own token, which was issued for its account.
  pub record IsVouched (a : Access) : Type 0 where
    pub entries :
        (token : ℕ) (e : Entry) (k : ApiKey)
        → lookup token a.redis ≡ some e
        → e.value ≡ some k
        → (k.key ≡ token) × Issued token k.account_id a

  abbrev key_of : ℕ → ℕ → ApiKey
  key_of token account = record { key = token; account_id = account; revoked = false }

  setex-IsVouched :
      (token account : ℕ) (a : Access)
      → IsVouched a
      → Issued token account a
      → IsVouched (setex token (key_of token account) a).1
  unfolding setex
  setex-IsVouched token account a h issued = record {
    entries = λ t e k found here.
        let entry : Entry = record { value = some (key_of token account); expires = a.now + 300 } in
        let law = lookup-insert token t entry a.redis in
        elim (Bool-cases (token == t)) [
          | inr f ↦
              let old : lookup t a.redis ≡ some e = ground (arith, law) in h.entries t e k old here
          | inl q ↦
              let same : token ≡ t = ground arith in
              let the_entry : entry ≡ e = ground (arith, law) in
              let the_key : key_of token account ≡ k = ground arith in
              (
                ap (λ (x : ApiKey). x.key) (sym the_key) ∙ same,
                subst (λ x. Issued t x a) (ap (λ (x : ApiKey). x.account_id) the_key)
                    (subst (λ x. Issued x account a) same issued),
              )
        ];
  }

  -- The cache has the token, for this account.
  abbrev pub IsCached : ℕ → ℕ → Access → Type 0
  IsCached token account a =
      (e : Entry) × (k : ApiKey) × (lookup token a.redis ≡ some e)
      × (e.value ≡ some k)
      × (a.now < e.expires)
      × (k.account_id ≡ account)
      × (k.revoked ≡ false)

  -- The token is an API key of the account, not revoked.
  abbrev pub HasKey : ℕ → ℕ → Access → Type 0
  HasKey token account a =
      (r : KeyRow) × (lookup token a.api_keys ≡ some r)
      × (r.account_id ≡ account)
      × (r.revoked ≡ false)

  -- The token is that of a session of the user, which has not expired.
  abbrev pub HasSession : ℕ → ℕ → Option String → Access → Type 0
  HasSession token user wallet a =
      (s : SessionRow) × (lookup (token_hash token) a.sessions ≡ some s)
      × (s.user_id ≡ user)
      × (a.now < s.expires_at)
      × (lookup user a.users ≡ some wallet)

  abbrev pub NoneCached : ℕ → Access → Type 0
  NoneCached token a = (account : ℕ) → ¬ IsCached token account a

  abbrev pub NoKey : ℕ → Access → Type 0
  NoKey token a = (account : ℕ) → ¬ HasKey token account a

  abbrev pub NoSession : ℕ → Access → Type 0
  NoSession token a = (user : ℕ) (wallet : Option String) → ¬ HasSession token user wallet a

  -- Which of the three identifies the user, in the order they are asked.
  abbrev pub IsKnown : ℕ → ℕ → Option String → Access → Type 0
  IsKnown token account wallet a =
      (IsCached token account a × Issued token account a × (wallet ≡ none))
      ⊎ (NoneCached token a
          × ((HasKey token account a × (wallet ≡ none))
              ⊎ (NoKey token a × HasSession token account wallet a)))

  abbrev pub IsUnknown : ℕ → Access → Type 0
  IsUnknown token a = NoneCached token a × NoKey token a × NoSession token a

  module _ (hash_ip : ℕ → ℕ) where
    -- What a request with a token, from an address that may be known, ends in.
    abbrev pub Identified : ℕ → Option ℕ → Access → Result ApiError TtsUser × Access → Type 0
    Identified token client_ip a (ok (authenticated account key wallet), a') =
        (key ≡ token) × IsKnown token account wallet a × IsVouched a'
    Identified token client_ip a (ok (free_tier hash), a') =
        (a' ≡ a) × IsUnknown token a × ((ip : ℕ) × (client_ip ≡ some ip) × (hash ≡ hash_ip ip))
    Identified token client_ip a (err e, a') = (a' ≡ a) × IsUnknown token a × (client_ip ≡ none)

  module _ (hash_ip : ℕ → ℕ) (token : ℕ) (client_ip : Option ℕ) (a : Access) where
    by_address-Identified :
        IsUnknown token a
        → Identified hash_ip token client_ip a (by_address token_hash hash_ip quiet client_ip a)
    unfolding by_address ◌>>=◌
    by_address-Identified unknown = elim (Option-cases client_ip) [
      | inl e ↦ rw (e, by_address, or_raise) (refl, unknown, refl)
      | inr (ip, e) ↦ rw (e, by_address, or_raise) (refl, unknown, (ip, refl, refl))
    ]

    session-HasSession :
        (user : ℕ) (wallet : Option String)
        → session_of (token_hash token) a ≡ some (user, wallet)
        → HasSession token user wallet a
    unfolding session_of
    session-HasSession user wallet e = elim (Option-cases (lookup (token_hash token) a.sessions)) [
      | inl q ↦ absurd (ground arith)
      | inr (s, q) ↦ (s, q, ground arith, ground arith, ground arith)
    ]

    session-NoSession : session_of (token_hash token) a ≡ none → NoSession token a
    unfolding session_of
    session-NoSession e user wallet (s, found, own, lasts, has) = ground arith

    HasSession-Issued :
        (user : ℕ) (wallet : Option String) → HasSession token user wallet a → Issued token user a
    HasSession-Issued user wallet (s, found, own, lasts, has) = inr (s, found, own)

    by_session-none :
        session_of (token_hash token) a ≡ none
        → by_session token_hash hash_ip quiet token client_ip a
          ≡ by_address token_hash hash_ip quiet client_ip a
    unfolding by_session ◌>>=◌
    by_session-none e = ground arith

    by_session-some :
        (user : ℕ) (wallet : Option String)
        → session_of (token_hash token) a ≡ some (user, wallet)
        → by_session token_hash hash_ip quiet token client_ip a
          ≡ (ok (authenticated user token wallet), (setex token (key_of token user) a).1)
    unfolding by_session remember ◌>>=◌
    by_session-some user wallet e = ground arith

    by_session-Identified :
        IsVouched a
        → NoneCached token a
        → NoKey token a
        → Identified hash_ip token client_ip a
            (by_session token_hash hash_ip quiet token client_ip a)
    by_session-Identified h fresh no_key = elim (Option-cases (session_of (token_hash token) a)) [
      | inl e ↦ rw (by_session-none e) (by_address-Identified (fresh, no_key, session-NoSession e))
      | inr ((user, wallet), e) ↦
          let has = session-HasSession user wallet e in
          let issued = HasSession-Issued user wallet has in
          rw (by_session-some user wallet e)
            (refl, inr (fresh, inr (no_key, has)), setex-IsVouched token user a h issued)
    ]

    by_key-none :
        lookup token a.api_keys ≡ none
        → by_key token_hash hash_ip quiet token client_ip a
          ≡ by_session token_hash hash_ip quiet token client_ip a
    unfolding by_key ◌>>=◌
    by_key-none e = ground arith

    by_key_revoked :
        (r : KeyRow)
        → lookup token a.api_keys ≡ some r
        → r.revoked ≡ true
        → by_key token_hash hash_ip quiet token client_ip a
          ≡ by_session token_hash hash_ip quiet token client_ip a
    unfolding by_key ◌>>=◌
    by_key_revoked r e t = ground arith

    by_key-some :
        (r : KeyRow)
        → lookup token a.api_keys ≡ some r
        → r.revoked ≡ false
        → by_key token_hash hash_ip quiet token client_ip a ≡ (
          ok (authenticated r.account_id token none),
          (setex token (key_of token r.account_id) a).1,
        )
    unfolding by_key remember ◌>>=◌
    by_key-some r e f = ground arith

    by_key-Identified :
        IsVouched a
        → NoneCached token a
        → Identified hash_ip token client_ip a (by_key token_hash hash_ip quiet token client_ip a)
    by_key-Identified h fresh = elim (Option-cases (lookup token a.api_keys)) [
      | inl e ↦
          let no_key : NoKey token a = λ account (r, found, own, live). ground arith in
          rw (by_key-none e) (by_session-Identified h fresh no_key)
      | inr (r, e) ↦ elim (Bool-cases r.revoked) [
        | inl t ↦
            let no_key : NoKey token a = λ account (x, found, own, live). ground arith in
            rw (by_key_revoked r e t) (by_session-Identified h fresh no_key)
        | inr f ↦
            let issued : Issued token r.account_id a = inl (r, e, refl) in
            rw (by_key-some r e f) (
              refl,
              inr (fresh, inl ((r, e, refl, f), refl)),
              setex-IsVouched token r.account_id a h issued,
            )
      ]
    ]

    abbrev outcome : Result ApiError TtsUser × Access
    outcome = tts_user token_hash hash_ip quiet (some token) client_ip a

    get-redis :
        (k : ApiKey)
        → get token a ≡ some (some k)
        → (e : Entry) × (lookup token a.redis ≡ some e) × (e.value ≡ some k) × (a.now < e.expires)
    unfolding get
    get-redis k q = elim (Option-cases (lookup token a.redis)) [
      | inl e ↦ absurd (ground arith)
      | inr (e, found) ↦ (e, found, ground arith, ground arith)
    ]

    -- What is not revoked in the cache identifies the user, and nothing else is cached.
    none-NoneCached :
        ((k : ApiKey) → get token a ≡ some (some k) → k.revoked ≡ true) → NoneCached token a
    unfolding get
    none-NoneCached dead account (e, k, found, here, lasts, own, live) =
        let hit : get token a ≡ some (some k) = ground arith in let t = dead k hit in ground arith

    cached-outcome :
        (k : ApiKey)
        → get token a ≡ some (some k)
        → k.revoked ≡ false
        → outcome ≡ (ok (authenticated k.account_id k.key none), a)
    unfolding tts_user ◌>>=◌
    cached-outcome k q f = ground arith

    other-outcome :
        ((k : ApiKey) → get token a ≡ some (some k) → k.revoked ≡ true)
        → outcome ≡ by_key token_hash hash_ip quiet token client_ip a
    unfolding tts_user ◌>>=◌
    other-outcome dead = elim (Option-cases (get token a)) [
      | inl e ↦ ground arith
      | inr (none, e) ↦ ground arith
      | inr (some k, e) ↦ let t = dead k e in ground arith
    ]

    by_key-dead :
        IsVouched a
        → ((k : ApiKey) → get token a ≡ some (some k) → k.revoked ≡ true)
        → Identified hash_ip token client_ip a outcome
    by_key-dead h dead = rw (other-outcome dead) (by_key-Identified h (none-NoneCached dead))

    -- With nobody interfering and redis and the database answering, and a cache that held only
    -- tokens that were issued for their accounts, as it still does after: the user is the one the
    -- cache has, in an entry that lasts and is not revoked; else the one of an API key that is
    -- not revoked; else the one of a session that has not expired. With none of the three, the
    -- address counts if it is known, else the request fails, and nothing changes.
    pub tts_user-Identified : IsVouched a → Identified hash_ip token client_ip a outcome
    tts_user-Identified h = elim (Option-cases (get token a)) [
      | inl e ↦ by_key-dead h (λ k q. absurd (ground arith))
      | inr (none, e) ↦ by_key-dead h (λ k q. absurd (ground arith))
      | inr (some k, e) ↦ elim (Bool-cases k.revoked) [
        | inl t ↦
            let dead : (x : ApiKey) → get token a ≡ some (some x) → x.revoked ≡ true =
              λ x q. ground arith in
            by_key-dead h dead
        | inr f ↦
            let (entry, found, here, lasts) = get-redis k e in
            let (own, issued) = h.entries token entry k found here in
            let cached : IsCached token k.account_id a = (entry, k, found, here, lasts, refl, f) in
            rw (cached-outcome k e f) (own, inl (cached, issued, refl), h)
      ]
    ]

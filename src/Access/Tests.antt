-- ===== src/Access/Tests.antt =====
-- Runs of the extractors: token 7 is an API key of account 1, token 8 a session of user 2.
use sonotxt_rust.Base.{ℕ, ◌≡◌, refl, false, none, some, [], ◌∷◌, arith, inl}
use sonotxt_rust.Base.Assoc.{lookup}
use sonotxt_rust.Base.Action.{quiet}
use sonotxt_rust.Access.{Access, ApiKey, Entry, get, session_of, tts_user}
use sonotxt_rust.Access.Cached.{IsVouched, Identified, tts_user-Identified}

abbrev hash : ℕ → ℕ
hash n = n

abbrev cached_key : ApiKey
cached_key = record { key = 7; account_id = 1; revoked = false }

abbrev access : Access
access = record {
  redis = (7, record { value = some cached_key; expires = 900 }) ∷ [];
  api_keys = (7, record { account_id = 1; revoked = false }) ∷ [];
  sessions = (8, record { user_id = 2; expires_at = 5000 }) ∷ [];
  users = (2, some "5F") ∷ [];
  now = 700;
}

only_key :
    (t : ℕ) (e : Entry)
    → lookup t access.redis ≡ some e
    → (t ≡ 7) × (e ≡ record { value = some cached_key; expires = 900 })
unfolding lookup
only_key t e found = (ground arith, ground arith)

access-IsVouched : IsVouched hash access
unfolding lookup
access-IsVouched = record {
  entries = λ t e k found here.
      let (same, it) = only_key t e found in
      let this : cached_key ≡ k = ground arith in
      rw (same, ← this) (refl, inl (record { account_id = 1; revoked = false }, refl, refl));
}

tts_user-Identified_example :
    Identified hash hash 7 (some 3) access (tts_user hash hash quiet (some 7) (some 3) access)
tts_user-Identified_example = tts_user-Identified hash hash 7 (some 3) access access-IsVouched

miss : get 8 access ≡ none
unfolding get lookup
miss = refl

no_key : lookup 8 access.api_keys ≡ none
unfolding lookup
no_key = refl

session : session_of 8 access ≡ some (2, some "5F")
unfolding session_of lookup
session = refl

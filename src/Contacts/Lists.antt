-- ===== src/Contacts/Lists.antt =====
-- The lists and the lookup of sonotxt-api/src/routes/contacts.rs. `user` is the account that is
-- logged in.
use sonotxt_rust.Base.{
  ℕ, ◌+◌, Bool, true, false, ◌&&◌, Option, none, some, List, [], ◌∷◌, leb, ◌==◌, if◌then◌else◌, map,
  filter, find, take,
}
use mathlib.Core.List.{reverse, ◌++◌}
use sonotxt_rust.Base.Text.{Text, codes, is_text}
use sonotxt_rust.Base.Errors.{ApiError}
use sonotxt_rust.Base.Assoc.{Assoc}
use sonotxt_rust.Base.Action.{Action, Schedule, statement, pure, raise, ◌>>=◌}
use sonotxt_rust.Contacts.{Status, eq_status, User, Row, Contacts, is_party, status_between, mask}

pub record Contact : Type 0 where
  pub id : ℕ
  pub user_id : ℕ
  pub contact_id : ℕ
  pub status : Status
  pub message : Option Text
  pub accepted_at : Option ℕ
  pub nickname : Option Text
  pub wallet_address : Option Text
  pub email : Option Text

pub record UserLookup : Type 0 where
  pub id : ℕ
  pub nickname : Option Text
  pub wallet_address : Option Text
  pub is_contact : Bool
  pub contact_status : Option Status

-- The row of the response: none is a panic.
unfoldable pub to_contact : ℕ → Row → User → Option Contact
to_contact id r u =
    let shown : Option Text → Contact = λ email. record {
      id = id;
      user_id = r.user_id;
      contact_id = r.contact_id;
      status = r.status;
      message = r.message;
      accepted_at = r.accepted_at;
      nickname = u.nickname;
      wallet_address = u.wallet_address;
      email = email;
    } in
    elim u.email [
      | none ↦ some (shown none)
      | some e ↦ elim (mask e) [ none ↦ none | some m ↦ some (shown (some m)) ]
    ]

-- The rows of the query, each with the user that it is joined with.
unfoldable pub joined :
    (test : Row → Bool) (other : Row → ℕ) (users : List User) → Assoc Row → List (ℕ × (Row × User))
joined test other users [] = []
joined test other users ((i, r) ∷ rows) =
    let rest = joined test other users rows in
    if test r
    then (elim (find (λ u. u.id == other r) users) [ none ↦ rest | some u ↦ (i, (r, u)) ∷ rest ])
    else rest

-- `.map(..).collect()`, of which a panic is the end.
unfoldable pub to_contacts : List (ℕ × (Row × User)) → Option (List Contact)
unfolding to_contact
to_contacts [] = some []
to_contacts ((i, (r, u)) ∷ rows) = elim (to_contact i r u) [
  | none ↦ none
  | some c ↦ elim (to_contacts rows) [ none ↦ none | some cs ↦ some (c ∷ cs) ]
]

-- `accepted_at`, NULL first.
abbrev pub is_later : Option ℕ → Option ℕ → Bool
is_later none b = true
is_later (some a) none = false
is_later (some a) (some b) = leb b a

-- `ORDER BY c.accepted_at DESC`
unfoldable pub place : ℕ × (Row × User) → List (ℕ × (Row × User)) → List (ℕ × (Row × User))
place c [] = c ∷ []
place (i, (r, u)) ((j, (q, v)) ∷ rows) =
    if is_later r.accepted_at q.accepted_at
    then (i, (r, u)) ∷ (j, (q, v)) ∷ rows
    else (j, (q, v)) ∷ place (i, (r, u)) rows

unfoldable pub by_accepted_at : List (ℕ × (Row × User)) → List (ℕ × (Row × User))
unfolding place
by_accepted_at [] = []
by_accepted_at (c ∷ rows) = place c (by_accepted_at rows)

module _ (sched : Schedule Contacts) where
  unfoldable pub list_contacts : (user : ℕ) → Action Contacts (Option (List Contact))
  list_contacts user = do
    rows ← statement sched 0 λ s. (
      by_accepted_at (
          joined (λ r. is_party user r && eq_status r.status Status.accepted)
            (λ r. if r.user_id == user then r.contact_id else r.user_id) s.users s.contacts),
      s,
    )
    pure (to_contacts rows)

  -- The time of acceptance is not selected.
  unfoldable pub list_pending : (user : ℕ) → Action Contacts (Option (List Contact))
  list_pending user = do
    rows ← statement sched 0 λ s. (
      reverse (
          joined (λ r. (r.contact_id == user) && eq_status r.status Status.pending) (λ r. r.user_id)
            s.users s.contacts),
      s,
    )
    pure (to_contacts (map (λ row. (row.0, (record row.1.0 { accepted_at = none }, row.1.1))) rows))

  -- The loop of `lookup_user`: the statements are numbered from 1.
  unfoldable pub lookup_rows : (k user : ℕ) → List User → Action Contacts (List UserLookup)
  lookup_rows k user [] = pure []
  lookup_rows k user (u ∷ us) = if u.id == user then lookup_rows k user us else (do
    contact_status ← statement sched k λ s. (status_between user u.id s.contacts, s)
    rest ← lookup_rows (k + 1) user us
    pure (
        record {
          id = u.id;
          nickname = u.nickname;
          wallet_address = u.wallet_address;
          is_contact = elim contact_status [ none ↦ false | some t ↦ eq_status t Status.accepted ];
          contact_status = contact_status;
        }
        ∷ rest))

module _ (lower : Text → Text) (sched : Schedule Contacts) where
  unfoldable pub lookup_user :
      (like : (text pattern : Text) → Bool) (user : ℕ) (address nickname : Option Text)
      → Action Contacts (List UserLookup)
  unfolding lookup_rows
  lookup_user like user address nickname = do
    rows ← elim address [
      | some addr ↦ statement sched 0 λ s. (filter (λ u. is_text addr u.wallet_address) s.users, s)
      | none ↦ elim nickname [
        | some nick ↦ statement sched 0 λ s. (
          take 10 (
              filter
                (λ u. elim u.nickname [
                  | none ↦ false
                  | some n ↦ like (lower n) (lower (nick ++ codes "%"))
                ])
                s.users),
          s,
        )
        | none ↦ raise (ApiError.invalid_request "provide address or nickname")
      ]
    ]
    lookup_rows sched 1 user rows

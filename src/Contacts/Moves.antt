-- ===== src/Contacts/Moves.antt =====
-- What a request may do to a row of contacts, and that the handlers do no more.
use sonotxt_rust.Base.{
  ℕ, ◌≡◌, ◌≢◌, ◌⊎◌, inl, inr, refl, sym, ap, ◌∙◌, subst, Bool, true, false, Option, none, some,
  arith, ◌==◌, if◌then◌else◌, Bool-cases, Option-cases,
}
use sonotxt_rust.Base.Text.{Text}
use sonotxt_rust.Base.Errors.{ApiError}
use sonotxt_rust.Base.Assoc.{Assoc, lookup, insert, lookup-insert, lookup-erase}
use sonotxt_rust.Base.Action.{quiet, ◌>>=◌}
use sonotxt_rust.Contacts.{Status, eq_status, Row, Contacts, is_party, change_row}
use sonotxt_rust.Contacts.Sent.{new_row, send_invite-cases}
use sonotxt_rust.Contacts.Requests.{
  InviteRequest, send_invite, change, accept_invite, reject_invite, block_contact, remove_contact,
}

-- What a user may do to a row: send it, accept or reject it if it was sent to them, and block or
-- remove it if they are one of its two users.
pub data Move (user : ℕ) : Option Row → Option Row → Type 0 where
  stays : {r : Option Row} → Move user r r
  invites :
      (contact : ℕ) (message : Option Text)
      → contact ≢ user
      → Move user none (
          some (record {
            user_id = user;
            contact_id = contact;
            status = Status.pending;
            message = message;
            accepted_at = none;
          }))
  accepts :
      (r : Row) (now : ℕ)
      → r.contact_id ≡ user
      → r.status ≡ Status.pending
      → Move user (some r) (some (record r { status = Status.accepted; accepted_at = some now }))
  rejects : (r : Row) → r.contact_id ≡ user → r.status ≡ Status.pending → Move user (some r) none
  blocks :
      (r : Row)
      → is_party user r ≡ true
      → Move user (some r) (some (record r { status = Status.blocked }))
  removes : (r : Row) → is_party user r ≡ true → Move user (some r) none

-- The requests that change rows.
pub data Request : Type 0 where
  send : (id : ℕ) (req : InviteRequest) → Request
  accept : (now contact_id : ℕ) → Request
  reject : (contact_id : ℕ) → Request
  block : (contact_id : ℕ) → Request
  remove : (contact_id : ℕ) → Request

module _ (lower : Text → Text) (user : ℕ) where
  -- The state after a request that nobody disturbs.
  unfoldable pub perform : Request → Contacts → Contacts
  perform (send id req) s = (send_invite lower quiet id user req s).1
  perform (accept now contact_id) s = (accept_invite quiet now user contact_id s).1
  perform (reject contact_id) s = (reject_invite quiet user contact_id s).1
  perform (block contact_id) s = (block_contact quiet user contact_id s).1
  perform (remove contact_id) s = (remove_contact quiet user contact_id s).1

-- The id of a new row is that of no other.
abbrev pub IsFresh : Request → Contacts → Type 0
IsFresh (send id req) s = lookup id s.contacts ≡ none
IsFresh (accept now contact_id) s = Unit {0}
IsFresh (reject contact_id) s = Unit {0}
IsFresh (block contact_id) s = Unit {0}
IsFresh (remove contact_id) s = Unit {0}

moved : (user : ℕ) (a b c d : Option Row) → a ≡ c → b ≡ d → Move user c d → Move user a b
moved user a b c d p q m = subst (λ x. Move user x b) (sym p) (subst (λ x. Move user c x) (sym q) m)

pub changed :
    (id : ℕ) (test : Row → Bool) (new : Row → Option Row) (s : Contacts) (j : ℕ) (r : Row)
    → lookup id s.contacts ≡ some r
    → test r ≡ true
    → lookup j (change_row id test new s).1.contacts
      ≡ (if id == j then new r else lookup j s.contacts)
unfolding change_row
changed id test new s j r e t = elim (Option-cases (new r)) [
  | inl gone ↦ ground (arith, lookup-erase id j s.contacts)
  | inr (w, f) ↦ ground (arith, lookup-insert id j w s.contacts)
]

pub unchanged :
    (id : ℕ) (test : Row → Bool) (new : Row → Option Row) (s : Contacts) (r : Row)
    → lookup id s.contacts ≡ some r
    → test r ≡ false
    → change_row id test new s ≡ (0, s)
unfolding change_row
unchanged id test new s r e t = ground arith

pub unknown :
    (id : ℕ) (test : Row → Bool) (new : Row → Option Row) (s : Contacts)
    → lookup id s.contacts ≡ none
    → change_row id test new s ≡ (0, s)
unfolding change_row
unknown id test new s e = ground arith

-- A change by id leaves the row under `j` or is the change of it.
pub change_row-at :
    (id : ℕ) (test : Row → Bool) (new : Row → Option Row) (s : Contacts) (j : ℕ)
    → (lookup j (change_row id test new s).1.contacts ≡ lookup j s.contacts)
      ⊎ ((r : Row) × (lookup j s.contacts ≡ some r)
          × (test r ≡ true)
          × (lookup j (change_row id test new s).1.contacts ≡ new r))
change_row-at id test new s j = elim (Option-cases (lookup id s.contacts)) [
  | inl gone ↦ inl (ap (λ c. lookup j c.1.contacts) (unknown id test new s gone))
  | inr (r, e) ↦ elim (Bool-cases (test r)) [
    | inl t ↦ elim (Bool-cases (id == j)) [
      | inl same ↦ inr (r, (ground arith), t, ground (arith, changed id test new s j r e t))
      | inr other ↦ inl (ground (arith, changed id test new s j r e t))
    ]
    | inr f ↦ inl (ap (λ c. lookup j c.1.contacts) (unchanged id test new s r e f))
  ]
]

pub change_state :
    (id : ℕ) (test : Row → Bool) (new : Row → Option Row) (e : ApiError) (s : Contacts)
    → (change quiet id test new e s).1 ≡ (change_row id test new s).1
unfolding ◌>>=◌
change_state id test new e s = ground arith

is_pending : (st : Status) → eq_status st Status.pending ≡ true → st ≡ Status.pending
is_pending Status.pending h = refl
is_pending Status.accepted h = absurd (cc)
is_pending Status.blocked h = absurd (cc)

-- A change by id is a move if it is one for the rows that pass the test.
change-Move :
    (user id : ℕ) (test : Row → Bool) (new : Row → Option Row) (e : ApiError) (s : Contacts) (j : ℕ)
    → ((r : Row) → test r ≡ true → Move user (some r) (new r))
    → Move user (lookup j s.contacts) (lookup j (change quiet id test new e s).1.contacts)
change-Move user id test new e s j moves =
    let at : lookup j (change quiet id test new e s).1.contacts
        ≡ lookup j (change_row id test new s).1.contacts =
      ap (λ x. lookup j x.contacts) (change_state id test new e s) in
    elim (change_row-at id test new s j) [
      | inl same ↦ moved user _ _ _ _ refl (at ∙ same) stays
      | inr (r, before, t, after) ↦ moved user _ _ _ _ before (at ∙ after) (moves r t)
    ]

invited-Move :
    (user t id : ℕ) (message : Option Text) (rows : Assoc Row) (j : ℕ)
    → t ≢ user
    → lookup id rows ≡ none
    → Move user (lookup j rows) (lookup j (insert id (new_row user t message) rows))
invited-Move user t id message rows j other fresh = elim (Bool-cases (id == j)) [
  | inl same ↦
      moved user _ _ _ _ (ground arith)
        (ground (arith, lookup-insert id j (new_row user t message) rows)) (invites t message other)
  | inr apart ↦
      moved user _ _ _ _ refl (ground (arith, lookup-insert id j (new_row user t message) rows))
        stays
]

-- A request that nobody disturbs, of any kind and with any outcome, does to every row what its
-- user may do: only whoever was invited accepts or rejects, only the two users of a row block or
-- remove it, and nobody invites themselves. A new row has an id of its own.
pub perform-Move :
    (lower : Text → Text) (user : ℕ) (req : Request) (s : Contacts) (j : ℕ)
    → IsFresh req s
    → Move user (lookup j s.contacts) (lookup j (perform lower user req s).contacts)
unfolding perform accept_invite reject_invite block_contact remove_contact
perform-Move lower user (send id req) s j fresh = elim (send_invite-cases lower id user req s) [
  | inl same ↦ moved user _ _ _ _ refl (ap (λ x. lookup j x.contacts) same) stays
  | inr (t, other, none_yet, run) ↦
      moved user _ _ _ _ refl (ap (λ x. lookup j x.1.contacts) run)
        (invited-Move user t id req.message s.contacts j other fresh)
]
perform-Move lower user (accept now contact_id) s j fresh =
    change-Move user contact_id _ _ _ s j
      λ r h. accepts r now (ground arith) (is_pending r.status (ground arith))
perform-Move lower user (reject contact_id) s j fresh =
    change-Move user contact_id _ _ _ s j
      λ r h. rejects r (ground arith) (is_pending r.status (ground arith))
perform-Move lower user (block contact_id) s j fresh =
    change-Move user contact_id _ _ _ s j λ r h. blocks r h
perform-Move lower user (remove contact_id) s j fresh =
    change-Move user contact_id _ _ _ s j λ r h. removes r h

-- ===== src/Contacts/Pairs.antt =====
-- How many rows there are between two users.
use sonotxt_rust.Base.{
  ℕ, ◌+◌, ◌≤◌, ◌≡◌, inl, inr, refl, sym, ap, subst, Bool, true, Option, none, some, [], ◌∷◌, arith,
  if◌then◌else◌, Bool-cases, Option-cases,
}
use sonotxt_rust.Base.Text.{Text}
use sonotxt_rust.Base.Assoc.{Assoc, lookup, insert, erase}
use sonotxt_rust.Base.Errors.{ApiError}
use sonotxt_rust.Base.Action.{quiet}
use sonotxt_rust.Contacts.{Row, Contacts, is_between, status_between, change_row}
use sonotxt_rust.Contacts.Requests.{
  change, accept_invite, reject_invite, block_contact, remove_contact,
}
use sonotxt_rust.Contacts.Sent.{new_row, send_invite-cases}
use sonotxt_rust.Contacts.Moves.{
  Request, send, accept, reject, block, remove, perform, IsFresh, change_state,
}

unfoldable pub count : (a b : ℕ) → Assoc Row → ℕ
count a b [] = 0
count a b ((i, r) ∷ rows) =
    let others = count a b rows in if is_between a b r then others + 1 else others

-- Between any two users there is one row at most.
abbrev pub OnePerPair : Contacts → Type 0
OnePerPair s = (a b : ℕ) → count a b s.contacts ≤ 1

-- No row yet between two users, nor the other way round.
count-none :
    (a b c d : ℕ) (message : Option Text) (rows : Assoc Row)
    → status_between a b rows ≡ none
    → is_between c d (new_row a b message) ≡ true
    → count c d rows ≡ 0
unfolding count status_between
count-none a b c d message [] e h = refl
count-none a b c d message ((i, r) ∷ rows) e h = ground (arith, count-none a b c d message rows)

count-insert_new :
    (a b id : ℕ) (r : Row) (rows : Assoc Row)
    → lookup id rows ≡ none
    → count a b (insert id r rows)
      ≡ (if is_between a b r then count a b rows + 1 else count a b rows)
unfolding count insert lookup
count-insert_new a b id r [] fresh = refl
count-insert_new a b id r ((i, q) ∷ rows) fresh = ground (arith, count-insert_new a b id r rows)

-- A change of a row that leaves its users alone.
count-insert_old :
    (a b id : ℕ) (r new : Row) (rows : Assoc Row)
    → lookup id rows ≡ some r
    → new.user_id ≡ r.user_id
    → new.contact_id ≡ r.contact_id
    → count a b (insert id new rows) ≡ count a b rows
unfolding count insert lookup
count-insert_old a b id r new [] e u c = absurd (cc)
count-insert_old a b id r new ((i, q) ∷ rows) e u c =
    ground (arith, count-insert_old a b id r new rows)

pub count-erase_le : (a b id : ℕ) (rows : Assoc Row) → count a b (erase id rows) ≤ count a b rows
unfolding count erase
count-erase_le a b id [] = omega arith
count-erase_le a b id ((i, q) ∷ rows) = ground (arith, count-erase_le a b id rows)

pub count-erase :
    (a b id : ℕ) (r : Row) (rows : Assoc Row)
    → lookup id rows ≡ some r
    → is_between a b r ≡ true
    → count a b (erase id rows) + 1 ≤ count a b rows
unfolding count erase lookup
count-erase a b id r [] e h = absurd (cc)
count-erase a b id r ((i, q) ∷ rows) e h =
    ground (arith, count-erase a b id r rows, count-erase_le a b id rows)

pub status_between-none :
    (a b : ℕ) (rows : Assoc Row) → count a b rows ≡ 0 → status_between a b rows ≡ none
unfolding count status_between
status_between-none a b [] e = refl
status_between-none a b ((i, r) ∷ rows) e = ground (arith, status_between-none a b rows)

-- What a change by id makes of a row has the same users, if it is not none.
abbrev KeepsUsers : (Row → Option Row) → Type 0
KeepsUsers new =
    (r w : Row) → new r ≡ some w → (w.user_id ≡ r.user_id) × (w.contact_id ≡ r.contact_id)

change_row-count :
    (a b id : ℕ) (test : Row → Bool) (new : Row → Option Row) (s : Contacts)
    → KeepsUsers new
    → count a b (change_row id test new s).1.contacts ≤ count a b s.contacts
unfolding change_row
change_row-count a b id test new s keeps = elim (Option-cases (lookup id s.contacts)) [
  | inl gone ↦ ground arith
  | inr (r, e) ↦ elim (Option-cases (new r)) [
    | inl gone ↦ ground (arith, count-erase_le a b id s.contacts)
    | inr (w, f) ↦
        ground (arith, count-insert_old a b id r w s.contacts e (keeps r w f).0 (keeps r w f).1)
  ]
]

change-OnePerPair :
    (id : ℕ) (test : Row → Bool) (new : Row → Option Row) (e : ApiError) (s : Contacts)
    → KeepsUsers new
    → OnePerPair s
    → OnePerPair (change quiet id test new e s).1
change-OnePerPair id test new e s keeps one a b =
    let same = ap (λ x. count a b x.contacts) (change_state id test new e s) in
    omega (arith, same, change_row-count a b id test new s keeps, one a b)

sent-OnePerPair :
    (user t id : ℕ) (message : Option Text) (s : Contacts)
    → lookup id s.contacts ≡ none
    → status_between user t s.contacts ≡ none
    → OnePerPair s
    → OnePerPair (record s { contacts = insert id (new_row user t message) s.contacts })
sent-OnePerPair user t id message s fresh none_yet one a b =
    elim (Bool-cases (is_between a b (new_row user t message))) [
      | inl h ↦ ground (
        arith,
        count-insert_new a b id (new_row user t message) s.contacts fresh,
        count-none user t a b message s.contacts none_yet h,
      )
      | inr h ↦
          ground (arith, count-insert_new a b id (new_row user t message) s.contacts fresh, one a b)
    ]

-- Requests that do not disturb each other keep one row at most between any two users, whichever
-- of them invites the other. A new row has an id of its own.
pub perform-OnePerPair :
    (lower : Text → Text) (user : ℕ) (req : Request) (s : Contacts)
    → IsFresh req s
    → OnePerPair s
    → OnePerPair (perform lower user req s)
unfolding perform accept_invite reject_invite block_contact remove_contact
perform-OnePerPair lower user (send id req) s fresh one =
    elim (send_invite-cases lower id user req s) [
      | inl same ↦ subst OnePerPair (sym same) one
      | inr (t, other, none_yet, run) ↦
          subst OnePerPair (sym (ap (λ x. x.1) run))
            (sent-OnePerPair user t id req.message s fresh none_yet one)
    ]
perform-OnePerPair lower user (accept now contact_id) s fresh one =
    change-OnePerPair contact_id _ _ _ s (λ r w e. (ground arith, ground arith)) one
perform-OnePerPair lower user (reject contact_id) s fresh one =
    change-OnePerPair contact_id _ _ _ s (λ r w e. absurd (cc)) one
perform-OnePerPair lower user (block contact_id) s fresh one =
    change-OnePerPair contact_id _ _ _ s (λ r w e. (ground arith, ground arith)) one
perform-OnePerPair lower user (remove contact_id) s fresh one =
    change-OnePerPair contact_id _ _ _ s (λ r w e. absurd (cc)) one

-- ===== src/Contacts.antt =====
-- sonotxt-api/src/routes/contacts.rs: invitations between users and what becomes of them. Accounts
-- and ids are numbers, and rows stand in the order in which they were made. No migration declares
-- the table `contacts`: its ids are taken to be a primary key. LOWER and LIKE are parameters.
pub mod Requests
pub mod Lists
pub mod Sent
pub mod Moves
pub mod Pairs
pub mod Unblocked
mod Tests
use sonotxt_rust.Base.{
  ℕ, ◌+◌, ◌-◌, Bool, true, false, ◌&&◌, ◌||◌, Option, none, some, List, [], ◌∷◌, ◌++◌, ltb, leb,
  ◌==◌, if◌then◌else◌,
}
use sonotxt_rust.Base.Bytes.{Bytes}
use sonotxt_rust.Base.Text.{Text, codes}
use sonotxt_rust.Base.Assoc.{Assoc, lookup, insert, erase}

pub data Status : Type 0 where
  pending accepted blocked : Status

-- `status = '..'`
abbrev pub eq_status : Status → Status → Bool
eq_status Status.pending Status.pending = true
eq_status Status.pending Status.accepted = false
eq_status Status.pending Status.blocked = false
eq_status Status.accepted Status.pending = false
eq_status Status.accepted Status.accepted = true
eq_status Status.accepted Status.blocked = false
eq_status Status.blocked Status.pending = false
eq_status Status.blocked Status.accepted = false
eq_status Status.blocked Status.blocked = true

pub record User : Type 0 where
  pub id : ℕ
  pub nickname : Option Text
  pub wallet_address : Option Text
  pub email : Option Text

pub record Row : Type 0 where
  pub user_id : ℕ
  pub contact_id : ℕ
  pub status : Status
  pub message : Option Text
  pub accepted_at : Option ℕ

pub record Contacts : Type 0 where
  pub users : List User
  pub contacts : Assoc Row

-- `(user_id = $1 AND contact_id = $2) OR (user_id = $2 AND contact_id = $1)`
abbrev pub is_between : (a b : ℕ) → Row → Bool
is_between a b r =
    ((r.user_id == a) && (r.contact_id == b)) || ((r.user_id == b) && (r.contact_id == a))

-- `user_id = $1 OR contact_id = $1`
abbrev pub is_party : ℕ → Row → Bool
is_party a r = (r.user_id == a) || (r.contact_id == a)

-- `SELECT status FROM contacts WHERE ..` of a pair.
unfoldable pub status_between : (a b : ℕ) → Assoc Row → Option Status
status_between a b [] = none
status_between a b ((i, r) ∷ rows) =
    let others = status_between a b rows in if is_between a b r then some r.status else others

-- An UPDATE, or a DELETE where the change is none, of the row with an id if it passes a test:
-- `rows_affected()`.
unfoldable pub change_row :
    (id : ℕ) (test : Row → Bool) (change : Row → Option Row) → Contacts → ℕ × Contacts
change_row id test change s = elim (lookup id s.contacts) [
  | none ↦ (0, s)
  | some r ↦
      if test r
      then (elim (change r) [
        | none ↦ (1, record s { contacts = erase id s.contacts })
        | some new ↦ (1, record s { contacts = insert id new s.contacts })
      ])
      else (0, s)
]

-- The bytes of a character in UTF-8.
abbrev pub width : ℕ → ℕ
width c = if ltb c 128 then 1 else if ltb c 2048 then 2 else if ltb c 65536 then 3 else 4

-- `e.find('@')`, in bytes.
unfoldable pub find_at : Text → Option ℕ
find_at [] = none
find_at (c ∷ s) =
    if c == 64 then some 0 else (elim (find_at s) [ none ↦ none | some at ↦ some (width c + at) ])

-- `&e[..n]`: none is the panic at a place inside of a character.
unfoldable pub prefix : ℕ → Text → Option Text
prefix n [] = if n == 0 then some [] else none
prefix n (c ∷ s) =
    if n == 0
    then some []
    else if ltb n (width c)
    then none
    else (elim (prefix (n - width c) s) [ none ↦ none | some p ↦ some (c ∷ p) ])

-- `&e[at..]`, where a character starts.
unfoldable pub suffix : ℕ → Text → Text
suffix n [] = []
suffix n (c ∷ s) = if n == 0 then c ∷ s else suffix (n - width c) s

-- What is shown of an email address: none is a panic.
unfoldable pub mask : Text → Option Text
unfolding find_at prefix suffix
mask e = elim (find_at e) [
  | none ↦ some (codes "***")
  | some at ↦ elim (prefix (if leb at 2 then at else 2) e) [
    | none ↦ none
    | some p ↦ some (p ++ codes "..." ++ suffix at e)
  ]
]

-- ===== src/Contacts/Tests.antt =====
-- Contacts on concrete inputs: the users 1, 2 and 3, of whom 1 has the address "w".
use sonotxt_rust.Base.{ℕ, ◌≡◌, refl, none, some, [], ◌∷◌, arith, find}
use sonotxt_rust.Base.Text.{Text, codes, is_text, eq_text}
use sonotxt_rust.Base.Errors.{ApiError, ok, err}
use sonotxt_rust.Base.Assoc.{Assoc, lookup, insert}
use sonotxt_rust.Base.Action.{quiet, ◌>>=◌}
use sonotxt_rust.Contacts.{Status, User, Row, Contacts, mask, find_at, prefix, suffix, change_row}
use sonotxt_rust.Contacts.Requests.{accept_invite}
use sonotxt_rust.Contacts.Moves.{accept, block, Move, perform, perform-Move}
use sonotxt_rust.Contacts.Pairs.{count, OnePerPair, perform-OnePerPair}

abbrev same : Text → Text
same t = t

abbrev user : ℕ → Text → User
user id address = record {
  id = id;
  nickname = none;
  wallet_address = some address;
  email = some (8364 ∷ 64 ∷ []);
}

abbrev row : Status → Row
row status = record {
  user_id = 1;
  contact_id = 2;
  status = status;
  message = none;
  accepted_at = none;
}

abbrev with_rows : Assoc Row → Contacts
with_rows rows = record {
  users = user 1 (119 ∷ []) ∷ user 2 (120 ∷ []) ∷ user 3 [] ∷ [];
  contacts = rows;
}

abbrev invited_once : Contacts
invited_once = with_rows ((7, row Status.pending) ∷ [])

abbrev blocked_once : Contacts
blocked_once = with_rows ((7, row Status.blocked) ∷ [])

-- The sender may not accept.
sender_refused :
    (accept_invite quiet 100 1 7 invited_once).0
    ≡ err (ApiError.invalid_request "invite not found or already handled")
unfolding accept_invite change_row lookup ◌>>=◌
sender_refused = refl

accepted_once : (accept_invite quiet 100 2 7 invited_once).0 ≡ ok tt
unfolding accept_invite change_row lookup insert ◌>>=◌
accepted_once = refl

-- The email "ab@c" is shown as "ab...@c".
mask_shown : mask (codes "ab@c") ≡ some (codes "ab...@c")
unfolding mask find_at prefix suffix
mask_shown = refl

-- An email whose first character has three bytes: the slice at two panics, and the list with it.
mask_panics : mask (8364 ∷ 64 ∷ []) ≡ none
unfolding mask find_at prefix suffix
mask_panics = refl

perform-Move_example :
    Move 2
      (lookup 7 invited_once.contacts)
      (lookup 7 (perform same 2 (accept 100 7) invited_once).contacts)
perform-Move_example = perform-Move same 2 (accept 100 7) invited_once 7 tt

one_row : (status : Status) → OnePerPair (with_rows ((7, row status) ∷ []))
unfolding count
one_row status a b = ground arith

perform-OnePerPair_example : OnePerPair (perform same 2 (block 7) invited_once)
perform-OnePerPair_example =
    perform-OnePerPair same 2 (block 7) invited_once tt (one_row Status.pending)

known_address :
    find (λ v. is_text (119 ∷ []) v.wallet_address) blocked_once.users ≡ some (user 1 (119 ∷ []))
unfolding eq_text
known_address = refl

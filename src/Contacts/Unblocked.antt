-- ===== src/Contacts/Unblocked.antt =====
-- What a block does not prevent.
use sonotxt_rust.Base.{
  ℕ, ◌≡◌, ◌≢◌, inl, inr, sym, ap, subst, true, none, some, arith, ◌==◌, Bool-cases, find,
}
use sonotxt_rust.Base.Text.{Text, is_text}
use sonotxt_rust.Base.Errors.{ok}
use sonotxt_rust.Base.Assoc.{lookup, erase}
use sonotxt_rust.Base.Action.{quiet, ◌>>=◌}
use sonotxt_rust.Contacts.{
  Status, User, Row, Contacts, is_between, is_party, status_between, change_row,
}
use sonotxt_rust.Contacts.Requests.{invited, invite, find_target, send_invite, remove_contact}
use sonotxt_rust.Contacts.Pairs.{OnePerPair, count-erase, status_between-none}

module _ (user other id : ℕ) (r : Row) (s : Contacts) where
  between_party : is_between user other r ≡ true → is_party user r ≡ true
  between_party h = ground arith

  remove_run :
      lookup id s.contacts ≡ some r
      → is_party user r ≡ true
      → remove_contact quiet user id s ≡ (ok tt, record s { contacts = erase id s.contacts })
  unfolding remove_contact change_row ◌>>=◌
  remove_run e h = ground arith

  removed_none :
      OnePerPair s
      → lookup id s.contacts ≡ some r
      → is_between user other r ≡ true
      → status_between user other (erase id s.contacts) ≡ none
  removed_none one e h =
      status_between-none user other (erase id s.contacts)
        (omega (arith, count-erase user other id r s.contacts e h, one user other))

invite_again :
    (lower : Text → Text) (user new : ℕ) (address : Text) (u : User) (s : Contacts)
    → find (λ v. is_text address v.wallet_address) s.users ≡ some u
    → u.id ≢ user
    → status_between user u.id s.contacts ≡ none
    → (send_invite lower quiet new user
        (record { address = some address; nickname = none; email = none; message = none })
        s).0
      ≡ ok invited
unfolding send_invite find_target invite ◌>>=◌
invite_again lower user new address u s found other none_yet = elim (Bool-cases (u.id == user)) [
  | inl same ↦ absurd (other (ground arith))
  | inr apart ↦ ground arith
]

-- A blocked user, where there is one row at most between two users, can remove the row that
-- blocks them, which they are a user of, and invite the other again, whom they know by the
-- address of a wallet. Nobody disturbs it.
pub blocked_invites_again :
    (lower : Text → Text) (user id new : ℕ) (address : Text) (u : User) (r : Row) (s : Contacts)
    → OnePerPair s
    → find (λ v. is_text address v.wallet_address) s.users ≡ some u
    → u.id ≢ user
    → lookup id s.contacts ≡ some r
    → is_between user u.id r ≡ true
    → r.status ≡ Status.blocked
    → ((remove_contact quiet user id s).0 ≡ ok tt)
      × ((send_invite lower quiet new user
            (record { address = some address; nickname = none; email = none; message = none })
            (remove_contact quiet user id s).1).0
          ≡ ok invited)
blocked_invites_again lower user id new address u r s one found other e h blocked =
    let run = remove_run user u.id id r s e (between_party user u.id id r s h) in
    (
      ap (λ x. x.0) run,
      subst
          (λ x.
            (send_invite lower quiet new user
              (record { address = some address; nickname = none; email = none; message = none })
              x).0
            ≡ ok invited)
          (sym (ap (λ x. x.1) run))
          (invite_again lower user new address u (record s { contacts = erase id s.contacts }) found
            other (removed_none user u.id id r s one e h)),
    )

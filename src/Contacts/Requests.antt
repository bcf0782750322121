-- ===== src/Contacts/Requests.antt =====
-- The handlers of sonotxt-api/src/routes/contacts.rs. `user` is the account that is logged in.
use sonotxt_rust.Base.{ℕ, Bool, false, ◌&&◌, Option, none, some, ◌==◌, find}
use sonotxt_rust.Base.Text.{Text, eq_text, is_text}
use sonotxt_rust.Base.Errors.{ApiError}
use sonotxt_rust.Base.Assoc.{insert}
use sonotxt_rust.Base.Action.{
  Action, Schedule, statement, pure, raise, raise_if, or_raise, ◌>>=◌, ◌>>◌,
}
use sonotxt_rust.Contacts.{
  Status, eq_status, User, Row, Contacts, is_party, status_between, change_row,
}

pub record InviteRequest : Type 0 where
  pub address : Option Text
  pub nickname : Option Text
  pub email : Option Text
  pub message : Option Text

pub data Invited : Type 0 where
  existing : Status → Invited
  invited : Invited

module _ (sched : Schedule Contacts) where
  -- `SELECT id FROM users WHERE ..`
  abbrev pub select_user : (User → Bool) → Action Contacts (Option ℕ)
  select_user test =
      statement sched 0 λ s. (elim (find test s.users) [ none ↦ none | some u ↦ some u.id ], s)

  -- `send_invite` from the target on. `id` is the one that the new row is given.
  unfoldable pub invite : (id user target_id : ℕ) (message : Option Text) → Action Contacts Invited
  invite id user target_id message = do
    existing_status ← statement sched 1 λ s. (status_between user target_id s.contacts, s)
    elim existing_status [
      | some status ↦ pure (existing status)
      | none ↦ statement sched 2 λ s. (
        invited,
        record s {
          contacts =
              insert id
                (record {
                  user_id = user;
                  contact_id = target_id;
                  status = Status.pending;
                  message = message;
                  accepted_at = none;
                })
                s.contacts;
        },
      )
    ]

  -- A statement that must affect a row, or the request is refused.
  abbrev pub change :
      (id : ℕ) (test : Row → Bool) (new : Row → Option Row) → ApiError → Action Contacts (Unit {0})
  change id test new e = do n ← statement sched 0 λ s. change_row id test new s; raise_if (n == 0) e

  unfoldable pub accept_invite : (now user contact_id : ℕ) → Action Contacts (Unit {0})
  accept_invite now user contact_id =
      change contact_id (λ r. (r.contact_id == user) && eq_status r.status Status.pending)
        (λ r. some (record r { status = Status.accepted; accepted_at = some now }))
        (ApiError.invalid_request "invite not found or already handled")

  unfoldable pub reject_invite : (user contact_id : ℕ) → Action Contacts (Unit {0})
  reject_invite user contact_id =
      change contact_id (λ r. (r.contact_id == user) && eq_status r.status Status.pending)
        (λ r. none) (ApiError.invalid_request "invite not found")

  unfoldable pub block_contact : (user contact_id : ℕ) → Action Contacts (Unit {0})
  block_contact user contact_id =
      change contact_id (is_party user) (λ r. some (record r { status = Status.blocked }))
        (ApiError.invalid_request "contact not found")

  unfoldable pub remove_contact : (user contact_id : ℕ) → Action Contacts (Unit {0})
  remove_contact user contact_id =
      change contact_id (is_party user) (λ r. none) (ApiError.invalid_request "contact not found")

abbrev pub is_lower : (lower : Text → Text) → Text → Option Text → Bool
is_lower lower t none = false
is_lower lower t (some s) = eq_text (lower s) (lower t)

module _ (lower : Text → Text) (sched : Schedule Contacts) where
  unfoldable pub find_target : InviteRequest → Action Contacts (Option ℕ)
  find_target req = elim req.address [
    | some addr ↦ select_user sched (λ u. is_text addr u.wallet_address)
    | none ↦ elim req.nickname [
      | some nick ↦ select_user sched (λ u. is_lower lower nick u.nickname)
      | none ↦ elim req.email [
        | some email ↦ select_user sched (λ u. is_lower lower email u.email)
        | none ↦ raise (ApiError.invalid_request "provide address, nickname, or email")
      ]
    ]
  ]

  unfoldable pub send_invite : (id user : ℕ) → InviteRequest → Action Contacts Invited
  unfolding invite find_target
  send_invite id user req = do
    target ← find_target req
    target_id ← or_raise target (ApiError.invalid_request "user not found")
    raise_if (target_id == user) (ApiError.invalid_request "cannot invite yourself")
    invite sched id user target_id req.message

-- ===== src/Contacts/Sent.antt =====
-- What sending an invitation comes to, when nobody disturbs it.
use sonotxt_rust.Base.{
  ℕ, ◌≡◌, ◌≢◌, ◌⊎◌, inl, inr, ap, ◌∙◌, Option, none, some, arith, ◌==◌, Bool-cases, Option-cases,
}
use sonotxt_rust.Base.Text.{Text}
use sonotxt_rust.Base.Errors.{ApiError, Result, ok, err, Result-cases}
use sonotxt_rust.Base.Assoc.{insert}
use sonotxt_rust.Base.Action.{quiet, ◌>>=◌}
use sonotxt_rust.Contacts.{Status, Row, Contacts, status_between}
use sonotxt_rust.Contacts.Requests.{InviteRequest, invited, find_target, invite, send_invite}

abbrev pub new_row : (user contact : ℕ) (message : Option Text) → Row
new_row user contact message = record {
  user_id = user;
  contact_id = contact;
  status = Status.pending;
  message = message;
  accepted_at = none;
}

module _ (lower : Text → Text) (id user : ℕ) (req : InviteRequest) (s : Contacts) where
  abbrev pub Sent : Type 0
  Sent =
      (t : ℕ) × (t ≢ user)
      × (status_between user t s.contacts ≡ none)
      × (send_invite lower quiet id user req s
          ≡ (ok invited, record s { contacts = insert id (new_row user t req.message) s.contacts }))

  find_target_same : (r : Result ApiError (Option ℕ)) × (find_target lower quiet req s ≡ (r, s))
  unfolding find_target ◌>>=◌
  find_target_same = elim (Option-cases req.address) [
    | inr (a, e) ↦ ((find_target lower quiet req s).0, ground arith)
    | inl no_address ↦ elim (Option-cases req.nickname) [
      | inr (a, e) ↦ ((find_target lower quiet req s).0, ground arith)
      | inl no_nickname ↦ elim (Option-cases req.email) [
        | inr (a, e) ↦ ((find_target lower quiet req s).0, ground arith)
        | inl no_email ↦ ((find_target lower quiet req s).0, ground arith)
      ]
    ]
  ]

  untargeted :
      (r : Result ApiError (Option ℕ))
      → find_target lower quiet req s ≡ (r, s)
      → ((e : ApiError) × (r ≡ err e)) ⊎ (r ≡ ok none)
      → (send_invite lower quiet id user req s).1 ≡ s
  unfolding send_invite ◌>>=◌
  untargeted r f (inl (e, q)) = ground arith
  untargeted r f (inr q) = ground arith

  targeted :
      (t : ℕ)
      → find_target lower quiet req s ≡ (ok (some t), s)
      → ((send_invite lower quiet id user req s).1 ≡ s) ⊎ Sent
  unfolding send_invite invite ◌>>=◌
  targeted t f = elim (Bool-cases (t == user)) [
    | inl self ↦ inl (ground arith)
    | inr other ↦ elim (Option-cases (status_between user t s.contacts)) [
      | inr (status, e) ↦ inl (ground arith)
      | inl fresh ↦ inr (t, (λ same. ground arith), fresh, ground arith)
    ]
  ]

  pub send_invite-cases : ((send_invite lower quiet id user req s).1 ≡ s) ⊎ Sent
  send_invite-cases =
      let (r, f) = find_target_same in
      elim (Result-cases r) [
        | inr (e, q) ↦ inl (untargeted r f (inl (e, q)))
        | inl (o, q) ↦ elim (Option-cases o) [
          | inl gone ↦ inl (untargeted r f (inr (q ∙ ap ok gone)))
          | inr (t, found) ↦ targeted t (f ∙ ap (λ x. (x, s)) (q ∙ ap ok found))
        ]
      ]

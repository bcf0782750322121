-- ===== src/Sono/Polled.antt =====
-- The loops of a poll, with nobody interfering: what each makes of the channels.
use sonotxt_rust.Base.{
  ℕ, ◌+◌, ◌≡◌, refl, ap, ◌∙◌, true, false, Option, none, some, List, [], ◌∷◌, arith, ◌==◌, inl, inr,
  Bool-cases, Option-cases,
}
use sonotxt_rust.Base.Errors.{ok}
use sonotxt_rust.Base.Assoc.{lookup, insert, erase, lookup-insert, lookup-erase}
use sonotxt_rust.Base.Action.{Action, quiet, ◌>>=◌}
use sonotxt_rust.Billing.Channel.{ChannelState}
use sonotxt_rust.Sono.{Sono}
use sonotxt_rust.Sono.Listener.{
  ChannelOpened, ChannelToppedUp, ChannelSettled, each, set_channels, on_opened, on_topped_up,
  on_settled,
}
use sonotxt_rust.Sono.Chain.{
  Event, opened, topped_up, settled, opened_logs, topped_up_logs, settled_logs, new_channel,
  after_opened, after_topped_up, after_settled, opens, tops_up, settles,
}

each_steps {ℓ} :
    {A : Type ℓ} (k n : ℕ) (f : A → Action Sono ℕ) (x : A) (xs : List A) (s mid s' : Sono)
    → f x s ≡ (ok k, mid)
    → each f xs mid ≡ (ok n, s')
    → each f (x ∷ xs) s ≡ (ok (k + n), s')
unfolding each ◌>>=◌
each_steps k n f x xs s mid s' first rest = ground arith

-- What a poll makes of the logs of a kind, with nobody interfering.
module _ (service : ℕ) where
  -- The listener's channels go through a function of each user's channel.
  abbrev pub Turns : (ℕ → Option ChannelState → Option ChannelState) → Sono → Sono → Type 0
  Turns f s s' =
      (s'.last_block ≡ s.last_block)
      × ((user : ℕ) → lookup user s'.channels ≡ f user (lookup user s.channels))

  one_opened :
      (e : ChannelOpened) (s : Sono)
      → (k : ℕ) × (s' : Sono) × (on_opened service quiet (some e) s ≡ (ok k, s'))
        × Turns (λ user. after_opened service user e) s s'
  unfolding on_opened ◌>>=◌
  one_opened e s = elim (Bool-cases (e.service == service)) [
    | inl own ↦ (
      1,
      set_channels (insert e.user (new_channel e.deposit)) s,
      ground arith,
      (refl, λ user. ground (arith, lookup-insert e.user user (new_channel e.deposit) s.channels)),
    )
    | inr other ↦ (0, s, ground arith, (refl, λ user. ground arith))
  ]

  one_topped_up :
      (e : ChannelToppedUp) (s : Sono)
      → (k : ℕ) × (s' : Sono) × (on_topped_up service quiet (some e) s ≡ (ok k, s'))
        × Turns (λ user. after_topped_up service user e) s s'
  unfolding on_topped_up ◌>>=◌
  one_topped_up e s = elim (Bool-cases (e.service == service)) [
    | inl own ↦ elim (Option-cases (lookup e.user s.channels)) [
      | inl nothing ↦ (0, s, ground arith, (refl, λ user. kept user nothing own))
      | inr (ch, there) ↦ (
        1,
        set_channels (insert e.user (record ch { deposit = e.total })) s,
        ground arith,
        (refl, λ user. raised user ch there own),
      )
    ]
    | inr other ↦ (0, s, ground arith, (refl, λ user. untouched user other))
  ]
    where
      kept :
          (user : ℕ)
          → lookup e.user s.channels ≡ none
          → e.service == service ≡ true
          → lookup user s.channels ≡ after_topped_up service user e (lookup user s.channels)
      kept user nothing own = elim (Option-cases (lookup user s.channels)) [
        | inl gone ↦ ground arith
        | inr (ch, there) ↦ ground arith
      ]

      untouched :
          (user : ℕ)
          → e.service == service ≡ false
          → lookup user s.channels ≡ after_topped_up service user e (lookup user s.channels)
      untouched user other = elim (Option-cases (lookup user s.channels)) [
        | inl gone ↦ ground arith
        | inr (ch, there) ↦ ground arith
      ]

      raised :
          (user : ℕ) (ch : ChannelState)
          → lookup e.user s.channels ≡ some ch
          → e.service == service ≡ true
          → lookup user (insert e.user (record ch { deposit = e.total }) s.channels)
            ≡ after_topped_up service user e (lookup user s.channels)
      raised user ch there own = elim (Option-cases (lookup user s.channels)) [
        | inl gone ↦
            ground (arith, lookup-insert e.user user (record ch { deposit = e.total }) s.channels)
        | inr (c, here) ↦
            ground (arith, lookup-insert e.user user (record ch { deposit = e.total }) s.channels)
      ]

  one_settled :
      (e : ChannelSettled) (s : Sono)
      → (k : ℕ) × (s' : Sono) × (on_settled service quiet (some e) s ≡ (ok k, s'))
        × Turns (λ user. after_settled service user e) s s'
  unfolding on_settled ◌>>=◌
  one_settled e s = elim (Bool-cases (e.service == service)) [
    | inl own ↦ (
      1,
      set_channels (erase e.user) s,
      ground arith,
      (refl, λ user. ground (arith, lookup-erase e.user user s.channels)),
    )
    | inr other ↦ (0, s, ground arith, (refl, λ user. ground arith))
  ]

  pub opened-Turns :
      (es : List Event) (s : Sono)
      → (n : ℕ) × (s' : Sono) × (each (on_opened service quiet) (opened_logs es) s ≡ (ok n, s'))
        × Turns (λ user. opens service user es) s s'
  unfolding each opens ◌>>=◌
  opened-Turns [] s = (0, s, refl, (refl, λ user. refl))
  opened-Turns (opened e ∷ es) s =
      let (k, mid, step, (same, first)) = one_opened e s in
      let (n, s', steps, (same', rest)) = opened-Turns es mid in
      (
        k + n,
        s',
        each_steps k n (on_opened service quiet) (some e) (opened_logs es) s mid s' step steps,
        (same' ∙ same, λ user. rest user ∙ ap (opens service user es) (first user)),
      )
  opened-Turns (topped_up e ∷ es) s = opened-Turns es s
  opened-Turns (settled e ∷ es) s = opened-Turns es s

  pub topped_up-Turns :
      (es : List Event) (s : Sono)
      → (n : ℕ) × (s' : Sono) × (each (on_topped_up service quiet) (topped_up_logs es) s
          ≡ (ok n, s'))
        × Turns (λ user. tops_up service user es) s s'
  unfolding each tops_up ◌>>=◌
  topped_up-Turns [] s = (0, s, refl, (refl, λ user. refl))
  topped_up-Turns (topped_up e ∷ es) s =
      let (k, mid, step, (same, first)) = one_topped_up e s in
      let (n, s', steps, (same', rest)) = topped_up-Turns es mid in
      (
        k + n,
        s',
        each_steps k n (on_topped_up service quiet) (some e) (topped_up_logs es) s mid s' step
            steps,
        (same' ∙ same, λ user. rest user ∙ ap (tops_up service user es) (first user)),
      )
  topped_up-Turns (opened e ∷ es) s = topped_up-Turns es s
  topped_up-Turns (settled e ∷ es) s = topped_up-Turns es s

  pub settled-Turns :
      (es : List Event) (s : Sono)
      → (n : ℕ) × (s' : Sono) × (each (on_settled service quiet) (settled_logs es) s ≡ (ok n, s'))
        × Turns (λ user. settles service user es) s s'
  unfolding each settles ◌>>=◌
  settled-Turns [] s = (0, s, refl, (refl, λ user. refl))
  settled-Turns (settled e ∷ es) s =
      let (k, mid, step, (same, first)) = one_settled e s in
      let (n, s', steps, (same', rest)) = settled-Turns es mid in
      (
        k + n,
        s',
        each_steps k n (on_settled service quiet) (some e) (settled_logs es) s mid s' step steps,
        (same' ∙ same, λ user. rest user ∙ ap (settles service user es) (first user)),
      )
  settled-Turns (opened e ∷ es) s = settled-Turns es s
  settled-Turns (topped_up e ∷ es) s = settled-Turns es s

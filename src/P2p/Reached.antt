-- ===== src/P2p/Reached.antt =====
-- Whatever happens, in whatever order, a session counts the sockets that are connected to it, and
-- there are two at most.
use sonotxt_rust.Base.{
  Bool, true, false, sym, ◌∙◌, leb, Bool-cases, ℕ, ◌+◌, ◌≤◌, ◌≡◌, ap, none, some, List, [], ◌∷◌,
  ◌++◌, arith, ◌==◌, if◌then◌else◌, inl, inr, Option-cases,
}
use sonotxt_rust.Base.Text.{Text}
use sonotxt_rust.P2p.Kept.{
  put-at, join-full, created-some, join-none, joined-room, join-room, leave-none, left-at,
}
use sonotxt_rust.P2p.{
  Greeting, session_full, session_not_found, Session, Sessions, put, create_session, joined, join,
  leave,
}

-- The sessions, and the code of each socket that has joined.
pub record World : Type 0 where
  pub sessions : Sessions
  pub sockets : List ℕ

unfoldable pub count : ℕ → List ℕ → ℕ
count code [] = 0
count code (c ∷ cs) = let rest = count code cs in if c == code then rest + 1 else rest

abbrev pub is_refusal : Greeting → Bool
is_refusal session_not_found = true
is_refusal session_full = true
is_refusal (joined peer language) = false

-- A code that is drawn names no session, and no socket has it: codes are drawn from 31^6. A socket
-- that is refused is closed; the sessions are what `join` leaves.
pub data Step : World → World → Type 0 where
  create :
      (w : World) (now code : ℕ) (language : Text)
      → w.sessions code ≡ none
      → count code w.sockets ≡ 0
      → Step w (record w { sessions = create_session now code language w.sessions })
  connect :
      (w : World) (code peer : ℕ) (language : Text)
      → (join code w.sessions).0 ≡ joined peer language
      → Step w (record { sessions = (join code w.sessions).1; sockets = code ∷ w.sockets })
  refuse :
      (w : World) (code : ℕ)
      → is_refusal (join code w.sessions).0 ≡ true
      → Step w (record w { sessions = (join code w.sessions).1 })
  disconnect :
      (w : World) (code : ℕ) (before after : List ℕ)
      → w.sockets ≡ before ++ code ∷ after
      → Step w (record { sessions = leave code w.sessions; sockets = before ++ after })

pub data Reach (v : World) : World → Type 0 where
  here : Reach v v
  next : {w x : World} → Reach v w → Step w x → Reach v x

-- Every session counts its sockets, of which there are two at most.
abbrev pub Counts : World → Type 0
Counts w =
    (code : ℕ) (s : Session)
    → w.sessions code ≡ some s
    → (s.peer_count ≡ count code w.sockets) × (s.peer_count ≤ 2)

count-removed :
    (c code : ℕ) (before after : List ℕ)
    → count c (before ++ code ∷ after)
      ≡ (if code == c then count c (before ++ after) + 1 else count c (before ++ after))
unfolding count
count-removed c code [] after = ground arith
count-removed c code (b ∷ bs) after = ground (arith, count-removed c code bs after)

join-refused :
    (code : ℕ) (map : Sessions) → is_refusal (join code map).0 ≡ true → (join code map).1 ≡ map
join-refused code map refused = elim (Option-cases (map code)) [
  | inl gone ↦ ap (λ r. r.1) (join-none code map gone)
  | inr (t, e) ↦ elim (Bool-cases (leb 2 t.peer_count)) [
    | inl full ↦ ap (λ r. r.1) (join-full code map t e full)
    | inr room ↦ absurd (
        let said : is_refusal (join code map).0 ≡ false =
          ap (λ r. is_refusal r.0) (join-room code map t e room) in
        cc)
  ]
]

Step-Counts : {w x : World} → Step w x → Counts w → Counts x
unfolding count
Step-Counts (create w now code language new unused) h c s there =
    ground (arith, created-some now code language w.sessions c s there, h c s)
Step-Counts (connect w code peer language in_time) h c s there =
    elim (Option-cases (w.sessions code)) [
      | inl gone ↦ absurd (cc (join-none code w.sessions gone))
      | inr (t, e) ↦
          let room = joined-room code w.sessions t peer language in_time e in
          let after : (join code w.sessions).1 c
              ≡ put code (some (record t { peer_count = t.peer_count + 1 })) w.sessions c =
            ap (λ r. r.1 c) (join-room code w.sessions t e room) in
          ground (
            arith,
            after,
            put-at code (some (record t { peer_count = t.peer_count + 1 })) w.sessions c,
            room,
            h code t e,
            h c s,
          )
    ]
Step-Counts (refuse w code refused) h c s there =
    h c s (ap (λ m. m c) (sym (join-refused code w.sessions refused)) ∙ there)
Step-Counts (disconnect w code before after left) h c s there =
    elim (Option-cases (w.sessions code)) [
      | inl gone ↦ ground (
        arith,
        leave-none code w.sessions gone,
        h c s,
        ap (count c) left,
        count-removed c code before after,
      )
      | inr (t, e) ↦ ground (
        arith,
        left-at code w.sessions t c e,
        h code t e,
        h c s,
        ap (count c) left,
        count-removed c code before after,
      )
    ]

-- From sessions that count their sockets, as no sessions and no sockets do, every order of
-- creating sessions under codes that are not in use, of joining, being refused and leaving leads
-- to such sessions again: none is ever joined by three.
pub Reach-Counts : {v w : World} → Reach v w → Counts v → Counts w
Reach-Counts here h = h
Reach-Counts (next r st) h = Step-Counts st (Reach-Counts r h)

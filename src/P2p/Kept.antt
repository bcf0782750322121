-- ===== src/P2p/Kept.antt =====
-- What a code names after an operation.
use sonotxt_rust.Base.{
  ap, ℕ, ◌+◌, ◌-◌, ◌≡◌, refl, true, false, Option, none, some, arith, ltb, leb, ◌==◌, if◌then◌else◌,
  inl, inr, Bool-cases, Option-cases,
}
use sonotxt_rust.Base.Text.{Text}
use sonotxt_rust.P2p.{
  Session, Sessions, put, retain, create_session, joined, session_full, session_not_found, join,
  leave,
}

pub put-at :
    (code : ℕ) (s : Option Session) (map : Sessions) (c : ℕ)
    → put code s map c ≡ (if c == code then s else map c)
unfolding put
put-at code s map c = refl

pub retain-some :
    (now : ℕ) (map : Sessions) (c : ℕ) (s : Session) → retain now map c ≡ some s → map c ≡ some s
unfolding retain
retain-some now map c s kept = elim (Option-cases (map c)) [
  | inl gone ↦ ground arith
  | inr (t, e) ↦ ground arith
]

same : (code : ℕ) → (code == code) ≡ true
same code = ground arith

young : (now : ℕ) → ltb (now - now) 7200 ≡ true
young now = ground arith

pub created-own :
    (now code : ℕ) (language : Text) (map : Sessions)
    → create_session now code language map code
      ≡ some (record { created_at = now; creator_lang = language; peer_count = 0 })
unfolding create_session retain put
created-own now code language map = rw (same code, young now, create_session, retain, put)

pub created-some :
    (now code : ℕ) (language : Text) (map : Sessions) (c : ℕ) (s : Session)
    → create_session now code language map c ≡ some s
    → (if c == code
        then some (record { created_at = now; creator_lang = language; peer_count = 0 })
        else map c)
      ≡ some s
unfolding create_session put
created-some now code language map c s kept = retain-some now _ c s kept

pub join-none :
    (code : ℕ) (map : Sessions) → map code ≡ none → join code map ≡ (session_not_found, map)
unfolding join
join-none code map gone = rw (gone, join)

pub join-room :
    (code : ℕ) (map : Sessions) (s : Session)
    → map code ≡ some s
    → leb 2 s.peer_count ≡ false
    → join code map ≡ (
      joined (s.peer_count + 1) s.creator_lang,
      put code (some (record s { peer_count = s.peer_count + 1 })) map,
    )
unfolding join
join-room code map s there room = rw (there, room, join)

pub join-full :
    (code : ℕ) (map : Sessions) (s : Session)
    → map code ≡ some s
    → leb 2 s.peer_count ≡ true
    → join code map ≡ (session_full, map)
unfolding join
join-full code map s there full = rw (there, full, join)

pub joined-room :
    (code : ℕ) (map : Sessions) (s : Session) (peer : ℕ) (language : Text)
    → (join code map).0 ≡ joined peer language
    → map code ≡ some s
    → leb 2 s.peer_count ≡ false
unfolding join
joined-room code map s peer language told there = elim (Bool-cases (leb 2 s.peer_count)) [
  | inl full ↦ absurd (cc (ap (λ r. r.0) (join-full code map s there full)))
  | inr room ↦ room
]

pub leave-none : (code : ℕ) (map : Sessions) → map code ≡ none → leave code map ≡ map
unfolding leave
leave-none code map gone = rw (gone, leave)

leave-some :
    (code : ℕ) (map : Sessions) (s : Session)
    → map code ≡ some s
    → leave code map ≡ (
        if s.peer_count - 1 == 0
        then put code none map
        else put code (some (record s { peer_count = s.peer_count - 1 })) map)
unfolding leave
leave-some code map s there = rw (there, leave)

pub left-at :
    (code : ℕ) (map : Sessions) (s : Session) (c : ℕ)
    → map code ≡ some s
    → leave code map c ≡ (
        if c == code
        then (if s.peer_count - 1 == 0
            then none
            else some (record s { peer_count = s.peer_count - 1 }))
        else map c)
unfolding put
left-at code map s c there = elim (Bool-cases (s.peer_count - 1 == 0)) [
  | inl last ↦ rw (leave-some code map s there, last)
  | inr more ↦ rw (leave-some code map s there, more)
]

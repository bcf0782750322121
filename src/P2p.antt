-- ===== src/P2p.antt =====
-- sonotxt-api/src/routes/p2p.rs: the sessions through which two peers of a call find each other. A
-- code is a number, and the map of sessions a function; times are in seconds. The relay of
-- messages is the channel of tokio.
mod Kept
pub mod Reached
pub mod Reloaded
mod Tests
use sonotxt_rust.Base.{
  ℕ, ◌+◌, ◌-◌, Bool, true, false, Option, none, some, ltb, leb, ◌==◌, if◌then◌else◌,
}
use sonotxt_rust.Base.Text.{Text}

pub record Session : Type 0 where
  pub created_at : ℕ
  pub creator_lang : Text
  pub peer_count : ℕ

abbrev pub Sessions : Type 0
Sessions = ℕ → Option Session

pub record SessionInfo : Type 0 where
  pub exists : Bool
  pub creator_lang : Option Text
  pub peer_count : Option ℕ

unfoldable pub put : ℕ → Option Session → Sessions → Sessions
put code session map c = if c == code then session else map c

-- `s.created_at.elapsed() < 7200 s`
abbrev pub is_young : ℕ → Session → Bool
is_young now s = ltb (now - s.created_at) 7200

unfoldable pub retain : ℕ → Sessions → Sessions
retain now map c = elim (map c) [ none ↦ none | some s ↦ if is_young now s then some s else none ]

-- `code` is drawn.
unfoldable pub create_session : (now code : ℕ) (language : Text) → Sessions → Sessions
create_session now code language map =
    retain now
      (put code (some (record { created_at = now; creator_lang = language; peer_count = 0 })) map)

unfoldable pub session_info : ℕ → Sessions → SessionInfo
session_info code map = elim (map code) [
  | some s ↦ record {
    exists = true;
    creator_lang = some s.creator_lang;
    peer_count = some s.peer_count;
  }
  | none ↦ record { exists = false; creator_lang = none; peer_count = none }
]

-- What a socket is told when it connects.
pub data Greeting : Type 0 where
  session_not_found session_full : Greeting
  joined : (peer : ℕ) (creator_lang : Text) → Greeting

-- `handle_p2p_socket` up to the relay.
unfoldable pub join : ℕ → Sessions → Greeting × Sessions
join code map = elim (map code) [
  | none ↦ (session_not_found, map)
  | some s ↦ if leb 2 s.peer_count then (session_full, map) else (
    joined (s.peer_count + 1) s.creator_lang,
    put code (some (record s { peer_count = s.peer_count + 1 })) map,
  )
]

-- `handle_p2p_socket` after the relay, for a socket that has joined.
unfoldable pub leave : ℕ → Sessions → Sessions
leave code map = elim (map code) [
  | none ↦ map
  | some s ↦
      if s.peer_count - 1 == 0
      then put code none map
      else put code (some (record s { peer_count = s.peer_count - 1 })) map
]

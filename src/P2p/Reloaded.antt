-- ===== src/P2p/Reloaded.antt =====
-- A session lasts while somebody is in it.
use sonotxt_rust.Base.{ℕ, ◌≡◌, refl, ap, ◌∙◌, some, arith}
use sonotxt_rust.Base.Text.{Text}
use sonotxt_rust.P2p.Kept.{created-own, join-room, join-none, left-at, put-at}
use sonotxt_rust.P2p.{Session, Sessions, create_session, joined, session_not_found, join, leave}

abbrev alone : (now : ℕ) (language : Text) (peers : ℕ) → Session
alone now language peers = record { created_at = now; creator_lang = language; peer_count = peers }

-- Whoever created a session and is alone in it ends it by leaving, as when the page is loaded
-- again: nobody can join it any more.
pub reloaded_alone :
    (now code : ℕ) (language : Text) (map : Sessions)
    → ((join code (create_session now code language map)).0 ≡ joined 1 language)
      × (join code (leave code (join code (create_session now code language map)).1)
          ≡ (session_not_found, leave code (join code (create_session now code language map)).1))
reloaded_alone now code language map =
    let entered =
      join-room code (create_session now code language map) (alone now language 0)
        (created-own now code language map) refl in
    (
      ap (λ r. r.0) entered,
      join-none code _ (
          ground (
            arith,
            left-at code (join code (create_session now code language map)).1 (alone now language 1)
                code
                (ap (λ r. r.1 code) entered
                  ∙ ground (
                    arith,
                    put-at code (some (alone now language 1)) (create_session now code language map)
                        code,
                  )),
          )),
    )

-- ===== src/P2p/Tests.antt =====
-- The sessions of calls on concrete inputs.
use sonotxt_rust.Base.{◌≡◌, refl, none, [], ◌∷◌}
use sonotxt_rust.Base.Text.{Text}
use sonotxt_rust.P2p.{
  Sessions, session_full, session_not_found, joined, create_session, join, leave, put, retain,
}
use sonotxt_rust.P2p.Reached.{
  World, create, connect, Reach, here, next, count, Counts, Reach-Counts,
}
use sonotxt_rust.P2p.Reloaded.{reloaded_alone}

abbrev english : Text
english = 101 ∷ 110 ∷ []

abbrev no_sessions : Sessions
no_sessions c = none

abbrev empty : World
empty = record { sessions = no_sessions; sockets = [] }

abbrev created : Sessions
created = create_session 100 7 english no_sessions

abbrev one_in : World
one_in = record { sessions = (join 7 created).1; sockets = 7 ∷ [] }

abbrev both_in : World
both_in = record { sessions = (join 7 one_in.sessions).1; sockets = 7 ∷ 7 ∷ [] }

third_refused : (join 7 both_in.sessions).0 ≡ session_full
unfolding create_session join put retain
third_refused = refl

other_code : (join 8 created).0 ≡ session_not_found
unfolding create_session join put retain
other_code = refl

empty-Counts : Counts empty
empty-Counts code s there = absurd (cc)

both_joined : Reach empty both_in
unfolding create_session join put retain count
both_joined =
    next
      (next (next here (create empty 100 7 english refl refl))
        (connect (record { sessions = created; sockets = [] }) 7 1 english refl))
      (connect one_in 7 2 english refl)

Reach-Counts_example : Counts both_in
Reach-Counts_example = Reach-Counts both_joined empty-Counts

reloaded_alone_example :
    ((join 7 (create_session 100 7 english no_sessions)).0 ≡ joined 1 english)
    × (join 7 (leave 7 (join 7 (create_session 100 7 english no_sessions)).1)
        ≡ (session_not_found, leave 7 (join 7 (create_session 100 7 english no_sessions)).1))
reloaded_alone_example = reloaded_alone 100 7 english no_sessions

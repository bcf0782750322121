-- ===== src/Pool/Turns.antt =====
-- The round-robin tiebreak of `pick`: among equally loaded workers everyone has its turn.
use sonotxt_rust.Base.{
  ℕ, zero, suc, ◌+◌, ◌-◌, ◌%◌, ◌^◌, ◌≤◌, ◌<◌, ◌≡◌, refl, Bool, true, Option, some, List, [], ◌∷◌,
  arith, length, get_elem?, ap, ◌∙◌, sym,
}
use native.Mathlib.Decide.{dec_le}
use native.Mathlib.Nat.{mod-add-mod, mod-eq_of_lt, add-mod_right}
use sonotxt_rust.Pool.{
  Worker, WorkerPool, places, min_load, with_load, next, healthy_places, pick_from, pick, len,
}
use sonotxt_rust.Pool.Places.{
  Elem, Elem-length, mod_below, get_elem?-Elem, min_load-le, min_load-attained, with_load_complete,
  inflight_at-found, healthy_places_sound, healthy_places_complete,
}
use sonotxt_rust.Pool.Pick.{pick_some_healthy}

-- The pool after `n` picks.
unfoldable pub picks : ℕ → WorkerPool → WorkerPool
picks zero pool = pool
picks (suc n) pool = picks n (pick pool).1

-- From any counter, each place below `n` is reached within `n` turns.
turn : (n r j : ℕ) → 1 ≤ n → j < n → (k : ℕ) × (k < n) × ((r + k) % n ≡ j)
turn n r j one below =
    let q = r % n in
    let less : q < n = mod_below r n one in
    elim (dec_le q j) [
      | yes h ↦ (
        j - q,
        omega arith,
        sym (mod-add-mod r n (j - q)) ∙ ap (λ x. x % n) (omega arith) ∙ mod-eq_of_lt below,
      )
      | no h ↦ (
        j + n - q,
        omega arith,
        sym (mod-add-mod r n (j + n - q))
            ∙ ap (λ x. x % n) (omega arith)
            ∙ add-mod_right j n
            ∙ mod-eq_of_lt below,
      )
    ]

module _ (i : ℕ) (is : List ℕ) where
  -- The candidates that `pick` turns among.
  abbrev candidates : List Worker → List ℕ
  candidates ws = with_load ws (min_load ws (i ∷ is)) (i ∷ is)

  pick-next :
      (pool : WorkerPool)
      → healthy_places pool.workers ≡ i ∷ is
      → pick pool ≡ next (candidates pool.workers) pool
  unfolding pick_from
  pick-next pool e = pick_some_healthy pool i is e

  pick_counts :
      (pool : WorkerPool)
      → healthy_places pool.workers ≡ i ∷ is
      → pool.rr_counter + 1 < 2 ^ 64
      → (pick pool).1 ≡ record pool { rr_counter = pool.rr_counter + 1 }
  unfolding next
  pick_counts pool e room =
      ap (λ (x : Option ℕ × WorkerPool). x.1) (pick-next pool e)
      ∙ ap (λ c. record pool { rr_counter = c }) (omega arith)

  picks-pool :
      (k : ℕ) (pool : WorkerPool)
      → healthy_places pool.workers ≡ i ∷ is
      → pool.rr_counter + k < 2 ^ 64
      → picks k pool ≡ record pool { rr_counter = pool.rr_counter + k }
  unfolding picks
  picks-pool zero pool e room = ap (λ c. record pool { rr_counter = c }) (omega arith)
  picks-pool (suc k) pool e room =
      ap (picks k) (pick_counts pool e (omega arith))
      ∙ picks-pool k (record pool { rr_counter = pool.rr_counter + 1 }) e (omega arith)
      ∙ ap (λ c. record pool { rr_counter = c }) (omega arith)

  picked :
      (k : ℕ) (pool : WorkerPool) (c : ℕ)
      → healthy_places pool.workers ≡ i ∷ is
      → pool.rr_counter + k < 2 ^ 64
      → get_elem?
          (candidates pool.workers)
          ((pool.rr_counter + k) % length (candidates pool.workers))
        ≡ some c
      → (pick (picks k pool)).0 ≡ some c
  unfolding next
  picked k pool c e room got =
      let pool' = record pool { rr_counter = pool.rr_counter + k } in
      ap (λ q. (pick q).0) (picks-pool k pool e room)
      ∙ ap (λ (x : Option ℕ × WorkerPool). x.0) (pick-next pool' e)
      ∙ got

  length-with_load :
      (ws : List Worker) (load : ℕ) (js : List ℕ) → length (with_load ws load js) ≤ length js
  unfolding with_load
  length-with_load ws load [] = omega arith
  length-with_load ws load (j ∷ js) = ground (arith, length-with_load ws load js)

length-places :
    (p : ℕ → Worker → Bool) (i : ℕ) (ws : List Worker) → length (places p i ws) ≤ length ws
unfolding places
length-places p i [] = omega arith
length-places p i (w ∷ ws) = ground (arith, length-places p (suc i) ws)

nonempty : (xs : List ℕ) (c : ℕ) → Elem c xs → (i : ℕ) × (is : List ℕ) × (xs ≡ i ∷ is)
nonempty [] c h = absurd (omega arith)
nonempty (i ∷ is) c h = (i, is, refl)

-- A healthy worker that no healthy worker is less loaded than.
pub record IsLeastLoaded (ws : List Worker) (c : ℕ) : Type 0 where
  pub worker : Worker
  pub is_at : get_elem? ws c ≡ some worker
  pub is_healthy : worker.healthy ≡ true
  pub least :
      (d : ℕ) (v : Worker)
      → get_elem? ws d ≡ some v
      → v.healthy ≡ true
      → worker.inflight ≤ v.inflight

IsLeastLoaded-Elem :
    (ws : List Worker) (c i : ℕ) (is : List ℕ)
    → IsLeastLoaded ws c
    → healthy_places ws ≡ i ∷ is
    → Elem c (candidates i is ws)
IsLeastLoaded-Elem ws c i is l e =
    let here = rw e at (healthy_places_complete ws c l.worker l.is_at l.is_healthy) in
    let (b, m, attained) = min_load-attained ws i is in
    let (v, at_b, healthy) = healthy_places_sound ws b (rw e m) in
    let of_b = inflight_at-found ws b v at_b in
    let of_c = inflight_at-found ws c l.worker l.is_at in
    let low = min_load-le ws c (i ∷ is) here in
    let high = l.least b v at_b healthy in with_load_complete ws _ c (i ∷ is) here (omega arith)

-- If nothing else happens, each of the least loaded healthy workers is picked before as many
-- picks are made as there are workers, as long as the counter does not wrap.
pub pick_turn :
    (pool : WorkerPool) (c : ℕ)
    → IsLeastLoaded pool.workers c
    → pool.rr_counter + len pool ≤ 2 ^ 64
    → (k : ℕ) × (k < len pool) × ((pick (picks k pool)).0 ≡ some c)
pick_turn pool c l room =
    let here = healthy_places_complete pool.workers c l.worker l.is_at l.is_healthy in
    let (i, is, e) = nonempty (healthy_places pool.workers) c here in
    let cs = candidates i is pool.workers in
    let elem = IsLeastLoaded-Elem pool.workers c i is l e in
    let (j, below, at_j) = get_elem?-Elem cs c elem in
    let (k, less, turned) = turn (length cs) pool.rr_counter j (Elem-length c cs elem) below in
    let few : k < len pool = omega (
      arith,
      length-with_load i is pool.workers (min_load pool.workers (i ∷ is)) (i ∷ is),
      length-places (λ i w. w.healthy) 0 pool.workers,
      ap (length {A = ℕ}) e,
    ) in
    (k, few, picked i is k pool c e (omega arith) (rw turned at_j))

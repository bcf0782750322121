-- ===== src/Pool/Pick.antt =====
-- `pick` and `pick_different` of worker_pool.rs: which worker they choose, and when there is none.
use sonotxt_rust.Base.{
  ℕ, suc, ◌≤◌, ◌≡◌, ◌≢◌, refl, inl, inr, Bool, true, false, not, ◌&&◌, none, some, List, [], ◌∷◌,
  arith, ◌==◌, Bool-cases, length, get_elem?, ◌⊎◌, ap,
}
use sonotxt_rust.Pool.{
  Worker, WorkerPool, places, inflight_at, min_load, with_load, next, healthy_places, pick_from,
  pick_any, pick, other_places, pick_different,
}
use sonotxt_rust.Pool.Places.{
  Elem, Elem-length, places_sound, places_complete, min_load-le, min_load-attained, with_load_sound,
  with_load_complete, next-Elem, inflight_at-found, healthy_places_sound, healthy_places_complete,
}

List-cases : (xs : List ℕ) → (xs ≡ []) ⊎ ((i : ℕ) × (is : List ℕ) × (xs ≡ i ∷ is))
List-cases [] = inl refl
List-cases (i ∷ is) = inr (i, is, refl)

Workers-cases : (ws : List Worker) → (ws ≡ []) ⊎ ((v : Worker) × (vs : List Worker) × (ws ≡ v ∷ vs))
Workers-cases [] = inl refl
Workers-cases (v ∷ vs) = inr (v, vs, refl)

pick_from-Elem :
    (i : ℕ) (is : List ℕ) (pool : WorkerPool)
    → (k : ℕ) × Elem k (i ∷ is)
      × (inflight_at pool.workers k ≡ min_load pool.workers (i ∷ is))
      × ((pick_from (i ∷ is) pool).0 ≡ some k)
unfolding pick_from
pick_from-Elem i is pool =
    let ws = pool.workers in
    let least = min_load ws (i ∷ is) in
    let (b, m, e) = min_load-attained ws i is in
    let (k, chosen, r) =
      next-Elem (with_load ws least (i ∷ is)) pool
        (Elem-length b _ (with_load_complete ws least b (i ∷ is) m e)) in
    let (elem, load) = with_load_sound ws least k (i ∷ is) chosen in (k, elem, load, r)

pub pick_some_healthy :
    (pool : WorkerPool) (i : ℕ) (is : List ℕ)
    → healthy_places pool.workers ≡ i ∷ is
    → pick pool ≡ pick_from (i ∷ is) pool
unfolding pick
pick_some_healthy pool i is e = rw (e, pick)

pick_none_healthy :
    (pool : WorkerPool) → healthy_places pool.workers ≡ [] → pick pool ≡ pick_any pool
unfolding pick
pick_none_healthy pool e = rw (e, pick)

-- While a worker is healthy, pick gives a healthy worker with at most the load of that worker.
pub pick_least :
    (pool : WorkerPool) (n : ℕ) (w : Worker)
    → get_elem? pool.workers n ≡ some w
    → w.healthy ≡ true
    → (k : ℕ) × (v : Worker) × ((pick pool).0 ≡ some k)
      × (get_elem? pool.workers k ≡ some v)
      × (v.healthy ≡ true)
      × (v.inflight ≤ w.inflight)
pick_least pool n w found t =
    let here = healthy_places_complete pool.workers n w found t in
    elim (List-cases (healthy_places pool.workers)) [
      | inl e ↦ absurd (omega (arith, rw e at here))
      | inr (i, is, e) ↦
          let (k, elem, load, r) = pick_from-Elem i is pool in
          let (v, there, q) = healthy_places_sound pool.workers k (rw e elem) in
          let least = min_load-le pool.workers n (i ∷ is) (rw e at here) in
          let of_k = inflight_at-found pool.workers k v there in
          let of_n = inflight_at-found pool.workers n w found in
          (k, v, rw (pick_some_healthy pool i is e) r, there, q, omega arith)
    ]

length-places_all : (i : ℕ) (ws : List Worker) → length (places (λ i w. true) i ws) ≡ length ws
unfolding places
length-places_all i [] = refl
length-places_all i (w ∷ ws) = omega (arith, length-places_all (suc i) ws)

pick_any-next :
    (pool : WorkerPool) (w : Worker) (ws : List Worker)
    → pool.workers ≡ w ∷ ws
    → pick_any pool ≡ next (places (λ i w. true) 0 pool.workers) pool
unfolding pick_any
pick_any-next pool w ws e = ground arith

pick_any-Elem :
    (pool : WorkerPool) (w : Worker) (ws : List Worker)
    → pool.workers ≡ w ∷ ws
    → (k : ℕ) × (v : Worker) × ((pick_any pool).0 ≡ some k) × (get_elem? pool.workers k ≡ some v)
pick_any-Elem pool w ws e =
    let all = places (λ i w. true) 0 pool.workers in
    let some_there : 1 ≤ length all =
      omega (arith, length-places_all 0 pool.workers, ap (length {A = Worker}) e) in
    let (k, elem, r) = next-Elem all pool some_there in
    let (n, v, at_n, found, _) = places_sound (λ i w. true) 0 k pool.workers elem in
    let same : k ≡ n = omega arith in (k, v, rw (pick_any-next pool w ws e) r, rw same found)

pick_empty : (pool : WorkerPool) → pool.workers ≡ [] → pick pool ≡ (none, pool)
unfolding pick pick_any places
pick_empty pool e = ground arith

-- pick gives a worker of the pool, healthy or not, and none only from a pool without workers.
pub pick_total :
    (pool : WorkerPool)
    → ((pool.workers ≡ []) × (pick pool ≡ (none, pool)))
      ⊎ ((k : ℕ) × (v : Worker) × ((pick pool).0 ≡ some k) × (get_elem? pool.workers k ≡ some v))
pick_total pool = elim (Workers-cases pool.workers) [
  | inl e ↦ inl (e, pick_empty pool e)
  | inr (w, ws, e) ↦ elim (List-cases (healthy_places pool.workers)) [
    | inl h ↦
        let (k, v, r, there) = pick_any-Elem pool w ws e in
        inr (k, v, rw (pick_none_healthy pool h) r, there)
    | inr (i, is, h) ↦
        let (k, elem, load, r) = pick_from-Elem i is pool in
        let (v, there, q) = healthy_places_sound pool.workers k (rw h elem) in
        inr (k, v, rw (pick_some_healthy pool i is h) r, there)
  ]
]

pick_different-next :
    (exclude i : ℕ) (is : List ℕ) (pool : WorkerPool)
    → other_places exclude pool.workers ≡ i ∷ is
    → pick_different exclude pool ≡ next (i ∷ is) pool
unfolding pick_different
pick_different-next exclude i is pool e = rw (e, pick_different)

pick_different-none :
    (exclude : ℕ) (pool : WorkerPool)
    → other_places exclude pool.workers ≡ []
    → pick_different exclude pool ≡ (none, pool)
unfolding pick_different
pick_different-none exclude pool e = rw (e, pick_different)

passes : (h : Bool) (i exclude : ℕ) → (h && not (i == exclude)) ≡ true → (h ≡ true) × (i ≢ exclude)
passes h i exclude t = (ground arith, λ e. ground arith)

-- pick_different gives a healthy worker other than the excluded one; if it gives none, no other
-- worker is healthy.
pub pick_different_lem :
    (exclude : ℕ) (pool : WorkerPool)
    → ((k : ℕ) × (v : Worker) × ((pick_different exclude pool).0 ≡ some k)
        × (get_elem? pool.workers k ≡ some v)
        × (v.healthy ≡ true)
        × (k ≢ exclude))
      ⊎ ((pick_different exclude pool ≡ (none, pool))
          × ((n : ℕ) (w : Worker)
              → get_elem? pool.workers n ≡ some w
              → n ≢ exclude
              → w.healthy ≡ false))
pick_different_lem exclude pool =
    let test : ℕ → Worker → Bool = λ i w. w.healthy && not (i == exclude) in
    elim (List-cases (other_places exclude pool.workers)) [
      | inr (i, is, e) ↦
          let (k, elem, r) = next-Elem (i ∷ is) pool (omega arith) in
          let (n, v, at_n, found, t) = places_sound test 0 k pool.workers (rw e elem) in
          let same : k ≡ n = omega arith in
          let (q, ne) = passes v.healthy k exclude t in
          inl (k, v, rw (pick_different-next exclude i is pool e) r, rw same found, q, ne)
      | inl e ↦ inr (
        pick_different-none exclude pool e,
        λ n w found ne. elim (Bool-cases w.healthy) [
          | inr f ↦ f
          | inl q ↦
              let here =
                places_complete test 0 n n w pool.workers (omega arith) found (ground arith) in
              absurd (omega (arith, rw e at here))
        ],
      )
    ]

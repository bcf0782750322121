-- ===== src/Pool/Places.antt =====
-- The places that pass a test, the least load, and a choice among candidates.
use sonotxt_rust.Base.{
  ℕ, zero, suc, ◌+◌, ◌%◌, ◌≤◌, ◌<◌, ◌≡◌, refl, inl, inr, Bool, true, some, List, [], ◌∷◌, arith,
  ◌==◌, Bool-cases, length, get_elem?, ◌⊎◌, ap,
}
use native.Mathlib.Nat.{mod-lt}
use native.Mathlib.Decide.{dec_le}
use sonotxt_rust.Pool.{
  Worker, WorkerPool, places, inflight_at, min_load, with_load, next, healthy_places,
}

-- An element of a list of places.
abbrev pub Elem : ℕ → List ℕ → Type 0
Elem k [] = 1 ≤ 0
Elem k (x ∷ xs) = (x ≡ k) ⊎ Elem k xs

pub in_range {ℓ} :
    {A : Type ℓ} (xs : List A) (j : ℕ) → j < length xs → (a : A) × (get_elem? xs j ≡ some a)
in_range [] j h = absurd (omega arith)
in_range (x ∷ xs) zero h = (x, refl)
in_range (x ∷ xs) (suc j) h = in_range xs j (omega arith)

pub Elem-get_elem? : (xs : List ℕ) (j k : ℕ) → get_elem? xs j ≡ some k → Elem k xs
Elem-get_elem? [] j k e = absurd (ground arith)
Elem-get_elem? (x ∷ xs) zero k e = inl (ground arith)
Elem-get_elem? (x ∷ xs) (suc j) k e = inr (Elem-get_elem? xs j k e)

pub get_elem?-Elem :
    (xs : List ℕ) (k : ℕ) → Elem k xs → (j : ℕ) × (j < length xs) × (get_elem? xs j ≡ some k)
get_elem?-Elem [] k h = absurd (omega arith)
get_elem?-Elem (x ∷ xs) k (inl e) = (0, omega arith, ap some e)
get_elem?-Elem (x ∷ xs) k (inr h) =
    let (j, less, e) = get_elem?-Elem xs k h in (suc j, omega arith, e)

-- Exactly the places of the workers that pass are listed.
module _ (p : ℕ → Worker → Bool) where
  pub places_sound :
      (i k : ℕ) (ws : List Worker)
      → Elem k (places p i ws)
      → (n : ℕ) × (w : Worker) × (k ≡ i + n) × (get_elem? ws n ≡ some w) × (p k w ≡ true)
  unfolding places
  places_sound i k [] h = absurd (omega arith)
  places_sound i k (w ∷ ws) h = elim (Bool-cases (p i w)) [
    | inr f ↦
        let (n, v, e, found, t) = places_sound (suc i) k ws (rw f at h) in
        (suc n, v, omega arith, found, t)
    | inl t ↦ elim (rw t at h) [
      | inl e ↦ (0, w, omega arith, refl, rw (← e) t)
      | inr rest ↦
          let (n, v, e, found, q) = places_sound (suc i) k ws rest in
          (suc n, v, omega arith, found, q)
    ]
  ]

  pub places_complete :
      (i n k : ℕ) (w : Worker) (ws : List Worker)
      → k ≡ i + n
      → get_elem? ws n ≡ some w
      → p k w ≡ true
      → Elem k (places p i ws)
  unfolding places
  places_complete i n k w [] e found t = absurd (ground arith)
  places_complete i zero k w (v ∷ ws) e found t =
      let same : v ≡ w = ground arith in
      let here : i ≡ k = omega arith in let passes : p i v ≡ true = cc in rw passes (inl here)
  places_complete i (suc n) k w (v ∷ ws) e found t =
      let later = places_complete (suc i) n k w ws (omega arith) found t in
      elim (Bool-cases (p i v)) [ inl q ↦ rw q (inr later) | inr q ↦ rw q later ]

module _ (ws : List Worker) where
  pub with_load_sound :
      (load k : ℕ) (is : List ℕ)
      → Elem k (with_load ws load is)
      → Elem k is × (inflight_at ws k ≡ load)
  unfolding with_load
  with_load_sound load k [] h = absurd (omega arith)
  with_load_sound load k (i ∷ is) h = elim (Bool-cases (inflight_at ws i == load)) [
    | inr f ↦ let (m, e) = with_load_sound load k is (rw f at h) in (inr m, e)
    | inl t ↦ elim (rw t at h) [
      | inl e ↦ (inl e, rw (← e) (ground arith))
      | inr rest ↦ let (m, e) = with_load_sound load k is rest in (inr m, e)
    ]
  ]

  pub with_load_complete :
      (load k : ℕ) (is : List ℕ)
      → Elem k is
      → inflight_at ws k ≡ load
      → Elem k (with_load ws load is)
  unfolding with_load
  with_load_complete load k [] h e = absurd (omega arith)
  with_load_complete load k (i ∷ is) (inl s) e =
      let t : (inflight_at ws i == load) ≡ true = rw s (ground arith) in rw t (inl s)
  with_load_complete load k (i ∷ is) (inr h) e =
      let later = with_load_complete load k is h e in
      elim (Bool-cases (inflight_at ws i == load)) [ inl q ↦ rw q (inr later) | inr q ↦ rw q later ]

  pub min_load-le : (k : ℕ) (is : List ℕ) → Elem k is → min_load ws is ≤ inflight_at ws k
  min_load-le k (i ∷ []) (inl e) = rw e (omega arith)
  min_load-le k (i ∷ j ∷ is) (inl e) = rw e (omega arith)
  min_load-le k (i ∷ j ∷ is) (inr h) = omega (arith, min_load-le k (j ∷ is) h)
  min_load-le k (i ∷ []) (inr h) = absurd (omega arith)
  min_load-le k [] h = absurd (omega arith)

  pub min_load-attained :
      (i : ℕ) (is : List ℕ) → (k : ℕ) × Elem k (i ∷ is) × (inflight_at ws k ≡ min_load ws (i ∷ is))
  min_load-attained i [] = (i, inl refl, refl)
  min_load-attained i (j ∷ is) =
      let (k, m, e) = min_load-attained j is in
      elim (dec_le (inflight_at ws i) (min_load ws (j ∷ is))) [
        | yes h ↦ (i, inl refl, omega arith)
        | no h ↦ (k, inr m, omega arith)
      ]

pub mod_below : (a n : ℕ) → 1 ≤ n → a % n < n
mod_below a n h = mod-lt a (omega arith)

-- From candidates that are not empty, one is chosen.
pub next-Elem :
    (cs : List ℕ) (pool : WorkerPool)
    → 1 ≤ length cs
    → (k : ℕ) × Elem k cs × ((next cs pool).0 ≡ some k)
unfolding next
next-Elem cs pool some_there =
    let (k, e) =
      in_range cs (pool.rr_counter % length cs) (mod_below pool.rr_counter _ some_there) in
    (k, Elem-get_elem? cs _ k e, e)

pub Elem-length : (k : ℕ) (xs : List ℕ) → Elem k xs → 1 ≤ length xs
Elem-length k [] h = absurd (omega arith)
Elem-length k (x ∷ xs) h = omega arith

pub inflight_at-found :
    (ws : List Worker) (k : ℕ) (v : Worker)
    → get_elem? ws k ≡ some v
    → inflight_at ws k ≡ v.inflight
inflight_at-found ws k v found = ground arith

-- A healthy worker is among the healthy places, and only healthy ones are.
pub healthy_places_complete :
    (ws : List Worker) (n : ℕ) (w : Worker)
    → get_elem? ws n ≡ some w
    → w.healthy ≡ true
    → Elem n (healthy_places ws)
healthy_places_complete ws n w found t =
    places_complete (λ i w. w.healthy) 0 n n w ws (omega arith) found t

pub healthy_places_sound :
    (ws : List Worker) (k : ℕ)
    → Elem k (healthy_places ws)
    → (w : Worker) × (get_elem? ws k ≡ some w) × (w.healthy ≡ true)
healthy_places_sound ws k h =
    let (n, w, e, found, t) = places_sound (λ i w. w.healthy) 0 k ws h in
    let same : k ≡ n = omega arith in (w, rw same found, t)

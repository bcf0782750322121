-- ===== src/Jobs/Claims.antt =====
-- Which job `process_next` takes.
use sonotxt_rust.Base.{
  ℕ, zero, suc, ◌≡◌, refl, inl, inr, ◌⊎◌, true, false, none, some, List, [], ◌∷◌, arith, get_elem?,
  Bool-cases,
}
use sonotxt_rust.Jobs.{JobRow, is_queued, comes_first, next_job}

comes_first_trans :
    (a b c : JobRow) → comes_first a b ≡ true → comes_first b c ≡ true → comes_first a c ≡ true
comes_first_trans a b c h k = ground arith

comes_first_total : (a b : JobRow) → comes_first a b ≡ false → comes_first b a ≡ true
comes_first_total a b h = ground arith

comes_first_refl : (a : JobRow) → comes_first a a ≡ true
comes_first_refl a = ground arith

-- A queued job that no queued job comes before, by priority and then by age.
pub record IsNext (js : List JobRow) (j : JobRow) : Type 0 where
  pub place : ℕ
  pub there : get_elem? js place ≡ some j
  pub waits : is_queued j ≡ true
  pub first :
      (n : ℕ) (k : JobRow) → get_elem? js n ≡ some k → is_queued k ≡ true → comes_first j k ≡ true

abbrev NoneQueued : List JobRow → Type 0
NoneQueued js = (n : ℕ) (k : JobRow) → get_elem? js n ≡ some k → is_queued k ≡ false

IsNext-skip :
    (j k : JobRow) (js : List JobRow) → is_queued j ≡ false → IsNext js k → IsNext (j ∷ js) k
IsNext-skip j k js f h = record {
  place = suc h.place;
  there = h.there;
  waits = h.waits;
  first = λ n r found q. first_of n r found q;
}
  where
    first_of :
        (n : ℕ) (r : JobRow)
        → get_elem? (j ∷ js) n ≡ some r
        → is_queued r ≡ true
        → comes_first k r ≡ true
    first_of zero r found q = absurd (ground arith)
    first_of (suc n) r found q = h.first n r found q

IsNext-alone :
    (j : JobRow) (js : List JobRow) → is_queued j ≡ true → NoneQueued js → IsNext (j ∷ js) j
IsNext-alone j js t idle = record { place = 0; there = refl; waits = t; first = first_of }
  where
    first_of :
        (n : ℕ) (r : JobRow)
        → get_elem? (j ∷ js) n ≡ some r
        → is_queued r ≡ true
        → comes_first j r ≡ true
    first_of zero r found q = let same : j ≡ r = ground arith in rw (← same) (comes_first_refl j)
    first_of (suc n) r found q = let f = idle n r found in absurd (ground arith)

IsNext-before :
    (j k : JobRow) (js : List JobRow)
    → is_queued j ≡ true
    → comes_first j k ≡ true
    → IsNext js k
    → IsNext (j ∷ js) j
IsNext-before j k js t wins h = record { place = 0; there = refl; waits = t; first = first_of }
  where
    first_of :
        (n : ℕ) (r : JobRow)
        → get_elem? (j ∷ js) n ≡ some r
        → is_queued r ≡ true
        → comes_first j r ≡ true
    first_of zero r found q = let same : j ≡ r = ground arith in rw (← same) (comes_first_refl j)
    first_of (suc n) r found q = comes_first_trans j k r wins (h.first n r found q)

IsNext-after :
    (j k : JobRow) (js : List JobRow) → comes_first j k ≡ false → IsNext js k → IsNext (j ∷ js) k
IsNext-after j k js loses h = record {
  place = suc h.place;
  there = h.there;
  waits = h.waits;
  first = first_of;
}
  where
    first_of :
        (n : ℕ) (r : JobRow)
        → get_elem? (j ∷ js) n ≡ some r
        → is_queued r ≡ true
        → comes_first k r ≡ true
    first_of zero r found q =
        let same : j ≡ r = ground arith in rw (← same) (comes_first_total j k loses)
    first_of (suc n) r found q = h.first n r found q

NoneQueued-cons :
    (j : JobRow) (js : List JobRow) → is_queued j ≡ false → NoneQueued js → NoneQueued (j ∷ js)
NoneQueued-cons j js f idle zero k found = let same : j ≡ k = ground arith in rw (← same) f
NoneQueued-cons j js f idle (suc n) k found = idle n k found

NoneQueued-nil : NoneQueued []
NoneQueued-nil n k found = absurd (ground arith)

-- The next job is a queued one that no other queued job comes before, by priority and then by
-- age; there is none only if no job is queued.
pub next_job_lem :
    (js : List JobRow)
    → ((next_job js ≡ none) × NoneQueued js) ⊎ ((j : JobRow) × (next_job js ≡ some j) × IsNext js j)
unfolding next_job
next_job_lem [] = inl (refl, NoneQueued-nil)
next_job_lem (j ∷ js) = elim (next_job_lem js) [
  | inl (none_there, idle) ↦ elim (Bool-cases (is_queued j)) [
    | inl t ↦ inr (j, ground arith, IsNext-alone j js t idle)
    | inr f ↦ inl (ground arith, NoneQueued-cons j js f idle)
  ]
  | inr (k, is_k, h) ↦ elim (Bool-cases (is_queued j)) [
    | inr f ↦ inr (k, ground arith, IsNext-skip j k js f h)
    | inl t ↦ elim (Bool-cases (comes_first j k)) [
      | inl wins ↦ inr (j, ground arith, IsNext-before j k js t wins h)
      | inr loses ↦ inr (k, ground arith, IsNext-after j k js loses h)
    ]
  ]
]

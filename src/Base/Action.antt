-- ===== src/Base/Action.antt =====
-- A handler over a shared state: it ends in a value or an error, and gives the state it reached.
-- Between two of its statements other tasks may run, and a database statement may fail: the
-- schedule says what happens before each statement, which are numbered in program order.
pub mod Keeps
pub mod Reads
use Prim.Native.Nat.{ℕ}
use mathlib.Core.Bool.{Bool, true, false}
use mathlib.Core.Option.{Option, none, some}
use sonotxt_rust.Base.Tests.{◌==◌, if◌then◌else◌}
use sonotxt_rust.Base.Errors.{ApiError, Result, ok, err}

abbrev pub Action {ℓ κ} : Type ℓ → Type κ → Type (ℓ ⊔ κ)
Action S A = S → Result ApiError A × S

pub record Schedule {ℓ} (S : Type ℓ) : Type ℓ where
  pub others : ℕ → S → S
  pub fails : ℕ → Bool

-- Nobody else runs, and the database answers.
abbrev pub quiet {ℓ} : {S : Type ℓ} → Schedule S
quiet = record { others = λ k s. s; fails = λ k. false }

module _ {ℓ κ} {S : Type ℓ} {A : Type κ} where
  pub pure : A → Action S A
  pure a s = (ok a, s)

  pub raise : ApiError → Action S A
  raise e s = (err e, s)

  -- `option.ok_or(e)?`
  pub or_raise : Option A → ApiError → Action S A
  or_raise none e s = (err e, s)
  or_raise (some a) e s = (ok a, s)

  -- A database statement: what ran before it, then its effect, or the error of sqlx.
  pub statement : Schedule S → ℕ → (S → A × S) → Action S A
  statement sched k f s =
      let s' = sched.others k s in
      if sched.fails k then (err ApiError.internal_error, s') else (ok (f s').0, (f s').1)

  -- A step on shared memory under its lock, which cannot fail by itself.
  pub locked : Schedule S → ℕ → Action S A → Action S A
  locked sched k m s = m (sched.others k s)

-- `call(..).await.unwrap_or(d)`: an error counts as the default.
unfoldable pub unwrap_or {ℓ κ} : {S : Type ℓ} {A : Type κ} → Action S A → A → Action S A
unwrap_or m d s = let (r, s') = m s in (elim r [ ok v ↦ ok v | err e ↦ ok d ], s')

-- `call(..).await.map_err(f)`
unfoldable pub map_err {ℓ κ} :
    {S : Type ℓ} {A : Type κ} → Action S A → (ApiError → ApiError) → Action S A
map_err m f s = let (r, s') = m s in (elim r [ ok v ↦ ok v | err e ↦ err (f e) ], s')

infixl 5 ◌>>=◌ ◌>>◌
-- Opening this opens the actions above too.
unfoldable pub ◌>>=◌ {ℓ κ μ} :
    {S : Type ℓ} {A : Type κ} {B : Type μ} → Action S A → (A → Action S B) → Action S B
unfolding pure raise or_raise statement locked
◌>>=◌ m f s = let (r, s') = m s in elim r [ ok a ↦ f a s' | err e ↦ (err e, s') ]

abbrev pub ◌>>◌ {ℓ κ} : {S : Type ℓ} {B : Type κ} → Action S (Unit {0}) → Action S B → Action S B
m >> k = m >>= λ _. k

-- `if c { return Err(e) }`
abbrev pub raise_if {ℓ} : {S : Type ℓ} → Bool → ApiError → Action S (Unit {0})
raise_if c e = if c then raise e else pure tt

-- One other task runs before the statement `k`, and nothing fails.
abbrev pub before_statement {ℓ} : {S : Type ℓ} → ℕ → (S → S) → Schedule S
before_statement k f = record { others = λ j s. if j == k then f s else s; fails = λ j. false }

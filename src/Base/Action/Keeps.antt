-- ===== src/Base/Action/Keeps.antt =====
-- Invariants of actions under every schedule that keeps them: one rule for each way to build an
-- action.
use mathlib.Core.Path.{◌≡◌, refl}
use mathlib.Core.Bool.{Bool, true, false}
use mathlib.Core.Option.{Option, none, some}
use Prim.Native.Nat.{ℕ}
use sonotxt_rust.Base.Tests.{if◌then◌else◌, Bool-cases}
use mathlib.Core.Logic.{inl, inr}
use sonotxt_rust.Base.Errors.{ApiError, Result, ok, err}
use sonotxt_rust.Base.Action.{Action, Schedule, pure, raise, or_raise, statement, locked, ◌>>=◌}

-- `m` keeps `Inv`, whether it ends in a value or an error.
pub record Keeps {ℓ κ μ} {S : Type ℓ} {A : Type κ} (Inv : S → Type μ) (m : Action S A)
    : Type (ℓ ⊔ μ) where
  pub at : (s : S) → Inv s → Inv (m s).1

module _ {ℓ κ μ} {S : Type ℓ} {A : Type κ} {Inv : S → Type μ} where
  pub Keeps-pure : (a : A) → Keeps Inv (pure a)
  unfolding pure
  Keeps-pure a = record { at = λ s h. h }

  pub Keeps-raise : (e : ApiError) → Keeps Inv (raise {A = A} e)
  unfolding raise
  Keeps-raise e = record { at = λ s h. h }

  pub Keeps-or_raise : (o : Option A) (e : ApiError) → Keeps Inv (or_raise o e)
  unfolding or_raise
  Keeps-or_raise none e = record { at = λ s h. h }
  Keeps-or_raise (some a) e = record { at = λ s h. h }

  pub Keeps-if :
      (b : Bool) (m n : Action S A)
      → (b ≡ true → Keeps Inv m)
      → (b ≡ false → Keeps Inv n)
      → Keeps Inv (if b then m else n)
  Keeps-if true m n km kn = km refl
  Keeps-if false m n km kn = kn refl

  pub Keeps-statement :
      (sched : Schedule S) (k : ℕ) (f : S → A × S)
      → ((j : ℕ) (s : S) → Inv s → Inv (sched.others j s))
      → ((s : S) → Inv s → Inv (f s).1)
      → Keeps Inv (statement sched k f)
  unfolding statement
  Keeps-statement sched k f others kf = record {
    at = λ s h. elim (Bool-cases (sched.fails k)) [
      | inl e ↦ rw (e, statement) (others k s h)
      | inr e ↦ rw (e, statement) (kf _ (others k s h))
    ];
  }

  pub Keeps-locked :
      (sched : Schedule S) (k : ℕ) (m : Action S A)
      → ((j : ℕ) (s : S) → Inv s → Inv (sched.others j s))
      → Keeps Inv m
      → Keeps Inv (locked sched k m)
  unfolding locked
  Keeps-locked sched k m others km = record { at = λ s h. km.at _ (others k s h) }

module _ {ℓ κ μ ν} {S : Type ℓ} {A : Type κ} {B : Type ν} {Inv : S → Type μ} where
  Keeps-rest :
      (f : A → Action S B)
      → ((a : A) → Keeps Inv (f a))
      → (r : Result ApiError A) (s : S) → Inv s
      → Inv
          (let out : Result ApiError B × S = elim r [ ok a ↦ f a s | err e ↦ (err e, s) ] in out).1
  Keeps-rest f kf (ok a) s h = (kf a).at s h
  Keeps-rest f kf (err e) s h = h

  pub Keeps-bind :
      (m : Action S A) (f : A → Action S B)
      → Keeps Inv m
      → ((a : A) → Keeps Inv (f a))
      → Keeps Inv (m >>= f)
  unfolding ◌>>=◌
  Keeps-bind m f km kf = record { at = λ s h. Keeps-rest f kf (m s).0 (m s).1 (km.at s h) }

pub ruleset keeps_rules =
    (Keeps-pure, Keeps-raise, Keeps-or_raise, Keeps-if, Keeps-statement, Keeps-locked, Keeps-bind)

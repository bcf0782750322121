-- ===== src/Base/Action/Reads.antt =====
-- Actions that leave the state as it is, and what an action that succeeds says of its parts.
use mathlib.Core.Path.{◌≡◌, refl, ap, ◌∙◌, sym}
use mathlib.Core.Bool.{Bool, true, false}
use mathlib.Core.Option.{Option, none, some}
use Prim.Native.Nat.{ℕ}
use sonotxt_rust.Base.Errors.{ApiError, Result, ok, err}
use sonotxt_rust.Base.Action.{Action, pure, raise, raise_if, or_raise, statement, quiet, ◌>>=◌}

-- `m` changes nothing, whether it ends in a value or an error.
pub record Reads {ℓ κ} {S : Type ℓ} {A : Type κ} (m : Action S A) : Type (ℓ ⊔ κ) where
  pub at : (s : S) → (m s).1 ≡ s

module _ {ℓ κ} {S : Type ℓ} {A : Type κ} where
  pub Reads-pure : (a : A) → Reads {S = S} (pure a)
  unfolding pure
  Reads-pure a = record { at = λ s. refl }

  pub Reads-raise : (e : ApiError) → Reads {S = S} {A = A} (raise e)
  unfolding raise
  Reads-raise e = record { at = λ s. refl }

  pub Reads-or_raise : (o : Option A) (e : ApiError) → Reads {S = S} (or_raise o e)
  unfolding or_raise
  Reads-or_raise none e = record { at = λ s. refl }
  Reads-or_raise (some a) e = record { at = λ s. refl }

-- A query that nobody disturbs.
pub Reads-select {ℓ κ} :
    {S : Type ℓ} {A : Type κ} (k : ℕ) (f : S → A) → Reads (statement quiet k (λ s. (f s, s)))
unfolding statement
Reads-select k f = record { at = λ s. refl }

pub Reads-raise_if {ℓ} : {S : Type ℓ} (b : Bool) (e : ApiError) → Reads {S = S} (raise_if b e)
unfolding raise pure
Reads-raise_if true e = record { at = λ s. refl }
Reads-raise_if false e = record { at = λ s. refl }

module _ {ℓ κ μ} {S : Type ℓ} {A : Type κ} {B : Type μ} where
  -- A success after a part that only reads.
  pub after_read :
      (m : Action S A) (f : A → Action S B) (s s' : S) (b : B)
      → Reads m
      → (m >>= f) s ≡ (ok b, s')
      → (a : A) × ((m s).0 ≡ ok a) × (f a s ≡ (ok b, s'))
  unfolding ◌>>=◌
  after_read m f s s' b reads e = go (m s).0 (m s).1 refl (reads.at s) e
    where
      go :
          (r : Result ApiError A) (t : S)
          → (m s).0 ≡ r
          → t ≡ s
          → ◌≡◌ {A = Result ApiError B × S}
              (elim r [ ok a ↦ f a t | err e ↦ (err e, t) ])
              (ok b, s')
          → (a : A) × ((m s).0 ≡ ok a) × (f a s ≡ (ok b, s'))
      go (ok a) t here same e = (a, here, ap (f a) (sym same) ∙ e)
      go (err d) t here same e = absurd (cc)

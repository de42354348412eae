-- ===== src/Action/Ends.antt =====
-- What holds of the state in which an action returns.
use mathlib.Core.Path.{subst}
use shld.Prelude.{ap, ◌≡◌, ◌⊎◌, inl, inr, refl}
use shld.Action.{Result, ok, err, Action, pure, continue, ◌>>=◌}
use shld.Domain.Errors.{DomainError}

pub Result-cases {ℓ} :
    {A : Type ℓ} (r : Result A) → ((a : A) × (r ≡ ok a)) ⊎ ((e : DomainError) × (r ≡ err e))
Result-cases (ok a) = inl (a, refl)
Result-cases (err e) = inr (e, refl)

-- Where `m` returns, it leaves a state with `P`.
pub record Ends {S A : Type 0} (P : S → Type 0) (m : Action S A) : Type 0 where
  pub at : (s : S) (a : A) (t : S) → m s ≡ (ok a, t) → P t

module _ {S A B : Type 0} {P : S → Type 0} where
  Ends-continue :
      (r : Result A) (f : A → Action S B) (s t : S) (b : B)
      → ((a : A) → Ends P (f a))
      → continue r f s ≡ (ok b, t)
      → P t
  Ends-continue (ok a) f s t b e h = (e a).at s b t h
  Ends-continue (err x) f s t b e h = cc

  -- the last part decides
  pub Ends-bind :
      (m : Action S A) (f : A → Action S B) → ((a : A) → Ends P (f a)) → Ends P (m >>= f)
  unfolding ◌>>=◌
  Ends-bind m f e = record { at = λ s b t h. let (r, s') = m s in Ends-continue r f s' t b e h }

module _ {S A B : Type 0} where
  Ends-settled :
      (P : S → Type 0) (r : Result A) (g : A → B) (s t : S) (b : B)
      → ((a : A) → r ≡ ok a → P s)
      → continue r (λ a. pure (g a)) s ≡ (ok b, t)
      → P t
  unfolding pure
  Ends-settled P (ok a) g s t b e h = subst P (ap (λ x. x.1) h) (e a refl)
  Ends-settled P (err x) g s t b e h = cc

module _ {S A B : Type 0} {P : S → Type 0} where
  pub Ends-pure : (m : Action S A) (g : A → B) → Ends P m → Ends P (m >>= λ a. pure (g a))
  unfolding ◌>>=◌
  Ends-pure m g e = record {
    at = λ s b t h.
        Ends-settled P (m s).0 g (m s).1 t b (λ a q. e.at s a (m s).1 (λ i. (q i, (m s).1))) h;
  }

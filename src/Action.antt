-- ===== src/Action.antt =====
-- Code that reads and writes shared state and may throw. What was written before a throw stays
-- written, so the state comes back beside the error too, except inside a transaction.
pub mod Keeps
pub mod Ends
use shld.Prelude.{List, [], ◌∷◌, Bool, true, false, Option, none, some}
use shld.Domain.Errors.{DomainError}

pub data Result {ℓ} (A : Type ℓ) : Type ℓ where
  ok : A → Result A
  err : DomainError → Result A

abbrev pub Action {ℓ} : Type ℓ → Type ℓ → Type ℓ
Action S A = S → Result A × S

module _ {ℓ} {S A : Type ℓ} where
  pub pure : A → Action S A
  pure a s = (ok a, s)

  pub throw : DomainError → Action S A
  throw e s = (err e, s)

  pub lift : Result A → Action S A
  lift r s = (r, s)

  pub gets : (S → A) → Action S A
  gets f s = (ok (f s), s)

  -- the row, or an error for a missing one
  pub or_throw : Option A → DomainError → Action S A
  or_throw none e s = (err e, s)
  or_throw (some a) e s = (ok a, s)

  -- what a transaction leaves: on a throw, the state from before it
  abbrev pub settle : Result A → S → S → Result A × S
  settle (ok a) before after = (ok a, after)
  settle (err e) before after = (err e, before)

  -- `prisma.$transaction(body)`
  pub transaction : Action S A → Action S A
  transaction body s = let (r, s') = body s in settle r s s'

-- `try { await m; … = true } catch { … = false }`: whether `m` returned
abbrev pub has_returned {ℓ} : {A : Type ℓ} → Result A → Bool
has_returned (ok a) = true
has_returned (err e) = false

pub attempt : {S A : Type 0} → Action S A → Action S Bool
attempt m s = let (r, s') = m s in (ok (has_returned r), s')

pub modify : {S : Type 0} → (S → S) → Action S (Unit {0})
modify f s = (ok tt, f s)

-- an `if` statement without an `else`
pub when : {S : Type 0} → Bool → Action S (Unit {0}) → Action S (Unit {0})
when true m s = m s
when false m s = (ok tt, s)

module _ {ℓ} {S A B : Type ℓ} where
  abbrev pub continue : Result A → (A → Action S B) → Action S B
  continue (ok a) f s = f a s
  continue (err e) f s = (err e, s)

  infixl 10 ◌>>=◌ ◌>>◌
  -- opening this opens all of the above
  unfoldable pub ◌>>=◌ : Action S A → (A → Action S B) → Action S B
  unfolding pure throw lift gets or_throw transaction attempt modify when
  ◌>>=◌ m f s = let (r, s') = m s in continue r f s'

  abbrev pub ◌>>◌ : Action S A → Action S B → Action S B
  m >> n = m >>= λ _. n

-- `for (const x of xs) await body(x)`
unfoldable pub for_each : {S A : Type 0} → List A → (A → Action S (Unit {0})) → Action S (Unit {0})
unfolding ◌>>=◌
for_each [] body = pure tt
for_each (x ∷ xs) body = body x >> for_each xs body

-- the same loop, where each round pushes its result
unfoldable pub collect : {S A B : Type 0} → List A → (A → Action S B) → Action S (List B)
unfolding ◌>>=◌
collect [] body = pure []
collect (x ∷ xs) body = body x >>= λ y. collect xs body >>= λ ys. pure (y ∷ ys)

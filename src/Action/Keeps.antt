-- ===== src/Action/Keeps.antt =====
-- Invariants of actions: one rule for each way in which the code builds an action.
use shld.Prelude.{Bool, true, false, Option, none, some, List, [], ◌∷◌, if◌then◌else◌}
use shld.Action.{
  Result, ok, err, Action, modify, pure, throw, lift, gets, or_throw, attempt, continue, ◌>>=◌,
  when, for_each, collect, settle, transaction,
}
use shld.Domain.Errors.{DomainError}

-- `m` leaves a state with `P` in a state with `P`, whether it returns or throws.
pub record Keeps {S A : Type 0} (P : S → Type 0) (m : Action S A) : Type 0 where
  pub at : (s : S) → P s → P (m s).1

Keeps-settle :
    {S A : Type 0} (P : S → Type 0) (r : Result A) (s t : S) → P s → P t → P (settle r s t).1
Keeps-settle P (ok a) s t ps pt = pt
Keeps-settle P (err e) s t ps pt = ps

module _ {S A : Type 0} {P : S → Type 0} where
  -- what leaves the state alone
  untouched : (m : Action S A) → ((s : S) → P s → P (m s).1) → Keeps P m
  untouched m same = record { at = same }

  pub Keeps-or_throw : (row : Option A) (e : DomainError) → Keeps P (or_throw row e)
  unfolding or_throw
  Keeps-or_throw none e = untouched (or_throw none e) (λ _ kept. kept)
  Keeps-or_throw (some a) e = untouched (or_throw (some a) e) (λ _ kept. kept)

  pub Keeps-gets : (read : S → A) → Keeps P (gets read)
  unfolding gets
  Keeps-gets read = untouched (gets read) (λ _ kept. kept)

  pub Keeps-throw : (e : DomainError) → Keeps P (throw {A = A} e)
  unfolding throw
  Keeps-throw e = untouched (throw e) (λ _ kept. kept)

  pub Keeps-pure : (a : A) → Keeps P (pure a)
  unfolding pure
  Keeps-pure a = untouched (pure a) (λ _ kept. kept)

  pub Keeps-lift : (result : Result A) → Keeps P (lift result)
  unfolding lift
  Keeps-lift result = untouched (lift result) (λ _ kept. kept)

  pub Keeps-if :
      (b : Bool) (m n : Action S A) → Keeps P m → Keeps P n → Keeps P (if b then m else n)
  Keeps-if true m n km kn = km
  Keeps-if false m n km kn = kn

  pub Keeps-transaction : (m : Action S A) → Keeps P m → Keeps P (transaction m)
  unfolding transaction
  Keeps-transaction m km = record {
    at = λ s h. let (r, t) = m s in Keeps-settle P r s t h (km.at s h);
  }

module _ {S A B : Type 0} {P : S → Type 0} where
  Keeps-continue :
      (r : Result A) (f : A → Action S B) (s : S)
      → ((a : A) → Keeps P (f a))
      → P s
      → P (continue r f s).1
  Keeps-continue (ok a) f s kf h = (kf a).at s h
  Keeps-continue (err e) f s kf h = h

  pub Keeps-bind :
      (first : Action S A) (next : A → Action S B)
      → Keeps P first
      → ((a : A) → Keeps P (next a))
      → Keeps P (first >>= next)
  unfolding ◌>>=◌
  Keeps-bind first next kept_first kept_next = record {
    at = λ s h.
        let (result, after) = first s in
        Keeps-continue result next after kept_next (kept_first.at s h);
  }

pub Keeps-attempt :
    {S A : Type 0} {P : S → Type 0} (m : Action S A) → Keeps P m → Keeps P (attempt m)
unfolding attempt
Keeps-attempt m km = record { at = km.at }

pub Keeps-modify :
    {S : Type 0} {P : S → Type 0} (f : S → S) → ((s : S) → P s → P (f s)) → Keeps P (modify f)
unfolding modify
Keeps-modify f h = record { at = h }

pub Keeps-when :
    {S : Type 0} {P : S → Type 0} (b : Bool) (m : Action S (Unit {0}))
    → Keeps P m
    → Keeps P (when b m)
unfolding when
Keeps-when true m km = record { at = km.at }
Keeps-when false m km = record { at = λ s h. h }

module _ {S A : Type 0} {P : S → Type 0} where
  pub Keeps-for_each :
      (xs : List A) (body : A → Action S (Unit {0}))
      → ((x : A) → Keeps P (body x))
      → Keeps P (for_each xs body)
  unfolding for_each
  Keeps-for_each [] body k = Keeps-pure tt
  Keeps-for_each (x ∷ xs) body k =
      Keeps-bind (body x) (λ _. for_each xs body) (k x) (λ _. Keeps-for_each xs body k)

module _ {S A B : Type 0} {P : S → Type 0} where
  pub Keeps-collect :
      (xs : List A) (body : A → Action S B)
      → ((x : A) → Keeps P (body x))
      → Keeps P (collect xs body)
  unfolding collect
  Keeps-collect [] body k = Keeps-pure []
  Keeps-collect (x ∷ xs) body k =
      Keeps-bind (body x) _ (k x)
        (λ y. Keeps-bind (collect xs body) _ (Keeps-collect xs body k) (λ ys. Keeps-pure (y ∷ ys)))

pub ruleset keeps_rules = (
  Keeps-pure, Keeps-throw, Keeps-lift, Keeps-gets, Keeps-or_throw, Keeps-if, Keeps-transaction,
  Keeps-bind, Keeps-attempt, Keeps-when, Keeps-for_each, Keeps-collect,
)

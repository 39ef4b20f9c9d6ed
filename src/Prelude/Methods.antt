-- ===== src/Prelude/Methods.antt =====
-- Fallible code, and methods of a mutable object. A method that raises leaves the state as it was
-- at the raise; nothing is undone unless the code undoes it.
use mathlib.Core.Path.{◌≡◌, refl, ap, subst, ◌∙◌}
use mathlib.Core.Logic.{◌⊎◌, inl, inr}
use mathlib.Core.Bool.{Bool, true, false}
use mathlib.Core.Option.{Option, none, some}

pub data Result {ℓ} (E A : Type ℓ) : Type ℓ where
  ok : A → Result E A
  raise : E → Result E A

abbrev pub Exec {ℓ} : Type ℓ → Type ℓ → Type ℓ → Type ℓ
Exec E S A = S → Result E A × S

module _ {ℓ} {E A B : Type ℓ} where
  -- The rest of a pure function after a call that may raise.
  abbrev pub and_then : Result E A → (A → Result E B) → Result E B
  and_then (ok a) f = f a
  and_then (raise e) f = raise e

module _ {ℓ} {E S A : Type ℓ} where
  abbrev pub lift : Result E A → Exec E S A
  lift r s = (r, s)

  abbrev pub pure : A → Exec E S A
  pure a s = (ok a, s)

  abbrev pub fail : E → Exec E S A
  fail e s = (raise e, s)

  abbrev pub gets : (S → A) → Exec E S A
  gets f s = (ok (f s), s)

  -- A lookup that raises on a missing key.
  abbrev pub require : E → Option A → Exec E S A
  require e none s = (raise e, s)
  require e (some a) s = (ok a, s)

module _ {ℓ} {E S : Type ℓ} where
  -- `if test: raise e`
  abbrev pub raise_if : E → Bool → Exec E S (Unit {ℓ})
  raise_if e true s = (raise e, s)
  raise_if e false s = (ok tt, s)

  abbrev pub modify : (S → S) → Exec E S (Unit {ℓ})
  modify f s = (ok tt, f s)

module _ {ℓ} {E S A B : Type ℓ} where
  abbrev pub continue : Result E A → (A → Exec E S B) → Exec E S B
  continue (ok a) f s = f a s
  continue (raise e) f s = (raise e, s)

  infixl 5 ◌>>=◌ ◌>>◌
  unfoldable pub ◌>>=◌ : Exec E S A → (A → Exec E S B) → Exec E S B
  ◌>>=◌ m f s = let (r, s') = m s in continue r f s'

  abbrev pub ◌>>◌ : Exec E S A → Exec E S B → Exec E S B
  m >> n = m >>= λ _. n

module _ {ℓ} {E A : Type ℓ} where
  abbrev pub is_ok : Result E A → Bool
  is_ok (ok a) = true
  is_ok (raise e) = false

  pub Result-cases : (r : Result E A) → ((a : A) × (r ≡ ok a)) ⊎ ((e : E) × (r ≡ raise e))
  Result-cases (ok a) = inl (a, refl)
  Result-cases (raise e) = inr (e, refl)

-- Inversion of a method that returns, one step at a time.
module _ {ℓ} {E S A : Type ℓ} where
  pub raise_if-returns :
      (x : E) (b : Bool) (m : Exec E S A) (s : S) (a : A)
      → ((raise_if x b >>= λ _. m) s).0 ≡ ok a
      → (b ≡ false) × ((raise_if x b >>= λ _. m) s ≡ m s) × ((m s).0 ≡ ok a)
  unfolding ◌>>=◌
  raise_if-returns x true m s a h = cc
  raise_if-returns x false m s a h = (refl, refl, h)

module _ {ℓ} {E S A B : Type ℓ} where
  pub bind-returns :
      (m : Exec E S A) (f : A → Exec E S B) (s : S) (b : B)
      → ((m >>= f) s).0 ≡ ok b
      → (a : A) × ((m s).0 ≡ ok a) × ((m >>= f) s ≡ f a (m s).1) × ((f a (m s).1).0 ≡ ok b)
  unfolding ◌>>=◌
  bind-returns m f s b h = by_result (m s).0 refl h
    where
      by_result :
          (r : Result E A)
          → (m s).0 ≡ r
          → (continue r f (m s).1).0 ≡ ok b
          → (a : A) × ((m s).0 ≡ ok a)
            × (continue (m s).0 f (m s).1 ≡ f a (m s).1)
            × ((f a (m s).1).0 ≡ ok b)
      by_result (ok a) e h' = (a, e, ap (λ (t : Result E A). continue t f (m s).1) e, h')
      by_result (raise x) e h' = cc

  -- A query leaves the state.
  pub query-returns :
      (m : Exec E S A) (f : A → Exec E S B) (s : S) (b : B)
      → (m s).1 ≡ s
      → ((m >>= f) s).0 ≡ ok b
      → (a : A) × ((m s).0 ≡ ok a) × ((m >>= f) s ≡ f a s) × ((f a s).0 ≡ ok b)
  query-returns m f s b same h =
      let (a, e, whole, rest) = bind-returns m f s b h in
      (a, e, whole ∙ ap (f a) same, subst (λ (t : S). (f a t).0 ≡ ok b) same rest)

module _ {ℓ} {E S A : Type ℓ} where
  -- A new state that may be refused, and what follows it.
  pub install-returns :
      (f : S → Result E S) (k : Exec E S A) (s : S) (a : A)
      → ((gets f >>= λ updated. lift updated >>= λ t. modify (λ _. t) >>= λ _. k) s).0 ≡ ok a
      → (t : S) × (f s ≡ ok t)
        × ((gets f >>= λ updated. lift updated >>= λ t'. modify (λ _. t') >>= λ _. k) s ≡ k t)
        × ((k t).0 ≡ ok a)
  unfolding ◌>>=◌
  install-returns f k s a h = by_result (f s) refl h
    where
      by_result :
          (r : Result E S)
          → f s ≡ r
          → ((lift r >>= λ t. modify (λ _. t) >>= λ _. k) s).0 ≡ ok a
          → (t : S) × (f s ≡ ok t)
            × ((lift (f s) >>= λ t'. modify (λ _. t') >>= λ _. k) s ≡ k t)
            × ((k t).0 ≡ ok a)
      by_result (ok t) e h' =
          (t, e, ap (λ (r' : Result E S). (lift r' >>= λ t'. modify (λ _. t') >>= λ _. k) s) e, h')
      by_result (raise x) e h' = cc

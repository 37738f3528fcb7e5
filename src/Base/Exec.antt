-- ===== src/Base/Exec.antt =====
-- Code that changes a state and may throw: what was written before the throw stays written.
use nix_tarmac.Base.Result.{Error, Result, ok, err}
use mathlib.Core.Path.{◌≡◌, refl, fun_ext}
use mathlib.Core.Logic.{◌⊎◌, inl, inr}

pub data Outcome {ℓ} (S A : Type ℓ) : Type ℓ where
  returns : A → S → Outcome S A
  throws : Error → S → Outcome S A

abbrev pub Exec {ℓ} : Type ℓ → Type ℓ → Type ℓ
Exec S A = S → Outcome S A

module _ {ℓ} {S A : Type ℓ} where
  abbrev pub pure : A → Exec S A
  pure a s = returns a s

  abbrev pub throw : Error → Exec S A
  throw e s = throws e s

  abbrev pub lift : Result A → Exec S A
  lift (ok a) s = returns a s
  lift (err e) s = throws e s

  abbrev pub gets : (S → A) → Exec S A
  gets f s = returns (f s) s

  abbrev pub final : Outcome S A → S
  final (returns a s) = s
  final (throws e s) = s

abbrev pub modify : {S : Type 0} → (S → S) → Exec S (Unit {0})
modify f s = returns tt (f s)

module _ {ℓ} {S A B : Type ℓ} where
  abbrev pub continue : Outcome S A → (A → Exec S B) → Outcome S B
  continue (returns a s) f = f a s
  continue (throws e s) f = throws e s

  infixl 5 ◌>>=◌ ◌>>◌
  abbrev pub ◌>>=◌ : Exec S A → (A → Exec S B) → Exec S B
  ◌>>=◌ m f s = continue (m s) f

  abbrev pub ◌>>◌ : Exec S A → Exec S B → Exec S B
  m >> k = m >>= λ _. k

module _ {ℓ} {S A B C : Type ℓ} where
  continue_assoc :
      (o : Outcome S A) (f : A → Exec S B) (g : B → Exec S C)
      → continue (continue o f) g ≡ continue o (λ a s. continue (f a s) g)
  continue_assoc (returns a s) f g = refl
  continue_assoc (throws e s) f g = refl

  pub bind_assoc :
      (m : Exec S A) (f : A → Exec S B) (g : B → Exec S C)
      → ((m >>= f) >>= g) ≡ (m >>= λ a. f a >>= g)
  bind_assoc m f g = fun_ext λ s. continue_assoc (m s) f g

  pub seq_assoc : (m : Exec S A) (n : Exec S B) (k : Exec S C) → ((m >> n) >> k) ≡ (m >> (n >> k))
  seq_assoc m n k = bind_assoc m (λ _. n) (λ _. k)

  pub bind_seq :
      (m : Exec S A) (f : A → Exec S B) (k : Exec S C) → ((m >>= f) >> k) ≡ (m >>= λ a. f a >> k)
  bind_seq m f k = bind_assoc m f (λ _. k)

module _ {S : Type 0} where
  continue_pure : (o : Outcome S (Unit {0})) → continue o (λ _ s. returns tt s) ≡ o
  continue_pure (returns a s) = refl
  continue_pure (throws e s) = refl

  pub seq_pure : (m : Exec S (Unit {0})) → (m >> pure tt) ≡ m
  seq_pure m = fun_ext λ s. continue_pure (m s)

pub Outcome-cases {ℓ} :
    {S A : Type ℓ} (o : Outcome S A)
    → ((a : A) × (s : S) × (o ≡ returns a s)) ⊎ ((e : Error) × (s : S) × (o ≡ throws e s))
Outcome-cases (returns a s) = inl (a, s, refl)
Outcome-cases (throws e s) = inr (e, s, refl)

-- What holds at the end of a run: `Q` where it returns, `E` where it throws.
module _ {S A : Type 0} where
  abbrev pub Ends : (A → S → Type 0) → (Error → S → Type 0) → Outcome S A → Type 0
  Ends Q E (returns a s) = Q a s
  Ends Q E (throws e s) = E e s

module _ {S A B : Type 0} where
  pub Ends-continue :
      (Q : A → S → Type 0) (R : B → S → Type 0) (E : Error → S → Type 0) (o : Outcome S A)
      (f : A → Exec S B)
      → Ends Q E o
      → ((a : A) (t : S) → Q a t → Ends R E (f a t))
      → Ends R E (continue o f)
  Ends-continue Q R E (returns a t) f h k = k a t h
  Ends-continue Q R E (throws e t) f h k = h

module _ {S A : Type 0} (Q R : A → S → Type 0) (E F : Error → S → Type 0) where
  pub Ends_mono :
      (o : Outcome S A)
      → Ends Q E o
      → ((a : A) (t : S) → Q a t → R a t)
      → ((e : Error) (t : S) → E e t → F e t)
      → Ends R F o
  Ends_mono (returns a t) h q e = q a t h
  Ends_mono (throws x t) h q e = e x t h

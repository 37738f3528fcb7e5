-- ===== src/Base/Result.antt =====
-- Exceptions as values. An error is the class of the C++ exception; its message is not kept.
use mathlib.Core.Path.{◌≡◌, refl}
use mathlib.Core.Bool.{Bool, true, false}
use mathlib.Core.Logic.{◌⊎◌, inl, inr}

-- The `nix` ones are those of Nix, and `json_error` those of nlohmann::json and of `at`. Two are no exceptions of the program. `out_of_fuel`: a loop of the model was given too little
-- fuel. `undefined`: the code has used a transaction that LMDB had freed.
pub data Error : Type 0 where
  nix_error nix_bad_store_path json_error : Error
  corrupt invalid_argument runtime_error logic_error system_error out_of_fuel undefined : Error

pub data Result {ℓ} (A : Type ℓ) : Type ℓ where
  ok : A → Result A
  err : Error → Result A

-- `if (bad) throw e;`
abbrev pub throw_if : Bool → Error → Result (Unit {0})
throw_if true e = err e
throw_if false e = ok tt

infixl 5 ◌>>=◌
abbrev pub ◌>>=◌ {ℓ κ} : {A : Type ℓ} {B : Type κ} → Result A → (A → Result B) → Result B
err e >>= rest = err e
ok value >>= rest = rest value

infixl 5 ◌>>◌
abbrev pub ◌>>◌ {ℓ} : {A : Type ℓ} → Result (Unit {0}) → Result A → Result A
first >> second = first >>= λ done. second

-- A chain that succeeds has succeeded at its first link and at the rest.
module _ {ℓ κ} {A : Type ℓ} {B : Type κ} where
  pub >>=-eq-ok :
      {out : B} (first : Result A) (rest : A → Result B)
      → (first >>= rest) ≡ ok out
      → (value : A) × (first ≡ ok value) × (rest value ≡ ok out)
  >>=-eq-ok (ok value) rest done = (value, refl, done)
  >>=-eq-ok (err e) rest done = cc

pub throw_if-eq-ok {ℓ} :
    {B : Type ℓ} (bad : Bool) (e : Error) (k : Unit {0} → Result B) {b : B}
    → (throw_if bad e >>= k) ≡ ok b
    → (bad ≡ false) × (k tt ≡ ok b)
throw_if-eq-ok true e k h = cc
throw_if-eq-ok false e k h = (refl, h)

pub Result-cases {ℓ} :
    {A : Type ℓ} (r : Result A) → ((a : A) × (r ≡ ok a)) ⊎ ((e : Error) × (r ≡ err e))
Result-cases (ok a) = inl (a, refl)
Result-cases (err e) = inr (e, refl)

-- `catch (const CorruptError &)`
abbrev pub is_corrupt : Error → Bool
is_corrupt corrupt = true
is_corrupt nix_error = false
is_corrupt nix_bad_store_path = false
is_corrupt json_error = false
is_corrupt invalid_argument = false
is_corrupt runtime_error = false
is_corrupt logic_error = false
is_corrupt system_error = false
is_corrupt out_of_fuel = false
is_corrupt undefined = false

-- ===== src/Plugin/StoreView.antt =====
-- `StoreViewAccessor` of plugin/store.cc, over any accessors `A`: paths of the whole store go to the
-- accessor of the store object that they begin with.
use nix_tarmac.Base.{Bool, true, false, Option, none, some, List, [], ◌∷◌, if◌then◌else◌}
use nix_tarmac.Base.Bytes.{Bytes, bytes_eq}
use nix_tarmac.Base.Result.{nix_error, nix_bad_store_path}
use nix_tarmac.Base.Exec.{Exec, Outcome, returns, throws, pure, throw, ◌>>=◌}
use nix_tarmac.Plugin.Accessor.{FileType, directory, Stat}

-- The methods of an accessor; `S` is what they change.
pub record Methods (S A : Type 0) : Type 0 where
  pub read_file : A → List Bytes → Exec S Bytes
  pub path_exists : A → List Bytes → Exec S Bool
  pub maybe_lstat : A → List Bytes → Exec S (Option Stat)
  pub read_directory : A → List Bytes → Exec S (List (Bytes × FileType))
  pub read_link : A → List Bytes → Exec S Bytes

-- `cache_` beside the rest.
pub record StoreView (S A : Type 0) : Type 0 where
  pub rest : S
  pub cache : List (Bytes × A)

unfoldable pub find_accessor : {A : Type 0} → Bytes → List (Bytes × A) → Option A
find_accessor base [] = none
find_accessor base ((key, accessor) ∷ cache) =
    if bytes_eq key base then some accessor else find_accessor base cache

module _ {S A : Type 0} (accessor_for : Bytes → Exec S (Option A)) (methods : Methods S A) where
  abbrev pub V : Type 0 → Type 0
  V B = Exec (StoreView S A) B

  abbrev pub on_rest : {B : Type 0} → Exec S B → V B
  on_rest act s = elim (act s.rest) [
    | returns b r ↦ returns b (record s { rest = r })
    | throws e r ↦ throws e (record s { rest = r })
  ]

  -- `catch (const nix::BadStorePath &)`
  unfoldable pub no_bad_path :
      {B : Type 0} → Outcome (StoreView S A) (Option B) → Outcome (StoreView S A) (Option B)
  no_bad_path (throws nix_bad_store_path s) = returns none s
  no_bad_path o = o

  -- The accessor of a store object; one that was found stays in the cache.
  unfoldable pub cached : Bytes → V (Option A)
  cached base s = elim (find_accessor base s.cache) [
    | some accessor ↦ returns (some accessor) s
    | none ↦
        (do
          found ← λ s. no_bad_path (on_rest (accessor_for base) s)
          elim found [
            | none ↦ pure none
            | some accessor ↦
                λ s. returns (some accessor) (record s { cache = (base, accessor) ∷ s.cache })
          ])
          s
  ]

  -- `none` where the source returns false.
  unfoldable pub try_with_accessor :
      {B : Type 0} → List Bytes → (A → List Bytes → Exec S B) → V (Option B)
  try_with_accessor [] func = pure none
  try_with_accessor (base ∷ path) func = do
    found ← cached base
    elim found [
      | none ↦ pure none
      | some accessor ↦ on_rest (func accessor path) >>= λ b. pure (some b)
    ]

  unfoldable pub with_accessor : {B : Type 0} → List Bytes → (A → List Bytes → Exec S B) → V B
  with_accessor path func = do
    found ← try_with_accessor path func
    elim found [ none ↦ throw nix_error | some b ↦ pure b ]

  unfoldable pub read_file : List Bytes → V Bytes
  read_file path = with_accessor path methods.read_file

  unfoldable pub path_exists : List Bytes → V Bool
  path_exists [] = pure true
  path_exists (base ∷ path) = do
    found ← try_with_accessor (base ∷ path) methods.path_exists
    elim found [ none ↦ pure false | some res ↦ pure res ]

  unfoldable pub maybe_lstat : List Bytes → V (Option Stat)
  maybe_lstat [] =
      pure (some (record { type = directory; is_executable = false; file_size = none }))
  maybe_lstat (base ∷ path) = do
    found ← try_with_accessor (base ∷ path) methods.maybe_lstat
    elim found [ none ↦ pure none | some res ↦ pure res ]

  unfoldable pub read_directory : List Bytes → V (List (Bytes × FileType))
  read_directory path = with_accessor path methods.read_directory

  unfoldable pub read_link : List Bytes → V Bytes
  read_link path = with_accessor path methods.read_link

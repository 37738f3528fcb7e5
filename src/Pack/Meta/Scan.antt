-- ===== src/Pack/Meta/Scan.antt =====
-- `meta_scan` against looking at every record of the table.
use nix_tarmac.Base.{
  ℕ, ◌≡◌, refl, sym, ◌∙◌, subst, ◌⊎◌, inl, inr, Bool, true, false, none, some, List, [], ◌∷◌,
  if◌then◌else◌, arith, Bool-cases,
}
use nix_tarmac.Base.Bytes.{Bytes, bytes_lt, bytes_lt_trans}
use nix_tarmac.Base.Result.{Error, runtime_error}
use nix_tarmac.Base.Exec.{Exec, pure, Ends, Ends-continue}
use nix_tarmac.Pack.File.{LastFails}
use nix_tarmac.Pack.Platform.{Platform, RisesFrom, Rises}
use nix_tarmac.Pack.State.{Impl, Db, opened, check, batch_txn, read_txn, txn_db}
use nix_tarmac.Pack.Meta.{starts_with, set_range, scan_loop, meta_scan}

-- The reference: the records whose key starts with the prefix, in order, and a fold over them.
unfoldable pub prefixed : Bytes → List (Bytes × Bytes) → List (Bytes × Bytes)
prefixed prefix [] = []
prefixed prefix ((key, val) ∷ rest) =
    if starts_with key prefix then (key, val) ∷ prefixed prefix rest else prefixed prefix rest

unfoldable pub fold_records : {A : Type 0} → (Bytes → Bytes → A → A) → List (Bytes × Bytes) → A → A
fold_records f [] seen = seen
fold_records f ((key, val) ∷ rest) seen = fold_records f rest (f key val seen)

starts_with-bytes_lt :
    (key prefix : Bytes) → starts_with key prefix ≡ true → bytes_lt key prefix ≡ false
unfolding starts_with bytes_lt
starts_with-bytes_lt [] [] h = refl
starts_with-bytes_lt (a ∷ key) [] h = refl
starts_with-bytes_lt [] (b ∷ prefix) h = cc
starts_with-bytes_lt (a ∷ key) (b ∷ prefix) h = ground (arith, starts_with-bytes_lt key prefix)

-- After a key that is not below the prefix and does not start with it, no key does.
starts_with-past :
    (key later prefix : Bytes)
    → bytes_lt key prefix ≡ false
    → starts_with key prefix ≡ false
    → bytes_lt key later ≡ true
    → starts_with later prefix ≡ false
unfolding starts_with bytes_lt
starts_with-past [] later [] h n l = cc
starts_with-past (a ∷ key) later [] h n l = cc
starts_with-past [] later (b ∷ prefix) h n l = cc
starts_with-past (a ∷ key) [] (b ∷ prefix) h n l = refl
starts_with-past (a ∷ key) (c ∷ later) (b ∷ prefix) h n l =
    ground (arith, starts_with-past key later prefix)

not_below :
    (key later prefix : Bytes)
    → bytes_lt key prefix ≡ false
    → bytes_lt key later ≡ true
    → bytes_lt later prefix ≡ false
not_below key later prefix h l = elim (Bool-cases (bytes_lt later prefix)) [
  | inr e ↦ e
  | inl e ↦ absurd (cc (sym h ∙ bytes_lt_trans key later prefix l e))
]

none_later :
    (key prefix : Bytes) (rest : List (Bytes × Bytes))
    → RisesFrom key rest
    → bytes_lt key prefix ≡ false
    → starts_with key prefix ≡ false
    → prefixed prefix rest ≡ []
unfolding prefixed
none_later key prefix [] r h n = refl
none_later key prefix ((k, v) ∷ rest) (l, r) h n =
    let n' = starts_with-past key k prefix h n l in
    rw n' (none_later k prefix rest r (not_below key k prefix h l) n')

-- A list on from a first key that is not below the prefix.
abbrev FromPrefix : Bytes → List (Bytes × Bytes) → Type 0
FromPrefix prefix [] = Unit {0}
FromPrefix prefix ((key, val) ∷ rest) = (bytes_lt key prefix ≡ false) × RisesFrom key rest

FromPrefix-rest :
    (key prefix : Bytes) (rest : List (Bytes × Bytes))
    → bytes_lt key prefix ≡ false
    → RisesFrom key rest
    → FromPrefix prefix rest
FromPrefix-rest key prefix [] h r = tt
FromPrefix-rest key prefix ((k, v) ∷ rest) h (l, r) = (not_below key k prefix h l, r)

Rises-rest : (key : Bytes) (rest : List (Bytes × Bytes)) → RisesFrom key rest → Rises rest
Rises-rest key [] r = tt
Rises-rest key ((k, v) ∷ rest) r = r.1

set_range-FromPrefix :
    (prefix : Bytes) (l : List (Bytes × Bytes))
    → Rises l
    → FromPrefix prefix (set_range prefix l)
      × (prefixed prefix (set_range prefix l) ≡ prefixed prefix l)
unfolding set_range prefixed
set_range-FromPrefix prefix [] r = (tt, refl)
set_range-FromPrefix prefix ((key, val) ∷ rest) r =
    let (from, same) = set_range-FromPrefix prefix rest (Rises-rest key rest r) in
    elim (Bool-cases (bytes_lt key prefix)) [
      | inr above ↦ rw above ((above, r), refl)
      | inl below ↦
          let not_starts : starts_with key prefix ≡ false =
            elim (Bool-cases (starts_with key prefix)) [
              | inr e ↦ e
              | inl e ↦ absurd (cc (sym (starts_with-bytes_lt key prefix e) ∙ below))
            ] in
          rw (below, not_starts) (from, same)
    ]

module _ {T A : Type 0} (p : Platform T) (f : Bytes → Bytes → A → A) (prefix : Bytes) where
  -- A callback that never ends the scan.
  abbrev pub every : Bytes → Bytes → A → Exec (Impl T) (A × Bool)
  every key val seen = pure (f key val seen, true)

  abbrev pub RuntimeFailure : Error → Impl T → Type 0
  RuntimeFailure e t = (e ≡ runtime_error) × LastFails p.kernel t.calls

  check-runtime : (s : Impl T) → Ends (λ _ t. Unit {0}) RuntimeFailure (check p runtime_error s)
  unfolding check
  check-runtime s = elim (Bool-cases (p.kernel.fails s.calls)) [
    | inl bad ↦ rw bad (refl, (s.calls, refl, bad))
    | inr good ↦ rw good tt
  ]

  scan_loop-Ends :
      (l : List (Bytes × Bytes)) (seen : A) (s : Impl T)
      → FromPrefix prefix l
      → Ends
          (λ a t. a ≡ fold_records f (prefixed prefix l) seen)
          RuntimeFailure
          (scan_loop p prefix every l seen s)
  unfolding scan_loop fold_records prefixed
  scan_loop-Ends [] seen s h = refl
  scan_loop-Ends ((key, val) ∷ rest) seen s (above, r) =
      elim (Bool-cases (starts_with key prefix)) [
        | inl starts ↦ rw starts (
            Ends-continue (λ _ t. Unit {0})
              (λ a t. a ≡ fold_records f (prefixed prefix rest) (f key val seen)) RuntimeFailure
              (check p runtime_error s) _ (check-runtime s)
              (λ _ t _.
                scan_loop-Ends rest (f key val seen) t (FromPrefix-rest key prefix rest above r)))
        | inr ends ↦ rw (ends, none_later key prefix rest r above ends) refl
      ]

  -- The databases that the thread reads.
  abbrev pub Sees : ℕ → Impl T → Db T → Type 0
  Sees tid s db =
      (batch_txn p tid s ≡ some (opened db)) ⊎ ((batch_txn p tid s ≡ none) × (s.committed ≡ db))

  read_txn-Ends :
      (tid : ℕ) (s : Impl T) (db : Db T)
      → Sees tid s db
      → Ends (λ d t. d ≡ db) RuntimeFailure (read_txn p tid s)
  unfolding read_txn txn_db check
  read_txn-Ends tid s db (inl e) = rw (e, read_txn) refl
  read_txn-Ends tid s db (inr (e, same)) = elim (Bool-cases (p.kernel.fails s.calls)) [
    | inl bad ↦ rw (e, read_txn, bad) (refl, (s.calls, refl, bad))
    | inr good ↦ rw (e, read_txn, good) same
  ]

  -- With a callback that does not end it, `meta_scan` passes every record of the table that the thread
  -- reads whose key starts with the prefix, once and in the order of the keys, and no other. It throws
  -- `runtime_error`, and only if its last call has failed.
  pub meta_scan-fold :
      (tid : ℕ) (seen : A) (s : Impl T) (db : Db T)
      → Sees tid s db
      → Ends
          (λ a t. a ≡ fold_records f (prefixed prefix (p.lmdb.entries db.meta)) seen)
          RuntimeFailure
          (meta_scan p tid prefix every seen s)
  unfolding meta_scan
  meta_scan-fold tid seen s db h =
      let Result : A → Impl T → Type 0 =
        λ a t. a ≡ fold_records f (prefixed prefix (p.lmdb.entries db.meta)) seen in
      let (from, same) =
        set_range-FromPrefix prefix (p.lmdb.entries db.meta) (p.lmdb.entries-Rises db.meta) in
      Ends-continue (λ d t. d ≡ db) Result RuntimeFailure (read_txn p tid s) _
        (read_txn-Ends tid s db h)
        λ d t e.
          Ends-continue (λ _ t. Unit {0}) Result RuntimeFailure (check p runtime_error t) _
            (check-runtime t)
            λ _ u _.
              Ends-continue (λ _ t. Unit {0}) Result RuntimeFailure (check p runtime_error u) _
                (check-runtime u)
                λ _ v _. rw e (
                  subst
                    (λ l.
                      Ends (λ a t. a ≡ fold_records f l seen) RuntimeFailure
                        (scan_loop p prefix every (set_range prefix (p.lmdb.entries db.meta)) seen
                          v))
                    same (scan_loop-Ends (set_range prefix (p.lmdb.entries db.meta)) seen v from))

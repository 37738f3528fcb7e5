-- ===== src/Pack/Runs/Table.antt =====
-- A table that meets what is assumed of LMDB: a log of the writes, sorted for the cursor.
use nix_tarmac.Base.{
  ◌≡◌, refl, subst, true, none, some, List, [], ◌∷◌, arith, if◌then◌else◌, inl, inr, Bool-cases,
}
use nix_tarmac.Base.Bytes.{Bytes, bytes_eq, bytes_eq_iff, bytes_lt, bytes_lt_total}
use nix_tarmac.Pack.Platform.{Lmdb, assoc, RisesFrom, Rises}

abbrev pub Log : Type 0
Log = List (Bytes × Bytes)

abbrev pub remove : Bytes → Log → Log
remove key [] = []
remove key ((k, v) ∷ t) = if bytes_eq k key then remove key t else (k, v) ∷ remove key t

abbrev pub place : Bytes → Bytes → Log → Log
place key val [] = (key, val) ∷ []
place key val ((k, v) ∷ t) =
    if bytes_eq k key
    then (key, val) ∷ t
    else if bytes_lt key k
    then (key, val) ∷ (k, v) ∷ t
    else (k, v) ∷ place key val t

abbrev pub sorted : Log → Log
sorted [] = []
sorted ((k, v) ∷ t) = place k v (sorted t)

pub assoc-remove :
    (j key : Bytes) (t : Log)
    → assoc j (remove key t) ≡ (if bytes_eq key j then none else assoc j t)
assoc-remove j key [] = ground arith
assoc-remove j key ((k, v) ∷ t) =
    ground (arith, assoc-remove j key t, bytes_eq_iff k key, bytes_eq_iff key j, bytes_eq_iff k j)

assoc-place :
    (j key val : Bytes) (t : Log)
    → assoc j (place key val t) ≡ (if bytes_eq key j then some val else assoc j t)
assoc-place j key val [] = refl
assoc-place j key val ((k, v) ∷ t) =
    ground
      (arith, assoc-place j key val t, bytes_eq_iff k key, bytes_eq_iff key j, bytes_eq_iff k j)

pub assoc-sorted : (j : Bytes) (t : Log) → assoc j (sorted t) ≡ assoc j t
assoc-sorted j [] = refl
assoc-sorted j ((k, v) ∷ t) = ground (arith, assoc-place j k v (sorted t), assoc-sorted j t)

place-RisesFrom :
    (low key val : Bytes) (t : Log)
    → bytes_lt low key ≡ true
    → RisesFrom low t
    → RisesFrom low (place key val t)
place-RisesFrom low key val [] h r = (h, tt)
place-RisesFrom low key val ((k, v) ∷ t) h (low_k, r) = elim (Bool-cases (bytes_eq k key)) [
  | inl same ↦ rw same (h, subst (λ k. RisesFrom k t) ((bytes_eq_iff k key).0 same) r)
  | inr other ↦ elim (Bool-cases (bytes_lt key k)) [
    | inl below ↦ rw (other, below) (h, (below, r))
    | inr above ↦
        rw (other, above)
          (
            low_k,
            place-RisesFrom k key val t
                (ground (arith, bytes_lt_total key k, bytes_eq_iff k key, bytes_eq_iff key k)) r,
          )
  ]
]

place-Rises : (key val : Bytes) (t : Log) → Rises t → Rises (place key val t)
place-Rises key val [] r = tt
place-Rises key val ((k, v) ∷ t) r = elim (Bool-cases (bytes_eq k key)) [
  | inl same ↦ rw same (subst (λ k. RisesFrom k t) ((bytes_eq_iff k key).0 same) r)
  | inr other ↦ elim (Bool-cases (bytes_lt key k)) [
    | inl below ↦ rw (other, below) (below, r)
    | inr above ↦
        rw (other, above)
          (place-RisesFrom k key val t
            (ground (arith, bytes_lt_total key k, bytes_eq_iff k key, bytes_eq_iff key k)) r)
  ]
]

pub sorted-Rises : (t : Log) → Rises (sorted t)
sorted-Rises [] = tt
sorted-Rises ((k, v) ∷ t) = place-Rises k v (sorted t) (sorted-Rises t)

abbrev pub table_lmdb : Lmdb Log
table_lmdb = record {
  empty = [];
  get = assoc;
  put = λ key val t. (key, val) ∷ t;
  del = remove;
  entries = sorted;
  get-empty = λ j. refl;
  get-put = λ j key val t. refl;
  get-del = λ j key t. assoc-remove j key t;
  assoc-entries = λ j t. assoc-sorted j t;
  entries-Rises = λ t. sorted-Rises t;
}

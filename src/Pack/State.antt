-- ===== src/Pack/State.antt =====
-- `PackCas::Impl` of src/pack_cas.cpp: its fields, with the files and the index that it stands on,
-- and the helpers that open, map and look into them.
use nix_tarmac.Base.{
  ℕ, zero, suc, ◌+◌, ◌^◌, Bool, true, false, Option, none, some, List, [], ◌∷◌, ◌++◌, map, length,
  ltb, ◌==◌, if◌then◌else◌,
}
use nix_tarmac.Base.Bytes.{Bytes}
use nix_tarmac.Base.Little.{le_value}
use nix_tarmac.Base.Result.{
  Error, Result, ok, err, corrupt, invalid_argument, runtime_error, system_error, undefined,
}
use nix_tarmac.Base.Exec.{Exec, returns, throws, pure, throw, lift, gets, modify, ◌>>=◌, ◌>>◌}
use nix_tarmac.Pack.File.{Io, slice}
use nix_tarmac.Pack.Index.{IndexEntry, decode_entry}
use nix_tarmac.Pack.Platform.{Platform}

abbrev pub map_size : ℕ
map_size = 2 ^ 40

abbrev pub hash_len : ℕ
hash_len = 32

-- kLockTimeout / kLockPoll: ten minutes, every fifty milliseconds
abbrev pub lock_polls : ℕ
lock_polls = 12000

abbrev pub max_generation_retries : ℕ
max_generation_retries = 8

-- The two databases of the LMDB environment.
pub record Db (T : Type 0) : Type 0 where
  pub blobs : T
  pub meta : T

-- A write transaction: it has a copy of the databases, until LMDB has freed it.
pub data Txn (T : Type 0) : Type 0 where
  opened : Db T → Txn T
  freed : Txn T

-- `inode` is the file behind `pack_fd` and `base`, which outlives its name.
pub record Mapping : Type 0 where
  pub gen : ℕ
  pub inode : ℕ
  pub size : ℕ

-- `names` finds the file called pack.<gen>; `calls` numbers the calls that may fail.
pub record Impl (T : Type 0) : Type 0 where
  pub calls : ℕ
  pub contents : ℕ → Bytes
  pub names : ℕ → Option ℕ
  pub next_inode : ℕ
  pub committed : Db T
  pub locked : Bool
  pub cur : Option Mapping
  pub retired : List Mapping
  pub wtxn : Option (Txn T)
  pub writer_thread : ℕ
  pub committed_end : ℕ
  pub end : ℕ
  pub batch_bytes : ℕ

abbrev pub update {ℓ} : {A : Type ℓ} → (ℕ → A) → ℕ → A → ℕ → A
update f i a j = if i == j then a else f j

-- "gen" and "format" in the meta database
abbrev pub gen_key : Bytes
gen_key = b'g' ∷ b'e' ∷ b'n' ∷ []

abbrev set_size_of : ℕ → ℕ → Mapping → Mapping
set_size_of gen size m = if m.gen == gen then record m { size = size } else m

abbrev find_mapping : ℕ → List Mapping → Option Mapping
find_mapping gen [] = none
find_mapping gen (m ∷ ms) = if m.gen == gen then some m else find_mapping gen ms

abbrev map_option : (Mapping → Mapping) → Option Mapping → Option Mapping
map_option f none = none
map_option f (some m) = some (f m)

module _ {T : Type 0} (p : Platform T) where
  abbrev pub M : Type 0 → Type 0
  M A = Exec (Impl T) A

  -- A call of the system or of LMDB that throws if it fails.
  unfoldable pub check : Error → M (Unit {0})
  check e s =
      if p.kernel.fails s.calls
      then throws e (record s { calls = suc s.calls })
      else returns tt (record s { calls = suc s.calls })

  -- Reads and writes on the file of a mapping.
  unfoldable pub with_file : {A : Type 0} → ℕ → Exec Io A → M A
  with_file inode act s = elim (act (record { calls = s.calls; bytes = s.contents inode })) [
    | returns a io ↦
        returns a (record s { calls = io.calls; contents = update s.contents inode io.bytes })
    | throws e io ↦
        throws e (record s { calls = io.calls; contents = update s.contents inode io.bytes })
  ]

  unfoldable pub txn_db : Txn T → M (Db T)
  txn_db (opened db) = pure db
  txn_db freed = throw undefined

  -- The batch, where this thread opened it.
  unfoldable pub batch_txn : ℕ → Impl T → Option (Txn T)
  batch_txn tid s = elim s.wtxn [
    | none ↦ none
    | some txn ↦ if s.writer_thread == tid then some txn else none
  ]

  -- `ReadTxn(env, batch_txn())` and its `get()`
  unfoldable pub read_txn : ℕ → M (Db T)
  read_txn tid s = elim (batch_txn tid s) [
    | some txn ↦ txn_db txn s
    | none ↦ (check runtime_error >> gets (λ s. s.committed)) s
  ]

  -- The generation in a record of the databases.
  unfoldable pub gen_of : Db T → Result ℕ
  gen_of db = elim (p.lmdb.get gen_key db.meta) [
    | none ↦ ok 0
    | some val ↦ if length val == 8 then ok (le_value val) else err corrupt
  ]

  unfoldable pub read_gen : Db T → M ℕ
  unfolding gen_of
  read_gen db = check runtime_error >> lift (gen_of db)

  -- `mapping->size = …` on the one mapping of that generation
  unfoldable pub set_size : ℕ → ℕ → M (Unit {0})
  set_size gen size = modify λ s. record s {
    cur = map_option (set_size_of gen size) s.cur;
    retired = map (set_size_of gen size) s.retired;
  }

  -- `fstat`
  unfoldable pub file_size : Mapping → M ℕ
  file_size m = check system_error >> gets (λ s. length (s.contents m.inode))

  -- The mapping of a generation among those that the process holds.
  unfoldable pub known_mapping : ℕ → Impl T → Option Mapping
  known_mapping gen s = elim s.cur [
    | none ↦ find_mapping gen s.retired
    | some c ↦ if c.gen == gen then some c else find_mapping gen s.retired
  ]

  unfoldable pub size_of : Mapping → Impl T → ℕ
  size_of m s = elim (known_mapping m.gen s) [ none ↦ m.size | some c ↦ c.size ]

  -- The middle of `Mapping::view`: `fstat` once, and another look.
  unfoldable pub refresh : Mapping → ℕ → M (Unit {0})
  refresh m last = do
    known ← file_size m
    set_size m.gen known
    if ltb known last then throw corrupt else pure tt

  -- `Mapping::view`; `size` is the field of the shared object.
  unfoldable pub view : Mapping → ℕ → ℕ → M Bytes
  unfolding size_of refresh
  view m off len = if ltb map_size (off + len) then throw corrupt else do
    size ← gets (size_of m)
    if ltb size (off + len) then refresh m (off + len) else pure tt
    gets (λ s. slice off len (s.contents m.inode))

  -- `open(2)` on pack.<gen>: a file that is not there is made, or is the answer `none`.
  unfoldable pub open_pack : ℕ → Bool → M (Option ℕ)
  open_pack gen create s = elim (s.names gen) [
    | some inode ↦ (check system_error >> pure (some inode)) s
    | none ↦
        if create
        then (check system_error >> (λ s. returns (some s.next_inode) (record s {
          names = update s.names gen (some s.next_inode);
          contents = update s.contents s.next_inode [];
          next_inode = suc s.next_inode;
        })))
            s
        else pure none s
  ]

  -- `open`, `fstat` and `mmap`
  unfoldable pub map_pack : ℕ → Bool → M (Option Mapping)
  unfolding open_pack
  map_pack gen create = do
    found ← open_pack gen create
    elim found [
      | none ↦ pure none
      | some inode ↦ do
        size ← file_size (record { gen = gen; inode = inode; size = 0 })
        check system_error
        pure (some (record { gen = gen; inode = inode; size = size }))
    ]

  -- The end of `mapping_for`: a newer generation becomes the current one.
  unfoldable pub install : Mapping → M (Option Mapping)
  install m s = elim s.cur [
    | none ↦ returns (some m) (record s { cur = some m })
    | some c ↦
        if ltb c.gen m.gen
        then returns (some m) (record s { cur = some m; retired = s.retired ++ (c ∷ []) })
        else returns (some m) (record s { retired = s.retired ++ (m ∷ []) })
  ]

  unfoldable pub mapping_for : ℕ → Bool → M (Option Mapping)
  unfolding install
  mapping_for gen create s = elim (known_mapping gen s) [
    | some m ↦ returns (some m) s
    | none ↦
        (do mapped ← map_pack gen create; elim mapped [ none ↦ pure none | some m ↦ install m ]) s
  ]

  -- With and without the generation: `gen_out` of the source is a null pointer or not.
  unfoldable pub lookup : ℕ → Bool → Bytes → M (ℕ × Option IndexEntry)
  lookup tid want_gen hash =
      if length hash == hash_len
      then (do
        db ← read_txn tid
        gen ← (if want_gen then read_gen db else pure 0)
        check runtime_error
        elim (p.lmdb.get hash db.blobs) [
          | none ↦ pure (gen, none)
          | some val ↦ do entry ← lift (decode_entry val); pure (gen, some entry)
        ])
      else throw invalid_argument

  unfoldable pub locate_loop : ℕ → ℕ → Bytes → M (Option (IndexEntry × Mapping))
  locate_loop zero tid hash = throw runtime_error
  locate_loop (suc left) tid hash = do
    (gen, found) ← lookup tid true hash
    elim found [
      | none ↦ pure none
      | some entry ↦ do
        create ← gets (λ s. elim s.wtxn [ none ↦ false | some txn ↦ true ])
        mapped ← mapping_for gen create
        elim mapped [ some m ↦ pure (some (entry, m)) | none ↦ locate_loop left tid hash ]
    ]

  unfoldable pub locate : ℕ → Bytes → M (Option (IndexEntry × Mapping))
  unfolding locate_loop
  locate tid hash = locate_loop max_generation_retries tid hash

  -- `current()`, dereferenced: after `open` there is always a mapping.
  unfoldable pub current : M Mapping
  current s = elim s.cur [ none ↦ throw undefined s | some m ↦ pure m s ]

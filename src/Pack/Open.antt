-- ===== src/Pack/Open.antt =====
-- `PackCas::open`, `open_once` and `cleanup_orphans` of src/pack_cas.cpp. The state before is that of
-- the directory: of the fields of a process only what the directory holds is read.
pub mod Steps
pub mod Maps
pub mod Opens
use nix_tarmac.Base.{
  ℕ, ◌+◌, ◌-◌, ◌*◌, ◌^◌, Bool, true, false, not, ◌&&◌, ◌||◌, Option, none, some, List, [], ◌∷◌,
  ◌==◌, leb, ltb, if◌then◌else◌, drop,
}
use nix_tarmac.Base.Bytes.{Bytes}
use nix_tarmac.Base.Result.{Error, runtime_error, system_error}
use nix_tarmac.Base.Exec.{Exec, returns, throws, pure, throw, gets, modify, ◌>>=◌, ◌>>◌}
use nix_tarmac.Base.Text.{codes}
use nix_tarmac.Pack.Platform.{Platform}
use nix_tarmac.Pack.State.{Impl, Db, M, check, read_gen, mapping_for}
use nix_tarmac.Pack.Batch.{on_throw, unlock_writer}
use nix_tarmac.Pack.Meta.{starts_with, check_format}
use nix_tarmac.Pack.Compact.{unlink_pack}

abbrev pack_prefix : Bytes
pack_prefix = codes "pack."

-- `std::from_chars` to a std::uint64_t, which has to take every character.
unfoldable pub from_digits : ℕ → Bytes → Option ℕ
from_digits value [] = some value
from_digits value (c ∷ cs) =
    let rest = from_digits (value * 10 + (c - b'0')) cs in
    if leb b'0' c && leb c b'9' && ltb (value * 10 + (c - b'0')) (2 ^ 64) then rest else none

unfoldable pub parse_gen : Bytes → Option ℕ
parse_gen [] = none
parse_gen (c ∷ cs) = from_digits 0 (c ∷ cs)

-- Whether `std::to_string` writes a number this way; other files are none that `names` finds.
unfoldable pub is_canonical : Bytes → Bool
is_canonical [] = false
is_canonical (c ∷ []) = true
is_canonical (c ∷ d ∷ cs) = not (c == b'0')

-- The generation that a file belongs to.
unfoldable pub pack_gen : Bytes → Option ℕ
pack_gen name = if starts_with name pack_prefix then parse_gen (drop 5 name) else none

-- `create_directories` and `mkdir`, four calls on the environment, `mdb_txn_begin` and two `mdb_dbi_open`
abbrev pub env_calls : List Error
env_calls =
    system_error ∷ system_error ∷ runtime_error ∷ runtime_error ∷ runtime_error ∷ runtime_error
    ∷ runtime_error ∷ runtime_error ∷ runtime_error ∷ []

module _ {T : Type 0} (p : Platform T) where
  -- The fields of a new `Impl`.
  abbrev pub fresh : Impl T → Impl T
  fresh s = record s {
    locked = false;
    cur = none;
    retired = [];
    wtxn = none;
    committed_end = 0;
    end = 0;
    batch_bytes = 0;
  }

  -- The body of the loop of `cleanup_orphans`; the failure of `unlink` is ignored.
  unfoldable pub cleanup_file : ℕ → Bytes → Impl T → Impl T
  cleanup_file live name s = elim (pack_gen name) [
    | none ↦ s
    | some gen ↦
        if gen == live
        then s
        else if is_canonical (drop 5 name)
        then unlink_pack p gen s
        else record s { calls = s.calls + 1 }
  ]

  unfoldable pub cleanup_loop : ℕ → List Bytes → M p (Unit {0})
  unfolding cleanup_file
  cleanup_loop live [] = pure tt
  cleanup_loop live (name ∷ names) = do
    modify (cleanup_file live name)
    check p system_error
    cleanup_loop live names

  -- The file names as the directory iterator gives them.
  unfoldable pub cleanup_orphans : List Bytes → ℕ → M p (Unit {0})
  unfolding cleanup_loop
  cleanup_orphans names live = check p system_error >> cleanup_loop live names

  -- Calls of the system or of LMDB, each of which throws if it fails.
  unfoldable pub checks : List Error → M p (Unit {0})
  checks [] = pure tt
  checks (e ∷ es) = check p e >> checks es

  unfoldable pub open_env : M p (Unit {0})
  unfolding checks
  open_env = checks env_calls

  -- The transaction from there on; an exception aborts it.
  unfoldable pub open_txn : M p ℕ
  open_txn = do
    db ← gets (λ s. s.committed)
    db' ← check_format p db
    gen ← read_gen p db'
    check p runtime_error
    modify (λ s. record s { committed = db' })
    pure gen

  -- `flock(lock_fd, LOCK_EX | LOCK_NB) == 0`
  unfoldable pub try_lock : M p Bool
  try_lock s =
      if p.kernel.fails s.calls || p.kernel.busy s.calls
      then returns false (record s { calls = s.calls + 1 })
      else returns true (record s { calls = s.calls + 1; locked = true })

  unfoldable pub cleanup : List Bytes → ℕ → M p (Unit {0})
  unfolding try_lock cleanup_orphans unlock_writer
  cleanup names gen = do
    taken ← try_lock
    if taken then cleanup_orphans names gen >> modify (unlock_writer p) else pure tt

  -- From the lock file on.
  unfoldable pub finish_open : List Bytes → ℕ → M p (Unit {0})
  unfolding cleanup
  finish_open names gen = do
    check p system_error
    cleanup names gen
    mapped ← mapping_for p gen true
    elim mapped [ none ↦ throw runtime_error | some m ↦ pure tt ]

  -- The destructor of `Impl` gives the lock back.
  unfoldable pub open_once : List Bytes → M p (Unit {0})
  unfolding open_env open_txn finish_open
  open_once names =
      on_throw (do modify fresh; open_env; gen ← open_txn; finish_open names gen) (unlock_writer p)

  -- `remove_all`; its failure is ignored, and leaves what the file system says it leaves.
  unfoldable pub remove_all : (Impl T → Impl T) → Impl T → Impl T
  remove_all remains s =
      if p.kernel.fails s.calls then remains (record s { calls = s.calls + 1 }) else record s {
        calls = s.calls + 1;
        names = λ gen. none;
        committed = record { blobs = p.lmdb.empty; meta = p.lmdb.empty };
      }

  -- With the names of the files at first, and in the directory that the second try makes or finds.
  unfoldable pub open_cas : List Bytes → List Bytes → (Impl T → Impl T) → M p (Unit {0})
  unfolding open_once remove_all
  open_cas names left remains s = elim (open_once names s) [
    | returns done t ↦ returns done t
    | throws e t ↦ open_once left (remove_all remains t)
  ]

-- ===== src/Roots.antt =====
-- `TreeStore` of src/tree.cpp and src/tree.hpp: its objects, and the touching of roots. `now` is what
-- the clock says.
use nix_tarmac.Base.{
  ℕ, ◌+◌, ◌-◌, ◌%◌, ◌^◌, Bool, not, ◌||◌, Option, none, some, List, [], ◌∷◌, ltb, if◌then◌else◌,
}
use nix_tarmac.Base.Bytes.{Bytes, bytes_eq}
use nix_tarmac.Base.Result.{corrupt}
use nix_tarmac.TreeObject.{TreeEntry, encode_tree, decode_tree}
use nix_tarmac.Base.Exec.{Exec, returns, throws, pure, throw, lift, gets, modify, ◌>>=◌, ◌>>◌}
use nix_tarmac.Stamp.{be64, rbe64, is_timestamp}
use nix_tarmac.Pack.Platform.{Platform}
use nix_tarmac.Pack.State.{Impl}
use nix_tarmac.Pack.Batch.{sync}
use nix_tarmac.Pack.Blobs.{put, get, get_view, size, has}
use nix_tarmac.Pack.Meta.{meta_put, meta_get}

-- `pending_touch` is a std::unordered_map; the list has each key once.
pub record TreeStore (T : Type 0) : Type 0 where
  pub cas : Impl T
  pub ttl_ns : ℕ
  pub gc_interval_ns : ℕ
  pub touch_interval_ns : ℕ
  pub pending_touch : List (Bytes × ℕ)

-- "R" and a tree, "B" and a blob
abbrev pub root_key : Bytes → Bool → Bytes
root_key root tree = (if tree then b'R' else b'B') ∷ root

-- `try_emplace`: a key that is there keeps its value.
pub try_emplace : Bytes → ℕ → List (Bytes × ℕ) → List (Bytes × ℕ)
try_emplace key now [] = (key, now) ∷ []
try_emplace key now ((k, stamp) ∷ rest) =
    let rest' = try_emplace key now rest in
    if bytes_eq k key then (k, stamp) ∷ rest else (k, stamp) ∷ rest'

-- Whether `now - rbe64(stamp)` is below a duration. The difference wraps at 2 ^ 64.
unfoldable pub younger : ℕ → Bytes → ℕ → Bool
younger now stamp duration = ltb ((now + 2 ^ 64 - rbe64 stamp) % 2 ^ 64) duration

module _ {T : Type 0} (p : Platform T) where
  abbrev pub in_cas : {A : Type 0} → Exec (Impl T) A → Exec (TreeStore T) A
  in_cas act s = elim (act s.cas) [
    | returns a cas ↦ returns a (record s { cas = cas })
    | throws e cas ↦ throws e (record s { cas = cas })
  ]

  pub register_root : ℕ → ℕ → Bytes → Bool → Exec (TreeStore T) (Unit {0})
  register_root tid now root tree = in_cas (meta_put p tid (root_key root tree) (be64 now))

  touch_stamp : ℕ → Bytes → Bytes → TreeStore T → TreeStore T
  touch_stamp now key stamp s =
      if not (is_timestamp stamp) || younger now stamp s.touch_interval_ns
      then s
      else record s { pending_touch = try_emplace key now s.pending_touch }

  pub touch_root : ℕ → ℕ → Bytes → Bool → Exec (TreeStore T) (Unit {0})
  unfolding touch_stamp
  touch_root tid now root tree = do
    found ← in_cas (meta_get p tid (root_key root tree))
    elim found [ none ↦ pure tt | some stamp ↦ modify (touch_stamp now (root_key root tree) stamp) ]

  put_stamps : ℕ → List (Bytes × ℕ) → Exec (TreeStore T) (Unit {0})
  put_stamps tid [] = pure tt
  put_stamps tid ((key, stamp) ∷ batch) = do
    in_cas (meta_put p tid key (be64 stamp))
    put_stamps tid batch

  -- An exception in the loop loses the rest of the batch.
  pub flush_touches : ℕ → Exec (TreeStore T) (Unit {0})
  unfolding put_stamps
  flush_touches tid = do
    batch ← gets (λ s. s.pending_touch)
    modify (λ s. record s { pending_touch = [] })
    put_stamps tid batch

  pub sync_store : ℕ → Exec (TreeStore T) (Unit {0})
  unfolding flush_touches
  sync_store tid = flush_touches tid >> in_cas (sync p)

  -- `cas_->get`, with the exception for a missing object.
  unfoldable get_or_throw : ℕ → Bytes → Exec (Impl T) Bytes
  get_or_throw tid id = do
    found ← get p tid id
    elim found [ none ↦ throw corrupt | some out ↦ pure out ]

  -- On the store below, which is all of the state that these methods use.
  unfoldable pub read_tree : ℕ → Bytes → Exec (Impl T) (List TreeEntry)
  unfolding get_or_throw
  read_tree tid id = do buf ← get_or_throw tid id; lift (decode_tree buf)

  unfoldable pub put_tree : ℕ → List TreeEntry → Exec (Impl T) Bytes
  put_tree tid entries = do buf ← lift (encode_tree entries); put p tid buf

  pub read_blob : ℕ → Bytes → Exec (Impl T) Bytes
  unfolding get_or_throw
  read_blob tid id = get_or_throw tid id

  abbrev pub put_blob : ℕ → Bytes → Exec (Impl T) Bytes
  put_blob = put p

  abbrev pub read_blob_view : ℕ → Bytes → Exec (Impl T) (Option Bytes)
  read_blob_view = get_view p

  abbrev pub blob_size : ℕ → Bytes → Exec (Impl T) (Option ℕ)
  blob_size = size p

  abbrev pub has_tree : ℕ → Bytes → Exec (Impl T) Bool
  has_tree = has p

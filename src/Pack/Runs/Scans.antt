-- ===== src/Pack/Runs/Scans.antt =====
-- A scan of the meta table.
use nix_tarmac.Base.{◌≡◌, refl, true, none, List, [], ◌∷◌, inr}
use nix_tarmac.Base.Bytes.{Bytes, bytes_eq, bytes_lt}
use nix_tarmac.Base.Result.{runtime_error}
use nix_tarmac.Pack.Runs.Table.{Log, table_lmdb}
use nix_tarmac.Pack.State.{Impl, Db, batch_txn}
use nix_tarmac.Base.Exec.{Ends, pure}
use nix_tarmac.Pack.Meta.{starts_with, meta_scan}
use nix_tarmac.Pack.File.{LastFails}
use nix_tarmac.Pack.Meta.Scan.{prefixed, fold_records, Sees, meta_scan-fold}
use nix_tarmac.Pack.Runs.{the_platform, one_db, the_impl}

-- Two roots, and a record that is not one.
abbrev two_roots : Log
two_roots = (b'R' ∷ 1 ∷ [], 5 ∷ []) ∷ (b'R' ∷ 0 ∷ [], 6 ∷ []) ∷ (b'l' ∷ [], 7 ∷ []) ∷ []

abbrev rooted_db : Db Log
rooted_db = record one_db { meta = two_roots }

abbrev rooted : Impl Log
rooted = record (the_impl none) { committed = rooted_db }

rooted-Sees :
    Sees the_platform (λ key val (keys : List Bytes). key ∷ keys) (b'R' ∷ []) 7 rooted rooted_db
unfolding batch_txn
rooted-Sees = inr (refl, refl)

both_roots :
    fold_records
      (λ key val (keys : List Bytes). key ∷ keys)
      (prefixed (b'R' ∷ []) (table_lmdb.entries two_roots))
      []
    ≡ (b'R' ∷ 1 ∷ []) ∷ (b'R' ∷ 0 ∷ []) ∷ []
unfolding fold_records prefixed starts_with bytes_lt bytes_eq
both_roots = refl

meta_scan-fold_example :
    Ends
      (λ keys t.
        keys
        ≡ fold_records
            (λ key val (keys : List Bytes). key ∷ keys)
            (prefixed (b'R' ∷ []) (the_platform.lmdb.entries two_roots))
            [])
      (λ e t. (e ≡ runtime_error) × LastFails the_platform.kernel t.calls)
      (meta_scan the_platform 7 (b'R' ∷ []) (λ key val keys. pure (key ∷ keys, true)) [] rooted)
meta_scan-fold_example =
    meta_scan-fold the_platform (λ key val keys. key ∷ keys) (b'R' ∷ []) 7 [] rooted rooted_db
      rooted-Sees

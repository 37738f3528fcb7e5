-- ===== src/Plugin/Store.antt =====
-- `TarmacStore` of plugin/store.cc. The mutex of the store is held around what writes, so that the
-- methods are run one after the other.
use nix_tarmac.Base.{
  ℕ, Bool, true, false, Option, none, some, List, [], ◌∷◌, ◌++◌, ◌==◌, if◌then◌else◌, length, drop,
}
use nix_tarmac.Base.Bytes.{Bytes}
use nix_tarmac.Base.Text.{codes}
use nix_tarmac.Base.Result.{Result, ok, err, nix_error}
use nix_tarmac.Base.Exec.{Exec, pure, throw, lift, ◌>>=◌, ◌>>◌}
use nix_tarmac.TreeObject.{TreeEntry}
use nix_tarmac.Pack.Platform.{Platform}
use nix_tarmac.Pack.State.{Impl}
use nix_tarmac.Pack.Meta.{meta_put, meta_get, meta_del, meta_scan}
use nix_tarmac.Roots.{TreeStore, in_cas, register_root, touch_root, sync_store, put_tree, put_blob}
use nix_tarmac.Pack.Blobs.{get, has}
use nix_tarmac.Plugin.Record.{PathRecord, JsonLib, encode, decode}
use nix_tarmac.Plugin.Nix.{
  Nix, File, regular_file, symlink_file, directory_file, Entries, dir_end, dir_entry,
  SerialisationMethod, nix_archive, flat, PathInfo,
}

abbrev pub path_prefix : Bytes
path_prefix = codes "sp:"

abbrev pub drv_prefix : Bytes
drv_prefix = codes "sd:"

abbrev pub meta_key : Bytes → Bytes → Bytes
meta_key prefix path = prefix ++ path

-- What `accessorFor` makes: an accessor over a text, over a tree, or over a blob of a type.
pub data Accessor : Type 0 where
  over_text : Bytes → Accessor
  over_tree : Bytes → Accessor
  over_blob : ℕ → Bytes → Accessor

module _ {T : Type 0} (p : Platform T) (tid : ℕ) where
  mutual
    -- `ingest`: the type and the id.
    pub ingest : File → Exec (Impl T) (ℕ × Bytes)
    ingest (regular_file executable contents) =
        put_blob p tid contents >>= λ id. pure ((if executable then b'x' else b'r'), id)
    ingest (symlink_file target) = put_blob p tid target >>= λ id. pure (b's', id)
    ingest (directory_file entries) =
        ingest_entries entries >>= λ stored. put_tree p tid stored >>= λ id. pure (b'd', id)

    pub ingest_entries : Entries → Exec (Impl T) (List TreeEntry)
    ingest_entries dir_end = pure []
    ingest_entries (dir_entry name child entries) = ingest child >>= λ (type, id).
        ingest_entries entries >>= λ rest.
        pure (record { name = name; type = type; id = id } ∷ rest)

module _ {T : Type 0} {J : Type 0} (p : Platform T) (lib : JsonLib J) (tid now : ℕ) where
  -- The methods run in the store of the context, `state->store`.
  abbrev pub N : Type 0 → Type 0
  N A = Exec (TreeStore T) A

  unfoldable pub store_get : Bytes → Bytes → N (Option Bytes)
  store_get prefix path = in_cas p (meta_get p tid (meta_key prefix path))

  unfoldable pub store_put : Bytes → Bytes → Bytes → N (Unit {0})
  store_put prefix path val = in_cas p (meta_put p tid (meta_key prefix path) val)

  -- `pathRecord`, for a record that is there.
  unfoldable pub use_record : Bytes → PathRecord → N (Option PathRecord)
  use_record path rec = do
    there ← in_cas p (has p tid rec.root_id)
    if there
        then (do touch_root p tid now rec.root_id (rec.root_type == b'd'); pure (some rec))
        else (do in_cas p (meta_del p tid (meta_key path_prefix path)); pure none)

  unfoldable pub path_record : Bytes → N (Option PathRecord)
  unfolding use_record
  path_record path = do
    raw ← store_get path_prefix path
    elim raw [ none ↦ pure none | some val ↦ do rec ← lift (decode lib val); use_record path rec ]

  unfoldable pub drv_text : Bytes → N (Option Bytes)
  drv_text path = do
    found ← store_get drv_prefix path
    elim found [
      | none ↦ pure none
      | some id ↦ do
        contents ← in_cas p (get p tid id)
        elim contents [
          | none ↦ do in_cas p (meta_del p tid (meta_key drv_prefix path)); pure none
          | some out ↦ do touch_root p tid now id false; pure (some out)
        ]
    ]

  module _ {Drv Hash Ca : Type 0} (nix : Nix Drv Hash Ca) where
    unfoldable pub drv_path_info : Bytes → Bytes → Result (PathInfo Hash Ca)
    drv_path_info path out = elim (nix.parse_drv out path) [
      | err e ↦ err e
      | ok drv ↦
          let (hash, size) = nix.hash_nar (regular_file false out) in
          ok (record {
            path = path;
            nar_hash = hash;
            nar_size = size;
            ca = some (nix.text_ca out);
            references = nix.drv_references drv;
          })
    ]

    -- `StorePath{ref}` for each reference
    unfoldable pub store_paths : List Bytes → Result (List Bytes)
    store_paths [] = ok []
    store_paths (ref ∷ refs) = elim (nix.store_path ref) [
      | err e ↦ err e
      | ok path ↦ elim (store_paths refs) [ err e ↦ err e | ok paths ↦ ok (path ∷ paths) ]
    ]

    -- `ContentAddress::parse`, where there is one
    unfoldable pub record_ca : Bytes → Result (Option Ca)
    record_ca [] = ok none
    record_ca (c ∷ cs) = elim (nix.parse_ca (c ∷ cs)) [ err e ↦ err e | ok ca ↦ ok (some ca) ]

    unfoldable pub path_info : Bytes → PathRecord → N (PathInfo Hash Ca)
    path_info path rec = do
      hash ← lift (nix.parse_sri rec.nar_hash)
      ca ← lift (record_ca rec.ca)
      references ← lift (store_paths rec.refs)
      pure (record {
        path = path;
        nar_hash = hash;
        nar_size = rec.nar_size;
        ca = ca;
        references = references;
      })

    -- The callback gets the answer, or the exception.
    unfoldable pub query_path_info : Bytes → N (Option (PathInfo Hash Ca))
    query_path_info path =
        if nix.is_derivation path
        then (do
          found ← drv_text path
          elim found [
            | none ↦ pure none
            | some out ↦ lift (drv_path_info path out) >>= λ info. pure (some info)
          ])
        else (do
          found ← path_record path
          elim found [
            | none ↦ pure none
            | some rec ↦ path_info path rec >>= λ info. pure (some info)
          ])

    unfoldable pub is_valid_path : Bytes → N Bool
    is_valid_path path =
        if nix.is_derivation path
        then (do found ← drv_text path; pure (elim found [ none ↦ false | some out ↦ true ]))
        else (do found ← path_record path; pure (elim found [ none ↦ false | some rec ↦ true ]))

    -- The callback of the scan: the first key that starts with the hash part ends it.
    unfoldable pub first_path : Bytes → Bytes → N (Option Bytes)
    first_path prefix hash_part = in_cas p (
        meta_scan p tid (prefix ++ hash_part)
          (λ key val res. do
            path ← lift (nix.store_path (drop (length prefix) key))
            pure (some path, false))
          none)

    unfoldable pub query_path_from_hash_part : Bytes → N (Option Bytes)
    unfolding first_path
    query_path_from_hash_part hash_part = do
      res ← first_path path_prefix hash_part
      elim res [ some path ↦ pure (some path) | none ↦ first_path drv_prefix hash_part ]

    unfoldable pub reject_repair : Bool → N (Unit {0})
    reject_repair repair = if repair then throw nix_error else pure tt

    unfoldable pub record_for : PathInfo Hash Ca → ℕ → Bytes → PathRecord
    record_for info type id = record {
      root_type = type;
      root_id = id;
      nar_hash = nix.sri info.nar_hash;
      nar_size = info.nar_size;
      ca = nix.render_ca info.ca;
      refs = info.references;
    }

    unfoldable pub store_object : PathInfo Hash Ca → File → N (Unit {0})
    store_object info file = do
      (type, id) ← in_cas p (ingest p tid file)
      let rec = record_for info type id
      register_root p tid now id (type == b'd')
      val ← lift (encode lib rec)
      store_put path_prefix info.path val
      sync_store p tid

    -- `storeObject`, unless the path has a record.
    unfoldable pub store_new : PathInfo Hash Ca → File → N (Unit {0})
    store_new info file = do
      found ← path_record info.path
      elim found [ some rec ↦ pure tt | none ↦ store_object info file ]

    unfoldable pub write_derivation : Drv → N Bytes
    write_derivation drv = do
      path ← lift (nix.compute_store_path drv)
      found ← drv_text path
      elim found [
        | some out ↦ pure path
        | none ↦ do
          id ← in_cas p (put_blob p tid (nix.unparse_drv drv))
          register_root p tid now id false
          store_put drv_prefix path id
          sync_store p tid
          pure path
      ]

    -- `accessor->readFile(root)`
    unfoldable pub file_contents : File → Result Bytes
    file_contents (regular_file executable contents) = ok contents
    file_contents (symlink_file target) = err nix_error
    file_contents (directory_file entries) = err nix_error

    unfoldable pub add_to_store : PathInfo Hash Ca → Bytes → Bool → N (Unit {0})
    unfolding store_new reject_repair
    add_to_store info source repair = do
      reject_repair repair
      file ← lift (nix.parse_dump source)
      if nix.is_derivation info.path
          then (do
            contents ← lift (file_contents file)
            drv ← lift (nix.parse_drv contents info.path)
            write_derivation drv
            pure tt)
          else store_new info file

    unfoldable pub parse_to_memory : Bytes → SerialisationMethod → Result File
    parse_to_memory source nix_archive = nix.parse_dump source
    parse_to_memory source flat = ok (regular_file false source)

    -- The content address of the method is made by `make_from_ca`.
    unfoldable pub add_to_store_from_dump :
        Bytes → Bytes → SerialisationMethod → Bytes → List Bytes → Bool → N Bytes
    unfolding store_new reject_repair
    add_to_store_from_dump source name dump_method hash_method references repair =
        if nix.is_derivation name then throw nix_error else (do
          reject_repair repair
          file ← lift (parse_to_memory source dump_method)
          let (nar_hash, nar_size) = nix.hash_nar file
          made ← lift (nix.make_from_ca name hash_method file references nar_hash)
          let info = record made { nar_size = nar_size }
          store_new info file
          pure info.path)

    unfoldable pub read_derivation : Bytes → N Drv
    read_derivation path = do
      found ← drv_text path
      elim found [ none ↦ throw nix_error | some out ↦ lift (nix.parse_drv out path) ]

    unfoldable pub accessor_for : Bytes → N (Option Accessor)
    accessor_for path =
        if nix.is_derivation path
        then (do
          found ← drv_text path
          pure (elim found [ none ↦ none | some out ↦ some (over_text out) ]))
        else (do
          found ← path_record path
          pure (elim found [
            | none ↦ none
            | some rec ↦ some (
                if rec.root_type == b'd'
                then over_tree rec.root_id
                else over_blob rec.root_type rec.root_id)
          ]))

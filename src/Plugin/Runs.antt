-- ===== src/Plugin/Runs.antt =====
-- An accessor of a corrupt store, and a path record.
use nix_tarmac.Base.{ℕ, ◌≡◌, refl, true, false, none, some, List, [], ◌∷◌, arith}
use nix_tarmac.Base.Bytes.{Bytes, bytes_eq, bytes_lt}
use nix_tarmac.Base.Text.{codes}
use nix_tarmac.Base.Result.{Result, ok, err, corrupt, json_error}
use nix_tarmac.Base.Exec.{returns, throws}
use nix_tarmac.TreeObject.{TreeEntry}
use nix_tarmac.Paths.{split_path}
use nix_tarmac.Paths.Canonical.{join, split_path-AreComponents, split_path-join}
use nix_tarmac.Paths.Runs.{outside_kept_inside}
use nix_tarmac.Walker.{find_tree, find_entry, lower_bound, walk, tree, lookup}
use nix_tarmac.Plugin.Accessor.{
  Reader, PackAccessor, healing, find, read_file, path_exists, read_directory, read_link,
}
use nix_tarmac.Plugin.Accessor.Healing.{Healed, methods-Healed}
use nix_tarmac.Plugin.Record.{
  PathRecord, Value, string, number, strings, member, JsonLib, record_fields, encode, decode,
  decode-encode,
}

abbrev the_file : TreeEntry
the_file = record { name = b'a' ∷ []; type = b'x'; id = 2 ∷ [] }

-- Only the tree of the root can be read.
abbrev bad_reader : Reader (Unit {0})
bad_reader = record {
  read_tree = λ id s. returns (the_file ∷ []) s;
  read_blob = λ id s. throws corrupt s;
  read_blob_view = λ id s. throws corrupt s;
  blob_size = λ id s. throws corrupt s;
}

abbrev accessor : List (Bytes × List TreeEntry) → PackAccessor (Unit {0})
accessor cache = record {
  walker = record { store = tt; cache = cache };
  root = 1 ∷ [];
  on_corrupt = true;
  healed = false;
}

abbrev path_a : List Bytes
path_a = (b'a' ∷ []) ∷ []

methods-Healed_example :
    Healed (read_file bad_reader path_a (accessor []))
    × Healed (path_exists bad_reader path_a (accessor []))
    × Healed (read_directory bad_reader path_a (accessor []))
    × Healed (read_link bad_reader path_a (accessor []))
methods-Healed_example = methods-Healed bad_reader path_a (accessor [])

path_a_split : split_path (join path_a) ≡ some path_a
path_a_split =
    split_path-join path_a
      (split_path-AreComponents (b'.' ∷ b'.' ∷ b'/' ∷ b'a' ∷ []) path_a outside_kept_inside)

find_a :
    find bad_reader path_a (accessor [])
    ≡ returns (some the_file) (accessor ((1 ∷ [], the_file ∷ []) ∷ []))
unfolding find healing lookup walk tree find_tree find_entry lower_bound bytes_eq bytes_lt
find_a = rw (path_a_split, find, healing, lookup) refl

abbrev the_record : PathRecord
the_record = record {
  root_type = b'd';
  root_id = 1 ∷ 171 ∷ [];
  nar_hash = codes "sha256-AAAA";
  nar_size = 112;
  ca = [];
  refs = codes "b-lib" ∷ [];
}

-- A JSON value is what it was made of; every text stands for that record.
data Json : Type 0 where
  fields_json : List (Bytes × Value) → Json
  value_json : Value → Json

abbrev at_json : Bytes → Json → Result Json
at_json key (fields_json fields) = elim (member key fields) [
  | none ↦ err json_error
  | some v ↦ ok (value_json v)
]
at_json key (value_json v) = err json_error

abbrev string_json : Json → Result Bytes
string_json (value_json (string s)) = ok s
string_json json = err json_error

abbrev number_json : Json → Result ℕ
number_json (value_json (number n)) = ok n
number_json json = err json_error

abbrev strings_json : Json → Result (List Bytes)
strings_json (value_json (strings ss)) = ok ss
strings_json json = err json_error

at_json-fields :
    (key : Bytes) (v : Value) (fields : List (Bytes × Value))
    → member key fields ≡ some v
    → at_json key (fields_json fields) ≡ ok (value_json v)
at_json-fields key v fields e = rw (e, at_json) refl

abbrev one_json : JsonLib Json
one_json = record {
  object = fields_json;
  value = value_json;
  dump = λ json. ok (codes "{}");
  parse = λ val. ok (fields_json (record_fields the_record));
  at = at_json;
  get_string = string_json;
  get_number = number_json;
  get_strings = strings_json;
  at-object = at_json-fields;
  get_string-value = λ s. refl;
  get_number-value = λ n fits. refl;
  get_strings-value = λ ss. refl;
}

decode-encode_example : decode one_json (codes "{}") ≡ ok the_record
unfolding encode
decode-encode_example =
    decode-encode one_json the_record (codes "{}") (ground arith) (omega arith) refl (λ e. refl)

-- ===== src/Plugin/Record.antt =====
-- `PathRecord` of plugin/store.cc. nlohmann::json is a parameter.
use nix_tarmac.Base.{ℕ, ◌<◌, ◌^◌, ◌≡◌, refl, Option, none, some, List, [], ◌∷◌, if◌then◌else◌}
use nix_tarmac.Base.Bytes.{Bytes, IsBytes, bytes_eq}
use nix_tarmac.Base.Text.{codes}
use nix_tarmac.Base.Result.{Result, ok, err, json_error, ◌>>=◌}
use nix_tarmac.Hex.{to_hex, from_hex}
use nix_tarmac.Hex.RoundTrip.{from_hex-to_hex}

pub record PathRecord : Type 0 where
  pub root_type : ℕ
  pub root_id : Bytes
  pub nar_hash : Bytes
  pub nar_size : ℕ
  pub ca : Bytes
  pub refs : List Bytes

-- The values of the members that `encode` makes an object of.
pub data Value : Type 0 where
  string : Bytes → Value
  number : ℕ → Value
  strings : List Bytes → Value

unfoldable pub member : Bytes → List (Bytes × Value) → Option Value
member key [] = none
member key ((k, value) ∷ fields) =
    let rest = member key fields in if bytes_eq k key then some value else rest

-- nlohmann::json. `dump` throws at text that is not UTF-8, `at` at a missing key, and a `get` at a
-- value of another type.
pub record JsonLib (J : Type 0) : Type 0 where
  pub object : List (Bytes × Value) → J
  pub value : Value → J
  pub dump : J → Result Bytes
  pub parse : Bytes → Result J
  pub at : Bytes → J → Result J
  pub get_string : J → Result Bytes
  pub get_number : J → Result ℕ
  pub get_strings : J → Result (List Bytes)
  pub at-object :
      (key : Bytes) (v : Value) (fields : List (Bytes × Value))
      → member key fields ≡ some v
      → at key (object fields) ≡ ok (value v)
  pub get_string-value : (s : Bytes) → get_string (value (string s)) ≡ ok s
  pub get_number-value : (n : ℕ) → n < 2 ^ 64 → get_number (value (number n)) ≡ ok n
  pub get_strings-value : (ss : List Bytes) → get_strings (value (strings ss)) ≡ ok ss

-- `at(0)` of a string
unfoldable pub first_char : Bytes → Result ℕ
first_char [] = err json_error
first_char (c ∷ s) = ok c

unfoldable pub record_fields : PathRecord → List (Bytes × Value)
record_fields rec =
    (codes "t", string (rec.root_type ∷ []))
    ∷ (codes "root", string (to_hex rec.root_id))
    ∷ (codes "narHash", string rec.nar_hash)
    ∷ (codes "narSize", number rec.nar_size)
    ∷ (codes "ca", string rec.ca)
    ∷ (codes "refs", strings rec.refs)
    ∷ []

module _ {J : Type 0} (lib : JsonLib J) where
  unfoldable pub encode : PathRecord → Result Bytes
  encode rec = lib.dump (lib.object (record_fields rec))

  unfoldable pub from_json : J → Result PathRecord
  from_json json = do
    root_type ← lib.at (codes "t") json >>= lib.get_string >>= first_char
    root_id ← lib.at (codes "root") json >>= lib.get_string >>= from_hex
    nar_hash ← lib.at (codes "narHash") json >>= lib.get_string
    nar_size ← lib.at (codes "narSize") json >>= lib.get_number
    ca ← lib.at (codes "ca") json >>= lib.get_string
    refs ← lib.at (codes "refs") json >>= lib.get_strings
    ok (record {
      root_type = root_type;
      root_id = root_id;
      nar_hash = nar_hash;
      nar_size = nar_size;
      ca = ca;
      refs = refs;
    })

  unfoldable pub decode : Bytes → Result PathRecord
  decode val = lib.parse val >>= from_json

  module _ (rec : PathRecord) where
    string_at :
        (key s : Bytes)
        → member key (record_fields rec) ≡ some (string s)
        → (lib.at key (lib.object (record_fields rec)) >>= lib.get_string) ≡ ok s
    string_at key s e =
        rw (lib.at-object key (string s) (record_fields rec) e) (lib.get_string-value s)

    number_at :
        (key : Bytes) (n : ℕ)
        → n < 2 ^ 64
        → member key (record_fields rec) ≡ some (number n)
        → (lib.at key (lib.object (record_fields rec)) >>= lib.get_number) ≡ ok n
    number_at key n fits e =
        rw (lib.at-object key (number n) (record_fields rec) e) (lib.get_number-value n fits)

    strings_at :
        (key : Bytes) (ss : List Bytes)
        → member key (record_fields rec) ≡ some (strings ss)
        → (lib.at key (lib.object (record_fields rec)) >>= lib.get_strings) ≡ ok ss
    strings_at key ss e =
        rw (lib.at-object key (strings ss) (record_fields rec) e) (lib.get_strings-value ss)

    -- A record whose id is a string of bytes and whose size fits 64 bits is decoded from what `encode`
    -- wrote, where `parse` gives back the object that `dump` wrote.
    pub decode-encode :
        (val : Bytes)
        → IsBytes rec.root_id
        → rec.nar_size < 2 ^ 64
        → encode rec ≡ ok val
        → (lib.dump (lib.object (record_fields rec)) ≡ ok val
            → lib.parse val ≡ ok (lib.object (record_fields rec)))
        → decode val ≡ ok rec
    unfolding encode decode from_json member record_fields bytes_eq first_char
    decode-encode val h fits e parse-dump =
        rw
          (
            parse-dump e,
            string_at (codes "t") (rec.root_type ∷ []) refl,
            string_at (codes "root") (to_hex rec.root_id) refl,
            from_hex-to_hex rec.root_id h,
            string_at (codes "narHash") rec.nar_hash refl,
            number_at (codes "narSize") rec.nar_size fits refl,
            string_at (codes "ca") rec.ca refl,
            strings_at (codes "refs") rec.refs refl,
          )
          refl

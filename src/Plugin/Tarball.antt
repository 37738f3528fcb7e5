-- ===== src/Plugin/Tarball.antt =====
-- The input scheme of plugin/tarmac.cc: how a URL becomes an input and an input a URL. URLs and hashes
-- are Nix's: their parsing and printing is a parameter.
pub mod Keys
pub mod Moved
pub mod Url
mod Runs
use nix_tarmac.Base.{
  ℕ, ◌-◌, Bool, true, false, ◌&&◌, ◌||◌, Option, none, some, List, [], ◌∷◌, length, drop, leb,
  if◌then◌else◌,
}
use nix_tarmac.Base.Bytes.{Bytes, bytes_eq, bytes_lt}
use nix_tarmac.Base.Result.{Result, ok, err, nix_error, ◌>>=◌}
use nix_tarmac.Base.Text.{codes}

-- A std::map from strings: the list is in the order of its keys.
module _ {V : Type 0} where
  unfoldable pub find_key : Bytes → List (Bytes × V) → Option V
  find_key key [] = none
  find_key key ((k, v) ∷ rest) = if bytes_eq k key then some v else find_key key rest

  unfoldable pub erase_key : Bytes → List (Bytes × V) → List (Bytes × V)
  erase_key key [] = []
  erase_key key ((k, v) ∷ rest) =
      let rest' = erase_key key rest in if bytes_eq k key then rest' else (k, v) ∷ rest'

  -- `insert_or_assign`
  unfoldable pub assign_key : Bytes → V → List (Bytes × V) → List (Bytes × V)
  assign_key key new [] = (key, new) ∷ []
  assign_key key new ((k, v) ∷ rest) =
      let rest' = assign_key key new rest in
      if bytes_eq k key
      then (key, new) ∷ rest
      else if bytes_lt key k
      then (key, new) ∷ (k, v) ∷ rest
      else (k, v) ∷ rest'

-- nix::ParsedURL
pub record ParsedUrl : Type 0 where
  pub scheme : Bytes
  pub authority : Option Bytes
  pub path : List Bytes
  pub query : List (Bytes × Bytes)
  pub fragment : Bytes

-- nix::fetchers::Attr
pub data Attr : Type 0 where
  string : Bytes → Attr
  integer : ℕ → Attr
  boolean : Bool → Attr

abbrev pub Attrs : Type 0
Attrs = List (Bytes × Attr)

-- `parse_scheme` gives the application, if there is one, and the transport; `get_nar_hash` the hash of
-- an input in its SRI form.
pub record NixUrls : Type 0 where
  pub parse_scheme : Bytes → Option Bytes × Bytes
  pub parse_url : Bytes → Result ParsedUrl
  pub url_to_string : ParsedUrl → Bytes
  pub string_to_int : Bytes → Option ℕ
  pub get_nar_hash : Attrs → Result (Option Bytes)

abbrev suffixes : List Bytes
suffixes =
    codes ".tar"
    ∷ codes ".tgz"
    ∷ codes ".tar.gz"
    ∷ codes ".tar.xz"
    ∷ codes ".tar.bz2"
    ∷ codes ".tar.zst"
    ∷ []

unfoldable pub ends_with : Bytes → Bytes → Bool
ends_with name suffix =
    leb (length suffix) (length name) && bytes_eq (drop (length name - length suffix) name) suffix

unfoldable pub ends_with_any : List Bytes → Bytes → Bool
ends_with_any [] name = false
ends_with_any (suffix ∷ rest) name = ends_with name suffix || ends_with_any rest name

unfoldable pub has_tarball_extension : List Bytes → Bool
has_tarball_extension [] = false
has_tarball_extension (name ∷ []) = ends_with_any suffixes name
has_tarball_extension (name ∷ next ∷ path) = has_tarball_extension (next ∷ path)

abbrev is_transport : Bytes → Bool
is_transport scheme =
    bytes_eq scheme (codes "http")
    || bytes_eq scheme (codes "https")
    || bytes_eq scheme (codes "file")

abbrev pub scheme_name : Bytes
scheme_name = codes "tarball"

-- Whether the scheme takes a URL.
unfoldable pub applies : Option Bytes → Bool → List Bytes → Bool
applies (some application) require_tree path = bytes_eq application scheme_name
applies none require_tree path = require_tree || has_tarball_extension path

-- `nix::fetchers::getStrAttr`
unfoldable pub get_str_attr : Attrs → Bytes → Result Bytes
get_str_attr attrs name = elim (find_key name attrs) [
  | none ↦ err nix_error
  | some attr ↦ elim attr [
    | string s ↦ ok s
    | integer n ↦ err nix_error
    | boolean b ↦ err nix_error
  ]
]

-- A parameter of the query moves to the attributes, as a string.
unfoldable pub move_string : Bytes → Attrs × ParsedUrl → Attrs × ParsedUrl
move_string attr (attrs, url) = elim (find_key attr url.query) [
  | none ↦ (attrs, url)
  | some value ↦
      (assign_key attr (string value) attrs, record url { query = erase_key attr url.query })
]

module _ (nix : NixUrls) where
  -- As a number; what is no number is dropped.
  unfoldable pub move_integer : Bytes → Attrs × ParsedUrl → Attrs × ParsedUrl
  move_integer attr (attrs, url) = elim (find_key attr url.query) [
    | none ↦ (attrs, url)
    | some value ↦ (
      elim (nix.string_to_int value) [ none ↦ attrs | some n ↦ assign_key attr (integer n) attrs ],
      record url { query = erase_key attr url.query },
    )
  ]

  -- The end of `inputFromURL`, for a URL that the scheme takes.
  unfoldable pub input_of : ParsedUrl → Attrs
  unfolding move_string move_integer
  input_of url =
      let (attrs, rest) = move_integer (codes "lastModified") (
        move_integer (codes "revCount")
          (move_string (codes "rev") (move_string (codes "narHash") ([], url)))) in
      assign_key (codes "url") (string (nix.url_to_string rest))
        (assign_key (codes "type") (string scheme_name) attrs)

  unfoldable pub input_from_url : ParsedUrl → Bool → Option Attrs
  unfolding applies input_of
  input_from_url orig_url require_tree =
      let (application, transport) = nix.parse_scheme orig_url.scheme in
      if is_transport transport && applies application require_tree orig_url.path
      then some (input_of (record orig_url { scheme = transport }))
      else none

  unfoldable pub input_from_attrs : Attrs → Option Attrs
  input_from_attrs attrs = some attrs

  unfoldable pub to_url : Attrs → Result ParsedUrl
  unfolding get_str_attr
  to_url attrs = do
    text ← get_str_attr attrs (codes "url")
    url ← nix.parse_url text
    nar_hash ← nix.get_nar_hash attrs
    elim nar_hash [
      | none ↦ ok url
      | some sri ↦ ok (record url { query = assign_key (codes "narHash") sri url.query })
    ]

  unfoldable pub is_locked : Attrs → Result Bool
  is_locked attrs = do
    nar_hash ← nix.get_nar_hash attrs
    elim nar_hash [ none ↦ ok false | some sri ↦ ok true ]

  unfoldable pub get_fingerprint : Attrs → Result (Option Bytes)
  get_fingerprint attrs = nix.get_nar_hash attrs

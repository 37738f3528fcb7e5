-- ===== src/Plugin/Tarball/Runs.antt =====
-- A locked URL of a tarball.
use nix_tarmac.Base.{◌≡◌, refl, sym, ap, false, Option, none, some, [], ◌∷◌}
use nix_tarmac.Base.Bytes.{Bytes, bytes_eq, bytes_lt}
use nix_tarmac.Base.Result.{Result, ok, err, nix_error}
use nix_tarmac.Base.Text.{codes}
use nix_tarmac.Plugin.Tarball.{
  find_key, erase_key, assign_key, ParsedUrl, Attr, string, integer, boolean, Attrs, NixUrls,
  applies, has_tarball_extension, ends_with, ends_with_any, move_string, move_integer, input_of,
  input_from_url, to_url,
}
use nix_tarmac.Plugin.Tarball.Moved.{bare}
use nix_tarmac.Plugin.Tarball.Url.{UrlLaws, on_transport, IsSource, to_url-input_from_url}

-- "https://h/a.tar.gz?narHash=x&rev=1"
abbrev the_url : ParsedUrl
the_url = record {
  scheme = codes "https";
  authority = some (codes "h");
  path = codes "a.tar.gz" ∷ [];
  query = (codes "narHash", codes "x") ∷ (codes "rev", codes "1") ∷ [];
  fragment = [];
}

abbrev bare_url : ParsedUrl
bare_url = record the_url { query = [] }

abbrev hash_of : Option Attr → Result (Option Bytes)
hash_of none = ok none
hash_of (some (string s)) = ok (some s)
hash_of (some (integer n)) = err nix_error
hash_of (some (boolean b)) = err nix_error

-- It knows this URL only.
abbrev one_url : NixUrls
one_url = record {
  parse_scheme = λ scheme. (none, scheme);
  parse_url = λ text. ok bare_url;
  url_to_string = λ url. codes "https://h/a.tar.gz";
  string_to_int = λ text. none;
  get_nar_hash = λ attrs. hash_of (find_key (codes "narHash") attrs);
}

abbrev one_url_laws : UrlLaws one_url
one_url_laws = record {
  IsUrl = λ url. url ≡ bare_url;
  IsSri = λ sri. Unit {0};
  parse_url-url_to_string = λ url is_url. ap ok (sym is_url);
  get_nar_hash-none = λ attrs missing. ap hash_of missing;
  get_nar_hash-string = λ attrs sri is_sri there. ap hash_of there;
}

bare_is : bare (on_transport one_url the_url) ≡ bare_url
unfolding erase_key bytes_eq
bare_is = refl

abbrev the_attrs : Attrs
the_attrs =
    (codes "narHash", string (codes "x"))
    ∷ (codes "rev", string (codes "1"))
    ∷ (codes "type", string (codes "tarball"))
    ∷ (codes "url", string (codes "https://h/a.tar.gz"))
    ∷ []

taken : input_from_url one_url the_url false ≡ some the_attrs
unfolding input_from_url applies has_tarball_extension ends_with ends_with_any input_of move_string
    move_integer find_key erase_key assign_key bytes_eq bytes_lt
taken = refl

-- Without an extension of a tarball only a tree may be meant.
not_taken : input_from_url one_url (record the_url { path = codes "a" ∷ [] }) false ≡ none
unfolding input_from_url applies has_tarball_extension ends_with ends_with_any bytes_eq
not_taken = refl

to_url-input_from_url_example :
    (url : ParsedUrl) × (to_url one_url the_attrs ≡ ok url) × IsSource one_url the_url url
to_url-input_from_url_example =
    to_url-input_from_url one_url one_url_laws the_url false the_attrs taken bare_is
      (λ sri there. tt)

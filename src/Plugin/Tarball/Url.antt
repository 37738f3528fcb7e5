-- ===== src/Plugin/Tarball/Url.antt =====
-- From a URL to an input and back.
use nix_tarmac.Base.{
  ◌≡◌, refl, sym, ap, ◌∙◌, subst, Bool, true, false, ◌||◌, none, some, if◌then◌else◌, arith, inl,
  inr, Bool-cases, Option-cases,
}
use nix_tarmac.Base.Bytes.{Bytes, bytes_eq, bytes_eq_iff}
use nix_tarmac.Base.Result.{ok}
use nix_tarmac.Base.Text.{codes}
use nix_tarmac.Plugin.Tarball.{
  find_key, assign_key, ParsedUrl, string, Attrs, NixUrls, input_of, input_from_url, to_url,
}
use nix_tarmac.Plugin.Tarball.Keys.{find_key-assign_key, find_key-erase_key}
use nix_tarmac.Plugin.Tarball.Moved.{
  without, bare, move_string-attrs, input_of-url, input_of-nar_hash,
}

-- What Nix says of its parsing and printing.
pub record UrlLaws (nix : NixUrls) : Type 1 where
  pub IsUrl : ParsedUrl → Type 0
  pub IsSri : Bytes → Type 0
  pub parse_url-url_to_string :
      (url : ParsedUrl) → IsUrl url → nix.parse_url (nix.url_to_string url) ≡ ok url
  pub get_nar_hash-none :
      (attrs : Attrs) → find_key (codes "narHash") attrs ≡ none → nix.get_nar_hash attrs ≡ ok none
  pub get_nar_hash-string :
      (attrs : Attrs) (sri : Bytes)
      → IsSri sri
      → find_key (codes "narHash") attrs ≡ some (string sri)
      → nix.get_nar_hash attrs ≡ ok (some sri)

module _ (nix : NixUrls) where
  -- The parameters that `toURL` does not give back.
  abbrev pub is_dropped : Bytes → Bool
  is_dropped key =
      bytes_eq (codes "rev") key
      || bytes_eq (codes "revCount") key
      || bytes_eq (codes "lastModified") key

  -- The URL of the input: that of the user, with the transport as its scheme and without these.
  pub record IsSource (orig : ParsedUrl) (url : ParsedUrl) : Type 0 where
    pub same_scheme : url.scheme ≡ (nix.parse_scheme orig.scheme).1
    pub same_authority : url.authority ≡ orig.authority
    pub same_path : url.path ≡ orig.path
    pub same_fragment : url.fragment ≡ orig.fragment
    pub same_query :
        (key : Bytes)
        → find_key key url.query ≡ (if is_dropped key then none else find_key key orig.query)

  abbrev pub on_transport : ParsedUrl → ParsedUrl
  on_transport orig = record orig { scheme = (nix.parse_scheme orig.scheme).1 }

  bare-query :
      (key : Bytes) (url : ParsedUrl)
      → find_key key (bare url).query ≡ (
          if is_dropped key || bytes_eq (codes "narHash") key then none else find_key key url.query)
  bare-query key url = ground (
    arith,
    find_key-erase_key key (codes "lastModified")
        (without (codes "revCount") (without (codes "rev") (without (codes "narHash") url))).query,
    find_key-erase_key key (codes "revCount")
        (without (codes "rev") (without (codes "narHash") url)).query,
    find_key-erase_key key (codes "rev") (without (codes "narHash") url).query,
    find_key-erase_key key (codes "narHash") url.query,
  )

  nar_hash-missing :
      (url : ParsedUrl)
      → find_key (codes "narHash") url.query ≡ none
      → find_key (codes "narHash") (input_of nix url) ≡ none
  unfolding find_key
  nar_hash-missing url missing =
      input_of-nar_hash nix url
      ∙ ap (find_key (codes "narHash")) (rw missing at (move_string-attrs (codes "narHash") url))

  nar_hash-there :
      (url : ParsedUrl) (sri : Bytes)
      → find_key (codes "narHash") url.query ≡ some sri
      → find_key (codes "narHash") (input_of nix url) ≡ some (string sri)
  unfolding find_key bytes_eq
  nar_hash-there url sri there =
      input_of-nar_hash nix url
      ∙ ap (find_key (codes "narHash")) (rw there at (move_string-attrs (codes "narHash") url))

  hash_kept :
      (url : ParsedUrl) (sri : Bytes)
      → find_key (codes "narHash") url.query ≡ some sri
      → some sri
        ≡ (if is_dropped (codes "narHash") then none else find_key (codes "narHash") url.query)
  unfolding bytes_eq
  hash_kept url sri there = sym there

  or_false : (b : Bool) → (b || false) ≡ b
  or_false true = refl
  or_false false = refl

  -- The hash stands where it stood.
  with_hash :
      (key : Bytes) (url : ParsedUrl) (sri : Bytes)
      → find_key (codes "narHash") url.query ≡ some sri
      → (if bytes_eq (codes "narHash") key then some sri else find_key key (bare url).query)
        ≡ (if is_dropped key then none else find_key key url.query)
  with_hash key url sri there = elim (Bool-cases (bytes_eq (codes "narHash") key)) [
    | inr other ↦ rw other (
        bare-query key url
        ∙ ap (λ b. if b then none else find_key key url.query)
            (ap (λ b. is_dropped key || b) other ∙ or_false (is_dropped key)))
    | inl same ↦ rw same (
        subst (λ k. some sri ≡ (if is_dropped k then none else find_key k url.query))
          ((bytes_eq_iff (codes "narHash") key).0 same) (hash_kept url sri there))
  ]

  to_url-input_of :
      (laws : UrlLaws nix) (orig : ParsedUrl)
      → laws.IsUrl (bare (on_transport orig))
      → ((sri : Bytes) → find_key (codes "narHash") orig.query ≡ some sri → laws.IsSri sri)
      → (url : ParsedUrl) × (to_url nix (input_of nix (on_transport orig)) ≡ ok url)
        × IsSource orig url
  unfolding to_url
  to_url-input_of laws orig is_url is_sri =
      let url = on_transport orig in
      let text = input_of-url nix url in
      let parsed = laws.parse_url-url_to_string (bare url) is_url in
      elim (Option-cases (find_key (codes "narHash") orig.query)) [
        | inl missing ↦
            let no_hash =
              laws.get_nar_hash-none (input_of nix url) (nar_hash-missing url missing) in
            (
              bare url,
              rw (text, parsed, no_hash) refl,
              record {
                same_scheme = refl;
                same_authority = refl;
                same_path = refl;
                same_fragment = refl;
                same_query = λ key.
                    ground (arith, bare-query key url, missing, bytes_eq_iff (codes "narHash") key);
              },
            )
        | inr (sri, there) ↦
            let hash =
              laws.get_nar_hash-string (input_of nix url) sri (is_sri sri there)
                (nar_hash-there url sri there) in
            (
              record (bare url) { query = assign_key (codes "narHash") sri (bare url).query },
              rw (text, parsed, hash) refl,
              record {
                same_scheme = refl;
                same_authority = refl;
                same_path = refl;
                same_fragment = refl;
                same_query = λ key.
                    find_key-assign_key key (codes "narHash") sri (bare url).query
                    ∙ with_hash key orig sri there;
              },
            )
      ]

  -- What `inputFromURL` takes, `toURL` gives back as a URL: its scheme is the transport, its authority,
  -- path and fragment are those of the user's URL, and so are all parameters of the query, narHash
  -- included, but for rev, revCount and lastModified, which are gone. That Nix reads back the URL it
  -- printed for the input, and the hash of the query, is assumed.
  pub to_url-input_from_url :
      (laws : UrlLaws nix) (orig : ParsedUrl) (require_tree : Bool) (attrs : Attrs)
      → input_from_url nix orig require_tree ≡ some attrs
      → laws.IsUrl (bare (on_transport orig))
      → ((sri : Bytes) → find_key (codes "narHash") orig.query ≡ some sri → laws.IsSri sri)
      → (url : ParsedUrl) × (to_url nix attrs ≡ ok url) × IsSource orig url
  unfolding input_from_url
  to_url-input_from_url laws orig require_tree attrs e is_url is_sri =
      let attrs_are : input_of nix (on_transport orig) ≡ attrs = ground (arith, e) in
      rw (← attrs_are) (to_url-input_of laws orig is_url is_sri)

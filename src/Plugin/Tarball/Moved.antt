-- ===== src/Plugin/Tarball/Moved.antt =====
-- What becomes of the parameters of the query in an input.
use nix_tarmac.Base.{◌≡◌, refl, sym, ap, ◌∙◌, false, none, some, [], ◌∷◌, inl, inr, Option-cases}
use nix_tarmac.Base.Bytes.{Bytes, bytes_eq}
use nix_tarmac.Base.Result.{ok}
use nix_tarmac.Base.Text.{codes}
use nix_tarmac.Plugin.Tarball.{
  find_key, erase_key, assign_key, ParsedUrl, string, integer, Attrs, NixUrls, get_str_attr,
  move_string, move_integer, input_of,
}
use nix_tarmac.Plugin.Tarball.Keys.{find_key-assign_key, erase_key-absent}

abbrev pub without : Bytes → ParsedUrl → ParsedUrl
without attr url = record url { query = erase_key attr url.query }

-- Without the four parameters that become attributes.
abbrev pub bare : ParsedUrl → ParsedUrl
bare url =
    without (codes "lastModified")
      (without (codes "revCount") (without (codes "rev") (without (codes "narHash") url)))

without-absent :
    (attr : Bytes) (url : ParsedUrl) → find_key attr url.query ≡ none → url ≡ without attr url
without-absent attr url e =
    ap (λ q. record url { query = q }) (sym (erase_key-absent attr url.query e))

move_string-url :
    (attr : Bytes) (attrs : Attrs) (url : ParsedUrl)
    → (move_string attr (attrs, url)).1 ≡ without attr url
unfolding move_string
move_string-url attr attrs url = elim (Option-cases (find_key attr url.query)) [
  | inl missing ↦ rw (missing, move_string) (without-absent attr url missing)
  | inr (value, there) ↦ rw (there, move_string) refl
]

pub move_string-attrs :
    (attr : Bytes) (url : ParsedUrl)
    → (move_string attr ([], url)).0 ≡ (elim (find_key attr url.query) as (λ _. Attrs) [
      | none ↦ []
      | some v ↦ (attr, string v) ∷ []
    ])
unfolding move_string assign_key
move_string-attrs attr url = elim (Option-cases (find_key attr url.query)) [
  | inl missing ↦ rw (missing, move_string) refl
  | inr (value, there) ↦ rw (there, move_string) refl
]

-- The attributes of other names stay.
move_string-other :
    (attr j : Bytes) (attrs : Attrs) (url : ParsedUrl)
    → bytes_eq attr j ≡ false
    → find_key j (move_string attr (attrs, url)).0 ≡ find_key j attrs
unfolding move_string
move_string-other attr j attrs url other = elim (Option-cases (find_key attr url.query)) [
  | inl missing ↦ rw (missing, move_string) refl
  | inr (value, there) ↦
      rw (there, move_string) (find_key-assign_key j attr (string value) attrs ∙ rw other refl)
]

module _ (nix : NixUrls) where
  move_integer-url :
      (attr : Bytes) (attrs : Attrs) (url : ParsedUrl)
      → (move_integer nix attr (attrs, url)).1 ≡ without attr url
  unfolding move_integer
  move_integer-url attr attrs url = elim (Option-cases (find_key attr url.query)) [
    | inl missing ↦ rw (missing, move_integer) (without-absent attr url missing)
    | inr (value, there) ↦ rw (there, move_integer) refl
  ]

  move_integer-other :
      (attr j : Bytes) (attrs : Attrs) (url : ParsedUrl)
      → bytes_eq attr j ≡ false
      → find_key j (move_integer nix attr (attrs, url)).0 ≡ find_key j attrs
  unfolding move_integer
  move_integer-other attr j attrs url other = elim (Option-cases (find_key attr url.query)) [
    | inl missing ↦ rw (missing, move_integer) refl
    | inr (value, there) ↦ elim (Option-cases (nix.string_to_int value)) [
      | inl not_int ↦ rw (there, move_integer, not_int) refl
      | inr (n, is_int) ↦
          rw (there, move_integer, is_int)
            (find_key-assign_key j attr (integer n) attrs ∙ rw other refl)
    ]
  ]

  abbrev moved : ParsedUrl → Attrs × ParsedUrl
  moved url = move_integer nix (codes "lastModified") (
      move_integer nix (codes "revCount")
        (move_string (codes "rev") (move_string (codes "narHash") ([], url))))

  moved-url : (url : ParsedUrl) → (moved url).1 ≡ bare url
  moved-url url =
      let one = move_string (codes "narHash") ([], url) in
      let two = move_string (codes "rev") one in
      let three = move_integer nix (codes "revCount") two in
      move_integer-url (codes "lastModified") three.0 three.1
      ∙ ap (without (codes "lastModified")) (
          move_integer-url (codes "revCount") two.0 two.1
          ∙ ap (without (codes "revCount")) (
              move_string-url (codes "rev") one.0 one.1
              ∙ ap (without (codes "rev")) (move_string-url (codes "narHash") [] url)))

  moved-nar_hash :
      (url : ParsedUrl)
      → find_key (codes "narHash") (moved url).0
        ≡ find_key (codes "narHash") (move_string (codes "narHash") ([], url)).0
  unfolding bytes_eq
  moved-nar_hash url =
      let one = move_string (codes "narHash") ([], url) in
      let two = move_string (codes "rev") one in
      let three = move_integer nix (codes "revCount") two in
      move_integer-other (codes "lastModified") (codes "narHash") three.0 three.1 refl
      ∙ move_integer-other (codes "revCount") (codes "narHash") two.0 two.1 refl
      ∙ move_string-other (codes "rev") (codes "narHash") one.0 one.1 refl

  input_of-find_url :
      (url : ParsedUrl)
      → find_key (codes "url") (input_of nix url) ≡ some (string (nix.url_to_string (bare url)))
  unfolding input_of bytes_eq
  input_of-find_url url =
      find_key-assign_key (codes "url") (codes "url") _ _
      ∙ ap (λ u. some (string (nix.url_to_string u))) (moved-url url)

  pub input_of-url :
      (url : ParsedUrl)
      → get_str_attr (input_of nix url) (codes "url") ≡ ok (nix.url_to_string (bare url))
  unfolding get_str_attr
  input_of-url url = rw (get_str_attr, input_of-find_url url) refl

  pub input_of-nar_hash :
      (url : ParsedUrl)
      → find_key (codes "narHash") (input_of nix url)
        ≡ find_key (codes "narHash") (move_string (codes "narHash") ([], url)).0
  unfolding input_of bytes_eq
  input_of-nar_hash url =
      find_key-assign_key (codes "narHash") (codes "url") _ _
      ∙ find_key-assign_key (codes "narHash") (codes "type") _ _
      ∙ moved-nar_hash url

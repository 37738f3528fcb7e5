-- ===== src/TreeObject/Errors.antt =====
-- How the two loops end: no input leaves the reader running, and the writer refuses only by size.
use nix_tarmac.Base.{
  ℕ, zero, suc, ◌<◌, ◌+◌, ◌*◌, ◌≤◌, ◌≡◌, refl, ap, Bool-cases, List, [], ◌∷◌, ◌++◌, arith, length,
  drop, length-drop, inl, inr, ◌⊎◌, All,
}
use nix_tarmac.Base.Bytes.{Bytes}
use nix_tarmac.Base.Result.{ok, err, corrupt, invalid_argument, Result-cases}
use nix_tarmac.TreeObject.InBounds.{nth, decode_total, decode_entry-eq}
use nix_tarmac.TreeObject.{
  TreeEntry, encode_entry, encode_tree, out_of_order, decode_entry, decode_loop, decode_tree,
  max_name_len, max_id_len,
}

decode_total_shorter :
    (buf : Bytes)
    → ((e : TreeEntry) × (rest : Bytes) × (decode_total buf ≡ ok (e, rest))
        × (length rest < length buf))
      ⊎ (decode_total buf ≡ err corrupt)
unfolding decode_total
decode_total_shorter buf = elim (Result-cases (decode_total buf)) [
  | inl ((e, rest), p) ↦ inl (
    e,
    rest,
    p,
    let n = nth 1 buf + nth 2 buf * 256 in
        let k = nth n (drop 3 buf) in
        let long : 3 ≤ length buf = ground arith in
        let same : drop k (drop (suc n) (drop 3 buf)) ≡ rest = ground arith in
        omega (
          arith,
          ap length same,
          length-drop k (drop (suc n) (drop 3 buf)),
          length-drop (suc n) (drop 3 buf),
          length-drop 3 buf,
        ),
  )
  | inr (e, p) ↦ inr ground arith
]

-- The reader takes four bytes or more, or finds the object corrupt.
decode_entry_shorter :
    (buf : Bytes)
    → ((e : TreeEntry) × (rest : Bytes) × (decode_entry buf ≡ ok (e, rest))
        × (length rest < length buf))
      ⊎ (decode_entry buf ≡ err corrupt)
decode_entry_shorter buf = rw (decode_entry-eq buf) (decode_total_shorter buf)

decode_loop_ends :
    (fuel : ℕ) (buf : Bytes) (out : List TreeEntry)
    → length buf ≤ fuel
    → ((es : List TreeEntry) × (decode_loop fuel buf out ≡ ok es))
      ⊎ (decode_loop fuel buf out ≡ err corrupt)
unfolding decode_loop
decode_loop_ends zero [] out h = inl (_, refl)
decode_loop_ends (suc fuel) [] out h = inl (_, refl)
decode_loop_ends zero (b ∷ bs) out h = absurd (omega arith)
decode_loop_ends (suc fuel) (b ∷ bs) out h = elim (decode_entry_shorter (b ∷ bs)) [
  | inl (e, rest, p, lt) ↦ elim (Bool-cases (out_of_order out e)) [
    | inl bad ↦ inr (rw (p, bad))
    | inr good ↦ rw (p, good) (decode_loop_ends fuel rest (e ∷ out) (omega arith))
  ]
  | inr p ↦ inr (rw p)
]

-- On any bytes at all `readTree` returns entries or throws `CorruptError`: it ends, and never reads
-- or moves past the end of the buffer, which would be `undefined`.
pub decode_tree_ends :
    (buf : Bytes)
    → ((es : List TreeEntry) × (decode_tree buf ≡ ok es)) ⊎ (decode_tree buf ≡ err corrupt)
unfolding decode_tree
decode_tree_ends buf = decode_loop_ends (length buf) buf [] (omega arith)

abbrev pub FitsSizes : TreeEntry → Type 0
FitsSizes e = (length e.name ≤ max_name_len) × (length e.id ≤ max_id_len)

encode_entry_cases :
    (e : TreeEntry)
    → (FitsSizes e × (buf : Bytes) × (encode_entry e ≡ ok buf))
      ⊎ ((¬ FitsSizes e) × (encode_entry e ≡ err invalid_argument))
unfolding encode_entry
encode_entry_cases e = elim (Result-cases (encode_entry e)) [
  | inl (buf, p) ↦ inl (ground arith, buf, p)
  | inr (x, p) ↦ inr (λ h. ground arith, ground arith)
]

-- `putTree` writes the entries exactly when every name and id fits its length field, and throws
-- `invalid_argument` otherwise.
pub encode_tree_cases :
    (es : List TreeEntry)
    → (All FitsSizes es × (buf : Bytes) × (encode_tree es ≡ ok buf))
      ⊎ ((¬ All FitsSizes es) × (encode_tree es ≡ err invalid_argument))
unfolding encode_tree
encode_tree_cases [] = inl (tt, [], refl)
encode_tree_cases (e ∷ es) = elim (encode_entry_cases e) [
  | inr (bad, p) ↦ inr (λ h. bad h.0, rw p)
  | inl (fits, buf, p) ↦ elim (encode_tree_cases es) [
    | inr (bad, q) ↦ inr (λ h. bad h.1, rw (p, q))
    | inl (all, more, q) ↦ inl ((fits, all), buf ++ more, rw (p, q))
  ]
]

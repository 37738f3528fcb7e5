-- ===== src/TreeObject/InBounds.antt =====
-- A round of the loop of `readTree` stays inside the buffer.
use nix_tarmac.Base.{
  ℕ, zero, suc, ◌+◌, ◌*◌, ◌<◌, ◌≤◌, ◌≡◌, refl, not, [], ◌∷◌, arith, ltb, length, take, drop,
  length-drop, inl, inr, Bool-cases,
}
use nix_tarmac.Base.Bytes.{Bytes}
use nix_tarmac.Base.Result.{Result, ok, corrupt, throw_if, ◌>>◌}
use nix_tarmac.TreeObject.{
  TreeEntry, known_type, tree_entry_header, byte_at, split_at, decode_entry,
}

-- The byte there, or 0 past the end.
unfoldable pub nth : ℕ → Bytes → ℕ
nth i [] = 0
nth zero (b ∷ bs) = b
nth (suc i) (b ∷ bs) = nth i bs

-- The checks of a round, without those on the reads behind them.
unfoldable pub decode_total : Bytes → Result (TreeEntry × Bytes)
decode_total buf = do
  throw_if (ltb (length buf) tree_entry_header) corrupt
  let type = nth 0 buf
  throw_if (not (known_type type)) corrupt
  let name_len = nth 1 buf + nth 2 buf * 256
  let buf' = drop 3 buf
  throw_if (ltb (length buf') (name_len + 1)) corrupt
  let name = take name_len buf'
  let id_len = nth name_len buf'
  let buf'' = drop (suc name_len) buf'
  throw_if (ltb (length buf'') id_len) corrupt
  ok (record { name = name; type = type; id = take id_len buf'' }, drop id_len buf'')

split_at-inside :
    (n : ℕ) (buf : Bytes) → n ≤ length buf → split_at n buf ≡ ok (take n buf, drop n buf)
unfolding split_at
split_at-inside n buf h = ground arith

byte_at-drop : (n : ℕ) (buf : Bytes) → n < length buf → byte_at 0 (drop n buf) ≡ ok (nth n buf)
unfolding byte_at nth
byte_at-drop n [] h = absurd (omega arith)
byte_at-drop zero (b ∷ bs) h = refl
byte_at-drop (suc n) (b ∷ bs) h = byte_at-drop n bs (omega arith)

drop-drop-one : (n : ℕ) (buf : Bytes) → drop 1 (drop n buf) ≡ drop (suc n) buf
drop-drop-one zero buf = refl
drop-drop-one (suc n) [] = refl
drop-drop-one (suc n) (b ∷ bs) = drop-drop-one n bs

-- The bytes and the positions that a round reads are inside the buffer.
pub decode_entry-eq : (buf : Bytes) → decode_entry buf ≡ decode_total buf
unfolding decode_entry decode_total byte_at nth
decode_entry-eq [] = refl
decode_entry-eq (a ∷ []) = refl
decode_entry-eq (a ∷ b ∷ []) = refl
decode_entry-eq (t ∷ lo ∷ hi ∷ buf) = elim (Bool-cases (known_type t)) [
  | inr bad ↦ rw bad refl
  | inl known ↦
      let n = lo + hi * 256 in
      elim (Bool-cases (ltb (length buf) (n + 1))) [
        | inl short ↦ rw (known, split_at-inside 3 (t ∷ lo ∷ hi ∷ buf) (omega arith), short) refl
        | inr long ↦
            let inside : n < length buf = ground arith in
            let one : 1 ≤ length (drop n buf) = omega (arith, length-drop n buf) in
            rw
              (
                known,
                split_at-inside 3 (t ∷ lo ∷ hi ∷ buf) (omega arith),
                long,
                split_at-inside n buf (omega arith),
                byte_at-drop n buf inside,
                split_at-inside 1 (drop n buf) one,
                drop-drop-one n buf,
              )
              (elim (Bool-cases (ltb (length (drop (suc n) buf)) (nth n buf))) [
                | inl short ↦ rw short refl
                | inr enough ↦
                    rw (enough, split_at-inside (nth n buf) (drop (suc n) buf) (ground arith)) refl
              ])
      ]
]

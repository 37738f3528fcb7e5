-- ===== src/TreeObject/Canonical.antt =====
-- The round trip of tree objects, both ways.
use nix_tarmac.Base.{
  ℕ, zero, suc, ◌+◌, ◌*◌, ◌/◌, ◌%◌, ◌<◌, ◌≤◌, ◌≡◌, refl, sym, ap, ◌∙◌, true, false, List, [], ◌∷◌,
  ◌++◌, arith, length, take, drop, length-append, take-length_append, drop-length_append,
  append-nil, append_assoc, All, All-drop, take-append-drop, length-take, subst,
}
use nix_tarmac.Base.Bytes.{Bytes, IsByte, IsBytes}
use nix_tarmac.Base.Result.{ok, corrupt, >>=-eq-ok, throw_if-eq-ok}
use nix_tarmac.TreeObject.InBounds.{nth, decode_total, decode_entry-eq}
use nix_tarmac.TreeObject.{
  TreeEntry, encode_entry, encode_tree, known_type, out_of_order, decode_entry, reverse_onto,
  decode_loop, decode_tree, max_name_len, max_id_len,
}

-- An entry that `readTree` can return.
pub record IsEntry (e : TreeEntry) : Type 0 where
  pub type_known : known_type e.type ≡ true
  pub name_fits : length e.name ≤ max_name_len
  pub id_fits : length e.id ≤ max_id_len

-- Names rise strictly along the list, on from the entries `before` (the last one first).
abbrev pub SortedFrom : List TreeEntry → List TreeEntry → Type 0
SortedFrom before [] = Unit {0}
SortedFrom before (e ∷ es) = (out_of_order before e ≡ false) × SortedFrom (e ∷ before) es

abbrev pub IsTree : List TreeEntry → Type 0
IsTree es = All IsEntry es × SortedFrom [] es

nth-append : (xs : Bytes) (b : ℕ) (ys : Bytes) → nth (length xs) (xs ++ b ∷ ys) ≡ b
unfolding nth
nth-append [] b ys = refl
nth-append (x ∷ xs) b ys = nth-append xs b ys

drop-suc-append : (xs : Bytes) (b : ℕ) (ys : Bytes) → drop (suc (length xs)) (xs ++ b ∷ ys) ≡ ys
drop-suc-append [] b ys = refl
drop-suc-append (x ∷ xs) b ys = drop-suc-append xs b ys

-- The bytes of an entry that fits.
abbrev layout : TreeEntry → Bytes → Bytes
layout e rest =
    e.type ∷ length e.name % 256 ∷ length e.name / 256 ∷ (e.name ++ (length e.id ∷ (e.id ++ rest)))

encode_entry-layout :
    (e : TreeEntry) (rest : Bytes)
    → length e.name ≤ max_name_len
    → length e.id ≤ max_id_len
    → (buf : Bytes) × (encode_entry e ≡ ok buf) × (buf ++ rest ≡ layout e rest)
unfolding encode_entry
encode_entry-layout e rest hn hi =
    (layout e [], ground (arith, append-nil e.id), simp (append_assoc, append-nil))

decode_total-layout :
    (e : TreeEntry) (rest : Bytes) → IsEntry e → decode_total (layout e rest) ≡ ok (e, rest)
unfolding decode_total nth
decode_total-layout e rest h =
    let split : length e.name % 256 + length e.name / 256 * 256 ≡ length e.name = omega arith in
    rw
      (
        split,
        nth-append e.name (length e.id) (e.id ++ rest),
        take-length_append e.name (length e.id ∷ (e.id ++ rest)),
        drop-suc-append e.name (length e.id) (e.id ++ rest),
        take-length_append e.id rest,
        drop-length_append e.id rest,
      )
      (ground (
        arith,
        h.type_known,
        length-append e.name (length e.id ∷ (e.id ++ rest)),
        length-append e.id rest,
      ))

decode_entry-layout :
    (e : TreeEntry) (rest : Bytes) → IsEntry e → decode_entry (layout e rest) ≡ ok (e, rest)
decode_entry-layout e rest h = decode_entry-eq (layout e rest) ∙ decode_total-layout e rest h

nth-IsByte : (i : ℕ) (buf : Bytes) → IsBytes buf → IsByte (nth i buf)
unfolding nth
nth-IsByte i [] h = omega arith
nth-IsByte zero (b ∷ bs) h = h.0
nth-IsByte (suc i) (b ∷ bs) h = nth-IsByte i bs h.1

take-nth-drop :
    (n : ℕ) (buf : Bytes) → n < length buf → take n buf ++ (nth n buf ∷ drop (suc n) buf) ≡ buf
unfolding nth
take-nth-drop n [] h = elim h [ ]
take-nth-drop zero (b ∷ bs) h = refl
take-nth-drop (suc n) (b ∷ bs) h = ap (◌∷◌ b) (take-nth-drop n bs (omega arith))

-- `decode_entry` behind its checks, for the name length `n` that it has read.
abbrev parsed_entry : ℕ → ℕ → Bytes → TreeEntry
parsed_entry t n buf = record {
  name = take n buf;
  type = t;
  id = take (nth n buf) (drop (suc n) buf);
}

abbrev Decodes : Bytes → TreeEntry × Bytes → Type 0
Decodes buf (e, rest) = IsEntry e × IsBytes rest × (buf ≡ layout e rest)

parsed_entry-Decodes :
    (t lo hi : ℕ) (buf : Bytes)
    → IsBytes (lo ∷ hi ∷ buf)
    → known_type t ≡ true
    → let n = lo + hi * 256 in
      n < length buf
      → nth n buf ≤ length (drop (suc n) buf)
      → Decodes (t ∷ lo ∷ hi ∷ buf) (parsed_entry t n buf, drop (nth n buf) (drop (suc n) buf))
parsed_entry-Decodes t lo hi buf h known long enough =
    let n = lo + hi * 256 in
    let id_len = nth n buf in
    let tail = drop (suc n) buf in
    let name_len : length (take n buf) ≡ n = omega (arith, length-take n buf) in
    let id_size : length (take id_len tail) ≡ id_len = omega (arith, length-take id_len tail) in
    (
      record {
        type_known = known;
        name_fits = omega arith;
        id_fits = omega (arith, nth-IsByte n buf h.1.1);
      },
      All-drop IsByte id_len tail (All-drop IsByte (suc n) buf h.1.1),
      rw (name_len, id_size, take-append-drop id_len tail, take-nth-drop n buf long)
          (let lo_eq : n % 256 ≡ lo = omega arith in
            let hi_eq : n / 256 ≡ hi = omega arith in rw (lo_eq, hi_eq)),
    )

decode_total_sound :
    (buf : Bytes) (r : TreeEntry × Bytes) → IsBytes buf → decode_total buf ≡ ok r → Decodes buf r
unfolding decode_total nth
decode_total_sound [] r h d = cc
decode_total_sound (a ∷ []) r h d = cc
decode_total_sound (a ∷ b ∷ []) r h d = cc
decode_total_sound (t ∷ lo ∷ hi ∷ buf) r h d =
    let n = lo + hi * 256 in
    let result : ◌≡◌ {A = TreeEntry × Bytes}
        (parsed_entry t n buf, drop (nth n buf) (drop (suc n) buf)) r =
      ground arith in
    subst (Decodes (t ∷ lo ∷ hi ∷ buf)) result
      (parsed_entry-Decodes t lo hi buf h.1 (ground arith) (ground arith) (ground arith))

-- The other way: bytes that `decode_entry` takes are the layout of what it returns.
decode_entry_sound :
    (buf : Bytes) (r : TreeEntry × Bytes) → IsBytes buf → decode_entry buf ≡ ok r → Decodes buf r
decode_entry_sound buf r h d = decode_total_sound buf r h (sym (decode_entry-eq buf) ∙ d)

abbrev layouts : List TreeEntry → Bytes
layouts [] = []
layouts (e ∷ es) = layout e (layouts es)

encode_tree-layouts : (es : List TreeEntry) → All IsEntry es → encode_tree es ≡ ok (layouts es)
unfolding encode_tree
encode_tree-layouts [] h = refl
encode_tree-layouts (e ∷ es) h =
    let (buf, p, q) = encode_entry-layout e (layouts es) h.0.name_fits h.0.id_fits in
    rw (p, encode_tree-layouts es h.1) (ap ok q)

decode_loop-layouts :
    (es out : List TreeEntry) (fuel : ℕ)
    → All IsEntry es
    → SortedFrom out es
    → length (layouts es) ≤ fuel
    → decode_loop fuel (layouts es) out ≡ ok (reverse_onto out es)
unfolding decode_loop reverse_onto
decode_loop-layouts [] out fuel h sorted enough = refl
decode_loop-layouts (e ∷ es) out zero h sorted enough = absurd (omega arith)
decode_loop-layouts (e ∷ es) out (suc fuel) h sorted enough =
    rw (decode_entry-layout e (layouts es) h.0, sorted.0)
      (decode_loop-layouts es (e ∷ out) fuel h.1 sorted.1 (
        omega (
          arith,
          length-append e.name (length e.id ∷ (e.id ++ layouts es)),
          length-append e.id (layouts es),
        )))

-- A sorted list of entries that fit is written, and read back as it was.
pub decode_tree-encode_tree :
    (es : List TreeEntry)
    → IsTree es
    → (buf : Bytes) × (encode_tree es ≡ ok buf) × (decode_tree buf ≡ ok es)
unfolding decode_tree
decode_tree-encode_tree es (fits, sorted) = (
  layouts es,
  encode_tree-layouts es fits,
  decode_loop-layouts es [] (length (layouts es)) fits sorted (omega arith)
      ∙ unfold reverse_onto in refl,
)

decode_loop_sound :
    (fuel : ℕ) (buf : Bytes) (out es : List TreeEntry)
    → IsBytes buf
    → decode_loop fuel buf out ≡ ok es
    → (tail : List TreeEntry) × (es ≡ reverse_onto out tail)
      × All IsEntry tail
      × SortedFrom out tail
      × (buf ≡ layouts tail)
unfolding decode_loop reverse_onto
decode_loop_sound zero [] out es h d = ([], cc, tt, tt, refl)
decode_loop_sound (suc fuel) [] out es h d = ([], cc, tt, tt, refl)
decode_loop_sound zero (b ∷ bs) out es h d = cc
decode_loop_sound (suc fuel) (b ∷ bs) out es h d =
    let ((e, rest), p, d') = >>=-eq-ok (decode_entry (b ∷ bs)) _ d in
    let (rises, d'') =
      throw_if-eq-ok (out_of_order out e) corrupt (λ _. decode_loop fuel rest (e ∷ out)) d' in
    let (entry, bytes, eq) = decode_entry_sound (b ∷ bs) (e, rest) h p in
    let (tail, q, entries, sorted, eq') = decode_loop_sound fuel rest (e ∷ out) es bytes d'' in
    (e ∷ tail, q, (entry, entries), (rises, sorted), eq ∙ ap (layout e) eq')

-- Every object that `readTree` accepts is one that `putTree` writes for the entries returned, which
-- are sorted and fit: the format has one encoding for each tree.
pub encode_tree-decode_tree :
    (buf : Bytes) (es : List TreeEntry)
    → IsBytes buf
    → decode_tree buf ≡ ok es
    → IsTree es × (encode_tree es ≡ ok buf)
unfolding decode_tree
encode_tree-decode_tree buf es h d =
    let (tail, q, entries, sorted, eq) = decode_loop_sound (length buf) buf [] es h d in
    let same : es ≡ tail = unfold reverse_onto in q in
    rw (same, eq) ((entries, sorted), encode_tree-layouts tail entries)

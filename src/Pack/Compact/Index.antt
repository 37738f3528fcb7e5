-- ===== src/Pack/Compact/Index.antt =====
-- The index that `compact` writes, against the one it read.
use nix_tarmac.Base.{
  ℕ, ◌+◌, ◌≤◌, ◌≡◌, refl, sym, ◌∙◌, subst, ◌⊎◌, inl, inr, Bool, true, false, none, some, List, [],
  ◌∷◌, ◌++◌, arith, Bool-cases, append_assoc, length, length-append, length-take, length-drop, take,
  drop, drop-length_append, take-length_append,
}
use nix_tarmac.Base.Bytes.{
  Bytes, bytes_eq, bytes_eq_iff, bytes_eq_refl, bytes_lt, bytes_lt_irrefl, bytes_lt_trans,
}
use nix_tarmac.Base.Result.{ok, Result-cases}
use nix_tarmac.Pack.File.{slice}
use nix_tarmac.Pack.Index.{IndexEntry, entry_bytes, decode_entry}
use nix_tarmac.Pack.Platform.{Platform, assoc, RisesFrom, Rises}
use nix_tarmac.Pack.Compact.Copy.{
  live_entries, live_entries-bad, live_entries-kept, live_entries-dead, moved, packed,
}

-- A key that is not above the keys below is not among them.
assoc-above :
    (low j : Bytes) (l : List (Bytes × Bytes))
    → RisesFrom low l
    → bytes_lt low j ≡ false
    → assoc j l ≡ none
assoc-above low j [] r h = refl
assoc-above low j ((k, v) ∷ l) (b, r) h =
    let above : bytes_lt k j ≡ false = elim (Bool-cases (bytes_lt k j)) [
      | inr e ↦ e
      | inl e ↦ absurd (cc (sym h ∙ bytes_lt_trans low k j b e))
    ] in
    let other : bytes_eq k j ≡ false = elim (Bool-cases (bytes_eq k j)) [
      | inr e ↦ e
      | inl e ↦ absurd (cc (sym h ∙ subst (λ x. bytes_lt low x ≡ true) ((bytes_eq_iff k j).0 e) b))
    ] in
    rw other (assoc-above k j l r above)

abbrev pub Avoids : Bytes → List (Bytes × IndexEntry) → Type 0
Avoids j [] = Unit {0}
Avoids j ((k, e) ∷ l) = (bytes_eq k j ≡ false) × Avoids j l

pub length-slice :
    (off len : ℕ) (bytes : Bytes) → off + len ≤ length bytes → length (slice off len bytes) ≡ len
unfolding slice
length-slice off len bytes h =
    omega (arith, length-take len (drop off bytes), length-drop off bytes)

slice-middle :
    (pre bytes post : Bytes) (off len : ℕ)
    → length pre ≡ off
    → length bytes ≡ len
    → slice off len (pre ++ (bytes ++ post)) ≡ bytes
unfolding slice
slice-middle pre bytes post off len p q =
    subst (λ n. take len (drop n (pre ++ (bytes ++ post))) ≡ bytes) p
      (subst (λ n. take n (drop (length pre) (pre ++ (bytes ++ post))) ≡ bytes) q
        (rw (drop-length_append pre (bytes ++ post)) (take-length_append bytes post)))

module _ {T : Type 0} (p : Platform T) where
  -- The table after `mdb_put` of each record in order.
  unfoldable pub filled : List (Bytes × IndexEntry) → T → T
  filled [] t = t
  filled ((hash, entry) ∷ keep) t = filled keep (p.lmdb.put hash (entry_bytes entry) t)

  pub filled-Avoids :
      (j : Bytes) (l : List (Bytes × IndexEntry)) (t : T)
      → Avoids j l
      → p.lmdb.get j (filled l t) ≡ p.lmdb.get j t
  unfolding filled
  filled-Avoids j [] t a = refl
  filled-Avoids j ((k, e) ∷ l) t (other, a) =
      filled-Avoids j l (p.lmdb.put k (entry_bytes e) t) a
      ∙ (p.lmdb.get-put j k (entry_bytes e) t ∙ rw other refl)

  module _ (live : Bytes → Bool) where
    none-other :
        (j k v : Bytes) (rest : List (Bytes × Bytes))
        → assoc j ((k, v) ∷ rest) ≡ none
        → bytes_eq k j ≡ false
    none-other j k v rest e = ground arith

    none-rest :
        (j k v : Bytes) (rest : List (Bytes × Bytes))
        → assoc j ((k, v) ∷ rest) ≡ none
        → assoc j rest ≡ none
    none-rest j k v rest e = ground arith

    live-other : (j k : Bytes) → live j ≡ false → live k ≡ true → bytes_eq k j ≡ false
    live-other j k dead kept = elim (Bool-cases (bytes_eq k j)) [
      | inr e ↦ e
      | inl e ↦ absurd (cc (sym dead ∙ subst (λ x. live x ≡ true) ((bytes_eq_iff k j).0 e) kept))
    ]

    -- No record is kept under a dead hash, nor under one that was not in the index.
    pub live_entries-Avoids :
        (j : Bytes) (off : ℕ) (entries : List (Bytes × Bytes))
        → (live j ≡ false) ⊎ (assoc j entries ≡ none)
        → Avoids j (moved off (live_entries live entries))
    unfolding live_entries moved
    live_entries-Avoids j off [] h = tt
    live_entries-Avoids j off ((k, v) ∷ rest) h =
        let h' : (live j ≡ false) ⊎ (assoc j rest ≡ none) = elim h [
          | inl d ↦ inl d
          | inr e ↦ inr (none-rest j k v rest e)
        ] in
        elim (Result-cases (decode_entry v)) [
          | inr (e, bad) ↦ rw (live_entries-bad live k v rest e bad) tt
          | inl (entry, good) ↦ elim (Bool-cases (live k)) [
            | inr dead ↦
                rw (live_entries-dead live k v rest entry good dead)
                  (live_entries-Avoids j off rest h')
            | inl kept ↦
                let other : bytes_eq k j ≡ false = elim h [
                  | inl d ↦ live-other j k d kept
                  | inr e ↦ none-other j k v rest e
                ] in
                rw (live_entries-kept live k v rest entry good kept)
                  (other, live_entries-Avoids j (off + entry.len) rest h')
          ]
        ]

    -- A record of the old index, at its place in the new pack.
    pub record Relocated (old new : Bytes) (val val' : Bytes) : Type 0 where
      pub from : IndexEntry
      pub to : IndexEntry
      pub decoded : decode_entry val ≡ ok from
      pub is_val : val' ≡ entry_bytes to
      pub same_len : to.len ≡ from.len
      pub same_raw_len : to.raw_len ≡ from.raw_len
      pub inside : to.off + to.len ≤ length new
      pub same_bytes : slice to.off to.len new ≡ slice from.off from.len old

    -- The records lead to bytes inside the pack.
    abbrev pub Leads : Bytes → List (Bytes × Bytes) → Type 0
    Leads old entries =
        (j val : Bytes)
        → assoc j entries ≡ some val
        → (entry : IndexEntry) × (decode_entry val ≡ ok entry)
          × (entry.off + entry.len ≤ length old)

    pub Leads-rest :
        (old k v : Bytes) (rest : List (Bytes × Bytes))
        → RisesFrom k rest
        → Leads old ((k, v) ∷ rest)
        → Leads old rest
    Leads-rest old k v rest r h j val there = elim (Bool-cases (bytes_eq k j)) [
      | inr other ↦ h j val (rw other there)
      | inl same ↦ absurd (
          cc (
            sym (
              subst (λ x. assoc x rest ≡ none) ((bytes_eq_iff k j).0 same)
                (assoc-above k k rest r (bytes_lt_irrefl k)))
            ∙ there))
    ]

    -- `filled` has a record under the hash for the one in `entries`.
    abbrev pub Moves :
        (old new : Bytes) (off : ℕ) (entries : List (Bytes × Bytes)) (t : T) (j val : Bytes)
        → Type 0
    Moves old new off entries t j val =
        (val' : Bytes) × (p.lmdb.get j (filled (moved off (live_entries live entries)) t)
          ≡ some val')
        × Relocated old new val val'

    pub Rises-rest : (k : Bytes) (rest : List (Bytes × Bytes)) → RisesFrom k rest → Rises rest
    Rises-rest k [] r = tt
    Rises-rest k ((k', v) ∷ rest) r = r.1

    here :
        (old pre : Bytes) (off : ℕ) (k v : Bytes) (rest : List (Bytes × Bytes)) (t : T)
        (entry : IndexEntry)
        → length pre ≡ off
        → RisesFrom k rest
        → decode_entry v ≡ ok entry
        → entry.off + entry.len ≤ length old
        → live k ≡ true
        → Moves old
            (pre ++ packed old (live_entries live ((k, v) ∷ rest)))
            off
            ((k, v) ∷ rest)
            t
            k
            v
    unfolding moved filled packed
    here old pre off k v rest t entry size r good ins kept =
        let to : IndexEntry = record { off = off; len = entry.len; raw_len = entry.raw_len } in
        let l = live_entries live rest in
        let gone =
          live_entries-Avoids k (off + entry.len) rest
            (inr (assoc-above k k rest r (bytes_lt_irrefl k))) in
        let bytes = slice entry.off entry.len old in
        let len = length-slice entry.off entry.len old ins in
        rw (live_entries-kept live k v rest entry good kept) (
          entry_bytes to,
          filled-Avoids k (moved (off + entry.len) l) (p.lmdb.put k (entry_bytes to) t) gone
              ∙ (p.lmdb.get-put k k (entry_bytes to) t ∙ rw (bytes_eq_refl k) refl),
          record {
            from = entry;
            to = to;
            decoded = good;
            is_val = refl;
            same_len = refl;
            same_raw_len = refl;
            inside = omega (
              arith,
              size,
              len,
              length-append pre (bytes ++ packed old l),
              length-append bytes (packed old l),
            );
            same_bytes = slice-middle pre bytes (packed old l) off entry.len size len;
          },
        )

    pub filled-Relocated :
        (old pre : Bytes) (off : ℕ) (entries : List (Bytes × Bytes)) (t : T) (j val : Bytes)
        → length pre ≡ off
        → Rises entries
        → Leads old entries
        → live j ≡ true
        → assoc j entries ≡ some val
        → Moves old (pre ++ packed old (live_entries live entries)) off entries t j val
    unfolding moved filled packed
    filled-Relocated old pre off [] t j val size r leads is_live there = absurd (cc there)
    filled-Relocated old pre off ((k, v) ∷ rest) t j val size r leads is_live there =
        elim (Bool-cases (bytes_eq k j)) [
          | inl same ↦
              let k_j = (bytes_eq_iff k j).0 same in
              let (entry, good, ins) = leads k v (rw (bytes_eq_refl k) refl) in
              let kept = subst (λ x. live x ≡ true) (sym k_j) is_live in
              let v_val : v ≡ val = cc (rw same at there) in
              let new = pre ++ packed old (live_entries live ((k, v) ∷ rest)) in
              let found = here old pre off k v rest t entry size r good ins kept in
              subst (λ x. Moves old new off ((k, v) ∷ rest) t x val) k_j
                (subst (λ x. Moves old new off ((k, v) ∷ rest) t k x) v_val found)
          | inr other ↦
              let (entry, good, ins) = leads k v (rw (bytes_eq_refl k) refl) in
              let later = Leads-rest old k v rest r leads in
              let there' : assoc j rest ≡ some val = cc (rw other at there) in
              let rises = Rises-rest k rest r in
              let l = live_entries live rest in
              let bytes = slice entry.off entry.len old in
              elim (Bool-cases (live k)) [
                | inl kept ↦
                    let to : IndexEntry = record {
                      off = off;
                      len = entry.len;
                      raw_len = entry.raw_len;
                    } in
                    let size' : length (pre ++ bytes) ≡ off + entry.len = omega (
                      arith,
                      size,
                      length-append pre bytes,
                      length-slice entry.off entry.len old ins,
                    ) in
                    let ih =
                      filled-Relocated old (pre ++ bytes) (off + entry.len) rest
                        (p.lmdb.put k (entry_bytes to) t) j val size' rises later is_live there' in
                    rw (live_entries-kept live k v rest entry good kept)
                      (rw (append_assoc pre bytes (packed old l)) at ih)
                | inr dead ↦
                    rw (live_entries-dead live k v rest entry good dead)
                      (filled-Relocated old pre off rest t j val size rises later is_live there')
              ]
        ]

-- ===== src/Live/Fuel.antt =====
-- The rounds that `mark_live` needs.
use nix_tarmac.Base.{
  ℕ, zero, suc, ◌+◌, ◌≤◌, ◌<◌, ◌≡◌, refl, sym, subst, inl, inr, false, Option, none, some, List, [],
  ◌∷◌, ◌==◌, arith, length, if◌then◌else◌, Bool-cases,
}
use nix_tarmac.Base.Bytes.{Bytes, bytes_eq_iff, bytes_eq_refl}
use nix_tarmac.Base.Result.{Error}
use nix_tarmac.Base.Exec.{Exec, Outcome, returns, throws, Ends, Outcome-cases}
use nix_tarmac.TreeObject.{TreeEntry}
use nix_tarmac.Live.{contains, insert, mark_entries, mark_loop, mark_live}
use nix_tarmac.Live.Closed.{Has, IsChild, mark-old, mark-dir, mark-leaf}

-- How many of the ids are not in the set.
unfoldable missing : List Bytes → List Bytes → ℕ
missing [] live = 0
missing (id ∷ ids) live = (if contains id live then 0 else 1) + missing ids live

missing-le_cons :
    (ids : List Bytes) (x : Bytes) (live : List Bytes) → missing ids (x ∷ live) ≤ missing ids live
unfolding missing contains
missing-le_cons [] x live = omega arith
missing-le_cons (id ∷ ids) x live = ground (arith, missing-le_cons ids x live)

-- A new id is one less to come.
missing-lt_cons :
    (ids : List Bytes) (x : Bytes) (live : List Bytes)
    → Has ids x
    → contains x live ≡ false
    → missing ids (x ∷ live) < missing ids live
unfolding missing contains
missing-lt_cons [] x live h fresh = ground arith
missing-lt_cons (id ∷ ids) x live h fresh = ground (
  arith,
  missing-lt_cons ids x live,
  missing-le_cons ids x live,
  bytes_eq_iff id x,
  bytes_eq_refl x,
)

missing-le_length : (ids live : List Bytes) → missing ids live ≤ length ids
unfolding missing
missing-le_length [] live = omega arith
missing-le_length (id ∷ ids) live = ground (arith, missing-le_length ids live)

mark_entries-missing :
    (ids : List Bytes) (entries : List TreeEntry) (live pending : List Bytes)
    → ((child : Bytes) → IsChild child entries → Has ids child)
    → missing ids (mark_entries entries live pending).0
        + length (mark_entries entries live pending).1
      ≤ missing ids live + length pending
unfolding mark_entries
mark_entries-missing ids [] live pending h = omega arith
mark_entries-missing ids (entry ∷ entries) live pending h =
    let rest = λ (live' pending' : List Bytes).
      mark_entries-missing ids entries live' pending' (λ child c. h child (inr c)) in
    let bound = λ (r : List Bytes × List Bytes).
      missing ids r.0 + length r.1 ≤ missing ids live + length pending in
    let here = h entry.id (inl refl) in
    elim (Bool-cases (contains entry.id live)) [
      | inl old ↦ subst bound (sym (mark-old entry entries live pending old)) (rest live pending)
      | inr fresh ↦
          let fewer = missing-lt_cons ids entry.id live here fresh in
          elim (Bool-cases (entry.type == b'd')) [
            | inl dir ↦
                subst bound (sym (mark-dir entry entries live pending fresh dir))
                  (omega (arith, rest (entry.id ∷ live) (entry.id ∷ pending), fewer))
            | inr leaf ↦
                subst bound (sym (mark-leaf entry entries live pending fresh leaf))
                  (omega (arith, rest (entry.id ∷ live) pending, fewer))
          ]
    ]

module _ {S : Type 0} (read : Bytes → Exec S (List TreeEntry)) where
  -- In states of a kind that reading keeps, every child that it gives is among the ids.
  abbrev pub Within : (S → Type 0) → List Bytes → Type 0
  Within Inv ids =
      (id : Bytes) (s : S)
      → Inv s
      → Ends (λ entries t. ((child : Bytes) → IsChild child entries → Has ids child) × Inv t)
          (λ e t. Unit {0}) (read id s)

  -- The exception comes from reading.
  abbrev pub FromReading : Outcome S (List Bytes × Option Error) → Type 0
  FromReading (returns (live, none) s) = Unit {0}
  FromReading (returns (live, some e) s) = (id : Bytes) × (t t' : S) × (read id t ≡ throws e t')
  FromReading (throws e s) = ⊥

  mark_loop-FromReading :
      (Inv : S → Type 0) (ids : List Bytes) (fuel : ℕ) (live pending : List Bytes) (s : S)
      → Within Inv ids
      → Inv s
      → missing ids live + length pending ≤ fuel
      → FromReading (mark_loop read fuel live pending s)
  unfolding mark_loop
  mark_loop-FromReading Inv ids zero live [] s within inv h = tt
  mark_loop-FromReading Inv ids (suc fuel) live [] s within inv h = tt
  mark_loop-FromReading Inv ids zero live (tree_id ∷ pending) s within inv h = absurd (omega arith)
  mark_loop-FromReading Inv ids (suc fuel) live (tree_id ∷ pending) s within inv h =
      elim (Outcome-cases (read tree_id s)) [
        | inr (e, t, fails) ↦ rw (fails, mark_loop) (tree_id, s, t, fails)
        | inl (entries, t, reads) ↦
            let (named, inv') = rw reads at (within tree_id s inv) in
            rw (reads, mark_loop)
              (mark_loop-FromReading Inv ids fuel _ _ t within inv'
                (omega (arith, mark_entries-missing ids entries live pending named)))
      ]

  -- With fuel for the ids that trees can name, and one round more, `mark_live` ends by itself: an
  -- exception that it ends with is one that reading a tree has thrown.
  pub mark_live-FromReading :
      (Inv : S → Type 0) (ids : List Bytes) (fuel : ℕ) (root : Bytes) (live : List Bytes) (s : S)
      → Within Inv ids
      → Inv s
      → length ids < fuel
      → FromReading (mark_live read fuel root live s)
  unfolding mark_live insert
  mark_live-FromReading Inv ids fuel root live s within inv h =
      elim (Bool-cases (contains root live)) [
        | inl old ↦ rw old (
            mark_loop-FromReading Inv ids fuel live [] s within inv
              (omega (arith, missing-le_length ids live)))
        | inr fresh ↦ rw fresh (
            mark_loop-FromReading Inv ids fuel (root ∷ live) (root ∷ []) s within inv
              (omega (arith, missing-le_length ids (root ∷ live))))
      ]

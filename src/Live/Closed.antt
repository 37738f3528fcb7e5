-- ===== src/Live/Closed.antt =====
-- What `mark_live` marks, where reading a tree object has the answer of a fixed `trees`.
use nix_tarmac.Base.{
  ℕ, zero, suc, ◌≡◌, ◌↔◌, sym, ap, subst, ◌⊎◌, inl, inr, Bool, true, false, Option, none, some,
  List, [], ◌∷◌, ◌==◌, arith, All, Bool-cases,
}
use nix_tarmac.Base.Bytes.{Bytes, bytes_eq_iff, bytes_eq_refl}
use nix_tarmac.Base.Result.{Error}
use nix_tarmac.Base.Exec.{Exec, Outcome, returns, Ends, Outcome-cases}
use nix_tarmac.TreeObject.{TreeEntry}
use nix_tarmac.Live.{contains, insert, mark_entries, mark_loop}

abbrev pub Has : List Bytes → Bytes → Type 0
Has live id = contains id live ≡ true

-- `id` is one of the entries.
abbrev pub IsChild : Bytes → List TreeEntry → Type 0
IsChild id [] = ⊥
IsChild id (entry ∷ entries) = (id ≡ entry.id) ⊎ IsChild id entries

pub Has-cons : (id x : Bytes) (live : List Bytes) → Has (x ∷ live) id ↔ ((id ≡ x) ⊎ Has live id)
unfolding contains
Has-cons id x live = ground (arith, bytes_eq_iff x id, bytes_eq_refl x)

module _ (entry : TreeEntry) (entries : List TreeEntry) (live pending : List Bytes) where
  pub mark-old :
      contains entry.id live ≡ true
      → mark_entries (entry ∷ entries) live pending ≡ mark_entries entries live pending
  unfolding mark_entries insert
  mark-old old = ground arith

  pub mark-dir :
      contains entry.id live ≡ false
      → (entry.type == b'd') ≡ true
      → mark_entries (entry ∷ entries) live pending
        ≡ mark_entries entries (entry.id ∷ live) (entry.id ∷ pending)
  unfolding mark_entries insert
  mark-dir fresh dir = ground arith

  pub mark-leaf :
      contains entry.id live ≡ false
      → (entry.type == b'd') ≡ false
      → mark_entries (entry ∷ entries) live pending ≡ mark_entries entries (entry.id ∷ live) pending
  unfolding mark_entries insert
  mark-leaf fresh leaf = ground arith

module _ (trees : Bytes → List TreeEntry) (is_dir : Bytes → Bool) where
  -- An id that is a directory in one place is one everywhere.
  abbrev pub OneKind : List TreeEntry → Type 0
  OneKind = All (λ entry. (entry.type == b'd') ≡ is_dir entry.id)

  -- Directories in the set have all their entries in it, but for those that wait.
  abbrev pub ClosedBut : List Bytes → List Bytes → Type 0
  ClosedBut pending live =
      (id child : Bytes)
      → Has live id
      → is_dir id ≡ true
      → IsChild child (trees id)
      → Has pending id ⊎ Has live child

  abbrev pub Closed : List Bytes → Type 0
  Closed live =
      (id child : Bytes)
      → Has live id
      → is_dir id ≡ true
      → IsChild child (trees id)
      → Has live child

  -- What the loop over the entries of a tree does to both sets.
  record Marked (entries : List TreeEntry) (live pending live' pending' : List Bytes) : Type 0 where
    more : (id : Bytes) → Has live id → Has live' id
    children : (id : Bytes) → IsChild id entries → Has live' id
    waits : (id : Bytes) → Has pending id → Has pending' id
    new_dirs : (id : Bytes) → Has live' id → is_dir id ≡ true → Has live id ⊎ Has pending' id

  mark_entries-Marked :
      (entries : List TreeEntry) (live pending : List Bytes)
      → OneKind entries
      → Marked entries live pending
          (mark_entries entries live pending).0
          (mark_entries entries live pending).1
  unfolding mark_entries
  mark_entries-Marked [] live pending k = record {
    more = λ id h. h;
    children = λ id h. absurd h;
    waits = λ id h. h;
    new_dirs = λ id h d. inl h;
  }
  mark_entries-Marked (entry ∷ entries) live pending (kind, k) =
      let into = λ (r : List Bytes × List Bytes). Marked (entry ∷ entries) live pending r.0 r.1 in
      let added = λ (id : Bytes). Has-cons id entry.id live in
      let queued = λ (id : Bytes). Has-cons id entry.id pending in
      elim (Bool-cases (contains entry.id live)) [
        | inl old ↦
            let ih = mark_entries-Marked entries live pending k in
            subst into (sym (mark-old entry entries live pending old)) (record {
              more = ih.more;
              children = λ id h. elim h [
                | inl e ↦ ih.more id (subst (Has live) (sym e) old)
                | inr c ↦ ih.children id c
              ];
              waits = ih.waits;
              new_dirs = ih.new_dirs;
            })
        | inr fresh ↦ elim (Bool-cases (entry.type == b'd')) [
          | inl dir ↦
              let ih = mark_entries-Marked entries (entry.id ∷ live) (entry.id ∷ pending) k in
              subst into (sym (mark-dir entry entries live pending fresh dir)) (record {
                more = λ id h. ih.more id ((added id).1 (inr h));
                children = λ id h. elim h [
                  | inl e ↦ ih.more id ((added id).1 (inl e))
                  | inr c ↦ ih.children id c
                ];
                waits = λ id h. ih.waits id ((queued id).1 (inr h));
                new_dirs = λ id h d. elim (ih.new_dirs id h d) [
                  | inr waiting ↦ inr waiting
                  | inl there ↦ elim ((added id).0 there) [
                    | inl e ↦ inr (ih.waits id ((queued id).1 (inl e)))
                    | inr before ↦ inl before
                  ]
                ];
              })
          | inr leaf ↦
              let ih = mark_entries-Marked entries (entry.id ∷ live) pending k in
              subst into (sym (mark-leaf entry entries live pending fresh leaf)) (record {
                more = λ id h. ih.more id ((added id).1 (inr h));
                children = λ id h. elim h [
                  | inl e ↦ ih.more id ((added id).1 (inl e))
                  | inr c ↦ ih.children id c
                ];
                waits = ih.waits;
                new_dirs = λ id h d. elim (ih.new_dirs id h d) [
                  | inr waiting ↦ inr waiting
                  | inl there ↦ elim ((added id).0 there) [
                    | inl e ↦ cc (ap is_dir e, d, kind, leaf)
                    | inr before ↦ inl before
                  ]
                ];
              })
        ]
      ]

  -- In states of a kind that it keeps, reading answers with `trees`, or throws.
  abbrev pub Agrees : {S : Type 0} → (S → Type 0) → (Bytes → Exec S (List TreeEntry)) → Type 0
  Agrees {S} Inv read =
      (id : Bytes) (s : S)
      → Inv s
      → Ends (λ entries t. (entries ≡ trees id) × Inv t) (λ e t. Unit {0}) (read id s)

  ClosedBut-round :
      (tree_id : Bytes) (live pending live' pending' : List Bytes)
      → ClosedBut (tree_id ∷ pending) live
      → Marked (trees tree_id) live pending live' pending'
      → ClosedBut pending' live'
  ClosedBut-round tree_id live pending live' pending' closed marked id child has dir c =
      elim (marked.new_dirs id has dir) [
        | inr waiting ↦ inl waiting
        | inl before ↦ elim (closed id child before dir c) [
          | inr there ↦ inr (marked.more child there)
          | inl waiting ↦ elim ((Has-cons id tree_id pending).0 waiting) [
            | inl e ↦ inr (marked.children child (subst (λ x. IsChild child (trees x)) e c))
            | inr later ↦ inl (marked.waits id later)
          ]
        ]
      ]

  module _ {S : Type 0} (Inv : S → Type 0) (read : Bytes → Exec S (List TreeEntry))
      (agrees : Agrees Inv read) (kinds : (id : Bytes) → OneKind (trees id)) where
    unreturned :
        (live live' : List Bytes) (x : Error) (t s' : S)
        → ¬ (
            ◌≡◌ {A = Outcome S (List Bytes × Option Error)}
              (returns (live, some x) t)
              (returns (live', none) s'))
    unreturned live live' x t s' e = ground arith

    done-Closed :
        (live live' : List Bytes)
        → ClosedBut [] live
        → live ≡ live'
        → Closed live' × ((id : Bytes) → Has live id → Has live' id)
    unfolding contains
    done-Closed live live' closed same = rw (← same) (
      (λ id child h d c. elim (closed id child h d c) [
        | inl none_left ↦ absurd (cc none_left)
        | inr there ↦ there
      ]),
      λ id h. h,
    )

    pub mark_loop-Closed :
        (fuel : ℕ) (live pending live' : List Bytes) (s s' : S)
        → Inv s
        → ClosedBut pending live
        → mark_loop read fuel live pending s ≡ returns (live', none) s'
        → Closed live' × ((id : Bytes) → Has live id → Has live' id)
    unfolding mark_loop
    mark_loop-Closed zero live [] live' s s' inv closed e =
        done-Closed live live' closed (ground arith)
    mark_loop-Closed (suc fuel) live [] live' s s' inv closed e =
        done-Closed live live' closed (ground arith)
    mark_loop-Closed zero live (tree_id ∷ pending) live' s s' inv closed e = absurd (ground arith)
    mark_loop-Closed (suc fuel) live (tree_id ∷ pending) live' s s' inv closed e =
        elim (Outcome-cases (read tree_id s)) [
          | inr (x, t, fails) ↦ absurd (unreturned live live' x t s' (rw (fails, mark_loop) at e))
          | inl (entries, t, reads) ↦
              let (same, inv') = rw reads at (agrees tree_id s inv) in
              let marked = mark_entries-Marked (trees tree_id) live pending (kinds tree_id) in
              let run = rw (reads, mark_loop, same) at e in
              let (ends, more) =
                mark_loop-Closed fuel _ _ live' t s' inv'
                  (ClosedBut-round tree_id live pending _ _ closed marked) run in
              (ends, λ id h. more id (marked.more id h))
        ]

-- ===== src/Live/Reach.antt =====
-- `mark_live` marks everything that the root reaches.
use nix_tarmac.Base.{ℕ, ◌≡◌, refl, inl, inr, Bool, true, none, List, [], ◌∷◌, Bool-cases}
use nix_tarmac.Base.Bytes.{Bytes}
use nix_tarmac.Base.Exec.{Exec, returns}
use nix_tarmac.TreeObject.{TreeEntry}
use nix_tarmac.Live.{contains, insert, mark_live}
use nix_tarmac.Live.Closed.{
  Has, Has-cons, IsChild, OneKind, Closed, ClosedBut, Agrees, mark_loop-Closed,
}

-- What a root reaches: itself, and the entries of the directories that it reaches.
pub data Reaches (trees : Bytes → List TreeEntry) (is_dir : Bytes → Bool) (root : Bytes)
    : Bytes → Type 0 where
  here : Reaches trees is_dir root root
  below :
      {id child : Bytes}
      → Reaches trees is_dir root id
      → is_dir id ≡ true
      → IsChild child (trees id)
      → Reaches trees is_dir root child

module _ (trees : Bytes → List TreeEntry) (is_dir : Bytes → Bool) where
  Closed-Reaches :
      (live : List Bytes) (root : Bytes) {id : Bytes}
      → Closed trees is_dir live
      → Has live root
      → Reaches trees is_dir root id
      → Has live id
  Closed-Reaches live root closed h here = h
  Closed-Reaches live root closed h (below {id} {child} r d c) =
      closed id child (Closed-Reaches live root closed h r) d c

  ClosedBut-of_Closed :
      (root : Bytes) (live : List Bytes)
      → Closed trees is_dir live
      → ClosedBut trees is_dir (root ∷ []) (root ∷ live)
  ClosedBut-of_Closed root live closed id child has d c = elim ((Has-cons id root live).0 has) [
    | inl e ↦ inl ((Has-cons id root []).1 (inl e))
    | inr old ↦ inr ((Has-cons child root live).1 (inr (closed id child old d c)))
  ]

  -- For a reading that gives the entries of a fixed tree or throws: the set has what it had and all
  -- that the root reaches, and is closed again.
  pub mark_live-Reaches :
      {S : Type 0} (Inv : S → Type 0) (read : Bytes → Exec S (List TreeEntry)) (fuel : ℕ)
      (root : Bytes) (live live' : List Bytes) (s s' : S)
      → Agrees trees is_dir Inv read
      → ((id : Bytes) → OneKind trees is_dir (trees id))
      → Closed trees is_dir live
      → Inv s
      → mark_live read fuel root live s ≡ returns (live', none) s'
      → ((id : Bytes) → Has live id → Has live' id)
        × ((id : Bytes) → Reaches trees is_dir root id → Has live' id)
        × Closed trees is_dir live'
  unfolding mark_live insert
  mark_live-Reaches Inv read fuel root live live' s s' agrees kinds closed inv run =
      elim (Bool-cases (contains root live)) [
        | inl old ↦
            let (closed', more) =
              mark_loop-Closed trees is_dir Inv read agrees kinds fuel live [] live' s s' inv
                (λ id child h d c. inr (closed id child h d c)) (rw old at run) in
            (more, λ id r. Closed-Reaches live' root closed' (more root old) r, closed')
        | inr fresh ↦
            let (closed', more) =
              mark_loop-Closed trees is_dir Inv read agrees kinds fuel (root ∷ live) (root ∷ [])
                live' s s' inv (ClosedBut-of_Closed root live closed) (rw fresh at run) in
            (
              λ id h. more id ((Has-cons id root live).1 (inr h)),
              λ id r.
                  Closed-Reaches live' root closed'
                    (more root ((Has-cons root root live).1 (inl refl))) r,
              closed',
            )
      ]

-- ===== src/Pack/Open/Maps.antt =====
-- The mapping of the pack that `open_once` ends with.
use nix_tarmac.Base.{
  ℕ, suc, ◌≡◌, refl, ◌∙◌, true, false, ◌==◌, Option, none, some, [], ==_refl, inl, inr,
  Option-cases,
}
use nix_tarmac.Base.Result.{system_error}
use nix_tarmac.Base.Exec.{Ends, Ends-continue}
use nix_tarmac.Pack.Platform.{Platform}
use nix_tarmac.Pack.State.{
  Impl, Mapping, check, open_pack, map_pack, file_size, install, mapping_for, known_mapping,
}
use nix_tarmac.Pack.Open.Steps.{Fails, check-Ends}

module _ {T : Type 0} (p : Platform T) where
  -- The fields of the process, and the index.
  abbrev Same : Impl T → Impl T → Type 0
  Same s t =
      (t.committed ≡ s.committed)
      × (t.locked ≡ s.locked)
      × (t.wtxn ≡ s.wtxn)
      × (t.cur ≡ s.cur)
      × (t.retired ≡ s.retired)

  -- The file of that name: the old one as it was, or a new one that is empty; the other names stay.
  abbrev pub IsPack : Impl T → ℕ → ℕ → Impl T → Type 0
  IsPack s gen inode t =
      (t.names gen ≡ some inode)
      × ((i : ℕ) → s.names gen ≡ some i → (inode ≡ i) × (t.contents i ≡ s.contents i))
      × (s.names gen ≡ none → t.contents inode ≡ [])
      × ((j : ℕ) → (gen == j) ≡ false → t.names j ≡ s.names j)

  module _ (F : Type 0) (call : (n : ℕ) → p.kernel.fails n ≡ true → F) where
    open_pack-Ends :
        (gen : ℕ) (s : Impl T)
        → Ends
            (λ found t. (inode : ℕ) × (found ≡ some inode) × IsPack s gen inode t × Same s t)
            (Fails p F call)
            (open_pack p gen true s)
    unfolding open_pack
    open_pack-Ends gen s = elim (Option-cases (s.names gen)) [
      | inr (inode, there) ↦
          rw (there, open_pack)
            (Ends-continue _ _ (Fails p F call) (check p system_error s) _
              (check-Ends p F call system_error s)
              λ done t is_t. rw is_t (
                inode,
                refl,
                (there, (λ i e. (cc e, refl)), (λ missing. absurd (cc missing)), (λ j other. refl)),
                (refl, refl, refl, refl, refl),
              ))
      | inl missing ↦
          rw (missing, open_pack)
            (Ends-continue _ _ (Fails p F call) (check p system_error s) _
              (check-Ends p F call system_error s)
              λ done t is_t. rw is_t (
                s.next_inode,
                refl,
                (
                  rw (==_refl gen) refl,
                  (λ i e. absurd (cc e)),
                  (λ gone. rw (==_refl s.next_inode) refl),
                  (λ j other. rw other refl),
                ),
                (refl, refl, refl, refl, refl),
              ))
    ]

    file_size-Ends :
        (m : Mapping) (s : Impl T)
        → Ends (λ size t. t ≡ record s { calls = suc s.calls }) (Fails p F call) (file_size p m s)
    unfolding file_size
    file_size-Ends m s =
        Ends-continue _ _ (Fails p F call) (check p system_error s) _
          (check-Ends p F call system_error s) λ done t is_t. is_t

    -- A mapping of the pack of that name.
    abbrev Maps : ℕ → Impl T → Option Mapping → Impl T → Type 0
    Maps gen s found t =
        (m : Mapping) × (found ≡ some m) × (m.gen ≡ gen) × IsPack s gen m.inode t × Same s t

    map_pack-Ends :
        (gen : ℕ) (s : Impl T) → Ends (Maps gen s) (Fails p F call) (map_pack p gen true s)
    unfolding map_pack
    map_pack-Ends gen s =
        Ends-continue _ (Maps gen s) (Fails p F call) (open_pack p gen true s) _
          (open_pack-Ends gen s)
          λ found t (inode, is_some, is_pack, same). rw is_some (
            Ends-continue _ (Maps gen s) (Fails p F call)
              (file_size p (record { gen = gen; inode = inode; size = 0 }) t) _
              (file_size-Ends (record { gen = gen; inode = inode; size = 0 }) t)
              λ size u is_u.
                Ends-continue _ (Maps gen s) (Fails p F call) (check p system_error u) _
                  (check-Ends p F call system_error u)
                  λ done v is_v.
                    rw (is_v, is_u)
                      (record { gen = gen; inode = inode; size = size }, refl, refl, is_pack, same))

    pub mapping_for-Ends :
        (gen : ℕ) (s : Impl T)
        → s.cur ≡ none
        → s.retired ≡ []
        → Ends
            (λ found t.
              (m : Mapping) × (found ≡ some m)
              × (m.gen ≡ gen)
              × (t.cur ≡ some m)
              × IsPack s gen m.inode t
              × (t.committed ≡ s.committed)
              × (t.locked ≡ s.locked)
              × (t.wtxn ≡ s.wtxn))
            (Fails p F call)
            (mapping_for p gen true s)
    unfolding mapping_for known_mapping install
    mapping_for-Ends gen s no_cur none_retired =
        let unknown : known_mapping p gen s ≡ none =
          rw (no_cur, none_retired, known_mapping) refl in
        rw (unknown, mapping_for)
          (Ends-continue (Maps gen s) _ (Fails p F call) (map_pack p gen true s) _
            (map_pack-Ends gen s)
            λ found t (m, is_some, is_gen, is_pack, same).
              let (db, locked, txn, cur, retired) = same in
              let none_yet : t.cur ≡ none = cur ∙ no_cur in
              rw (is_some, none_yet, install) (m, refl, is_gen, refl, is_pack, db, locked, txn))

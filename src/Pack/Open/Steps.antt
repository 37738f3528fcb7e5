-- ===== src/Pack/Open/Steps.antt =====
-- What each step of `open_once` leaves, where it does not throw. A throw needs `F`.
use nix_tarmac.Base.{
  ℕ, suc, ◌+◌, ◌≡◌, refl, sym, ap, ◌∙◌, true, false, ◌||◌, if◌then◌else◌, Option, none, some, List,
  [], ◌∷◌, ◌==◌, length, drop, ◌⊎◌, inl, inr, Bool-cases, Option-cases,
}
use nix_tarmac.Base.Bytes.{Bytes, bytes_eq, bytes_eq_iff, bytes_eq_refl}
use nix_tarmac.Base.Result.{Error, ok, runtime_error, system_error, Result-cases}
use nix_tarmac.Base.Exec.{returns, Ends, Ends-continue, Ends_mono}
use nix_tarmac.Pack.Platform.{Platform, assoc}
use nix_tarmac.Pack.State.{Impl, Db, update, check, gen_key, gen_of, read_gen}
use nix_tarmac.Pack.Meta.{format_key, format, check_record, check_format}
use nix_tarmac.Pack.Batch.{unlock_writer}
use nix_tarmac.Pack.Compact.{unlink_pack}
use nix_tarmac.Pack.Open.{
  pack_gen, is_canonical, cleanup_file, cleanup_loop, cleanup_orphans, checks, try_lock, cleanup,
}

module _ {T : Type 0} (p : Platform T) where
  -- Calls were made, and files other than the pack of that generation may be gone.
  abbrev pub Keeps : Option ℕ → Impl T → Impl T → Type 0
  Keeps none s t = (n : ℕ) × (t ≡ record s { calls = n })
  Keeps (some gen) s t =
      (n : ℕ) × (names : ℕ → Option ℕ) × (names gen ≡ s.names gen)
      × ((j : ℕ) → s.names j ≡ none → names j ≡ none)
      × (t ≡ record s { calls = n; names = names })

  removed : (names : ℕ → Option ℕ) (gen j : ℕ) → names j ≡ none → update names gen none j ≡ none
  removed names gen j gone = elim (Bool-cases (gen == j)) [
    | inl same ↦ rw same refl
    | inr other ↦ rw other gone
  ]

  format_put : (meta : T) → p.lmdb.get format_key (p.lmdb.put format_key format meta) ≡ some format
  unfolding bytes_eq
  format_put meta = p.lmdb.get-put format_key format_key format meta

  other_put :
      (meta : T) (key : Bytes)
      → bytes_eq format_key key ≡ false
      → p.lmdb.get key (p.lmdb.put format_key format meta) ≡ p.lmdb.get key meta
  other_put meta key other =
      p.lmdb.get-put key format_key format meta
      ∙ ap (λ b. if b then some format else p.lmdb.get key meta) other

  assoc-none :
      (entries : List (Bytes × Bytes)) → ((j : Bytes) → assoc j entries ≡ none) → entries ≡ []
  assoc-none [] h = refl
  assoc-none ((key, val) ∷ rest) h = absurd (cc (rw (bytes_eq_refl key) at (h key)))

  no_entries : p.lmdb.entries p.lmdb.empty ≡ []
  no_entries =
      assoc-none (p.lmdb.entries p.lmdb.empty)
        λ j. p.lmdb.assoc-entries j p.lmdb.empty ∙ p.lmdb.get-empty j

  -- The record of the format is that of this version, or is missing where there are no blobs.
  abbrev pub FormatOk : Db T → Type 0
  FormatOk db =
      (p.lmdb.get format_key db.meta ≡ some format)
      ⊎ ((p.lmdb.get format_key db.meta ≡ none) × ((length (p.lmdb.entries db.blobs) == 0) ≡ true))

  -- An index that this version can use.
  abbrev pub IsUsable : Db T → Type 0
  IsUsable db = FormatOk db × (gen : ℕ) × (gen_of p db ≡ ok gen)

  abbrev pub empty_db : Db T
  empty_db = record { blobs = p.lmdb.empty; meta = p.lmdb.empty }

  pub empty_db-IsUsable : IsUsable empty_db
  unfolding gen_of
  empty_db-IsUsable = (
    inr (p.lmdb.get-empty format_key, rw no_entries refl),
    0,
    rw (p.lmdb.get-empty gen_key, gen_of) refl,
  )

  not_format :
      (db : Db T) (val : Bytes)
      → p.lmdb.get format_key db.meta ≡ some val
      → bytes_eq val format ≡ false
      → ¬ FormatOk db
  not_format db val there other (inl found) =
      let same : val ≡ format = cc (sym there ∙ found) in
      cc (sym other ∙ (bytes_eq_iff val format).1 same)
  not_format db val there other (inr (missing, new)) = cc (sym there ∙ missing)

  not_new :
      (db : Db T)
      → p.lmdb.get format_key db.meta ≡ none
      → (length (p.lmdb.entries db.blobs) == 0) ≡ false
      → ¬ FormatOk db
  not_new db missing old (inl found) = cc (sym missing ∙ found)
  not_new db missing old (inr (none_there, new)) = cc (sym old ∙ new)

  -- What `check_format` gives.
  abbrev pub Formatted : Impl T → Db T → Db T → Impl T → Type 0
  Formatted s db db' t =
      Keeps none s t
      × (p.lmdb.get format_key db'.meta ≡ some format)
      × (db'.blobs ≡ db.blobs)
      × ((key : Bytes)
          → bytes_eq format_key key ≡ false
          → p.lmdb.get key db'.meta ≡ p.lmdb.get key db.meta)
      × FormatOk db

  -- `F` is what a throw needs: a call that fails, or a store that is not empty.
  module _ (F : Type 0) (call : (n : ℕ) → p.kernel.fails n ≡ true → F) where
    abbrev pub Fails : Error → Impl T → Type 0
    Fails e t = F

    pub check-Ends :
        (e : Error) (s : Impl T)
        → Ends (λ done t. t ≡ record s { calls = suc s.calls }) Fails (check p e s)
    unfolding check
    check-Ends e s = elim (Bool-cases (p.kernel.fails s.calls)) [
      | inl bad ↦ rw bad (call s.calls bad)
      | inr good ↦ rw good refl
    ]

    pub checks-Ends :
        (es : List Error) (s : Impl T) → Ends (λ done t. Keeps none s t) Fails (checks p es s)
    unfolding checks
    checks-Ends [] s = (s.calls, refl)
    checks-Ends (e ∷ es) s =
        Ends-continue _ (λ done t. Keeps none s t) Fails (check p e s) (λ done. checks p es)
          (check-Ends e s)
          λ done t is_t. rw is_t (checks-Ends es (record s { calls = suc s.calls }))

    cleanup_file-Keeps :
        (live : ℕ) (name : Bytes) (s : Impl T) → Keeps (some live) s (cleanup_file p live name s)
    unfolding cleanup_file unlink_pack
    cleanup_file-Keeps live name s = elim (Option-cases (pack_gen name)) [
      | inl not_pack ↦ (s.calls, s.names, refl, (λ j gone. gone), rw (not_pack, cleanup_file) refl)
      | inr (gen, is_pack) ↦ elim (Bool-cases (gen == live)) [
        | inl lives ↦
            (s.calls, s.names, refl, (λ j gone. gone), rw (is_pack, cleanup_file, lives) refl)
        | inr orphan ↦ elim (Bool-cases (is_canonical (drop 5 name))) [
          | inr other ↦ (
            s.calls + 1,
            s.names,
            refl,
            (λ j gone. gone),
            rw (is_pack, cleanup_file, orphan, other) refl,
          )
          | inl named ↦ elim (Bool-cases (p.kernel.fails s.calls)) [
            | inl bad ↦ (
              suc s.calls,
              s.names,
              refl,
              (λ j gone. gone),
              rw (is_pack, cleanup_file, orphan, named, unlink_pack, bad) refl,
            )
            | inr good ↦ (
              suc s.calls,
              update s.names gen none,
              rw orphan refl,
              (λ j gone. removed s.names gen j gone),
              rw (is_pack, cleanup_file, orphan, named, unlink_pack, good) refl,
            )
          ]
        ]
      ]
    ]

    cleanup_loop-Ends :
        (live : ℕ) (names : List Bytes) (s : Impl T)
        → Ends (λ done t. Keeps (some live) s t) Fails (cleanup_loop p live names s)
    unfolding cleanup_loop
    cleanup_loop-Ends live [] s = (s.calls, s.names, refl, (λ j gone. gone), refl)
    cleanup_loop-Ends live (name ∷ names) s =
        let (n, ns, same, fewer, e) = cleanup_file-Keeps live name s in
        rw e (
          Ends-continue _ (λ done t. Keeps (some live) s t) Fails
            (check p system_error (record s { calls = n; names = ns }))
            (λ done. cleanup_loop p live names)
            (check-Ends system_error (record s { calls = n; names = ns }))
            λ done t is_t. rw is_t (
              Ends_mono _ (λ done t. Keeps (some live) s t) Fails Fails _
                (cleanup_loop-Ends live names (record s { calls = suc n; names = ns }))
                (λ done u (m, ms, also, less, e').
                  (m, ms, also ∙ same, (λ j gone. less j (fewer j gone)), e'))
                (λ x u f. f)))

    cleanup_orphans-Ends :
        (names : List Bytes) (live : ℕ) (s : Impl T)
        → Ends (λ done t. Keeps (some live) s t) Fails (cleanup_orphans p names live s)
    unfolding cleanup_orphans
    cleanup_orphans-Ends names live s =
        Ends-continue _ (λ done t. Keeps (some live) s t) Fails (check p system_error s)
          (λ done. cleanup_loop p live names) (check-Ends system_error s)
          λ done t is_t. rw is_t (cleanup_loop-Ends live names (record s { calls = suc s.calls }))

    -- The lock is given back.
    pub cleanup-Ends :
        (names : List Bytes) (live : ℕ) (s : Impl T)
        → s.locked ≡ false
        → Ends (λ done t. Keeps (some live) s t) Fails (cleanup p names live s)
    unfolding cleanup try_lock cleanup_orphans unlock_writer
    cleanup-Ends names live s free =
        elim (Bool-cases (p.kernel.fails s.calls || p.kernel.busy s.calls)) [
          | inl taken ↦ rw (cleanup, taken) (s.calls + 1, s.names, refl, (λ j gone. gone), refl)
          | inr got ↦
              let s1 = record s { calls = s.calls + 1; locked = true } in
              rw (cleanup, got)
                (Ends-continue (λ done t. Keeps (some live) s1 t) (λ done t. Keeps (some live) s t)
                  Fails (cleanup_orphans p names live s1)
                  (λ done t. returns tt (record t { locked = false }))
                  (cleanup_orphans-Ends names live s1)
                  λ done t (n, ns, same, fewer, e). (
                    n,
                    ns,
                    same,
                    fewer,
                    rw e (ap (λ l. record s { calls = n; names = ns; locked = l }) (sym free)),
                  ))
        ]

    check_record-Ends :
        (s : Impl T) (db : Db T)
        → FormatOk db ⊎ F
        → Ends (Formatted s db) Fails (check_record p db s)
    unfolding check_record
    check_record-Ends s db h = elim (Option-cases (p.lmdb.get format_key db.meta)) [
      | inr (val, there) ↦ elim (Bool-cases (bytes_eq val format)) [
        | inl same ↦
            let is_format = there ∙ ap some ((bytes_eq_iff val format).0 same) in
            rw (there, check_record, same)
              ((s.calls, refl), is_format, refl, (λ key other. refl), inl is_format)
        | inr other ↦
            rw (there, check_record, other)
              (elim h [ inl found ↦ absurd (not_format db val there other found) | inr f ↦ f ])
      ]
      | inl missing ↦
          rw (missing, check_record)
            (Ends-continue _ (Formatted s db) Fails (check p runtime_error s) _
              (check-Ends runtime_error s)
              λ done t is_t. elim (Bool-cases (length (p.lmdb.entries db.blobs) == 0)) [
                | inr old ↦
                    rw old
                      (elim h [ inl found ↦ absurd (not_new db missing old found) | inr f ↦ f ])
                | inl new ↦
                    rw (new, is_t)
                      (Ends-continue _ (Formatted s db) Fails
                        (check p runtime_error (record s { calls = suc s.calls })) _
                        (check-Ends runtime_error (record s { calls = suc s.calls }))
                        λ done u is_u. (
                          (suc (suc s.calls), is_u),
                          format_put db.meta,
                          refl,
                          (λ key other. other_put db.meta key other),
                          inr (missing, new),
                        ))
              ])
    ]

    pub check_format-Ends :
        (s : Impl T) (db : Db T)
        → FormatOk db ⊎ F
        → Ends (Formatted s db) Fails (check_format p db s)
    unfolding check_format
    check_format-Ends s db h =
        Ends-continue _ (Formatted s db) Fails (check p runtime_error s) _
          (check-Ends runtime_error s)
          λ done t is_t. rw is_t (
            Ends_mono _ (Formatted s db) Fails Fails _
              (check_record-Ends (record s { calls = suc s.calls }) db h) (λ db' u q. q)
              (λ x u f. f))

    pub read_gen-Ends :
        (s : Impl T) (db : Db T)
        → ((gen : ℕ) × (gen_of p db ≡ ok gen)) ⊎ F
        → Ends
            (λ gen t. (t ≡ record s { calls = suc s.calls }) × (gen_of p db ≡ ok gen))
            Fails
            (read_gen p db s)
    unfolding read_gen
    read_gen-Ends s db h =
        Ends-continue _ (λ gen t. (t ≡ record s { calls = suc s.calls }) × (gen_of p db ≡ ok gen))
          Fails (check p runtime_error s) _ (check-Ends runtime_error s)
          λ done t is_t. elim (Result-cases (gen_of p db)) [
            | inl (gen, found) ↦ rw (is_t, found) (refl, refl)
            | inr (e, bad) ↦
                rw bad (elim h [ inl (gen, found) ↦ absurd (cc (sym bad ∙ found)) | inr f ↦ f ])
          ]

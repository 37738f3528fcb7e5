-- ===== src/Pack/Open/Opens.antt =====
-- What `open_once` and `open` leave.
use nix_tarmac.Base.{
  ℕ, suc, ◌≡◌, refl, sym, ap, subst, ◌∙◌, true, false, ◌==◌, Option, none, some, List, [], ◌⊎◌, inl,
  inr,
}
use nix_tarmac.Base.Bytes.{Bytes, bytes_eq}
use nix_tarmac.Base.Result.{ok, runtime_error, system_error}
use nix_tarmac.Base.Exec.{Outcome, returns, throws, Ends, Ends-continue, Outcome-cases}
use nix_tarmac.Pack.Platform.{Platform}
use nix_tarmac.Pack.State.{Impl, Mapping, Db, check, gen_key, gen_of, read_gen, mapping_for}
use nix_tarmac.Pack.Meta.{format_key, format, check_format}
use nix_tarmac.Pack.Batch.{unlock_writer}
use nix_tarmac.Pack.Open.{
  fresh, env_calls, open_env, open_txn, cleanup, finish_open, open_once, remove_all, open_cas,
}
use nix_tarmac.Pack.Open.Steps.{
  Keeps, FormatOk, IsUsable, empty_db, empty_db-IsUsable, Formatted, Fails, check-Ends, checks-Ends,
  cleanup-Ends, check_format-Ends, read_gen-Ends,
}
use nix_tarmac.Pack.Open.Maps.{IsPack, mapping_for-Ends}

module _ {T : Type 0} (p : Platform T) where
  -- An opened store: its index is the old one with the format of this version, the current mapping is
  -- that of the generation in the index, on the pack of that name, which is as it was or new, and
  -- neither lock nor batch is held. No other pack has come.
  pub record IsOpen (s t : Impl T) : Type 0 where
    pub mapping : Mapping
    pub mapped : t.cur ≡ some mapping
    pub of_gen : gen_of p t.committed ≡ ok mapping.gen
    pub same_gen : gen_of p s.committed ≡ ok mapping.gen
    pub of_format : p.lmdb.get format_key t.committed.meta ≡ some format
    pub same_blobs : t.committed.blobs ≡ s.committed.blobs
    pub same_meta :
        (key : Bytes)
        → bytes_eq format_key key ≡ false
        → p.lmdb.get key t.committed.meta ≡ p.lmdb.get key s.committed.meta
    pub named : t.names mapping.gen ≡ some mapping.inode
    pub kept :
        (i : ℕ) → s.names mapping.gen ≡ some i → (mapping.inode ≡ i) × (t.contents i ≡ s.contents i)
    pub created : s.names mapping.gen ≡ none → t.contents mapping.inode ≡ []
    pub no_others : (j : ℕ) → (mapping.gen == j) ≡ false → s.names j ≡ none → t.names j ≡ none
    pub unlocked : t.locked ≡ false
    pub no_batch : t.wtxn ≡ none

  -- An empty directory in place of the old one.
  abbrev pub emptied : Impl T → Impl T
  emptied s = record s { names = λ gen. none; committed = empty_db p }

  module _ (F : Type 0) (call : (n : ℕ) → p.kernel.fails n ≡ true → F) where
    -- The transaction was committed, with the generation and with the format of this version.
    abbrev Opened : Impl T → ℕ → Impl T → Type 0
    Opened s gen t =
        (n : ℕ) × (db : Db T) × (t ≡ record (fresh p s) { calls = n; committed = db })
        × (p.lmdb.get format_key db.meta ≡ some format)
        × (db.blobs ≡ s.committed.blobs)
        × ((key : Bytes)
            → bytes_eq format_key key ≡ false
            → p.lmdb.get key db.meta ≡ p.lmdb.get key s.committed.meta)
        × FormatOk p s.committed
        × (gen_of p db ≡ ok gen)

    -- The record of the generation is another one than that of the format.
    same_gen_of :
        (db db' : Db T)
        → ((key : Bytes)
            → bytes_eq format_key key ≡ false
            → p.lmdb.get key db'.meta ≡ p.lmdb.get key db.meta)
        → gen_of p db' ≡ gen_of p db
    unfolding gen_of bytes_eq
    same_gen_of db db' same = rw (same gen_key refl, gen_of) refl

    open_txn-Ends :
        (s : Impl T) (n : ℕ)
        → IsUsable p s.committed ⊎ F
        → Ends (Opened s) (Fails p F call) (open_txn p (record (fresh p s) { calls = n }))
    unfolding open_txn
    open_txn-Ends s n h =
        Ends-continue (Formatted p (record (fresh p s) { calls = n }) s.committed) (Opened s)
          (Fails p F call) (check_format p s.committed (record (fresh p s) { calls = n })) _
          (check_format-Ends p F call (record (fresh p s) { calls = n }) s.committed
            (elim h [ inl usable ↦ inl usable.0 | inr f ↦ inr f ]))
          λ db t ((m, is_t), formatted, blobs, meta, format_ok).
            Ends-continue _ (Opened s) (Fails p F call) (read_gen p db t) _
              (read_gen-Ends p F call t db (elim h [
                | inl (ok_format, gen, found) ↦ inl (gen, same_gen_of s.committed db meta ∙ found)
                | inr f ↦ inr f
              ]))
              λ gen u (is_u, found).
                Ends-continue _ (Opened s) (Fails p F call) (check p runtime_error u) _
                  (check-Ends p F call runtime_error u)
                  λ done v is_v.
                    rw (is_v, is_u, is_t)
                      (suc (suc m), db, refl, formatted, blobs, meta, format_ok, found)

    -- Opened, which only an index that can be used is.
    abbrev Ready : Impl T → Unit {0} → Impl T → Type 0
    Ready s done t = IsUsable p s.committed × IsOpen s t

    caught :
        {A : Type 0} (Q : A → Impl T → Type 0) (clean : Impl T → Impl T) (o : Outcome (Impl T) A)
        → Ends Q (Fails p F call) o
        → Ends Q (Fails p F call) (elim o as (λ _. Outcome (Impl T) A) [
          | returns a t ↦ returns a t
          | throws e t ↦ throws e (clean t)
        ])
    caught Q clean (returns a t) h = h
    caught Q clean (throws e t) h = h

    -- The end of `finish_open`, on the names that the clean-up has left.
    opened_at :
        (s w : Impl T) (db : Db T) (gen : ℕ) (m : Mapping) (names : ℕ → Option ℕ) (n : ℕ)
        → p.lmdb.get format_key db.meta ≡ some format
        → db.blobs ≡ s.committed.blobs
        → ((key : Bytes)
            → bytes_eq format_key key ≡ false
            → p.lmdb.get key db.meta ≡ p.lmdb.get key s.committed.meta)
        → gen_of p db ≡ ok gen
        → names gen ≡ s.names gen
        → ((j : ℕ) → s.names j ≡ none → names j ≡ none)
        → m.gen ≡ gen
        → w.cur ≡ some m
        → IsPack p (record (fresh p s) { calls = n; names = names; committed = db }) gen m.inode w
        → w.committed ≡ db
        → w.locked ≡ false
        → w.wtxn ≡ none
        → IsOpen s w
    opened_at s w db gen m names n formatted blobs meta found same fewer is_gen mapped is_pack db_w
          locked txn =
        let (named, kept, created, others) = is_pack in
        record {
          mapping = m;
          mapped = mapped;
          of_gen = ap (gen_of p) db_w ∙ found ∙ ap ok (sym is_gen);
          same_gen = sym (same_gen_of s.committed db meta) ∙ found ∙ ap ok (sym is_gen);
          of_format = ap (λ (d : Db T). p.lmdb.get format_key d.meta) db_w ∙ formatted;
          same_blobs = ap (λ (d : Db T). d.blobs) db_w ∙ blobs;
          same_meta = λ key other. ap (λ (d : Db T). p.lmdb.get key d.meta) db_w ∙ meta key other;
          named = ap w.names is_gen ∙ named;
          kept = λ i there. kept i (same ∙ ap s.names (sym is_gen) ∙ there);
          created = λ gone. created (same ∙ ap s.names (sym is_gen) ∙ gone);
          no_others =
              λ j other gone. others j (ap (λ g. g == j) (sym is_gen) ∙ other) ∙ fewer j gone;
          unlocked = locked;
          no_batch = txn;
        }

    finish_open-Ends :
        (names : List Bytes) (gen : ℕ) (s t : Impl T)
        → Opened s gen t
        → Ends (Ready s) (Fails p F call) (finish_open p names gen t)
    unfolding finish_open
    finish_open-Ends names gen s t (n, db, is_t, formatted, blobs, meta, format_ok, found) =
        rw is_t (
          Ends-continue _ (Ready s) (Fails p F call)
            (check p system_error (record (fresh p s) { calls = n; committed = db })) _
            (check-Ends p F call system_error (record (fresh p s) { calls = n; committed = db }))
            λ done u is_u. rw is_u (
              Ends-continue _ (Ready s) (Fails p F call)
                (cleanup p names gen (record (fresh p s) { calls = suc n; committed = db })) _
                (cleanup-Ends p F call names gen
                  (record (fresh p s) { calls = suc n; committed = db }) refl)
                λ done v (k, ns, same, fewer, is_v). rw is_v (
                  Ends-continue _ (Ready s) (Fails p F call)
                    (mapping_for p gen true
                      (record (fresh p s) { calls = k; names = ns; committed = db }))
                    _
                    (mapping_for-Ends p F call gen
                      (record (fresh p s) { calls = k; names = ns; committed = db }) refl refl)
                    λ mapping w (m, is_some, is_gen, mapped, is_pack, db_w, locked, txn).
                      rw is_some (
                        (format_ok, gen, sym (same_gen_of s.committed db meta) ∙ found),
                        opened_at s w db gen m ns k formatted blobs meta found same fewer is_gen
                            mapped is_pack db_w locked txn,
                      ))))

    open_once-Ends :
        (names : List Bytes) (s : Impl T)
        → IsUsable p s.committed ⊎ F
        → Ends (Ready s) (Fails p F call) (open_once p names s)
    unfolding open_once open_env
    open_once-Ends names s h = caught (Ready s) (unlock_writer p) _ (
        Ends-continue (λ done t. Keeps p none (fresh p s) t) (Ready s) (Fails p F call)
          (open_env p (fresh p s)) _ (checks-Ends p F call env_calls (fresh p s))
          λ done t (n, is_t). rw is_t (
            Ends-continue (Opened s) (Ready s) (Fails p F call)
              (open_txn p (record (fresh p s) { calls = n })) _ (open_txn-Ends s n h)
              λ gen u opened. finish_open-Ends names gen s u opened))

  -- Where `open` ends: on the directory as it was, if its index can be used, or else on an empty one.
  abbrev pub Recovered : Impl T → Impl T → Type 0
  Recovered s t =
      (IsUsable p s.committed × IsOpen s t) ⊎ ((¬ IsUsable p s.committed) × IsOpen (emptied s) t)

  -- Only what a directory holds is read of the state before.
  pub IsOpen-of_emptied :
      (s u t : Impl T)
      → u.committed ≡ empty_db p
      → ((gen : ℕ) → u.names gen ≡ none)
      → IsOpen u t
      → IsOpen (emptied s) t
  IsOpen-of_emptied s u t empty gone h = record {
    mapping = h.mapping;
    mapped = h.mapped;
    of_gen = h.of_gen;
    same_gen = ap (gen_of p) (sym empty) ∙ h.same_gen;
    of_format = h.of_format;
    same_blobs = h.same_blobs ∙ ap (λ (d : Db T). d.blobs) empty;
    same_meta = λ key other. h.same_meta key other ∙ ap (λ (d : Db T). p.lmdb.get key d.meta) empty;
    named = h.named;
    kept = λ i there. absurd (cc there);
    created = λ none_there. h.created (gone h.mapping.gen);
    no_others = λ j other none_there. h.no_others j other (gone j);
    unlocked = h.unlocked;
    no_batch = h.no_batch;
  }

  module _ (works : (n : ℕ) → p.kernel.fails n ≡ false) where
    no_call : (n : ℕ) → p.kernel.fails n ≡ true → ⊥
    no_call n bad = cc (sym bad ∙ works n)

    returns_of :
        {A : Type 0} (Q : A → Impl T → Type 0) (o : Outcome (Impl T) A)
        → Ends Q (Fails p ⊥ no_call) o
        → (a : A) × (t : Impl T) × (o ≡ returns a t) × Q a t
    returns_of Q (returns a t) h = (a, t, refl, h)
    returns_of Q (throws e t) h = absurd h

    opens :
        (names : List Bytes) (s : Impl T)
        → IsUsable p s.committed
        → (done : Unit {0}) × (t : Impl T) × (open_once p names s ≡ returns done t)
          × Ready ⊥ no_call s done t
    opens names s usable =
        returns_of (Ready ⊥ no_call s) (open_once p names s)
          (open_once-Ends ⊥ no_call names s (inl usable))

    removed_db :
        (remains : Impl T → Impl T) (t : Impl T) → (remove_all p remains t).committed ≡ empty_db p
    unfolding remove_all
    removed_db remains t = rw (works t.calls, remove_all) refl

    removed_names :
        (remains : Impl T → Impl T) (t : Impl T) (gen : ℕ)
        → (remove_all p remains t).names gen ≡ none
    unfolding remove_all
    removed_names remains t gen = rw (works t.calls, remove_all) refl

    -- Where no call fails, `open` returns on whatever a directory holds, and the store is open: if the
    -- index has the format of this version, or neither a format nor blobs, and a generation that can
    -- be read, on that index, with its blobs and its other records kept, and on the pack of its
    -- generation as it was; otherwise on an empty directory, with a new pack that is empty.
    pub open_cas-Recovered :
        (names left : List Bytes) (remains : Impl T → Impl T) (s : Impl T)
        → (t : Impl T) × (open_cas p names left remains s ≡ returns tt t) × Recovered s t
    unfolding open_cas
    open_cas-Recovered names left remains s = elim (Outcome-cases (open_once p names s)) [
      | inl (done, t, e) ↦ (
        t,
        rw (e, open_cas) refl,
        inl (rw e at (open_once-Ends (Unit {0}) (λ n bad. tt) names s (inr tt))),
      )
      | inr (x, t, e) ↦
          let u = remove_all p remains t in
          let empty = removed_db remains t in
          let (done, v, returned, (is_usable, is_open)) =
            opens left u (subst (IsUsable p) (sym empty) (empty_db-IsUsable p)) in
          (
            v,
            rw (e, open_cas) returned,
            inr (
              (λ usable. let (done, w, fine, ready) = opens names s usable in cc (sym e ∙ fine)),
              IsOpen-of_emptied s u v empty (removed_names remains t) is_open,
            ),
          )
    ]

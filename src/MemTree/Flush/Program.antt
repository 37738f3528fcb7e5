-- ===== src/MemTree/Flush/Program.antt =====
-- `flush_tree` with `TreeStore::putTree`.
use nix_tarmac.Base.{ℕ, ◌≡◌, refl, Option-cases, List, [], inl, inr, false, leb, if◌then◌else◌}
use nix_tarmac.Base.Bytes.{Bytes}
use nix_tarmac.Base.Result.{ok, err, Error, Result-cases}
use nix_tarmac.Base.Exec.{pure, Outcome, returns, throws, Ends, Ends-continue, Outcome-cases}
use nix_tarmac.Pack.Platform.{Platform}
use nix_tarmac.Pack.State.{Impl, lookup}
use nix_tarmac.Pack.Batch.{sync}
use nix_tarmac.Pack.Blobs.{ensure_batch, append_blob, put, auto_sync_bytes}
use nix_tarmac.TreeObject.{TreeEntry, encode_tree}
use nix_tarmac.Roots.{put_tree}
use nix_tarmac.MemTree.Flush.Correct.{TreeObjects}

module _ {T : Type 0} (p : Platform T) (tid : ℕ) where
  anything : {A : Type 0} (o : Outcome (Impl T) A) → Ends (λ a t. Unit {0}) (λ e t. Unit {0}) o
  anything (returns a t) = tt
  anything (throws e t) = tt

  put-Ends :
      (raw : Bytes) (s : Impl T)
      → Ends (λ id t. id ≡ p.blake3 raw) (λ e t. Unit {0}) (put p tid raw s)
  unfolding put
  put-Ends raw s =
      let Is = λ (id : Bytes) (t : Impl T). id ≡ p.blake3 raw in
      let Thrown = λ (e : Error) (t : Impl T). Unit {0} in
      Ends-continue (λ done t. Unit {0}) Is Thrown (ensure_batch p tid s) _
        (anything (ensure_batch p tid s))
        λ done t _.
          Ends-continue (λ found t. Unit {0}) Is Thrown (lookup p tid false (p.blake3 raw) t) _
            (anything (lookup p tid false (p.blake3 raw) t))
            λ (gen, found) u _. elim (Option-cases found) [
              | inr (entry, there) ↦ rw there refl
              | inl absent ↦ rw absent (
                  Ends-continue (λ done t. Unit {0}) Is Thrown (append_blob p (p.blake3 raw) raw u)
                    _ (anything (append_blob p (p.blake3 raw) raw u))
                    λ done v _.
                      Ends-continue (λ done t. Unit {0}) Is Thrown
                        ((if leb auto_sync_bytes v.batch_bytes then sync p else pure tt) v) _
                        (anything
                          ((if leb auto_sync_bytes v.batch_bytes then sync p else pure tt) v))
                        λ done w _. refl)
            ]

  -- The hash of the tree object.
  abbrev pub tree_hash : List TreeEntry → Bytes
  tree_hash entries = elim (encode_tree entries) [ err e ↦ [] | ok buf ↦ p.blake3 buf ]

  pub put_tree-id :
      (entries : List TreeEntry) (s t : Impl T) (id : Bytes)
      → put_tree p tid entries s ≡ returns id t
      → id ≡ tree_hash entries
  unfolding put_tree
  put_tree-id entries s t id e = elim (Result-cases (encode_tree entries)) [
    | inr (x, bad) ↦ absurd (cc (rw (bad, put_tree) at e))
    | inl (buf, good) ↦
        let run = rw (good, put_tree) at e in rw (good, tree_hash) (rw run at (put-Ends buf s))
  ]

  -- In the state, `putTree` has returned the id for the entries, and more calls of it since.
  pub data WasPut : Impl T → Bytes → List TreeEntry → Type 0 where
    now :
        (s : Impl T) {t : Impl T} {id : Bytes} {entries : List TreeEntry}
        → put_tree p tid entries s ≡ returns id t
        → WasPut t id entries
    before :
        (s : Impl T) (others : List TreeEntry) (other : Bytes) {t : Impl T} {id : Bytes}
        {entries : List TreeEntry}
        → WasPut s id entries
        → put_tree p tid others s ≡ returns other t
        → WasPut t id entries

  -- A call of `putTree` has thrown it.
  abbrev pub PutThrows : Error → Type 0
  PutThrows e =
      (entries : List TreeEntry) × (s : Impl T) × (t : Impl T) × (put_tree p tid entries s
        ≡ throws e t)

  abbrev pub objects : TreeObjects (Impl T)
  objects = record {
    put_tree = put_tree p tid;
    tree_id = tree_hash;
    Stored = WasPut;
    Fails = PutThrows;
    put_tree-Ends = λ es s. elim (Outcome-cases (put_tree p tid es s)) [
      | inl (id, t, e) ↦
          rw e (put_tree-id es s t id e, now s e, λ j fs stored. before s es id stored e)
      | inr (x, t, e) ↦ rw e (es, s, t, e)
    ];
  }

-- ===== src/Nar/Sha256/Streaming.antt =====
-- Hashing through the buffer is hashing the whole NAR.
use nix_tarmac.Base.{
  ℕ, ◌+◌, ◌%◌, ◌^◌, ◌≤◌, ◌≡◌, refl, sym, ap, ◌∙◌, ◌⊎◌, inl, inr, none, some, [], ◌++◌, arith, ltb,
  leb, ◌==◌, length, length-append, append_assoc, append-nil, Bool-cases, Option-cases,
}
use nix_tarmac.Base.Bytes.{Bytes}
use nix_tarmac.Base.Result.{Error, runtime_error}
use nix_tarmac.Base.Exec.{Outcome, returns, throws}
use nix_tarmac.Nar.Sha256.{
  Digest, HashState, update, flush, hash_sink, hash_buf_size, hash_direct_threshold,
}

module _ {D : Type 0} (digest : Digest D) where
  -- From `start`, the digest and the buffer together have taken `seen`.
  pub record Hashed (start : D) (seen : Bytes) (s : HashState D) : Type 0 where
    pub front : Bytes
    pub absorbed : digest.update start front ≡ some s.ctx
    pub together : front ++ s.buf ≡ seen
    pub buf_fits : length s.buf ≤ hash_buf_size
    pub counted : s.nar_size ≡ length seen % 2 ^ 64

  module _ (start : D) where
    -- The exception of a digest call that failed.
    abbrev pub Failed : Error → Type 0
    Failed e = (e ≡ runtime_error) × (c : D) × (a : Bytes) × (digest.update c a ≡ none)

    -- An outcome that keeps the relation, or a digest call that failed.
    abbrev pub Keeps : Bytes → Outcome (HashState D) (Unit {0}) → Type 0
    Keeps seen (returns _ s) = Hashed start seen s
    Keeps seen (throws e s) = Failed e

    pub flush_cases :
        (front seen : Bytes) (s : HashState D)
        → digest.update start front ≡ some s.ctx
        → front ++ s.buf ≡ seen
        → ((flush digest s ≡ throws runtime_error s) × Failed runtime_error)
          ⊎ ((s' : HashState D) × (flush digest s ≡ returns tt s')
              × (s'.buf ≡ [])
              × (s'.nar_size ≡ s.nar_size)
              × (digest.update start seen ≡ some s'.ctx))
    unfolding flush update
    flush_cases front seen s absorbed together = elim (Bool-cases (length s.buf == 0)) [
      | inl empty ↦
          let nothing : s.buf ≡ [] = ground arith in
          let all : front ≡ seen = sym (append-nil front) ∙ rw nothing at together in
          inr (s, rw empty, nothing, refl, rw (← all) absorbed)
      | inr some_left ↦ elim (Option-cases (digest.update s.ctx s.buf)) [
        | inl fails ↦ inl (rw (some_left, fails, update), (refl, s.ctx, s.buf, fails))
        | inr (d, e) ↦ inr (
          record s { ctx = d; buf = [] },
          rw (some_left, e, update),
          refl,
          refl,
          rw together at (digest.update-append start s.ctx d front s.buf absorbed e),
        )
      ]
    ]

    count_step :
        (seen chunk : Bytes) (n : ℕ)
        → n ≡ length seen % 2 ^ 64
        → (n + length chunk) % 2 ^ 64 ≡ length (seen ++ chunk) % 2 ^ 64
    count_step seen chunk n e = omega (arith, length-append seen chunk)

    update_step :
        (seen chunk : Bytes) (s : HashState D)
        → digest.update start seen ≡ some s.ctx
        → s.buf ≡ []
        → s.nar_size ≡ length (seen ++ chunk) % 2 ^ 64
        → Keeps (seen ++ chunk) (update digest chunk s)
    unfolding update
    update_step seen chunk s all empty size = elim (Option-cases (digest.update s.ctx chunk)) [
      | inl e ↦ rw (e, update) (refl, s.ctx, chunk, e)
      | inr (d, e) ↦
          rw (e, update)
            (record {
              front = seen ++ chunk;
              absorbed = digest.update-append start s.ctx d seen chunk all e;
              together = rw (empty, append-nil (seen ++ chunk));
              buf_fits = rw empty (omega arith);
              counted = size;
            })
    ]

    -- One chunk.
    pub hash_sink-Keeps :
        (seen chunk : Bytes) (s : HashState D)
        → Hashed start seen s
        → Keeps (seen ++ chunk) (hash_sink digest chunk s)
    unfolding hash_sink
    hash_sink-Keeps seen chunk s h =
        let t = record s { nar_size = (s.nar_size + length chunk) % 2 ^ 64 } in
        let size = count_step seen chunk s.nar_size h.counted in
        let flushed = flush_cases h.front seen t h.absorbed h.together in
        elim (Bool-cases (leb hash_direct_threshold (length chunk))) [
          | inl direct ↦ elim flushed [
            | inl (e, failed) ↦ rw (direct, e) failed
            | inr (s', e, empty, same, all) ↦
                rw (direct, e) (update_step seen chunk s' all empty (same ∙ size))
          ]
          | inr small ↦ elim (Bool-cases (ltb hash_buf_size (length s.buf + length chunk))) [
            | inl full ↦ elim flushed [
              | inl (e, failed) ↦ rw (small, full, e) failed
              | inr (s', e, empty, same, all) ↦
                  rw (small, full, e)
                    (record {
                      front = seen;
                      absorbed = all;
                      together = rw empty;
                      buf_fits = rw empty (ground arith);
                      counted = same ∙ size;
                    })
            ]
            | inr room ↦
                rw (small, room)
                  (record {
                    front = h.front;
                    absorbed = h.absorbed;
                    together =
                        sym (append_assoc h.front s.buf chunk)
                        ∙ ap (λ (x : Bytes). x ++ chunk) h.together;
                    buf_fits = ground (arith, length-append s.buf chunk);
                    counted = size;
                  })
          ]
        ]

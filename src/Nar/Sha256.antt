-- ===== src/Nar/Sha256.antt =====
-- `nar_sha256` of src/tree.cpp: small chunks are gathered in a buffer before they are hashed.
pub mod Streaming
pub mod Whole
use nix_tarmac.Base.{
  ℕ, zero, suc, ◌+◌, ◌-◌, ◌%◌, ◌^◌, ◌≤◌, ◌<◌, ◌≡◌, refl, sym, ap, ◌∙◌, ◌⊎◌, inl, inr, Bool, true,
  false, Option, none, some, List, [], ◌∷◌, ◌++◌, arith, ltb, leb, ◌==◌, if◌then◌else◌, length,
  length-append, append_assoc, append-nil, Bool-cases, Option-cases,
}
use nix_tarmac.Base.Bytes.{Bytes}
use nix_tarmac.Base.Text.{codes}
use nix_tarmac.Base.Result.{Error, Result, ok, err, runtime_error, out_of_fuel}
use nix_tarmac.Base.Exec.{
  Outcome, Exec, returns, throws, pure, throw, lift, gets, modify, continue, ◌>>=◌, ◌>>◌,
}
use nix_tarmac.TreeObject.{TreeEntry}
use nix_tarmac.Nar.{
  Objects, NarWork, text, node, nar_str, nar_leaf, nar_directory, nar_loop, nar_dump, push_children,
  leaf_tags, executable_tag, zeros, root_entry,
}

abbrev pub hash_buf_size : ℕ
hash_buf_size = 2 ^ 16

abbrev pub hash_direct_threshold : ℕ
hash_direct_threshold = 256

-- OpenSSL's digest: `none` is a call that does not return 1. Bytes may come in any pieces.
pub record Digest (D : Type 0) : Type 0 where
  pub init : Option D
  pub update : D → Bytes → Option D
  pub final : D → Option Bytes
  pub update-nil : (d : D) → update d [] ≡ some d
  pub update-append :
      (d e f : D) (a b : Bytes)
      → update d a ≡ some e
      → update e b ≡ some f
      → update d (a ++ b) ≡ some f

pub record HashState (D : Type 0) : Type 0 where
  pub ctx : D
  pub buf : Bytes
  pub nar_size : ℕ

module _ {D : Type 0} (digest : Digest D) where
  pub update : Bytes → Exec (HashState D) (Unit {0})
  update chunk s = elim (digest.update s.ctx chunk) [
    | none ↦ throws runtime_error s
    | some ctx ↦ returns tt (record s { ctx = ctx })
  ]

  pub flush : Exec (HashState D) (Unit {0})
  unfolding update
  flush s =
      if length s.buf == 0
      then returns tt s
      else (do update s.buf; modify (λ s. record s { buf = [] })) s

  -- The sink that `nar_sha256` hands to `nar_dump`.
  pub hash_sink : Bytes → Exec (HashState D) (Unit {0})
  unfolding flush update
  hash_sink chunk = do
    modify (λ s. record s { nar_size = (s.nar_size + length chunk) % 2 ^ 64 })
    buf ← gets (λ s. s.buf)
    if leb hash_direct_threshold (length chunk)
        then flush >> update chunk
        else ((if ltb hash_buf_size (length buf + length chunk) then flush else pure tt)
            >> modify (λ s. record s { buf = s.buf ++ chunk }))

  -- `fuel` is that of `nar_dump`.
  pub nar_sha256 : Objects → ℕ → Bytes → Result (Bytes × ℕ)
  nar_sha256 objects fuel root = elim digest.init [
    | none ↦ err runtime_error
    | some ctx ↦
        elim ((nar_dump objects hash_sink fuel root >> flush)
          (record { ctx = ctx; buf = []; nar_size = 0 })) [
            | throws e s ↦ err e
            | returns _ s ↦ elim (digest.final s.ctx) [
              | none ↦ err runtime_error
              | some hash ↦ ok (hash, s.nar_size)
            ]
          ]
  ]

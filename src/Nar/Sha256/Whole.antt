-- ===== src/Nar/Sha256/Whole.antt =====
-- `nar_sha256` against `nar_dump` into one string.
use nix_tarmac.Base.{
  ℕ, zero, suc, ◌%◌, ◌^◌, ◌≡◌, refl, ap, subst, ◌∙◌, inl, inr, Bool, true, false, none, some, List,
  [], ◌∷◌, ◌++◌, arith, ◌==◌, if◌then◌else◌, length,
}
use nix_tarmac.Base.Bytes.{Bytes}
use nix_tarmac.Base.Text.{codes}
use nix_tarmac.Base.Little.{le64}
use nix_tarmac.Base.Result.{Error, Result, ok, err, runtime_error, out_of_fuel}
use nix_tarmac.Base.Exec.{Outcome, Exec, returns, throws, pure, throw, lift, continue, ◌>>=◌, ◌>>◌}
use nix_tarmac.TreeObject.{TreeEntry}
use nix_tarmac.Nar.{
  Objects, NarWork, text, node, nar_str, nar_leaf, nar_directory, nar_loop, nar_dump,
}
use nix_tarmac.Nar.Sha256.{Digest, HashState, flush, hash_sink, nar_sha256}
use nix_tarmac.Nar.Sha256.Streaming.{Hashed, Failed, Keeps, hash_sink-Keeps, flush_cases}

-- A sink that keeps everything.
abbrev pub collect : Bytes → Exec Bytes (Unit {0})
collect chunk seen = returns tt (seen ++ chunk)

module _ {D : Type 0} (digest : Digest D) (start : D) where
  -- A run that collects beside a run that hashes.
  abbrev Related : {A : Type 0} → Outcome Bytes A → Outcome (HashState D) A → Type 0
  Related (returns a seen) (returns b s) = (a ≡ b) × Hashed digest start seen s
  Related (returns a seen) (throws e s) = Failed digest start e
  Related (throws e seen) (returns b s) = ⊥
  Related (throws e seen) (throws x s) = Unit {0}

  record Sim {A : Type 0} (m : Exec Bytes A) (n : Exec (HashState D) A) : Type 0 where
    at : (seen : Bytes) (s : HashState D) → Hashed digest start seen s → Related (m seen) (n s)

  Related-throws :
      {A : Type 0} (o : Outcome Bytes A) (e : Error) (s : HashState D)
      → Failed digest start e
      → Related o (throws e s)
  Related-throws (returns a seen) e s failed = failed
  Related-throws (throws x seen) e s failed = tt

  Related-continue :
      {A B : Type 0} (o : Outcome Bytes A) (o' : Outcome (HashState D) A) (f : A → Exec Bytes B)
      (g : A → Exec (HashState D) B)
      → Related o o'
      → ((a : A) → Sim (f a) (g a))
      → Related (continue o f) (continue o' g)
  Related-continue (returns a seen) (returns b s) f g (same, h) k =
      subst (λ b. Related (f a seen) (g b s)) same ((k a).at seen s h)
  Related-continue (returns a seen) (throws e s) f g failed k = Related-throws (f a seen) e s failed
  Related-continue (throws e seen) (returns b s) f g none_left k = absurd none_left
  Related-continue (throws e seen) (throws x s) f g u k = tt

  Sim-bind :
      {A B : Type 0} {m : Exec Bytes A} {n : Exec (HashState D) A} {f : A → Exec Bytes B}
      {g : A → Exec (HashState D) B}
      → Sim m n
      → ((a : A) → Sim (f a) (g a))
      → Sim (m >>= f) (n >>= g)
  Sim-bind {m} {n} {f} {g} h k = record {
    at = λ seen s r. Related-continue (m seen) (n s) f g (h.at seen s r) k;
  }

  Sim-pure : {A : Type 0} (a : A) → Sim (pure a) (pure a)
  Sim-pure a = record { at = λ seen s r. (refl, r) }

  Sim-throw : {A : Type 0} (e : Error) → Sim {A = A} (throw e) (throw e)
  Sim-throw e = record { at = λ seen s r. tt }

  Sim-lift : {A : Type 0} (r : Result A) → Sim (lift r) (lift r)
  Sim-lift (ok a) = record { at = λ seen s r. (refl, r) }
  Sim-lift (err e) = record { at = λ seen s r. tt }

  Sim-if :
      {A : Type 0} (b : Bool) {m m' : Exec Bytes A} {n n' : Exec (HashState D) A}
      → Sim m n
      → Sim m' n'
      → Sim (if b then m else m') (if b then n else n')
  Sim-if true h k = h
  Sim-if false h k = k

  Keeps-Related :
      (seen : Bytes) (o : Outcome (HashState D) (Unit {0}))
      → Keeps digest start seen o
      → Related (returns tt seen) o
  Keeps-Related seen (returns u s) h = (refl, h)
  Keeps-Related seen (throws e s) h = h

  Sim-sink : (chunk : Bytes) → Sim (collect chunk) (hash_sink digest chunk)
  Sim-sink chunk = record {
    at = λ seen s r.
        Keeps-Related (seen ++ chunk) (hash_sink digest chunk s)
          (hash_sink-Keeps digest start seen chunk s r);
  }

  module _ (objects : Objects) where
    Sim-str :
        (str : Bytes) → Sim (nar_str objects collect str) (nar_str objects (hash_sink digest) str)
    unfolding nar_str
    Sim-str str =
        Sim-bind (Sim-sink (le64 (length str)))
          λ _. Sim-bind (Sim-sink str) λ _. Sim-if _ (Sim-pure tt) (Sim-sink _)

    Sim-leaf :
        (entry : TreeEntry)
        → Sim (nar_leaf objects collect entry) (nar_leaf objects (hash_sink digest) entry)
    unfolding nar_leaf
    Sim-leaf entry = Sim-bind (Sim-lift (objects.read_blob_view entry.id)) λ found.
        Sim-bind (Sim-lift _) λ contents.
          Sim-bind
            (Sim-if (entry.type == b's')
              (Sim-bind (Sim-str (codes "symlink")) λ _. Sim-str (codes "target"))
              (Sim-bind
                (Sim-bind (Sim-str (codes "regular")) λ _.
                  Sim-if (entry.type == b'x')
                    (Sim-bind (Sim-str (codes "executable")) λ _. Sim-str []) (Sim-pure tt))
                λ _. Sim-str (codes "contents")))
            λ _. Sim-bind (Sim-str contents) λ _. Sim-str (codes ")")

    Sim-directory :
        (entry : TreeEntry) (depth : ℕ) (work : List NarWork)
        → Sim
            (nar_directory objects collect entry depth work)
            (nar_directory objects (hash_sink digest) entry depth work)
    unfolding nar_directory
    Sim-directory entry depth work =
        Sim-bind (Sim-str (codes "directory"))
          λ _. Sim-bind (Sim-lift (objects.read_tree entry.id)) λ children. Sim-pure _

    Sim-loop :
        (fuel : ℕ) (work : List NarWork)
        → Sim (nar_loop objects collect fuel work) (nar_loop objects (hash_sink digest) fuel work)
    unfolding nar_loop
    Sim-loop zero [] = Sim-pure tt
    Sim-loop (suc fuel) [] = Sim-pure tt
    Sim-loop zero (item ∷ work) = Sim-throw out_of_fuel
    Sim-loop (suc fuel) (text str ∷ work) = Sim-bind (Sim-str str) λ _. Sim-loop fuel work
    Sim-loop (suc fuel) (node entry depth ∷ work) = Sim-if _ (Sim-throw runtime_error) (
        Sim-bind (Sim-str (codes "(")) λ _. Sim-bind (Sim-str (codes "type")) λ _.
          Sim-if _ (Sim-bind (Sim-directory entry depth work) (Sim-loop fuel))
            (Sim-bind (Sim-leaf entry) λ _. Sim-loop fuel work))

    Sim-dump :
        (fuel : ℕ) (root : Bytes)
        → Sim (nar_dump objects collect fuel root) (nar_dump objects (hash_sink digest) fuel root)
    unfolding nar_dump
    Sim-dump fuel root = Sim-bind (Sim-str (codes "nix-archive-1")) λ _. Sim-loop fuel _

module _ {D : Type 0} (digest : Digest D) (objects : Objects) where
  -- What `nar_sha256` answers when the digest ends in `d` and the NAR has `size` bytes.
  abbrev pub answer : D → ℕ → Result (Bytes × ℕ)
  answer d size = elim (digest.final d) [ none ↦ err runtime_error | some hash ↦ ok (hash, size) ]

  -- The end of `nar_sha256`.
  abbrev finish : Outcome (HashState D) (Unit {0}) → Result (Bytes × ℕ)
  finish (throws e s) = err e
  finish (returns _ s) = elim (digest.final s.ctx) [
    | none ↦ err runtime_error
    | some hash ↦ ok (hash, s.nar_size)
  ]

  started :
      (start : D) (fuel : ℕ) (root : Bytes)
      → digest.init ≡ some start
      → nar_sha256 digest objects fuel root
        ≡ finish (
            (nar_dump objects (hash_sink digest) fuel root >> flush digest)
              (record { ctx = start; buf = []; nar_size = 0 }))
  unfolding nar_sha256
  started start fuel root is_start = rw (is_start, finish) refl

  after_dump :
      (start : D) (fuel : ℕ) (root seen : Bytes) (o : Outcome (HashState D) (Unit {0}))
      → ((c : D) (a : Bytes) → (e : D) × (digest.update c a ≡ some e))
      → Related digest start (returns tt seen) o
      → (d : D) × (digest.update start seen ≡ some d)
        × (finish (continue o λ _. flush digest) ≡ answer d (length seen % 2 ^ 64))
  after_dump start fuel root seen (returns u s) always (same, h) =
      elim (flush_cases digest start h.front seen s h.absorbed h.together) [
        | inl (e, (is_runtime, c, a, fails)) ↦ let (d, works) = always c a in cc
        | inr (s', e, empty, size, all) ↦
            (s'.ctx, all, rw e (ap (answer s'.ctx) (size ∙ h.counted)))
      ]
  after_dump start fuel root seen (throws e s) always (is_runtime, c, a, fails) =
      let (d, works) = always c a in cc

  -- Where the digest's calls succeed and `nar_dump` writes the bytes `seen` to a sink that keeps
  -- them, `nar_sha256` answers with the digest of exactly these bytes, in order, and with their
  -- number modulo 2^64.
  pub nar_sha256-collect :
      (start : D) (fuel : ℕ) (root seen : Bytes)
      → ((c : D) (a : Bytes) → (e : D) × (digest.update c a ≡ some e))
      → digest.init ≡ some start
      → nar_dump objects collect fuel root [] ≡ returns tt seen
      → (d : D) × (digest.update start seen ≡ some d)
        × (nar_sha256 digest objects fuel root ≡ answer d (length seen % 2 ^ 64))
  nar_sha256-collect start fuel root seen always is_start dumped =
      let s : HashState D = record { ctx = start; buf = []; nar_size = 0 } in
      let fresh : Hashed digest start [] s = record {
        front = [];
        absorbed = digest.update-nil start;
        together = refl;
        buf_fits = omega arith;
        counted = refl;
      } in
      let run = nar_dump objects (hash_sink digest) fuel root s in
      let related = (Sim-dump digest start objects fuel root).at [] s fresh in
      let (d, all, e) =
        after_dump start fuel root seen run always
          (subst (λ o. Related digest start o run) dumped related) in
      (d, all, started start fuel root is_start ∙ e)

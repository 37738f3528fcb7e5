-- ===== src/Plugin/Accessor/Healing.antt =====
-- Which exceptions leave a `PackAccessor`.
use nix_tarmac.Base.{
  ◌≡◌, refl, Bool, true, false, ◌||◌, Option, none, some, List, ◌==◌, if◌then◌else◌, inl, inr,
  Bool-cases,
}
use nix_tarmac.Base.Bytes.{Bytes}
use nix_tarmac.Base.Result.{Error, nix_error, is_corrupt}
use nix_tarmac.Base.Exec.{
  Exec, Outcome, returns, throws, pure, throw, ◌>>=◌, continue, Outcome-cases,
}
use nix_tarmac.TreeObject.{TreeEntry}
use nix_tarmac.Paths.Canonical.{join}
use nix_tarmac.Walker.{lookup}
use nix_tarmac.Plugin.Accessor.{
  Reader, PackAccessor, healing, in_store, in_walker, find, read_file, path_exists, read_directory,
  read_link,
}

-- `CorruptError` does not come out.
abbrev pub Healed : {S A : Type 0} → Outcome S A → Type 0
Healed (returns a s) = Unit {0}
Healed (throws e s) = is_corrupt e ≡ false

Healed-continue :
    {S A B : Type 0} (o : Outcome S A) (f : A → Exec S B)
    → Healed o
    → ((a : A) (s : S) → Healed (f a s))
    → Healed (continue o f)
Healed-continue (returns a s) f h k = k a s
Healed-continue (throws e s) f h k = h

Healed-option :
    {S A B : Type 0} (o : Option B) (f : Option B → Exec S A) (s : S)
    → Healed (f none s)
    → ((b : B) → Healed (f (some b) s))
    → Healed (f o s)
Healed-option none f s h k = h
Healed-option (some b) f s h k = k b

module _ {S : Type 0} (reader : Reader S) where
  healing-Healed :
      {A : Type 0} (func : Exec (PackAccessor S) A) (s : PackAccessor S)
      → Healed (healing reader func s)
  unfolding healing
  healing-Healed func s = elim (Outcome-cases (func s)) [
    | inl (a, t, e) ↦ rw (e, healing) tt
    | inr (x, t, e) ↦ elim (Bool-cases (is_corrupt x)) [
      | inl bad ↦ rw (e, bad, healing) refl
      | inr fine ↦ rw (e, fine, healing) fine
    ]
  ]

  Healed-if :
      {A : Type 0} (b : Bool) (m n : Exec (PackAccessor S) A) (s : PackAccessor S)
      → Healed (m s)
      → Healed (n s)
      → Healed ((if b then m else n) s)
  Healed-if true m n s h k = h
  Healed-if false m n s h k = k

  -- After `find`, for each method.
  Healed-find :
      {A : Type 0} (path : List Bytes) (f : Option TreeEntry → Exec (PackAccessor S) A)
      (s : PackAccessor S)
      → ((t : PackAccessor S) → Healed (f none t))
      → ((entry : TreeEntry) (t : PackAccessor S) → Healed (f (some entry) t))
      → Healed ((find reader path >>= f) s)
  unfolding find
  Healed-find path f s h k =
      Healed-continue (find reader path s) f
        (healing-Healed (λ s. in_walker reader (lookup reader.read_tree s.root (join path)) s) s)
        (λ found t. Healed-option found f t (h t) (λ entry. k entry t))

  read_file-Healed : (path : List Bytes) (s : PackAccessor S) → Healed (read_file reader path s)
  unfolding read_file
  read_file-Healed path s =
      Healed-find path _ s (λ t. refl)
        λ entry t. Healed-if (entry.type == b'd' || entry.type == b's') _ _ t refl (
          Healed-continue (healing reader (in_store reader (reader.read_blob_view entry.id)) t) _
            (healing-Healed (in_store reader (reader.read_blob_view entry.id)) t)
            (λ found u.
              Healed-option found
                (λ found. elim found as (λ _. Exec (PackAccessor S) Bytes) [
                  | none ↦ throw nix_error
                  | some bytes ↦ pure bytes
                ])
                u refl (λ contents. tt)))

  path_exists-Healed : (path : List Bytes) (s : PackAccessor S) → Healed (path_exists reader path s)
  unfolding path_exists
  path_exists-Healed path s = Healed-find path _ s (λ t. tt) λ entry t. tt

  read_directory-Healed :
      (path : List Bytes) (s : PackAccessor S) → Healed (read_directory reader path s)
  unfolding read_directory
  read_directory-Healed path s =
      Healed-find path _ s (λ t. refl)
        λ entry t.
          Healed-if (entry.type == b'd') _ _ t
            (Healed-continue (healing reader (in_store reader (reader.read_tree entry.id)) t) _
              (healing-Healed (in_store reader (reader.read_tree entry.id)) t) (λ children u. tt))
            refl

  read_link-Healed : (path : List Bytes) (s : PackAccessor S) → Healed (read_link reader path s)
  unfolding read_link
  read_link-Healed path s =
      Healed-find path _ s (λ t. refl)
        λ entry t.
          Healed-if (entry.type == b's') _ _ t
            (healing-Healed (in_store reader (reader.read_blob entry.id)) t) refl

  -- Whatever the store throws, `CorruptError` leaves neither `readFile` nor `pathExists`,
  -- `readDirectory` and `readLink`.
  pub methods-Healed :
      (path : List Bytes) (s : PackAccessor S)
      → Healed (read_file reader path s)
        × Healed (path_exists reader path s)
        × Healed (read_directory reader path s)
        × Healed (read_link reader path s)
  methods-Healed path s = (
    read_file-Healed path s,
    path_exists-Healed path s,
    read_directory-Healed path s,
    read_link-Healed path s,
  )

  in_store-throws :
      {A : Type 0} (act : Exec S A) (s : PackAccessor S) (u : S) (e : Error)
      → act s.walker.store ≡ throws e u
      → in_store reader act s ≡ throws e (record s { walker = record s.walker { store = u } })
  in_store-throws act s u e h = rw (h, in_store) refl

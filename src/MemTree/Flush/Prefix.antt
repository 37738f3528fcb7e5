-- ===== src/MemTree/Flush/Prefix.antt =====
-- Paths that begin with a path, and lists of paths none of which begins with another.
use nix_tarmac.Base.{
  ◌≡◌, refl, sym, ◌∙◌, subst, Bool, true, false, List, [], ◌∷◌, ◌++◌, if◌then◌else◌, arith, ◌⊎◌,
  inl, inr, Bool-cases,
}
use nix_tarmac.Base.Bytes.{Bytes, bytes_eq, bytes_eq_iff, bytes_eq_refl}
use nix_tarmac.MemTree.Flush.{NodePath}

unfoldable pub is_prefix : NodePath → NodePath → Bool
is_prefix [] q = true
is_prefix (a ∷ p) [] = false
is_prefix (a ∷ p) (b ∷ q) = let rest = is_prefix p q in if bytes_eq a b then rest else false

unfoldable pub path_eq : NodePath → NodePath → Bool
path_eq [] [] = true
path_eq [] (b ∷ q) = false
path_eq (a ∷ p) [] = false
path_eq (a ∷ p) (b ∷ q) = let rest = path_eq p q in if bytes_eq a b then rest else false

-- Whether a path is in a list.
unfoldable pub has_path : List NodePath → NodePath → Bool
has_path [] q = false
has_path (p ∷ ps) q = let rest = has_path ps q in if path_eq p q then true else rest

pub is_prefix_refl : (p : NodePath) → is_prefix p p ≡ true
unfolding is_prefix
is_prefix_refl [] = refl
is_prefix_refl (a ∷ p) = ground (arith, is_prefix_refl p, bytes_eq_refl a)

pub is_prefix_trans :
    (p q r : NodePath) → is_prefix p q ≡ true → is_prefix q r ≡ true → is_prefix p r ≡ true
unfolding is_prefix
is_prefix_trans [] q r h k = refl
is_prefix_trans (a ∷ p) [] r h k = cc
is_prefix_trans (a ∷ p) (b ∷ q) [] h k = cc
is_prefix_trans (a ∷ p) (b ∷ q) (c ∷ r) h k =
    ground (arith, is_prefix_trans p q r, bytes_eq_iff a b, bytes_eq_iff b c, bytes_eq_iff a c)

pub path_eq_iff : (p q : NodePath) → path_eq p q ≡ true → p ≡ q
unfolding path_eq
path_eq_iff [] [] h = refl
path_eq_iff [] (b ∷ q) h = cc
path_eq_iff (a ∷ p) [] h = cc
path_eq_iff (a ∷ p) (b ∷ q) h = ground (arith, path_eq_iff p q, bytes_eq_iff a b)

pub path_eq_refl : (p : NodePath) → path_eq p p ≡ true
unfolding path_eq
path_eq_refl [] = refl
path_eq_refl (a ∷ p) = ground (arith, path_eq_refl p, bytes_eq_refl a)

module _ (p : NodePath) (n : Bytes) where
  abbrev pub child_path : NodePath
  child_path = p ++ (n ∷ [])

pub is_prefix-child : (p : NodePath) (n : Bytes) → is_prefix p (child_path p n) ≡ true
unfolding is_prefix
is_prefix-child [] n = refl
is_prefix-child (a ∷ p) n = ground (arith, is_prefix-child p n, bytes_eq_refl a)

pub child-not-prefix : (p : NodePath) (n : Bytes) → is_prefix (child_path p n) p ≡ false
unfolding is_prefix
child-not-prefix [] n = refl
child-not-prefix (a ∷ p) n = ground (arith, child-not-prefix p n)

pub children-apart :
    (p : NodePath) (n m : Bytes) → is_prefix (child_path p n) (child_path p m) ≡ bytes_eq n m
unfolding is_prefix
children-apart [] n m = ground arith
children-apart (a ∷ p) n m = ground (arith, children-apart p n m, bytes_eq_refl a)

-- What begins a child's path begins the parent's, or is the child's path.
pub prefix_of_child :
    (x p : NodePath) (n : Bytes)
    → is_prefix x (child_path p n) ≡ true
    → (is_prefix x p ≡ true) ⊎ (x ≡ child_path p n)
unfolding is_prefix
prefix_of_child [] p n h = inl refl
prefix_of_child (a ∷ []) [] n h = ground (arith, bytes_eq_iff a n)
prefix_of_child (a ∷ b ∷ x) [] n h = ground arith
prefix_of_child (a ∷ x) (b ∷ p) n h = ground (arith, prefix_of_child x p n, bytes_eq_iff a b)

abbrev pub Apart : NodePath → NodePath → Type 0
Apart p q = (is_prefix p q ≡ false) × (is_prefix q p ≡ false)

abbrev pub ApartFrom : NodePath → List NodePath → Type 0
ApartFrom p [] = Unit {0}
ApartFrom p (q ∷ qs) = Apart p q × ApartFrom p qs

abbrev pub Separated : List NodePath → Type 0
Separated [] = Unit {0}
Separated (p ∷ ps) = ApartFrom p ps × Separated ps

pub ApartFrom-append :
    (p : NodePath) (qs rs : List NodePath)
    → ApartFrom p qs
    → ApartFrom p rs
    → ApartFrom p (qs ++ rs)
ApartFrom-append p [] rs h k = k
ApartFrom-append p (q ∷ qs) rs h k = (h.0, ApartFrom-append p qs rs h.1 k)

pub ApartFrom-has :
    (p q : NodePath) (qs : List NodePath) → ApartFrom p qs → has_path qs q ≡ true → Apart p q
unfolding has_path
ApartFrom-has p q [] h k = cc
ApartFrom-has p q (r ∷ qs) h k = elim (Bool-cases (path_eq r q)) [
  | inl same ↦ rw (path_eq_iff r q same) at h.0
  | inr other ↦ ApartFrom-has p q qs h.1 (rw other at k)
]

pub Separated-append :
    (ps qs : List NodePath)
    → Separated ps
    → Separated qs
    → ((p : NodePath) → has_path ps p ≡ true → ApartFrom p qs)
    → Separated (ps ++ qs)
unfolding has_path
Separated-append [] qs h k cross = k
Separated-append (p ∷ ps) qs h k cross = (
  ApartFrom-append p ps qs h.0 (cross p (rw (path_eq_refl p) refl)),
  Separated-append ps qs h.1 k (λ q there. cross q (ground (arith, there))),
)

pub has_path-append :
    (ps qs : List NodePath) (q : NodePath)
    → has_path (ps ++ qs) q ≡ (if has_path ps q then true else has_path qs q)
unfolding has_path
has_path-append [] qs q = refl
has_path-append (p ∷ ps) qs q = ground (arith, has_path-append ps qs q)

pub Apart-child : (x p : NodePath) (n : Bytes) → Apart x p → Apart x (child_path p n)
Apart-child x p n (not_above, not_below) = (
  elim (Bool-cases (is_prefix x (child_path p n))) [
    | inr e ↦ e
    | inl e ↦ elim (prefix_of_child x p n e) [
      | inl above ↦ absurd (cc (sym not_above ∙ above))
      | inr same ↦
          absurd (
            cc (sym not_below ∙ subst (λ y. is_prefix p y ≡ true) (sym same) (is_prefix-child p n)))
    ]
  ],
  elim (Bool-cases (is_prefix (child_path p n) x)) [
    | inr e ↦ e
    | inl e ↦
        absurd (cc (sym not_below ∙ is_prefix_trans p (child_path p n) x (is_prefix-child p n) e))
  ],
)

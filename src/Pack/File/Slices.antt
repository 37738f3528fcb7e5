-- ===== src/Pack/File/Slices.antt =====
-- Reading back what was written to a file.
use Prim.Native.Nat.add
use Prim.Native.Nat.{max}
use native.Mathlib.Nat.{zero-add}
use nix_tarmac.Base.{
  ℕ, zero, suc, ◌+◌, ◌-◌, ◌≤◌, ◌≡◌, refl, sym, ap, ◌∙◌, [], ◌∷◌, ◌++◌, arith, length, take, drop,
  take-append-drop, length-append, length-take, length-drop, append_assoc, append-nil,
  take-length_append, drop-length_append,
}
use nix_tarmac.Base.Bytes.{Bytes}
use nix_tarmac.Pack.File.{patch, slice}

take-append_le : (n : ℕ) (xs ys : Bytes) → n ≤ length xs → take n (xs ++ ys) ≡ take n xs
take-append_le zero xs ys h = refl
take-append_le (suc n) [] ys h = elim h [ ]
take-append_le (suc n) (x ∷ xs) ys h = ap (◌∷◌ x) (take-append_le n xs ys (omega arith))

drop-append_le : (n : ℕ) (xs ys : Bytes) → n ≤ length xs → drop n (xs ++ ys) ≡ drop n xs ++ ys
drop-append_le zero xs ys h = refl
drop-append_le (suc n) [] ys h = elim h [ ]
drop-append_le (suc n) (x ∷ xs) ys h = drop-append_le n xs ys (omega arith)

drop-nil : (n : ℕ) → drop {A = ℕ} n [] ≡ []
drop-nil zero = refl
drop-nil (suc n) = refl

pub drop-drop : (n m : ℕ) (xs : Bytes) → drop m (drop n xs) ≡ drop (n + m) xs
drop-drop zero m xs = rw zero-add
drop-drop (suc n) m [] = rw (add.suc n m) (drop-nil m)
drop-drop (suc n) m (x ∷ xs) = rw (add.suc n m) (drop-drop n m xs)

drop-add_append : (n : ℕ) (xs ys : Bytes) → drop (length xs + n) (xs ++ ys) ≡ drop n ys
drop-add_append n [] ys = rw zero-add
drop-add_append n (x ∷ xs) ys = rw (add.suc (length xs) n) (drop-add_append n xs ys)

pub take-drop_add : (n m : ℕ) (xs : Bytes) → take n xs ++ take m (drop n xs) ≡ take (n + m) xs
take-drop_add zero m xs = rw zero-add
take-drop_add (suc n) zero [] = rw (add.suc n 0)
take-drop_add (suc n) (suc m) [] = rw (add.suc n (suc m))
take-drop_add (suc n) m (x ∷ xs) = rw (add.suc n m) (ap (◌∷◌ x) (take-drop_add n m xs))

-- In a file cut at the offset, the bytes before it stay.
patch-split :
    (front back new : Bytes)
    → patch (length front) new (front ++ back) ≡ front ++ (new ++ drop (length new) back)
unfolding patch
patch-split front back new =
    let none_missing : length front - length (front ++ back) ≡ 0 =
      omega (arith, length-append front back) in
    rw (
      none_missing,
      append-nil (front ++ back),
      take-length_append front back,
      drop-add_append (length new) front back,
    )

pub patch_end : (old new : Bytes) → patch (length old) new old ≡ old ++ new
patch_end old new =
    let h = patch-split old [] new in
    let tidy = rw (append-nil old, drop-nil (length new), append-nil new) at h in tidy

-- Where the offset lies in the file it can be cut there.
module _ {ℓ} (P : ℕ → Bytes → Type ℓ) where
  cut_at :
      (off : ℕ) (bytes : Bytes)
      → off ≤ length bytes
      → ((front back : Bytes) → P (length front) (front ++ back))
      → P off bytes
  cut_at off bytes h at_cut =
      let size : length (take off bytes) ≡ off = omega (arith, length-take off bytes) in
      rw (size, take-append-drop off bytes) at (at_cut (take off bytes) (drop off bytes))

pub slice-patch :
    (off : ℕ) (new bytes : Bytes)
    → off ≤ length bytes
    → slice off (length new) (patch off new bytes) ≡ new
unfolding slice
slice-patch off new bytes h =
    cut_at (λ off bytes. take (length new) (drop off (patch off new bytes)) ≡ new) off bytes h
      λ front back.
        rw (patch-split front back new, drop-length_append front (new ++ drop (length new) back))
          (take-length_append new (drop (length new) back))

pub slice-patch_below :
    (off o l : ℕ) (new bytes : Bytes)
    → off ≤ length bytes
    → o + l ≤ off
    → slice o l (patch off new bytes) ≡ slice o l bytes
unfolding slice
slice-patch_below off o l new bytes h below =
    cut_at
      (λ off bytes. o + l ≤ off → take l (drop o (patch off new bytes)) ≡ take l (drop o bytes)) off
      bytes h
      (λ front back below.
        rw
          (
            patch-split front back new,
            drop-append_le o front (new ++ drop (length new) back) (omega arith),
            drop-append_le o front back (omega arith),
          )
          (take-append_le l (drop o front) (new ++ drop (length new) back)
              (omega (arith, length-drop o front))
            ∙ sym (take-append_le l (drop o front) back (omega (arith, length-drop o front)))))
      below

pub length-patch :
    (off : ℕ) (new bytes : Bytes)
    → off ≤ length bytes
    → length (patch off new bytes) ≡ max (length bytes) (off + length new)
length-patch off new bytes h =
    cut_at (λ off bytes. length (patch off new bytes) ≡ max (length bytes) (off + length new)) off
      bytes h
      λ front back. rw (patch-split front back new) (
        omega (
          arith,
          length-append front (new ++ drop (length new) back),
          length-append new (drop (length new) back),
          length-append front back,
          length-drop (length new) back,
        ))

pub patch-patch :
    (off : ℕ) (a b bytes : Bytes)
    → off ≤ length bytes
    → patch (off + length a) b (patch off a bytes) ≡ patch off (a ++ b) bytes
patch-patch off a b bytes h =
    cut_at (λ off bytes. patch (off + length a) b (patch off a bytes) ≡ patch off (a ++ b) bytes)
      off bytes h
      λ front back.
        rw
          (
            patch-split front back a,
            patch-split front back (a ++ b),
            ← length-append front a,
            ← append_assoc front a (drop (length a) back),
            patch-split (front ++ a) (drop (length a) back) b,
          )
          (simp (append_assoc, drop-drop, length-append))

pub patch-nil : (off : ℕ) (bytes : Bytes) → off ≤ length bytes → patch off [] bytes ≡ bytes
patch-nil off bytes h =
    cut_at (λ off bytes. patch off [] bytes ≡ bytes) off bytes h
      (λ front back. patch-split front back [])

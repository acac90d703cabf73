-- ===== src/Memoria/Bytes.antt =====
-- Byte arrays that are written in place: the user space of
-- memoria/src/user_space/user_space_memory.c and the file of memoria/src/swap_space/swap_manager.c.
pub mod Indexing
use tpsoaprobado.Base.{
  ℕ, zero, suc, ◌+◌, ◌-◌, ◌≤◌, ◌<◌, ◌≡◌, refl, ap, ap₂, List, [], ◌∷◌, length, take, drop, arith,
  ◌⊎◌, inl, inr, ◌≢◌, ◌∙◌,
}

-- `ds` over the bytes from a position on. A file grows as needed, and its gap reads as zeros.
unfoldable pub overwrite : ℕ → List ℕ → List ℕ → List ℕ
overwrite p [] bytes = bytes
overwrite zero (d ∷ ds) [] = d ∷ overwrite zero ds []
overwrite zero (d ∷ ds) (b ∷ bytes) = d ∷ overwrite zero ds bytes
overwrite (suc p) (d ∷ ds) [] = 0 ∷ overwrite p (d ∷ ds) []
overwrite (suc p) (d ∷ ds) (b ∷ bytes) = b ∷ overwrite p (d ∷ ds) bytes

-- The bytes from a position on.
abbrev pub slice : ℕ → ℕ → List ℕ → List ℕ
slice p size bytes = take size (drop p bytes)

-- A write inside keeps the size.
pub length-overwrite :
    (p : ℕ) (ds bytes : List ℕ)
    → p + length ds ≤ length bytes
    → length (overwrite p ds bytes) ≡ length bytes
unfolding overwrite
length-overwrite p [] bytes h = refl
length-overwrite zero (d ∷ ds) [] h = absurd (omega arith)
length-overwrite zero (d ∷ ds) (b ∷ bytes) h = ap suc (length-overwrite zero ds bytes (omega arith))
length-overwrite (suc p) (d ∷ ds) [] h = absurd (omega arith)
length-overwrite (suc p) (d ∷ ds) (b ∷ bytes) h =
    ap suc (length-overwrite p (d ∷ ds) bytes (omega arith))

-- No write makes the array smaller.
pub length-overwrite_grows :
    (p : ℕ) (ds bytes : List ℕ) → length bytes ≤ length (overwrite p ds bytes)
unfolding overwrite
length-overwrite_grows p [] bytes = omega arith
length-overwrite_grows zero (d ∷ ds) [] = omega arith
length-overwrite_grows zero (d ∷ ds) (b ∷ bytes) =
    omega (arith, length-overwrite_grows zero ds bytes)
length-overwrite_grows (suc p) (d ∷ ds) [] = omega arith
length-overwrite_grows (suc p) (d ∷ ds) (b ∷ bytes) =
    omega (arith, length-overwrite_grows p (d ∷ ds) bytes)

-- What is written is inside afterwards.
pub length-overwrite_reaches :
    (p d : ℕ) (ds bytes : List ℕ) → p + length (d ∷ ds) ≤ length (overwrite p (d ∷ ds) bytes)
unfolding overwrite
length-overwrite_reaches zero d [] [] = omega arith
length-overwrite_reaches zero d [] (b ∷ bytes) = omega arith
length-overwrite_reaches zero d (c ∷ ds) [] = omega (arith, length-overwrite_reaches zero c ds [])
length-overwrite_reaches zero d (c ∷ ds) (b ∷ bytes) =
    omega (arith, length-overwrite_reaches zero c ds bytes)
length-overwrite_reaches (suc p) d ds [] = omega (arith, length-overwrite_reaches p d ds [])
length-overwrite_reaches (suc p) d ds (b ∷ bytes) =
    omega (arith, length-overwrite_reaches p d ds bytes)

-- What is written is read back.
pub slice-overwrite : (p : ℕ) (ds bytes : List ℕ) → slice p (length ds) (overwrite p ds bytes) ≡ ds
unfolding overwrite
slice-overwrite p [] bytes = refl
slice-overwrite zero (d ∷ ds) [] = ap (◌∷◌ d) (slice-overwrite zero ds [])
slice-overwrite zero (d ∷ ds) (b ∷ bytes) = ap (◌∷◌ d) (slice-overwrite zero ds bytes)
slice-overwrite (suc p) (d ∷ ds) [] = slice-overwrite p (d ∷ ds) []
slice-overwrite (suc p) (d ∷ ds) (b ∷ bytes) = slice-overwrite p (d ∷ ds) bytes

-- The bytes before a write stay.
pub slice-overwrite_before :
    (q size p : ℕ) (ds bytes : List ℕ)
    → q + size ≤ p
    → q + size ≤ length bytes
    → slice q size (overwrite p ds bytes) ≡ slice q size bytes
unfolding overwrite
slice-overwrite_before q size p [] bytes h fits = refl
slice-overwrite_before q zero p (d ∷ ds) bytes h fits = refl
slice-overwrite_before q (suc size) zero (d ∷ ds) bytes h fits = absurd (omega arith)
slice-overwrite_before q (suc size) (suc p) (d ∷ ds) [] h fits = absurd (omega arith)
slice-overwrite_before zero (suc size) (suc p) (d ∷ ds) (b ∷ bytes) h fits =
    ap (◌∷◌ b) (slice-overwrite_before zero size p (d ∷ ds) bytes (omega arith) (omega arith))
slice-overwrite_before (suc q) (suc size) (suc p) (d ∷ ds) (b ∷ bytes) h fits =
    slice-overwrite_before q (suc size) p (d ∷ ds) bytes (omega arith) (omega arith)

drop-nil : (n : ℕ) → drop {A = ℕ} n [] ≡ []
drop-nil zero = refl
drop-nil (suc n) = refl

-- So do the bytes after it.
pub drop-overwrite_after :
    (q p : ℕ) (ds bytes : List ℕ) → p + length ds ≤ q → drop q (overwrite p ds bytes) ≡ drop q bytes
unfolding overwrite
drop-overwrite_after q p [] bytes h = refl
drop-overwrite_after zero p (d ∷ ds) bytes h = absurd (omega arith)
drop-overwrite_after (suc q) zero (d ∷ ds) [] h =
    drop-overwrite_after q zero ds [] (omega arith) ∙ drop-nil q
drop-overwrite_after (suc q) zero (d ∷ ds) (b ∷ bytes) h =
    drop-overwrite_after q zero ds bytes (omega arith)
drop-overwrite_after (suc q) (suc p) (d ∷ ds) [] h =
    drop-overwrite_after q p (d ∷ ds) [] (omega arith) ∙ drop-nil q
drop-overwrite_after (suc q) (suc p) (d ∷ ds) (b ∷ bytes) h =
    drop-overwrite_after q p (d ∷ ds) bytes (omega arith)

pub length-slice :
    (p size : ℕ) (bytes : List ℕ) → p + size ≤ length bytes → length (slice p size bytes) ≡ size
length-slice p zero bytes h = refl
length-slice zero (suc size) [] h = absurd (omega arith)
length-slice zero (suc size) (b ∷ bytes) h = ap suc (length-slice zero size bytes (omega arith))
length-slice (suc p) (suc size) [] h = absurd (omega arith)
length-slice (suc p) (suc size) (b ∷ bytes) h = length-slice p (suc size) bytes (omega arith)

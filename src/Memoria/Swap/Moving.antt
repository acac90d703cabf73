-- ===== src/Memoria/Swap/Moving.antt =====
-- The loops of memoria/src/swap_space/swap_out.c and swap_in.c move pages between the user space
-- and the swap file.
use native.Mathlib.Nat.{mod-eq_of_lt}
use tpsoaprobado.Base.{
  ℕ, zero, suc, ◌+◌, ◌*◌, ◌^◌, ◌≤◌, ◌<◌, ◌≡◌, refl, ap, sym, true, some, List, [], ◌∷◌, length,
  take, All, arith, subst, lt→ltb, le→ltb, ==_refl,
}
use tpsoaprobado.Memoria.Bytes.{overwrite, slice, length-overwrite, length-slice}
use tpsoaprobado.Memoria.UserSpace.Bounds.{read_from_user_space-fits, write_to_user_space-fits}
use tpsoaprobado.Memoria.Swap.{position, swap_write_frame, swap_read_frame, pages_out, pages_in}
use tpsoaprobado.Memoria.Swap.Pages.{page_at, load, store, Inside, IsPage}

take_all : (n : ℕ) (xs : List ℕ) → length xs ≤ n → take n xs ≡ xs
take_all zero [] h = refl
take_all zero (x ∷ xs) h = absurd (omega arith)
take_all (suc n) [] h = refl
take_all (suc n) (x ∷ xs) h = ap (◌∷◌ x) (take_all n xs (omega arith))

-- A frame whose end an int32_t holds has its position.
position-frame : (size f : ℕ) → f * size + size < 2 ^ 31 → position size f ≡ f * size
position-frame size f h = mod-eq_of_lt (omega arith)

-- The frame ends below 2 ^ 31 in the swap file.
abbrev pub Reachable : ℕ → ℕ → Type 0
Reachable size f = f * size + size < 2 ^ 31

module _ (size : ℕ) (fits : size < 2 ^ 31) where
  swap_write_frame-stores :
      (room : ℕ → ℕ) (s : ℕ) (page file : List ℕ)
      → ((at : ℕ) → size ≤ room at)
      → Reachable size s
      → IsPage size page
      → swap_write_frame room size s page file ≡ (true, overwrite (s * size) page file)
  unfolding swap_write_frame
  swap_write_frame-stores room s page file enough reach full = rw (
    position-frame size s reach,
    take_all (room (s * size)) page (omega (arith, enough (s * size), full)),
    lt→ltb (s * size) (2 ^ 31) (omega arith),
    le→ltb (room (s * size)) (length page) (omega (arith, enough (s * size), full)),
  )

  pub load-IsPage :
      (fs : List ℕ) (bytes : List ℕ)
      → All (Inside size bytes) fs
      → All (IsPage size) (load size fs bytes)
  unfolding load
  load-IsPage [] bytes inside = tt
  load-IsPage (f ∷ fs) bytes (at, inside) =
      (length-slice (f * size) size bytes at, load-IsPage fs bytes inside)

  -- On a disk with room, the loop of the suspension stores every page of the user space at its
  -- frame of the swap file.
  pub pages_out-store :
      (room : ℕ → ℕ) (us ss : List ℕ) (user_space file : List ℕ)
      → ((at : ℕ) → size ≤ room at)
      → length user_space < 2 ^ 31
      → length us ≡ length ss
      → All (Inside size user_space) us
      → All (Reachable size) ss
      → pages_out room size us ss user_space file
        ≡ some (true, store size ss (load size us user_space) file)
  unfolding pages_out load store
  pages_out-store room [] [] user_space file enough space same inside reach = refl
  pages_out-store room [] (s ∷ ss) user_space file enough space same inside reach =
      absurd (omega arith)
  pages_out-store room (u ∷ us) [] user_space file enough space same inside reach =
      absurd (omega arith)
  pages_out-store room (u ∷ us) (s ∷ ss) user_space file enough space same (at, inside)
        (to, reach) =
      rw
        (
          position-frame size u (omega (arith, at)),
          read_from_user_space-fits (u * size) size user_space space (omega (arith, at)) fits at,
          swap_write_frame-stores room s (slice (u * size) size user_space) file enough to
              (length-slice (u * size) size user_space at),
        )
        (pages_out-store room us ss user_space _ enough space (omega (arith, same)) inside reach)

  swap_read_frame-loads :
      (s : ℕ) (file : List ℕ)
      → Reachable size s
      → Inside size file s
      → swap_read_frame size s file ≡ some (page_at size file s)
  unfolding swap_read_frame
  swap_read_frame-loads s file reach inside = rw (
    position-frame size s reach,
    lt→ltb (s * size) (2 ^ 31) (omega arith),
    length-slice (s * size) size file inside,
    ==_refl size,
  )

  -- The loop of the resumption stores every page of the swap file at its frame of the user space.
  pub pages_in-store :
      (ss us : List ℕ) (file user_space : List ℕ)
      → length user_space < 2 ^ 31
      → length ss ≡ length us
      → All (Inside size user_space) us
      → All (Reachable size) ss
      → All (Inside size file) ss
      → pages_in size ss us file user_space
        ≡ some (true, store size us (load size ss file) user_space)
  unfolding pages_in load store
  pages_in-store [] [] file user_space space same inside reach there = refl
  pages_in-store [] (u ∷ us) file user_space space same inside reach there = absurd (omega arith)
  pages_in-store (s ∷ ss) [] file user_space space same inside reach there = absurd (omega arith)
  pages_in-store (s ∷ ss) (u ∷ us) file user_space space same (at, inside) (to, reach)
        (here, there) =
      let page = page_at size file s in
      let full = length-slice (s * size) size file here in
      let kept = length-overwrite (u * size) page user_space (omega (arith, at, full)) in
      rw
        (
          swap_read_frame-loads s file to here,
          position-frame size u (omega (arith, at)),
          write_to_user_space-fits size (u * size) page user_space space (omega (arith, at))
              (omega (arith, full, fits)) (omega (arith, full)) (omega (arith, at, full)),
        )
        (pages_in-store ss us file (overwrite (u * size) page user_space)
          (omega (arith, kept, space)) (omega (arith, same))
          (subst (λ n. All (λ g. g * size + size ≤ n) us) (sym kept) inside) reach there)

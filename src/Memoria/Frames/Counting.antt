-- ===== src/Memoria/Frames/Counting.antt =====
-- Counting the free frames of a bitmap, and what a pool promises.
use tpsoaprobado.Base.{
  Bool-cases, inl, inr, All, List, [], ◌∷◌, count, ltb, ltb→lt, ltb→le, ==_refl, ℕ, zero, suc, ◌+◌,
  ◌*◌, ◌≤◌, ◌<◌, ◌≡◌, refl, sym, ap, false, not, bit, arith,
}
use tpsoaprobado.Memoria.BitArray.{BitArray}
use tpsoaprobado.Memoria.Frames.{Pool, bitmap_bytes, init_pool}

-- Frames that do not reach a bound are below it.
pub All-of-count :
    (total : ℕ) (frames : List ℕ)
    → ((j : ℕ) → total ≤ j → count j frames ≡ 0)
    → All (λ f. f < total) frames
All-of-count total [] none_above = tt
All-of-count total (f ∷ frames) none_above =
    (below, All-of-count total frames (λ j h. omega (arith, none_above j h)))
  where
    below : f < total
    below = elim (Bool-cases (ltb f total)) [
      | inl lt ↦ ltb→lt f total lt
      | inr ge ↦ absurd (ground (arith, none_above f (ltb→le f total ge), ==_refl f))
    ]

module _ (B : BitArray) where
  open B use {Bits, size, create, test_bit, size-create, test_bit-create}

  -- The clear bits among the `n` from `index` on.
  abbrev pub free_from : ℕ → ℕ → Bits → ℕ
  free_from zero index b = 0
  free_from (suc n) index b = bit (not (test_bit b index)) + free_from n (suc index) b

  -- The counter of free frames is right, and the bitmap has a bit for each frame.
  pub record IsValid (p : Pool B) : Type 0 where
    pub counted : p.free_count ≡ free_from p.total 0 p.bitmap
    pub fits : p.total ≤ size p.bitmap

  -- Bits that agree in a range have as many clear ones there.
  pub free_from-congr :
      (n index : ℕ) (b c : Bits)
      → ((j : ℕ) → index ≤ j → j < index + n → test_bit b j ≡ test_bit c j)
      → free_from n index b ≡ free_from n index c
  free_from-congr zero index b c same = refl
  free_from-congr (suc n) index b c same = omega (
    arith,
    ap (λ t. bit (not t)) (same index (omega arith) (omega arith)),
    free_from-congr n (suc index) b c (λ j lo hi. same j (omega arith) (omega arith)),
  )

  free_from-clear :
      (n index : ℕ) (b : Bits)
      → ((j : ℕ) → j < index + n → test_bit b j ≡ false)
      → free_from n index b ≡ n
  free_from-clear zero index b clear = refl
  free_from-clear (suc n) index b clear = omega (
    arith,
    ap (λ t. bit (not t)) (clear index (omega arith)),
    free_from-clear n (suc index) b (λ j h. clear j (omega arith)),
  )

  bitmap_bytes-le : (total : ℕ) → total ≤ 8 * bitmap_bytes total
  unfolding bitmap_bytes
  bitmap_bytes-le total = ground arith

  -- A pool starts valid, with every frame free.
  pub init_pool-IsValid :
      (total : ℕ) → IsValid (init_pool B total) × ((init_pool B total).free_count ≡ total)
  unfolding init_pool
  init_pool-IsValid total = (
    record {
      counted = sym (
          free_from-clear total 0 (create (bitmap_bytes total))
            (λ j h. test_bit-create (bitmap_bytes total) j (omega (arith, bitmap_bytes-le total))));
      fits = omega (arith, bitmap_bytes-le total, size-create (bitmap_bytes total));
    },
    refl,
  )

-- ===== src/Memoria/Frames/Release.antt =====
-- What `release_frames` and `swap_release_frames` give back.
use tpsoaprobado.Base.{
  subst, sym, ℕ, zero, suc, ◌+◌, ◌≤◌, ◌<◌, ◌≡◌, refl, ◌∙◌, ap, Bool, true, some, List, [], ◌∷◌,
  length, bit, count, All, ℕ_discrete, arith, ==_refl,
}
use tpsoaprobado.Memoria.BitArray.{BitArray}
use tpsoaprobado.Memoria.Frames.{Pool, allocate_frames, clean_bits, release_frames}
use tpsoaprobado.Memoria.Frames.Counting.{IsValid, free_from, free_from-congr}
use tpsoaprobado.Memoria.Frames.Allocation.{allocate_frames-some}

module _ (B : BitArray) where
  open B use {Bits, size, create, test_bit, clean_bit, test_bit-clean_bit, size-clean_bit}

  free_from-clean_bit :
      (n index f : ℕ) (b : Bits)
      → f < size b
      → index ≤ f
      → f < index + n
      → test_bit b f ≡ true
      → free_from B n index (clean_bit b f) ≡ free_from B n index b + 1
  free_from-clean_bit zero index f b inside lo hi busy = absurd (omega arith)
  free_from-clean_bit (suc n) index f b inside lo hi busy = elim (ℕ_discrete index f) [
    | yes here ↦ ground (
      arith,
      here,
      test_bit-clean_bit b f index inside,
      ap (test_bit b) here,
      busy,
      free_from-congr B n (suc index) (clean_bit b f) b
          (λ j l h. ground (arith, test_bit-clean_bit b f j inside)),
    )
    | no there ↦ ground (
      arith,
      there,
      test_bit-clean_bit b f index inside,
      free_from-clean_bit n (suc index) f b inside (omega arith) (omega arith) busy,
    )
  ]

  -- The frames are all different and in use.
  abbrev pub InUse : List ℕ → Bits → Type 0
  InUse frames b = (j : ℕ) → count j frames ≤ bit (test_bit b j)

  InUse-head :
      (f : ℕ) (frames : List ℕ) (b : Bits)
      → InUse (f ∷ frames) b
      → (test_bit b f ≡ true) × (count f frames ≡ 0)
  InUse-head f frames b used = ground (arith, used f, ==_refl f)

  InUse-tail :
      (f : ℕ) (frames : List ℕ) (b : Bits)
      → f < size b
      → InUse (f ∷ frames) b
      → InUse frames (clean_bit b f)
  InUse-tail f frames b inside used j = ground (arith, used j, test_bit-clean_bit b f j inside)

  pub record Cleaned (total : ℕ) (frames : List ℕ) (b c : Bits) : Type 0 where
    pub marked : (j : ℕ) → bit (test_bit c j) + count j frames ≡ bit (test_bit b j)
    pub same_size : size c ≡ size b
    pub more : free_from B total 0 c ≡ free_from B total 0 b + length frames

  clean_bits-Cleaned :
      (total : ℕ) (frames : List ℕ) (b : Bits)
      → total ≤ size b
      → All (λ f. f < total) frames
      → InUse frames b
      → Cleaned total frames b (clean_bits B frames b)
  unfolding clean_bits
  clean_bits-Cleaned total [] b fits inside used = record {
    marked = λ j. omega arith;
    same_size = refl;
    more = omega arith;
  }
  clean_bits-Cleaned total (f ∷ frames) b fits (inside, rest) used =
      let (busy, once) = InUse-head f frames b used in
      let ih =
        clean_bits-Cleaned total frames (clean_bit b f) (omega (arith, size-clean_bit b f)) rest
          (InUse-tail f frames b (omega arith) used) in
      record {
        marked = λ j. ground (arith, ih.marked j, used j, test_bit-clean_bit b f j (omega arith));
        same_size = ih.same_size ∙ size-clean_bit b f;
        more = omega (
          arith,
          ih.more,
          free_from-clean_bit total 0 f b (omega arith) (omega arith) (omega arith) busy,
        );
      }

  -- In a valid pool, the release of frames that are in range, in use and all different clears
  -- exactly their bits, counts them as free and keeps the pool valid.
  pub release_frames-IsValid :
      (p : Pool B) (frames : List ℕ)
      → IsValid B p
      → All (λ f. f < p.total) frames
      → InUse frames p.bitmap
      → let q = release_frames B frames p in
        IsValid B q
        × (q.free_count ≡ p.free_count + length frames)
        × ((j : ℕ) → bit (test_bit q.bitmap j) + count j frames ≡ bit (test_bit p.bitmap j))
  unfolding release_frames
  release_frames-IsValid p frames v inside used =
      let c = clean_bits-Cleaned p.total frames p.bitmap v.fits inside used in
      (
        record {
          counted = omega (arith, c.more, v.counted);
          fits = omega (arith, v.fits, c.same_size);
        },
        refl,
        c.marked,
      )

  same_bit : (x y : Bool) → bit x ≡ bit y → x ≡ y
  same_bit x y h = ground arith

  -- Frames that were handed out from a valid pool and are released again leave the pool as it
  -- was: the same frames are free, as many are counted as free, and the pool is valid.
  pub release_frames-allocate_frames :
      (p : Pool B) (needed : ℕ) (frames : List ℕ) (q : Pool B)
      → IsValid B p
      → allocate_frames B p needed ≡ some (frames, q)
      → let r = release_frames B frames q in
        ((j : ℕ) → test_bit r.bitmap j ≡ test_bit p.bitmap j)
        × (r.free_count ≡ p.free_count)
        × IsValid B r
  release_frames-allocate_frames p needed frames q v e =
      let g = allocate_frames-some B p needed frames q v e in
      let (valid, freed, marked) =
        release_frames-IsValid q frames g.valid
          (subst (λ t. All (λ f. f < t) frames) (sym g.same_total) g.inside)
          (λ j. omega (arith, g.marked j)) in
      (
        (λ j. same_bit _ _ (omega (arith, marked j, g.marked j))),
        omega (arith, freed, g.fewer, g.many),
        valid,
      )

-- ===== src/Tests/Frames.antt =====
-- The frame allocators on a bit array that is a function.
use tpsoaprobado.Base.{
  ℕ, ◌+◌, ◌*◌, ◌≤◌, ◌≡◌, refl, Bool, true, false, ◌==◌, some, List, [], ◌∷◌, if◌then◌else◌, bit,
  count, arith,
}
use tpsoaprobado.Memoria.BitArray.{BitArray}
use tpsoaprobado.Memoria.Frames.{Pool, init_pool, allocate_frames, release_frames}
use tpsoaprobado.Memoria.Frames.Counting.{IsValid, init_pool-IsValid}
use tpsoaprobado.Memoria.Frames.Allocation.{Granted, allocate_frames-Granted}
use tpsoaprobado.Memoria.Frames.Release.{
  InUse, release_frames-IsValid, release_frames-allocate_frames,
}

abbrev write : ℕ × (ℕ → Bool) → ℕ → Bool → ℕ × (ℕ → Bool)
write (n, bits) i v = (n, λ j. if i == j then v else bits j)

abbrev bit_array : BitArray
bit_array = record {
  Bits = ℕ × (ℕ → Bool);
  create = λ bytes. (8 * bytes, λ j. false);
  size = λ b. b.0;
  test_bit = λ b i. b.1 i;
  set_bit = λ b i. write b i true;
  clean_bit = λ b i. write b i false;
  size-create = λ bytes. refl;
  size-set_bit = λ b i. refl;
  size-clean_bit = λ b i. refl;
  test_bit-create = λ bytes i h. refl;
  test_bit-set_bit = λ b i j h. refl;
  test_bit-clean_bit = λ b i j h. refl;
}

abbrev pool : Pool bit_array
pool = init_pool bit_array 10

abbrev after : Pool bit_array
after = record { total = 10; free_count = 8; bitmap = write (write (16, λ j. false) 0 true) 1 true }

abbrev taken : List ℕ
taken = 0 ∷ 1 ∷ []

pool-IsValid : IsValid bit_array pool
pool-IsValid = (init_pool-IsValid bit_array 10).0

ten_free : 2 ≤ pool.free_count
unfolding init_pool
ten_free = omega arith

allocate_frames-Granted_example :
    (frames : List ℕ) × (q : Pool bit_array) × (allocate_frames bit_array pool 2 ≡ some (frames, q))
    × Granted bit_array pool 2 frames q
allocate_frames-Granted_example = allocate_frames-Granted bit_array pool 2 pool-IsValid ten_free

allocates : allocate_frames bit_array pool 2 ≡ some (taken, after)
unfolding allocate_frames init_pool
allocates = refl

release_frames-allocate_frames_example :
    let r = release_frames bit_array taken after in
    ((j : ℕ) → bit_array.test_bit r.bitmap j ≡ bit_array.test_bit pool.bitmap j)
    × (r.free_count ≡ pool.free_count)
    × IsValid bit_array r
release_frames-allocate_frames_example =
    release_frames-allocate_frames bit_array pool 2 taken after pool-IsValid allocates

after-IsValid : IsValid bit_array after
after-IsValid = record { counted = refl; fits = omega arith }

in_use : InUse bit_array taken after.bitmap
in_use j = ground arith

release_frames-IsValid_example :
    let q = release_frames bit_array taken after in
    IsValid bit_array q
    × (q.free_count ≡ after.free_count + 2)
    × ((j : ℕ)
        → bit (bit_array.test_bit q.bitmap j) + count j taken
          ≡ bit (bit_array.test_bit after.bitmap j))
release_frames-IsValid_example =
    release_frames-IsValid bit_array after taken after-IsValid (omega arith, (omega arith, tt))
      in_use

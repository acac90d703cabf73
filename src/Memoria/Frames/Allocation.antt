-- ===== src/Memoria/Frames/Allocation.antt =====
-- What `allocate_frames` and `swap_allocate_frames` hand out.
use tpsoaprobado.Base.{
  All, ℕ, zero, suc, ◌+◌, ◌-◌, ◌≤◌, ◌<◌, ◌≡◌, refl, sym, ◌∙◌, true, false, none, some, List, [],
  ◌∷◌, length, ltb, bit, count, arith, Bool-cases, inl, inr, lt→ltb, le→ltb, ltb→lt, ltb→le, subst,
  some_inj,
}
use tpsoaprobado.Memoria.BitArray.{BitArray}
use tpsoaprobado.Memoria.Frames.{Pool, take_free, allocate_frames}
use tpsoaprobado.Memoria.Frames.Counting.{All-of-count, IsValid, free_from, free_from-congr}

module _ (B : BitArray) where
  open B use {
    Bits, size, create, test_bit, set_bit, size-create, test_bit-create, test_bit-set_bit,
    size-set_bit,
  }

  free_from-set_bit :
      (n index : ℕ) (b : Bits)
      → index < size b
      → free_from B n (suc index) (set_bit b index) ≡ free_from B n (suc index) b
  free_from-set_bit n index b inside =
      free_from-congr B n (suc index) (set_bit b index) b
        (λ j lo hi. ground (arith, test_bit-set_bit b index j inside))

  -- `frames` were clear in `b`, all different and among the `n` from `index` on, and `c` is `b`
  -- with their bits set.
  pub record Took (n index needed : ℕ) (b : Bits) (frames : List ℕ) (c : Bits) : Type 0 where
    pub many : length frames ≡ needed
    pub marked : (j : ℕ) → bit (test_bit c j) ≡ bit (test_bit b j) + count j frames
    pub before : (j : ℕ) → j < index → count j frames ≡ 0
    pub after : (j : ℕ) → index + n ≤ j → count j frames ≡ 0
    pub same_size : size c ≡ size b
    pub fewer : free_from B n index c + needed ≡ free_from B n index b

  Took-none : (n index : ℕ) (b : Bits) → Took n index 0 b [] b
  Took-none n index b = record {
    many = refl;
    marked = λ j. omega arith;
    before = λ j h. refl;
    after = λ j h. refl;
    same_size = refl;
    fewer = omega arith;
  }

  Took-skip :
      (n index needed : ℕ) (b : Bits) (frames : List ℕ) (c : Bits)
      → test_bit b index ≡ true
      → Took n (suc index) needed b frames c
      → Took (suc n) index needed b frames c
  Took-skip n index needed b frames c busy t = record {
    many = t.many;
    marked = t.marked;
    before = λ j h. t.before j (omega arith);
    after = λ j h. t.after j (omega arith);
    same_size = t.same_size;
    fewer = ground (arith, t.marked index, t.before index (omega arith), busy, t.fewer);
  }

  Took-take :
      (n index needed : ℕ) (b : Bits) (frames : List ℕ) (c : Bits)
      → index < size b
      → test_bit b index ≡ false
      → Took n (suc index) needed (set_bit b index) frames c
      → Took (suc n) index (suc needed) b (index ∷ frames) c
  Took-take n index needed b frames c inside clear t = record {
    many = omega (arith, t.many);
    marked = λ j. ground (arith, t.marked j, test_bit-set_bit b index j inside, clear);
    before = λ j h. ground (arith, t.before j (omega arith));
    after = λ j h. ground (arith, t.after j (omega arith));
    same_size = t.same_size ∙ size-set_bit b index;
    fewer = ground (
      arith,
      t.marked index,
      t.before index (omega arith),
      test_bit-set_bit b index index inside,
      clear,
      t.fewer,
      free_from-set_bit n index b inside,
    );
  }

  take_free-Took :
      (n index needed : ℕ) (b : Bits)
      → index + n ≤ size b
      → needed ≤ free_from B n index b
      → let (frames, c) = take_free B n index needed b in Took n index needed b frames c
  unfolding take_free
  take_free-Took zero index zero b fits enough = Took-none zero index b
  take_free-Took zero index (suc needed) b fits enough = absurd (omega arith)
  take_free-Took (suc n) index zero b fits enough = Took-none (suc n) index b
  take_free-Took (suc n) index (suc needed) b fits enough = elim (Bool-cases (test_bit b index)) [
    | inl busy ↦ rw busy (
        Took-skip n index (suc needed) b _ _ busy
          (take_free-Took n (suc index) (suc needed) b (omega arith) (ground (arith, busy))))
    | inr clear ↦ rw clear (
        Took-take n index needed b _ _ (omega arith) clear (
          take_free-Took n (suc index) needed (set_bit b index)
            (omega (arith, size-set_bit b index))
            (ground (arith, clear, free_from-set_bit n index b (omega arith)))))
  ]

  -- What a successful request leaves behind.
  pub record Granted (p : Pool B) (needed : ℕ) (frames : List ℕ) (q : Pool B) : Type 0 where
    pub many : length frames ≡ needed
    pub marked : (j : ℕ) → bit (test_bit q.bitmap j) ≡ bit (test_bit p.bitmap j) + count j frames
    pub inside : All (λ f. f < p.total) frames
    pub valid : IsValid B q
    pub same_total : q.total ≡ p.total
    pub fewer : q.free_count + needed ≡ p.free_count

  -- From a valid pool, a request for no more frames than are free succeeds: it hands out
  -- exactly so many, all different, in range and free before, marks these and no others, counts
  -- them as taken and keeps the pool valid.
  pub allocate_frames-Granted :
      (p : Pool B) (needed : ℕ)
      → IsValid B p
      → needed ≤ p.free_count
      → (frames : List ℕ) × (q : Pool B) × (allocate_frames B p needed ≡ some (frames, q))
        × Granted p needed frames q
  unfolding allocate_frames
  allocate_frames-Granted p needed v enough =
      let t =
        take_free-Took p.total 0 needed p.bitmap (omega (arith, v.fits))
          (omega (arith, v.counted, enough)) in
      let (frames, c) = take_free B p.total 0 needed p.bitmap in
      (
        frames,
        record p { bitmap = c; free_count = p.free_count - length frames },
        rw (le→ltb p.free_count needed enough),
        record {
          many = t.many;
          marked = t.marked;
          inside = All-of-count p.total frames (λ j h. t.after j (omega arith));
          valid = record {
            counted = omega (arith, t.fewer, v.counted, t.many);
            fits = omega (arith, v.fits, t.same_size);
          };
          same_total = refl;
          fewer = omega (arith, enough, t.many);
        },
      )

  -- A request for more frames than are free is refused.
  pub allocate_frames-none :
      (p : Pool B) (needed : ℕ) → p.free_count < needed → allocate_frames B p needed ≡ none
  unfolding allocate_frames
  allocate_frames-none p needed h = rw (lt→ltb p.free_count needed h)

  -- Whatever is handed out was granted.
  pub allocate_frames-some :
      (p : Pool B) (needed : ℕ) (frames : List ℕ) (q : Pool B)
      → IsValid B p
      → allocate_frames B p needed ≡ some (frames, q)
      → Granted p needed frames q
  allocate_frames-some p needed frames q v e = elim (Bool-cases (ltb p.free_count needed)) [
    | inl short ↦ absurd (cc (allocate_frames-none p needed (ltb→lt p.free_count needed short)))
    | inr enough ↦
        let (fs, r, e', g) =
          allocate_frames-Granted p needed v (ltb→le p.free_count needed enough) in
        let same : (fs, r) ≡ (frames, q) = some_inj (sym e' ∙ e) in
        subst (λ (x : List ℕ × Pool B). Granted p needed x.0 x.1) same g
  ]

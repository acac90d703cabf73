-- ===== src/Memoria/Creation/Outcome.antt =====
-- What a creation of a process leaves, on every branch:
-- memoria/src/client/init-process/init-process.c.
use tpsoaprobado.Base.{
  ℕ, ◌+◌, ◌≤◌, ◌≡◌, ◌⊎◌, inl, inr, refl, arith, Bool, true, false, ◌==◌, Bool-cases, ==_refl,
  Option, none, some, List, [], ◌∷◌, ◌++◌, length, ltb, ltb→le, if◌then◌else◌,
}
use tpsoaprobado.Memoria.BitArray.{BitArray}
use tpsoaprobado.Memoria.Frames.{Pool, allocate_frames}
use tpsoaprobado.Memoria.Frames.Counting.{IsValid}
use tpsoaprobado.Memoria.Frames.Allocation.{Granted, allocate_frames-Granted}
use tpsoaprobado.Memoria.Frames.Release.{release_frames-allocate_frames}
use tpsoaprobado.Memoria.PageTable.{Table}
use tpsoaprobado.Memoria.PageTable.Collection.{assign_frames-some}
use tpsoaprobado.Memoria.Processes.{MemoriaConfig, ProcessInfo, Memoria}
use tpsoaprobado.Memoria.Creation.{
  Scripts, process_manager_load_script_lines, pages_needed, new_process, add_process,
  after_assignment, after_allocation, create_loaded, create_process,
}

-- How many frames a process holds.
abbrev pub holds : Option (List ℕ) → ℕ
holds none = 0
holds (some frames) = length frames

module _ (B : BitArray) where
  open B use {test_bit}

  -- The process that is at the end of the list, and the frames that it took.
  pub record Admitted (tam_pagina pid size : ℕ) (m n : Memoria B) : Type 0 where
    pub process : ProcessInfo
    pub listed : n.process_list ≡ m.process_list ++ process ∷ []
    pub named : process.pid ≡ pid
    pub sized : process.process_size ≡ size
    pub paged :
        holds process.allocated_frames ≡ (if size == 0 then 0 else pages_needed tam_pagina size)
    pub taken : n.frames.free_count + holds process.allocated_frames ≡ m.frames.free_count
    pub valid : IsValid B n.frames

  -- The same processes, and the same frames are free.
  pub record Refused (m n : Memoria B) : Type 0 where
    pub same_list : n.process_list ≡ m.process_list
    pub same_bits : (j : ℕ) → test_bit n.frames.bitmap j ≡ test_bit m.frames.bitmap j
    pub same_count : n.frames.free_count ≡ m.frames.free_count
    pub valid : IsValid B n.frames

  abbrev pub Created : ℕ → ℕ → ℕ → Memoria B → Bool → Memoria B → Type 0
  Created tam_pagina pid size m success n =
      ((success ≡ true) × Admitted tam_pagina pid size m n) ⊎ ((success ≡ false) × Refused m n)

  refused : (m : Memoria B) → IsValid B m.frames → Refused m m
  refused m v = record { same_list = refl; same_bits = λ j. refl; same_count = refl; valid = v }

  after_assignment-Created :
      (tam_pagina pid size : ℕ) (instructions : List (List ℕ)) (frames : List ℕ) (q : Pool B)
      (m : Memoria B) (success : Bool) (t : Table)
      → IsValid B m.frames
      → size == 0 ≡ false
      → allocate_frames B m.frames (pages_needed tam_pagina size) ≡ some (frames, q)
      → Granted B m.frames (pages_needed tam_pagina size) frames q
      → let (done, n) = after_assignment B pid size instructions frames q m (success, t) in
        Created tam_pagina pid size m done n
  after_assignment-Created tam_pagina pid size instructions frames q m true t v some_size e g =
      inl (
        refl,
        record {
          process = new_process pid size instructions (some t) (some frames);
          listed = refl;
          named = refl;
          sized = refl;
          paged = rw some_size g.many;
          taken = omega (arith, g.fewer, g.many);
          valid = g.valid;
        },
      )
  after_assignment-Created tam_pagina pid size instructions frames q m false t v some_size e g =
      let (bits, counted, valid) =
        release_frames-allocate_frames B m.frames (pages_needed tam_pagina size) frames q v e in
      inr (refl, record { same_list = refl; same_bits = bits; same_count = counted; valid = valid })

  module _ (config : MemoriaConfig) (pid size : ℕ) (m : Memoria B) (v : IsValid B m.frames) where
    abbrev Ends : Option (Bool × Memoria B) → Type 0
    Ends o =
        (success : Bool) × (n : Memoria B) × (o ≡ some (success, n))
        × Created config.tam_pagina pid size m success n

    after_allocation-Ends :
        (instructions : List (List ℕ))
        → size == 0 ≡ false
        → pages_needed config.tam_pagina size ≤ m.frames.free_count
        → Ends (
            after_allocation B config pid size instructions m
              (allocate_frames B m.frames (pages_needed config.tam_pagina size)))
    after_allocation-Ends instructions some_size enough =
        let pages = pages_needed config.tam_pagina size in
        let (frames, q, e, g) = allocate_frames-Granted B m.frames pages v enough in
        let (success, t, assigned) =
          assign_frames-some config.entradas_por_tabla config.cantidad_niveles pages frames in
        let (done, n) = after_assignment B pid size instructions frames q m (success, t) in
        (
          done,
          n,
          rw (e, g.many, ==_refl pages, assigned) refl,
          after_assignment-Created config.tam_pagina pid size instructions frames q m success t v
              some_size e g,
        )

    create_loaded-Ends :
        (instructions : Option (List (List ℕ)))
        → Ends (create_loaded B config pid size m instructions)
    create_loaded-Ends none = (false, m, refl, inr (refl, refused m v))
    create_loaded-Ends (some instructions) =
        let pages = pages_needed config.tam_pagina size in
        elim (Bool-cases (size == 0)) [
          | inl empty ↦ (
            true,
            add_process B (new_process pid size instructions none none) m,
            rw empty refl,
            inl (
              refl,
              record {
                process = new_process pid size instructions none none;
                listed = refl;
                named = refl;
                sized = refl;
                paged = rw empty refl;
                taken = omega arith;
                valid = v;
              },
            ),
          )
          | inr some_size ↦ elim (Bool-cases (ltb m.frames.free_count pages)) [
            | inl short ↦ (false, m, rw (some_size, short) refl, inr (refl, refused m v))
            | inr enough ↦
                rw (some_size, enough)
                  (after_allocation-Ends instructions some_size (ltb→le _ _ enough))
          ]
        ]

    -- A creation ends, on every branch. Either it succeeds: the process is put at the end of the
    -- list with its pid and its size, and holds as many frames as it needs pages, by which fewer
    -- are free. Or it fails: the same processes are there, and the same frames are free.
    pub create_process-Created :
        (scripts : Scripts) (path : List ℕ)
        → (success : Bool) × (n : Memoria B) × (create_process B config scripts pid size path m
            ≡ some (success, n))
          × Created config.tam_pagina pid size m success n
    unfolding create_process
    create_process-Created scripts path =
        create_loaded-Ends (process_manager_load_script_lines scripts path)

-- ===== src/Memoria/Swap/RoundTrip.antt =====
-- The pages of a process through its suspension and its resumption.
use native.Mathlib.Nat.{mul-le-mul_right}
use tpsoaprobado.Base.{
  ◌≢◌, count, ℕ, ◌*◌, ◌^◌, ◌≤◌, ◌<◌, ◌≡◌, refl, ◌∙◌, ap, sym, true, false, some, List, [], ◌∷◌,
  length, All, All-map, arith, le→ltb, if◌then◌else◌,
}
use tpsoaprobado.Memoria.BitArray.{BitArray}
use tpsoaprobado.Memoria.Frames.{Pool, allocate_frames, release_frames}
use tpsoaprobado.Memoria.Frames.Counting.{IsValid}
use tpsoaprobado.Memoria.Frames.Allocation.{Granted, allocate_frames-Granted}
use tpsoaprobado.Memoria.Processes.{MemoriaConfig, ProcessInfo, Memoria, find_process}
use tpsoaprobado.Memoria.Processes.Finding.{
  find_process-update_process, find_process-update_process_ne,
}
use tpsoaprobado.Memoria.Swap.{
  suspended_at, resumed_at, count_swap_out, count_swap_in, suspend_found, suspend_frames,
  with_swap_frames, after_pages_out, resume_found, resume_frames, with_user_frames, after_pages_in,
  pages_out, pages_in, swap_out_process, swap_in_process,
}
use tpsoaprobado.Memoria.Swap.Pages.{
  page_at, page_at-store, load, store, Inside, Different, load-store, length-store, store-Inside,
  length-load,
}
use tpsoaprobado.Memoria.Swap.Moving.{Reachable, load-IsPage, pages_out-store, pages_in-store}

module _ (B : BitArray) where
  Granted-Different :
      (p : Pool B) (n : ℕ) (fs : List ℕ) (q : Pool B) → Granted B p n fs q → Different fs
  Granted-Different p n fs q g j = ground (arith, g.marked j)

module _ (B : BitArray) (config : MemoriaConfig) where
  open config use {tam_pagina}

  -- The process runs on the frames `us`, which lie in the user space, and the swap file has frames
  -- free for all of them, at positions that an int32_t holds.
  pub record CanSuspend (pid : ℕ) (p : ProcessInfo) (us : List ℕ) (m : Memoria B) : Type 0 where
    pub some_size : 0 < tam_pagina
    pub page_size : tam_pagina < 2 ^ 31
    pub found : find_process pid m.process_list ≡ some p
    pub running : p.is_suspended ≡ false
    pub framed : p.allocated_frames ≡ some us
    pub inside : All (Inside tam_pagina m.user_space) us
    pub space : length m.user_space < 2 ^ 31
    pub pool : IsValid B m.swap_frames
    pub free : length us ≤ m.swap_frames.free_count
    pub positions : m.swap_frames.total * tam_pagina < 2 ^ 31

  -- The process is suspended on the frames `ss` of the swap file, which hold the pages that `us`
  -- held; `us` are given back. The other processes, the other pages of the swap file and the user
  -- space are as they were.
  pub record Suspended (pid : ℕ) (p : ProcessInfo) (us ss : List ℕ) (m n : Memoria B) : Type 0 where
    pub process : find_process pid n.process_list ≡ some (count_swap_out (suspended_at (some ss) p))
    pub pages : load tam_pagina ss n.swap_file ≡ load tam_pagina us m.user_space
    pub taken : Granted B m.swap_frames (length us) ss n.swap_frames
    pub given_back : n.frames ≡ release_frames B us m.frames
    pub same_space : n.user_space ≡ m.user_space
    pub reachable : All (Reachable tam_pagina) ss
    pub there : All (Inside tam_pagina n.swap_file) ss
    pub other_processes :
        (other : ℕ)
        → other ≢ pid
        → find_process other n.process_list ≡ find_process other m.process_list
    pub other_pages :
        (f : ℕ)
        → count f ss ≡ 0
        → Inside tam_pagina m.swap_file f
        → page_at tam_pagina n.swap_file f ≡ page_at tam_pagina m.swap_file f

  suspend-runs :
      (room : ℕ → ℕ) (pid : ℕ) (p : ProcessInfo) (us ss : List ℕ) (q : Pool B) (m : Memoria B)
      (file : List ℕ)
      → find_process pid m.process_list ≡ some p
      → p.is_suspended ≡ false
      → p.allocated_frames ≡ some us
      → allocate_frames B m.swap_frames (length us) ≡ some (ss, q)
      → length us ≤ length ss
      → pages_out room tam_pagina us ss m.user_space m.swap_file ≡ some (true, file)
      → swap_out_process B config room pid m
        ≡ some (after_pages_out B config pid us ss q m (true, file))
  unfolding swap_out_process
  suspend-runs room pid p us ss q m file found running framed allocated many moved =
      ap (λ o. suspend_found B config room pid o m) found
      ∙ ap
          (λ b. if b then some (true, m) else suspend_frames B config room pid p.allocated_frames m)
          running
      ∙ ap (λ o. suspend_frames B config room pid o m) framed
      ∙ ap (λ o. with_swap_frames B config room pid us m o) allocated
      ∙ rw (le→ltb (length ss) (length us) many, moved) refl

  -- On a disk with room for every write, a process that can be suspended is: its pages stand in the
  -- swap file, on frames that were free, and its frames are given back. The entries of the other
  -- processes, the pages of the swap file outside those frames, and the user space stay as they were.
  pub swap_out_process-Suspended :
      (room : ℕ → ℕ) (pid : ℕ) (p : ProcessInfo) (us : List ℕ) (m : Memoria B)
      → ((at : ℕ) → tam_pagina ≤ room at)
      → CanSuspend pid p us m
      → (n : Memoria B) × (ss : List ℕ) × (swap_out_process B config room pid m ≡ some (true, n))
        × Suspended pid p us ss m n
  unfolding swap_out_process
  swap_out_process-Suspended room pid p us m enough c =
      let (ss, q, allocated, g) =
        allocate_frames-Granted B m.swap_frames (length us) c.pool c.free in
      let tam = tam_pagina in
      let reach =
        All-map (λ f. f < m.swap_frames.total) (Reachable tam)
          (λ f h. omega (arith, mul-le-mul_right tam h, c.positions)) ss g.inside in
      let pages = load tam us m.user_space in
      let full = load-IsPage tam c.page_size us m.user_space c.inside in
      let many = g.many ∙ sym (length-load tam us m.user_space) in
      let file = store tam ss pages m.swap_file in
      (
        (after_pages_out B config pid us ss q m (true, file)).1,
        ss,
        suspend-runs room pid p us ss q m file c.found c.running c.framed allocated
            (omega (arith, g.many))
            (pages_out-store tam c.page_size room us ss m.user_space m.swap_file enough c.space
              (sym g.many) c.inside reach),
        record {
          process =
              find_process-update_process pid (λ x. count_swap_out (suspended_at (some ss) x))
                m.process_list p (λ x. refl) c.found;
          pages =
              load-store tam ss pages m.swap_file c.some_size
                (Granted-Different B m.swap_frames (length us) ss q g) many full;
          taken = g;
          given_back = refl;
          same_space = refl;
          reachable = reach;
          there = store-Inside tam ss pages m.swap_file c.some_size many full;
          other_processes = λ other ne.
              find_process-update_process_ne pid other
                (λ x. count_swap_out (suspended_at (some ss) x)) m.process_list (λ x. refl) ne;
          other_pages = λ f out inside. page_at-store tam f ss pages m.swap_file out full inside;
        },
      )

  -- The process is suspended on the frames `ss` of the swap file, and there are frames free for all
  -- of them, of which each lies in the user space.
  pub record CanResume (pid : ℕ) (p : ProcessInfo) (ss : List ℕ) (m : Memoria B) : Type 0 where
    pub some_size : 0 < tam_pagina
    pub page_size : tam_pagina < 2 ^ 31
    pub found : find_process pid m.process_list ≡ some p
    pub suspended : p.is_suspended ≡ true
    pub framed : p.allocated_frames ≡ some ss
    pub some_frame : 0 < length ss
    pub reachable : All (Reachable tam_pagina) ss
    pub there : All (Inside tam_pagina m.swap_file) ss
    pub pool : IsValid B m.frames
    pub free : length ss ≤ m.frames.free_count
    pub frames : m.frames.total * tam_pagina ≤ length m.user_space
    pub space : length m.user_space < 2 ^ 31

  -- The process runs on the frames `us`, which hold the pages that `ss` held; `ss` are given back.
  pub record Resumed (pid : ℕ) (p : ProcessInfo) (ss us : List ℕ) (m n : Memoria B) : Type 0 where
    pub process : find_process pid n.process_list ≡ some (count_swap_in (resumed_at (some us) p))
    pub pages : load tam_pagina us n.user_space ≡ load tam_pagina ss m.swap_file
    pub taken : Granted B m.frames (length ss) us n.frames
    pub given_back : n.swap_frames ≡ release_frames B ss m.swap_frames
    pub same_size : length n.user_space ≡ length m.user_space

  resume-runs :
      (pid : ℕ) (p : ProcessInfo) (ss us : List ℕ) (q : Pool B) (m : Memoria B)
      (user_space : List ℕ)
      → find_process pid m.process_list ≡ some p
      → p.is_suspended ≡ true
      → p.allocated_frames ≡ some ss
      → 0 < length ss
      → allocate_frames B m.frames (length ss) ≡ some (us, q)
      → length ss ≤ length us
      → pages_in tam_pagina ss us m.swap_file m.user_space ≡ some (true, user_space)
      → swap_in_process B config pid m
        ≡ some (after_pages_in B config pid ss us q m (true, user_space))
  unfolding swap_in_process
  resume-runs pid p [] us q m user_space found suspended framed some_frame allocated many moved =
      absurd (omega arith)
  resume-runs pid p (s ∷ ss) us q m user_space found suspended framed some_frame allocated many
        moved =
      ap (λ o. resume_found B config pid o m) found
      ∙ ap (λ b. if b then resume_frames B config pid p.allocated_frames m else some (true, m))
          suspended
      ∙ ap (λ o. resume_frames B config pid o m) framed
      ∙ ap (λ o. with_user_frames B config pid (s ∷ ss) m o) allocated
      ∙ rw (le→ltb (length us) (length (s ∷ ss)) many, moved) refl

  -- A process that can be resumed is: its pages stand in the user space, on frames that were free,
  -- and its frames of the swap file are given back.
  pub swap_in_process-Resumed :
      (pid : ℕ) (p : ProcessInfo) (ss : List ℕ) (m : Memoria B)
      → CanResume pid p ss m
      → (n : Memoria B) × (us : List ℕ) × (swap_in_process B config pid m ≡ some (true, n))
        × Resumed pid p ss us m n
  unfolding swap_in_process
  swap_in_process-Resumed pid p ss m c =
      let (us, q, allocated, g) = allocate_frames-Granted B m.frames (length ss) c.pool c.free in
      let tam = tam_pagina in
      let inside =
        All-map (λ f. f < m.frames.total) (Inside tam m.user_space)
          (λ f h. omega (arith, mul-le-mul_right tam h, c.frames)) us g.inside in
      let pages = load tam ss m.swap_file in
      let full = load-IsPage tam c.page_size ss m.swap_file c.there in
      let user_space = store tam us pages m.user_space in
      (
        (after_pages_in B config pid ss us q m (true, user_space)).1,
        us,
        resume-runs pid p ss us q m user_space c.found c.suspended c.framed c.some_frame allocated
            (omega (arith, g.many))
            (pages_in-store tam c.page_size ss us m.swap_file m.user_space c.space (sym g.many)
              inside c.reachable c.there),
        record {
          process =
              find_process-update_process pid (λ x. count_swap_in (resumed_at (some us) x))
                m.process_list p (λ x. refl) c.found;
          pages =
              load-store tam us pages m.user_space c.some_size
                (Granted-Different B m.frames (length ss) us q g)
                (g.many ∙ sym (length-load tam ss m.swap_file)) full;
          taken = g;
          given_back = refl;
          same_size = length-store tam us pages m.user_space inside full;
        },
      )

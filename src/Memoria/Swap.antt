-- ===== src/Memoria/Swap.antt =====
-- The swap file of memoria/src/swap_space/swap_manager.c, and the suspension and the resumption of
-- a process in memoria/src/swap_space/swap_out.c and swap_in.c. Each runs under the mutex of the
-- swap file, so it is one step; `malloc` gives what it is asked for.
pub mod Pages
pub mod Moving
pub mod RoundTrip
use tpsoaprobado.Base.{
  ℕ, zero, suc, ◌+◌, ◌*◌, ◌%◌, ◌^◌, ◌/◌, Bool, true, false, not, ◌==◌, Option, none, some, List, [],
  ◌∷◌, length, take, drop, ltb, if◌then◌else◌, ◌>>=◌,
}
use tpsoaprobado.Memoria.Bytes.{overwrite, slice}
use tpsoaprobado.Memoria.BitArray.{BitArray}
use tpsoaprobado.Memoria.Frames.{Pool, allocate_frames, release_frames}
use tpsoaprobado.Memoria.UserSpace.{write_to_user_space, read_from_user_space}
use tpsoaprobado.Memoria.Processes.{
  MemoriaConfig, ProcessMetrics, ProcessInfo, Memoria, find_process, update_process,
}

-- `frame_num * TAM_PAGINA`, an int32_t.
abbrev pub position : ℕ → ℕ → ℕ
position tam_pagina frame = frame * tam_pagina % 2 ^ 32

-- `room` is how many bytes of a write at a position the disk takes; `fwrite` stores these. A seek
-- to a negative position fails.
unfoldable pub swap_write_frame : (ℕ → ℕ) → ℕ → ℕ → List ℕ → List ℕ → Bool × List ℕ
unfolding overwrite
swap_write_frame room tam_pagina frame page file =
    let at = position tam_pagina frame in
    let stored = overwrite at (take (room at) page) file in
    if ltb at (2 ^ 31) then (not (ltb (room at) (length page)), stored) else (false, file)

-- `none`: the seek fails, or the file has fewer bytes there than are read.
unfoldable pub swap_read_frame : ℕ → ℕ → List ℕ → Option (List ℕ)
swap_read_frame tam_pagina frame file =
    let at = position tam_pagina frame in
    let bytes = slice at tam_pagina file in
    if ltb at (2 ^ 31) then if length bytes == tam_pagina then some bytes else none else none

-- The loop of `swap_out_process`: whether every page was written, and the file. The frames come in
-- pairs; `none`: an access outside the user space, or to a frame that is not there.
unfoldable pub pages_out : (ℕ → ℕ) → ℕ → List ℕ → List ℕ → List ℕ → List ℕ → Option (Bool × List ℕ)
unfolding swap_write_frame read_from_user_space
pages_out room tam_pagina [] swapped user_space file = some (true, file)
pages_out room tam_pagina (u ∷ us) [] user_space file = none
pages_out room tam_pagina (u ∷ us) (s ∷ ss) user_space file =
    read_from_user_space (position tam_pagina u) tam_pagina user_space >>= λ page.
    let (written, file') = swap_write_frame room tam_pagina s page file in
    let rest = pages_out room tam_pagina us ss user_space file' in
    if written then rest else some (false, file')

abbrev pub page_in :
    ℕ → ℕ → Option (List ℕ) → List ℕ → (List ℕ → Option (Bool × List ℕ)) → Option (Bool × List ℕ)
page_in tam_pagina u none user_space next = some (false, user_space)
page_in tam_pagina u (some page) user_space next =
    write_to_user_space tam_pagina (position tam_pagina u) page user_space >>= next

-- The loop of `swap_in_process`.
unfoldable pub pages_in : ℕ → List ℕ → List ℕ → List ℕ → List ℕ → Option (Bool × List ℕ)
unfolding swap_read_frame write_to_user_space
pages_in tam_pagina [] users file user_space = some (true, user_space)
pages_in tam_pagina (s ∷ ss) [] file user_space = none
pages_in tam_pagina (s ∷ ss) (u ∷ us) file user_space =
    page_in tam_pagina u (swap_read_frame tam_pagina s file) user_space
      (pages_in tam_pagina ss us file)

abbrev pub suspended_at : Option (List ℕ) → ProcessInfo → ProcessInfo
suspended_at swapped p = record p { is_suspended = true; allocated_frames = swapped }

abbrev pub resumed_at : Option (List ℕ) → ProcessInfo → ProcessInfo
resumed_at taken p = record p { is_suspended = false; allocated_frames = taken }

abbrev pub count_swap_out : ProcessInfo → ProcessInfo
count_swap_out p = record p {
  metrics = record (p.metrics) { swap_out_count = p.metrics.swap_out_count + 1 };
}

abbrev pub count_swap_in : ProcessInfo → ProcessInfo
count_swap_in p = record p {
  metrics = record (p.metrics) { swap_in_count = p.metrics.swap_in_count + 1 };
}

module _ (B : BitArray) (config : MemoriaConfig) where
  open config use {tam_pagina}

  abbrev pub change : ℕ → (ProcessInfo → ProcessInfo) → Memoria B → Memoria B
  change pid f m = record m { process_list = update_process pid f m.process_list }

  -- The end of `swap_out_process`, after the loop. Swap frames of a loop that failed stay taken.
  abbrev pub after_pages_out :
      ℕ → List ℕ → List ℕ → Pool B → Memoria B → Bool × List ℕ → Bool × Memoria B
  after_pages_out pid us ss q m (success, file) =
      if success
      then (
        true,
        change pid (λ p. count_swap_out (suspended_at (some ss) p))
            (record m { frames = release_frames B us m.frames; swap_frames = q; swap_file = file }),
      )
      else (false, record m { swap_frames = q; swap_file = file })

  -- After `swap_allocate_frames`.
  abbrev pub with_swap_frames :
      (ℕ → ℕ) → ℕ → List ℕ → Memoria B → Option (List ℕ × Pool B) → Option (Bool × Memoria B)
  with_swap_frames room pid us m none = some (false, m)
  with_swap_frames room pid us m (some (ss, q)) =
      let moved = pages_out room tam_pagina us ss m.user_space m.swap_file >>= λ r.
      some (after_pages_out pid us ss q m r) in
      if ltb (length ss) (length us) then some (false, record m { swap_frames = q }) else moved

  abbrev pub suspend_frames : (ℕ → ℕ) → ℕ → Option (List ℕ) → Memoria B → Option (Bool × Memoria B)
  suspend_frames room pid none m = some (true, change pid (λ p. record p { is_suspended = true }) m)
  suspend_frames room pid (some us) m =
      with_swap_frames room pid us m (allocate_frames B m.swap_frames (length us))

  abbrev pub suspend_found :
      (ℕ → ℕ) → ℕ → Option ProcessInfo → Memoria B → Option (Bool × Memoria B)
  suspend_found room pid none m = some (false, m)
  suspend_found room pid (some p) m =
      let moved = suspend_frames room pid p.allocated_frames m in
      if p.is_suspended then some (true, m) else moved

  -- `swap_out_process`.
  unfoldable pub swap_out_process : (ℕ → ℕ) → ℕ → Memoria B → Option (Bool × Memoria B)
  unfolding find_process update_process allocate_frames release_frames pages_out
  swap_out_process room pid m = suspend_found room pid (find_process pid m.process_list) m

  -- The end of `swap_in_process`. The pages that were written before a failure stay written.
  abbrev pub after_pages_in :
      ℕ → List ℕ → List ℕ → Pool B → Memoria B → Bool × List ℕ → Bool × Memoria B
  after_pages_in pid ss us q m (success, user_space) =
      if success
      then (
        true,
        change pid (λ p. count_swap_in (resumed_at (some us) p))
            (record m {
              frames = q;
              swap_frames = release_frames B ss m.swap_frames;
              user_space = user_space;
            }),
      )
      else (false, record m { frames = release_frames B us q; user_space = user_space })

  abbrev pub with_user_frames :
      ℕ → List ℕ → Memoria B → Option (List ℕ × Pool B) → Option (Bool × Memoria B)
  with_user_frames pid ss m none = some (false, m)
  with_user_frames pid ss m (some (us, q)) =
      let moved = pages_in tam_pagina ss us m.swap_file m.user_space >>= λ r.
      some (after_pages_in pid ss us q m r) in
      if ltb (length us) (length ss) then some (false, record m { frames = q }) else moved

  -- Without frames in the swap file, the process is only marked.
  abbrev pub resume_frames : ℕ → Option (List ℕ) → Memoria B → Option (Bool × Memoria B)
  resume_frames pid none m = some (true, change pid (λ p. record p { is_suspended = false }) m)
  resume_frames pid (some []) m = some (true, change pid (λ p. record p { is_suspended = false }) m)
  resume_frames pid (some (s ∷ ss)) m =
      with_user_frames pid (s ∷ ss) m (allocate_frames B m.frames (length (s ∷ ss)))

  abbrev pub resume_found : ℕ → Option ProcessInfo → Memoria B → Option (Bool × Memoria B)
  resume_found pid none m = some (false, m)
  resume_found pid (some p) m =
      let moved = resume_frames pid p.allocated_frames m in
      if p.is_suspended then moved else some (true, m)

  -- `swap_in_process`.
  unfoldable pub swap_in_process : ℕ → Memoria B → Option (Bool × Memoria B)
  unfolding find_process update_process allocate_frames release_frames pages_in
  swap_in_process pid m = resume_found pid (find_process pid m.process_list) m

-- ===== src/Memoria/Requests.antt =====
-- The requests that the memory module answers: memoria/src/client/handlers.c and the handlers in
-- the folders beside it. The delays change nothing and are left out.
use mathlib.Core.Option
use tpsoaprobado.Base.{
  ℕ, suc, ◌+◌, ◌^◌, Bool, true, false, ◌==◌, Option, none, some, List, [], ◌∷◌, ◌++◌, get_elem?,
  leb, if◌then◌else◌, ◌>>=◌,
}
use tpsoaprobado.Utils.Enums.Opcode
use tpsoaprobado.Utils.Package.{Package, read_package}
use tpsoaprobado.Utils.Dtp.{c_string}
use tpsoaprobado.Utils.Dtp.Control.{
  FetchPackageData, read_fetch_package, read_kill_process_package, read_dump_memory_package,
  read_swap_package, create_confirmation_package,
}
use tpsoaprobado.Utils.Dtp.Memory.{
  PageEntryRequestData, read_page_entry_request_package, create_page_entry_response_package,
  MemoryReadRequest, read_memory_read_request, create_package_memory_read_response,
  MemoryWriteRequest, read_memory_write_request,
}
use tpsoaprobado.Utils.Dtp.Syscall.{
  InitProcessPackageData, read_init_process_package, create_instruction_package,
}
use tpsoaprobado.Memoria.BitArray.{BitArray}
use tpsoaprobado.Memoria.PageTable.{Table, invalid_frame_number, page_entry_response}
use tpsoaprobado.Memoria.UserSpace.{read_from_user_space, write_to_user_space}
use tpsoaprobado.Memoria.Processes.{
  MemoriaConfig, ProcessInfo, Memoria, find_process, update_process, process_manager_delete_process,
}
use tpsoaprobado.Memoria.Creation.{Scripts, create_process}
use tpsoaprobado.Memoria.Swap.{position, swap_out_process, swap_in_process}

-- What is outside the program: the files of instructions, how many bytes of a write at a position
-- of the swap file the disk takes, whether the file of a dump opens, and whether its pages are
-- written.
pub record Host : Type 0 where
  pub scripts : Scripts
  pub room : ℕ → ℕ
  pub dump_opens : Bool
  pub dump_writes : ℕ → Bool

-- What a client gets: one package, nothing, or the end of the connection.
pub data Reply : Type 0 where
  reply : Package → Reply
  no_reply : Reply
  close_connection : Reply

abbrev pub confirm : Bool → Reply
confirm success = reply (create_confirmation_package success)

-- The instruction at a program counter; the list of the commons gives NULL at a negative index, and
-- for NULL the empty string is sent.
abbrev pub instruction_or_empty : Option (List ℕ) → List ℕ
instruction_or_empty none = []
instruction_or_empty (some instruction) = instruction

abbrev pub instruction_at : ℕ → List (List ℕ) → List ℕ
instruction_at pc instructions =
    if leb (2 ^ 31) pc then [] else instruction_or_empty (get_elem? instructions pc)

abbrev pub count_request : ProcessInfo → ProcessInfo
count_request p = record p {
  metrics = record (p.metrics) {
    instruction_requests_count = p.metrics.instruction_requests_count + 1;
  };
}

abbrev pub count_access : ProcessInfo → ProcessInfo
count_access p = record p {
  metrics = record (p.metrics) { page_table_access_count = p.metrics.page_table_access_count + 1 };
}

-- The loop of `dump_memory_request_handler`, from page `i` on: whether all is written, and what is.
unfoldable pub dump_pages : (ℕ → Bool) → ℕ → List ℕ → ℕ → List ℕ → Option (Bool × List ℕ)
unfolding read_from_user_space
dump_pages writes tam_pagina [] i user_space = some (true, [])
dump_pages writes tam_pagina (f ∷ fs) i user_space =
    read_from_user_space (position tam_pagina f) tam_pagina user_space >>= λ page.
    let rest = dump_pages writes tam_pagina fs (suc i) user_space in
    if writes i
    then Option.map (λ (r : Bool × List ℕ). (r.0, page ++ r.1)) rest
    else some (false, [])

module _ (B : BitArray) (config : MemoriaConfig) (host : Host) where
  open config use {tam_pagina}

  -- What a handler leaves. `none`: it reads values that were not sent, follows a pointer that is
  -- null, or leaves the user space.
  abbrev pub Handled : Type 0
  Handled = Option (Reply × Memoria B)

  abbrev pub confirmed : Bool × Memoria B → Reply × Memoria B
  confirmed (success, m) = (confirm success, m)

  abbrev pub fetch_found : FetchPackageData → Option ProcessInfo → Memoria B → Reply × Memoria B
  fetch_found r none m = (reply (create_instruction_package []), m)
  fetch_found r (some p) m = (
    reply (create_instruction_package (instruction_at r.pc p.instructions)),
    record m { process_list = update_process r.pid count_request m.process_list },
  )

  -- `get_instruction_request_handler`.
  unfoldable pub get_instruction : FetchPackageData → Memoria B → Handled
  unfolding find_process update_process
  get_instruction r m = some (fetch_found r (find_process r.pid m.process_list) m)

  -- `init_process_request_handler`.
  unfoldable pub init_process : InitProcessPackageData → Memoria B → Handled
  unfolding create_process c_string
  init_process r m =
      Option.map confirmed
        (create_process B config host.scripts r.pid r.size (c_string r.pseudocode_path) m)

  -- `unsuspend_process_request_handler`.
  unfoldable pub unsuspend_process : ℕ → Memoria B → Handled
  unfolding swap_in_process
  unsuspend_process pid m = Option.map confirmed (swap_in_process B config pid m)

  -- `swap_request_handler`.
  unfoldable pub swap_process : ℕ → Memoria B → Handled
  unfolding swap_out_process
  swap_process pid m = Option.map confirmed (swap_out_process B config host.room pid m)

  -- The frames of a process that are dumped, if it has any.
  abbrev pub dumped_frames : Option ProcessInfo → List ℕ
  dumped_frames none = []
  dumped_frames (some p) = elim p.allocated_frames [ none ↦ [] | some fs ↦ fs ]

  -- The answer to a dump, with what stands in its file.
  abbrev pub dump_frames : List ℕ → Memoria B → Option (Bool × List ℕ)
  dump_frames [] m = some (false, [])
  dump_frames (f ∷ fs) m =
      let dumped = dump_pages host.dump_writes tam_pagina (f ∷ fs) 0 m.user_space in
      if host.dump_opens then dumped else some (false, [])

  -- `dump_memory_request_handler`.
  unfoldable pub dump_process : ℕ → Memoria B → Option (Bool × List ℕ)
  unfolding find_process dump_pages
  dump_process pid m = dump_frames (dumped_frames (find_process pid m.process_list)) m

  unfoldable pub dump_memory : ℕ → Memoria B → Handled
  unfolding dump_process
  dump_memory pid m = Option.map (λ (r : Bool × List ℕ). (confirm r.0, m)) (dump_process pid m)

  -- `delete_process_request_handler`.
  unfoldable pub delete_process : ℕ → Memoria B → Handled
  unfolding process_manager_delete_process
  delete_process pid m = some (confirmed (process_manager_delete_process B pid m))

  -- `write_memory_request_handler`: the answer is the same whether the bytes were written or not.
  unfoldable pub write_memory : MemoryWriteRequest → Memoria B → Handled
  unfolding write_to_user_space
  write_memory r m =
      Option.map (λ user_space. (confirm true, record m { user_space = user_space }))
        (write_to_user_space tam_pagina r.physical_address r.bytes m.user_space)

  -- `read_memory_request_handler`; the buffer for a negative size is not allocated.
  unfoldable pub read_memory : MemoryReadRequest → Memoria B → Handled
  unfolding read_from_user_space
  read_memory r m =
      let answered =
        Option.map (λ bytes. (reply (create_package_memory_read_response bytes), m))
          (read_from_user_space r.physical_address r.size m.user_space) in
      if leb (2 ^ 31) r.size then some (no_reply, m) else answered

  abbrev pub walk_in : PageEntryRequestData → Option Table → Option (ℕ × ℕ)
  walk_in r none = none
  walk_in r (some root) = some (page_entry_response root r.table_id r.entry_index)

  abbrev pub walk_found : PageEntryRequestData → Option ProcessInfo → Option (ℕ × ℕ)
  walk_found r none = some (invalid_frame_number, 1)
  walk_found r (some p) = walk_in r p.page_table

  -- `handle_page_walk_request`.
  unfoldable pub page_walk : PageEntryRequestData → Memoria B → Handled
  unfolding find_process update_process page_entry_response
  page_walk r m =
      Option.map
        (λ (a : ℕ × ℕ). (
          reply (create_page_entry_response_package a.0 a.1),
          record m { process_list = update_process r.pid count_access m.process_list },
        ))
        (walk_found r (find_process r.pid m.process_list))

  -- One round of `client_handler`: the switch on the opcode of the package.
  unfoldable pub client_request : Package → Memoria B → Handled
  unfolding get_instruction init_process unsuspend_process swap_process dump_memory delete_process
      write_memory read_memory page_walk
  client_request p m =
      let op = p.opcode in
      if op == Opcode.fetch
      then (read_package read_fetch_package p >>= λ r. get_instruction r m)
      else if op == Opcode.init_process
      then (read_package read_init_process_package p >>= λ r. init_process r m)
      else if op == Opcode.unsuspend_process
      then (read_package read_swap_package p >>= λ r. unsuspend_process r m)
      else if op == Opcode.swap
      then (read_package read_swap_package p >>= λ r. swap_process r m)
      else if op == Opcode.c_dump_memory
      then (read_package read_dump_memory_package p >>= λ r. dump_memory r m)
      else if op == Opcode.kill_process
      then (read_package read_kill_process_package p >>= λ r. delete_process r m)
      else if op == Opcode.write_memory
      then (read_package read_memory_write_request p >>= λ r. write_memory r m)
      else if op == Opcode.read_memory
      then (read_package read_memory_read_request p >>= λ r. read_memory r m)
      else if op == Opcode.get_page_entry
      then (read_package read_page_entry_request_package p >>= λ r. page_walk r m)
      else some (close_connection, m)

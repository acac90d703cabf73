-- ===== src/Utils/Dtp/Delivery/Every.antt =====
-- The packages of utils/src/utils/DTPs over the wire, by the programs that exchange them.
use tpsoaprobado.Base.{arith, ℕ, ◌^◌, ◌<◌, ◌≡◌, Bool, ◌==◌, Option, some, List, length}
use tpsoaprobado.Utils.Package.Wire.{transfer}
use tpsoaprobado.Utils.Dtp.Control.{
  create_fetch_package, read_fetch_package, create_dispatch_package, read_dispatch_package,
  create_io_operation_package, read_io_operation_package, create_cpu_context_package,
  read_cpu_context_package, create_interrupt_package, read_interrupt_package,
  create_kill_process_package, read_kill_process_package, create_dump_memory_package,
  read_dump_memory_package, create_swap_operation_package, read_swap_package,
  create_confirmation_package, read_confirmation_package,
}
use tpsoaprobado.Utils.Dtp.Memory.{
  create_page_entry_request_package, read_page_entry_request_package,
  create_page_entry_response_package, read_page_entry_response_package, MemoryReadRequest,
  memory_read_request_package, read_memory_read_request, create_package_memory_read_response,
  read_memory_read_response, MemoryWriteRequest, memory_write_request_package,
  read_memory_write_request,
}
use tpsoaprobado.Utils.Dtp.Syscall.{
  create_init_process_package, read_init_process_package, path_bytes,
}
use tpsoaprobado.Utils.Dtp.Delivery.{
  pair_packages_arrive, pid_packages_arrive, confirmation_arrives, cpu_context_arrives,
}
use tpsoaprobado.Utils.Dtp.Delivery.Bytes.{
  page_entry_packages_arrive, write_request_arrives, read_packages_arrive,
}
use tpsoaprobado.Utils.Dtp.Delivery.Text.{init_process_arrives}

-- The packages of numbers arrive as they were sent: fetches, dispatches, device operations,
-- interrupts, kills, dumps, swap operations, confirmations, and the context of a CPU, for int32_t.
pub control_packages_arrive :
    (x y z operation : ℕ) (success : Bool)
    → x < 2 ^ 32
    → y < 2 ^ 32
    → z < 2 ^ 32
    → operation < 2 ^ 32
    → ((transfer (create_fetch_package x y) read_fetch_package ≡ some (record { pid = x; pc = y }))
        × (transfer (create_dispatch_package x y) read_dispatch_package
            ≡ some (record { pid = x; pc = y }))
        × (transfer (create_io_operation_package x y) read_io_operation_package
            ≡ some (record { pid = x; sleep_time = y })))
      × ((transfer (create_interrupt_package x) read_interrupt_package ≡ some x)
          × (transfer (create_kill_process_package x) read_kill_process_package ≡ some x)
          × (transfer (create_dump_memory_package x) read_dump_memory_package ≡ some x)
          × (transfer (create_swap_operation_package x operation) read_swap_package ≡ some x))
      × (transfer (create_confirmation_package success) read_confirmation_package ≡ some success)
      × (transfer (create_cpu_context_package x y z) read_cpu_context_package
          ≡ some (record { pid = x; pc = y; interrupted_same_pid = z }))
control_packages_arrive x y z operation success hx hy hz ho = (
  pair_packages_arrive x y hx hy,
  pid_packages_arrive x operation hx ho,
  confirmation_arrives success,
  cpu_context_arrives x y z hx hy hz,
)

-- The packages between a CPU or the kernel and the memory arrive as they were sent: requests for
-- page table entries, reads, writes and new processes, and the answers to them, for int32_t and for
-- bytes and paths that are shorter than 2 ^ 30.
pub memory_packages_arrive :
    (x y z : ℕ) (bytes : List ℕ) (path : Option (List ℕ))
    → x < 2 ^ 32
    → y < 2 ^ 32
    → z < 2 ^ 32
    → length bytes < 2 ^ 30
    → length (path_bytes path) < 2 ^ 30
    → ((transfer (create_page_entry_request_package x y z) read_page_entry_request_package
          ≡ some (record { pid = x; table_id = y; entry_index = z }))
        × (transfer (create_page_entry_response_package x y) read_page_entry_response_package
            ≡ some (record { value = x; is_last_level = y == 0 })))
      × (let request : MemoryReadRequest = record { physical_address = x; size = y } in
          (transfer (memory_read_request_package request) read_memory_read_request ≡ some request)
          × (transfer (create_package_memory_read_response bytes) read_memory_read_response
              ≡ some bytes))
      × (let request : MemoryWriteRequest = record { physical_address = x; bytes = bytes } in
          transfer (memory_write_request_package request) read_memory_write_request ≡ some request)
      × (transfer (create_init_process_package x y path) read_init_process_package
          ≡ some (record { pid = x; size = y; pseudocode_path = path_bytes path }))
memory_packages_arrive x y z bytes path hx hy hz short path_short = (
  page_entry_packages_arrive x y z hx hy hz,
  read_packages_arrive x y bytes hx hy (omega (arith, short)),
  write_request_arrives x bytes hx (omega (arith, short)),
  init_process_arrives x y path hx hy path_short,
)

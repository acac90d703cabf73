-- ===== src/Tests/Wire.antt =====
-- Packages over the wire.
use tpsoaprobado.Base.{List, ℕ, Option, ◌≡◌, refl, true, ◌==◌, some, [], ◌∷◌, ◌++◌, arith}
use tpsoaprobado.Utils.Buffer.{buffer_create, buffer_add_int32, int32_bytes}
use tpsoaprobado.Utils.Buffer.Laws.{buffer_create-Holds}
use tpsoaprobado.Utils.Package.{
  Package, create_package, serialize_package, disconnected, received, recv_package,
}
use tpsoaprobado.Utils.Package.Wire.{
  Carries, transfer, recv_package-serialize_package, recv_package-empty,
}
use tpsoaprobado.Utils.Dtp.{terminated}
use tpsoaprobado.Utils.Dtp.Delivery.{one_int}
use tpsoaprobado.Utils.Dtp.Delivery.Every.{control_packages_arrive, memory_packages_arrive}
use tpsoaprobado.Utils.Dtp.Delivery.Text.{syscall_arrives, text_packages_arrive}
use tpsoaprobado.Utils.Dtp.Control.{
  create_fetch_package, read_fetch_package, create_dispatch_package, read_dispatch_package,
  create_io_operation_package, read_io_operation_package, create_cpu_context_package,
  read_cpu_context_package, create_interrupt_package, read_interrupt_package,
  create_kill_process_package, read_kill_process_package, create_dump_memory_package,
  read_dump_memory_package, create_swap_operation_package, read_swap_package,
  create_confirmation_package, read_confirmation_package,
}
use tpsoaprobado.Utils.Dtp.Memory.{
  MemoryReadRequest, MemoryWriteRequest, create_page_entry_request_package,
  read_page_entry_request_package, create_page_entry_response_package,
  read_page_entry_response_package, memory_read_request_package, read_memory_read_request,
  create_package_memory_read_response, read_memory_read_response, memory_write_request_package,
  read_memory_write_request,
}
use tpsoaprobado.Utils.Dtp.Syscall.{
  SyscallPackageData, io, create_syscall_package, read_syscall_package, create_init_process_package,
  read_init_process_package, path_bytes, create_instruction_package, read_instruction_package,
  create_new_io_package, read_new_io_package, create_io_completion_package,
  read_io_completion_package,
}

abbrev sent : Package
sent = create_package 6 (buffer_add_int32 (buffer_create 4) 258)

recv_package-serialize_package_example :
    (q : Package) × (recv_package (serialize_package sent ++ 9 ∷ []) ≡ received q (9 ∷ []))
    × Carries q 6 (int32_bytes 258)
recv_package-serialize_package_example =
    recv_package-serialize_package sent 6 (int32_bytes 258) (9 ∷ []) (one_int 6 258) (omega arith)
      (omega arith) (omega arith)

nothing_sent : Carries (create_package 13 (buffer_create 0)) 13 []
unfolding create_package
nothing_sent = (refl, buffer_create-Holds 0)

recv_package-empty_example :
    recv_package (serialize_package (create_package 13 (buffer_create 0)) ++ 7 ∷ []) ≡ disconnected
recv_package-empty_example =
    recv_package-empty (create_package 13 (buffer_create 0)) 13 (7 ∷ []) nothing_sent (omega arith)

abbrev call : SyscallPackageData
call = record { pid = 3; pc = 12; params = io (68 ∷ 73 ∷ []) 250 }

syscall_arrives_example :
    transfer (create_syscall_package call) read_syscall_package
    ≡ some (record call { params = io (68 ∷ 73 ∷ 0 ∷ []) 250 })
syscall_arrives_example =
    syscall_arrives call (omega arith) (omega arith) (omega arith, omega arith)

text_packages_arrive_example :
    (transfer (create_instruction_package (69 ∷ [])) read_instruction_package
      ≡ some (terminated (69 ∷ [])))
    × (transfer (create_new_io_package (69 ∷ [])) read_new_io_package ≡ some (terminated (69 ∷ [])))
    × (transfer (create_io_completion_package (69 ∷ []) 5) read_io_completion_package
        ≡ some (record { device_name = terminated (69 ∷ []); pid = 5 }))
text_packages_arrive_example = text_packages_arrive (69 ∷ []) 5 (omega arith) (omega arith)

control_packages_arrive_example :
    ((transfer (create_fetch_package 1 2) read_fetch_package ≡ some (record { pid = 1; pc = 2 }))
      × (transfer (create_dispatch_package 1 2) read_dispatch_package
          ≡ some (record { pid = 1; pc = 2 }))
      × (transfer (create_io_operation_package 1 2) read_io_operation_package
          ≡ some (record { pid = 1; sleep_time = 2 })))
    × ((transfer (create_interrupt_package 1) read_interrupt_package ≡ some 1)
        × (transfer (create_kill_process_package 1) read_kill_process_package ≡ some 1)
        × (transfer (create_dump_memory_package 1) read_dump_memory_package ≡ some 1)
        × (transfer (create_swap_operation_package 1 7) read_swap_package ≡ some 1))
    × (transfer (create_confirmation_package true) read_confirmation_package ≡ some true)
    × (transfer (create_cpu_context_package 1 2 0) read_cpu_context_package
        ≡ some (record { pid = 1; pc = 2; interrupted_same_pid = 0 }))
control_packages_arrive_example =
    control_packages_arrive 1 2 0 7 true (omega arith) (omega arith) (omega arith) (omega arith)

abbrev bytes : List ℕ
bytes = 7 ∷ 8 ∷ []

abbrev path : Option (List ℕ)
path = some (97 ∷ [])

memory_packages_arrive_example :
    ((transfer (create_page_entry_request_package 1 2 0) read_page_entry_request_package
        ≡ some (record { pid = 1; table_id = 2; entry_index = 0 }))
      × (transfer (create_page_entry_response_package 1 2) read_page_entry_response_package
          ≡ some (record { value = 1; is_last_level = 2 == 0 })))
    × (let request : MemoryReadRequest = record { physical_address = 1; size = 2 } in
        (transfer (memory_read_request_package request) read_memory_read_request ≡ some request)
        × (transfer (create_package_memory_read_response bytes) read_memory_read_response
            ≡ some bytes))
    × (let request : MemoryWriteRequest = record { physical_address = 1; bytes = bytes } in
        transfer (memory_write_request_package request) read_memory_write_request ≡ some request)
    × (transfer (create_init_process_package 1 2 path) read_init_process_package
        ≡ some (record { pid = 1; size = 2; pseudocode_path = path_bytes path }))
memory_packages_arrive_example =
    memory_packages_arrive 1 2 0 bytes path (omega arith) (omega arith) (omega arith) (omega arith)
      (omega arith)

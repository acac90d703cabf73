-- ===== src/Utils/Dtp/Delivery/Bytes.antt =====
-- The packages between a CPU and the memory, over the wire.
use tpsoaprobado.Base.{
  ℕ, ◌+◌, ◌^◌, ◌<◌, ◌≡◌, refl, ◌==◌, some, List, ◌++◌, arith, lt→ltb, length, drop, replicate,
  length-replicate, length-drop,
}
use tpsoaprobado.Utils.Buffer.{int32_bytes, buffer_read, buffer_read_int32}
use tpsoaprobado.Utils.Buffer.Laws.{
  Reads->>=, Reads-last, buffer_create-Holds, buffer_add_int32-Holds, buffer_add-Holds,
  buffer_add_string-Holds, buffer_read-Reads, buffer_read_int32-Reads, buffer_read_string-Reads,
  Holds-spent,
}
use tpsoaprobado.Utils.Dtp.Delivery.{two_ints, Reads-two, Reads-three}
use tpsoaprobado.Utils.Package.{create_package}
use tpsoaprobado.Utils.Package.Wire.{transfer, transfer-Reads}
use tpsoaprobado.Utils.Dtp.Memory.{
  create_page_entry_request_package, read_page_entry_request_package,
  create_page_entry_response_package, read_page_entry_response_package, MemoryReadRequest,
  memory_read_request_package, read_memory_read_request, create_package_memory_read_response,
  read_memory_read_response, MemoryWriteRequest, memory_write_request_package,
  read_memory_write_request,
}

-- Requests for page table entries and their answers, of int32_t numbers, arrive as they were
-- sent, where an answer is of the last level if its second number is 0.
pub page_entry_packages_arrive :
    (x y z : ℕ)
    → x < 2 ^ 32
    → y < 2 ^ 32
    → z < 2 ^ 32
    → (transfer (create_page_entry_request_package x y z) read_page_entry_request_package
        ≡ some (record { pid = x; table_id = y; entry_index = z }))
      × (transfer (create_page_entry_response_package x y) read_page_entry_response_package
          ≡ some (record { value = x; is_last_level = y == 0 }))
unfolding create_page_entry_request_package read_page_entry_request_package
    create_page_entry_response_package read_page_entry_response_package create_package
page_entry_packages_arrive x y z hx hy hz = (
  transfer-Reads _ 11 (int32_bytes x ++ (int32_bytes y ++ int32_bytes z)) _ _
      (
        refl,
        buffer_add_int32-Holds _ z _ _ (
            buffer_add_int32-Holds _ y _ _
              (buffer_add_int32-Holds _ x _ _ (buffer_create-Holds 12))),
      )
      (omega arith) (omega arith) (omega arith) (Reads-three _ x y z hx hy hz),
  transfer-Reads _ 11 (int32_bytes x ++ int32_bytes y) _ _ (two_ints 11 x y) (omega arith)
      (omega arith) (omega arith) (Reads-two _ x y hx hy),
)

-- A request to write fewer than 2 ^ 31 - 8 bytes at an int32_t address arrives with its address
-- and all its bytes.
pub write_request_arrives :
    (address : ℕ) (bytes : List ℕ)
    → address < 2 ^ 32
    → length bytes + 8 < 2 ^ 31
    → let request : MemoryWriteRequest = record { physical_address = address; bytes = bytes } in
      transfer (memory_write_request_package request) read_memory_write_request ≡ some request
unfolding memory_write_request_package read_memory_write_request create_package
write_request_arrives address bytes ha hb =
    let n = length bytes in
    let room = replicate {A = ℕ} (8 + n) 0 in
    let holds =
      Holds-spent _ _ (drop 4 (drop 4 room)) n
        (buffer_add-Holds _ bytes _ _ (
          buffer_add_int32-Holds _ n _ _
            (buffer_add_int32-Holds _ address _ _ (buffer_create-Holds (8 + n)))))
        (omega (
          arith,
          length-drop 4 (drop 4 room),
          length-drop 4 room,
          length-replicate {A = ℕ} (8 + n) 0,
        )) in
    let body : List ℕ = int32_bytes address ++ (int32_bytes n ++ bytes) in
    transfer-Reads _ 8 body _ _ (refl, holds) (omega arith) (omega arith) (omega (arith, hb))
      (Reads->>= buffer_read_int32 _ (int32_bytes address) (int32_bytes n ++ bytes) address _
        (buffer_read_int32-Reads address ha)
        (Reads->>= buffer_read_int32 _ (int32_bytes n) bytes n _
          (buffer_read_int32-Reads n (omega (arith, hb)))
          (rw (lt→ltb n (2 ^ 31) (omega (arith, hb))) (
            Reads-last (buffer_read n) (λ v. record { physical_address = address; bytes = v }) bytes
              bytes (buffer_read-Reads bytes)))))

-- A request to read, of an int32_t address and size, and an answer of fewer than 2 ^ 31 - 4 bytes
-- arrive as they were sent.
pub read_packages_arrive :
    (address size : ℕ) (bytes : List ℕ)
    → address < 2 ^ 32
    → size < 2 ^ 32
    → length bytes + 4 < 2 ^ 31
    → let request : MemoryReadRequest = record { physical_address = address; size = size } in
      (transfer (memory_read_request_package request) read_memory_read_request ≡ some request)
      × (transfer (create_package_memory_read_response bytes) read_memory_read_response
          ≡ some bytes)
unfolding memory_read_request_package read_memory_read_request create_package_memory_read_response
    read_memory_read_response create_package
read_packages_arrive address size bytes ha hs hb =
    let room = replicate {A = ℕ} (length bytes + 4) 0 in
    let holds =
      Holds-spent _ _ (drop 4 room) (length bytes)
        (buffer_add_string-Holds _ bytes _ _ (buffer_create-Holds (length bytes + 4)))
        (omega (arith, length-drop 4 room, length-replicate {A = ℕ} (length bytes + 4) 0)) in
    (
      transfer-Reads _ 9 (int32_bytes address ++ int32_bytes size) _ _ (two_ints 9 address size)
          (omega arith) (omega arith) (omega arith) (Reads-two _ address size ha hs),
      transfer-Reads _ 9 (int32_bytes (length bytes) ++ bytes) _ _ (refl, holds) (omega arith)
          (omega arith) (omega (arith, hb)) (buffer_read_string-Reads bytes (omega (arith, hb))),
    )

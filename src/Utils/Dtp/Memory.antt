-- ===== src/Utils/Dtp/Memory.antt =====
-- The packages between a CPU and the memory: page table entries, and reads and writes of bytes.
use tpsoaprobado.Base.{ℕ, ◌+◌, ◌^◌, List, Bool, ◌==◌, length, ltb, if◌then◌else◌, none}
use tpsoaprobado.Utils.Enums.Opcode
use tpsoaprobado.Utils.Buffer.{
  Reader, buffer_create, buffer_add, buffer_add_int32, buffer_add_string, buffer_read,
  buffer_read_int32, buffer_read_string, return, ◌>>=◌,
}
use tpsoaprobado.Utils.Package.{Package, create_package}

pub record PageEntryRequestData : Type 0 where
  pub pid : ℕ
  pub table_id : ℕ
  pub entry_index : ℕ

unfoldable pub create_page_entry_request_package : ℕ → ℕ → ℕ → Package
create_page_entry_request_package pid table_id entry_index = create_package Opcode.get_page_entry (
    buffer_add_int32 (buffer_add_int32 (buffer_add_int32 (buffer_create 12) pid) table_id)
      entry_index)

unfoldable pub read_page_entry_request_package : Reader PageEntryRequestData
read_page_entry_request_package = do
  pid ← buffer_read_int32
  table_id ← buffer_read_int32
  entry_index ← buffer_read_int32
  return (record { pid = pid; table_id = table_id; entry_index = entry_index })

pub record PageEntryResponseData : Type 0 where
  pub value : ℕ
  pub is_last_level : Bool

unfoldable pub create_page_entry_response_package : ℕ → ℕ → Package
create_page_entry_response_package value is_last_level =
    create_package Opcode.get_page_entry
      (buffer_add_int32 (buffer_add_int32 (buffer_create 8) value) is_last_level)

-- On the wire 0 stands for the last level.
unfoldable pub read_page_entry_response_package : Reader PageEntryResponseData
read_page_entry_response_package = do
  value ← buffer_read_int32
  is_last_level ← buffer_read_int32
  return (record { value = value; is_last_level = is_last_level == 0 })

pub record MemoryReadRequest : Type 0 where
  pub physical_address : ℕ
  pub size : ℕ

-- `send_memory_read_request` builds its package itself.
unfoldable pub memory_read_request_package : MemoryReadRequest → Package
memory_read_request_package request =
    create_package Opcode.read_memory
      (buffer_add_int32 (buffer_add_int32 (buffer_create 8) request.physical_address) request.size)

unfoldable pub read_memory_read_request : Reader MemoryReadRequest
read_memory_read_request = do
  physical_address ← buffer_read_int32
  size ← buffer_read_int32
  return (record { physical_address = physical_address; size = size })

unfoldable pub create_package_memory_read_response : List ℕ → Package
create_package_memory_read_response bytes =
    create_package Opcode.read_memory (buffer_add_string (buffer_create (length bytes + 4)) bytes)

-- `data_size` is the length of the bytes.
unfoldable pub read_memory_read_response : Reader (List ℕ)
read_memory_read_response = buffer_read_string

-- `size` is the length of the bytes.
pub record MemoryWriteRequest : Type 0 where
  pub physical_address : ℕ
  pub bytes : List ℕ

-- `send_memory_write_request` builds its package itself.
unfoldable pub memory_write_request_package : MemoryWriteRequest → Package
memory_write_request_package request = create_package Opcode.write_memory (
    buffer_add
      (buffer_add_int32
        (buffer_add_int32 (buffer_create (8 + length request.bytes)) request.physical_address)
        (length request.bytes))
      request.bytes)

unfoldable pub read_memory_write_request : Reader MemoryWriteRequest
read_memory_write_request = do
  physical_address ← buffer_read_int32
  size ← buffer_read_int32
  bytes ← if ltb size (2 ^ 31) then buffer_read size else (λ _. none)
  return (record { physical_address = physical_address; bytes = bytes })

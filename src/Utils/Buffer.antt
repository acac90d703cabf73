-- ===== src/Utils/Buffer.antt =====
-- utils/src/utils/serialization/buffer.c. Memory is a list of bytes; an int32_t is its bit pattern,
-- a number below 2 ^ 32, stored with the low byte first. Offsets and sizes stay below 2 ^ 31.
pub mod Laws
use tpsoaprobado.Base.{
  ℕ, zero, suc, ◌+◌, ◌-◌, ◌*◌, ◌/◌, ◌%◌, ◌^◌, Bool, true, false, Option, none, some, List, [], ◌∷◌,
  ◌++◌, length, take, drop, replicate, ltb, if◌then◌else◌,
}

-- `t_buffer`: the stream with its size, and the cursor.
pub record Buffer : Type 0 where
  pub stream_size : ℕ
  pub stream : List ℕ
  pub offset : ℕ

unfoldable pub buffer_create : ℕ → Buffer
buffer_create size = record { stream_size = size; stream = replicate size 0; offset = 0 }

-- `memcpy(stream + offset, bytes, …)`: bytes that fall past the end are lost.
unfoldable pub copy_at : List ℕ → ℕ → List ℕ → List ℕ
copy_at [] offset bytes = []
copy_at (x ∷ xs) (suc offset) bytes = x ∷ copy_at xs offset bytes
copy_at (x ∷ xs) zero [] = x ∷ xs
copy_at (x ∷ xs) zero (b ∷ bytes) = b ∷ copy_at xs zero bytes

-- `safe_realloc` keeps the old bytes; what it adds is indeterminate, here zeros.
unfoldable pub realloc : List ℕ → ℕ → List ℕ
realloc stream size = stream ++ replicate (size - length stream) 0

unfoldable pub buffer_add : Buffer → List ℕ → Buffer
unfolding copy_at realloc
buffer_add b bytes =
    let end = b.offset + length bytes in
    if ltb b.stream_size end
    then record {
      stream_size = end;
      stream = copy_at (realloc b.stream end) b.offset bytes;
      offset = end;
    }
    else record b { stream = copy_at b.stream b.offset bytes; offset = end }

-- The four bytes of an int32_t.
abbrev pub int32_bytes : ℕ → List ℕ
int32_bytes w = w % 256 ∷ w / 256 % 256 ∷ w / 65536 % 256 ∷ w / 16777216 % 256 ∷ []

abbrev pub bytes_int32 : List ℕ → ℕ
bytes_int32 [] = 0
bytes_int32 (b ∷ bs) = b + 256 * bytes_int32 bs

unfoldable pub buffer_add_int32 : Buffer → ℕ → Buffer
buffer_add_int32 b w = buffer_add b (int32_bytes w)

-- The length is that of the bytes that the caller passes.
unfoldable pub buffer_add_string : Buffer → List ℕ → Buffer
buffer_add_string b string = buffer_add (buffer_add_int32 b (length string)) string

-- A reader moves the cursor. `none`: the value is indeterminate, since the read went out of range.
abbrev pub Reader : Type 0 → Type 0
Reader A = Buffer → Option (A × Buffer)

infixl 5 ◌>>=◌
abbrev pub ◌>>=◌ : {A B : Type 0} → Reader A → (A → Reader B) → Reader B
◌>>=◌ m f b = elim (m b) [ none ↦ none | some (a, b') ↦ f a b' ]

abbrev pub return : {A : Type 0} → A → Reader A
return a b = some (a, b)

unfoldable pub buffer_read : ℕ → Reader (List ℕ)
buffer_read size b =
    if ltb b.stream_size (b.offset + size)
    then none
    else some (take size (drop b.offset b.stream), record b { offset = b.offset + size })

unfoldable pub buffer_read_int32 : Reader ℕ
buffer_read_int32 = do bytes ← buffer_read 4; return (bytes_int32 bytes)

-- A length with the sign bit set asks `safe_malloc` for more than there is, and aborts.
unfoldable pub buffer_read_string : Reader (List ℕ)
buffer_read_string = do
  len ← buffer_read_int32
  if ltb len (2 ^ 31) then buffer_read len else (λ _. none)

-- `package->buffer->offset = 0`, with which every package reader begins.
unfoldable pub rewind : Buffer → Buffer
rewind b = record b { offset = 0 }

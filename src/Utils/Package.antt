-- ===== src/Utils/Package.antt =====
-- utils/src/utils/serialization/package.c and package.h. A socket is the list of the bytes that the
-- peer sends before it closes the connection.
pub mod Wire
use tpsoaprobado.Base.{
  ℕ, ◌^◌, ◌==◌, Option, none, some, List, [], ◌∷◌, ◌++◌, length, take, drop, ltb, if◌then◌else◌,
}
use tpsoaprobado.Utils.Buffer.{
  Buffer, Reader, buffer_create, buffer_add, int32_bytes, bytes_int32, rewind,
}

pub record Package : Type 0 where
  pub opcode : ℕ
  pub buffer : Buffer

unfoldable pub create_package : ℕ → Buffer → Package
create_package opcode buffer = record { opcode = opcode; buffer = buffer }

unfoldable pub serialize_package : Package → List ℕ
serialize_package p = int32_bytes p.opcode ++ (int32_bytes p.buffer.stream_size ++ p.buffer.stream)

-- What `recv` and `recv_package` come to. `disconnected` is their NULL. `indeterminate`: the peer
-- closed inside an item, so the code goes on with bytes it never received; or the size is negative.
pub data Received (A : Type 0) : Type 0 where
  disconnected : Received A
  indeterminate : Received A
  received : A → List ℕ → Received A

infixl 5 ◌>>=◌
abbrev pub ◌>>=◌ :
    {A B : Type 0} → (List ℕ → Received A) → (A → List ℕ → Received B) → List ℕ → Received B
◌>>=◌ m f s = elim (m s) [
  | disconnected ↦ disconnected
  | indeterminate ↦ indeterminate
  | received a s' ↦ f a s'
]

-- `recv(socket, …, n, MSG_WAITALL)`, with the test `<= 0` on what it returns.
unfoldable pub recv : ℕ → List ℕ → Received (List ℕ)
recv n s =
    if length (take n s) == 0
    then disconnected
    else if ltb (length s) n
    then indeterminate
    else received (take n s) (drop n s)

-- The stream of a package whose header has arrived.
unfoldable pub recv_stream : ℕ → ℕ → List ℕ → Received Package
recv_stream opcode size = do
  stream ← recv size
  received (create_package opcode (buffer_add (buffer_create size) stream))

unfoldable pub recv_package : List ℕ → Received Package
unfolding recv_stream
recv_package = do
  opcode ← recv 4
  size ← recv 4
  if ltb (bytes_int32 size) (2 ^ 31)
      then recv_stream (bytes_int32 opcode) (bytes_int32 size)
      else (λ _. indeterminate)

-- Every `read_…_package` reads from the start of the stream.
abbrev pub value : {A : Type 0} → Option (A × Buffer) → Option A
value none = none
value (some (a, b)) = some a

unfoldable pub read_package : {A : Type 0} → Reader A → Package → Option A
read_package m p = value (m (rewind p.buffer))

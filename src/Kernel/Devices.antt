-- ===== src/Kernel/Devices.antt =====
-- The I/O devices of the kernel: kernel/src/repository/io, and the handlers process_new_device.c
-- and process_pending_io.c of kernel/src/handlers/io. Each runs under the mutexes of the
-- connections and of the requests. A dictionary of the commons library is the list of its entries
-- in the order in which it gives them; a new key comes last.
pub mod Pending
use mathlib.Core.Option
use tpsoaprobado.Base.{
  ℕ, Bool, true, false, not, ◌&&◌, ◌||◌, ◌==◌, Option, none, some, List, [], ◌∷◌, ◌++◌,
  if◌then◌else◌,
}
use tpsoaprobado.Kernel.Lists.{Kernel, find_pcb}

-- `t_io_connection` under its socket. No process, `none`, is -1 there.
pub record IoConnection : Type 0 where
  pub socket : ℕ
  pub device_name : List ℕ
  pub current_process_executing : Option ℕ

-- `t_io_request`.
pub record IoRequest : Type 0 where
  pub pid : ℕ
  pub sleep_time : ℕ

-- `t_io_requests_link` under the name of the device: its queue.
pub record IoRequestsLink : Type 0 where
  pub device_name : List ℕ
  pub queue : List IoRequest

pub record Devices : Type 0 where
  pub connections : List IoConnection
  pub links : List IoRequestsLink

-- `strcmp`.
unfoldable pub same_name : List ℕ → List ℕ → Bool
same_name [] [] = true
same_name [] (d ∷ ds) = false
same_name (c ∷ cs) [] = false
same_name (c ∷ cs) (d ∷ ds) = (c == d) && same_name cs ds

abbrev pub is_busy : IoConnection → Bool
is_busy c = elim c.current_process_executing [ none ↦ false | some pid ↦ true ]

unfoldable pub find_connection : (IoConnection → Bool) → List IoConnection → Option IoConnection
find_connection test [] = none
find_connection test (c ∷ cs) =
    let found = find_connection test cs in if test c then some c else found

abbrev pub or_first : Option IoConnection → Option IoConnection → Option IoConnection
or_first none first = first
or_first (some c) first = some c

-- `get_io_connection_status_by_device_name`: the first connection of the device that is free, or
-- else its first one.
unfoldable pub get_io_connection_status : List ℕ → List IoConnection → Option IoConnection
unfolding find_connection same_name
get_io_connection_status name cs =
    or_first (find_connection (λ c. same_name c.device_name name && not (is_busy c)) cs)
      (find_connection (λ c. same_name c.device_name name) cs)

-- `find_io_connection_by_socket`.
unfoldable pub find_io_connection_by_socket : ℕ → List IoConnection → Option IoConnection
unfolding find_connection
find_io_connection_by_socket socket cs = find_connection (λ c. c.socket == socket) cs

-- `delete_io_connection`.
unfoldable pub delete_io_connection : ℕ → List IoConnection → List IoConnection
delete_io_connection socket [] = []
delete_io_connection socket (c ∷ cs) =
    let rest = delete_io_connection socket cs in if c.socket == socket then rest else c ∷ rest

-- `create_io_connection`: an entry with the socket is replaced.
unfoldable pub create_io_connection : ℕ → List ℕ → List IoConnection → List IoConnection
unfolding delete_io_connection
create_io_connection socket name cs =
    delete_io_connection socket cs
    ++ record { socket = socket; device_name = name; current_process_executing = none } ∷ []

-- A write of `current_process_executing` through the pointer to a connection.
unfoldable pub set_current : ℕ → ℕ → List IoConnection → List IoConnection
set_current socket pid [] = []
set_current socket pid (c ∷ cs) =
    let rest = set_current socket pid cs in
    if c.socket == socket then record c { current_process_executing = some pid } ∷ cs else c ∷ rest

-- `find_io_request_by_device_name`.
unfoldable pub find_link : List ℕ → List IoRequestsLink → Option IoRequestsLink
unfolding same_name
find_link name [] = none
find_link name (l ∷ ls) =
    let found = find_link name ls in if same_name l.device_name name then some l else found

-- A change of the queue of a device.
unfoldable pub update_queue :
    List ℕ → (List IoRequest → List IoRequest) → List IoRequestsLink → List IoRequestsLink
unfolding same_name
update_queue name f [] = []
update_queue name f (l ∷ ls) =
    let rest = update_queue name f ls in
    if same_name l.device_name name then record l { queue = f l.queue } ∷ ls else l ∷ rest

-- `create_io_request_element` puts a request at the end of a queue.
abbrev pub push : IoRequest → List IoRequest → List IoRequest
push r queue = queue ++ r ∷ []

-- `pop_next_request_in_queue`, and `get_next_request_in_queue`.
abbrev pub pop : List IoRequest → List IoRequest
pop [] = []
pop (r ∷ rs) = rs

abbrev pub peek : List IoRequest → Option IoRequest
peek [] = none
peek (r ∷ rs) = some r

-- `connection->current_process_executing = -1`.
unfoldable pub set_free : ℕ → List IoConnection → List IoConnection
set_free socket [] = []
set_free socket (c ∷ cs) =
    let rest = set_free socket cs in
    if c.socket == socket then record c { current_process_executing = none } ∷ cs else c ∷ rest

-- What is sent to a device: the socket, and the request.
abbrev pub Operation : Type 0
Operation = ℕ × IoRequest

abbrev pub is_blocked : ℕ → Kernel → Bool
is_blocked pid k = elim (find_pcb pid k.blocked_list) [
  | some p ↦ true
  | none ↦ elim (find_pcb pid k.susp_blocked_list) [ some p ↦ true | none ↦ false ]
]

-- A device is truly busy if its process waits for it.
abbrev pub is_truly_busy : Kernel → Option ℕ → Bool
is_truly_busy k none = false
is_truly_busy k (some pid) = is_blocked pid k

-- `sends` tells whether the operation reaches its socket.
module _ (sends : ℕ → Bool) where
  abbrev pub send_next :
      ℕ → List ℕ → IoConnection → Option IoRequest → Devices → Devices × List Operation
  send_next client_socket name c none d = (d, [])
  send_next client_socket name c (some r) d =
      if sends client_socket
      then (
        record {
          connections = set_current c.socket r.pid d.connections;
          links = update_queue name pop d.links;
        },
        (client_socket, r) ∷ [],
      )
      else (d, [])

  abbrev pub process_link :
      ℕ
      → List ℕ
      → Kernel
      → IoConnection
      → Option IoRequestsLink
      → Devices
      → Devices × List Operation
  process_link client_socket name k c none d = (d, [])
  process_link client_socket name k c (some l) d =
      if is_truly_busy k c.current_process_executing
      then (d, [])
      else send_next client_socket name c (peek l.queue) d

  abbrev pub process_found :
      ℕ → List ℕ → Kernel → Option IoConnection → Devices → Bool × Devices × List Operation
  process_found client_socket name k none d = (false, d, [])
  process_found client_socket name k (some c) d =
      let (d', sent) = process_link client_socket name k c (find_link name d.links) d in
      (true, d', sent)

  -- `process_pending_io`: the operation goes to the socket that the caller gives.
  unfoldable pub process_pending_io :
      ℕ → List ℕ → Kernel → Devices → Bool × Devices × List Operation
  unfolding get_io_connection_status find_link set_current update_queue find_pcb
  process_pending_io client_socket name k d =
      process_found client_socket name k (get_io_connection_status name d.connections) d

  abbrev pub after_link :
      ℕ → List ℕ → Kernel → Option IoRequestsLink → Devices → Devices × List Operation
  after_link socket name k none d =
      (record d { links = d.links ++ record { device_name = name; queue = [] } ∷ [] }, [])
  after_link socket name k (some l) d =
      let (found, d', sent) = process_pending_io socket name k d in (d', sent)

  -- `process_new_device`.
  unfoldable pub process_new_device : ℕ → List ℕ → Kernel → Devices → Devices × List Operation
  unfolding create_io_connection find_link process_pending_io
  process_new_device socket name k d =
      after_link socket name k (find_link name d.links)
        (record d { connections = create_io_connection socket name d.connections })

-- ===== src/Kernel/Devices/Pending.antt =====
-- What `process_pending_io` of kernel/src/handlers/io/process_pending_io.c sends.
use tpsoaprobado.Base.{
  ℕ, ◌≡◌, ◌⊎◌, inl, inr, refl, sym, ap, ◌∙◌, Bool, Option, none, some, some_inj, List, [], ◌∷◌,
  Bool-cases,
}
use tpsoaprobado.Kernel.Lists.{Kernel}
use tpsoaprobado.Kernel.Devices.{
  IoConnection, IoRequest, IoRequestsLink, Devices, Operation, same_name, find_link, update_queue,
  pop, peek, get_io_connection_status, is_truly_busy, send_next, process_link, process_found,
  process_pending_io,
}

-- The queue of a device; a device without one has no requests.
abbrev queue_of : Option IoRequestsLink → List IoRequest
queue_of none = []
queue_of (some l) = l.queue

abbrev pub pending : List ℕ → Devices → List IoRequest
pending name d = queue_of (find_link name d.links)

-- A change of the queue of a device is found there.
find_link-update_queue :
    (name : List ℕ) (f : List IoRequest → List IoRequest) (ls : List IoRequestsLink)
    (l : IoRequestsLink)
    → find_link name ls ≡ some l
    → find_link name (update_queue name f ls) ≡ some (record l { queue = f l.queue })
unfolding find_link update_queue
find_link-update_queue name f [] l e = absurd (cc e)
find_link-update_queue name f (x ∷ ls) l e = elim (Bool-cases (same_name x.device_name name)) [
  | inl here ↦
      rw (here, here)
        (ap (λ (y : IoRequestsLink). some (record y { queue = f y.queue }))
          (some_inj (rw here at e)))
  | inr later ↦ rw (later, later) (find_link-update_queue name f ls l (rw later at e))
]

-- The queue of the device, with what was sent of it in front, is as it was; what is sent goes to
-- the socket that was given.
abbrev pub Served : ℕ → List ℕ → Devices → Devices → List Operation → Type 0
Served socket name d d' sent =
    ((sent ≡ []) × (d' ≡ d))
    ⊎ ((r : IoRequest) × (sent ≡ (socket, r) ∷ []) × (pending name d ≡ r ∷ pending name d'))

module _ (sends : ℕ → Bool) where
  send_next-Served :
      (socket : ℕ) (name : List ℕ) (c : IoConnection) (l : IoRequestsLink) (d : Devices)
      → find_link name d.links ≡ some l
      → let (d', sent) = send_next sends socket name c (peek l.queue) d in
        Served socket name d d' sent
  send_next-Served socket name c l d there = served l.queue refl
    where
      served :
          (q : List IoRequest)
          → l.queue ≡ q
          → let (d', sent) = send_next sends socket name c (peek q) d in
            Served socket name d d' sent
      served [] e = inl (refl, refl)
      served (r ∷ rs) e = elim (Bool-cases (sends socket)) [
        | inl sent ↦ rw sent (
            inr (
              r,
              refl,
              ap queue_of there
                  ∙ e
                  ∙ ap (λ q. r ∷ q)
                      (sym
                        (ap queue_of (find_link-update_queue name pop d.links l there) ∙ ap pop e)),
            ))
        | inr lost ↦ rw lost (inl (refl, refl))
      ]

  process_link-Served :
      (socket : ℕ) (name : List ℕ) (k : Kernel) (c : IoConnection) (o : Option IoRequestsLink)
      (d : Devices)
      → find_link name d.links ≡ o
      → let (d', sent) = process_link sends socket name k c o d in Served socket name d d' sent
  process_link-Served socket name k c none d there = inl (refl, refl)
  process_link-Served socket name k c (some l) d there =
      elim (Bool-cases (is_truly_busy k c.current_process_executing)) [
        | inl busy ↦ rw busy (inl (refl, refl))
        | inr free ↦ rw free (send_next-Served socket name c l d there)
      ]

  -- For a device, at most one operation is sent, to the socket that the caller gives: the oldest
  -- request of its queue, which then is no more in it, while the others keep their order. Where
  -- nothing is sent, nothing has changed.
  pub process_pending_io-Served :
      (socket : ℕ) (name : List ℕ) (k : Kernel) (d : Devices)
      → let (found, d', sent) = process_pending_io sends socket name k d in
        Served socket name d d' sent
  unfolding process_pending_io
  process_pending_io-Served socket name k d =
      by_status (get_io_connection_status name d.connections)
    where
      by_status :
          (o : Option IoConnection)
          → let (found, d', sent) = process_found sends socket name k o d in
            Served socket name d d' sent
      by_status none = inl (refl, refl)
      by_status (some c) = process_link-Served socket name k c (find_link name d.links) d refl

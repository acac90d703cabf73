-- ===== src/Utils/Package/Wire.antt =====
-- A package that is sent is the package that arrives.
use tpsoaprobado.Base.{
  ℕ, ◌^◌, ◌<◌, ◌≡◌, refl, ap, sym, ◌∙◌, Option, none, some, List, [], ◌++◌, append-nil, subst,
  length, replicate, arith, length-append, length-replicate, take_append, drop_append, lt→ltb,
}
use tpsoaprobado.Utils.Buffer.{Reader, buffer_create, int32_bytes, rewind}
use tpsoaprobado.Utils.Buffer.Laws.{
  Holds, Reads, buffer_create-Holds, buffer_add-Holds, drop_all, bytes_int32-int32_bytes,
}
use tpsoaprobado.Utils.Package.{
  Package, create_package, serialize_package, Received, disconnected, indeterminate, received,
  value, recv, recv_stream, recv_package, read_package, ◌>>=◌,
}

recv_lem : (x s : List ℕ) → 0 < length x → recv (length x) (x ++ s) ≡ received x s
unfolding recv
recv_lem x s h = rw (take_append x s, drop_append x s) (ground (arith, length-append x s))

-- A package whose buffer holds `w` alone.
abbrev pub Carries : Package → ℕ → List ℕ → Type 0
Carries p opcode w = (p.opcode ≡ opcode) × Holds p.buffer w []

>>=-received :
    {A B : Type 0} (m : List ℕ → Received A) (f : A → List ℕ → Received B) (s s' : List ℕ) (a : A)
    → m s ≡ received a s'
    → (m >>= f) s ≡ f a s'
>>=-received m f s s' a e = rw (e, ◌>>=◌)

recv_stream_lem :
    (opcode : ℕ) (w s : List ℕ)
    → 0 < length w
    → (q : Package) × (recv_stream opcode (length w) (w ++ s) ≡ received q s) × Carries q opcode w
unfolding recv_stream create_package
recv_stream_lem opcode w s h =
    let holds =
      buffer_add-Holds (buffer_create (length w)) w [] (replicate (length w) 0)
        (buffer_create-Holds (length w)) in
    (
      _,
      >>=-received (recv (length w)) _ (w ++ s) s w (recv_lem w s h),
      (
        refl,
        subst (Holds _ w)
            (drop_all (length w) (replicate (length w) 0)
              (omega (arith, length-replicate {A = ℕ} (length w) 0)))
            holds,
      ),
    )

recv_header :
    (opcode size : ℕ) (s : List ℕ)
    → opcode < 2 ^ 32
    → size < 2 ^ 31
    → recv_package (int32_bytes opcode ++ (int32_bytes size ++ s)) ≡ recv_stream opcode size s
unfolding recv_package
recv_header opcode size s ho hs =
    >>=-received (recv 4) _ _ (int32_bytes size ++ s) (int32_bytes opcode)
      (recv_lem (int32_bytes opcode) (int32_bytes size ++ s) (omega arith))
    ∙ >>=-received (recv 4) _ _ s (int32_bytes size) (recv_lem (int32_bytes size) s (omega arith))
    ∙ rw (
      bytes_int32-int32_bytes size (omega (arith, hs)),
      lt→ltb size (2 ^ 31) hs,
      bytes_int32-int32_bytes opcode ho,
    )

-- A package whose buffer holds some bytes, at least one and fewer than 2 ^ 31, and whose opcode
-- is an int32_t, arrives as a package with the same opcode and bytes, its cursor behind them;
-- what follows on the socket is left there.
pub recv_package-serialize_package :
    (p : Package) (opcode : ℕ) (w s : List ℕ)
    → Carries p opcode w
    → opcode < 2 ^ 32
    → 0 < length w
    → length w < 2 ^ 31
    → (q : Package) × (recv_package (serialize_package p ++ s) ≡ received q s) × Carries q opcode w
unfolding serialize_package
recv_package-serialize_package p opcode w s (e, c) ho h0 hw =
    let stream : p.buffer.stream ≡ w = c.content ∙ append-nil w in
    let size : p.buffer.stream_size ≡ length w = c.sized ∙ ap length stream in
    let (q, arrives, carries) = recv_stream_lem opcode w s h0 in
    (q, rw (e, size, stream) (recv_header opcode (length w) (w ++ s) ho hw ∙ arrives), carries)

-- A package with an empty stream, whose opcode is an int32_t, never arrives: the receiver takes
-- it for a disconnection.
pub recv_package-empty :
    (p : Package) (opcode : ℕ) (s : List ℕ)
    → Carries p opcode []
    → opcode < 2 ^ 32
    → recv_package (serialize_package p ++ s) ≡ disconnected
unfolding serialize_package recv_stream recv
recv_package-empty p opcode s (e, c) ho =
    let size : p.buffer.stream_size ≡ 0 = c.sized ∙ ap length c.content in
    rw (e, size, c.content) (recv_header opcode 0 s ho (omega arith))

-- What a reader finds in a package that came over the wire.
abbrev read_received : {A : Type 0} → Reader A → Received Package → Option A
read_received m disconnected = none
read_received m indeterminate = none
read_received m (received q s) = read_package m q

unfoldable pub transfer : {A : Type 0} → Package → Reader A → Option A
transfer p m = read_received m (recv_package (serialize_package p))

-- A reader that reads the bytes of a package reads them after the transfer too.
pub transfer-Reads :
    {A : Type 0} (p : Package) (opcode : ℕ) (w : List ℕ) (m : Reader A) (a : A)
    → Carries p opcode w
    → opcode < 2 ^ 32
    → 0 < length w
    → length w < 2 ^ 31
    → Reads m w a
    → transfer p m ≡ some a
unfolding transfer read_package rewind
transfer-Reads p opcode w m a c ho h0 hw reads =
    let (q, arrives, (_, holds)) = recv_package-serialize_package p opcode w [] c ho h0 hw in
    let start : Holds (rewind q.buffer) [] (w ++ []) = record {
      content = holds.content;
      cursor = refl;
      sized = holds.sized;
    } in
    let (b, reads_it, _) = reads (rewind q.buffer) [] [] start in
    ap (λ x. read_received m (recv_package x)) (sym (append-nil (serialize_package p)))
    ∙ ap (read_received m) arrives
    ∙ ap value reads_it

-- ===== src/Utils/Buffer/Laws.antt =====
-- What is written to a buffer is what a reader finds there.
use tpsoaprobado.Base.{
  ℕ, zero, suc, ◌+◌, ◌-◌, ◌^◌, ◌<◌, ◌≤◌, ◌≡◌, refl, ap, sym, ◌∙◌, some, List, [], ◌∷◌, ◌++◌,
  append_assoc, append-nil, length, drop, replicate, ltb, inl, inr, Bool-cases, tests, arith, subst,
  length-append, length-replicate, take_append, drop_append, lt→ltb, le→ltb,
}
use tpsoaprobado.Utils.Buffer.{
  Buffer, buffer_create, copy_at, realloc, buffer_add, int32_bytes, bytes_int32, buffer_add_int32,
  buffer_add_string, Reader, buffer_read, buffer_read_int32, buffer_read_string, ◌>>=◌, return,
}

-- `written` is what the buffer holds before its cursor, `rest` what stands behind it.
pub record Holds (b : Buffer) (written rest : List ℕ) : Type 0 where
  pub content : b.stream ≡ written ++ rest
  pub cursor : b.offset ≡ length written
  pub sized : b.stream_size ≡ length b.stream

pub buffer_create-Holds : (size : ℕ) → Holds (buffer_create size) [] (replicate size 0)
unfolding buffer_create
buffer_create-Holds size = record {
  content = refl;
  cursor = refl;
  sized = sym (length-replicate size 0);
}

copy_at-append : (w r bytes : List ℕ) → copy_at (w ++ r) (length w) bytes ≡ w ++ copy_at r 0 bytes
unfolding copy_at
copy_at-append [] r bytes = refl
copy_at-append (x ∷ w) r bytes = ap (◌∷◌ x) (copy_at-append w r bytes)

copy_at-nil : (r : List ℕ) → copy_at r 0 [] ≡ r
unfolding copy_at
copy_at-nil [] = refl
copy_at-nil (x ∷ r) = refl

copy_at-start :
    (r bytes : List ℕ)
    → length bytes ≤ length r
    → copy_at r 0 bytes ≡ bytes ++ drop (length bytes) r
unfolding copy_at
copy_at-start r [] h = copy_at-nil r
copy_at-start [] (b ∷ bytes) h = absurd (omega arith)
copy_at-start (x ∷ r) (b ∷ bytes) h = ap (◌∷◌ b) (copy_at-start r bytes (omega arith))

pub drop_all : (n : ℕ) (r : List ℕ) → length r ≤ n → drop n r ≡ []
drop_all zero [] h = refl
drop_all zero (x ∷ r) h = absurd (omega arith)
drop_all (suc n) [] h = refl
drop_all (suc n) (x ∷ r) h = drop_all n r (omega arith)

-- Where there is room, the bytes replace the first of the rest.
copy-Holds :
    (w r bytes : List ℕ)
    → length bytes ≤ length r
    → copy_at (w ++ r) (length w) bytes ≡ (w ++ bytes) ++ drop (length bytes) r
copy-Holds w r bytes fits =
    rw (copy_at-append w r bytes, copy_at-start r bytes fits) (sym (append_assoc w bytes _))

length-copy_at : (xs : List ℕ) (i : ℕ) (bytes : List ℕ) → length (copy_at xs i bytes) ≡ length xs
unfolding copy_at
length-copy_at [] i bytes = refl
length-copy_at (x ∷ xs) (suc i) bytes = ap suc (length-copy_at xs i bytes)
length-copy_at (x ∷ xs) zero [] = refl
length-copy_at (x ∷ xs) zero (b ∷ bytes) = ap suc (length-copy_at xs 0 bytes)

-- After `realloc` the bytes end the stream.
grow-Holds :
    (w r bytes : List ℕ)
    → length r < length bytes
    → copy_at (realloc (w ++ r) (length w + length bytes)) (length w) bytes
      ≡ (w ++ bytes) ++ drop (length bytes) r
unfolding realloc
grow-Holds w r bytes over =
    let more = replicate (length w + length bytes - length (w ++ r)) 0 in
    let room : length (r ++ more) ≡ length bytes = omega (
      arith,
      length-append r more,
      length-append w r,
      length-replicate {A = ℕ} (length w + length bytes - length (w ++ r)) 0,
    ) in
    rw (
      append_assoc w r more,
      copy-Holds w (r ++ more) bytes (omega (arith, room)),
      drop_all (length bytes) (r ++ more) (omega (arith, room)),
      drop_all (length bytes) r (omega arith),
    )

length-realloc : (xs : List ℕ) (n : ℕ) → length xs ≤ n → length (realloc xs n) ≡ n
unfolding realloc
length-realloc xs n h = omega (
  arith,
  length-append xs (replicate (n - length xs) 0),
  length-replicate {A = ℕ} (n - length xs) 0,
)

-- Bytes that are added stand behind what was written, over the first bytes of the rest.
pub buffer_add-Holds :
    (b : Buffer) (bytes w r : List ℕ)
    → Holds b w r
    → Holds (buffer_add b bytes) (w ++ bytes) (drop (length bytes) r)
unfolding buffer_add
buffer_add-Holds b bytes w r h =
    let size : b.stream_size ≡ length w + length r =
      h.sized ∙ ap length h.content ∙ length-append w r in
    let cursor : b.offset + length bytes ≡ length (w ++ bytes) =
      omega (arith, h.cursor, length-append w bytes) in
    elim (Bool-cases (ltb b.stream_size (b.offset + length bytes))) [
      | inl over ↦ rw over (record {
        content =
            rw (h.cursor, h.content) (grow-Holds w r bytes (omega (tests, size, h.cursor, over)));
        cursor = cursor;
        sized = sym (
            length-copy_at (realloc b.stream (b.offset + length bytes)) b.offset bytes
            ∙ length-realloc b.stream (b.offset + length bytes) (omega (tests, h.sized, over)));
      })
      | inr fits ↦ rw fits (record {
        content =
            rw (h.cursor, h.content) (copy-Holds w r bytes (omega (tests, size, h.cursor, fits)));
        cursor = cursor;
        sized = h.sized ∙ sym (length-copy_at b.stream b.offset bytes);
      })
    ]

pub buffer_add_int32-Holds :
    (b : Buffer) (x : ℕ) (w r : List ℕ)
    → Holds b w r
    → Holds (buffer_add_int32 b x) (w ++ int32_bytes x) (drop 4 r)
unfolding buffer_add_int32
buffer_add_int32-Holds b x w r h = buffer_add-Holds b (int32_bytes x) w r h

pub buffer_add_string-Holds :
    (b : Buffer) (s w r : List ℕ)
    → Holds b w r
    → Holds (buffer_add_string b s) (w ++ int32_bytes (length s) ++ s) (drop (length s) (drop 4 r))
unfolding buffer_add_string
buffer_add_string-Holds b s w r h =
    buffer_add-Holds _ s _ _ (buffer_add_int32-Holds b (length s) w r h)

-- The four bytes stand for the number.
pub bytes_int32-int32_bytes : (x : ℕ) → x < 2 ^ 32 → bytes_int32 (int32_bytes x) ≡ x
bytes_int32-int32_bytes x h = omega arith

-- Wherever `bytes` stand behind the cursor, the reader returns `a` and moves past them.
abbrev pub Reads : {A : Type 0} → Reader A → List ℕ → A → Type 0
Reads m bytes a =
    (b : Buffer) (w r : List ℕ)
    → Holds b w (bytes ++ r)
    → (b' : Buffer) × (m b ≡ some (a, b')) × Holds b' (w ++ bytes) r

pub Reads-return : {A : Type 0} (a : A) → Reads (return a) [] a
Reads-return a b w r h = (
  b,
  refl,
  record {
    content = h.content ∙ ap (λ v. v ++ r) (sym (append-nil w));
    cursor = h.cursor ∙ ap length (sym (append-nil w));
    sized = h.sized;
  },
)

-- Readers in sequence read bytes in sequence.
pub Reads->>= :
    {A B : Type 0} (m : Reader A) (f : A → Reader B) (x y : List ℕ) (a : A) (c : B)
    → Reads m x a
    → Reads (f a) y c
    → Reads (m >>= f) (x ++ y) c
Reads->>= m f x y a c p q b w r h =
    let (b₁, e₁, h₁) = p b w (y ++ r) (record {
      content = h.content ∙ ap (◌++◌ w) (append_assoc x y r);
      cursor = h.cursor;
      sized = h.sized;
    }) in
    let (b₂, e₂, h₂) = q b₁ (w ++ x) r h₁ in
    (
      b₂,
      rw (e₁, ◌>>=◌) e₂,
      record {
        content = h₂.content ∙ ap (λ v. v ++ r) (append_assoc w x y);
        cursor = h₂.cursor ∙ ap length (append_assoc w x y);
        sized = h₂.sized;
      },
    )

-- A read in range takes the bytes that stand behind the cursor.
pub buffer_read-Reads : (bytes : List ℕ) → Reads (buffer_read (length bytes)) bytes bytes
unfolding buffer_read
buffer_read-Reads bytes b w r h =
    let size : b.stream_size ≡ length w + (length bytes + length r) =
      h.sized
      ∙ ap length h.content
      ∙ length-append w (bytes ++ r)
      ∙ ap (λ n. length w + n) (length-append bytes r) in
    (
      record b { offset = b.offset + length bytes },
      rw (
        le→ltb b.stream_size (b.offset + length bytes) (omega (arith, size, h.cursor)),
        h.content,
        h.cursor,
        drop_append w (bytes ++ r),
        take_append bytes r,
      ),
      record {
        content = h.content ∙ sym (append_assoc w bytes r);
        cursor = omega (arith, length-append w bytes, h.cursor);
        sized = h.sized;
      },
    )

pub buffer_read_int32-Reads : (x : ℕ) → x < 2 ^ 32 → Reads buffer_read_int32 (int32_bytes x) x
unfolding buffer_read_int32
buffer_read_int32-Reads x small =
    Reads->>= (buffer_read 4) (λ bytes. return (bytes_int32 bytes)) (int32_bytes x) []
      (int32_bytes x) x (buffer_read-Reads (int32_bytes x))
      (subst (λ y. Reads (return (bytes_int32 (int32_bytes x))) [] y)
        (bytes_int32-int32_bytes x small) (Reads-return (bytes_int32 (int32_bytes x))))

pub buffer_read_string-Reads :
    (s : List ℕ) → length s < 2 ^ 31 → Reads buffer_read_string (int32_bytes (length s) ++ s) s
unfolding buffer_read_string
buffer_read_string-Reads s short =
    Reads->>= buffer_read_int32 _ (int32_bytes (length s)) s (length s) s
      (buffer_read_int32-Reads (length s) (omega (arith, short)))
      (rw (lt→ltb (length s) (2 ^ 31) short) (buffer_read-Reads s))

-- A last reader whose value is only wrapped up reads the same bytes.
pub Reads-last :
    {A B : Type 0} (m : Reader A) (f : A → B) (x : List ℕ) (a : A)
    → Reads m x a
    → Reads (m >>= λ v. return (f v)) x (f a)
Reads-last m f x a p =
    subst (λ y. Reads (m >>= λ v. return (f v)) y (f a)) (append-nil x)
      (Reads->>= m (λ v. return (f v)) x [] a (f a) p (Reads-return (f a)))

-- Bytes that cover the rest leave nothing behind them.
pub Holds-spent :
    (b : Buffer) (w r : List ℕ) (n : ℕ) → Holds b w (drop n r) → length r ≤ n → Holds b w []
Holds-spent b w r n h spent = subst (Holds b w) (drop_all n r spent) h

-- At the end of the stream a string is appended.
pub buffer_add_string-end :
    (b : Buffer) (s w : List ℕ)
    → Holds b w []
    → Holds (buffer_add_string b s) (w ++ (int32_bytes (length s) ++ s)) []
buffer_add_string-end b s w h =
    subst (λ v. Holds (buffer_add_string b s) v []) (append_assoc w (int32_bytes (length s)) s)
      (Holds-spent _ _ [] (length s) (buffer_add_string-Holds b s w [] h) (omega arith))

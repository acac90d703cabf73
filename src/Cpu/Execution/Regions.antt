-- ===== src/Cpu/Execution/Regions.antt =====
-- The modified region of a cached page: what is written back is what was written.
use native.Mathlib.Nat.{zero-add, mod-eq_of_lt}
use tpsoaprobado.Base.{
  ℕ, ◌+◌, ◌-◌, ◌%◌, ◌^◌, ◌≤◌, ◌<◌, ◌≡◌, refl, ◌∙◌, ap, sym, Bool, true, false, not, ◌||◌, none,
  List, [], ◌∷◌, length, get_elem?, ltb, leb, if◌then◌else◌, All, arith, Bool-cases, inl, inr,
}
use tpsoaprobado.Memoria.Bytes.Indexing.{get_elem?-ext, get_elem?-overwrite_out, overwrite-slice}
use tpsoaprobado.Memoria.Bytes.{overwrite, slice, length-overwrite}
use tpsoaprobado.Cpu.Cache.{CacheEntry}
use tpsoaprobado.Cpu.Cache.Writeback.{WriteRequest, modified_region}
use tpsoaprobado.Cpu.Execution.{modify, extended_start, extended_end}

-- The bytes outside the modified region, where there is one, are those of the page as it was
-- loaded.
abbrev unmodified : CacheEntry → ℕ → Bool
unmodified e i = not e.modified_bit || (ltb i e.modified_start || leb e.modified_end i)

pub record Tracks (base : List ℕ) (e : CacheEntry) : Type 0 where
  pub same_length : length e.content ≡ length base
  pub ordered :
      (if e.modified_bit then e.modified_start else 0)
      ≤ (if e.modified_bit then e.modified_end else 0)
  pub inside : (if e.modified_bit then e.modified_end else 0) ≤ length base
  pub agree :
      (i : ℕ)
      → (if unmodified e i then get_elem? e.content i else none)
        ≡ (if unmodified e i then get_elem? base i else none)

abbrev outside_new : CacheEntry → ℕ → ℕ → ℕ → Bool
outside_new e offset size i =
    ltb i (extended_start e offset) || leb (extended_end e (offset + size)) i

-- Outside the new region is outside the old one, and outside the write.
still_out :
    (e : CacheEntry) (offset size i : ℕ)
    → outside_new e offset size i ≡ true
    → unmodified e i ≡ true
still_out e offset size i out = elim (Bool-cases e.modified_bit) [
  | inl dirty ↦ ground arith
  | inr clean ↦ rw clean refl
]

written_out :
    (e : CacheEntry) (offset size i : ℕ)
    → outside_new e offset size i ≡ true
    → (ltb i offset || leb (offset + size) i) ≡ true
written_out e offset size i out = ground arith

-- A write inside the page is in the content, and the region grows to cover it.
modify-Tracks :
    (base : List ℕ) (e : CacheEntry) (offset : ℕ) (value : List ℕ)
    → Tracks base e
    → offset + length value ≤ length base
    → Tracks base (modify offset value e)
unfolding modify
modify-Tracks base e offset value t fits = record {
  same_length =
      length-overwrite offset value e.content (omega (arith, fits, t.same_length)) ∙ t.same_length;
  ordered = ground (arith, t.ordered);
  inside = ground (arith, t.inside, fits);
  agree = λ i. elim (Bool-cases (unmodified (modify offset value e) i)) [
    | inr within ↦ rw within refl
    | inl out ↦
        let still : unmodified e i ≡ true = still_out e offset (length value) i out in
        rw out (
          get_elem?-overwrite_out offset i value e.content (omega (arith, fits, t.same_length))
            (written_out e offset (length value) i out)
          ∙ (rw still at (t.agree i)))
  ];
}

-- A write of an instruction to a page: the offset and the bytes.
abbrev pub PageWrite : Type 0
PageWrite = ℕ × List ℕ

-- The writes to the entry, and the writes to the page itself.
unfoldable pub modify_all : List PageWrite → CacheEntry → CacheEntry
unfolding modify
modify_all [] e = e
modify_all (w ∷ ws) e = modify_all ws (modify w.0 w.1 e)

unfoldable pub overwrite_all : List PageWrite → List ℕ → List ℕ
overwrite_all [] bytes = bytes
overwrite_all (w ∷ ws) bytes = overwrite_all ws (overwrite w.0 w.1 bytes)

-- What the memory holds of a page after the requests for it, whose addresses count from its start.
unfoldable pub apply_writes : List WriteRequest → List ℕ → List ℕ
apply_writes [] bytes = bytes
apply_writes (w ∷ ws) bytes = apply_writes ws (overwrite w.0 w.1 bytes)

-- The page after the entry is written back.
unfoldable pub after_writeback : CacheEntry → List ℕ → List ℕ
unfolding modified_region apply_writes
after_writeback e base = if e.modified_bit then apply_writes (modified_region 0 e) base else base

region-applied :
    (e : CacheEntry) (base : List ℕ)
    → e.modified_start ≤ e.modified_end
    → e.modified_end < 2 ^ 32
    → apply_writes (modified_region 0 e) base
      ≡ overwrite e.modified_start
          (slice e.modified_start (e.modified_end - e.modified_start) e.content)
          base
unfolding apply_writes modified_region overwrite
region-applied e base order small = elim (Bool-cases (ltb e.modified_start e.modified_end)) [
  | inl some_bytes ↦
      rw (some_bytes, zero-add e.modified_start, word e.modified_start (omega arith)) refl
  | inr no_bytes ↦ rw (no_bytes, empty e.modified_start e.modified_end (ground arith)) refl
]
  where
    empty : (a b : ℕ) → b ≤ a → b - a ≡ 0
    empty a b h = omega arith

    word : (n : ℕ) → n < 2 ^ 32 → n % 2 ^ 32 ≡ n
    word n h = mod-eq_of_lt h

modify_all-Tracks :
    (base : List ℕ) (ws : List PageWrite) (e : CacheEntry)
    → Tracks base e
    → All (λ (w : PageWrite). w.0 + length w.1 ≤ length base) ws
    → Tracks base (modify_all ws e)
unfolding modify_all
modify_all-Tracks base [] e t fit = t
modify_all-Tracks base (w ∷ ws) e t (fits, fit) =
    modify_all-Tracks base ws (modify w.0 w.1 e) (modify-Tracks base e w.0 w.1 t fits) fit

content-modify_all :
    (ws : List PageWrite) (e : CacheEntry) → (modify_all ws e).content ≡ overwrite_all ws e.content
unfolding modify_all overwrite_all modify
content-modify_all [] e = refl
content-modify_all (w ∷ ws) e = content-modify_all ws (modify w.0 w.1 e)

Tracks-clean :
    (base : List ℕ) (e : CacheEntry) → e.content ≡ base → e.modified_bit ≡ false → Tracks base e
Tracks-clean base e same clean = record {
  same_length = ap (length {A = ℕ}) same;
  ordered = ground (arith, clean);
  inside = ground (arith, clean);
  agree = λ i. ap (λ c. if unmodified e i then get_elem? c i else none) same;
}

Tracks-agree :
    (base : List ℕ) (e : CacheEntry) (i : ℕ)
    → Tracks base e
    → e.modified_bit ≡ true
    → (ltb i e.modified_start || leb e.modified_end i) ≡ true
    → get_elem? e.content i ≡ get_elem? base i
Tracks-agree base e i t dirty out = rw (dirty, out) at (t.agree i)

Tracks-kept :
    (base : List ℕ) (e : CacheEntry) (i : ℕ)
    → Tracks base e
    → e.modified_bit ≡ false
    → get_elem? base i ≡ get_elem? e.content i
Tracks-kept base e i t clean = sym (rw clean at (t.agree i))

after_writeback-Tracks :
    (base : List ℕ) (e : CacheEntry)
    → Tracks base e
    → length base < 2 ^ 31
    → after_writeback e base ≡ e.content
unfolding after_writeback apply_writes
after_writeback-Tracks base e t small = elim (Bool-cases e.modified_bit) [
  | inl dirty ↦ rw dirty (
      region-applied e base (ground (arith, t.ordered, dirty))
        (ground (arith, t.inside, dirty, small))
      ∙ overwrite-slice e.modified_start e.modified_end e.content base
          (ground (arith, t.ordered, dirty)) (ground (arith, t.inside, t.same_length, dirty))
          t.same_length (λ i out. Tracks-agree base e i t dirty out))
  | inr clean ↦ rw clean (get_elem?-ext base e.content (λ i. Tracks-kept base e i t clean))
]

-- A page that is in the cache and clean, and then written by any sequence of writes inside it, is
-- written back as those writes applied in their order to the page that the memory has.
pub after_writeback-modify_all :
    (base : List ℕ) (e : CacheEntry) (ws : List PageWrite)
    → length base < 2 ^ 31
    → e.content ≡ base
    → e.modified_bit ≡ false
    → All (λ (w : PageWrite). w.0 + length w.1 ≤ length base) ws
    → after_writeback (modify_all ws e) base ≡ overwrite_all ws base
after_writeback-modify_all base e ws small same clean fit =
    after_writeback-Tracks base (modify_all ws e)
      (modify_all-Tracks base ws e (Tracks-clean base e same clean) fit) small
    ∙ content-modify_all ws e
    ∙ ap (overwrite_all ws) same

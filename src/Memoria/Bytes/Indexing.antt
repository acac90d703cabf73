-- ===== src/Memoria/Bytes/Indexing.antt =====
-- The bytes of an array one by one, and a copy of the bytes in which two arrays differ.
use native.Mathlib.Numerals.{unary_clauses}
use tpsoaprobado.Base.{
  ℕ, zero, suc, ◌+◌, ◌-◌, ◌≤◌, ◌<◌, ◌≡◌, refl, ◌∙◌, sym, true, ◌||◌, List, [], ◌∷◌, length,
  get_elem?, ltb, leb, arith, subst, Bool-cases, inl, inr,
}
use tpsoaprobado.Memoria.Bytes.{overwrite, slice, length-slice}

-- Lists of bytes with the same bytes are the same.
pub get_elem?-ext : (xs ys : List ℕ) → ((i : ℕ) → get_elem? xs i ≡ get_elem? ys i) → xs ≡ ys
get_elem?-ext [] [] same = refl
get_elem?-ext [] (y ∷ ys) same = absurd (cc (same 0))
get_elem?-ext (x ∷ xs) [] same = absurd (cc (same 0))
get_elem?-ext (x ∷ xs) (y ∷ ys) same = cc (get_elem?-ext xs ys (λ i. same (suc i)), same 0)

shift : (p i : ℕ) → suc p + i ≡ suc (p + i)
shift p i = omega arith

-- A byte inside what is written, and one outside it.
pub get_elem?-overwrite_in :
    (p i : ℕ) (v bytes : List ℕ)
    → i < length v
    → get_elem? (overwrite p v bytes) (p + i) ≡ get_elem? v i
unfolding overwrite
get_elem?-overwrite_in p i [] bytes h = absurd (omega arith)
get_elem?-overwrite_in zero zero (d ∷ v) [] h = refl
get_elem?-overwrite_in zero zero (d ∷ v) (b ∷ bytes) h = refl
get_elem?-overwrite_in zero (suc i) (d ∷ v) [] h =
    simp unary_clauses (get_elem?-overwrite_in zero i v [] (omega arith))
get_elem?-overwrite_in zero (suc i) (d ∷ v) (b ∷ bytes) h =
    simp unary_clauses (get_elem?-overwrite_in zero i v bytes (omega arith))
get_elem?-overwrite_in (suc p) i (d ∷ v) [] h =
    rw (shift p i) (get_elem?-overwrite_in p i (d ∷ v) [] h)
get_elem?-overwrite_in (suc p) i (d ∷ v) (b ∷ bytes) h =
    rw (shift p i) (get_elem?-overwrite_in p i (d ∷ v) bytes h)

pub get_elem?-overwrite_out :
    (p i : ℕ) (v bytes : List ℕ)
    → p + length v ≤ length bytes
    → (ltb i p || leb (p + length v) i) ≡ true
    → get_elem? (overwrite p v bytes) i ≡ get_elem? bytes i
unfolding overwrite
get_elem?-overwrite_out p i [] bytes fits out = refl
get_elem?-overwrite_out zero i (d ∷ v) [] fits out = absurd (omega arith)
get_elem?-overwrite_out zero zero (d ∷ v) (b ∷ bytes) fits out = absurd (ground arith)
get_elem?-overwrite_out zero (suc i) (d ∷ v) (b ∷ bytes) fits out =
    get_elem?-overwrite_out zero i v bytes (omega arith) (ground arith)
get_elem?-overwrite_out (suc p) i (d ∷ v) [] fits out = absurd (omega arith)
get_elem?-overwrite_out (suc p) zero (d ∷ v) (b ∷ bytes) fits out = refl
get_elem?-overwrite_out (suc p) (suc i) (d ∷ v) (b ∷ bytes) fits out =
    get_elem?-overwrite_out p i (d ∷ v) bytes (omega arith) (ground arith)

pub get_elem?-slice :
    (p size i : ℕ) (bytes : List ℕ)
    → i < size
    → get_elem? (slice p size bytes) i ≡ get_elem? bytes (p + i)
get_elem?-slice p zero i bytes h = absurd (omega arith)
get_elem?-slice zero (suc size) i [] h = refl
get_elem?-slice zero (suc size) zero (b ∷ bytes) h = refl
get_elem?-slice zero (suc size) (suc i) (b ∷ bytes) h =
    simp unary_clauses (get_elem?-slice zero size i bytes (omega arith))
get_elem?-slice (suc p) (suc size) i [] h = refl
get_elem?-slice (suc p) (suc size) i (b ∷ bytes) h =
    rw (shift p i) (get_elem?-slice p (suc size) i bytes h)

-- Copying the bytes between `s` and `e` over an array that agrees elsewhere gives the whole.
pub overwrite-slice :
    (s e : ℕ) (content base : List ℕ)
    → s ≤ e
    → e ≤ length content
    → length content ≡ length base
    → ((i : ℕ) → (ltb i s || leb e i) ≡ true → get_elem? content i ≡ get_elem? base i)
    → overwrite s (slice s (e - s) content) base ≡ content
overwrite-slice s e content base order inside same agree =
    get_elem?-ext (overwrite s (slice s (e - s) content) base) content each
  where
    long : length (slice s (e - s) content) ≡ e - s
    long = length-slice s (e - s) content (omega (arith, order, inside))

    back : (i : ℕ) → s ≤ i → s + (i - s) ≡ i
    back i h = omega arith

    each : (i : ℕ) → get_elem? (overwrite s (slice s (e - s) content) base) i ≡ get_elem? content i
    each i = elim (Bool-cases (ltb i s || leb e i)) [
      | inl out ↦
          get_elem?-overwrite_out s i (slice s (e - s) content) base
            (omega (arith, long, inside, same, order)) (ground (arith, long, out, order))
          ∙ sym (agree i out)
      | inr within ↦
          subst
            (λ k. get_elem? (overwrite s (slice s (e - s) content) base) k ≡ get_elem? content k)
            (back i (ground arith))
            (get_elem?-overwrite_in s (i - s) (slice s (e - s) content) base
                (ground (arith, long, within))
              ∙ get_elem?-slice s (e - s) (i - s) content (ground (arith, within)))
    ]

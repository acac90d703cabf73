-- ===== src/Memoria/Swap/Pages.antt =====
-- Pages in a byte array: storing a list of pages at different frames and loading them again.
use native.Mathlib.Nat.{mul-le-mul_right}
use tpsoaprobado.Base.{
  ℕ, suc, false, subst, ◌+◌, ◌*◌, ◌≤◌, ◌<◌, ◌≡◌, refl, ◌∙◌, ap, ap₂, sym, List, [], ◌∷◌, length,
  count, All, ◌⊎◌, inl, inr, ◌==◌, arith, Bool-cases, ltb, ltb→lt,
}
use tpsoaprobado.Memoria.Bytes.{
  overwrite, slice, length-overwrite, length-overwrite_grows, length-overwrite_reaches,
  slice-overwrite,
}
use tpsoaprobado.Memoria.UserSpace.Stored.{slice-overwrite_apart}

-- No number stands in the list twice.
abbrev pub Different : List ℕ → Type 0
Different fs = (j : ℕ) → count j fs ≤ 1

module _ (size : ℕ) where
  -- The page at a frame.
  abbrev pub page_at : List ℕ → ℕ → List ℕ
  page_at bytes f = slice (f * size) size bytes

  -- The pages at some frames.
  unfoldable pub load : List ℕ → List ℕ → List (List ℕ)
  load [] bytes = []
  load (f ∷ fs) bytes = page_at bytes f ∷ load fs bytes

  pub length-load : (fs bytes : List ℕ) → length (load fs bytes) ≡ length fs
  unfolding load
  length-load [] bytes = refl
  length-load (f ∷ fs) bytes = ap suc (length-load fs bytes)

  -- Each page goes to its frame.
  unfoldable pub store : List ℕ → List (List ℕ) → List ℕ → List ℕ
  unfolding overwrite
  store [] ps bytes = bytes
  store (f ∷ fs) [] bytes = bytes
  store (f ∷ fs) (p ∷ ps) bytes = store fs ps (overwrite (f * size) p bytes)

  -- The frame lies inside the array.
  abbrev pub Inside : List ℕ → ℕ → Type 0
  Inside bytes f = f * size + size ≤ length bytes

  abbrev pub IsPage : List ℕ → Type 0
  IsPage p = length p ≡ size

  apart : (f g : ℕ) → f < g → f * size + size ≤ g * size
  apart f g h = omega (arith, mul-le-mul_right size h)

  pub frames_apart :
      (f g : ℕ) → (g == f) ≡ false → (f * size + size ≤ g * size) ⊎ (g * size + size ≤ f * size)
  frames_apart f g ne = elim (Bool-cases (ltb f g)) [
    | inl less ↦ inl (apart f g (ltb→lt f g less))
    | inr more ↦ inr (apart g f (ground arith))
  ]

  -- A write of a page at another frame leaves a page.
  page_at-overwrite :
      (f g : ℕ) (p bytes : List ℕ)
      → (g == f) ≡ false
      → length p ≡ size
      → Inside bytes f
      → page_at (overwrite (g * size) p bytes) f ≡ page_at bytes f
  page_at-overwrite f g p bytes ne full inside =
      slice-overwrite_apart (f * size) size (g * size) p bytes inside
        (omega (arith, full, frames_apart f g ne))

  page_at-overwrite_self :
      (f : ℕ) (p bytes : List ℕ) → length p ≡ size → page_at (overwrite (f * size) p bytes) f ≡ p
  page_at-overwrite_self f p bytes full =
      subst (λ n. slice (f * size) n (overwrite (f * size) p bytes) ≡ p) full
        (slice-overwrite (f * size) p bytes)

  -- So does storing pages at other frames.
  pub page_at-store :
      (f : ℕ) (fs : List ℕ) (ps : List (List ℕ)) (bytes : List ℕ)
      → count f fs ≡ 0
      → All IsPage ps
      → Inside bytes f
      → page_at (store fs ps bytes) f ≡ page_at bytes f
  unfolding store
  page_at-store f [] ps bytes out full inside = refl
  page_at-store f (g ∷ fs) [] bytes out full inside = refl
  page_at-store f (g ∷ fs) (p ∷ ps) bytes out (here, full) inside =
      page_at-store f fs ps (overwrite (g * size) p bytes) (ground (arith, out)) full
        (omega (arith, inside, length-overwrite_grows (g * size) p bytes))
      ∙ page_at-overwrite f g p bytes (ground (arith, out)) here inside

  overwrite-Inside :
      (f : ℕ) (p bytes : List ℕ)
      → 0 < size
      → length p ≡ size
      → Inside (overwrite (f * size) p bytes) f
  overwrite-Inside f [] bytes some_size full = absurd (omega arith)
  overwrite-Inside f (b ∷ p) bytes some_size full =
      omega (arith, full, length-overwrite_reaches (f * size) b p bytes)

  -- Pages that are stored at different frames are loaded again.
  pub load-store :
      (fs : List ℕ) (ps : List (List ℕ)) (bytes : List ℕ)
      → 0 < size
      → Different fs
      → length fs ≡ length ps
      → All IsPage ps
      → load fs (store fs ps bytes) ≡ ps
  unfolding store load
  load-store [] [] bytes some_size different same full = refl
  load-store [] (p ∷ ps) bytes some_size different same full = absurd (omega arith)
  load-store (f ∷ fs) [] bytes some_size different same full = absurd (omega arith)
  load-store (f ∷ fs) (p ∷ ps) bytes some_size different same (here, full) =
      ap₂ (◌∷◌)
        (page_at-store f fs ps (overwrite (f * size) p bytes) (ground (arith, different f)) full
            (overwrite-Inside f p bytes some_size here)
          ∙ page_at-overwrite_self f p bytes here)
        (load-store fs ps (overwrite (f * size) p bytes) some_size (λ j. omega (arith, different j))
          (omega (arith, same)) full)

  -- Storing inside the array keeps its size.
  pub length-store :
      (fs : List ℕ) (ps : List (List ℕ)) (bytes : List ℕ)
      → All (Inside bytes) fs
      → All IsPage ps
      → length (store fs ps bytes) ≡ length bytes
  unfolding store
  length-store [] ps bytes inside full = refl
  length-store (f ∷ fs) [] bytes inside full = refl
  length-store (f ∷ fs) (p ∷ ps) bytes (at, inside) (here, full) =
      let kept = length-overwrite (f * size) p bytes (omega (arith, at, here)) in
      length-store fs ps (overwrite (f * size) p bytes)
        (subst (λ n. All (λ g. g * size + size ≤ n) fs) (sym kept) inside) full
      ∙ kept

  -- Frames that pages are stored at are inside from then on.
  pub store-grows :
      (fs : List ℕ) (ps : List (List ℕ)) (bytes : List ℕ)
      → length bytes ≤ length (store fs ps bytes)
  unfolding store
  store-grows [] ps bytes = omega arith
  store-grows (f ∷ fs) [] bytes = omega arith
  store-grows (f ∷ fs) (p ∷ ps) bytes = omega (
    arith,
    store-grows fs ps (overwrite (f * size) p bytes),
    length-overwrite_grows (f * size) p bytes,
  )

  pub store-Inside :
      (fs : List ℕ) (ps : List (List ℕ)) (bytes : List ℕ)
      → 0 < size
      → length fs ≡ length ps
      → All IsPage ps
      → All (Inside (store fs ps bytes)) fs
  unfolding store
  store-Inside [] ps bytes some_size same full = tt
  store-Inside (f ∷ fs) [] bytes some_size same full = absurd (omega arith)
  store-Inside (f ∷ fs) (p ∷ ps) bytes some_size same (here, full) = (
    omega (
      arith,
      overwrite-Inside f p bytes some_size here,
      store-grows fs ps (overwrite (f * size) p bytes),
    ),
    store-Inside fs ps (overwrite (f * size) p bytes) some_size (omega (arith, same)) full,
  )

-- ===== src/Cpu/Mmu/Translation.antt =====
-- The translation of cpu/src/mmu.c with the lookaside buffer is the translation without it.
use tpsoaprobado.Base.{
  int32_div, int32_mod, ℕ, ◌+◌, ◌*◌, ◌%◌, ◌^◌, ◌≡◌, refl, ap, Option, none, some,
}
use tpsoaprobado.Cpu.Tlb.{TlbEntry, TlbConfig, Tlb, tlb_find_entry}
use tpsoaprobado.Cpu.Tlb.Bounds.{IsBounded, tlb_find_entry-IsBounded, tlb_add_entry-IsBounded}
use tpsoaprobado.Cpu.Tlb.Lookup.{
  IsSound, tlb_find_entry-IsSound, tlb_find_entry-walk, tlb_add_entry-IsSound,
}
use tpsoaprobado.Cpu.Mmu.{frame_or_walk, frame_of, mmu_translate_address}

-- The invariant of the buffer: its size, its pointer, and the frames of its entries.
pub record IsValid (walk : ℕ → ℕ → ℕ) (config : TlbConfig) (s : Tlb) : Type 0 where
  pub bounded : IsBounded config s
  pub sound : IsSound walk s

frame_or_walk-walk :
    (walk : ℕ → ℕ → ℕ) (config : TlbConfig) (page pid : ℕ) (found : Option TlbEntry) (s : Tlb)
    → ((e : TlbEntry) → found ≡ some e → e.frame ≡ walk page pid)
    → IsValid walk config s
    → let (frame, s') = frame_or_walk config walk page pid (found, s) in
      (frame ≡ walk page pid) × IsValid walk config s'
frame_or_walk-walk walk config page pid none s right h = (
  refl,
  record {
    bounded = tlb_add_entry-IsBounded config page (walk page pid) pid s h.bounded;
    sound = tlb_add_entry-IsSound walk config page pid s h.sound;
  },
)
frame_or_walk-walk walk config page pid (some e) s right h = (right e refl, h)

-- A frame from the buffer is the frame that the walk gives, and the buffer stays valid.
pub frame_of-walk :
    (walk : ℕ → ℕ → ℕ) (config : TlbConfig) (page pid : ℕ) (s : Tlb)
    → IsValid walk config s
    → let (frame, s') = frame_of config walk page pid s in
      (frame ≡ walk page pid) × IsValid walk config s'
unfolding frame_of
frame_of-walk walk config page pid s h =
    let (found, s₁) = tlb_find_entry config page pid s in
    frame_or_walk-walk walk config page pid found s₁
      (tlb_find_entry-walk walk config page pid s h.sound)
      (record {
        bounded = tlb_find_entry-IsBounded config page pid s h.bounded;
        sound = tlb_find_entry-IsSound walk config page pid s h.sound;
      })

-- With a valid buffer, the translation of an address is the frame that the page walk gives for
-- its page, times the page size, plus the offset, in int32_t, whether the buffer has the page or
-- not; and the buffer is valid afterwards.
pub mmu_translate_address-walk :
    (walk : ℕ → ℕ → ℕ) (config : TlbConfig) (page_size logical_address pid : ℕ) (s : Tlb)
    → IsValid walk config s
    → let (address, s') = mmu_translate_address config page_size walk logical_address pid s in
      (address
        ≡ (walk (int32_div logical_address page_size) pid * page_size
            + int32_mod logical_address page_size)
          % 2 ^ 32)
      × IsValid walk config s'
unfolding mmu_translate_address
mmu_translate_address-walk walk config page_size logical_address pid s h =
    let (same, valid) = frame_of-walk walk config (int32_div logical_address page_size) pid s h in
    (ap (λ f. (f * page_size + int32_mod logical_address page_size) % 2 ^ 32) same, valid)

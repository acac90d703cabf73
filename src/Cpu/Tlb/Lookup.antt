-- ===== src/Cpu/Tlb/Lookup.antt =====
-- What the buffer of cpu/src/mmu.c answers.
use tpsoaprobado.Base.{
  ℕ, zero, suc, ◌-◌, ◌^◌, ◌≡◌, inl, inr, refl, sym, ap, ◌∙◌, subst, Bool, true, false, ◌==◌, ◌&&◌,
  Option, none, some, some_inj, List, [], ◌∷◌, All, All-append, length, set, ltb, ==→eq,
  if◌then◌else◌, Bool-cases,
}
use tpsoaprobado.Cpu.Tlb.{
  TlbEntry, TlbConfig, Tlb, TlbReplacementAlgorithm, tlb_algo_fifo, tlb_algo_lru, find_entry, touch,
  found_entry, is_page, tlb_find_entry, lru_victim, replace_at, replace_victim, new_entry,
  tlb_add_entry,
}

-- Every entry has the frame that `walk` gives for its page and process.
abbrev pub Right : (ℕ → ℕ → ℕ) → TlbEntry → Type 0
Right walk e = e.frame ≡ walk e.page e.pid

abbrev pub IsSound : (ℕ → ℕ → ℕ) → Tlb → Type 0
IsSound walk s = All (Right walk) s.tlb

touch-Right :
    (walk : ℕ → ℕ → ℕ) (test : TlbEntry → Bool) (now : ℕ) (es : List TlbEntry)
    → All (Right walk) es
    → All (Right walk) (touch test now es)
unfolding touch
touch-Right walk test now [] h = tt
touch-Right walk test now (e ∷ es) (h, hs) = elim (Bool-cases (test e)) [
  | inl yes_it ↦ rw yes_it (h, hs)
  | inr no_it ↦ rw no_it (h, touch-Right walk test now es hs)
]

set-Right :
    (walk : ℕ → ℕ → ℕ) (es : List TlbEntry) (i : ℕ) (e : TlbEntry)
    → Right walk e
    → All (Right walk) es
    → All (Right walk) (set es i e)
set-Right walk [] i e r h = tt
set-Right walk (x ∷ es) zero e r (h, hs) = (r, hs)
set-Right walk (x ∷ es) (suc i) e r (h, hs) = (h, set-Right walk es i e r hs)

and-true : (a b : Bool) → (a && b) ≡ true → (a ≡ true) × (b ≡ true)
and-true true b h = (refl, h)
and-true false b h = absurd (cc)

is_page-true :
    (page pid : ℕ) (e : TlbEntry) → is_page page pid e ≡ true → (e.page ≡ page) × (e.pid ≡ pid)
is_page-true page pid e h =
    let (same_page, same_pid) = and-true (e.page == page) (e.pid == pid) h in
    (==→eq e.page page same_page, ==→eq e.pid pid same_pid)

-- What a search finds has the key, and the property that all entries have.
find_entry-All :
    (P : TlbEntry → Type 0) (test : TlbEntry → Bool) (es : List TlbEntry)
    → All P es
    → (e : TlbEntry) → find_entry test es ≡ some e
    → P e × (test e ≡ true)
unfolding find_entry
find_entry-All P test [] h e found = absurd (cc)
find_entry-All P test (x ∷ es) (h, hs) e found = elim (Bool-cases (test x)) [
  | inl it ↦
      let same = some_inj (sym (ap (λ b. if b then some x else find_entry test es) it) ∙ found) in
      (subst P same h, sym (ap test same) ∙ it)
  | inr other ↦
      find_entry-All P test es hs e
        (sym (ap (λ b. if b then some x else find_entry test es) other) ∙ found)
]

found_entry-IsSound :
    (walk : ℕ → ℕ → ℕ) (found : Option TlbEntry) (algo : TlbReplacementAlgorithm) (s : Tlb)
    (test : TlbEntry → Bool)
    → IsSound walk s
    → IsSound walk (found_entry found algo s test).1
found_entry-IsSound walk none algo s test h = h
found_entry-IsSound walk (some e) tlb_algo_fifo s test h = h
found_entry-IsSound walk (some e) tlb_algo_lru s test h =
    touch-Right walk test s.timestamp_counter s.tlb h

find_entry-walk :
    (walk : ℕ → ℕ → ℕ) (page pid : ℕ) (es : List TlbEntry) (e : TlbEntry)
    → All (Right walk) es
    → find_entry (is_page page pid) es ≡ some e
    → e.frame ≡ walk page pid
find_entry-walk walk page pid es e h found =
    let (right, it) = find_entry-All (Right walk) (is_page page pid) es h e found in
    let (same_page, same_pid) = is_page-true page pid e it in
    right ∙ ap (λ p. walk p e.pid) same_page ∙ ap (walk page) same_pid

same_frame : {x y : TlbEntry} → x ≡ y → y.frame ≡ x.frame
same_frame p = ap TlbEntry.frame (sym p)

found_entry-frame :
    (walk : ℕ → ℕ → ℕ) (page pid : ℕ) (found : Option TlbEntry) (algo : TlbReplacementAlgorithm)
    (s : Tlb)
    → IsSound walk s
    → find_entry (is_page page pid) s.tlb ≡ found
    → (e : TlbEntry) → (found_entry found algo s (is_page page pid)).0 ≡ some e
    → e.frame ≡ walk page pid
found_entry-frame walk page pid none algo s h same e answer = absurd (cc)
found_entry-frame walk page pid (some x) tlb_algo_fifo s h same e answer =
    same_frame (some_inj answer) ∙ find_entry-walk walk page pid s.tlb x h same
found_entry-frame walk page pid (some x) tlb_algo_lru s h same e answer =
    same_frame (some_inj answer) ∙ find_entry-walk walk page pid s.tlb x h same

-- A search keeps the entries right.
pub tlb_find_entry-IsSound :
    (walk : ℕ → ℕ → ℕ) (config : TlbConfig) (page pid : ℕ) (s : Tlb)
    → IsSound walk s
    → IsSound walk (tlb_find_entry config page pid s).1
unfolding tlb_find_entry
tlb_find_entry-IsSound walk config page pid s h = elim (Bool-cases (config.entry_count == 0)) [
  | inl e ↦ rw e h
  | inr e ↦ rw e (
      found_entry-IsSound walk (find_entry (is_page page pid) s.tlb) config.replacement_algo s
        (is_page page pid) h)
]

-- And what it finds is what the walk gives.
pub tlb_find_entry-walk :
    (walk : ℕ → ℕ → ℕ) (config : TlbConfig) (page pid : ℕ) (s : Tlb)
    → IsSound walk s
    → (e : TlbEntry) → (tlb_find_entry config page pid s).0 ≡ some e
    → e.frame ≡ walk page pid
unfolding tlb_find_entry
tlb_find_entry-walk walk config page pid s h e = elim (Bool-cases (config.entry_count == 0)) [
  | inl none_at_all ↦ rw none_at_all (λ found. absurd (cc))
  | inr entries ↦ rw entries (
      found_entry-frame walk page pid (find_entry (is_page page pid) s.tlb) config.replacement_algo
        s h refl e)
]

replace_at-Right :
    (walk : ℕ → ℕ → ℕ) (i : Option ℕ) (e : TlbEntry) (es : List TlbEntry)
    → Right walk e
    → All (Right walk) es
    → All (Right walk) (replace_at i e es)
replace_at-Right walk none e es r h = h
replace_at-Right walk (some i) e es r h = set-Right walk es i e r h

replace_victim-IsSound :
    (walk : ℕ → ℕ → ℕ) (algo : TlbReplacementAlgorithm) (count : ℕ) (e : TlbEntry) (s : Tlb)
    → Right walk e
    → IsSound walk s
    → IsSound walk (replace_victim algo count e s)
replace_victim-IsSound walk tlb_algo_fifo count e s r h = set-Right walk s.tlb s.fifo_pointer e r h
replace_victim-IsSound walk tlb_algo_lru count e s r h =
    replace_at-Right walk (lru_victim s.tlb 0 (2 ^ 64 - 1) none) e s.tlb r h

-- The addition of what the walk gives keeps the entries right.
pub tlb_add_entry-IsSound :
    (walk : ℕ → ℕ → ℕ) (config : TlbConfig) (page pid : ℕ) (s : Tlb)
    → IsSound walk s
    → IsSound walk (tlb_add_entry config page (walk page pid) pid s)
unfolding tlb_add_entry
tlb_add_entry-IsSound walk config page pid s h = elim (Bool-cases (config.entry_count == 0)) [
  | inl e ↦ rw e h
  | inr e ↦ rw e (elim (Bool-cases (ltb (length s.tlb) config.entry_count)) [
    | inl room ↦ rw room (
        All-append (Right walk) s.tlb (new_entry page (walk page pid) pid s.timestamp_counter ∷ [])
          h (refl, tt))
    | inr full ↦ rw full (
        replace_victim-IsSound walk config.replacement_algo config.entry_count
          (new_entry page (walk page pid) pid s.timestamp_counter) s refl h)
  ])
]

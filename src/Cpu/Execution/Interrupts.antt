-- ===== src/Cpu/Execution/Interrupts.antt =====
-- The answers of `interrupt_handler` of cpu/src/instructionCycle.c, and the round of the cycle on
-- an instruction that is empty.
use mathlib.Core.Option
use tpsoaprobado.Base.{
  ℕ, suc, ◌≡◌, inl, inr, refl, ap, ap₂, ◌∙◌, ◌==◌, some, List, [], ◌∷◌, ◌++◌, All, length, map, ltb,
  if◌then◌else◌, Bool-cases,
}
use tpsoaprobado.Utils.Package.{Package, read_package}
use tpsoaprobado.Utils.Enums.Opcode
use tpsoaprobado.Utils.Dtp.Control.{create_cpu_context_package, read_interrupt_package}
use tpsoaprobado.Cpu.Cache.Writeback.{WriteRequest, mmu_process_cleanup}
use tpsoaprobado.Cpu.Execution.{
  CpuConfig, Cpu, Peers, Sent, write_request, read_request, syscall, context, interrupt_of,
  check_interrupt, handle_all, interrupt_handler,
}

-- The contexts among what is sent, in their order.
unfoldable pub contexts : List Sent → List Package
contexts [] = []
contexts (context p ∷ sent) = p ∷ contexts sent
contexts (write_request w ∷ sent) = contexts sent
contexts (read_request a n ∷ sent) = contexts sent
contexts (syscall s ∷ sent) = contexts sent

-- The answer to the interrupt of a process: 0 if the CPU executes it, else 1.
abbrev pub answer : Cpu → ℕ → Package
answer c pid = create_cpu_context_package pid c.pc (if pid == c.pid then 0 else 1)

-- The answers to interrupts, the last one first.
unfoldable pub answers : Cpu → List (Package × ℕ) → List Package
answers c [] = []
answers c (i ∷ is) = answers c is ++ answer c i.1 ∷ []

-- The package is an interrupt of the process.
abbrev pub Interrupts : Package × ℕ → Type 0
Interrupts i =
    (i.0.opcode ≡ Opcode.interrupt) × (read_package read_interrupt_package i.0 ≡ some i.1)

contexts-append : (xs ys : List Sent) → contexts (xs ++ ys) ≡ contexts xs ++ contexts ys
unfolding contexts
contexts-append [] ys = refl
contexts-append (context p ∷ xs) ys = ap (◌∷◌ p) (contexts-append xs ys)
contexts-append (write_request w ∷ xs) ys = contexts-append xs ys
contexts-append (read_request a n ∷ xs) ys = contexts-append xs ys
contexts-append (syscall s ∷ xs) ys = contexts-append xs ys

contexts-writes : (ws : List WriteRequest) → contexts (map write_request ws) ≡ []
unfolding contexts
contexts-writes [] = refl
contexts-writes (w ∷ ws) = contexts-writes ws

module _ (config : CpuConfig) (peers : Peers) where
  -- One interrupt is answered by one context, and the process of the CPU stays.
  record Answered (pid : ℕ) (c c' : Cpu) (sent : List Sent) : Type 0 where
    pub same_pid : c'.pid ≡ c.pid
    pub same_pc : c'.pc ≡ c.pc
    pub answered : contexts sent ≡ answer c pid ∷ []

  interrupt_of-Answered :
      (pid : ℕ) (c : Cpu)
      → let (c', sent) = interrupt_of config peers pid c in Answered pid c c' sent
  unfolding contexts
  interrupt_of-Answered pid c = elim (Bool-cases (pid == c.pid)) [
    | inl same ↦ rw same (record {
      same_pid = refl;
      same_pc = refl;
      answered = rw same (
          ap (◌∷◌ (create_cpu_context_package pid c.pc 0)) (
            contexts-writes
              (mmu_process_cleanup config.tlb config.cache config.page_size peers.walk c.cache
                c.tlb).0));
    })
    | inr other ↦ rw other (record { same_pid = refl; same_pc = refl; answered = rw other refl })
  ]

  check_interrupt-Answered :
      (i : Package × ℕ) (c : Cpu)
      → Interrupts i
      → (c' : Cpu) × (sent : List Sent) × (check_interrupt config peers i.0 c ≡ some (c', sent))
        × Answered i.1 c c' sent
  unfolding check_interrupt
  check_interrupt-Answered i c (op, reads) = (
    (interrupt_of config peers i.1 c).0,
    (interrupt_of config peers i.1 c).1,
    ap
          (λ n.
            if n == Opcode.interrupt
            then Option.map (λ pid. interrupt_of config peers pid c)
                (read_package read_interrupt_package i.0)
            else some (c, []))
          op
        ∙ ap (Option.map (λ pid. interrupt_of config peers pid c)) reads,
    interrupt_of-Answered i.1 c,
  )

  -- What is left of the process by a list of interrupts, and how they are answered.
  pub record AllAnswered (is : List (Package × ℕ)) (c c' : Cpu) (sent : List Sent) : Type 0 where
    pub same_pid : c'.pid ≡ c.pid
    pub same_pc : c'.pc ≡ c.pc
    pub answered : contexts sent ≡ answers c is

  same-answer : (pid : ℕ) (c d : Cpu) → d.pid ≡ c.pid → d.pc ≡ c.pc → answer d pid ≡ answer c pid
  same-answer pid c d same_pid same_pc =
      ap₂ (λ (n m : ℕ). create_cpu_context_package pid m (if pid == n then 0 else 1)) same_pid
        same_pc

  handle_all-AllAnswered :
      (is : List (Package × ℕ)) (c : Cpu)
      → All Interrupts is
      → (c' : Cpu) × (sent : List Sent) × (handle_all config peers
            (map (λ (i : Package × ℕ). i.0) is)
            c
          ≡ some (c', sent))
        × AllAnswered is c c' sent
  unfolding handle_all contexts answers
  handle_all-AllAnswered [] c all =
      (c, [], refl, record { same_pid = refl; same_pc = refl; answered = refl })
  handle_all-AllAnswered (i ∷ is) c (one, all) =
      let (d, before, e, h) = handle_all-AllAnswered is c all in
      let (c', now, e', a) = check_interrupt-Answered i d one in
      (
        c',
        before ++ now,
        rw (e, e') refl,
        record {
          same_pid = a.same_pid ∙ h.same_pid;
          same_pc = a.same_pc ∙ h.same_pc;
          answered =
              contexts-append before now
              ∙ ap₂ ◌++◌ h.answered
                  (a.answered ∙ ap (λ x. x ∷ []) (same-answer i.1 c d h.same_pid h.same_pc));
        },
      )

  -- Every interrupt in the list is answered by one context, the last one first, which says whether
  -- the CPU was executing its process; the process and the program counter stay, and the handler
  -- reports whether there was any.
  pub interrupt_handler-AllAnswered :
      (is : List (Package × ℕ)) (c : Cpu)
      → All Interrupts is
      → (c' : Cpu) × (sent : List Sent) × (interrupt_handler config peers
            (map (λ (i : Package × ℕ). i.0) is)
            c
          ≡ some (ltb 0 (length is), c', sent))
        × AllAnswered is c c' sent
  unfolding interrupt_handler
  interrupt_handler-AllAnswered is c all =
      let (c', sent, e, h) = handle_all-AllAnswered is c all in
      (c', sent, rw e (rw (length-map is) refl), h)
    where
      length-map :
          (xs : List (Package × ℕ)) → length (map (λ (i : Package × ℕ). i.0) xs) ≡ length xs
      length-map [] = refl
      length-map (x ∷ xs) = ap suc (length-map xs)

-- ===== src/Memoria/Processes/Finding.antt =====
-- The search for a process after a change through its pointer.
use tpsoaprobado.Base.{
  ℕ, ◌≡◌, ◌≢◌, refl, ◌∙◌, false, true, some, List, [], ◌∷◌, ◌==◌, arith, Bool-cases, inl, inr,
  ==→eq, sym, ap, some_inj, if◌then◌else◌,
}
use tpsoaprobado.Memoria.Processes.{ProcessInfo, find_process, update_process}

ne→== : {a b : ℕ} → a ≢ b → (a == b) ≡ false
ne→== h = ground arith

pub find-here :
    (p : ProcessInfo) (ps : List ProcessInfo) (pid : ℕ)
    → (p.pid == pid) ≡ true
    → find_process pid (p ∷ ps) ≡ some p
unfolding find_process
find-here p ps pid e = rw e

pub find-later :
    (p : ProcessInfo) (ps : List ProcessInfo) (pid : ℕ)
    → (p.pid == pid) ≡ false
    → find_process pid (p ∷ ps) ≡ find_process pid ps
unfolding find_process
find-later p ps pid e = rw e

-- The pointer goes on pointing to the process that it was found at.
pub find_process-update_process :
    (pid : ℕ) (f : ProcessInfo → ProcessInfo) (ps : List ProcessInfo) (p : ProcessInfo)
    → ((q : ProcessInfo) → (f q).pid ≡ q.pid)
    → find_process pid ps ≡ some p
    → find_process pid (update_process pid f ps) ≡ some (f p)
unfolding find_process update_process
find_process-update_process pid f [] p same found = ground arith
find_process-update_process pid f (q ∷ ps) p same found = elim (Bool-cases (q.pid == pid)) [
  | inl here ↦ rw here (
      find-here (f q) ps pid (ap (λ n. n == pid) (same q) ∙ here)
      ∙ ap (λ (x : ProcessInfo). some (f x)) (some_inj (sym (find-here q ps pid here) ∙ found)))
  | inr later ↦ rw (later, later) (find_process-update_process pid f ps p same (rw later at found))
]

-- No other process is changed.
pub find_process-update_process_ne :
    (pid other : ℕ) (f : ProcessInfo → ProcessInfo) (ps : List ProcessInfo)
    → ((q : ProcessInfo) → (f q).pid ≡ q.pid)
    → other ≢ pid
    → find_process other (update_process pid f ps) ≡ find_process other ps
unfolding find_process update_process
find_process-update_process_ne pid other f [] same ne = refl
find_process-update_process_ne pid other f (q ∷ ps) same ne = elim (Bool-cases (q.pid == pid)) [
  | inl here ↦
      let other_pid : (q.pid == other) ≡ false = ne→== (λ e. ne (sym e ∙ ==→eq q.pid pid here)) in
      rw here (
        find-later (f q) ps other (ap (λ n. n == other) (same q) ∙ other_pid)
        ∙ sym (find-later q ps other other_pid))
  | inr later ↦ rw (later) (
      ap (λ r. if q.pid == other then some q else r)
        (find_process-update_process_ne pid other f ps same ne))
]

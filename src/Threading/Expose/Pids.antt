-- ===== src/Threading/Expose/Pids.antt =====
-- Process ids: `add_process` of kernel/src/threading/mod.rs and searches by pid.
use safa_os.Prelude.{
  ℕ, ◌+◌, ◌<◌, ◌≡◌, ◌≢◌, refl, sym, ◌==◌, some, List, [], ◌∷◌, ◌++◌, arith, inl, inr, Bool-cases,
}
use safa_os.Threading.LinkedList.{push}
use safa_os.Threading.Processes.{Process, waiting}
use safa_os.Threading.Scheduler.{Scheduler, find, add_process}
use safa_os.Threading.Expose.{has_pid}

-- every pid is below `n`
abbrev AllBelow : ℕ → List Process → Type 0
AllBelow n [] = Unit
AllBelow n (p ∷ ps) = (p.pid < n) × AllBelow n ps

-- the process as the scheduler keeps it
abbrev added : Process → ℕ → Process
added p pid = record p { pid = pid; status = waiting }

AllBelow-append :
    (n : ℕ) (ps : List Process) (p : Process)
    → AllBelow n ps
    → p.pid ≡ n
    → AllBelow (n + 1) (ps ++ p ∷ [])
AllBelow-append n [] p a e = (omega (arith, e), tt)
AllBelow-append n (q ∷ ps) p a e = (omega (arith, a.0), AllBelow-append n ps p a.1 e)

find-append_new :
    (n : ℕ) (ps : List Process) (p : Process)
    → AllBelow n ps
    → p.pid ≡ n
    → find (has_pid n) (ps ++ p ∷ []) ≡ some p
unfolding find
find-append_new n [] p a e = ground (arith, e)
find-append_new n (q ∷ ps) p a e = ground (arith, a.0, find-append_new n ps p a.1 e)

find-append_other :
    (n : ℕ) (ps : List Process) (p : Process)
    → p.pid ≢ n
    → find (has_pid n) (ps ++ p ∷ []) ≡ find (has_pid n) ps
unfolding find
find-append_other n [] p ne = ground (arith, ne)
find-append_other n (q ∷ ps) p ne = elim (Bool-cases (q.pid == n)) [
  | inl hit ↦ ground (arith, hit)
  | inr miss ↦ ground (arith, miss, find-append_other n ps p ne)
]

-- With every pid below `next_pid`, a process that is added is found under the pid returned, every
-- other pid finds what it found before, and every pid is below the new `next_pid`.
add_process-find :
    (this : Scheduler) (p : Process)
    → AllBelow this.next_pid this.processes.items
    → let after = (add_process this p).0 in
      let pid = (add_process this p).1 in
      (find (has_pid pid) after.processes.items ≡ some (added p pid))
      × ((other : ℕ)
          → other ≢ pid
          → find (has_pid other) after.processes.items ≡ find (has_pid other) this.processes.items)
      × AllBelow after.next_pid after.processes.items
unfolding add_process push
add_process-find this p a =
    let n = this.next_pid in
    let ps = this.processes.items in
    (
      find-append_new n ps (added p n) a refl,
      λ other ne. find-append_other other ps (added p n) (λ e. ne (sym e)),
      AllBelow-append n ps (added p n) a refl,
    )

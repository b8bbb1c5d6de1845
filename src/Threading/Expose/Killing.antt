-- ===== src/Threading/Expose/Killing.antt =====
-- `pkill` of kernel/src/threading/expose.rs: the search up the parents, the processes after a kill,
-- and `wait` for a killed one.
use safa_os.Prelude.{
  ℕ, zero, suc, ◌≤◌, ◌<◌, ◌≡◌, refl, ap, ◌∙◌, ◌==◌, ltb, Bool, true, false, ◌||◌, Option, none,
  some, List, [], ◌∷◌, map, arith, inl, inr, ◌⊎◌, Bool-cases, Option-cases, ok, ==_iff,
}
use mathlib.Core.Option.{some-injective}
use safa_os.Threading.LinkedList.{current_of}
use safa_os.Threading.Processes.{
  Process, ProcessState, zombie, alive, AliveProcessState, ZombieProcessState, zombify, terminate,
}
use safa_os.Threading.Scheduler.{Scheduler, find, for_each, remove}
use safa_os.Threading.Expose.{
  has_pid, exited, wait_turn, parent_of, climb, can_terminate, kill_one, reparent,
  terminate_process, decide_kill, pkill,
}

-- a process whose parent has a lower pid, or is process 0
abbrev pub IsOlder : Process → Type 0
IsOlder p = (p.ppid < p.pid) ⊎ (p.ppid ≡ 0)

-- every parent is older than its children
abbrev pub AllOlder : List Process → Type 0
AllOlder [] = Unit
AllOlder (p ∷ ps) = IsOlder p × AllOlder ps

parent_of-lt : (ps : List Process) (pid : ℕ) → AllOlder ps → 0 < pid → parent_of ps pid < pid
unfolding parent_of find
parent_of-lt [] pid a h = h
parent_of-lt (p ∷ ps) pid a h = ground (arith, a.0, parent_of-lt ps pid a.1 h)

climb-ends :
    (steps : ℕ) (ps : List Process) (ppid terminator : ℕ)
    → AllOlder ps
    → ppid < steps
    → (answer : Bool) × (climb steps ps ppid terminator ≡ some answer)
unfolding climb
climb-ends zero ps ppid terminator a h = absurd (omega (arith, h))
climb-ends (suc steps) ps ppid terminator a h = elim (Bool-cases (ppid == 0)) [
  | inl top ↦ (false, ground (arith, top))
  | inr below ↦
      let lower : parent_of ps ppid < ppid = parent_of-lt ps ppid a (ground (arith, below)) in
      let (answer, e) = climb-ends steps ps (parent_of ps ppid) terminator a (omega arith) in
      elim (Bool-cases (ppid == terminator)) [
        | inl found ↦ (true, ground (arith, below, found))
        | inr other ↦ (answer, ground (arith, below, other, e))
      ]
]

-- If every parent is older than its children, the loop of `can_terminate` ends with an answer.
pub can_terminate-ends :
    (ps : List Process) (process_ppid process_pid terminator : ℕ)
    → AllOlder ps
    → (answer : Bool) × (can_terminate ps process_ppid process_pid terminator ≡ some answer)
unfolding can_terminate
can_terminate-ends ps process_ppid process_pid terminator a =
    let (answer, e) = climb-ends (suc process_ppid) ps process_ppid terminator a (omega arith) in
    elim (Bool-cases (process_ppid == terminator || process_pid == terminator)) [
      | inl near ↦ (true, ground (arith, near))
      | inr far ↦ (answer, ground (arith, far, e))
    ]

ProcessState-cases :
    (s : ProcessState)
    → ((z : ZombieProcessState) × (s ≡ zombie z)) ⊎ ((a : AliveProcessState) × (s ≡ alive a))
ProcessState-cases (zombie z) = inl (z, refl)
ProcessState-cases (alive a) = inr (a, refl)

terminate-ids :
    (p : Process) (code terminator : ℕ)
    → ((terminate p code terminator).pid ≡ p.pid) × ((terminate p code terminator).ppid ≡ p.ppid)
unfolding terminate
terminate-ids p code terminator = elim (ProcessState-cases p.state) [
  | inl (_, e) ↦ rw (e, terminate) (refl, refl)
  | inr (_, e) ↦ rw (e, terminate) (refl, refl)
]

kill_one-ids :
    (pid terminator : ℕ) (p : Process)
    → ((kill_one pid terminator p).pid ≡ p.pid) × ((kill_one pid terminator p).ppid ≡ p.ppid)
kill_one-ids pid terminator p = ground (arith, terminate-ids p 1 terminator)

reparent-IsOlder :
    (pid terminator : ℕ) (p : Process)
    → terminator ≤ pid
    → IsOlder p
    → IsOlder (reparent pid terminator p)
reparent-IsOlder pid terminator p le older = ground (arith, le, older)

-- every process after a kill
abbrev pub after_kill : ℕ → ℕ → Process → Process
after_kill pid terminator p = reparent pid terminator (kill_one pid terminator p)

terminate_process-AllOlder :
    (ps : List Process) (pid terminator : ℕ)
    → terminator ≤ pid
    → AllOlder ps
    → AllOlder (map (reparent pid terminator) (map (kill_one pid terminator) ps))
terminate_process-AllOlder [] pid terminator le a = tt
terminate_process-AllOlder (p ∷ ps) pid terminator le a =
    let (same, same') = kill_one-ids pid terminator p in
    let older : IsOlder (kill_one pid terminator p) = rw (same, same') a.0 in
    (
      reparent-IsOlder pid terminator (kill_one pid terminator p) le older,
      terminate_process-AllOlder ps pid terminator le a.1,
    )

find-pid :
    (ps : List Process) (pid : ℕ) (p : Process) → find (has_pid pid) ps ≡ some p → p.pid ≡ pid
unfolding find
find-pid [] pid p h = cc
find-pid (q ∷ ps) pid p h = elim (Bool-cases (q.pid == pid)) [
  | inl hit ↦
      let e : q ≡ p = some-injective q p (ground (arith, hit, h)) in
      rw (← e) ((==_iff q.pid pid).0 hit)
  | inr miss ↦ find-pid ps pid p (ground (arith, miss, h))
]

find-hit :
    (c : Process → Bool) (q : Process) (ps : List Process) → c q ≡ true → find c (q ∷ ps) ≡ some q
unfolding find
find-hit c q ps h = ground (arith, h)

find-miss :
    (c : Process → Bool) (q : Process) (ps : List Process)
    → c q ≡ false
    → find c (q ∷ ps) ≡ find c ps
unfolding find
find-miss c q ps h = ground (arith, h)

find-killed :
    (ps : List Process) (pid terminator : ℕ) (p : Process)
    → find (has_pid pid) ps ≡ some p
    → find (has_pid pid) (map (reparent pid terminator) (map (kill_one pid terminator) ps))
      ≡ some (after_kill pid terminator p)
unfolding find
find-killed [] pid terminator p h = cc
find-killed (q ∷ ps) pid terminator p h =
    let same : (after_kill pid terminator q).pid ≡ q.pid =
      ground (arith, (kill_one-ids pid terminator q).0) in
    elim (Bool-cases (q.pid == pid)) [
      | inl hit ↦
          let e : q ≡ p = some-injective q p (ground (arith, hit, h)) in
          find-hit (has_pid pid) (after_kill pid terminator q) _ (ap (λ x. x == pid) same ∙ hit)
          ∙ ap (λ x. some (after_kill pid terminator x)) e
      | inr miss ↦
          find-miss (has_pid pid) (after_kill pid terminator q) _ (ap (λ x. x == pid) same ∙ miss)
          ∙ find-killed ps pid terminator p (ground (arith, miss, h))
    ]

decided :
    (this after : Scheduler) (pid terminator : ℕ) (answer : Option Bool)
    → decide_kill this pid terminator answer ≡ some (ok after)
    → after ≡ terminate_process this pid terminator
decided this after pid terminator none h = cc
decided this after pid terminator (some true) h = cc
decided this after pid terminator (some false) h = cc

-- what a kill that succeeds has found and done
pub record Killed (this after : Scheduler) (pid : ℕ) : Type 0 where
  pub current : Process
  pub process : Process
  pub found : find (has_pid pid) this.processes.items ≡ some process
  pub lower : current.pid ≤ pid
  pub done : after ≡ terminate_process this pid current.pid

pkill-Killed :
    (this after : Scheduler) (pid : ℕ) → pkill this pid ≡ some (ok after) → Killed this after pid
unfolding pkill
pkill-Killed this after pid h = elim (Option-cases (current_of this.processes)) [
  | inl lost ↦ cc (rw (lost, pkill) at h)
  | inr (current, e) ↦
      let h1 = rw (e, pkill) at h in
      elim (Bool-cases (ltb pid current.pid)) [
        | inl over ↦ cc (rw over at h1)
        | inr under ↦
            let h2 = rw under at h1 in
            elim (Option-cases (find (has_pid pid) this.processes.items)) [
              | inl gone ↦ cc (rw gone at h2)
              | inr (p, ep) ↦
                  let h3 = rw ep at h2 in
                  let q = find-pid this.processes.items pid p ep in
                  record {
                    current = current;
                    process = p;
                    found = ep;
                    lower = ground (arith, under);
                    done = rw q at (decided this after p.pid current.pid _ h3);
                  }
            ]
      ]
]

-- A kill that succeeds keeps every parent older than its children.
pub pkill-AllOlder :
    (this after : Scheduler) (pid : ℕ)
    → AllOlder this.processes.items
    → pkill this pid ≡ some (ok after)
    → AllOlder after.processes.items
unfolding terminate_process for_each
pkill-AllOlder this after pid a h =
    let k = pkill-Killed this after pid h in
    rw k.done (terminate_process-AllOlder this.processes.items pid k.current.pid k.lower a)

wait_turn-zombie :
    (this : Scheduler) (pid : ℕ) (p : Process) (z : ZombieProcessState)
    → find (has_pid pid) this.processes.items ≡ some p
    → p.state ≡ zombie z
    → wait_turn this pid ≡ exited (remove this (has_pid pid)).0 z.exit_code
unfolding wait_turn remove
wait_turn-zombie this pid p z found dead = rw (found, wait_turn) (rw dead refl)

killed-state :
    (pid terminator : ℕ) (p : Process) (state : AliveProcessState)
    → p.pid ≡ pid
    → p.state ≡ alive state
    → (after_kill pid terminator p).state ≡ zombie (zombify p.context state 1 terminator)
unfolding terminate
killed-state pid terminator p state e live = ground (arith, e, live)

-- After a kill that succeeds, of a process that was alive, the first turn of `wait` for its pid
-- ends with exit code 1.
pub pkill-wait :
    (this after : Scheduler) (pid : ℕ) (p : Process) (state : AliveProcessState)
    → pkill this pid ≡ some (ok after)
    → find (has_pid pid) this.processes.items ≡ some p
    → p.state ≡ alive state
    → wait_turn after pid ≡ exited (remove after (has_pid pid)).0 1
unfolding terminate_process for_each
pkill-wait this after pid p state h e live =
    let k = pkill-Killed this after pid h in
    let t = k.current.pid in
    let found : find (has_pid pid) after.processes.items ≡ some (after_kill pid t p) =
      rw k.done (find-killed this.processes.items pid t p e) in
    wait_turn-zombie after pid (after_kill pid t p) (zombify p.context state 1 t) found
      (killed-state pid t p state (find-pid this.processes.items pid p e) live)

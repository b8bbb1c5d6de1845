-- ===== src/Threading/Scheduler/RoundRobin.antt =====
-- The order in which `switch` of kernel/src/threading/mod.rs goes around the ring of processes.
use safa_os.Prelude.{
  ℕ, zero, suc, ◌+◌, ◌-◌, ◌≤◌, ◌<◌, ◌≡◌, ◌≢◌, refl, sym, ◌∙◌, ltb, true, false, if◌then◌else◌,
  Option, some, List, length, get_elem?, set, arith, inl, inr, Bool-cases, get_elem?-some_of_lt,
  get_elem?-set_self, get_elem?-set_ne, length-set, get_elem?-lt, ap,
}
use native.Mathlib.Decide.{ℕ_discrete}
use mathlib.Core.Option.{some-injective}
use safa_os.Threading.LinkedList.{LinkedList, next_wrap, current_of, set_current, next_position}
use safa_os.Threading.Processes.{Process, zombied, CpuStatus}
use safa_os.Threading.Scheduler.{Scheduler, is_waiting, run, suspend, rotate, switch}

-- the steps around the ring from one position to another one, and once around to itself
abbrev pub distance : ℕ → ℕ → ℕ → ℕ
distance size c t = if ltb c t then t - c else size + t - c

distance-next :
    (size c t : ℕ)
    → c < size
    → t < size
    → t ≢ next_position size c
    → distance size c t ≡ suc (distance size (next_position size c) t)
distance-next size c t lc lt ne = ground (arith, ne)

distance-one : (size c : ℕ) → c < size → distance size c (next_position size c) ≡ 1
distance-one size c lc = ground arith

distance-pos : (size c t : ℕ) → c < size → 0 < distance size c t
distance-pos size c t lc = ground arith

next_position-lt : (size c : ℕ) → c < size → next_position size c < size
next_position-lt size c lc = ground arith

-- the list with its cursor at `c`
abbrev pub at : List Process → ℕ → LinkedList Process
at items c = record { items = items; current = some c }

-- the outcome of a search from `c`: the first waiting process behind it, now running
pub record Chosen (items : List Process) (c : ℕ) (result : Option (LinkedList Process))
    : Type 0 where
  pub position : ℕ
  pub process : Process
  pub there : get_elem? items position ≡ some process
  pub ready : is_waiting process.status ≡ true
  pub after : result ≡ some (at (set items position (run process)) position)
  pub first :
      (j : ℕ) (q : Process)
      → get_elem? items j ≡ some q
      → distance (length items) c j < distance (length items) c position
      → is_waiting q.status ≡ false

-- processes that differ in being ready stand at different positions
apart :
    (items : List Process) (i j : ℕ) (p q : Process)
    → get_elem? items i ≡ some p
    → get_elem? items j ≡ some q
    → is_waiting p.status ≡ true
    → is_waiting q.status ≡ false
    → i ≢ j
apart items i j p q ei ej w b same =
    let e : p ≡ q = some-injective p q (sym ei ∙ ap (get_elem? items) same ∙ ej) in
    let clash : true ≡ false = sym w ∙ ap (λ x. is_waiting x.status) e ∙ b in cc

same_place :
    (items : List Process) (i j : ℕ) (p q : Process)
    → get_elem? items i ≡ some p
    → get_elem? items j ≡ some q
    → i ≡ j
    → p ≡ q
same_place items i j p q ei ej same = some-injective p q (sym ei ∙ ap (get_elem? items) same ∙ ej)

rotate-Chosen :
    (steps : ℕ) (items : List Process) (c t : ℕ) (p : Process)
    → c < length items
    → get_elem? items t ≡ some p
    → is_waiting p.status ≡ true
    → distance (length items) c t ≤ steps
    → Chosen items c (rotate steps (at items c))
unfolding rotate next_wrap current_of set_current
rotate-Chosen zero items c t p lc e w near =
    absurd (omega (arith, near, distance-pos (length items) c t lc))
rotate-Chosen (suc steps) items c t p lc e w near =
    let size = length items in
    let n = next_position size c in
    let ln = next_position-lt size c lc in
    let lt = get_elem?-lt items t p e in
    let (x, ex) = get_elem?-some_of_lt items n ln in
    elim (Bool-cases (is_waiting x.status)) [
      | inl ready ↦ record {
        position = n;
        process = x;
        there = ex;
        ready = ready;
        after = ground (arith, ex, ready);
        first = λ j q ej less.
            absurd (omega (arith, less, distance-one size c lc, distance-pos size c j lc));
      }
      | inr busy ↦
          let closer = distance-next size c t lc lt (apart items t n p x e ex w busy) in
          let rest = rotate-Chosen steps items n t p ln e w (omega (arith, closer, near)) in
          let lr = get_elem?-lt items rest.position rest.process rest.there in
          let away = apart items rest.position n rest.process x rest.there ex rest.ready busy in
          record {
            position = rest.position;
            process = rest.process;
            there = rest.there;
            ready = rest.ready;
            after = ground (arith, ex, busy, rest.after);
            first = λ j q ej less. elim (ℕ_discrete j n) [
              | yes same ↦ rw (same_place items j n q x ej ex same) busy
              | no other ↦ rest.first j q ej (
                  omega (
                    arith,
                    less,
                    distance-next size c j lc (get_elem?-lt items j q ej) other,
                    distance-next size c rest.position lc lr away,
                  ))
            ];
          }
    ]

-- a switch, given what the search comes to
switched :
    (items : List Process) (next_pid : ℕ) (context : CpuStatus) (c : ℕ) (p : Process)
    (items' : List Process) (r : ℕ) (q : Process)
    → get_elem? items c ≡ some p
    → rotate (length items) (at (set items c (suspend p context)) c) ≡ some (at items' r)
    → get_elem? items' r ≡ some q
    → switch (record { processes = at items c; next_pid = next_pid }) context
      ≡ some (record { processes = at items' r; next_pid = next_pid }, q.context)
unfolding switch current_of set_current
switched items next_pid context c p items' r q ep found now = rw ep (rw found (rw now refl))

-- If the cursor of the scheduler is on a process, a context switch ends. It saves the context of
-- that process, which becomes a waiting one, and goes on with the saved context of the first
-- waiting process behind it in the ring, itself at the last: that process runs now, it is the
-- current one, every process passed over was not waiting, and nothing else changes.
pub switch-round_robin :
    (items : List Process) (next_pid : ℕ) (context : CpuStatus) (c : ℕ) (p : Process)
    → get_elem? items c ≡ some p
    → let before = set items c (suspend p context) in
      (r : ℕ) × (q : Process) × (get_elem? before r ≡ some q)
      × (is_waiting q.status ≡ true)
      × (switch (record { processes = at items c; next_pid = next_pid }) context
          ≡ some
              (record { processes = at (set before r (run q)) r; next_pid = next_pid }, q.context))
      × ((j : ℕ) (other : Process)
          → get_elem? before j ≡ some other
          → distance (length before) c j < distance (length before) c r
          → is_waiting other.status ≡ false)
unfolding switch current_of set_current
switch-round_robin items next_pid context c p ep =
    let before = set items c (suspend p context) in
    let lt = get_elem?-lt items c p ep in
    let size = length-set items c (suspend p context) in
    let lc : c < length before = omega (arith, size, lt) in
    let near : distance (length before) c c ≤ length items = ground (arith, size) in
    let here = get_elem?-set_self items c (suspend p context) lt in
    let found = rotate-Chosen (length items) before c c (suspend p context) lc here refl near in
    let r = found.position in
    let q = found.process in
    let lr = get_elem?-lt before r q found.there in
    let now = get_elem?-set_self before r (run q) lr in
    (
      r,
      q,
      found.there,
      found.ready,
      switched items next_pid context c p (set before r (run q)) r (run q) ep found.after now,
      found.first,
    )

-- A context switch away from a process leaves that process waiting or running, whatever its status
-- was, and in the state that it had: a process that has terminated is scheduled again.
pub switch-forgets_zombie :
    (items : List Process) (next_pid : ℕ) (context : CpuStatus) (c : ℕ) (p : Process)
    → get_elem? items c ≡ some p
    → (after : Scheduler) × (next : CpuStatus) × (p' : Process) × (switch
          (record { processes = at items c; next_pid = next_pid })
          context
        ≡ some (after, next))
      × (get_elem? after.processes.items c ≡ some p')
      × (p'.status ≢ zombied)
      × (p'.state ≡ p.state)
switch-forgets_zombie items next_pid context c p ep =
    let before = set items c (suspend p context) in
    let lt = get_elem?-lt items c p ep in
    let here = get_elem?-set_self items c (suspend p context) lt in
    let (r, q, there, _, done, _) = switch-round_robin items next_pid context c p ep in
    let lr = get_elem?-lt before r q there in
    elim (ℕ_discrete r c) [
      | yes same ↦
          let e : q ≡ suspend p context =
            same_place before r c q (suspend p context) there here same in
          (
            _,
            _,
            run q,
            done,
            sym (ap (get_elem? (set before r (run q))) same)
                ∙ get_elem?-set_self before r (run q) lr,
            (λ z. cc),
            ap (λ x. x.state) e,
          )
      | no other ↦ (
        _,
        _,
        suspend p context,
        done,
        get_elem?-set_ne before r c (run q) other ∙ here,
        (λ z. cc),
        refl,
      )
    ]

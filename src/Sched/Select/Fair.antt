-- ===== src/Sched/Select/Fair.antt =====
-- src/scheduler/scheduler.c: the choice of a ready queue.
use pennos.Base.{
  ℕ, zero, suc, ◌+◌, ◌≤◌, ◌≡◌, refl, ◌%◌, ◌∙◌, Bool, true, false, List, [], ◌∷◌, none, some, arith,
  if◌then◌else◌, get_or, Bool-cases, inl, inr,
}
use pennos.Sched.State.{queue_eq, high, medium, low, ready_queue, Scheduler}
use pennos.Sched.Select.{process_to_run, is_empty, select_next_queue}
use mathlib.Core.Bool.{◌&&◌}
use pennos.Base.{leb, has, ap, ◌||◌, is_some}
use pennos.Base.Returns
use pennos.Base.Returns.{Returns, returns}
use pennos.Sched.State.{Pcb, Queue, Cmd, write_log, log_schedule, blocked_queue}
use pennos.Sched.Queue.Invariant.{home}
use pennos.Sched.Select.{
  run_picked, run_turn, end_quantum, run_next_process, run_rounds, update_blocked_processes,
  k_get_process_by_pid,
}
use pennos.Sched.Select.Busy.{
  tally, runs_of, Busy, Steady, update_sleepers-Busy, after_quantum-Busy, pick_head-picks,
}

all_le : ℕ → List ℕ → Bool
all_le b [] = true
all_le b (x ∷ xs) = leb x b && all_le b xs

get_or-le : (b : ℕ) (l : List ℕ) (r : ℕ) → all_le b l ≡ true → get_or l r 0 ≤ b
unfolding all_le
get_or-le b [] r h = omega arith
get_or-le b (x ∷ xs) zero h = ground arith
get_or-le b (x ∷ xs) (suc r) h = ground (arith, get_or-le b xs r)

process_to_run-le : all_le 2 process_to_run ≡ true
unfolding all_le
process_to_run-le = refl

-- `select_next_queue` gives a number from 0 to 2 whose ready queue has a process, and gives none only
-- when the three ready queues are empty.
pub select_next_queue_sound :
    (s : Scheduler)
    → ((i : ℕ)
        → select_next_queue s ≡ some i
        → (i ≤ 2) × (is_empty (s.queue (ready_queue i)) ≡ false))
      × (select_next_queue s ≡ none
          → (is_empty (s.queue high) ≡ true)
            × (is_empty (s.queue medium) ≡ true)
            × (is_empty (s.queue low) ≡ true))
unfolding select_next_queue
select_next_queue_sound s =
    let r = s.quantum % 19 in
    let turn_le = get_or-le 2 process_to_run r process_to_run-le in
    elim (Bool-cases (is_empty (s.queue (ready_queue (get_or process_to_run r 0))))) [
      | inl e ↦ (λ i h. ground (arith, turn_le, e), λ h. ground (arith, e))
      | inr e ↦ (λ i h. ground (arith, turn_le, e), λ h. ground (arith, e))
    ]

turn : ℕ → ℕ
turn q = get_or process_to_run (q % 19) 0

turn-periodic : (q : ℕ) → turn (q + 19) ≡ turn q
unfolding turn
turn-periodic q = let same : (q + 19) % 19 ≡ q % 19 = omega arith in rw same refl

-- How many of the `n` quanta from `q` on are the turn of ready queue `i`.
share : (i : Queue) (n q : ℕ) → ℕ
share i zero q = 0
share i (suc n) q = tally i (turn q) + share i n (suc q)

share-last : (i : Queue) (n q : ℕ) → share i (suc n) q ≡ share i n q + tally i (turn (q + n))
unfolding share
share-last i zero q = let same : q + 0 ≡ q = omega arith in rw same (omega arith)
share-last i (suc n) q =
    let same : q + suc n ≡ suc q + n = omega arith in
    let later = share-last i n (suc q) in rw same (omega (arith, later))

share-first : (i : Queue) (q : ℕ) → share i 20 q ≡ tally i (turn q) + share i 19 (suc q)
unfolding share
share-first i q = refl

share-shift : (i : Queue) (q : ℕ) → share i 19 (suc q) ≡ share i 19 q
share-shift i q =
    let last = share-last i 19 q in
    let first = share-first i q in
    let same : tally i (turn (q + 19)) ≡ tally i (turn q) = rw (turn-periodic q) refl in
    omega (arith, last, first, same)

share-any : (i : Queue) (q : ℕ) → share i 19 q ≡ share i 19 0
share-any i zero = refl
share-any i (suc q) = share-shift i q ∙ share-any i q

select_next_queue-turn : (s : Scheduler) → Busy s → select_next_queue s ≡ some (turn s.quantum)
unfolding select_next_queue turn
select_next_queue-turn s b = rw (b.ready (get_or process_to_run (s.quantum % 19) 0)) refl

home_in_ready : (p : Pcb) (i : ℕ) → home p ≡ ready_queue i → ready_queue p.priority ≡ ready_queue i
home_in_ready p i h = ground arith

-- What `Busy` speaks of is unchanged.
same_queues : (s t : Scheduler) → Busy s → t.queue ≡ s.queue → t.pcb ≡ s.pcb → Busy t
same_queues s t b q p = record {
  runnable = record {
    placed = record {
      homes = λ r i h. rw p (b.runnable.placed.homes r i (rw q at h));
      distinct = λ r. rw q (b.runnable.placed.distinct r);
    };
    threads = λ i. rw p (b.runnable.threads i);
  };
  ready = λ i. rw q (b.ready i);
}

-- What a quantum that is the turn of priority `i` leaves.
record Turned (i : ℕ) (s t : Scheduler) : Type 0 where
  busy : Busy t
  quantum : t.quantum ≡ suc s.quantum
  runs : (q : Queue) → runs_of q t.log ≡ tally q i + runs_of q s.log

-- What `n` quanta leave.
record Shared (n : ℕ) (s t : Scheduler) : Type 0 where
  busy : Busy t
  quantum : t.quantum ≡ s.quantum + n
  runs : (q : Queue) → runs_of q t.log ≡ share q n s.quantum + runs_of q s.log

module _ (body : ℕ → Cmd (Unit {0}))
    (keeps : (pid : ℕ) (s : Scheduler)
      → Busy s
      → Returns (λ _ t. Busy t × Steady s t) (body pid s)) where
  run_picked-Turned :
      (i pid : ℕ) (u : Scheduler)
      → Busy u
      → has pid (u.queue (ready_queue i)) ≡ true
      → Returns (λ _ t. Turned i u t) (run_picked body (ready_queue i) (some pid) u)
  unfolding run_picked write_log end_quantum
  run_picked-Turned i pid u b here =
      let scheduled : Scheduler = record u {
        current_process = some pid;
        log = log_schedule pid (u.pcb pid).priority ∷ u.log;
      } in
      let at_home =
        home_in_ready (u.pcb pid) i (b.runnable.placed.homes (ready_queue i) pid here) in
      rw (b.runnable.threads pid) (
        Returns.bind (keeps pid scheduled (same_queues u scheduled b refl refl)) λ _ v (b', steady).
          let counted : Scheduler = record v { quantum = v.quantum + 1 } in
          Returns.mono
            (after_quantum-Busy (ready_queue i) (v.pcb pid).state counted
              (same_queues v counted b' refl refl))
            λ _ t (busy, after). record {
              busy = busy;
              quantum = omega (arith, after.quantum, steady.quantum);
              runs = λ q.
                  after.runs q
                  ∙ steady.runs q
                  ∙ ap (λ r. (if queue_eq r q then 1 else 0) + runs_of q u.log) at_home;
            })

  run_turn-Turned :
      (i : ℕ) (s : Scheduler) → Busy s → Returns (λ _ t. Turned i s t) (run_turn body (some i) s)
  unfolding run_turn
  run_turn-Turned i s b = Returns.bind (pick_head-picks s i b) λ o u (pid, is, here, busy, steady).
      rw is (
        Returns.mono (run_picked-Turned i pid u busy here) λ _ t turned. record {
          busy = turned.busy;
          quantum = turned.quantum ∙ ap suc steady.quantum;
          runs = λ q. turned.runs q ∙ ap (λ n. tally q i + n) (steady.runs q);
        })

  run_next_process-Turned :
      (s : Scheduler)
      → Busy s
      → Returns (λ _ t. Turned (turn s.quantum) s t) (run_next_process body s)
  unfolding run_next_process update_blocked_processes
  run_next_process-Turned s b =
      Returns.bind (update_sleepers-Busy (s.queue blocked_queue) s b (λ p e. e)) λ _ v (b', steady).
        let w : Scheduler = record v {
          shell_spawned = v.shell_spawned || is_some (k_get_process_by_pid v 2);
        } in
        let busy = same_queues v w b' refl refl in
        rw (select_next_queue-turn w busy) (
          Returns.mono (run_turn-Turned (turn v.quantum) w busy) λ _ t turned. record {
            busy = turned.busy;
            quantum = turned.quantum ∙ ap suc steady.quantum;
            runs = λ q.
                turned.runs q
                ∙ ap (λ n. tally q (turn v.quantum) + n) (steady.runs q)
                ∙ ap (λ n. tally q (turn n) + runs_of q s.log) steady.quantum;
          })

  run_rounds-Shared :
      (n : ℕ) (s : Scheduler) → Busy s → Returns (λ _ t. Shared n s t) (run_rounds body n s)
  unfolding run_rounds share
  run_rounds-Shared zero s b =
      returns (record { busy = b; quantum = omega arith; runs = λ q. omega arith })
  run_rounds-Shared (suc n) s b = Returns.bind (run_next_process-Turned s b) λ _ t first.
      Returns.mono (run_rounds-Shared n t first.busy) λ _ u later. record {
        busy = later.busy;
        quantum = omega (arith, later.quantum, first.quantum);
        runs = λ q.
            let shared : share q n t.quantum ≡ share q n (suc s.quantum) =
              ap (share q n) first.quantum in
            omega (arith, later.runs q, first.runs q, shared);
      }

  -- 19 rounds of `run_scheduler` return and are 19 quanta, of which the log says that nine went to
  -- processes of priority 0, six to priority 1 and four to priority 2. Before them every ready queue
  -- has a process, and all processes are in their home queues and have threads; whatever a process
  -- does in its quantum returns, keeps these three and runs no other quantum. They are kept.
  pub run_rounds-quota :
      (s : Scheduler)
      → Busy s
      → Returns
          (λ _ t.
            Busy t
            × (t.quantum ≡ s.quantum + 19)
            × (runs_of high t.log ≡ runs_of high s.log + 9)
            × (runs_of medium t.log ≡ runs_of medium s.log + 6)
            × (runs_of low t.log ≡ runs_of low s.log + 4))
          (run_rounds body 19 s)
  unfolding share turn
  run_rounds-quota s b =
      Returns.mono (run_rounds-Shared 19 s b)
        λ _ t all. (all.busy, all.quantum, runs all high, runs all medium, runs all low)
    where
      runs :
          {t : Scheduler}
          → Shared 19 s t
          → (q : Queue) → runs_of q t.log ≡ runs_of q s.log + share q 19 0
      runs all q = omega (arith, all.runs q, share-any q s.quantum)

-- ===== src/Tests/Scheduling.antt =====
-- src/scheduler/scheduler.c: the choice of a queue and the sleepers' clock, on examples.
use pennos.Base.{
  ◌+◌, ◌==◌, if◌then◌else◌, double_of, minus_tenth, unit_of, nearest, zero, suc, ℕ, ◌≡◌, refl, ◌≢◌,
  true, false, [], ◌∷◌, arith, has,
}
use pennos.Base.Returns.{Returns}
use pennos.Sched.State.{running}
use pennos.Sched.Queue.Invariant.{Placed}
use pennos.Sched.Select.{update_sleepers}
use pennos.Sched.Select.{run_next_process}
use pennos.Base.{pos}
use pennos.Sched.State.{Cmd, ok, Scheduler}
use pennos.Base.Returns.{returns}
use pennos.Sched.Select.Quantum.{Runnable, run_next_process-Runnable}
use pennos.Sched.State.{high, medium, low}
use pennos.Sched.Select.{run_rounds}
use pennos.Sched.Select.Busy.{Busy, Steady, runs_of}
use pennos.Sched.Select.Fair.{run_rounds-quota}
use pennos.Sched.Select.Sleepers.{tick, update_sleepers-wakes}
use pennos.Tests.Processes.{example, example_pcb, example-Placed}

-- Process 7 sleeps in front of process 4, which wakes up, and process 8 behind it.
update_sleepers-wakes_example :
    Returns
      (λ _ t.
        Placed t
        × ((t.pcb 4).state ≡ running)
        × ((p : ℕ) → has p (7 ∷ []) ≡ true → t.pcb p ≡ tick (example_pcb p))
        × ((p : ℕ) → p ≢ 4 → has p (7 ∷ []) ≡ false → t.pcb p ≡ example_pcb p))
      (update_sleepers (7 ∷ 4 ∷ 8 ∷ []) example)
unfolding minus_tenth unit_of nearest
update_sleepers-wakes_example =
    update_sleepers-wakes (7 ∷ []) 4 (8 ∷ []) example example-Placed refl refl
      (λ p e. let is : p ≡ 7 = ground arith in rw is refl) refl

example-Runnable : Runnable example
example-Runnable = record { placed = example-Placed; threads = λ p. refl }

-- A process that takes the terminal in its quantum.
abbrev takes_terminal : ℕ → Cmd (Unit {0})
takes_terminal pid s = ok tt (record s { terminal_controlling_pid = pos pid })

takes_terminal-Runnable :
    (pid : ℕ) (s : Scheduler) → Runnable s → Returns (λ _ t. Runnable t) (takes_terminal pid s)
takes_terminal-Runnable pid s r = returns (record {
  placed = record { homes = r.placed.homes; distinct = r.placed.distinct };
  threads = r.threads;
})

run_next_process-Runnable_example :
    Returns (λ _ t. Runnable t) (run_next_process takes_terminal example)
run_next_process-Runnable_example =
    run_next_process-Runnable takes_terminal takes_terminal-Runnable example example-Runnable

takes_terminal-Busy :
    (pid : ℕ) (s : Scheduler) → Busy s → Returns (λ _ t. Busy t × Steady s t) (takes_terminal pid s)
takes_terminal-Busy pid s b = returns (
  record {
    runnable = record {
      placed = record { homes = b.runnable.placed.homes; distinct = b.runnable.placed.distinct };
      threads = b.runnable.threads;
    };
    ready = b.ready;
  },
  record { quantum = refl; runs = λ q. refl },
)

example-Busy : Busy example
example-Busy = record { runnable = example-Runnable; ready = λ i. ground arith }

run_rounds-quota_example :
    Returns
      (λ _ t.
        Busy t
        × (t.quantum ≡ example.quantum + 19)
        × (runs_of high t.log ≡ runs_of high example.log + 9)
        × (runs_of medium t.log ≡ runs_of medium example.log + 6)
        × (runs_of low t.log ≡ runs_of low example.log + 4))
      (run_rounds takes_terminal 19 example)
run_rounds-quota_example = run_rounds-quota takes_terminal takes_terminal-Busy example example-Busy

-- In how many quanta a sleeping time runs out.
abbrev quanta : (rounds time : ℕ) → ℕ
quanta zero time = 0
quanta (suc rounds) time =
    let rest = quanta rounds (minus_tenth time) in if time == 0 then 0 else rest + 1

-- One unit of sleeping time is 11 quanta, two are 20, and five are 51.
quanta_of_units :
    (quanta 60 (double_of 1) ≡ 11) × (quanta 60 (double_of 2) ≡ 20) × (quanta 60 (double_of 5) ≡ 51)
unfolding minus_tenth unit_of nearest
quanta_of_units = (refl, refl, refl)

-- ===== src/Tests/Processes.antt =====
-- src/scheduler: six processes in six queues, and the calls on them.
use pennos.Base.{
  double_of, ℕ, ◌≤◌, ◌≡◌, refl, true, false, List, [], ◌∷◌, some, arith, ◌==◌, if◌then◌else◌, pos,
  neg, has,
}
use pennos.Base.Returns.{Returns}
use pennos.Sched.State.{
  ProcessState, running, blocked, stopped, zombied, Pcb, Queue, high, medium, low, blocked_queue,
  zombie_queue, stopped_queue, Scheduler,
}
use pennos.Sched.Queue.Invariant.{home, Placed, PlacedBut}
use pennos.Sched.Move.{k_set_priority}
use pennos.Sched.Move.Placed.{Moved, IsReady}
use pennos.Sched.Move.Priority.{k_set_priority-Moved}
use pennos.Sched.Exit.{k_proc_exit, k_stop_process, waits_for}
use pennos.Sched.Exit.Wake.{IsActive}
use pennos.Sched.Exit.Halt.{k_stop_process-Placed}
use pennos.Sched.Exit.Zombie.{k_proc_exit-Placed}
use pennos.Sched.Exit.Handover.{k_proc_exit-wakes}
use pennos.Sched.Wait.{returned, w_exited, k_waitpid}
use pennos.Sched.Wait.Reap.{k_waitpid-reaps}
use pennos.Sched.Sys.{p_sigterm, s_kill}
use pennos.Sched.Sys.Kill.{s_kill-terminates}
use pennos.Sched.Create.{k_proc_create}
use pennos.Sched.Create.Fresh.{Numbered, all_granted, k_proc_create-Placed}

abbrev state_of : ℕ → ProcessState
state_of pid =
    if pid == 4
    then blocked
    else if pid == 5
    then stopped
    else if pid == 6
    then zombied
    else running

abbrev parent_of : ℕ → ℕ
parent_of pid = if pid == 3 then 4 else if pid == 4 then 2 else if pid == 6 then 2 else 1

abbrev children_of : ℕ → List ℕ
children_of pid = if pid == 2 then 4 ∷ 6 ∷ [] else if pid == 4 then 3 ∷ [] else []

-- Init, the shell, a running child of the blocked process 4, a stopped process, and a zombie child of
-- the shell.
abbrev pub example_pcb : ℕ → Pcb
example_pcb pid = record {
  ppid = parent_of pid;
  pgid = pid;
  children = children_of pid;
  fd_table = λ i. record { global_fd = 0; offset = 0; mode = 0; in_use = false };
  state = state_of pid;
  waited_child = if pid == 4 then pos 3 else neg 2;
  ignore_sigint = false;
  ignore_sigtstp = false;
  errnumber = pos 0;
  priority = if pid == 1 then 0 else if pid == 2 then 1 else 2;
  sleep_time = if pid == 4 then 1 else if pid == 7 then double_of 2 else 0;
  has_thread = true;
  exit_status = pos 0;
}

abbrev pub example_queue : Queue → List ℕ
example_queue high = 1 ∷ []
example_queue medium = 2 ∷ []
example_queue low = 3 ∷ []
example_queue blocked_queue = 4 ∷ []
example_queue zombie_queue = 6 ∷ []
example_queue stopped_queue = 5 ∷ []

abbrev pub example : Scheduler
example = record {
  queue = example_queue;
  pcb = example_pcb;
  init_process = some 1;
  current_process = some 2;
  process_count = 6;
  terminal_controlling_pid = pos 2;
  quantum = 7;
  shell_spawned = true;
  logout_issued = false;
  log = [];
}

example-homes :
    (q : Queue) (pid : ℕ) → has pid (example_queue q) ≡ true → home (example_pcb pid) ≡ q
example-homes high pid h = let is : pid ≡ 1 = ground arith in rw is refl
example-homes medium pid h = let is : pid ≡ 2 = ground arith in rw is refl
example-homes low pid h = let is : pid ≡ 3 = ground arith in rw is refl
example-homes blocked_queue pid h = let is : pid ≡ 4 = ground arith in rw is refl
example-homes zombie_queue pid h = let is : pid ≡ 6 = ground arith in rw is refl
example-homes stopped_queue pid h = let is : pid ≡ 5 = ground arith in rw is refl

pub example-Placed : Placed example
example-Placed = record { homes = example-homes; distinct = λ q. ground arith }

pub example-Numbered : Numbered example
example-Numbered = record { given = given }
  where
    given : (q : Queue) (pid : ℕ) → has pid (example_queue q) ≡ true → pid ≤ 6
    given high pid h = ground arith
    given medium pid h = ground arith
    given low pid h = ground arith
    given blocked_queue pid h = ground arith
    given zombie_queue pid h = ground arith
    given stopped_queue pid h = ground arith

example-IsActive : IsActive example 3
example-IsActive = record { queued = refl; not_zombie = λ e. ground arith }

pub example-IsReady : IsReady example 2
example-IsReady = record { is_running = refl; queued = refl }

k_proc_exit-Placed_example :
    Returns
      (λ r t.
        (r ≡ pos 0)
        × Placed t
        × ((t.pcb 3).state ≡ zombied)
        × ((t.pcb 3).exit_status ≡ pos 9)
        × (has 3 (t.queue zombie_queue) ≡ true))
      (k_proc_exit 3 (pos 9) example)
k_proc_exit-Placed_example =
    k_proc_exit-Placed example 3 example-Placed (pos 9) 1 2 example-IsActive refl refl
      (λ e. ground arith)

k_stop_process-Placed_example :
    Returns
      (λ r t.
        (r ≡ pos 0)
        × Placed t
        × ((t.pcb 3).state ≡ stopped)
        × (has 3 (t.queue stopped_queue) ≡ true))
      (k_stop_process 3 example)
k_stop_process-Placed_example =
    k_stop_process-Placed example 3 example-Placed example-IsActive (λ e. ground arith)

k_waitpid-reaps_example :
    Returns
      (λ r t.
        (r ≡ returned (pos 6) (some w_exited)) × PlacedBut 6 t × ((t.pcb 2).children ≡ 4 ∷ []))
      (k_waitpid (pos 6) false example)
k_waitpid-reaps_example =
    k_waitpid-reaps example 2 6 false example-Placed refl refl refl refl (λ e. ground arith)

s_kill-terminates_example :
    Returns
      (λ r t.
        (r ≡ neg 1)
        × Placed t
        × ((t.pcb 3).state ≡ zombied)
        × ((t.pcb 3).exit_status ≡ pos 1)
        × (has 3 (t.queue zombie_queue) ≡ true))
      (s_kill 3 p_sigterm example)
s_kill-terminates_example =
    s_kill-terminates example 3 example-Placed (λ e. ground arith) 2 (λ e. ground arith)
      example-IsActive refl refl

k_proc_create-Placed_example :
    Returns
      (λ r t.
        (r ≡ pos 7)
        × Placed t
        × Numbered t
        × (has 7 (t.queue medium) ≡ true)
        × (t.process_count ≡ 7))
      (k_proc_create all_granted (some 2) 1 example)
k_proc_create-Placed_example =
    k_proc_create-Placed example (some 2) 1 example-Placed example-Numbered (omega arith) refl

k_set_priority-Moved_example :
    Returns
      (λ r t.
        (r ≡ pos 0) × Moved example 2 high t × (t.pcb 2 ≡ record (example_pcb 2) { priority = 0 }))
      (k_set_priority 2 (pos 0) example)
k_set_priority-Moved_example =
    k_set_priority-Moved example 2 example-Placed 0 (omega arith) example-IsReady
      (λ e. ground arith)

k_proc_exit-wakes_example :
    Returns
      (λ _ t. ((t.pcb 4).state ≡ running) × (has 4 (t.queue low) ≡ true))
      (k_proc_exit 3 (pos 9) example)
unfolding waits_for
k_proc_exit-wakes_example =
    k_proc_exit-wakes example 3 4 example-Placed (pos 9) 1 2 example-IsActive refl refl
      (λ e. ground arith) (λ e. ground arith) refl refl (λ p h ne. ground arith)

-- ===== src/Sched/Select/Find.antt =====
-- src/scheduler/scheduler.c: `k_get_process_by_pid` on queued processes.
use pennos.Base.{ℕ, ◌≡◌, true, some, arith, has}
use pennos.Sched.State.{
  Queue, high, medium, low, blocked_queue, zombie_queue, stopped_queue, Scheduler,
}
use pennos.Sched.Queue.{is_queued}
use pennos.Sched.Select.{k_get_process_by_pid}

is_queued-of :
    (s : Scheduler) (pid : ℕ) (q : Queue) → has pid (s.queue q) ≡ true → is_queued s pid ≡ true
is_queued-of s pid high h = ground arith
is_queued-of s pid medium h = ground arith
is_queued-of s pid low h = ground arith
is_queued-of s pid blocked_queue h = ground arith
is_queued-of s pid zombie_queue h = ground arith
is_queued-of s pid stopped_queue h = ground arith

pub k_get_process_by_pid-queued :
    (s : Scheduler) (pid : ℕ) (q : Queue)
    → has pid (s.queue q) ≡ true
    → k_get_process_by_pid s pid ≡ some pid
unfolding k_get_process_by_pid
k_get_process_by_pid-queued s pid q h = ground (arith, is_queued-of s pid q h)

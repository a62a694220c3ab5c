-- ===== src/Sched/Sys/Waitpid.antt =====
-- src/scheduler/sys.c: what `s_waitpid` tells its caller of a child that has ended.
use pennos.Base.{ℕ, ◌≡◌, ◌≢◌, refl, true, some, has, pos}
use pennos.Base.Returns
use pennos.Base.Returns.{Returns, returns}
use pennos.Sched.State.{zombied, zombie_queue, Scheduler}
use pennos.Sched.Queue.{erase}
use pennos.Sched.Queue.Invariant.{Placed, PlacedBut}
use pennos.Sched.Wait.{returned, w_exited}
use pennos.Sched.Wait.Reap.{k_waitpid-reaps}
use pennos.Sched.Sys.{s_waitpid}

-- With `nohang`, `s_waitpid` for a zombie child returns 0, not the child's pid, with W_EXITED; the child
-- is in no queue any more, nor in its parent's list.
-- Before the call all processes must be in their home queues. The caller must be current, the
-- parent of the child, and another process.
pub s_waitpid-reaps :
    (s : Scheduler) (parent c : ℕ)
    → Placed s
    → s.current_process ≡ some parent
    → (s.pcb c).ppid ≡ parent
    → (s.pcb c).state ≡ zombied
    → has c (s.queue zombie_queue) ≡ true
    → c ≢ parent
    → Returns
        (λ r t.
          (r ≡ returned (pos 0) (some w_exited))
          × PlacedBut c t
          × ((t.pcb parent).children ≡ erase c (s.pcb parent).children))
        (s_waitpid (pos c) true s)
unfolding s_waitpid
s_waitpid-reaps s parent c v is_parent is_child is_zombie here other =
    Returns.bind (k_waitpid-reaps s parent c true v is_parent is_child is_zombie here other)
      λ r t (is, away, erased). rw is (returns (refl, away, erased))

-- ===== src/Calls/Inherit.antt =====
-- src/scheduler/sys.c and fat_syscalls.c: `s_spawn`, and `s_close` by the new process.
use pennos.Base.{
  ℕ, ◌+◌, ◌≤◌, ◌<◌, ◌≡◌, ◌≢◌, refl, ap, sym, subst, ◌∙◌, true, false, some, arith, ◌==◌, ℤ, pos,
  negsuc,
}
use pennos.Base.Run.{pure, ◌>>=◌, ◌>>◌}
use pennos.Base.Returns
use pennos.Base.Returns.{Returns, returns, outcome}
use pennos.Fat.State.{Kernel, DirEntry}
use pennos.Fat.Disk.{name0}
use pennos.Fat.Open.{k_close}
use pennos.Fat.Open.Close.{IsClosable, k_close-last}
use pennos.Sched.State.{process_fd_table_size, Scheduler}
use pennos.Sched.Queue.Invariant.{Placed}
use pennos.Sched.Create.Fresh.{Numbered, all_granted}
use pennos.Sched.Spawn.{s_spawn, s_spawn-inherits}
use pennos.Calls.{System, Cmd, on_processes, s_close}
use pennos.Calls.Lift.{with_processes-Returns}
use pennos.Calls.Open.{s_close-used}
use pennos.Calls.Share.{switched, run_as}

-- The new process runs and closes a descriptor.
close_as : ℤ → ℕ → Cmd ℤ
close_as (negsuc e) i = pure (negsuc e)
close_as (pos pid) i = do run_as pid; s_close (pos i)

pub spawn_and_close : (fd0 fd1 priority i : ℕ) → Cmd ℤ
spawn_and_close fd0 fd1 priority i = do
  pid ← on_processes (s_spawn all_granted (pos fd0) (pos fd1) priority)
  close_as pid i

module _ (pid parent i fd : ℕ) (e : DirEntry) (k : Kernel) where
  child_closes :
      (p : Scheduler)
      → pid ≢ parent
      → i < process_fd_table_size
      → ((p.pcb pid).fd_table i).in_use ≡ true
      → ((p.pcb pid).fd_table i).global_fd ≡ fd
      → IsClosable k fd
      → (k.table fd).ref_count ≡ 1
      → (k.table fd).ptr_to_dir_entry ≡ some e
      → name0 e ≢ 2
      → Returns
          (λ r t.
            (r ≡ pos 0)
            × ((t.files.table fd).ref_count ≡ 0)
            × ((t.processes.pcb parent).fd_table i ≡ (p.pcb parent).fd_table i))
          (close_as (pos pid) i (record { files = k; processes = p }))
  unfolding close_as run_as
  child_closes p apart inside used same closable last copy kept =
      let (r, g, closed, (is, zero, _, _, _, _)) = outcome (k_close-last closable last copy kept) in
      let slot = (p.pcb pid).fd_table i in
      let s : System = record { files = k; processes = switched p pid } in
      let away : (pid == parent) ≡ false = ground arith in
      rw
        (s_close-used s pid i slot g r refl refl inside used
          (ap (λ n. k_close (pos n) k) same ∙ closed))
        (returns (refl, zero, rw away refl))

module _ (s : System) (parent fd0 fd1 priority i : ℕ) {e : DirEntry} where
  -- A process that closes a file which it has inherited closes it for its parent. After `s_spawn` and
  -- `s_close` of an inherited descriptor other than 0 and 1 by the new process, 0 is returned and the
  -- global descriptor is free, if it had one reference, while the parent's entry is as before, in use.
  -- `s_spawn` has every allocation granted and a valid priority, and `fd0` and `fd1` are in use. The
  -- file is open and not marked as deleted. Before the call all processes must be in their home queues,
  -- and their pids and the parent's given out.
  pub s_spawn-s_close :
      let p = s.processes in
      let slot = (p.pcb parent).fd_table i in
      Placed p
      → Numbered p
      → p.current_process ≡ some parent
      → parent ≤ p.process_count
      → priority ≤ 2
      → fd0 < process_fd_table_size
      → fd1 < process_fd_table_size
      → ((p.pcb parent).fd_table fd0).in_use ≡ true
      → ((p.pcb parent).fd_table fd1).in_use ≡ true
      → 2 ≤ i
      → i < process_fd_table_size
      → slot.in_use ≡ true
      → IsClosable s.files slot.global_fd
      → (s.files.table slot.global_fd).ref_count ≡ 1
      → (s.files.table slot.global_fd).ptr_to_dir_entry ≡ some e
      → name0 e ≢ 2
      → Returns
          (λ r t.
            (r ≡ pos 0)
            × ((t.files.table slot.global_fd).ref_count ≡ 0)
            × ((t.processes.pcb parent).fd_table i ≡ slot))
          (spawn_and_close fd0 fd1 priority i s)
  unfolding spawn_and_close
  s_spawn-s_close v n is_current old in_range lt0 lt1 used0 used1 ge lt used closable last copy
        kept =
      let slot = (s.processes.pcb parent).fd_table i in
      let pid = s.processes.process_count + 1 in
      Returns.bind
        (with_processes-Returns s.files (
          s_spawn-inherits s.processes parent fd0 fd1 priority v n is_current old in_range lt0 lt1
            used0 used1))
        λ r t ((is_pid, _, table, others, _, _), files).
          let mine : (t.processes.pcb pid).fd_table i ≡ slot = table i ∙ ground arith in
          let theirs : (t.processes.pcb parent).fd_table i ≡ slot =
            ap (λ f. f i) (others parent (λ c. omega arith)) in
          let done =
            child_closes pid parent i slot.global_fd e s.files t.processes (λ c. omega arith) lt
              (ap (λ x. x.in_use) mine ∙ used) (ap (λ x. x.global_fd) mine) closable last copy
              kept in
          rw is_pid (
            Returns.mono
              (subst
                (λ k.
                  Returns
                    (λ r u.
                      (r ≡ pos 0)
                      × ((u.files.table slot.global_fd).ref_count ≡ 0)
                      × ((u.processes.pcb parent).fd_table i ≡ (t.processes.pcb parent).fd_table i))
                    (close_as (pos pid) i (record { files = k; processes = t.processes })))
                (sym files) done)
              λ r' u (zero, closed, same). (zero, closed, same ∙ theirs))

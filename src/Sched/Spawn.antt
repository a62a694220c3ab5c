-- ===== src/Sched/Spawn.antt =====
-- src/scheduler/sys.c: `s_spawn`.
use pennos.Base.{
  update, ℕ, ◌+◌, ◌≤◌, ◌<◌, ◌≡◌, ◌≢◌, refl, ap, ◌∙◌, Bool, true, false, ◌||◌, not, Option, none,
  some, arith, leb, ◌==◌, has, ℤ, pos, negsuc, neg, if◌then◌else◌,
}
use pennos.Base.Returns
use pennos.Base.Returns.{Returns, returns}
use pennos.Sched.State.{
  process_fd_table_size, FdSlot, Pcb, Scheduler, Cmd, ok, pure, ◌>>=◌, ◌>>◌, get, deref, set_pcb,
  write_pcb, ready_queue,
}
use pennos.Sched.Queue.Invariant.{Placed, Placed-set_pcb}
use pennos.Sched.Select.{k_get_process_by_pid}
use pennos.Sched.Select.Find.{k_get_process_by_pid-queued}
use pennos.Sched.Create.{Allocations, k_proc_create}
use pennos.Sched.Create.Fresh.{Numbered, all_granted}
use pennos.Sched.Create.Table.{k_proc_create-table}
use pennos.Sched.Sys.{fail}

-- `fd < 0 || fd >= PROCESS_FD_TABLE_SIZE`.
abbrev pub bad_fd : ℤ → Bool
bad_fd (negsuc _) = true
bad_fd (pos fd) = leb process_fd_table_size fd

abbrev pub at_fd : (ℕ → FdSlot) → ℤ → FdSlot
at_fd table (pos fd) = table fd
at_fd table (negsuc _) = table 0

-- `k_get_process_by_pid(pid)->process_fd_table[fd] = slot`.
unfoldable pub put_slot : ℕ → ℕ → FdSlot → Cmd (Unit {0})
put_slot pid fd slot = do
  s ← get
  p ← deref (k_get_process_by_pid s pid)
  write_pcb p (record (s.pcb p) { fd_table = update (s.pcb p).fd_table fd slot })

-- The entries for standard input and output of the new process; if they are refused, the process has
-- been created all the same.
unfoldable pub redirect : (parent new_pid : ℕ) → (fd0 fd1 : ℤ) → Cmd ℤ
redirect parent new_pid fd0 fd1 = if bad_fd fd0 || bad_fd fd1 then fail (neg 10) else (do
  s ← get
  let stdin_fd_entry = at_fd (s.pcb parent).fd_table fd0
  let stdout_fd_entry = at_fd (s.pcb parent).fd_table fd1
  if not stdin_fd_entry.in_use || not stdout_fd_entry.in_use then fail (neg 10) else (do
    put_slot new_pid 0 stdin_fd_entry
    put_slot new_pid 1 stdout_fd_entry
    pure (pos new_pid)))

unfoldable pub spawn_child : Allocations → Option ℕ → (fd0 fd1 : ℤ) → (priority : ℕ) → Cmd ℤ
spawn_child a parent fd0 fd1 priority = do
  new_pid ← k_proc_create a parent priority
  elim new_pid [
    | negsuc e ↦ fail (negsuc e)
    | pos pid ↦ elim parent [ none ↦ pure (pos pid) | some p ↦ redirect p pid fd0 fd1 ]
  ]

unfoldable pub s_spawn : Allocations → (fd0 fd1 : ℤ) → (priority : ℕ) → Cmd ℤ
s_spawn a fd0 fd1 priority = do s ← get; spawn_child a s.current_process fd0 fd1 priority

-- A table with the first two entries replaced.
abbrev pub redirected : (ℕ → FdSlot) → FdSlot → FdSlot → ℕ → FdSlot
redirected table stdin stdout i = if i == 0 then stdin else if i == 1 then stdout else table i

module _ (t : Scheduler) (pid : ℕ) (priority : ℕ) where
  put_slot-ok :
      (fd : ℕ) (slot : FdSlot)
      → has pid (t.queue (ready_queue priority)) ≡ true
      → put_slot pid fd slot t
        ≡ ok tt
            (set_pcb t pid (record (t.pcb pid) { fd_table = update (t.pcb pid).fd_table fd slot }))
  unfolding put_slot write_pcb
  put_slot-ok fd slot here = rw (k_get_process_by_pid-queued t pid (ready_queue priority) here) refl

module _ (parent pid fd0 fd1 : ℕ) (priority : ℕ) where
  redirect-table :
      (t : Scheduler)
      → Placed t
      → has pid (t.queue (ready_queue priority)) ≡ true
      → parent ≢ pid
      → fd0 < process_fd_table_size
      → fd1 < process_fd_table_size
      → ((t.pcb parent).fd_table fd0).in_use ≡ true
      → ((t.pcb parent).fd_table fd1).in_use ≡ true
      → Returns
          (λ r u.
            (r ≡ pos pid)
            × Placed u
            × ((i : ℕ)
                → (u.pcb pid).fd_table i
                  ≡ redirected
                      (t.pcb pid).fd_table
                      ((t.pcb parent).fd_table fd0)
                      ((t.pcb parent).fd_table fd1)
                      i)
            × ((p : ℕ) → p ≢ pid → u.pcb p ≡ t.pcb p)
            × (u.current_process ≡ t.current_process)
            × (has pid (u.queue (ready_queue priority)) ≡ true))
          (redirect parent pid (pos fd0) (pos fd1) t)
  unfolding redirect
  redirect-table t v here apart lt0 lt1 used0 used1 =
      let in0 : leb process_fd_table_size fd0 ≡ false = ground arith in
      let in1 : leb process_fd_table_size fd1 ≡ false = ground arith in
      let stdin = (t.pcb parent).fd_table fd0 in
      let stdout = (t.pcb parent).fd_table fd1 in
      let both : (not stdin.in_use || not stdout.in_use) ≡ false = ground (arith, used0, used1) in
      let p1 : Pcb = record (t.pcb pid) { fd_table = update (t.pcb pid).fd_table 0 stdin } in
      let t1 = set_pcb t pid p1 in
      let p2 : Pcb = record (t1.pcb pid) { fd_table = update (t1.pcb pid).fd_table 1 stdout } in
      let u = set_pcb t1 pid p2 in
      let v1 : Placed t1 = Placed-set_pcb pid p1 v refl in
      let run : redirect parent pid (pos fd0) (pos fd1) t ≡ ok (pos pid) u =
        rw (in0, in1)
          (rw both (
            rw (put_slot-ok t pid priority 0 stdin here, put_slot-ok t1 pid priority 1 stdout here)
              refl)) in
      rw run (
        returns (
          refl,
          Placed-set_pcb pid p2 v1 refl,
          λ i. let self : (pid == pid) ≡ true = ground arith in rw self (ground arith),
          λ p ne. let away : (pid == p) ≡ false = ground arith in rw away refl,
          refl,
          here,
        ))

module _ (s : Scheduler) (parent fd0 fd1 priority : ℕ) where
  -- `s_spawn` with every allocation granted, by a process whose descriptors `fd0` and `fd1` are in use,
  -- returns the next pid. The new process is in its ready queue, with the entries `fd0` and `fd1` as
  -- standard input and output, and all further entries of its parent, offsets and modes included; the
  -- tables of the other processes stay, and all processes are in their home queues.
  -- The priority must be valid. Before the call all processes must be in their home queues, and their
  -- pids and the parent's given out.
  pub s_spawn-inherits :
      Placed s
      → Numbered s
      → s.current_process ≡ some parent
      → parent ≤ s.process_count
      → priority ≤ 2
      → fd0 < process_fd_table_size
      → fd1 < process_fd_table_size
      → ((s.pcb parent).fd_table fd0).in_use ≡ true
      → ((s.pcb parent).fd_table fd1).in_use ≡ true
      → let pid = s.process_count + 1 in
        Returns
          (λ r u.
            (r ≡ pos pid)
            × Placed u
            × ((i : ℕ)
                → (u.pcb pid).fd_table i
                  ≡ redirected
                      (s.pcb parent).fd_table
                      ((s.pcb parent).fd_table fd0)
                      ((s.pcb parent).fd_table fd1)
                      i)
            × ((p : ℕ) → p ≢ pid → (u.pcb p).fd_table ≡ (s.pcb p).fd_table)
            × (u.current_process ≡ some parent)
            × (has pid (u.queue (ready_queue priority)) ≡ true))
          (s_spawn all_granted (pos fd0) (pos fd1) priority s)
  unfolding s_spawn spawn_child
  s_spawn-inherits v n is_current old in_range lt0 lt1 used0 used1 =
      let pid = s.process_count + 1 in
      let apart : parent ≢ pid = λ e. omega arith in
      let run : s_spawn all_granted (pos fd0) (pos fd1) priority s
          ≡ spawn_child all_granted (some parent) (pos fd0) (pos fd1) priority s =
        ap (λ c. spawn_child all_granted c (pos fd0) (pos fd1) priority s) is_current in
      rw run (
        Returns.bind (k_proc_create-table s parent priority v n in_range)
          λ r t (is_pid, placed, here, child, others, current).
            let mine : (t.pcb parent).fd_table ≡ (s.pcb parent).fd_table = others parent apart in
            rw is_pid (
              Returns.mono
                (redirect-table parent pid fd0 fd1 priority t placed here apart lt0 lt1
                  (ap (λ f. (f fd0).in_use) mine ∙ used0) (ap (λ f. (f fd1).in_use) mine ∙ used1))
                λ r' u (is', placed', table, kept, current', there). (
                  is',
                  placed',
                  λ i.
                      let base = (s.pcb parent).fd_table in
                      let own = (t.pcb parent).fd_table in
                      table i
                      ∙ ap (λ f. redirected f (own fd0) (own fd1) i) child
                      ∙ ap (λ f. redirected base (f fd0) (f fd1) i) mine,
                  λ p ne. ap (λ x. x.fd_table) (kept p ne) ∙ others p ne,
                  current' ∙ current ∙ is_current,
                  there,
                )))

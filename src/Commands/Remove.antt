-- ===== src/Commands/Remove.antt =====
-- src/shell/commands.c: `rm` of one file, and the end of a command.
use pennos.Base.{
  ℕ, ◌+◌, ◌*◌, ◌≤◌, ◌<◌, ◌≡◌, ◌≢◌, refl, ap, true, List, [], ◌∷◌, none, some, has, if◌then◌else◌,
  length, ℤ, pos,
}
use pennos.Base.Run.{ok, deref}
use pennos.Base.Returns
use pennos.Base.Returns.{Returns, returns}
use pennos.Fat.State.{Kernel, DirEntry, n_entries, dir_entry_size}
use pennos.Fat.Names.{is_valid_filename}
use pennos.Fat.Chain.{chain_fuel}
use pennos.Fat.Chain.Clear.{Chain}
use pennos.Fat.Dir.{file_found, find_file_in_root_dir}
use pennos.Fat.FdTable.{find_file_in_global_fd_table}
use pennos.Fat.Disk.Whole.{Whole}
use pennos.Fat.Disk.RoundTrip.{Fits}
use pennos.Fat.Dir.Store.{Stored}
use pennos.Fat.Open.{set_name0}
use pennos.Fat.Edit.Unlink.{k_unlink-frees}
use pennos.Sched.State.{zombied, zombie_queue, Scheduler}
use pennos.Sched.Queue.Invariant.{Placed}
use pennos.Sched.Exit.Wake.{IsActive}
use pennos.Sched.Exit.Zombie.{k_proc_exit-Placed}
use pennos.Sched.Sys.{s_exit}
use pennos.Sched.Own.{s_get_errno}
use pennos.Calls.Lift.{with_files-then, with_processes-Returns}
use pennos.Calls.{System, s_unlink}
use pennos.Commands.{u_perror, exit, remove_files, rm}

-- The current process, active, that is not init.
pub record CanExit (pid : ℕ) (s : Scheduler) : Type 0 where
  pub placed : Placed s
  pub is_active : IsActive s pid
  pub is_current : s.current_process ≡ some pid
  pub init : s.init_process ≡ some 1
  pub not_init : 1 ≢ pid

-- A process that has ended with a status.
pub record Ended (pid : ℕ) (status : ℤ) (s : Scheduler) : Type 0 where
  pub placed : Placed s
  pub is_zombie : (s.pcb pid).state ≡ zombied
  pub exit_status : (s.pcb pid).exit_status ≡ status
  pub queued : has pid (s.queue zombie_queue) ≡ true

pub s_exit-Ended :
    (pid : ℕ) (status : ℤ) (s : Scheduler)
    → CanExit pid s
    → Returns (λ _ t. Ended pid status t) (s_exit status s)
unfolding s_exit
s_exit-Ended pid status s c =
    let current : deref s.current_process s ≡ ok pid s = ap (λ o. deref o s) c.is_current in
    rw current (
      Returns.bind
        (k_proc_exit-Placed s pid c.placed status 1 pid c.is_active c.init c.is_current c.not_init)
        λ r t (zero, placed, is_zombie, exit_status, queued). rw zero (
          returns (record {
            placed = placed;
            is_zombie = is_zombie;
            exit_status = exit_status;
            queued = queued;
          })))

u_perror-quiet :
    (s : System) (pid : ℕ) (name : List ℕ)
    → s.processes.current_process ≡ some pid
    → (s.processes.pcb pid).errnumber ≡ pos 0
    → u_perror name s ≡ ok tt s
unfolding u_perror s_get_errno
u_perror-quiet s pid name is_current quiet =
    let current : deref s.processes.current_process s.processes ≡ ok pid s.processes =
      ap (λ o. deref o s.processes) is_current in
    rw (current, quiet) refl

-- The last round of `rm`.
remove_files-done :
    (s : System) (pid : ℕ)
    → CanExit pid s.processes
    → (s.processes.pcb pid).errnumber ≡ pos 0
    → Returns (λ _ t. Ended pid (pos 0) t.processes × (t.files ≡ s.files)) (remove_files [] s)
unfolding remove_files exit
remove_files-done s pid c quiet =
    rw (u_perror-quiet s pid _ c.is_current quiet)
      (with_processes-Returns s.files (s_exit-Ended pid (pos 0) s.processes c))

-- A closed file of the directory, with the state after the search for it.
pub record IsClosedFile (k w : Kernel) (fname : List ℕ) (e : DirEntry) (block idx : ℕ) (xs : List ℕ)
    : Type 0 where
  pub is_mounted : k.is_mounted ≡ true
  pub valid : is_valid_filename fname ≡ true
  pub not_open : find_file_in_global_fd_table fname k ≡ ok none k
  pub found : find_file_in_root_dir fname k ≡ ok (file_found e block idx) w
  pub has_block : e.first_block ≢ 0
  pub chain : Chain (n_entries k) k.fat e.first_block xs
  pub short : length xs < chain_fuel
  pub whole : Whole k block
  pub full : length w.block_buf ≡ k.block_size
  pub fits : Fits e
  pub room : dir_entry_size * idx + dir_entry_size ≤ k.block_size

module _ (s : System) (pid : ℕ) (w : Kernel) (word fname : List ℕ) (e : DirEntry) (block idx : ℕ)
    (xs : List ℕ) where
  -- The status of the call, the disk, and the process, which the call leaves as it was.
  s_unlink-frees :
      IsClosedFile s.files w fname e block idx xs
      → CanExit pid s.processes
      → (s.processes.pcb pid).errnumber ≡ pos 0
      → Returns
          (λ r t.
            (r ≡ pos 0)
            × ((i : ℕ) → t.files.fat i ≡ (if has i xs then 0 else s.files.fat i))
            × Stored (record s.files { fat = t.files.fat }) block idx (set_name0 e 1) t.files
            × CanExit pid t.processes
            × ((t.processes.pcb pid).errnumber ≡ pos 0))
          (s_unlink fname s)
  unfolding s_unlink
  s_unlink-frees f c quiet =
      with_files-then s.processes _
        (k_unlink-frees s.files w fname e block idx f.is_mounted f.valid f.not_open f.found
          f.has_block f.chain f.short f.whole f.full f.fits f.room)
        λ r g (zero, freed, stored). rw zero (returns (refl, freed, stored, c, quiet))

  -- `rm` of one file that the directory has and no descriptor has open frees exactly the blocks of the
  -- file's chain and marks its entry as deleted, while all else on the disk stays; the process is a
  -- zombie then, with status 0, in the zombie queue, and all processes are in their home queues.
  -- The file system is mounted, the file's name valid, its chain well formed and of at most 65536 blocks, and at
  -- least one; its entry fits and is read and written whole. The process is current, active, not
  -- init, which is process 1, and its error number is 0. Before the call all processes must be in
  -- their home queues.
  pub rm-removes :
      IsClosedFile s.files w fname e block idx xs
      → CanExit pid s.processes
      → (s.processes.pcb pid).errnumber ≡ pos 0
      → Returns
          (λ _ t.
            ((i : ℕ) → t.files.fat i ≡ (if has i xs then 0 else s.files.fat i))
            × Stored (record s.files { fat = t.files.fat }) block idx (set_name0 e 1) t.files
            × Ended pid (pos 0) t.processes)
          (rm (word ∷ fname ∷ []) s)
  unfolding rm remove_files
  rm-removes f c quiet =
      Returns.bind (s_unlink-frees f c quiet) λ r t (zero, freed, stored, able, still). rw zero (
        Returns.mono (remove_files-done t pid able still)
          λ _ u (ended, same). rw same (freed, stored, ended))

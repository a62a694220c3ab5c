-- ===== src/Tests/Calls.antt =====
-- src/scheduler/fat_syscalls.c and sys.c: the system calls on files, on the example disk and processes.
use pennos.Base.{
  has, ℕ, ◌≡◌, ◌≢◌, refl, true, false, [], ◌∷◌, some, arith, ◌==◌, if◌then◌else◌, pos,
}
use pennos.Base.Returns.{Returns}
use pennos.Fat.State.{f_read}
use pennos.Fat.FdTable.{is_special_fd}
use pennos.Fat.Disk.{name0}
use pennos.Fat.Open.{is_refused}
use pennos.Fat.Write.{may_write}
use pennos.Sched.State.{medium, FdSlot, Scheduler}
use pennos.Sched.Queue.Invariant.{Placed}
use pennos.Sched.Create.Fresh.{Numbered, all_granted}
use pennos.Sched.Spawn.{redirected, s_spawn, s_spawn-inherits}
use pennos.Calls.{System, empty_spot_from, find_empty_spot_in_process_fd_table}
use pennos.Calls.Reopen.{open_and_close, s_open-s_close}
use pennos.Calls.Read.{Holds}
use pennos.Calls.Share.{switched, twin, write_then_read, s_write-s_read}
use pennos.Calls.Inherit.{spawn_and_close, s_spawn-s_close}
use pennos.Tests.Disk.{disk, file_entry}
use pennos.Tests.Files.{disk-Small, disk-Seekable, disk-IsOpen}
use pennos.Tests.Processes.{example, example_pcb, example-Placed, example-Numbered}

-- The file of the disk, open at offset 2.
abbrev writer : FdSlot
writer = record { global_fd = 3; offset = 2; mode = 1; in_use = true }

abbrev std_in : FdSlot
std_in = record { global_fd = 0; offset = 0; mode = 0; in_use = true }

abbrev unused : FdSlot
unused = record { global_fd = 0; offset = 0; mode = 0; in_use = false }

abbrev files_table : ℕ → FdSlot
files_table i =
    if i == 3 then writer else if i == 4 then twin writer 0 else if i == 1 then std_in else unused

abbrev processes : Scheduler
processes = record example { pcb = λ p. record (example_pcb p) { fd_table = files_table } }

abbrev system : System
system = record { files = disk; processes = processes }

system-Placed : Placed processes
system-Placed = record { homes = example-Placed.homes; distinct = example-Placed.distinct }

system-Numbered : Numbered processes
system-Numbered = record { given = example-Numbered.given }

-- The shell, process 2, has the file open in entry 3.
system-Holds : Holds processes 2 3 writer
system-Holds = record {
  is_current = refl;
  inside = omega arith;
  entry = refl;
  used = refl;
  not_std = omega arith;
  in_table = omega arith;
  small_offset = omega arith;
}

-- Process 3 has it open in entry 4.
reader-Holds : Holds (switched processes 3) 3 4 (twin writer 0)
reader-Holds = record {
  is_current = refl;
  inside = omega arith;
  entry = refl;
  used = refl;
  not_std = omega arith;
  in_table = omega arith;
  small_offset = omega arith;
}

s_write-s_read_example :
    Returns
      (λ r _. r ≡ record { status = pos 2; bytes = 7 ∷ 8 ∷ [] })
      (write_then_read 3 (7 ∷ 8 ∷ 9 ∷ []) 2 3 4 system)
unfolding may_write
s_write-s_read_example =
    s_write-s_read system 2 3 3 4 writer 0 system-Holds reader-Holds refl 2 2 200 file_entry
      (7 ∷ 8 ∷ 9 ∷ []) disk-Seekable disk-Small (omega arith) (omega arith) (omega arith)
      (λ e. ground arith) (omega arith) refl (λ e. ground arith) refl

s_open-s_close_example :
    Returns
      (λ r t.
        (r ≡ pos 0)
        × ((i : ℕ) → (t.files.table i).ref_count ≡ (disk.table i).ref_count)
        × ((p i : ℕ)
            → (files_table i).in_use ≡ true
            → (t.processes.pcb p).fd_table i ≡ files_table i)
        × (((t.processes.pcb 2).fd_table 0).in_use ≡ false))
      (open_and_close (97 ∷ []) f_read system)
unfolding is_refused find_empty_spot_in_process_fd_table empty_spot_from
s_open-s_close_example =
    s_open-s_close system 2 refl disk-IsOpen refl (omega arith) (omega arith) (omega arith)
      (λ e. ground arith)

s_spawn-inherits_example :
    Returns
      (λ r u.
        (r ≡ pos 7)
        × Placed u
        × ((i : ℕ) → (u.pcb 7).fd_table i ≡ redirected files_table std_in writer i)
        × ((p : ℕ) → p ≢ 7 → (u.pcb p).fd_table ≡ files_table)
        × (u.current_process ≡ some 2)
        × (has 7 (u.queue medium) ≡ true))
      (s_spawn all_granted (pos 1) (pos 3) 1 processes)
s_spawn-inherits_example =
    s_spawn-inherits processes 2 1 3 1 system-Placed system-Numbered refl (omega arith)
      (omega arith) (omega arith) (omega arith) refl refl

s_spawn-s_close_example :
    Returns
      (λ r t.
        (r ≡ pos 0) × ((t.files.table 3).ref_count ≡ 0) × ((t.processes.pcb 2).fd_table 3 ≡ writer))
      (spawn_and_close 1 1 1 3 system)
unfolding is_special_fd name0
s_spawn-s_close_example =
    s_spawn-s_close system 2 1 1 1 3 {e = file_entry} system-Placed system-Numbered refl
      (omega arith) (omega arith) (omega arith) (omega arith) refl refl (omega arith) (omega arith)
      refl (record { is_mounted = refl; in_table = omega arith; not_special = refl }) refl refl
      (λ e. ground arith)

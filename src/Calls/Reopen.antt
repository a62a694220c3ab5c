-- ===== src/Calls/Reopen.antt =====
-- src/scheduler/fat_syscalls.c: `s_open` and `s_close` in a row.
use pennos.Base.{
  ap, ◌&&◌, if◌then◌else◌, update, ℕ, ◌+◌, ◌-◌, ◌%◌, ◌^◌, ◌≤◌, ◌<◌, ◌≡◌, ◌≢◌, refl, ◌∙◌, true,
  false, List, some, arith, ◌==◌, Bool-cases, ℤ, pos, inl, inr,
}
use pennos.Base.Run.{ok, ◌>>=◌}
use pennos.Base.Returns.{Returns, returns, outcome}
use pennos.Fat.State.{Kernel, DirEntry, f_read, global_fd_table_size}
use pennos.Fat.Open.Lock.{IsOpen, k_open-reader}
use pennos.Fat.Open.Close.{IsClosable, k_close-shared}
use pennos.Fat.FdTable.{is_special_fd}
use pennos.Fat.Open.{k_open, k_close, is_refused}
use pennos.Sched.State.{process_fd_table_size, FdSlot}
use pennos.Calls.{
  System, Cmd, find_empty_spot_in_process_fd_table, not_found, opened_slot, with_slot, s_open,
  s_close,
}
use pennos.Calls.Slots.{find_empty_spot-IsLeastUnused}
use pennos.Calls.Open.{with_kernel, s_open-cases, s_close-used}

-- The tables after one entry has changed.
pub with_slot-fd_table :
    (s : System) (q j p i : ℕ) (slot : FdSlot)
    → ((with_slot s q j slot).processes.pcb p).fd_table i
      ≡ (if (q == p) && (j == i) then slot else (s.processes.pcb p).fd_table i)
with_slot-fd_table s q j p i slot = elim (Bool-cases (q == p)) [
  | inr other ↦ rw other refl
  | inl same ↦ let is : q ≡ p = ground arith in rw (same, is) refl
]

spot_lem :
    (s : System) (current : ℕ)
    → let table = (s.processes.pcb current).fd_table in
      let spot = find_empty_spot_in_process_fd_table table in
      spot ≢ not_found → (spot < process_fd_table_size) × ((table spot).in_use ≡ false)
spot_lem s current room = elim (find_empty_spot-IsLeastUnused (s.processes.pcb current).fd_table) [
  | inl (full, _) ↦ absurd (room full)
  | inr (_, inside, unused, _) ↦ (inside, unused)
]

pub open_and_close : List ℕ → ℕ → Cmd ℤ
open_and_close fname mode = do fd ← s_open fname mode; s_close fd

module _ (s : System) (current : ℕ) (is_current : s.processes.current_process ≡ some current) where
  abbrev spot : ℕ
  spot = find_empty_spot_in_process_fd_table (s.processes.pcb current).fd_table

  open_and_close-after :
      (fname : List ℕ) (fd : ℕ) (g : Kernel)
      → k_open fname f_read s.files ≡ ok (pos fd) g
      → g.is_mounted ≡ true
      → (g.table fd).ref_count ≡ (s.files.table fd).ref_count + 1
      → ((i : ℕ) → i ≢ fd → g.table i ≡ s.files.table i)
      → 3 ≤ fd
      → fd < global_fd_table_size
      → 1 ≤ (s.files.table fd).ref_count
      → spot ≢ not_found
      → Returns
          (λ r t.
            (r ≡ pos 0)
            × ((i : ℕ) → (t.files.table i).ref_count ≡ (s.files.table i).ref_count)
            × ((p i : ℕ)
                → ((s.processes.pcb p).fd_table i).in_use ≡ true
                → (t.processes.pcb p).fd_table i ≡ (s.processes.pcb p).fd_table i)
            × (((t.processes.pcb current).fd_table spot).in_use ≡ false))
          (open_and_close fname f_read s)
  unfolding open_and_close is_special_fd
  open_and_close-after fname fd g opened mounted more others not_std in_table counted room =
      let slot = opened_slot fd f_read in
      let (inside, unused) = spot_lem s current room in
      let s1 = with_slot (with_kernel s g) current spot slot in
      let run : s_open fname f_read s ≡ ok (pos spot) s1 =
        (s_open-cases s current is_current fname f_read g).1 fd opened room in
      let entry : (s1.processes.pcb current).fd_table spot ≡ slot = ground arith in
      let narrow : fd % 2 ^ 16 ≡ fd = omega arith in
      let closable : IsClosable g fd = record {
        is_mounted = mounted;
        in_table = in_table;
        not_special = ground arith;
      } in
      let closed = k_close-shared closable (omega (arith, more)) in
      let g2 : Kernel = record g {
        table = update g.table fd (record (g.table fd) { ref_count = (g.table fd).ref_count - 1 });
      } in
      let close : s_close (pos spot) s1
          ≡ ok (pos 0)
              (with_slot (with_kernel s1 g2) current spot (record slot { in_use = false })) =
        s_close-used s1 current spot slot g2 (pos 0) is_current entry inside refl
          (ap (λ n. k_close (pos n) g) narrow ∙ closed) in
      rw (run, close)
        (returns (
          refl,
          λ i. ground (arith, more, others i),
          λ p i used.
              let kept : ((current == p) && (spot == i)) ≡ false = ground (arith, unused, used) in
              rw
                (
                  with_slot-fd_table (with_kernel s1 g2) current spot p i
                      (record slot { in_use = false }),
                  kept,
                  with_slot-fd_table (with_kernel s g) current spot p i slot,
                  kept,
                )
                refl,
          ground arith,
        ))

  -- Opening an open file for reading and closing it again returns 0 and leaves the reference counts of
  -- all global descriptors, and all descriptors of all processes that are in use, as they were. The
  -- file must be readable and be open already, in a descriptor from 3 to 4095, and the current process
  -- have an unused entry.
  pub s_open-s_close :
      {fname : List ℕ} {fd : ℕ} {e : DirEntry}
      → IsOpen s.files fname fd e
      → is_refused e.perm f_read ≡ false
      → 3 ≤ fd
      → fd < global_fd_table_size
      → 1 ≤ (s.files.table fd).ref_count
      → spot ≢ not_found
      → Returns
          (λ r t.
            (r ≡ pos 0)
            × ((i : ℕ) → (t.files.table i).ref_count ≡ (s.files.table i).ref_count)
            × ((p i : ℕ)
                → ((s.processes.pcb p).fd_table i).in_use ≡ true
                → (t.processes.pcb p).fd_table i ≡ (s.processes.pcb p).fd_table i)
            × (((t.processes.pcb current).fd_table spot).in_use ≡ false))
          (open_and_close fname f_read s)
  s_open-s_close {fname} {fd} o allowed not_std in_table counted room =
      let (r, g, opened, (is, _, more, _, _, others, same)) = outcome (k_open-reader o allowed) in
      open_and_close-after fname fd g (opened ∙ ap (λ x. ok x g) is)
        (ap (λ x. x.is_mounted) same ∙ o.is_mounted) more others not_std in_table counted room

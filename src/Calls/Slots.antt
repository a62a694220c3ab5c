-- ===== src/Calls/Slots.antt =====
-- src/scheduler/fat_syscalls.c: the search for an unused entry of a process's descriptor table, and the
-- entry of a descriptor.
use pennos.Base.{
  ℕ, zero, suc, ◌+◌, ◌≤◌, ◌<◌, ◌≡◌, refl, ◌⊎◌, inl, inr, true, false, arith, ◌==◌, Bool-cases, none,
  some, pos,
}
use pennos.Base.Run.{ok}
use pennos.Sched.State.{process_fd_table_size, FdSlot}
use pennos.Calls.{
  System, empty_spot_from, find_empty_spot_in_process_fd_table, find_slot, current_process,
  not_found,
}

-- `r` is the least index from `i` up to `top` that is not in use, or the sentinel if all are.
abbrev pub IsLeastUnused : (ℕ → FdSlot) → (i top r : ℕ) → Type 0
IsLeastUnused table i top r =
    ((r ≡ not_found) × ((m : ℕ) → i ≤ m → m < top → (table m).in_use ≡ true))
    ⊎ ((i ≤ r)
        × (r < top)
        × ((table r).in_use ≡ false)
        × ((m : ℕ) → i ≤ m → m < r → (table m).in_use ≡ true))

module _ (table : ℕ → FdSlot) where
  in_use_from :
      (i top : ℕ)
      → (table i).in_use ≡ true
      → ((m : ℕ) → i + 1 ≤ m → m < top → (table m).in_use ≡ true)
      → (m : ℕ) → i ≤ m
      → m < top
      → (table m).in_use ≡ true
  in_use_from i top here later m le lt = elim (Bool-cases (i == m)) [
    | inl e ↦ let e' : i ≡ m = ground arith in rw (← e') here
    | inr ne ↦ later m (ground arith) lt
  ]

  empty_spot_from-IsLeastUnused :
      (rounds i : ℕ) → IsLeastUnused table i (i + rounds) (empty_spot_from table rounds i)
  unfolding empty_spot_from
  empty_spot_from-IsLeastUnused zero i = inl (refl, λ m le lt. absurd (omega arith))
  empty_spot_from-IsLeastUnused (suc rounds) i = elim (Bool-cases (table i).in_use) [
    | inr free ↦ rw free (inr (omega arith, omega arith, free, λ m le lt. absurd (omega arith)))
    | inl used ↦ rw used (elim (empty_spot_from-IsLeastUnused rounds (i + 1)) [
      | inl (e, all) ↦
          inl (e, in_use_from i (i + suc rounds) used (λ m le lt. all m le (omega arith)))
      | inr (le, lt, is, before) ↦ inr (omega arith, omega arith, is, in_use_from i _ used before)
    ])
  ]

  -- `find_empty_spot_in_process_fd_table` gives the least index below 128 that is not in use, or the
  -- sentinel 0xFFFF if all are in use.
  pub find_empty_spot-IsLeastUnused :
      IsLeastUnused table 0 process_fd_table_size (find_empty_spot_in_process_fd_table table)
  unfolding find_empty_spot_in_process_fd_table
  find_empty_spot-IsLeastUnused = empty_spot_from-IsLeastUnused process_fd_table_size 0

module _ (s : System) (current i : ℕ)
    (is_current : s.processes.current_process ≡ some current) where
  pub current_process-ok : current_process s ≡ ok current s
  unfolding current_process
  current_process-ok = rw is_current refl

  pub find_slot-some :
      i < process_fd_table_size
      → ((s.processes.pcb current).fd_table i).in_use ≡ true
      → find_slot (pos i) s ≡ ok (some (current, i, (s.processes.pcb current).fd_table i)) s
  unfolding find_slot
  find_slot-some inside used = rw current_process-ok (ground arith)

  pub find_slot-none :
      (process_fd_table_size ≤ i) ⊎ (((s.processes.pcb current).fd_table i).in_use ≡ false)
      → find_slot (pos i) s ≡ ok none s
  unfolding find_slot
  find_slot-none h = rw current_process-ok (ground arith)

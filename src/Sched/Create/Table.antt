-- ===== src/Sched/Create/Table.antt =====
-- src/scheduler/kernel.c: the descriptor table of a new process.
use pennos.Base.{
  ℕ, ◌+◌, ◌≤◌, ◌≡◌, ◌≢◌, refl, ap, ◌∙◌, true, false, some, arith, ltb, ◌==◌, has, pos, Bool-cases,
  inl, inr,
}
use pennos.Base.Returns
use pennos.Base.Returns.{Returns, returns}
use pennos.Sched.State.{Scheduler, write_pcb, ready_queue}
use pennos.Sched.Queue.Invariant.{Placed, PlacedBut, push_tail-ok}
use pennos.Sched.Move.{k_add_to_ready_queue}
use pennos.Sched.Move.Placed.{k_add_to_ready_queue-Moved}
use pennos.Sched.Create.{new_pcb, k_proc_create}
use pennos.Sched.Create.Fresh.{
  Numbered, all_granted, entered, recorded, entered_self, entered-PlacedBut, k_proc_create-entered,
}

k_add_to_ready_queue-current :
    (u : Scheduler) (pid : ℕ)
    → PlacedBut pid u
    → (u.pcb pid).priority ≤ 2
    → Returns (λ _ t. t.current_process ≡ u.current_process) (k_add_to_ready_queue pid u)
unfolding k_add_to_ready_queue write_pcb
k_add_to_ready_queue-current u pid v in_range =
    let low_enough : ltb 2 (u.pcb pid).priority ≡ false = ground arith in
    rw (low_enough, push_tail-ok u pid (ready_queue (u.pcb pid).priority) v) (returns refl)

new_pcb-fields :
    (s : Scheduler) (parent pid priority : ℕ)
    → ((new_pcb s (some parent) pid priority).priority ≡ priority)
      × ((new_pcb s (some parent) pid priority).fd_table ≡ (s.pcb parent).fd_table)
unfolding new_pcb
new_pcb-fields s parent pid priority = (refl, refl)

module _ (s : Scheduler) (parent : ℕ) (priority : ℕ) where
  entered-kept :
      (p : ℕ)
      → p ≢ s.process_count + 1
      → ((entered s (some parent) priority).pcb p).fd_table ≡ (s.pcb p).fd_table
  entered-kept p ne =
      let away : (s.process_count + 1 == p) ≡ false = ground arith in
      elim (Bool-cases (parent == p)) [
        | inl own ↦ let is : parent ≡ p = ground arith in rw (away, own, is) refl
        | inr other ↦ rw (away, other) refl
      ]

  -- The new process has its parent's table, all other tables stay, and the same process is current.
  pub k_proc_create-table :
      Placed s
      → Numbered s
      → priority ≤ 2
      → Returns
          (λ r t.
            (r ≡ pos (s.process_count + 1))
            × Placed t
            × (has (s.process_count + 1) (t.queue (ready_queue priority)) ≡ true)
            × ((t.pcb (s.process_count + 1)).fd_table ≡ (s.pcb parent).fd_table)
            × ((p : ℕ) → p ≢ s.process_count + 1 → (t.pcb p).fd_table ≡ (s.pcb p).fd_table)
            × (t.current_process ≡ s.current_process))
          (k_proc_create all_granted (some parent) priority s)
  k_proc_create-table v n in_range =
      let pid = s.process_count + 1 in
      let u = entered s (some parent) priority in
      let out = entered-PlacedBut s (some parent) priority v n in
      let self = entered_self s (some parent) priority in
      let fields = new_pcb-fields (recorded s (some parent) parent) parent pid priority in
      let is_new : (u.pcb pid).priority ≡ priority = ap (λ x. x.priority) self ∙ fields.0 in
      let low : (u.pcb pid).priority ≤ 2 = rw is_new in_range in
      rw (k_proc_create-entered s (some parent) priority refl) (
        Returns.bind
          (Returns.both (k_add_to_ready_queue-Moved u pid u out low (λ i ne. refl))
            (k_add_to_ready_queue-current u pid out low))
          λ r t ((_, moved, is), current). returns (
            refl,
            moved.placed,
            rw is_new at moved.here,
            ap (λ x. x.fd_table) is ∙ ap (λ x. x.fd_table) self ∙ fields.1,
            λ p ne. ap (λ x. x.fd_table) (moved.others p ne) ∙ entered-kept p ne,
            current,
          ))

-- ===== src/Sched/Select/Busy.antt =====
-- src/scheduler/scheduler.c: what the steps of `_run_next_process` do while every ready queue has a
-- process.
use pennos.Base.{
  ℕ, ◌+◌, ◌≡◌, refl, ◌∙◌, true, false, List, [], ◌∷◌, ◌++◌, Option, some, arith, ◌==◌,
  if◌then◌else◌, has, Bool-cases, inl, inr, minus_tenth, ◌&&◌,
}
use pennos.Base.Returns
use pennos.Base.Returns.{Returns, returns}
use pennos.Sched.State.{
  ProcessState, running, blocked, stopped, zombied, Pcb, Queue, blocked_queue, zombie_queue,
  queue_eq, ready_queue, Event, log_schedule, Scheduler, set_pcb, set_queue, write_pcb, write_log,
}
use pennos.Sched.Queue.{push_tail, rotated, rotate, head_of}
use pennos.Sched.Queue.Invariant.{PlacedBut, PlacedBut-erase, queue_eq-eq, push_tail-ok, remove-ok}
use pennos.Sched.Select.{
  is_empty, unblock_process, update_sleepers, after_quantum, make_way, pick_head,
}
use pennos.Sched.Select.Sleepers.{tick}
use pennos.Sched.Select.Quantum.{Runnable, rotate-Placed, ticked-Runnable, unblock_process-Runnable}

-- How many lines of the log say that a process of a ready queue was run.
abbrev pub tally : Queue → ℕ → ℕ
tally q priority = if queue_eq (ready_queue priority) q then 1 else 0

abbrev pub runs_of : Queue → List Event → ℕ
runs_of q [] = 0
runs_of q (log_schedule pid priority ∷ l) = tally q priority + runs_of q l
runs_of q (_ ∷ l) = runs_of q l

-- Runnable, with a process in each ready queue.
pub record Busy (s : Scheduler) : Type 0 where
  pub runnable : Runnable s
  pub ready : (i : ℕ) → is_empty (s.queue (ready_queue i)) ≡ false

-- No quantum has passed between the two states.
pub record Steady (s t : Scheduler) : Type 0 where
  pub quantum : t.quantum ≡ s.quantum
  pub runs : (q : Queue) → runs_of q t.log ≡ runs_of q s.log

Steady-trans : (s t u : Scheduler) → Steady s t → Steady t u → Steady s u
Steady-trans s t u a b = record { quantum = b.quantum ∙ a.quantum; runs = λ q. b.runs q ∙ a.runs q }

is_empty-rotated : (l : List ℕ) → is_empty (rotated l) ≡ is_empty l
is_empty-rotated [] = refl
is_empty-rotated (x ∷ []) = refl
is_empty-rotated (x ∷ y ∷ l) = refl

is_empty-append_one : (l : List ℕ) (x : ℕ) → is_empty (l ++ x ∷ []) ≡ false
is_empty-append_one [] x = refl
is_empty-append_one (y ∷ l) x = refl

rotate-Busy :
    (s : Scheduler) (q : Queue) → Busy s → Returns (λ _ t. Busy t × Steady s t) (rotate q s)
unfolding rotate
rotate-Busy s q b = returns (
  record {
    runnable = record {
      placed = rotate-Placed s q b.runnable.placed;
      threads = b.runnable.threads;
    };
    ready = λ i. elim (Bool-cases (queue_eq q (ready_queue i))) [
      | inl e ↦
          let same = queue_eq-eq q (ready_queue i) e in
          let full : is_empty (s.queue q) ≡ false = rw same (b.ready i) in
          rw e (is_empty-rotated (s.queue q) ∙ full)
      | inr e ↦ rw e (b.ready i)
    ];
  },
  record { quantum = refl; runs = λ r. refl },
)

not_blocked : (i : ℕ) → queue_eq blocked_queue (ready_queue i) ≡ false
not_blocked i = ground arith

-- A process that is pushed leaves every ready queue with a process.
push_tail-ready :
    (w : Scheduler) (x : ℕ) (q : Queue)
    → PlacedBut x w
    → ((i : ℕ) → is_empty (w.queue (ready_queue i)) ≡ false)
    → Returns
        (λ _ t. ((i : ℕ) → is_empty (t.queue (ready_queue i)) ≡ false) × Steady w t)
        (push_tail q x w)
push_tail-ready w x q v h =
    let ready : (i : ℕ)
        → is_empty ((set_queue w q (w.queue q ++ x ∷ [])).queue (ready_queue i)) ≡ false =
      λ i. elim (Bool-cases (queue_eq q (ready_queue i))) [
        | inl e ↦ rw e (is_empty-append_one (w.queue q) x)
        | inr e ↦ rw e (h i)
      ] in
    rw (push_tail-ok w x q v) (returns (ready, record { quantum = refl; runs = λ r. refl }))

unblock_process-ready :
    (s : Scheduler) (x : ℕ)
    → Busy s
    → has x (s.queue blocked_queue) ≡ true
    → Returns
        (λ _ t. ((i : ℕ) → is_empty (t.queue (ready_queue i)) ≡ false) × Steady s t)
        (unblock_process x s)
unfolding unblock_process write_pcb write_log
unblock_process-ready s x b here =
    let p : Pcb = record (s.pcb x) { state = running } in
    let out = PlacedBut-erase s x blocked_queue p b.runnable.placed here in
    rw (remove-ok s x blocked_queue here) (
      Returns.mono
        (push_tail-ready _ x _
          (record { homes = out.homes; distinct = out.distinct; away = out.away })
          λ i. rw (not_blocked i) (b.ready i))
        λ _ t (ready, steady). (ready, record { quantum = steady.quantum; runs = steady.runs }))

unblock_process-Busy :
    (s : Scheduler) (x : ℕ)
    → Busy s
    → has x (s.queue blocked_queue) ≡ true
    → Returns (λ _ t. Busy t × Steady s t) (unblock_process x s)
unblock_process-Busy s x b here =
    Returns.mono
      (Returns.both (unblock_process-Runnable s x b.runnable here)
        (unblock_process-ready s x b here))
      λ _ t (runnable, (ready, steady)). (record { runnable = runnable; ready = ready }, steady)

ticked-Busy : (s : Scheduler) (x : ℕ) → Busy s → Busy (set_pcb s x (tick (s.pcb x)))
ticked-Busy s x b = record { runnable = ticked-Runnable s x b.runnable; ready = b.ready }

pub update_sleepers-Busy :
    (l : List ℕ) (s : Scheduler)
    → Busy s
    → ((p : ℕ) → has p l ≡ true → has p (s.queue blocked_queue) ≡ true)
    → Returns (λ _ t. Busy t × Steady s t) (update_sleepers l s)
unfolding update_sleepers write_pcb
update_sleepers-Busy [] s b h = returns (b, record { quantum = refl; runs = λ q. refl })
update_sleepers-Busy (x ∷ l) s b h =
    let w : Scheduler = set_pcb s x (tick (s.pcb x)) in
    elim (Bool-cases ((s.pcb x).sleep_time == 0)) [
      | inl awake ↦ rw awake (update_sleepers-Busy l s b (λ p e. h p (ground arith)))
      | inr sleeps ↦ elim (Bool-cases (minus_tenth (s.pcb x).sleep_time == 0)) [
        | inl last ↦
            rw (sleeps, last)
              (Returns.mono (unblock_process-Busy w x (ticked-Busy s x b) (h x (ground arith)))
                λ _ t (busy, steady).
                  (busy, record { quantum = steady.quantum; runs = steady.runs }))
        | inr longer ↦
            rw (sleeps, longer)
              (Returns.mono
                (update_sleepers-Busy l w (ticked-Busy s x b) (λ p e. h p (ground arith)))
                λ _ t (busy, steady).
                  (busy, record { quantum = steady.quantum; runs = steady.runs }))
      ]
    ]

pub after_quantum-Busy :
    (q : Queue) (st : ProcessState) (s : Scheduler)
    → Busy s
    → Returns (λ _ t. Busy t × Steady s t) (after_quantum q st s)
unfolding after_quantum
after_quantum-Busy q zombied s b = returns (b, record { quantum = refl; runs = λ r. refl })
after_quantum-Busy q stopped s b = returns (b, record { quantum = refl; runs = λ r. refl })
after_quantum-Busy q running s b = rotate-Busy s q b
after_quantum-Busy q blocked s b = rotate-Busy s q b

-- The process that is picked is in the queue.
abbrev pub Picked : (s : Scheduler) (q : Queue) → Option ℕ → Scheduler → Type 0
Picked s q o t = (pid : ℕ) × (o ≡ some pid) × (has pid (t.queue q) ≡ true) × Busy t × Steady s t

head_of-has :
    (l : List ℕ) → is_empty l ≡ false → (pid : ℕ) × (head_of l ≡ some pid) × (has pid l ≡ true)
head_of-has [] h = absurd (ground arith)
head_of-has (x ∷ l) h = (x, refl, ground arith)

make_way-picks :
    (s : Scheduler) (i pid : ℕ)
    → Busy s
    → has pid (s.queue (ready_queue i)) ≡ true
    → Returns (Picked s (ready_queue i)) (make_way (ready_queue i) (some pid) s)
unfolding make_way
make_way-picks s i pid b here =
    elim (Bool-cases (pid == 1 && (is_empty (s.queue zombie_queue) && s.shell_spawned))) [
      | inl makes_way ↦ rw makes_way (
          Returns.bind (rotate-Busy s (ready_queue i) b) λ _ t (busy, steady).
            let (next, is, there) = head_of-has (t.queue (ready_queue i)) (busy.ready i) in
            returns (next, is, there, busy, steady))
      | inr stays ↦
          rw stays (returns (pid, refl, here, b, record { quantum = refl; runs = λ r. refl }))
    ]

pub pick_head-picks :
    (s : Scheduler) (i : ℕ)
    → Busy s
    → Returns (Picked s (ready_queue i)) (pick_head (ready_queue i) s)
unfolding pick_head
pick_head-picks s i b =
    let (pid, is, here) = head_of-has (s.queue (ready_queue i)) (b.ready i) in
    rw is (make_way-picks s i pid b here)

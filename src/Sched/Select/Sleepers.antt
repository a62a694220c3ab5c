-- ===== src/Sched/Select/Sleepers.antt =====
-- src/scheduler/scheduler.c: the clock of the sleeping processes.
use pennos.Base.{
  minus_tenth, minus_tenth-zero, Bool, not, ◌&&◌, ℕ, ◌≡◌, ◌≢◌, refl, ap, sym, ◌∙◌, true, false,
  List, [], ◌∷◌, ◌++◌, arith, ◌==◌, has, Bool-cases, inl, inr,
}
use pennos.Base.Returns
use pennos.Base.Returns.{Returns, returns}
use pennos.Sched.State.{running, Pcb, blocked_queue, Scheduler, set_pcb, write_pcb}
use pennos.Sched.Queue.Lists.{nodup, has-append}
use pennos.Sched.Queue.Invariant.{Placed, Placed-set_pcb}
use pennos.Sched.Select.{update_sleepers}
use pennos.Sched.Move.Placed.{unblock_process-Moved}

abbrev pub tick : Pcb → Pcb
tick p = record p { sleep_time = minus_tenth p.sleep_time }

-- Whether the sleeping time of a process comes to its end with the next walk.
abbrev pub wakes : Pcb → Bool
wakes p = not (p.sleep_time == 0) && minus_tenth p.sleep_time == 0

-- What a walk past sleepers does: those in the list have 0.1 less to sleep, nothing else
-- changes.
pub record Ticked (s : Scheduler) (l : List ℕ) (t : Scheduler) : Type 0 where
  pub nearer : (p : ℕ) → has p l ≡ true → t.pcb p ≡ tick (s.pcb p)
  pub others : (p : ℕ) → has p l ≡ false → t.pcb p ≡ s.pcb p
  pub queue : t.queue ≡ s.queue

tick-zero : (p : Pcb) → p.sleep_time ≡ 0 → p ≡ tick p
tick-zero p e =
    ap (λ n. record p { sleep_time = n }) (e ∙ sym (ap minus_tenth e ∙ minus_tenth-zero))

-- One step of the walk past a process that stays asleep or does not sleep.
update_sleepers-step :
    (x : ℕ) (l : List ℕ) (s : Scheduler)
    → wakes (s.pcb x) ≡ false
    → (w : Scheduler) × (update_sleepers (x ∷ l) s ≡ update_sleepers l w)
      × (w.queue ≡ s.queue)
      × (w.pcb x ≡ tick (s.pcb x))
      × ((p : ℕ) → p ≢ x → w.pcb p ≡ s.pcb p)
      × (Placed s → Placed w)
unfolding update_sleepers write_pcb
update_sleepers-step x l s h = elim (Bool-cases ((s.pcb x).sleep_time == 0)) [
  | inl e ↦
      let zero_time : (s.pcb x).sleep_time ≡ 0 = ground arith in
      (s, rw e refl, refl, tick-zero (s.pcb x) zero_time, λ p ne. refl, λ v. v)
  | inr e ↦ (
    set_pcb s x (tick (s.pcb x)),
    (let not_last : (minus_tenth (s.pcb x).sleep_time == 0) ≡ false = ground (arith, e, h) in
        rw (e, not_last) refl),
    refl,
    ground arith,
    λ p ne. ground arith,
    λ v. Placed-set_pcb x (tick (s.pcb x)) v refl,
  )
]

-- A walk past processes none of which wakes up.
pub update_sleepers-Ticked :
    (l : List ℕ) (s : Scheduler)
    → nodup l ≡ true
    → ((p : ℕ) → has p l ≡ true → wakes (s.pcb p) ≡ false)
    → Returns (λ _ t. Ticked s l t) (update_sleepers l s)
unfolding update_sleepers
update_sleepers-Ticked [] s d h =
    returns (record { nearer = λ p e. cc; others = λ p e. refl; queue = refl })
update_sleepers-Ticked (x ∷ l) s d h =
    let (w, step, queue, self, others, _) = update_sleepers-step x l s (h x (ground arith)) in
    let fresh : has x l ≡ false = ground arith in
    rw step (
      Returns.mono
        (update_sleepers-Ticked l w (ground arith)
          λ p e. let ne : p ≢ x = ground arith in rw (others p ne) (h p (ground arith)))
        λ _ t k. record {
          nearer = λ p e. elim (Bool-cases (p == x)) [
            | inl is ↦ let same : p ≡ x = ground arith in rw same (k.others x fresh ∙ self)
            | inr is_not ↦ k.nearer p (ground arith) ∙ ap tick (others p (ground arith))
          ];
          others = λ p e. k.others p (ground arith) ∙ others p (ground arith);
          queue = k.queue ∙ queue;
        })

update_sleepers-wakes_first :
    (x : ℕ) (after : List ℕ) (s : Scheduler)
    → Placed s
    → has x (s.queue blocked_queue) ≡ true
    → wakes (s.pcb x) ≡ true
    → Returns
        (λ _ t. Placed t × ((t.pcb x).state ≡ running) × ((p : ℕ) → p ≢ x → t.pcb p ≡ s.pcb p))
        (update_sleepers (x ∷ after) s)
unfolding update_sleepers write_pcb
update_sleepers-wakes_first x after s v here last =
    let w : Scheduler = set_pcb s x (tick (s.pcb x)) in
    let v' : Placed w = Placed-set_pcb x (tick (s.pcb x)) v refl in
    let positive : ((s.pcb x).sleep_time == 0) ≡ false = ground (arith, last) in
    let is_last : (minus_tenth (s.pcb x).sleep_time == 0) ≡ true = ground (arith, last) in
    rw (positive, is_last)
      (Returns.mono (unblock_process-Moved w x v' here)
        λ _ t (moved, is). (moved.placed, rw is refl, λ p ne. moved.others p ne ∙ ground arith))

-- The walk over a queue of sleepers ends with the first process that wakes up: the processes before
-- it have 0.1 less to sleep, it is running, and all others, also the sleepers behind it,
-- keep their control blocks.
-- Before the call all processes must be in their home queues.
pub update_sleepers-wakes :
    (before : List ℕ) (x : ℕ) (after : List ℕ) (s : Scheduler)
    → Placed s
    → nodup (before ++ x ∷ after) ≡ true
    → has x (s.queue blocked_queue) ≡ true
    → ((p : ℕ) → has p before ≡ true → wakes (s.pcb p) ≡ false)
    → wakes (s.pcb x) ≡ true
    → Returns
        (λ _ t.
          Placed t
          × ((t.pcb x).state ≡ running)
          × ((p : ℕ) → has p before ≡ true → t.pcb p ≡ tick (s.pcb p))
          × ((p : ℕ) → p ≢ x → has p before ≡ false → t.pcb p ≡ s.pcb p))
        (update_sleepers (before ++ x ∷ after) s)
update_sleepers-wakes [] x after s v d here h last =
    Returns.mono (update_sleepers-wakes_first x after s v here last)
      λ _ t (placed, now, others). (placed, now, λ p e. cc, λ p ne e. others p ne)
update_sleepers-wakes (b ∷ before) x after s v d here h last =
    let (w, step, queue, self, others, kept) =
      update_sleepers-step b (before ++ x ∷ after) s (h b (ground arith)) in
    let b_absent : has b (before ++ x ∷ after) ≡ false = ground arith in
    let b_fresh : has b before ≡ false = ground (arith, has-append b before (x ∷ after)) in
    let b_not_x : b ≢ x = ground (arith, has-append b before (x ∷ after)) in
    let x_same : w.pcb x ≡ s.pcb x = others x (ground arith) in
    let before_same : (p : ℕ) → has p before ≡ true → w.pcb p ≡ s.pcb p =
      λ p e. others p (ground arith) in
    rw step (
      Returns.mono
        (update_sleepers-wakes before x after w (kept v) (ground arith) (rw queue here)
          (λ p e. rw (before_same p e) (h p (ground arith))) (rw x_same last))
        λ _ t (placed, now, nearer, rest). (
          placed,
          now,
          λ p e. elim (Bool-cases (p == b)) [
            | inl is ↦ let same : p ≡ b = ground arith in rw same (rest b b_not_x b_fresh ∙ self)
            | inr is_not ↦
                let among : has p before ≡ true = ground arith in
                nearer p among ∙ ap tick (before_same p among)
          ],
          λ p ne e. rest p ne (ground arith) ∙ others p (ground arith),
        ))

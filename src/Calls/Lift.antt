-- ===== src/Calls/Lift.antt =====
-- src/scheduler/fat_syscalls.c: what holds of a command on one half of the kernel, as one on both.
use pennos.Base.{◌≡◌, refl}
use pennos.Base.Run.{Run, and_then}
use pennos.Base.Returns.{Returns, returns}
use pennos.Fat.State.{Kernel}
use pennos.Sched.State.{Scheduler}
use pennos.Calls.{System, with_files, with_processes}

pub with_processes-then :
    {A B : Type 0} {P : A → Scheduler → Type 0} {Q : B → System → Type 0} (k : Kernel)
    {r : Run Scheduler A} (f : A → System → Run System B)
    → Returns P r
    → ((a : A) (t : Scheduler) → P a t → Returns Q (f a (record { files = k; processes = t })))
    → Returns Q (and_then (with_processes k r) f)
with_processes-then k f (returns p) next = next _ _ p

pub with_files-then :
    {A B : Type 0} {P : A → Kernel → Type 0} {Q : B → System → Type 0} (p : Scheduler)
    {r : Run Kernel A} (f : A → System → Run System B)
    → Returns P r
    → ((a : A) (k : Kernel) → P a k → Returns Q (f a (record { files = k; processes = p })))
    → Returns Q (and_then (with_files p r) f)
with_files-then p f (returns h) next = next _ _ h

pub with_processes-Returns :
    {A : Type 0} {P : A → Scheduler → Type 0} (k : Kernel) {r : Run Scheduler A}
    → Returns P r
    → Returns (λ a t. P a t.processes × (t.files ≡ k)) (with_processes k r)
with_processes-Returns k (returns p) = returns (p, refl)

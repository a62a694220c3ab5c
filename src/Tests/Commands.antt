-- ===== src/Tests/Commands.antt =====
-- src/shell/commands.c and src/utils/errno.c: the commands at concrete inputs.
use pennos.Base.{
  ℕ, ◌+◌, ◌≤◌, ◌≡◌, refl, [], ◌∷◌, arith, has, if◌then◌else◌, length, codes, pos, neg,
}
use pennos.Base.Returns.{Returns}
use pennos.Fat.Dir.Store.{Stored}
use pennos.Fat.Open.{set_name0}
use pennos.Calls.{System}
use pennos.Errors.{u_strerror, err_message_size, u_strerror-fits}
use pennos.Commands.{rm}
use pennos.Commands.Remove.{CanExit, Ended, rm-removes}
use pennos.Commands.Process.{show_int, digits_of, slept, resume_sleep_command}
use pennos.Commands.Sleep.{resume_sleep_command-ends}
use pennos.Tests.Disk.{disk, disk_blocks, file_entry}
use pennos.Tests.Files.{at_rest, at_rest-IsClosedFile}
use pennos.Tests.Processes.{example, example-Placed}

abbrev system : System
system = record { files = at_rest; processes = example }

example-CanExit : CanExit 2 example
example-CanExit = record {
  placed = example-Placed;
  is_active = record { queued = refl; not_zombie = λ e. ground arith };
  is_current = refl;
  init = refl;
  not_init = λ e. ground arith;
}

u_strerror-fits_example : length (u_strerror (neg 6)) + 1 ≤ err_message_size
u_strerror-fits_example = u_strerror-fits (neg 6)

resume_sleep_command-ends_example :
    Returns
      (λ r t. (r ≡ slept) × Ended 2 (pos 0) t.processes × (t.files ≡ at_rest))
      (resume_sleep_command system)
resume_sleep_command-ends_example = resume_sleep_command-ends system 2 example-CanExit refl

rm-removes_example :
    Returns
      (λ _ t.
        ((i : ℕ) → t.files.fat i ≡ (if has i (2 ∷ []) then 0 else disk.fat i))
        × Stored (record at_rest { fat = t.files.fat }) 1 0 (set_name0 file_entry 1) t.files
        × Ended 2 (pos 0) t.processes)
      (rm (codes "rm" ∷ (97 ∷ []) ∷ []) system)
rm-removes_example =
    rm-removes system 2 (record at_rest { block_buf = disk_blocks 1 }) (codes "rm") (97 ∷ [])
      file_entry 1 0 (2 ∷ []) at_rest-IsClosedFile example-CanExit refl

-- A negative number.
show_int_text : show_int (neg 105) ≡ codes "-105"
unfolding show_int digits_of
show_int_text = refl

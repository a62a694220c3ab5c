-- ===== src/Commands.antt =====
-- src/shell/commands.c: the commands on files and processes, as programs of the current process over the
-- system calls. `command` has the strings of the argument vector in front of its null pointer.
pub mod Remove
pub mod Process
pub mod Sleep
use pennos.Base.{
  ℕ, ◌+◌, ◌-◌, ◌*◌, ◌%◌, ◌^◌, bit_or, Bool, true, false, ◌&&◌, ◌||◌, not, List, [], ◌∷◌, ◌++◌,
  Option, none, some, ltb, leb, ◌==◌, if◌then◌else◌, length, list_eq, codes, ℤ, pos, negsuc, neg,
  is_neg, eq_ℤ,
}
use pennos.Base.Run.{Run, pure, fault, ◌>>=◌, ◌>>◌, get}
use pennos.Fat.State.{f_append}
use pennos.Sched.State.{Scheduler}
use pennos.Sched.Sys.{Signal, p_sigterm, p_sigstop, p_sigcont, s_kill, s_exit, fail}
use pennos.Sched.Own.{s_get_errno, s_logout}
use pennos.Calls.{Cmd, on_processes, s_open, s_write, s_close, s_unlink, s_chmod, s_mv}
use pennos.Errors.{u_strerror}

-- `s_write(STDERR_FILENO, text, strlen(text))`.
unfoldable pub say : List ℕ → Cmd (Unit {0})
say text = do _ ← s_write (pos 2) text (pos (length text)); pure tt

unfoldable pub u_perror : List ℕ → Cmd (Unit {0})
u_perror s = do
  err_no ← on_processes s_get_errno
  if eq_ℤ err_no (pos 0)
      then pure tt
      else (do say s; say (codes ": "); say (u_strerror err_no); say (10 ∷ []))

unfoldable pub exit : ℤ → Cmd (Unit {0})
exit status = on_processes (s_exit status)

-- One round of the loop of `rm`, for each of its arguments.
unfoldable pub remove_files : List (List ℕ) → Cmd (Unit {0})
remove_files [] = do u_perror (codes "rm"); exit (pos 0)
remove_files (name ∷ names) = do
  unlink_status ← s_unlink name
  if is_neg unlink_status
      then (do say (codes "rm: Error - failed to remove file\n"); exit unlink_status)
      else remove_files names

-- Without arguments the process does not exit.
unfoldable pub rm : (command : List (List ℕ)) → Cmd (Unit {0})
rm (_ ∷ name ∷ names) = remove_files (name ∷ names)
rm _ = say (codes "rm got wrong number of arguments (expected at least 1 argument)\n")

unfoldable pub touch_files : List (List ℕ) → Cmd (Unit {0})
touch_files [] = do u_perror (codes "touch"); exit (pos 0)
touch_files (name ∷ names) = do
  fd ← s_open name f_append
  if is_neg fd then (do u_perror (codes "touch"); exit fd) else (do
    status ← s_write fd [] (pos 0)
    if is_neg status
        then (do u_perror (codes "touch"); exit status)
        else (do _ ← s_close fd; touch_files names))

unfoldable pub touch : (command : List (List ℕ)) → Cmd (Unit {0})
touch (_ ∷ name ∷ names) = touch_files (name ∷ names)
touch _ = say (codes "touch got wrong number of arguments (expected at least 1 argument)\n")

-- `command[1]` is not tested.
unfoldable pub echo : (command : List (List ℕ)) → Cmd (Unit {0})
echo (_ ∷ text ∷ _) = do
  ret ← s_write (pos 1) text (pos (length text))
  if is_neg ret then exit ret else (do
    ret2 ← s_write (pos 1) (10 ∷ []) (pos 1)
    if is_neg ret2 then exit ret2 else (do u_perror (codes "echo"); exit (pos 0)))
echo _ = λ _. Run.fault

unfoldable pub mv : (command : List (List ℕ)) → Cmd (Unit {0})
mv (_ ∷ src ∷ dest ∷ []) = do
  mv_status ← s_mv src dest
  if is_neg mv_status then (do u_perror (codes "mv"); exit (neg 1)) else exit (pos 0)
mv _ = do say (codes "mv got wrong number of arguments (expected 2 arguments)\n"); exit (neg 200)

-- The permissions that a text names; other characters are passed over.
abbrev pub permission_of : ℕ → ℕ
permission_of c = if c == b'r' then 4 else if c == b'w' then 2 else if c == b'x' then 1 else 0

unfoldable pub permissions_in : (permissions : ℕ) → List ℕ → ℕ
permissions_in permissions [] = permissions
permissions_in permissions (c ∷ s) = permissions_in (bit_or permissions (permission_of c)) s

-- `F_CHMOD_ADD` or `F_CHMOD_REMOVE`.
abbrev pub mode_of : ℕ → Option ℕ
mode_of c = if c == b'+' then some 1 else if c == b'-' then some 2 else none

abbrev pub change_permissions : Option ℕ → List ℕ → (name : List ℕ) → Cmd (Unit {0})
change_permissions none letters name = do
  say (codes "chmod: Error - invalid permission mode (must start with + or -)\n")
  exit (neg 202)
change_permissions (some mode) letters name = do
  _ ← s_chmod name (permissions_in 0 letters) mode
  u_perror (codes "chmod")
  exit (pos 0)

abbrev pub chmod_text : (permission_mode name : List ℕ) → Cmd (Unit {0})
chmod_text [] name = λ _. Run.fault
chmod_text (c ∷ letters) name = change_permissions (mode_of c) letters name

unfoldable pub chmod : (command : List (List ℕ)) → Cmd (Unit {0})
chmod (_ ∷ permission_mode ∷ name ∷ []) =
    if ltb (length permission_mode) 2 || ltb 4 (length permission_mode)
    then (do
      say (
          codes
            "chmod: Error - invalid permission mode (must be 2-4 characters long including + or -)\n")
      exit (neg 201))
    else chmod_text permission_mode name
chmod _ = do
  say (codes "chmod got wrong number of arguments (expected 2 arguments)\n")
  exit (neg 200)

unfoldable pub logout : Cmd (Unit {0})
logout = do on_processes s_logout; exit (pos 0)

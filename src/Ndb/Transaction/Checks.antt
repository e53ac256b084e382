-- ===== src/Ndb/Transaction/Checks.antt =====
-- The checks of pyroute2/ndb/transaction.py: `CheckProcess`, and `Not`. What `shutil.which` finds and
-- what a process does are the operating system's: they are parameters. The lock and the log are left out.
use pyroute.Prelude.{ℕ, ◌==◌, Bool, false, Option, none, some, List, [], ◌∷◌, if◌then◌else◌}
use pyroute.Ndb.Transaction.{Object}

-- What is raised: `CheckProcessException`, FileNotFoundError, IndexError where the command has no
-- words, and TypeError.
pub data Failure : Type 0 where
  check_failed file_not_found no_words bad_type : Failure

-- The code of `Popen.wait`, negative for a signal.
pub data ReturnCode : Type 0 where
  exited killed_by : ℕ → ReturnCode

pub succeeded : ReturnCode → Bool
succeeded (exited n) = n == 0
succeeded (killed_by n) = false

-- A finished process: its output, unless it was terminated at the timeout, and its code.
pub record Process : Type 0 where
  pub output : Option (List ℕ × List ℕ)
  pub code : ReturnCode

-- `args[0]` is None once it was not found.
pub record CheckProcess : Type 0 where
  pub program : Option (List ℕ)
  pub words : List (List ℕ)
  pub return_code : Option ReturnCode
  pub out : Option (List ℕ)
  pub err : Option (List ℕ)

-- The constructor, with the words of `shlex.split`; none where there are none.
pub check_process : List (List ℕ) → Option CheckProcess
check_process [] = none
check_process (program ∷ words) =
    some
      (record { program = some program; words = words; return_code = none; out = none; err = none })

module _ (which : List ℕ → Option (List ℕ)) (run : List ℕ → List (List ℕ) → Process) where
  pub keep_output : CheckProcess → Option (List ℕ × List ℕ) → CheckProcess
  keep_output c none = c
  keep_output c (some (out, err)) = record c { out = some out; err = some err }

  pub finished : CheckProcess → Process → Option Failure × CheckProcess
  finished c p = (
    if succeeded p.code then none else some check_failed,
    record (keep_output c p.output) { return_code = some p.code },
  )

  pub run_found : CheckProcess → Option (List ℕ) → Option Failure × CheckProcess
  run_found c none = (some file_not_found, record c { program = none })
  run_found c (some path) = finished (record c { program = some path }) (run path c.words)

  pub check_commit : CheckProcess → Option (List ℕ) → Option Failure × CheckProcess
  check_commit c none = (some bad_type, c)
  check_commit c (some program) = run_found c (which program)

  -- `CheckProcess.commit`.
  pub process_commit : CheckProcess → Option Failure × CheckProcess
  process_commit c = check_commit c c.program

module _ {W : Type 0} where
  pub negated : Option Failure × W → Option Failure × W
  negated (none, w) = (some check_failed, w)
  negated (some e, w) = (none, w)

  -- `Not`: the world is what the negated commit leaves, and a rollback does nothing.
  pub not_object : Object W Failure → Object W Failure
  not_object tx = record { commit = λ w. negated (tx.commit w); rollback = λ w. (none, w) }

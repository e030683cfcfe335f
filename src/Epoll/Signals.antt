-- ===== src/Epoll/Signals.antt =====
-- src/epoll/mod.rs: the handler of SIGUSR2, which an interruptible turn installs, and which passes the
-- signal on to the handler that the program had.
pub mod Chain
use complete_io.Base.{
  ℕ, zero, suc, Bool, true, false, Option, none, some, List, [], ◌∷◌, Result, ok, err, panic,
  if◌then◌else◌,
}

-- `sigaction`, as the program left it: SIG_DFL, SIG_IGN, or a function, with SA_SIGINFO or without.
pub data Disposition : Type 0 where
  default_action : Disposition
  ignored : Disposition
  function : (pointer : ℕ) → (siginfo : Bool) → Disposition

-- What is installed for SIGUSR2: the program's, or `interrupt_sig_handler`.
pub data Installed : Type 0 where
  program : Disposition → Installed
  interrupt : Installed

-- A call of a function of the program, with the three arguments or with the number of the signal.
pub data Call : Type 0 where
  with_info : (pointer : ℕ) → Call
  plain : (pointer : ℕ) → Call

-- `once` is SIGUSR2_INSTALL, `old` is OLD_SIGUSR2_HANDLER.
pub record Process : Type 0 where
  pub current : Installed
  pub old : Option Installed
  pub once : Bool

abbrev pub untouched : Disposition → Process
untouched d = record { current = program d; old = none; once = false }

-- `SIGUSR2_INSTALL.call_once(…)`, with the outcome of `sigaction`.
unfoldable pub install : (fine : Bool) → Process → Result Process
install fine p =
    if p.once
    then ok p
    else if fine
    then ok (record { current = interrupt; old = some p.current; once = true })
    else panic

abbrev pub called : ℕ → Bool → Call
called f true = with_info f
called f false = plain f

-- `interrupt_sig_handler`. If the old handler were this one, it would call itself without end: `none`.
unfoldable pub interrupt_sig_handler : Option Installed → Option (List Call)
interrupt_sig_handler none = some []
interrupt_sig_handler (some (program default_action)) = some []
interrupt_sig_handler (some (program ignored)) = some []
interrupt_sig_handler (some (program (function f info))) = some (called f info ∷ [])
interrupt_sig_handler (some interrupt) = none

-- The interruptible turns, each with the outcome its `sigaction` would have.
abbrev pub install_then : (Process → Result Process) → Result Process → Result Process
install_then f (ok p) = f p
install_then f (err e) = err e
install_then f panic = panic

unfoldable pub turns : List Bool → Process → Result Process
unfolding install
turns [] p = ok p
turns (fine ∷ rest) p = install_then (turns rest) (install fine p)

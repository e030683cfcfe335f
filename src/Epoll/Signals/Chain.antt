-- ===== src/Epoll/Signals/Chain.antt =====
-- src/epoll/mod.rs: the signal of an interrupt reaches the handler of the program.
use complete_io.Base.{◌≡◌, refl, Bool, true, false, some, List, [], ◌∷◌, ok}
use complete_io.Epoll.Signals.{
  Disposition, default_action, ignored, function, program, interrupt, Call, with_info, plain,
  Process, untouched, install, interrupt_sig_handler, turns,
}

-- What `sigaction` documents for the disposition: a function with SA_SIGINFO gets the three arguments,
-- and one without gets the number of the signal.
abbrev pub own_calls : Disposition → List Call
own_calls default_action = []
own_calls ignored = []
own_calls (function f true) = with_info f ∷ []
own_calls (function f false) = plain f ∷ []

abbrev pub installed : Disposition → Process
installed d = record { current = interrupt; old = some (program d); once = true }

turns-installed :
    (d : Disposition) (outcomes : List Bool) → turns outcomes (installed d) ≡ ok (installed d)
unfolding turns install interrupt_sig_handler
turns-installed d [] = refl
turns-installed d (fine ∷ rest) = turns-installed d rest

chained : (d : Disposition) → interrupt_sig_handler (some (program d)) ≡ some (own_calls d)
unfolding interrupt_sig_handler
chained default_action = refl
chained ignored = refl
chained (function f true) = refl
chained (function f false) = refl

-- After one or more interruptible turns of which the first could install the handler, SIGUSR2 goes to
-- it, and it calls the function that the program had for the signal, once and in the form that its
-- SA_SIGINFO asks for; if the program had none, it calls nothing.
pub signal_is_passed_on :
    (d : Disposition) (outcomes : List Bool)
    → (p : Process) × (turns (true ∷ outcomes) (untouched d) ≡ ok p)
      × (p.current ≡ interrupt)
      × (interrupt_sig_handler p.old ≡ some (own_calls d))
unfolding turns install interrupt_sig_handler
signal_is_passed_on d outcomes = (installed d, turns-installed d outcomes, refl, chained d)

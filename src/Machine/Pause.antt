-- ===== src/Machine/Pause.antt =====
-- Pausing in source/core/machine.cpp: its notifications come in turn.
use mathlib.Core.Path.{subst}
use remame.Base.{
  ℕ, ◌≡◌, refl, ap, sym, inl, inr, Bool, true, false, not, Bool-cases, List, [], ◌∷◌, ◌&&◌,
  if◌then◌else◌,
}
use remame.Attotime.{gt, zero_time}
use remame.Machine.{
  Machine, Host, Event, Schedule, auto_name, eat_all_cycles, called, notify_pause, notify_resume,
  save, load, call_notifiers, pause, resume, toggle_pause, request, set_saveload_filename,
  schedule_save, schedule_load, schedule_exit, schedule_hard_reset, schedule_soft_reset, soft_reset,
  emit,
}

-- The calls that user and devices make.
pub data Command : Type 0 where
  pausing : Command
  resuming : Command
  toggling : Command
  saving : ℕ → Command
  loading : ℕ → Command
  exiting : Command
  hard_resetting : Command
  soft_resetting : Command
  reset_timer_fired : Command

unfoldable pub run_command : Host → Command → Machine → Machine
run_command host pausing m = pause m
run_command host resuming m = resume m
run_command host toggling m = toggle_pause m
run_command host (saving filename) m = schedule_save host filename m
run_command host (loading filename) m = schedule_load host filename m
run_command host exiting m = schedule_exit host m
run_command host hard_resetting m = schedule_hard_reset m
run_command host soft_resetting m = schedule_soft_reset m
run_command host reset_timer_fired m = soft_reset m

unfoldable pub run_commands : Host → List Command → Machine → Machine
run_commands host [] m = m
run_commands host (c ∷ cs) m = run_commands host cs (run_command host c m)

abbrev pub pauses_or_resumes : Event → Bool
pauses_or_resumes (called notify_pause cbs) = true
pauses_or_resumes (called notify_resume cbs) = true
pauses_or_resumes e = false

-- Pause and resume notifications in turn, a pause first; whether the last one paused.
pub data InTurn : Bool → List Event → Type 0 where
  no_event : InTurn false []
  paused :
      {cbs : List ℕ} {es : List Event}
      → InTurn false es
      → InTurn true (called notify_pause cbs ∷ es)
  resumed :
      {cbs : List ℕ} {es : List Event}
      → InTurn true es
      → InTurn false (called notify_resume cbs ∷ es)
  other :
      {b : Bool} {e : Event} {es : List Event}
      → pauses_or_resumes e ≡ false
      → InTurn b es
      → InTurn b (e ∷ es)

abbrev pub IsInTurn : Machine → Type 0
IsInTurn m = InTurn m.paused m.trace

pause-IsInTurn : (m : Machine) → IsInTurn m → IsInTurn (pause m)
unfolding pause call_notifiers
pause-IsInTurn m h = elim (Bool-cases m.paused) [
  | inl e ↦
      subst IsInTurn
        (sym (
          ap
            (λ (b : Bool).
              if b then m else call_notifiers notify_pause (record m { paused = true }))
            e))
        h
  | inr e ↦
      subst IsInTurn
        (sym (
          ap
            (λ (b : Bool).
              if b then m else call_notifiers notify_pause (record m { paused = true }))
            e))
        (paused (subst (λ (b : Bool). InTurn b m.trace) e h))
]

resume-IsInTurn : (m : Machine) → IsInTurn m → IsInTurn (resume m)
unfolding resume call_notifiers
resume-IsInTurn m h = elim (Bool-cases m.paused) [
  | inr e ↦
      subst IsInTurn
        (sym (
          ap
            (λ (b : Bool).
              if not b then m else call_notifiers notify_resume (record m { paused = false }))
            e))
        h
  | inl e ↦
      subst IsInTurn
        (sym (
          ap
            (λ (b : Bool).
              if not b then m else call_notifiers notify_resume (record m { paused = false }))
            e))
        (resumed (subst (λ (b : Bool). InTurn b m.trace) e h))
]

if_case : (b : Bool) (x y : Machine) → IsInTurn x → IsInTurn y → IsInTurn (if b then x else y)
if_case true x y p q = p
if_case false x y p q = q

toggle_pause-IsInTurn : (m : Machine) → IsInTurn m → IsInTurn (toggle_pause m)
unfolding toggle_pause
toggle_pause-IsInTurn m h =
    if_case m.paused _ _ (resume-IsInTurn _ (other refl h)) (pause-IsInTurn m h)

request-IsInTurn :
    (host : Host) (what : Schedule) (filename : ℕ) (m : Machine)
    → IsInTurn m
    → IsInTurn (request host what filename m)
unfolding request set_saveload_filename
request-IsInTurn host what filename m h = h

exit-IsInTurn : (host : Host) (m : Machine) → IsInTurn m → IsInTurn (schedule_exit host m)
unfolding schedule_exit schedule_save
exit-IsInTurn host m h =
    if_case (host.autosave && host.supports_save && gt host.time zero_time) _ _
      (resume-IsInTurn _ (request-IsInTurn host save auto_name _ exiting)) exiting
  where
    exiting : IsInTurn (emit eat_all_cycles (record m { exit_pending = true }))
    exiting = other refl h

run_command-IsInTurn :
    (host : Host) (c : Command) (m : Machine) → IsInTurn m → IsInTurn (run_command host c m)
unfolding run_command schedule_save schedule_load schedule_hard_reset schedule_soft_reset soft_reset
    call_notifiers
run_command-IsInTurn host pausing m h = pause-IsInTurn m h
run_command-IsInTurn host resuming m h = resume-IsInTurn m h
run_command-IsInTurn host toggling m h = toggle_pause-IsInTurn m h
run_command-IsInTurn host (saving filename) m h =
    resume-IsInTurn _ (request-IsInTurn host save filename m h)
run_command-IsInTurn host (loading filename) m h =
    resume-IsInTurn _ (request-IsInTurn host load filename m h)
run_command-IsInTurn host exiting m h = exit-IsInTurn host m h
run_command-IsInTurn host hard_resetting m h = other refl h
run_command-IsInTurn host soft_resetting m h = other refl (resume-IsInTurn _ (other refl h))
run_command-IsInTurn host reset_timer_fired m h = other refl h

-- If pause and resume notifications have come in turn so far, a pause first, and `paused` says
-- whether the last was a pause, then so it is after any sequence of pauses, resumes, toggles,
-- scheduled saves, loads, exits, hard and soft resets and fired reset timers.
pub run_commands-IsInTurn :
    (host : Host) (cs : List Command) (m : Machine) → IsInTurn m → IsInTurn (run_commands host cs m)
unfolding run_commands
run_commands-IsInTurn host [] m h = h
run_commands-IsInTurn host (c ∷ cs) m h =
    run_commands-IsInTurn host cs (run_command host c m) (run_command-IsInTurn host c m h)

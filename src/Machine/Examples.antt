-- ===== src/Machine/Examples.antt =====
-- The theorems on `running_machine` at a save that waits for timers and at short runs.
use remame.Base.{◌≡◌, ◌<◌, ◌^◌, ◌⊎◌, arith, true, false, [], ◌∷◌, none, some}
use remame.Base.Int.{pos}
use remame.Attotime.{attotime}
use remame.Attotime.Value.{IsTime}
use remame.Machine.{
  Machine, Host, Phase, FileError, no_error, save, new_machine, handle_saveload, rand,
}
use remame.Machine.SaveLoad.{Waits, IsOver, handle_saveload_lem}
use remame.Machine.Rand.{seed_before, seed_before-rand}
use remame.Machine.Pause.{
  IsInTurn, no_event, pausing, saving, toggling, exiting, run_commands, run_commands-IsInTurn,
}

abbrev host : Host
host = record {
  time = attotime (pos 3) (pos 500_000_000_000_000_000);
  autosave = true;
  supports_save = true;
  can_save = false;
  compose = λ filename. (some filename, none);
  open_result = FileError.opened;
  transfer = no_error;
}

-- A save asked for at 3 seconds.
abbrev saving_machine : Machine
saving_machine = record new_machine {
  saveload_schedule = save;
  saveload_schedule_time = attotime (pos 3) (pos 0);
  saveload_pending_file = some 7;
}

now-IsTime : IsTime host.time
now-IsTime = record {
  attos_nonneg = ground arith;
  attos_small = ground arith;
  above = ground arith;
  below = ground arith;
}

asked-IsTime : IsTime saving_machine.saveload_schedule_time
asked-IsTime = record {
  attos_nonneg = ground arith;
  attos_small = ground arith;
  above = ground arith;
  below = ground arith;
}

handle_saveload_lem_example :
    (Waits host saving_machine × (handle_saveload host saving_machine ≡ saving_machine))
    ⊎ (¬ Waits host saving_machine × IsOver (handle_saveload host saving_machine))
handle_saveload_lem_example =
    handle_saveload_lem host saving_machine now-IsTime asked-IsTime (ground arith)

seed_small : new_machine.rand_seed < 2 ^ 32
unfolding new_machine
seed_small = omega arith

seed_before-rand_example :
    (seed_before (rand new_machine).1 ≡ new_machine.rand_seed)
    × ((rand new_machine).1 < 2 ^ 32)
    × ((rand new_machine).0.rand_seed < 2 ^ 32)
seed_before-rand_example = seed_before-rand new_machine seed_small

new_machine-IsInTurn : IsInTurn new_machine
unfolding new_machine
new_machine-IsInTurn = no_event

run_commands-IsInTurn_example :
    IsInTurn (run_commands host (pausing ∷ saving 7 ∷ toggling ∷ exiting ∷ []) new_machine)
run_commands-IsInTurn_example =
    run_commands-IsInTurn host (pausing ∷ saving 7 ∷ toggling ∷ exiting ∷ []) new_machine
      new_machine-IsInTurn

abbrev starting : Machine
starting = record new_machine { current_phase = Phase.init }

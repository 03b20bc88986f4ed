-- ===== src/Machine.antt =====
-- The parts of `running_machine` (source/core/machine.cpp) that schedule exits, resets and saved
-- states, pause the machine and call its notifiers. File names and callbacks are numbers. What a
-- call does outside the machine is an event, kept in `trace`, the last one first; a callback's own
-- effect on the machine is not modelled.
pub mod Pause
pub mod SaveLoad
pub mod Notifiers
pub mod Rand
mod Examples
use remame.Base.{
  ℕ, ◌+◌, ◌*◌, ◌/◌, ◌%◌, ◌^◌, Bool, true, false, not, ◌&&◌, ◌||◌, if◌then◌else◌, List, [], ◌∷◌,
  ◌++◌, ◌==◌, Option, none, some,
}
use remame.Base.Int.{pos}
use remame.Base.Word.{u32}
use remame.Attotime.{Attotime, zero_time, from_seconds, sub, gt}

pub data Phase : Type 0 where
  preinit : Phase
  init : Phase
  reset : Phase
  running : Phase
  exit : Phase

abbrev pub is_init : Phase → Bool
is_init Phase.preinit = false
is_init Phase.init = true
is_init Phase.reset = false
is_init Phase.running = false
is_init Phase.exit = false

pub data Notification : Type 0 where
  notify_reset : Notification
  notify_pause : Notification
  notify_resume : Notification
  notify_exit : Notification

pub data Schedule : Type 0 where
  nothing : Schedule
  save : Schedule
  load : Schedule

abbrev pub is_load : Schedule → Bool
is_load load = true
is_load save = false
is_load nothing = false

abbrev pub is_save : Schedule → Bool
is_save load = false
is_save save = true
is_save nothing = false

-- `save_error` of the save manager.
pub data SaveError : Type 0 where
  no_error : SaveError
  illegal_registrations : SaveError
  invalid_header : SaveError
  read_error : SaveError
  write_error : SaveError
  other_error : SaveError

abbrev pub is_no_error : SaveError → Bool
is_no_error no_error = true
is_no_error illegal_registrations = false
is_no_error invalid_header = false
is_no_error read_error = false
is_no_error write_error = false
is_no_error other_error = false

-- What `emu_file::open` returns.
pub data FileError : Type 0 where
  opened : FileError
  not_found : FileError
  failed : FileError

-- The messages that pop up.
pub data Message : Type 0 where
  pending_timers : Schedule → Message
  state_error : SaveError → Schedule → Message
  done : Schedule → Message
  done_unsupported : Schedule → Message
  no_savestate : Message
  open_failed : Schedule → Message

pub data Event : Type 0 where
  eat_all_cycles : Event
  soft_reset_timer : Event
  rewind_invalidated : Event
  called : Notification → List ℕ → Event
  popmessage : Message → Event
  file_opened : Option ℕ → ℕ → Bool → Event
  state_read : ℕ → Event
  state_written : ℕ → Event
  removed_on_close : ℕ → Event

pub record Machine : Type 0 where
  pub current_phase : Phase
  pub paused : Bool
  pub hard_reset_pending : Bool
  pub exit_pending : Bool
  pub rand_seed : ℕ
  pub saveload_schedule : Schedule
  pub saveload_schedule_time : Attotime
  -- No file, where the string is empty.
  pub saveload_pending_file : Option ℕ
  pub saveload_searchpath : Option ℕ
  pub notifiers : Notification → List ℕ
  pub trace : List Event

-- What the machine asks of the scheduler, the options, the file system and the save manager.
pub record Host : Type 0 where
  pub time : Attotime
  pub autosave : Bool
  pub supports_save : Bool
  pub can_save : Bool
  -- `compose_saveload_filename`: the file and the search path.
  pub compose : ℕ → Option ℕ × Option ℕ
  pub open_result : FileError
  pub transfer : SaveError

abbrev pub emit : Event → Machine → Machine
emit e m = record m { trace = e ∷ m.trace }

-- The constructor.
unfoldable pub new_machine : Machine
new_machine = record {
  current_phase = Phase.preinit;
  paused = false;
  hard_reset_pending = false;
  exit_pending = false;
  rand_seed = 0x9d14abd7;
  saveload_schedule = nothing;
  saveload_schedule_time = zero_time;
  saveload_pending_file = none;
  saveload_searchpath = none;
  notifiers = λ which. [];
  trace = [];
}

abbrev pub is_exit : Notification → Bool
is_exit notify_exit = true
is_exit notify_reset = false
is_exit notify_pause = false
is_exit notify_resume = false

abbrev pub notification_index : Notification → ℕ
notification_index notify_reset = 0
notification_index notify_pause = 1
notification_index notify_resume = 2
notification_index notify_exit = 3

-- `m_notifier_list[event]` set.
unfoldable pub set_notifiers :
    Notification → List ℕ → (Notification → List ℕ) → Notification → List ℕ
set_notifiers event callbacks f which =
    if notification_index which == notification_index event then callbacks else f which

unfoldable pub call_notifiers : Notification → Machine → Machine
call_notifiers which m = emit (called which (m.notifiers which)) m

unfoldable pub pause : Machine → Machine
pause m = if m.paused then m else call_notifiers notify_pause (record m { paused = true })

unfoldable pub resume : Machine → Machine
resume m = if not m.paused then m else call_notifiers notify_resume (record m { paused = false })

unfoldable pub toggle_pause : Machine → Machine
toggle_pause m = if m.paused then resume (emit rewind_invalidated m) else pause m

unfoldable pub set_saveload_filename : Host → ℕ → Machine → Machine
set_saveload_filename host filename m = record m {
  saveload_pending_file = (host.compose filename).0;
  saveload_searchpath = (host.compose filename).1;
}

-- The request that `schedule_save`, `schedule_load` and their immediate forms note.
unfoldable pub request : Host → Schedule → ℕ → Machine → Machine
unfolding set_saveload_filename
request host what filename m = record (set_saveload_filename host filename m) {
  saveload_schedule = what;
  saveload_schedule_time = host.time;
}

unfoldable pub schedule_save : Host → ℕ → Machine → Machine
schedule_save host filename m = resume (request host save filename m)

unfoldable pub schedule_load : Host → ℕ → Machine → Machine
schedule_load host filename m = resume (request host load filename m)

-- The file name of an automatic save.
abbrev pub auto_name : ℕ
auto_name = 0

unfoldable pub schedule_exit : Host → Machine → Machine
schedule_exit host m =
    let exiting = emit eat_all_cycles (record m { exit_pending = true }) in
    if host.autosave && host.supports_save && gt host.time zero_time
    then schedule_save host auto_name exiting
    else exiting

unfoldable pub schedule_hard_reset : Machine → Machine
schedule_hard_reset m = emit eat_all_cycles (record m { hard_reset_pending = true })

unfoldable pub schedule_soft_reset : Machine → Machine
schedule_soft_reset m = emit eat_all_cycles (resume (emit soft_reset_timer m))

unfoldable pub soft_reset : Machine → Machine
soft_reset m = record (call_notifiers notify_reset (record m { current_phase = Phase.reset })) {
  current_phase = Phase.running;
}

-- `assert_always` fails past the initialisation.
unfoldable pub add_notifier : Notification → ℕ → Bool → Machine → Option Machine
add_notifier event callback first m =
    let front = callback ∷ m.notifiers event in
    let back = m.notifiers event ++ (callback ∷ []) in
    if is_init m.current_phase
    then some (record m {
      notifiers = set_notifiers event (if first || is_exit event then front else back) m.notifiers;
    })
    else none

-- The message about the result of a transfer.
unfoldable pub transfer_message : Host → Schedule → Message
transfer_message host what = elim host.transfer [
  | no_error ↦ if not host.supports_save then done_unsupported what else done what
  | illegal_registrations ↦ state_error illegal_registrations what
  | invalid_header ↦ state_error invalid_header what
  | read_error ↦ state_error read_error what
  | write_error ↦ state_error write_error what
  | other_error ↦ state_error other_error what
]

-- The file is opened, and the state read or written.
unfoldable pub transfer_state : Host → ℕ → Machine → Machine
unfolding transfer_message
transfer_state host file m =
    let what = m.saveload_schedule in
    let m1 = emit (file_opened m.saveload_searchpath file (is_load what)) m in
    elim host.open_result [
      | opened ↦
          let m2 = emit (if is_load what then state_read file else state_written file) m1 in
          let m3 = emit (popmessage (transfer_message host what)) m2 in
          if not (is_no_error host.transfer) && is_save what
          then emit (removed_on_close file) m3
          else m3
      | not_found ↦ emit (popmessage (if is_load what then no_savestate else open_failed what)) m1
      | failed ↦ emit (popmessage (open_failed what)) m1
    ]

unfoldable pub unschedule : Machine → Machine
unschedule m = record m {
  saveload_pending_file = none;
  saveload_searchpath = none;
  saveload_schedule = nothing;
}

-- `handle_saveload` on the pending file.
unfoldable pub handle_pending : Host → Machine → Option ℕ → Machine
handle_pending host m none = unschedule m
handle_pending host m (some file) =
    if not host.can_save
    then (if gt (sub host.time m.saveload_schedule_time) (from_seconds (pos 1))
        then unschedule (emit (popmessage (pending_timers m.saveload_schedule)) m)
        else m)
    else unschedule (transfer_state host file m)

unfoldable pub handle_saveload : Host → Machine → Machine
handle_saveload host m = handle_pending host m m.saveload_pending_file

unfoldable pub immediate_save : Host → ℕ → Machine → Machine
immediate_save host filename m = handle_saveload host (request host save filename m)

unfoldable pub immediate_load : Host → ℕ → Machine → Machine
immediate_load host filename m = handle_saveload host (request host load filename m)

-- `rand`: the halves of the new seed, swapped; they do not overlap, so `|` is a sum.
unfoldable pub rand : Machine → Machine × ℕ
rand m =
    let seed = u32 (1664525 * m.rand_seed + 1013904223) in
    (record m { rand_seed = seed }, seed / 2 ^ 16 + u32 (seed * 2 ^ 16))

-- ===== src/Machine/SaveLoad.antt =====
-- `handle_saveload` of source/core/machine.cpp: when a request waits, and when it is over.
use mathlib.Core.Path.{subst}
use remame.Base.{
  ◌↔◌, ℕ, ◌≡◌, ◌≢◌, ◌⊎◌, inl, inr, refl, ap, ◌∙◌, sym, arith, if◌then◌else◌, not, Bool, true, false,
  Bool-cases, none, some, Option-cases,
}
use remame.Base.Int.{pos, ◌+ℤ◌, ◌-ℤ◌, ◌≤ℤ◌, ◌<ℤ◌, +ℤ_parts, -ℤ_parts}
use remame.Attotime.{from_seconds, sub, gt}
use remame.Attotime.Value.{total, IsTime, IsNormal, Before}
use remame.Attotime.Sum.{total-sub}
use remame.Attotime.Order.{comparisons_iff}
use remame.Machine.{
  Machine, Host, nothing, emit, popmessage, pending_timers, unschedule, transfer_state,
  handle_pending, handle_saveload,
}

-- A request waits while timers keep the state from being saved, up to a second.
pub record Waits (host : Host) (m : Machine) : Type 0 where
  pub requested : m.saveload_pending_file ≢ none
  pub busy : host.can_save ≡ false
  pub recent : total host.time ≤ℤ total m.saveload_schedule_time +ℤ total (from_seconds (pos 1))

pub record IsOver (m : Machine) : Type 0 where
  pub no_schedule : m.saveload_schedule ≡ nothing
  pub no_file : m.saveload_pending_file ≡ none
  pub no_searchpath : m.saveload_searchpath ≡ none

unschedule-IsOver : (m : Machine) → IsOver (unschedule m)
unfolding unschedule
unschedule-IsOver m = record { no_schedule = refl; no_file = refl; no_searchpath = refl }

second-IsNormal : IsNormal (from_seconds (pos 1))
unfolding from_seconds
second-IsNormal = (ground arith, ground arith)

module _ (host : Host) (m : Machine) (now_time : IsTime host.time)
    (then_time : IsTime m.saveload_schedule_time) (now_before : Before host.time) where
  -- More than a second has passed.
  late : Bool
  late = gt (sub host.time m.saveload_schedule_time) (from_seconds (pos 1))

  late_iff :
      (late ≡ true)
      ↔ (total (from_seconds (pos 1)) <ℤ total host.time -ℤ total m.saveload_schedule_time)
  unfolding late
  late_iff =
      let d = total-sub host.time m.saveload_schedule_time now_time then_time now_before in
      rw d.0 at
        (comparisons_iff (sub host.time m.saveload_schedule_time) (from_seconds (pos 1)) d.1
          second-IsNormal).4

  -- The value of the difference against that of the sum.
  recent_iff :
      (total host.time ≤ℤ total m.saveload_schedule_time +ℤ total (from_seconds (pos 1)))
      ↔ (late ≡ false)
  recent_iff = ground (
    arith,
    late_iff,
    +ℤ_parts (total m.saveload_schedule_time) (total (from_seconds (pos 1))),
    -ℤ_parts (total host.time) (total m.saveload_schedule_time),
  )

  pending_request :
      (file : ℕ)
      → m.saveload_pending_file ≡ some file
      → handle_saveload host m ≡ (
          if not host.can_save
          then (if late
              then unschedule (emit (popmessage (pending_timers m.saveload_schedule)) m)
              else m)
          else unschedule (transfer_state host file m))
  unfolding handle_saveload handle_pending late
  pending_request file e = ap (handle_pending host m) e

  idle_request : m.saveload_pending_file ≡ none → handle_saveload host m ≡ unschedule m
  unfolding handle_saveload handle_pending
  idle_request e = ap (handle_pending host m) e

  abbrev over : Machine
  over = unschedule (emit (popmessage (pending_timers m.saveload_schedule)) m)

  -- Where the current time and the time of the request have attoseconds from nothing to below a
  -- second and seconds from minus the largest up, and the current time comes before never:
  -- either a file is pending, the scheduler cannot save and at most a second has passed since
  -- the request, and `handle_saveload` changes nothing; or one of these fails, and afterwards
  -- no request, file or search path is left.
  pub handle_saveload_lem :
      (Waits host m × (handle_saveload host m ≡ m))
      ⊎ (¬ Waits host m × IsOver (handle_saveload host m))
  handle_saveload_lem = elim (Option-cases m.saveload_pending_file) [
    | inl idle ↦
        inr (λ w. w.requested idle, subst IsOver (sym (idle_request idle)) (unschedule-IsOver _))
    | inr (file, e) ↦ elim (Bool-cases host.can_save) [
      | inl free ↦ inr (
        λ w. ground (arith, w.busy),
        subst IsOver
            (sym (
              pending_request file e
              ∙ ap
                  (λ (b : Bool).
                    if not b
                    then (if late then over else m)
                    else unschedule (transfer_state host file m))
                  free))
            (unschedule-IsOver _),
      )
      | inr busy ↦ elim (Bool-cases late) [
        | inl timeout ↦ inr (
          λ w. ground (arith, recent_iff, w.recent),
          subst IsOver
              (sym (
                pending_request file e
                ∙ ap
                    (λ (b : Bool).
                      if not b
                      then (if late then over else m)
                      else unschedule (transfer_state host file m))
                    busy
                ∙ ap (λ (b : Bool). if b then over else m) timeout))
              (unschedule-IsOver _),
        )
        | inr wait ↦ inl (
          record { requested = λ none_left. cc; busy = busy; recent = recent_iff.1 wait },
          pending_request file e
              ∙ ap
                  (λ (b : Bool).
                    if not b
                    then (if late then over else m)
                    else unschedule (transfer_state host file m))
                  busy
              ∙ ap (λ (b : Bool). if b then over else m) wait,
        )
      ]
    ]
  ]

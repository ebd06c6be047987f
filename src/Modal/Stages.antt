-- ===== src/Modal/Stages.antt =====
-- The stages of one dialog: it stays mounted for a while after it is closed, so that its exit can be
-- seen.
use imagesilo.Common.{
  ◌≡◌, refl, Bool, true, false, not, ◌||◌, List, [], ◌∷◌, if◌then◌else◌, arith, Bool-cases, inl,
  inr,
}

pub record Stage : Type 0 where
  pub is_open : Bool
  pub mounted : Bool
  pub closing : Bool
  -- Whether the timer of the exit runs.
  pub timer : Bool

-- The effect on `mounted` and `open`; its clean-up has stopped the timer before.
abbrev pub on_change : Stage → Stage
on_change stage =
    if stage.is_open
    then record stage { mounted = true; closing = false; timer = false }
    else if stage.mounted
    then record stage { closing = true; timer = true }
    else record stage { timer = false }

abbrev pub first_stage : Bool → Stage
first_stage is_open =
    on_change (record { is_open = is_open; mounted = is_open; closing = false; timer = false })

pub data StageEvent : Type 0 where
  set_open : Bool → StageEvent
  timeout : StageEvent

unfoldable pub stage_step : StageEvent → Stage → Stage
stage_step (StageEvent.set_open is_open) stage = on_change (record stage { is_open = is_open })
stage_step StageEvent.timeout stage =
    if stage.timer
    then on_change (record stage { mounted = false; closing = false; timer = false })
    else stage

unfoldable pub run_stages : List StageEvent → Stage → Stage
unfolding stage_step
run_stages [] stage = stage
run_stages (e ∷ es) stage = run_stages es (stage_step e stage)

-- `data-state`
unfoldable pub shows_closed : Stage → Bool
shows_closed stage = stage.closing || not stage.is_open

-- An open dialog is mounted, is not closing and waits for no timer. A closed one is mounted exactly
-- while the timer of its exit runs, so that it does go away.
pub record IsSettled (stage : Stage) : Type 0 where
  pub shown : stage.is_open ≡ true → stage.mounted ≡ true
  pub awaited : stage.is_open ≡ false → stage.timer ≡ stage.mounted
  pub no_timer : stage.is_open ≡ true → stage.timer ≡ false
  pub no_exit : stage.mounted ≡ false → stage.closing ≡ false
  pub in_step : shows_closed stage ≡ not stage.is_open

on_change-IsSettled :
    (stage : Stage) → (stage.mounted ≡ false → stage.closing ≡ false) → IsSettled (on_change stage)
unfolding shows_closed
on_change-IsSettled stage h = record {
  shown = ground arith;
  awaited = ground arith;
  no_timer = ground arith;
  no_exit = ground (arith, h);
  in_step = ground (arith, h);
}

run_stages-IsSettled :
    (es : List StageEvent) (stage : Stage) → IsSettled stage → IsSettled (run_stages es stage)
unfolding run_stages
run_stages-IsSettled [] stage h = h
run_stages-IsSettled (StageEvent.set_open b ∷ es) stage h =
    run_stages-IsSettled es (stage_step (StageEvent.set_open b) stage)
      (unfold stage_step in on_change-IsSettled (record stage { is_open = b }) h.no_exit)
run_stages-IsSettled (StageEvent.timeout ∷ es) stage h =
    run_stages-IsSettled es (stage_step StageEvent.timeout stage) (elim (Bool-cases stage.timer) [
      | inl on ↦
          unfold stage_step in
          simp on (
            on_change-IsSettled (record stage { mounted = false; closing = false; timer = false })
              (λ e. refl))
      | inr off ↦ unfold stage_step in simp off h
    ])

-- However a dialog is opened and closed, and whenever its timer fires: an open dialog is mounted,
-- does not look closed and waits for no timer; a closed one is mounted exactly while the timer of its
-- exit runs, and looks closed.
pub stages-IsSettled :
    (is_open : Bool) (es : List StageEvent) → IsSettled (run_stages es (first_stage is_open))
stages-IsSettled is_open es = run_stages-IsSettled es (first_stage is_open) (
    on_change-IsSettled
      (record { is_open = is_open; mounted = is_open; closing = false; timer = false }) (λ e. refl))

-- ===== src/Capture/Quarantine/Lifecycle.antt =====
-- The quarantine over any number of passes: how often it is armed between two resets of its counter,
-- and that a latch stays.
use littlered.Prelude.{
  ℕ, suc, ◌≤◌, ◌≡◌, Bool, true, false, Option, none, some, arith, is_some, not, ◌&&◌, if◌then◌else◌,
}
use littlered.Prelude.Int.{ℤ}
use littlered.Capture.Quarantine.{
  QuarantineInput, QuarantinePlan, CaptureStatus, Pass, keep, by_marker, plan_quarantine,
  set_forsaken, settle_status, quarantine_plan_of, capture_pass, forsaken_plan_of,
  quarantine_input_of,
}

-- A pass of the operator, and a change of the phase by what runs beside it.
pub data Step : CaptureStatus → CaptureStatus → Type 0 where
  passed : {st : CaptureStatus} (p : Pass) → Step st (capture_pass p st)
  phased : {st : CaptureStatus} (r : Bool) → Step st (record st { running = r })

-- Any number of steps.
pub data Steps : CaptureStatus → CaptureStatus → Type 0 where
  done : {st : CaptureStatus} → Steps st st
  then_step : {a b c : CaptureStatus} → Steps a b → Step b c → Steps a c

-- An instance that was never captured.
abbrev pub fresh : Bool → CaptureStatus
fresh running = record {
  forsaken_since = none;
  quarantined_since = none;
  quarantine_attempts = 0;
  running = running;
}

-- The counter is two at most, and one at most while no quarantine is in force.
abbrev IsWithinBudget : CaptureStatus → Type 0
IsWithinBudget st =
    (st.quarantine_attempts ≤ 2)
    × (is_some st.quarantined_since ≡ false → st.quarantine_attempts ≤ 1)

-- What `planQuarantine` may ask for, by whether a quarantine is in force.
record IsBounded (in_force : Bool) (attempts : ℕ) (q : QuarantinePlan) : Type 0 where
  pub arms : q.arm ≡ true → (in_force ≡ false) × (q.next_attempts ≡ suc attempts)
  pub frees : q.clear ≡ true → attempts ≤ 1
  pub frees_late : q.scale_to_zero ≡ false → attempts ≤ 2 → attempts ≤ 1

-- The pass finds the instance Running and no sign of a capture, and does not scale it to zero.
abbrev pub finds_recovered : Pass → CaptureStatus → Bool
finds_recovered p st =
    st.running
    && not (quarantine_plan_of p st).scale_to_zero
    && not (forsaken_plan_of p st).captured

-- The armings of the quarantine since the last pass that found the instance recovered.
abbrev pub armings_after : Pass → CaptureStatus → ℕ → ℕ
armings_after p st n =
    if (quarantine_plan_of p st).arm then suc n else if finds_recovered p st then 0 else n

-- The states of an instance that was never captured, after any number of passes of the operator and
-- changes of the phase by what runs beside it, each with its number of armings.
pub data Reached : ℕ → CaptureStatus → Type 0 where
  begun : (r : Bool) → Reached 0 (fresh r)
  after_pass :
      {n : ℕ} {st : CaptureStatus} (p : Pass)
      → Reached n st
      → Reached (armings_after p st n) (capture_pass p st)
  after_phase :
      {n : ℕ} {st : CaptureStatus} (r : Bool) → Reached n st → Reached n (record st { running = r })

-- The quarantine is in force and both attempts are spent.
abbrev pub IsLatched : CaptureStatus → Type 0
IsLatched st = (is_some st.quarantined_since ≡ true) × (st.quarantine_attempts ≡ 2)

by_marker_latch :
    (i : QuarantineInput) (o : Option ℤ)
    → is_some o ≡ true
    → i.attempts ≡ 2
    → ((by_marker i o).scale_to_zero ≡ true) × ((by_marker i o).arm ≡ false)
unfolding by_marker keep
by_marker_latch i none h e = absurd (cc)
by_marker_latch i (some since) h e = ground (arith, e)

settle_status-IsLatched :
    (st : CaptureStatus) (written : ℤ) (captured : Bool) (q : QuarantinePlan)
    → (q.scale_to_zero ≡ true) × (q.arm ≡ false)
    → IsLatched st
    → IsLatched (settle_status st written captured q)
unfolding settle_status set_forsaken
settle_status-IsLatched st written captured q h l = ground (arith, h, l)

latch_zero :
    (p : Pass) (st : CaptureStatus)
    → IsLatched st
    → ((quarantine_plan_of p st).scale_to_zero ≡ true) × ((quarantine_plan_of p st).arm ≡ false)
unfolding quarantine_plan_of plan_quarantine quarantine_input_of
latch_zero p st l = by_marker_latch (quarantine_input_of p st) st.quarantined_since l.0 l.1

Step-IsLatched : {a b : CaptureStatus} → Step a b → IsLatched a → IsLatched b
unfolding capture_pass
Step-IsLatched {a} (passed p) l =
    settle_status-IsLatched a p.written (forsaken_plan_of p a).captured (quarantine_plan_of p a)
      (latch_zero p a l) l
Step-IsLatched {a} (phased r) l = l

-- Once both attempts are spent, every later pass scales the instance to zero, whatever it sees and
-- however the phase and the configuration change.
pub latched-Stays :
    (a b : CaptureStatus) (p : Pass)
    → IsLatched a
    → Steps a b
    → (quarantine_plan_of p b).scale_to_zero ≡ true
latched-Stays a b p l s = (latch_zero p b (kept s)).0
  where
    kept : {c : CaptureStatus} → Steps a c → IsLatched c
    kept done = l
    kept (then_step s t) = Step-IsLatched t (kept s)

-- ===== src/Operations/Examples.antt =====
-- A queue of two operations, the second of which requires the first.
use littlered.Prelude.{
  ◌≡◌, ◌≢◌, refl, inl, inr, true, false, none, [], ◌∷◌, In, ◌∙◌, sym, ap, arith, some, ◌&&◌, List,
  String,
}
use text.Mathlib.TextEquality.{eq_iff}
use littlered.Prelude.Int.{pos, ltb_ℤ, ◌-ℤ◌}
use littlered.Prelude.Sort.{sort_by}
use littlered.Replication.State.{lookup}
use littlered.Operations.Plan.{
  Candidate, OperationInput, plan_operation, rows, queue, pick_from, row_completed, release,
  operation_runnable, sorted_candidates, unseeded_of, pending_of, quarantined, OperationPlan,
  running, is_unseeded, is_changed, operation_stalled,
}
use littlered.Operations.Choice.{run-Runs, MayRun, Runs}
use littlered.Operations.Acks.{ack-Warranted, Warranted}
use littlered.Operations.Reported.{Accounted, plan_operation-Accounted}
use littlered.Operations.Wiring.{
  HeavyOperation, InstanceStatus, operation_candidates, put, acks_onto, build_operation_input,
  with_report, apply_operation_status,
}
use littlered.Operations.Wiring.Acknowledged.{IsKeyed, newest}
use littlered.Operations.Wiring.Passes.{Agrees, next_input, acknowledged_once}
use littlered.Operations.Wiring.Clock.{passes, RunsSince, stalled_since_first}

abbrev credential : Candidate
credential = record { name = "credential"; fingerprint = "new"; requires = []; stall_after = pos 0 }

abbrev reshard : Candidate
reshard = record {
  name = "reshard";
  fingerprint = "6";
  requires = "credential" ∷ [];
  stall_after = pos 600;
}

abbrev pass : OperationInput
pass = record {
  candidates = reshard ∷ credential ∷ [];
  acks = ("credential", "old") ∷ ("reshard", "3") ∷ [];
  quarantined = false;
  bootstrapping = false;
  settled = true;
  driver_done = true;
  driver_blocked = false;
  active = none;
  now = pos 1000;
}

abbrev held : OperationInput
held = record pass { quarantined = true }

completes : (plan_operation pass).ack ≡ credential ∷ []
unfolding plan_operation rows queue pick_from row_completed release operation_runnable sort_by
    lookup
completes = refl

starts_reshard : (plan_operation pass).run ≡ "reshard"
unfolding plan_operation rows queue pick_from row_completed release operation_runnable sort_by
    lookup
starts_reshard = refl

runs_one : (plan_operation pass).run ≢ ""
runs_one e = absurd (ground (arith, eq_iff "reshard" "", sym starts_reshard ∙ e))

run-Runs_example :
    MayRun pass (sorted_candidates pass) (unseeded_of pass)
    × Runs (pending_of pass) (plan_operation pass)
run-Runs_example = run-Runs pass runs_one

acks_credential : In credential (plan_operation pass).ack
acks_credential = rw completes (inl refl)

ack-Warranted_example :
    (pass.quarantined ≡ false)
    × Warranted pass (sorted_candidates pass) (unseeded_of pass) (pending_of pass) credential
ack-Warranted_example = ack-Warranted pass credential acks_credential

all_recorded : unseeded_of pass ≡ []
unfolding sort_by lookup
all_recorded = refl

plan_operation-Accounted_example : Accounted (pending_of pass) (plan_operation pass)
plan_operation-Accounted_example = plan_operation-Accounted pass (inr all_recorded)

held_reports : (plan_operation held).report ≡ "credential"
unfolding plan_operation rows littlered.Operations.Plan.row_quarantined sort_by lookup
held_reports = refl

-- An instance that recorded its old credential, where the declared one has arrived.
abbrev registry : List (HeavyOperation String)
registry =
    record {
      name = "credential";
      applies = some (λ _. true);
      fingerprint = λ declared. declared;
      requires = [];
      stall_after = pos 600;
    }
    ∷ []

abbrev recorded_old : InstanceStatus
recorded_old = record {
  acknowledged_operations =
      record { name = "credential"; fingerprint = "old"; acknowledged_at = pos 5 } ∷ [];
  quarantined_since = none;
  phase = "Running";
  bootstrap_required = false;
  operation = none;
  condition = none;
}

abbrev declared_new : OperationInput
declared_new =
    with_report (build_operation_input registry "new" recorded_old true (pos 100)) (true, false)

abbrev declared : Candidate
declared = record { name = "credential"; fingerprint = "new"; requires = []; stall_after = pos 600 }

one_name : Agrees (operation_candidates "new" registry)
unfolding operation_candidates
one_name c d (inl e) (inl f) same = ap (λ k. k.fingerprint) (f ∙ sym e)
one_name c d (inr i) m same = elim i [ ]
one_name c d (inl e) (inr j) same = elim j [ ]

acks_declared : (plan_operation declared_new).ack ≡ declared ∷ []
unfolding plan_operation rows queue pick_from row_completed release operation_runnable sort_by
    lookup build_operation_input operation_candidates acks_onto put
acks_declared = refl

acknowledged_once_example :
    let plan = plan_operation declared_new in
    let next = next_input registry "new" recorded_old plan (pos 100) true (pos 200) in
    (is_unseeded next.acks declared ≡ false)
    × (is_changed next.acks declared ≡ false)
    × IsKeyed
        (apply_operation_status recorded_old recorded_old plan (pos 100)).acknowledged_operations
    × ((n : String) → lookup n next.acks ≡ newest n plan.ack (lookup n declared_new.acks))
acknowledged_once_example =
    acknowledged_once registry "new" recorded_old (true, false) true true (pos 100) (pos 200)
      declared (tt, tt) one_name (rw acks_declared (inl refl))

abbrev renaming : OperationPlan
renaming = record {
  run = "credential";
  report = "credential";
  pending = [];
  reason = running;
  ack = [];
  detail = "credential is in progress";
}

named_credential : declared.name ≢ ""
named_credential e = absurd (ground (arith, eq_iff "credential" "", e))

stalled_since_first_example :
    let st = passes recorded_old ((renaming, pos 100) ∷ (renaming, pos 300) ∷ []) in
    RunsSince "credential" (pos 100) st
    × (operation_stalled (build_operation_input registry "new" st false (pos 800)) declared
        ≡ ltb_ℤ (pos 0) (pos 600) && ltb_ℤ (pos 600) (pos 800 -ℤ pos 100))
stalled_since_first_example =
    stalled_since_first registry "new" recorded_old renaming (pos 100) ((renaming, pos 300) ∷ [])
      false (pos 800) declared tt named_credential (refl, (refl, tt))

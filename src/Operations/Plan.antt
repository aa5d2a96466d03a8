-- ===== src/Operations/Plan.antt =====
-- internal/controller/operation_plan.go: planOperation and its helpers.
use littlered.Prelude.{
  Bool, true, false, not, ◌&&◌, Option, none, some, List, [], ◌∷◌, String, ◌==◌, string_eq,
  if◌then◌else◌, map, select, any, is_some,
}
use littlered.Prelude.Int.{ℤ, pos, ◌-ℤ◌, ltb_ℤ}
use littlered.Prelude.Sort.{by, sort_by}
use littlered.Replication.State.{lookup}
use Prim.Native.String.{◌++◌}

pub data Reason : Type 0 where
  converged running blocked stalled quarantined seeded : Reason

pub record Candidate : Type 0 where
  pub name : String
  pub fingerprint : String
  pub requires : List String
  pub stall_after : ℤ

-- status.operation; a zero `StartedAt` is `none`.
pub record OperationStatus : Type 0 where
  pub name : String
  pub started_at : Option ℤ
  pub reason : Reason
  pub pending : List String

pub record OperationInput : Type 0 where
  pub candidates : List Candidate
  pub acks : List (String × String)
  pub quarantined : Bool
  pub bootstrapping : Bool
  pub settled : Bool
  pub driver_done : Bool
  pub driver_blocked : Bool
  pub active : Option OperationStatus
  pub now : ℤ

pub record OperationPlan : Type 0 where
  pub run : String
  pub report : String
  pub pending : List String
  pub reason : Reason
  pub ack : List Candidate
  pub detail : String

-- `operationPlan{Reason: r}`.
abbrev pub only : Reason → OperationPlan
only r = record { run = ""; report = ""; pending = []; reason = r; ack = []; detail = "" }

abbrev pub operation_names : List Candidate → List String
operation_names = map (λ c. c.name)

abbrev pub operation_except : List Candidate → String → List Candidate
operation_except cands name = select (λ c. not (c.name == name)) cands

abbrev pub is_pending : List Candidate → String → Bool
is_pending pending req = any (λ c. c.name == req) pending

abbrev pub is_runnable : List Candidate → Candidate → Bool
is_runnable pending c = not (any (is_pending pending) c.requires)

unfoldable pub operation_runnable : List Candidate → List Candidate
operation_runnable pending = select (is_runnable pending) pending

stalled_since : Option ℤ → ℤ → ℤ → Bool
stalled_since none now stall_after = false
stalled_since (some started) now stall_after = ltb_ℤ stall_after (now -ℤ started)

stalled_by : Option OperationStatus → OperationInput → Candidate → Bool
stalled_by none inp c = false
stalled_by (some a) inp c =
    if not (a.name == c.name) then false else stalled_since a.started_at inp.now c.stall_after

unfoldable pub operation_stalled : OperationInput → Candidate → Bool
unfolding stalled_since stalled_by
operation_stalled inp c =
    if not (ltb_ℤ (pos 0) c.stall_after) then false else stalled_by inp.active inp c

-- The three-way classification of a candidate.
abbrev pub is_unseeded : List (String × String) → Candidate → Bool
is_unseeded acks c = not (is_some (lookup c.name acks))

abbrev differs : Option String → String → Bool
differs none fingerprint = false
differs (some ack) fingerprint = not (ack == fingerprint)

abbrev pub is_changed : List (String × String) → Candidate → Bool
is_changed acks c = differs (lookup c.name acks) c.fingerprint

-- Row 1.
unfoldable pub row_quarantined : List Candidate → OperationPlan
row_quarantined [] = only converged
row_quarantined (p ∷ ps) = record (only quarantined) {
  report = p.name;
  pending = operation_names ps;
  detail = "held: the instance is quarantined and has no pods to carry " ++ p.name ++ " out";
}

-- Row 8, over what is left to do and what of it is runnable.
unfoldable pub release : OperationPlan → List Candidate → List Candidate → OperationPlan
release plan [] next = plan
release plan (r ∷ rs) [] = record plan {
  reason = blocked;
  report = r.name;
  pending = operation_names rs;
  detail = plan.detail ++ "; the queue is blocked on a required operation";
}
release plan (r ∷ rs) (n ∷ ns) = record plan {
  reason = running;
  run = n.name;
  report = n.name;
  pending = operation_names (operation_except (r ∷ rs) n.name);
}

unfoldable pub row_completed : List Candidate → Candidate → OperationPlan
unfolding release
row_completed pending pick =
    let remaining = operation_except pending pick.name in
    release
      (record (only converged) {
        ack = pick ∷ [];
        detail = "completed: " ++ pick.name ++ " converged and the instance settled";
      })
      remaining (operation_runnable remaining)

-- Rows 7, 9 and 10.
unfoldable pub row_running : OperationInput → List Candidate → Candidate → OperationPlan
row_running inp pending pick =
    let plan = record (only running) {
      run = pick.name;
      report = pick.name;
      pending = operation_names (operation_except pending pick.name);
    } in
    if operation_stalled inp pick
    then record plan {
      reason = stalled;
      detail =
          pick.name
          ++ " has run past its StallAfter budget; it is not auto-exited (a timer would be the defect with a delay)";
    }
    else if inp.driver_blocked
    then record plan {
      reason = blocked;
      detail = pick.name ++ " reported blocked; the queue is held rather than skipped";
    }
    else if inp.driver_done
    then record plan {
      detail =
          pick.name
          ++ " converged, but the instance is still rolling; acknowledgment waits for it to settle";
    }
    else record plan { detail = pick.name ++ " is in progress" }

-- Rows 5 and 6, over the pending and the runnable candidates.
unfoldable pub pick_from : OperationInput → List Candidate → List Candidate → OperationPlan
pick_from inp [] runnable = only converged
pick_from inp (p ∷ ps) [] = record (only blocked) {
  report = p.name;
  pending = operation_names ps;
  detail = "blocked: every pending operation is waiting on a required operation";
}
pick_from inp (p ∷ ps) (pick ∷ _) =
    if inp.driver_done && inp.settled
    then row_completed (p ∷ ps) pick
    else row_running inp (p ∷ ps) pick

-- Rows 4 to 10.
unfoldable pub queue : OperationInput → List Candidate → OperationPlan
unfolding pick_from
queue inp pending = pick_from inp pending (operation_runnable pending)

abbrev non_empty : List Candidate → Bool
non_empty [] = false
non_empty (_ ∷ _) = true

-- All rows, over the sorted candidates and the two classes.
unfoldable pub rows :
    OperationInput → List Candidate → List Candidate → List Candidate → OperationPlan
rows inp cands unseeded pending =
    if inp.quarantined
    then row_quarantined pending
    else if inp.bootstrapping && non_empty cands
    then record (only seeded) {
      ack = cands;
      detail = "seeded at bootstrap: the instance already declares these values";
    }
    else if non_empty unseeded
    then record (only seeded) {
      ack = unseeded;
      detail =
          "seeded: no completion record yet, and the instance is already in the state its spec asks for";
    }
    else queue inp pending

abbrev pub sorted_candidates : OperationInput → List Candidate
sorted_candidates inp = sort_by (by (λ c. c.name)) inp.candidates

abbrev pub unseeded_of : OperationInput → List Candidate
unseeded_of inp = select (is_unseeded inp.acks) (sorted_candidates inp)

abbrev pub pending_of : OperationInput → List Candidate
pending_of inp = select (is_changed inp.acks) (sorted_candidates inp)

unfoldable pub plan_operation : OperationInput → OperationPlan
unfolding rows
plan_operation inp = rows inp (sorted_candidates inp) (unseeded_of inp) (pending_of inp)

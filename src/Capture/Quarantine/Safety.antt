-- ===== src/Capture/Quarantine/Safety.antt =====
-- What a pass that takes the pods away has seen, and what is asked for before the gather.
use littlered.Prelude.{
  ℕ, ◌≡◌, refl, ap, subst, ◌≢◌, ◌⊎◌, ◌↔◌, Bool, true, false, Option, none, some, List, [], ◌∷◌,
  String, string_eq, if◌then◌else◌, arith, any, All, is_some,
}
use littlered.Prelude.Int.{ℤ, pos, ltb_ℤ}
use text.Mathlib.TextEquality.{eq_iff}
use littlered.Replication.State.{RedisNodeState, lookup, unprovably_empty, values}
use littlered.Capture.Evidence.{CapturedBy}
use littlered.Capture.Verdict.{Lasted, forsaken_iff}
use littlered.Capture.Quarantine.{
  QuarantineInput, CaptureStatus, Pass, consider, keep, by_marker, plan_quarantine, maybe_ready,
  is_unverified, is_at_risk, quarantine_data_risk, quarantine_input_of, quarantine_plan_of,
  forsaken_plan_of, sentinel_desired_replicas, ungathered,
}

-- Taking the pod away loses nothing: where it answered, it has no keys or a synced copy of the
-- captor's; where it did not, it did not refuse the credential, and the kubelet calls it not ready.
pub record IsExpendable (redis_ready : List (String × Bool)) (foreign : String)
    (rn : RedisNodeState) : Type 0 where
  pub answered :
      rn.reachable ≡ true
      → (ltb_ℤ (pos 0) rn.keys ≡ false)
        ⊎ ((foreign ≢ "") × (rn.master_host ≡ foreign) × (rn.link_status ≡ "up"))
  pub silent :
      rn.reachable ≡ false
      → (unprovably_empty rn ≡ false) × (lookup rn.pod_name redis_ready ≡ some false)

maybe_ready-false : (o : Option Bool) → maybe_ready o ≡ false → o ≡ some false
maybe_ready-false none h = absurd (cc)
maybe_ready-false (some b) h = ap some h

pod-IsExpendable :
    (ready : List (String × Bool)) (foreign : String) (rn : RedisNodeState)
    → is_at_risk foreign rn ≡ false
    → is_unverified ready rn ≡ false
    → IsExpendable ready foreign rn
unfolding is_at_risk is_unverified
pod-IsExpendable ready foreign rn h k = record {
  answered = λ r.
      ground
        (arith, h, r, eq_iff foreign "", eq_iff rn.master_host foreign, eq_iff rn.link_status "up");
  silent = λ r.
      (ground (arith, k, r), maybe_ready-false (lookup rn.pod_name ready) (ground (arith, k, r)));
}

pods-IsExpendable :
    (ready : List (String × Bool)) (foreign : String) (ns : List RedisNodeState)
    → any (is_at_risk foreign) ns ≡ false
    → any (is_unverified ready) ns ≡ false
    → All (IsExpendable ready foreign) ns
pods-IsExpendable ready foreign [] h k = tt
pods-IsExpendable ready foreign (n ∷ ns) h k = (
  pod-IsExpendable ready foreign n (ground (arith, h)) (ground (arith, k)),
  pods-IsExpendable ready foreign ns (ground (arith, h)) (ground (arith, k)),
)

consider-arms :
    (i : QuarantineInput)
    → (consider i).arm ≡ true
    → (i.forsaken ≡ true) × (i.data_at_risk ≡ false) × (i.data_unverified ≡ false)
unfolding consider
consider-arms i h = ground (arith, h)

by_marker-arms :
    (i : QuarantineInput) (o : Option ℤ)
    → (by_marker i o).arm ≡ true
    → (i.forsaken ≡ true) × (i.data_at_risk ≡ false) × (i.data_unverified ≡ false)
unfolding by_marker keep
by_marker-arms i none h = consider-arms i h
by_marker-arms i (some since) h = absurd (ground (arith, h))

-- A pass that arms the quarantine has seen the four clauses of the capture for one address, the capture
-- was first seen at least forsakenCooldown before, and every gathered pod can be taken away without
-- losing data.
pub arm-IsExpendable :
    (p : Pass) (st : CaptureStatus)
    → (quarantine_plan_of p st).arm ≡ true
    → (foreign : String) × CapturedBy p.gathered foreign
      × Lasted st.forsaken_since p.now
      × All (IsExpendable p.redis_ready foreign) (values p.gathered.redis_nodes)
unfolding quarantine_plan_of plan_quarantine quarantine_input_of forsaken_plan_of
    quarantine_data_risk
arm-IsExpendable p st h =
    let a = by_marker-arms (quarantine_input_of p st) st.quarantined_since h in
    let foreign = (forsaken_plan_of p st).foreign_master in
    let c = (forsaken_iff p.gathered st.forsaken_since p.now p.rolling foreign).0 (a.0, refl) in
    (
      foreign,
      c.0,
      c.1,
      pods-IsExpendable p.redis_ready foreign (values p.gathered.redis_nodes) a.1 a.2,
    )

scale_agrees :
    (i j : QuarantineInput) (o : Option ℤ)
    → i.attempts ≡ j.attempts
    → i.dangerous ≡ j.dangerous
    → i.now ≡ j.now
    → is_some o ≡ true
    → (by_marker i o).scale_to_zero ≡ (by_marker j o).scale_to_zero
unfolding by_marker keep
scale_agrees i j none a d n h = absurd (cc)
scale_agrees i j (some since) a d n h = rw (a, d, n) refl

idle_scale :
    (st : CaptureStatus) (dangerous : Bool) (now : ℤ) (o : Option ℤ)
    → is_some o ≡ false
    → (by_marker (ungathered st dangerous now) o).scale_to_zero ≡ false
unfolding by_marker consider ungathered
idle_scale st dangerous now none h = refl
idle_scale st dangerous now (some since) h = absurd (cc)

abbrev pub nothing : ℕ × ℕ
nothing = (0, 0)

abbrev pub three_and_three : ℕ × ℕ
three_and_three = (3, 3)

none_iff : (b : Bool) → ((if b then nothing else three_and_three) ≡ nothing) ↔ (b ≡ true)
none_iff true = (λ _. refl, λ _. refl)
none_iff false = (λ e. absurd (ground (arith, ap (λ x. x.0) e)), λ e. absurd (cc))

-- While a quarantine is in force, the replicas that a sentinel-mode instance is given before the gather
-- are none exactly when the pass itself scales to zero at the same time and with the same
-- configuration; and where none is in force, they are three and three.
pub desired_replicas-agree :
    (p : Pass) (st : CaptureStatus)
    → (is_some st.quarantined_since ≡ true
        → (sentinel_desired_replicas "sentinel" st p.dangerous p.now ≡ nothing)
          ↔ ((quarantine_plan_of p st).scale_to_zero ≡ true))
      × (is_some st.quarantined_since ≡ false
          → sentinel_desired_replicas "sentinel" st p.dangerous p.now ≡ three_and_three)
unfolding sentinel_desired_replicas quarantine_plan_of plan_quarantine quarantine_input_of
    ungathered
desired_replicas-agree p st = (
  λ h.
      subst
        (λ b.
          ((if (by_marker (ungathered st p.dangerous p.now) st.quarantined_since).scale_to_zero
              then nothing
              else three_and_three)
            ≡ nothing)
          ↔ (b ≡ true))
        (scale_agrees (ungathered st p.dangerous p.now) (quarantine_input_of p st)
          st.quarantined_since refl refl refl h)
        (none_iff (by_marker (ungathered st p.dangerous p.now) st.quarantined_since).scale_to_zero),
  λ h. rw (idle_scale st p.dangerous p.now st.quarantined_since h) refl,
)

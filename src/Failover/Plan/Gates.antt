-- ===== src/Failover/Plan/Gates.antt =====
-- What `planFailover` has passed when it comes to its act step.
use littlered.Prelude.{
  ◌≡◌, refl, Bool, true, false, Option, List, [], ◌∷◌, String, string_eq, arith,
}
use text.Mathlib.TextEquality.{eq_iff}
use littlered.Prelude.Int.{ℤ}
use littlered.Replication.State.{
  RedisNodeState, ReplicationState, auth_failed_redis_nodes, data_holders,
}
use littlered.Failover.Plan.{
  FailoverAction, seed, promote, refuse, unsafe_elect, within, act, verify, plan_failover,
}

-- No live master, no transition in flight, the cooldown over, and no pod that refused the
-- operator's credential.
pub record Open (s : ReplicationState) (live : String) (unsettled : Bool) (since : Option ℤ)
    (now cooldown : ℤ) : Type 0 where
  pub leaderless : live ≡ ""
  pub settled : unsettled ≡ false
  pub cooled : within since now cooldown ≡ false
  pub verified : auth_failed_redis_nodes s ≡ []

-- The actions that come from the act step.
abbrev pub acts : FailoverAction → Bool
acts seed = true
acts promote = true
acts refuse = true
acts unsafe_elect = true
acts _ = false

verify-acts :
    (s : ReplicationState) (bad : List RedisNodeState) (u : Bool) (boot : String)
    → acts (verify s bad u boot).action ≡ true
    → bad ≡ []
unfolding verify
verify-acts s [] u boot h = refl
verify-acts s (n ∷ ns) u boot h = absurd (cc)

module _ (s : ReplicationState) (live : String) (u : Bool) (boot : String) (unsettled : Bool)
    (since : Option ℤ) (now cooldown : ℤ) where
  pub acts-Open :
      acts (plan_failover s live u boot unsettled since now cooldown).action ≡ true
      → Open s live unsettled since now cooldown
  unfolding plan_failover
  acts-Open h = record {
    leaderless = ground (arith, eq_iff live "");
    settled = ground arith;
    cooled = ground arith;
    verified = verify-acts s (auth_failed_redis_nodes s) u boot (ground arith);
  }

  pub Open-act :
      Open s live unsettled since now cooldown
      → plan_failover s live u boot unsettled since now cooldown ≡ act s (data_holders s) u boot
  unfolding plan_failover verify
  Open-act o = rw ((eq_iff live "").1 o.leaderless, o.settled, o.cooled, o.verified) refl

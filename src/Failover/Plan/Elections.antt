-- ===== src/Failover/Plan/Elections.antt =====
-- Which pod failover mode elects, and when it refuses to.
use littlered.Prelude.{
  ◌≡◌, refl, ◌≢◌, ◌⊎◌, inl, inr, Bool, true, false, Option, List, [], ◌∷◌, String, string_eq, arith,
  Bool-cases, ◌↔◌,
}
use littlered.Prelude.Int.{ℤ}
use littlered.Replication.State.{
  RedisNodeState, ReplicationState, auth_failed_redis_nodes, data_holders,
}
use littlered.Failover.Plan.{
  FailoverAction, FailoverPlan, seed, promote, refuse, unsafe_elect, plan_failover,
  master_start_authorized_for,
}
use littlered.Failover.Plan.Gates.{Open, acts, acts-Open, Open-act}
use littlered.Failover.Plan.Acting.{
  OneHistory, HasHolder, IsLossless, Acted, act-Acted, history_cases, verify_idle, act_empty,
}

mixed_action :
    {s : ReplicationState} {u : Bool} {p : FailoverPlan}
    → Acted s u p
    → ¬ OneHistory s
    → ((u ≡ false) × (p.action ≡ refuse)) ⊎ ((u ≡ true) × (p.action ≡ unsafe_elect))
mixed_action {u = u} A y = elim (Bool-cases u) [
  | inl v ↦ inr (v, (A.forces y v).0)
  | inr v ↦ inl (v, (A.refuses y v).0)
]

not_mixed :
    {s : ReplicationState} {u : Bool} {p : FailoverPlan}
    → Acted s u p
    → ¬ OneHistory s
    → p.action ≢ promote
not_mixed A y e = ground (arith, mixed_action A y)

not_seed :
    {s : ReplicationState} {u : Bool} {p : FailoverPlan}
    → Acted s u p
    → ¬ OneHistory s
    → p.action ≢ seed
not_seed A y e = ground (arith, mixed_action A y)

not_forced :
    {s : ReplicationState} {u : Bool} {p : FailoverPlan}
    → Acted s u p
    → ¬ OneHistory s
    → p.action ≡ refuse
    → u ≡ false
not_forced A y e = ground (arith, mixed_action A y)

seed_of : (a : FailoverAction) → master_start_authorized_for a ≡ true → a ≡ seed
unfolding master_start_authorized_for
seed_of a h = ground arith

module _ (s : ReplicationState) (live : String) (u : Bool) (boot : String) (unsettled : Bool)
    (since : Option ℤ) (now cooldown : ℤ) where
  abbrev plan : FailoverPlan
  plan = plan_failover s live u boot unsettled since now cooldown

  data Verdict : Type 0 where
    idle : acts plan.action ≡ false → plan.master_ip ≡ "" → Verdict
    empty :
        Open s live unsettled since now cooldown
        → data_holders s ≡ []
        → boot ≢ ""
        → plan.action ≡ seed
        → plan.master_ip ≡ boot
        → Verdict
    held : Open s live unsettled since now cooldown → HasHolder s → Acted s u plan → Verdict

  plan_idle : acts plan.action ≡ false → plan.master_ip ≡ ""
  unfolding plan_failover
  plan_idle h = ground (arith, verify_idle s (auth_failed_redis_nodes s) u boot)

  verdict : Verdict
  verdict = elim (Bool-cases (acts plan.action)) [
    | inl h ↦
        opened h (acts-Open s live u boot unsettled since now cooldown h) (data_holders s) refl
    | inr h ↦ idle h (plan_idle h)
  ]
    where
      opened :
          acts plan.action ≡ true
          → Open s live unsettled since now cooldown
          → (hs : List RedisNodeState) → data_holders s ≡ hs
          → Verdict
      opened h o [] e =
          let same = Open-act s live u boot unsettled since now cooldown o in
          let (nb, a, i) = act_empty s (data_holders s) u boot e (rw same at h) in
          empty o e nb (rw same a) (rw same i)
      opened h o (n ∷ ns) e =
          let same = Open-act s live u boot unsettled since now cooldown o in
          held o (λ e'. ground arith)
            (rw same (act-Acted s (data_holders s) u boot refl (λ e'. ground arith)))

  of_Open : Open s live unsettled since now cooldown → HasHolder s → Acted s u plan
  of_Open o n =
      rw (Open-act s live u boot unsettled since now cooldown o)
        (act-Acted s (data_holders s) u boot refl n)

  -- The plan promotes exactly when all gates are open, some pod holds data, and the holders have
  -- one history; the pod that it then names is the most complete holder.
  pub promote_iff :
      (plan.action ≡ promote)
      ↔ (Open s live unsettled since now cooldown × HasHolder s × IsLossless s plan.master_ip)
  promote_iff = (forth verdict, back)
    where
      forth :
          Verdict
          → plan.action ≡ promote
          → Open s live unsettled since now cooldown × HasHolder s × IsLossless s plan.master_ip
      forth (idle h _) e = absurd (ground arith)
      forth (empty _ _ _ a _) e = absurd (ground arith)
      forth (held o n A) e = elim (history_cases s) [
        | inl y ↦ (
          o,
          n,
          record { node = A.node; elected = A.elected; address = (A.promotes y).1; history = y },
        )
        | inr y ↦ absurd (not_mixed A y e)
      ]

      back :
          Open s live unsettled since now cooldown × HasHolder s × IsLossless s plan.master_ip
          → plan.action ≡ promote
      back (o, n, l) = ((of_Open o n).promotes l.history).0

  -- The plan refuses exactly when all gates are open, data is held, the holders do not have one
  -- history, and the owner has not opted in.
  pub refuse_iff :
      (plan.action ≡ refuse)
      ↔ (Open s live unsettled since now cooldown × HasHolder s × (¬ OneHistory s) × (u ≡ false))
  refuse_iff = (forth verdict, λ (o, n, y, v). ((of_Open o n).refuses y v).0)
    where
      forth :
          Verdict
          → plan.action ≡ refuse
          → Open s live unsettled since now cooldown × HasHolder s × (¬ OneHistory s) × (u ≡ false)
      forth (idle h _) e = absurd (ground arith)
      forth (empty _ _ _ a _) e = absurd (ground arith)
      forth (held o n A) e = elim (history_cases s) [
        | inl y ↦ absurd (ground (arith, A.promotes y))
        | inr y ↦ (o, n, y, not_forced A y e)
      ]

  -- With the opt-in off, a pod is named only where no pod holds data, as the bootstrap candidate,
  -- or where its election loses nothing.
  pub named-IsLossless :
      u ≡ false
      → plan.master_ip ≢ ""
      → ((data_holders s ≡ []) × (plan.master_ip ≡ boot)) ⊎ IsLossless s plan.master_ip
  named-IsLossless v n = named verdict
    where
      named :
          Verdict → ((data_holders s ≡ []) × (plan.master_ip ≡ boot)) ⊎ IsLossless s plan.master_ip
      named (idle _ i) = absurd (n i)
      named (empty _ e _ _ i) = inl (e, i)
      named (held o _ A) = elim (history_cases s) [
        | inl y ↦
            inr (record {
              node = A.node;
              elected = A.elected;
              address = (A.promotes y).1;
              history = y;
            })
        | inr y ↦ absurd (n (A.refuses y v).1)
      ]

  -- The permission to start a fresh process as master goes with no plan but one made
  -- while no pod holds data and none refused the credential, and that names the bootstrap
  -- candidate, which has an address.
  pub start_authorized :
      master_start_authorized_for plan.action ≡ true
      → (data_holders s ≡ [])
        × (auth_failed_redis_nodes s ≡ [])
        × (plan.master_ip ≡ boot)
        × (boot ≢ "")
  start_authorized h = go verdict
    where
      seeds : plan.action ≡ seed
      seeds = seed_of plan.action h

      go :
          Verdict
          → (data_holders s ≡ [])
            × (auth_failed_redis_nodes s ≡ [])
            × (plan.master_ip ≡ boot)
            × (boot ≢ "")
      go (idle i _) = absurd (ground (arith, seeds))
      go (empty o e nb _ i) = (e, o.verified, i, nb)
      go (held o _ A) = elim (history_cases s) [
        | inl y ↦ absurd (ground (arith, seeds, A.promotes y))
        | inr y ↦ absurd (not_seed A y seeds)
      ]

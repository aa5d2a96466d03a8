-- ===== src/Recovery/Warrant.antt =====
-- What stands behind a pod that a recovery names: the gates, and that no data is discarded.
use littlered.Prelude.{
  ℕ, ◌≡◌, refl, sym, subst, ◌≢◌, ◌⊎◌, inl, inr, Bool, true, false, not, ◌||◌, Option, none, some,
  List, [], ◌∷◌, String, ◌==◌, string_eq, arith, Bool-cases, length, ltb,
}
use littlered.Prelude.Int.{ℤ, ◌-ℤ◌, ltb_ℤ}
use text.Mathlib.TextEquality.{eq_iff}
use littlered.Replication.State.{
  RedisNodeState, ReplicationState, auth_failed_redis_nodes, data_holders,
}
use littlered.Replication.BestHolder.{Best, best_data_holder}
use littlered.Replication.BestHolder.Chosen.{best_data_holder-Elected, best_data_holder_found}
use littlered.Replication.Sentinels.{
  all_sentinels_bare, reachable_sentinels, sentinels_monitor_ghost_master,
}
use littlered.Replication.Sentinels.Gates.{has_healthy_known_replica}
use littlered.Failover.Plan.Acting.{IsLossless, history_iff}
use littlered.Recovery.{
  LeaderlessPlan, unprovably_empty_veto, after_cooldown, seeded, act_by_count, act_by_lineage,
  elect_survivor, plan_leaderless_recovery, plan_ghost_master_recovery,
}

-- The deadlock was first seen at least the cooldown ago.
abbrev pub Persisted : Option ℤ → ℤ → ℤ → Type 0
Persisted none now cooldown = ⊥
Persisted (some since) now cooldown = ltb_ℤ (now -ℤ since) cooldown ≡ false

-- No pod holds data and the pod is the bootstrap master.
abbrev pub Seeds : ReplicationState → String → String → Type 0
Seeds s bootstrap ip = (data_holders s ≡ []) × (ip ≡ bootstrap)

-- The pod is the only one that holds data.
abbrev pub IsSole : ReplicationState → String → Type 0
IsSole s ip = (h : RedisNodeState) × (data_holders s ≡ h ∷ []) × (ip ≡ h.ip)

-- Both gates after the detection let the act step through.
gates :
    (bad : List RedisNodeState) (since : Option ℤ) (now cooldown : ℤ) (plan : LeaderlessPlan)
    → (after_cooldown since now cooldown (unprovably_empty_veto bad plan)).master_ip ≢ ""
    → Persisted since now cooldown
      × (bad ≡ [])
      × (after_cooldown since now cooldown (unprovably_empty_veto bad plan) ≡ plan)
unfolding after_cooldown unprovably_empty_veto
gates bad none now cooldown plan n = absurd (n refl)
gates [] (some since) now cooldown plan n = elim (Bool-cases (ltb_ℤ (now -ℤ since) cooldown)) [
  | inl e ↦ absurd (rw e at n refl)
  | inr e ↦ (e, refl, rw e refl)
]
gates (b ∷ bs) (some since) now cooldown plan n =
    elim (Bool-cases (ltb_ℤ (now -ℤ since) cooldown)) [
      | inl e ↦ absurd (rw e at n refl)
      | inr e ↦ absurd (rw e at n refl)
    ]

seeded_ip : (boot : String) → (seeded boot).master_ip ≢ "" → (seeded boot).master_ip ≡ boot
seeded_ip boot n = elim (Bool-cases (boot == "")) [
  | inl e ↦ absurd (rw e at n refl)
  | inr e ↦ rw e refl
]

counted :
    (s : ReplicationState) (hs : List RedisNodeState) (boot : String)
    → data_holders s ≡ hs
    → (act_by_count s hs false boot).master_ip ≢ ""
    → Seeds s boot (act_by_count s hs false boot).master_ip
      ⊎ IsSole s (act_by_count s hs false boot).master_ip
unfolding act_by_count
counted s [] boot e n = inl (e, seeded_ip boot n)
counted s (h ∷ []) boot e n = inr (h, e, refl)
counted s (h ∷ k ∷ hs) boot e n = absurd (n refl)

survivor :
    (b : Best) (k : ℕ) (n : RedisNodeState)
    → b.best ≡ some n
    → (elect_survivor b false k).master_ip ≢ ""
    → ((b.diverged || b.forked) ≡ false) × ((elect_survivor b false k).master_ip ≡ n.ip)
unfolding elect_survivor
survivor b k n e m = elim (Bool-cases (b.diverged || b.forked)) [
  | inl f ↦ absurd (rw (e, f) at m refl)
  | inr f ↦ (f, rw (e, f) refl)
]

by_lineage :
    (s : ReplicationState) (hs : List RedisNodeState) (boot : String)
    → data_holders s ≡ hs
    → (act_by_lineage s hs false boot).master_ip ≢ ""
    → Seeds s boot (act_by_lineage s hs false boot).master_ip
      ⊎ IsLossless s (act_by_lineage s hs false boot).master_ip
unfolding act_by_lineage
by_lineage s [] boot e n = inl (e, seeded_ip boot n)
by_lineage s (h ∷ hs) boot e n =
    let found = best_data_holder_found s e in
    let chosen = survivor (best_data_holder s) (length (h ∷ hs)) found.0 found.1 n in
    inr (record {
      node = found.0;
      elected = best_data_holder-Elected s found.0 found.1;
      address = chosen.1;
      history = (history_iff s).0 (rw (found.2, found.3) at chosen.0);
    })

module _ (s : ReplicationState) (quorum : ℕ) (boot : String) (since : Option ℤ)
    (now cooldown : ℤ) where
  -- The gates of Rule L.
  pub record BareGates : Type 0 where
    pub bare : (all_sentinels_bare s).0 ≡ true
    pub quorate : ltb (all_sentinels_bare s).1 quorum ≡ false
    pub persisted : Persisted since now cooldown
    pub verified : auth_failed_redis_nodes s ≡ []

  -- The gates of the ghost-master recovery.
  pub record GhostGates : Type 0 where
    pub ghost : sentinels_monitor_ghost_master s ≡ true
    pub stuck : has_healthy_known_replica s ≡ false
    pub quorate : ltb (reachable_sentinels s) quorum ≡ false
    pub persisted : Persisted since now cooldown
    pub verified : auth_failed_redis_nodes s ≡ []

  leaderless_gates :
      (u : Bool)
      → (plan_leaderless_recovery s quorum u boot since now cooldown).master_ip ≢ ""
      → BareGates
        × (plan_leaderless_recovery s quorum u boot since now cooldown
            ≡ act_by_count s (data_holders s) u boot)
  unfolding plan_leaderless_recovery
  leaderless_gates u n =
      elim (Bool-cases (not (all_sentinels_bare s).0 || ltb (all_sentinels_bare s).1 quorum)) [
        | inl e ↦ absurd (rw e at n refl)
        | inr e ↦
            let g =
              gates (auth_failed_redis_nodes s) since now cooldown
                (act_by_count s (data_holders s) u boot) (rw e at n) in
            rw e (
              record {
                bare = ground (arith, e);
                quorate = ground (arith, e);
                persisted = g.0;
                verified = g.1;
              },
              g.2,
            )
      ]

  ghost_gates :
      (u : Bool)
      → (plan_ghost_master_recovery s quorum u boot since now cooldown).master_ip ≢ ""
      → GhostGates
        × (plan_ghost_master_recovery s quorum u boot since now cooldown
            ≡ act_by_lineage s (data_holders s) u boot)
  unfolding plan_ghost_master_recovery
  ghost_gates u n =
      elim (Bool-cases (not (sentinels_monitor_ghost_master s) || has_healthy_known_replica s)) [
        | inl e ↦ absurd (rw e at n refl)
        | inr e ↦ elim (Bool-cases (ltb (reachable_sentinels s) quorum)) [
          | inl f ↦ absurd (rw (e, f) at n refl)
          | inr f ↦
              let g =
                gates (auth_failed_redis_nodes s) since now cooldown
                  (act_by_lineage s (data_holders s) u boot) (rw (e, f) at n) in
              rw (e, f)
                (
                  record {
                    ghost = ground (arith, e);
                    stuck = ground (arith, e);
                    quorate = f;
                    persisted = g.0;
                    verified = g.1;
                  },
                  g.2,
                )
        ]
      ]

  -- With the opt-in off, where planLeaderlessRecovery names a pod, a quorum of Sentinels is reachable
  -- and none monitors, the deadlock persisted for the cooldown, no pod refused the credential, and
  -- either no pod holds data and the pod is the bootstrap master, or it is the only pod that holds data.
  pub leaderless-Seeds :
      (plan_leaderless_recovery s quorum false boot since now cooldown).master_ip ≢ ""
      → BareGates
        × (Seeds s boot (plan_leaderless_recovery s quorum false boot since now cooldown).master_ip
            ⊎ IsSole s (plan_leaderless_recovery s quorum false boot since now cooldown).master_ip)
  leaderless-Seeds n =
      let g = leaderless_gates false n in
      (
        g.0,
        subst (λ p. Seeds s boot p.master_ip ⊎ IsSole s p.master_ip) (sym g.1)
            (counted s (data_holders s) boot refl (subst (λ p. p.master_ip ≢ "") g.1 n)),
      )

  -- With the opt-in off, where planGhostMasterRecovery names a pod, a majority of a quorum of Sentinels
  -- watches a ghost and none knows a healthy replica, the deadlock persisted for the cooldown, no pod
  -- refused the credential, and either no pod holds data and the pod is the bootstrap master, or it is
  -- the most complete of holders with one history.
  pub ghost_recovery-IsLossless :
      (plan_ghost_master_recovery s quorum false boot since now cooldown).master_ip ≢ ""
      → GhostGates
        × (Seeds s boot
              (plan_ghost_master_recovery s quorum false boot since now cooldown).master_ip
            ⊎ IsLossless s
                (plan_ghost_master_recovery s quorum false boot since now cooldown).master_ip)
  ghost_recovery-IsLossless n =
      let g = ghost_gates false n in
      (
        g.0,
        subst (λ p. Seeds s boot p.master_ip ⊎ IsLossless s p.master_ip) (sym g.1)
            (by_lineage s (data_holders s) boot refl (subst (λ p. p.master_ip ≢ "") g.1 n)),
      )

  -- Whatever the opt-in, neither planner names a pod while a pod refuses the credential.
  pub recovery-Verified :
      (u : Bool)
      → auth_failed_redis_nodes s ≢ []
      → ((plan_leaderless_recovery s quorum u boot since now cooldown).master_ip ≡ "")
        × ((plan_ghost_master_recovery s quorum u boot since now cooldown).master_ip ≡ "")
  recovery-Verified u bad = (
    elim (Bool-cases
        ((plan_leaderless_recovery s quorum u boot since now cooldown).master_ip == "")) [
          | inl e ↦ (eq_iff _ "").0 e
          | inr e ↦
              absurd
                (bad ((leaderless_gates u (λ p. ground (arith, (eq_iff _ "").1 p, e))).0.verified))
        ],
    elim (Bool-cases
        ((plan_ghost_master_recovery s quorum u boot since now cooldown).master_ip == "")) [
          | inl e ↦ (eq_iff _ "").0 e
          | inr e ↦
              absurd (bad ((ghost_gates u (λ p. ground (arith, (eq_iff _ "").1 p, e))).0.verified))
        ],
  )

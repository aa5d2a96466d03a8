-- ===== src/Naming/Prune.antt =====
-- What a name that is pruned has to be.
use littlered.Prelude.{
  ℕ, ◌≡◌, refl, sym, ◌∙◌, subst, ◌≢◌, ◌⊎◌, inl, inr, Bool, true, false, not, ◌&&◌, ◌||◌, List, [],
  ◌∷◌, map, String, ◌==◌, string_eq, nat_eq, if◌then◌else◌, arith, ltb, any, select, In, any-In,
  In-of_map, In-of_select, Bool-cases,
}
use littlered.Prelude.Sort.{by, In-of_sort_by}
use littlered.Prelude.Text.{str_ltb}
use text.Mathlib.TextEquality.{eq_iff}
use littlered.Replication.State.{
  MonitoredMaster, ReplicationState, SentinelNodeState, is_ours, values,
}
use littlered.Replication.Sentinels.{flagged_down, reachable_sentinels}
use littlered.Naming.{
  StaleEntry, foreign, says, defer_stale_names, stale_masters, name_of, has_desired, is_unowned,
  non_empty, is_reachable, any_failover, any_stale, any_unowned, carriers, entry_of, stale_entries,
  skipped_pods, has_living_master, prune_entries, plan_stale_master_names,
}

-- A name that is not the desired one, at an address that is ours or flagged down.
pub record IsDebris (s : ReplicationState) (desired : String) (sn : SentinelNodeState)
    (name : String) : Type 0 where
  pub master : MonitoredMaster
  pub monitored : In master sn.monitored_masters
  pub named : name ≡ master.name
  pub stale : name ≢ desired
  pub owned : (is_ours s master.ip ≡ true) ⊎ (flagged_down master.flags ≡ true)

-- The entry is about a reachable Sentinel that goes on monitoring the desired name.
pub record IsPermitted (s : ReplicationState) (desired : String) (e : StaleEntry) : Type 0 where
  pub sentinel : SentinelNodeState
  pub listed : In sentinel (values s.sentinel_nodes)
  pub reachable : sentinel.reachable ≡ true
  pub address : e.sentinel_ip ≡ sentinel.ip
  pub keeps : has_desired desired sentinel ≡ true
  pub debris : (n : String) → In n e.names → IsDebris s desired sentinel n

-- The gates of the whole instance.
pub record IsClear (s : ReplicationState) (desired : String) (quorum : ℕ) (captured : Bool)
    : Type 0 where
  pub free : captured ≡ false
  pub named : desired ≢ ""
  pub mastered : has_living_master s ≡ true
  pub quiet : any_failover (values s.sentinel_nodes) || s.failover_reported ≡ false
  pub quorate : (ltb (reachable_sentinels s) quorum ≡ false) × (reachable_sentinels s ≢ 0)

entries_In :
    (es : List StaleEntry) (skipped : List String) (e : StaleEntry)
    → In e (prune_entries es skipped).prune
    → In e es
unfolding prune_entries defer_stale_names
entries_In [] skipped e m = m
entries_In (x ∷ es) skipped e m = m

none_then :
    (rolling : Bool) (e : StaleEntry)
    → ¬ In e (if rolling then defer_stale_names "G5" else says foreign "").prune
unfolding defer_stale_names
none_then true e m = m
none_then false e m = m

entry_address :
    (desired : String) (sn : SentinelNodeState) → (entry_of desired sn).sentinel_ip ≡ sn.ip
unfolding entry_of
entry_address desired sn = refl

pruned_by :
    (s : ReplicationState) (desired : String) (quorum : ℕ) (captured rolling : Bool)
    (e : StaleEntry)
    → In e (plan_stale_master_names s desired quorum captured rolling).prune
    → IsClear s desired quorum captured
      × (any_unowned s desired (values s.sentinel_nodes) ≡ false)
      × In e (stale_entries desired (values s.sentinel_nodes))
unfolding plan_stale_master_names defer_stale_names
pruned_by s desired quorum true rolling e m = absurd m
pruned_by s desired quorum false rolling e m =
    let sns = values s.sentinel_nodes in
    elim (Bool-cases (desired == "")) [
      | inl b ↦ absurd (rw b at m)
      | inr b ↦ elim (Bool-cases (any_stale desired sns)) [
        | inr c ↦ absurd (rw (b, c) at m)
        | inl c ↦ elim (Bool-cases (any_unowned s desired sns)) [
          | inl d ↦ absurd (none_then rolling e (rw (b, c, d) at m))
          | inr d ↦ elim (Bool-cases (has_living_master s)) [
            | inr f ↦ absurd (rw (b, c, d, f) at m)
            | inl f ↦ elim (Bool-cases (any_failover sns || s.failover_reported)) [
              | inl g ↦ absurd (rw (b, c, d, f, g) at m)
              | inr g ↦
                  elim (Bool-cases
                    (ltb (reachable_sentinels s) quorum || reachable_sentinels s == 0)) [
                      | inl h ↦ absurd (rw (b, c, d, f, g, h) at m)
                      | inr h ↦ (
                        record {
                          free = refl;
                          named = λ p. ground (arith, (eq_iff desired "").1 p, b);
                          mastered = f;
                          quiet = g;
                          quorate = (ground (arith, h), ground (arith, h));
                        },
                        d,
                        entries_In (stale_entries desired sns) (skipped_pods desired sns) e
                            (rw (b, c, d, f, g, h) at m),
                      )
                    ]
            ]
          ]
        ]
      ]
    ]

names-IsDebris :
    (s : ReplicationState) (desired : String) (sn : SentinelNodeState) (n : String)
    → any (is_unowned s) (stale_masters desired sn) ≡ false
    → In n (entry_of desired sn).names
    → IsDebris s desired sn n
unfolding entry_of is_unowned stale_masters
names-IsDebris s desired sn n u m =
    let found =
      In-of_map name_of n (stale_masters desired sn)
        (In-of_sort_by str_ltb n (map name_of (stale_masters desired sn)) m) in
    let chosen = In-of_select (λ x. not (x.name == desired)) found.0 sn.monitored_masters found.1 in
    let owned = any-In (is_unowned s) (stale_masters desired sn) found.0 u found.1 in
    record {
      master = found.0;
      monitored = chosen.0;
      named = found.2;
      stale = λ p. ground (arith, chosen.1, (eq_iff found.0.name desired).1 (sym found.2 ∙ p));
      owned = ground (arith, owned);
    }

entry-IsPermitted :
    (s : ReplicationState) (desired : String) (e : StaleEntry)
    → any_unowned s desired (values s.sentinel_nodes) ≡ false
    → In e (stale_entries desired (values s.sentinel_nodes))
    → IsPermitted s desired e
unfolding stale_entries carriers any_unowned
entry-IsPermitted s desired e u m =
    let sns = values s.sentinel_nodes in
    let found = In-of_map (entry_of desired) e (carriers true desired sns) (
      In-of_sort_by (by (λ x. x.sentinel_pod)) e
        (map (entry_of desired) (carriers true desired sns)) m) in
    let sn = found.0 in
    let carried =
      In-of_select (λ x. non_empty (stale_masters desired x) && has_desired desired x) sn
        (select is_reachable sns) found.1 in
    let live = In-of_select is_reachable sn sns carried.0 in
    let owned =
      any-In (λ x. any (is_unowned s) (stale_masters desired x)) (select is_reachable sns) sn u
        carried.0 in
    subst (IsPermitted s desired) (sym found.2) (record {
      sentinel = sn;
      listed = live.0;
      reachable = live.1;
      address = entry_address desired sn;
      keeps = ground (arith, carried.1);
      debris = λ n i. names-IsDebris s desired sn n owned i;
    })

-- A plan of planStaleMasterNames that prunes anything is made only where the instance is not captured,
-- the desired name is not empty, a reachable live pod of ours is the real master, no Sentinel reports a
-- failover, and a quorum of Sentinels is reachable. Each entry is about a gathered, reachable Sentinel
-- that monitors the desired name, and each name in it is another one that this Sentinel monitors, at an
-- address that is ours or flagged down.
pub prune-IsPermitted :
    (s : ReplicationState) (desired : String) (quorum : ℕ) (captured rolling : Bool)
    (e : StaleEntry)
    → In e (plan_stale_master_names s desired quorum captured rolling).prune
    → IsClear s desired quorum captured × IsPermitted s desired e
prune-IsPermitted s desired quorum captured rolling e m =
    let t = pruned_by s desired quorum captured rolling e m in
    (t.0, entry-IsPermitted s desired e t.1 t.2)

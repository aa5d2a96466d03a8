-- ===== src/Replication/Sentinels/Fallback.antt =====
-- What `DetermineRealMaster` decides: the live address that has a majority, and where there is none,
-- what the fallback to the Redis pods requires.
use littlered.Prelude.{
  ℕ, ◌+◌, ◌/◌, ◌≤◌, ◌≡◌, refl, sym, ◌∙◌, subst, ◌≢◌, inl, inr, Bool, true, false, not, ◌&&◌, ◌||◌,
  Option, none, some, List, String, arith, leb, ltb, count_if, any, In, Option-cases, Bool-cases,
  find_first, count_if_disjoint, find_first-In, ◌==◌, string_eq,
}
use text.Mathlib.TextEquality.{eq_iff}
use littlered.Replication.State.{
  RedisNodeState, ReplicationState, SentinelNodeState, contains, is_ghost, values,
}
use littlered.Replication.Sentinels.{
  tally, elected_by, ghost_votes, watches_ghost, reachable_sentinels, note_failovers,
  is_redis_master, fall_back, decide, count_and_decide, determine_real_master,
  sentinels_monitor_ghost_master, reports_failover,
}
use littlered.Replication.Sentinels.Votes.{
  names, HasMajority, elected_by-HasMajority, elected_by-of_HasMajority, ghost_votes-tally,
}

-- The address that a majority of the reachable Sentinels names, and that belongs to a pod that counts
-- as live, is the real master.
pub majority-RealMaster :
    (s : ReplicationState) (ip : String)
    → HasMajority s ip
    → (determine_real_master s).real_master_ip ≡ ip
unfolding determine_real_master count_and_decide note_failovers decide reachable_sentinels
majority-RealMaster s ip h =
    rw (elected_by-of_HasMajority (note_failovers s) ip (record { won = h.won; live = h.live }))
      refl

-- No Sentinel reports a failover, no majority watches a ghost, and the pod answered as a master.
pub record FallsBackTo (s : ReplicationState) (ip : String) : Type 0 where
  pub quiet : (s.failover_reported || any reports_failover (values s.sentinel_nodes)) ≡ false
  pub no_ghost : sentinels_monitor_ghost_master s ≡ false
  pub node : RedisNodeState
  pub listed : In node (values s.redis_nodes)
  pub writable : is_redis_master node ≡ true
  pub address : ip ≡ node.ip

abbrev reachable_of : SentinelNodeState → Bool
reachable_of sn = sn.reachable

-- The Sentinels that watch a ghost and those that name a live address are different ones.
ghosts_apart :
    (s : ReplicationState) (ip : String)
    → contains ip s.live_topology_ips ≡ true
    → (sns : List SentinelNodeState)
    → count_if (watches_ghost s) sns + count_if (names ip) sns ≤ count_if reachable_of sns
unfolding is_ghost
ghosts_apart s ip l =
    count_if_disjoint (watches_ghost s) (names ip) reachable_of
      (λ x h k. ground (
        arith,
        h,
        k,
        subst (λ y. contains y s.live_topology_ips ≡ true)
            (sym ((eq_iff x.master_ip ip).0 (ground (arith, k)))) l,
      ))
      (λ x h. ground (arith, h)) (λ x h. ground (arith, h))

ghosts_reachable :
    (s : ReplicationState) (sns : List SentinelNodeState)
    → count_if (watches_ghost s) sns ≤ count_if reachable_of sns
unfolding is_ghost
ghosts_reachable s sns = ground (
  arith,
  count_if_disjoint (watches_ghost s) (λ _. false) reachable_of (λ x h k. ground (arith, k))
      (λ x h. ground (arith, h)) (λ x h. ground (arith, h)) sns,
)

monitors_ghost :
    (s : ReplicationState)
    → sentinels_monitor_ghost_master s
      ≡ leb (reachable_sentinels s / 2 + 1) (ghost_votes s (tally (values s.sentinel_nodes)))
unfolding sentinels_monitor_ghost_master reachable_sentinels
monitors_ghost s = ground (
  arith,
  ghosts_reachable s (values s.sentinel_nodes),
  ghost_votes-tally s (values s.sentinel_nodes),
)

decide-FallsBackTo :
    (s : ReplicationState) (o : Option String) (majority ghosts : ℕ)
    → o ≡ none
    → s.real_master_ip ≡ ""
    → (decide s o majority ghosts).real_master_ip ≢ ""
    → (s.failover_reported ≡ false)
      × (leb majority ghosts ≡ false)
      × ((n : RedisNodeState) × (find_first is_redis_master (values s.redis_nodes) ≡ some n)
          × ((decide s o majority ghosts).real_master_ip ≡ n.ip))
unfolding decide fall_back
decide-FallsBackTo s (some ip) majority ghosts o e n = absurd (cc)
decide-FallsBackTo s none majority ghosts o e n =
    elim (Bool-cases (not s.failover_reported && ltb ghosts majority)) [
      | inl c ↦ elim (Option-cases (find_first is_redis_master (values s.redis_nodes))) [
        | inl f ↦ absurd (rw (c, f) at n e)
        | inr (x, f) ↦ rw c (ground arith, ground arith, (x, f, rw f refl))
      ]
      | inr c ↦ absurd (rw c at n e)
    ]

-- The last step, on a state whose failovers are noted.
counted-FallsBackTo :
    (s : ReplicationState)
    → s.real_master_ip ≡ ""
    → ((ip : String) → ¬ HasMajority s ip)
    → (count_and_decide s).real_master_ip ≢ ""
    → (s.failover_reported ≡ false)
      × (sentinels_monitor_ghost_master s ≡ false)
      × ((n : RedisNodeState) × In n (values s.redis_nodes)
          × (is_redis_master n ≡ true)
          × ((count_and_decide s).real_master_ip ≡ n.ip))
unfolding count_and_decide
counted-FallsBackTo s e none_won n = (d.0, monitors_ghost s ∙ d.1, (d.2.0, found.0, found.1, d.2.2))
  where
    majority : ℕ
    majority = reachable_sentinels s / 2 + 1

    counts : List (String × ℕ)
    counts = tally (values s.sentinel_nodes)

    no_winner : elected_by s majority counts ≡ none
    no_winner = elim (Option-cases (elected_by s majority counts)) [
      | inl f ↦ f
      | inr (a, f) ↦ absurd (none_won a (elected_by-HasMajority s a f))
    ]

    d :
        (s.failover_reported ≡ false)
        × (leb majority (ghost_votes s counts) ≡ false)
        × ((n : RedisNodeState) × (find_first is_redis_master (values s.redis_nodes) ≡ some n)
            × ((decide s
                  (elected_by s majority counts)
                  majority
                  (ghost_votes s counts)).real_master_ip
                ≡ n.ip))
    d =
        decide-FallsBackTo s (elected_by s majority counts) majority (ghost_votes s counts)
          no_winner e n

    found : In d.2.0 (values s.redis_nodes) × (is_redis_master d.2.0 ≡ true)
    found = find_first-In is_redis_master (values s.redis_nodes) d.2.0 d.2.1

-- Where no address has a majority and no master was determined before, a master is determined only
-- from the Redis pods: no Sentinel reports a failover, no majority of the reachable Sentinels watches
-- a ghost, and the master is a gathered pod that answered with the role of a master.
pub fallback-FallsBackTo :
    (s : ReplicationState)
    → s.real_master_ip ≡ ""
    → ((ip : String) → ¬ HasMajority s ip)
    → (determine_real_master s).real_master_ip ≢ ""
    → FallsBackTo s (determine_real_master s).real_master_ip
unfolding determine_real_master note_failovers reachable_sentinels sentinels_monitor_ghost_master
fallback-FallsBackTo s e none_won n =
    let d =
      counted-FallsBackTo (note_failovers s) e
        (λ ip h. none_won ip (record { won = h.won; live = h.live })) n in
    record {
      quiet = d.0;
      no_ghost = d.1;
      node = d.2.0;
      listed = d.2.1;
      writable = d.2.2;
      address = d.2.3;
    }

-- A majority that watches a ghost leaves no majority for a live address.
ghost_majority-HasMajority :
    (s : ReplicationState) (ip : String)
    → sentinels_monitor_ghost_master s ≡ true
    → ¬ HasMajority s ip
unfolding sentinels_monitor_ghost_master reachable_sentinels
ghost_majority-HasMajority s ip g h =
    ground (arith, g, h.won, ghosts_apart s ip h.live (values s.sentinel_nodes))

-- Where a majority of the reachable Sentinels watches a ghost and no master was determined before,
-- none is determined.
pub ghost_majority-Leaderless :
    (s : ReplicationState)
    → s.real_master_ip ≡ ""
    → sentinels_monitor_ghost_master s ≡ true
    → (determine_real_master s).real_master_ip ≡ ""
ghost_majority-Leaderless s e g =
    elim (Bool-cases ((determine_real_master s).real_master_ip == "")) [
      | inl h ↦ (eq_iff (determine_real_master s).real_master_ip "").0 h
      | inr h ↦ absurd (
          ground (
            arith,
            g,
            (fallback-FallsBackTo s e (λ ip. ghost_majority-HasMajority s ip g)
                (λ p.
                  ground
                    (arith, (eq_iff (determine_real_master s).real_master_ip "").1 p, h))).no_ghost,
          ))
    ]

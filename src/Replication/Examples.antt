-- ===== src/Replication/Examples.antt =====
-- A promotion chain and a fork, as the gather would report them, and the theorems on them.
use littlered.Prelude.{◌≡◌, refl, ◌↔◌, true, false, some, List, [], ◌∷◌, String, arith, ℕ, In}
use littlered.Prelude.Int.{pos}
use littlered.Replication.State.{
  ProbeFailure, RedisNodeState, ReplicationState, data_holders, values, lookup,
}
use littlered.Replication.Lineage.{holders_diverged, valid, is_zero_replid}
use text.Mathlib.TextEquality.{eq_iff}
use littlered.Replication.Lineage.Spec.{OneLineage}
use littlered.Replication.Lineage.Decides.{holders_diverged-OneLineage}
use littlered.Replication.BestHolder.{best_data_holder}
use littlered.Replication.BestHolder.Chosen.{
  Elected, best_data_holder-Elected, best_data_holder_order,
}

abbrev pub node : String → String → String → String → ℕ → RedisNodeState
node ip role replid replid2 offset = record {
  pod_name = ip;
  ip = ip;
  role = role;
  master_host = "";
  link_status = "up";
  offset = pos offset;
  keys = pos 10;
  replid = replid;
  replid2 = replid2;
  reachable = true;
  probe_failure = ProbeFailure.ok;
  probe_error = "";
}

abbrev pub state : List (String × RedisNodeState) → ReplicationState
state nodes = record {
  redis_nodes = nodes;
  sentinel_nodes = [];
  live_topology_ips = [];
  owned_ips = [];
  real_master_ip = "";
  failover_reported = false;
  failover_progressing = false;
}

-- D was followed by A, and A by B: one history.
abbrev pub chain_a : RedisNodeState
chain_a = node "10.0.0.1" "master" "a1" "d0" 90

abbrev pub chain_b : RedisNodeState
chain_b = node "10.0.0.2" "slave" "b2" "a1" 95

abbrev pub chain : ReplicationState
chain = state (("10.0.0.1", chain_a) ∷ ("10.0.0.2", chain_b) ∷ [])

abbrev pub chain_reversed : ReplicationState
chain_reversed = state (("10.0.0.2", chain_b) ∷ ("10.0.0.1", chain_a) ∷ [])

-- Two masters that both followed D.
abbrev pub fork : ReplicationState
fork = state (
    ("10.0.0.1", node "10.0.0.1" "master" "a1" "d0" 90)
    ∷ ("10.0.0.2", node "10.0.0.2" "master" "b2" "d0" 95)
    ∷ [])

chain_one : holders_diverged (chain_a ∷ chain_b ∷ []) ≡ false
unfolding holders_diverged valid is_zero_replid lookup
chain_one = refl

strangers : holders_diverged (chain_a ∷ node "10.0.0.3" "slave" "c3" "0000" 1 ∷ []) ≡ true
unfolding holders_diverged valid is_zero_replid lookup
strangers = refl

fork_is_one_lineage : holders_diverged (data_holders fork) ≡ false
unfolding holders_diverged data_holders valid is_zero_replid lookup
fork_is_one_lineage = refl

chain_best : (best_data_holder chain).best ≡ some chain_b
unfolding best_data_holder data_holders
chain_best = refl

holders_diverged-OneLineage_example :
    (holders_diverged (chain_a ∷ chain_b ∷ []) ≡ false) ↔ OneLineage (chain_a ∷ chain_b ∷ [])
holders_diverged-OneLineage_example = holders_diverged-OneLineage (chain_a ∷ chain_b ∷ [])

best_data_holder-Elected_example : Elected (values chain.redis_nodes) chain_b
best_data_holder-Elected_example = best_data_holder-Elected chain chain_b chain_best

chain_distinct :
    (a b : RedisNodeState)
    → In a (values chain.redis_nodes)
    → In b (values chain.redis_nodes)
    → a.ip ≡ b.ip
    → a ≡ b
chain_distinct a b m n h =
    ground (arith, m, n, h, eq_iff "10.0.0.1" "10.0.0.2", eq_iff "10.0.0.2" "10.0.0.1")

best_data_holder_order_example : (best_data_holder chain_reversed).best ≡ some chain_b
best_data_holder_order_example =
    best_data_holder_order chain chain_reversed chain_b
      (λ n. (λ m. ground arith, λ m. ground arith)) chain_distinct chain_best

-- ===== src/Replication/State.antt =====
-- internal/redis/replication_state.go: the record types, the address sets, and the predicates over
-- the data pods.
-- A Go map is the list of its entries, in the order in which `range` visits them; a pointer in a
-- map is the record that it points to, and no map here holds a nil pointer. A set of addresses
-- (map[string]bool whose values are all true) is a list.
use littlered.Prelude.{
  Bool, true, false, not, ◌&&◌, ◌||◌, Option, none, some, List, [], ◌∷◌, String, select, ◌==◌,
  string_eq, if◌then◌else◌,
}
use littlered.Prelude.Int.{ℤ, pos, ltb_ℤ}
use littlered.Prelude.Sort.{by, sort_by}

-- The ProbeFailure strings.
pub data ProbeFailure : Type 0 where
  ok unroutable timed_out auth_failed protocol_error unknown : ProbeFailure

abbrev pub is_auth_failed : ProbeFailure → Bool
is_auth_failed ProbeFailure.auth_failed = true
is_auth_failed _ = false

pub record RedisNodeState : Type 0 where
  pub pod_name : String
  pub ip : String
  pub role : String
  pub master_host : String
  pub link_status : String
  pub offset : ℤ
  pub keys : ℤ
  pub replid : String
  pub replid2 : String
  pub reachable : Bool
  pub probe_failure : ProbeFailure
  pub probe_error : String

pub record ReplicaInfo : Type 0 where
  pub ip : String
  pub port : String
  pub flags : String

pub record MonitoredMaster : Type 0 where
  pub name : String
  pub ip : String
  pub flags : String
  pub failover_state : String

pub record SentinelNodeState : Type 0 where
  pub pod_name : String
  pub ip : String
  pub monitoring : Bool
  pub master_ip : String
  pub reachable : Bool
  pub replicas : List ReplicaInfo
  pub master_failover_state : String
  pub master_flags : String
  pub num_other_sentinels : ℤ
  pub num_slaves : ℤ
  pub monitored_masters : List MonitoredMaster
  pub probe_failure : ProbeFailure
  pub probe_error : String

pub record ReplicationState : Type 0 where
  pub redis_nodes : List (String × RedisNodeState)
  pub sentinel_nodes : List (String × SentinelNodeState)
  pub live_topology_ips : List String
  pub owned_ips : List String
  pub real_master_ip : String
  pub failover_reported : Bool
  pub failover_progressing : Bool

abbrev pub role_master : String
role_master = "master"

abbrev pub role_replica : String
role_replica = "replica"

module _ {ℓ} {V : Type ℓ} where
  -- `m[k]`.
  unfoldable pub lookup : String → List (String × V) → Option V
  lookup k [] = none
  lookup k ((j, v) ∷ m) = if j == k then some v else lookup k m

  -- `for _, v := range m`.
  abbrev pub values : List (String × V) → List V
  values [] = []
  values ((j, v) ∷ m) = v ∷ values m

-- `set[ip]`.
abbrev pub contains : String → List String → Bool
contains ip [] = false
contains ip (x ∷ xs) = x == ip || contains ip xs

unfoldable pub new_replication_state : ReplicationState
new_replication_state = record {
  redis_nodes = [];
  sentinel_nodes = [];
  live_topology_ips = [];
  owned_ips = [];
  real_master_ip = "";
  failover_reported = false;
  failover_progressing = false;
}

unfoldable pub add_live_topology_ip : String → ReplicationState → ReplicationState
add_live_topology_ip ip s =
    if ip == ""
    then s
    else record s { live_topology_ips = ip ∷ s.live_topology_ips; owned_ips = ip ∷ s.owned_ips }

unfoldable pub add_owned_ip : String → ReplicationState → ReplicationState
add_owned_ip ip s = if ip == "" then s else record s { owned_ips = ip ∷ s.owned_ips }

unfoldable pub is_ghost : ReplicationState → String → Bool
is_ghost s ip = if ip == "" then false else not (contains ip s.live_topology_ips)

unfoldable pub is_ours : ReplicationState → String → Bool
is_ours s ip = if ip == "" then false else contains ip s.owned_ips

unfoldable pub unprovably_empty : RedisNodeState → Bool
unprovably_empty n = not n.reachable && is_auth_failed n.probe_failure

unfoldable pub auth_failed_redis_nodes : ReplicationState → List RedisNodeState
unfolding unprovably_empty sort_by
auth_failed_redis_nodes s =
    sort_by (by (λ n. n.pod_name)) (select unprovably_empty (values s.redis_nodes))

unfoldable pub auth_failed_sentinel_nodes : ReplicationState → List SentinelNodeState
unfolding sort_by
auth_failed_sentinel_nodes s =
    sort_by (by (λ n. n.pod_name))
      (select (λ sn. not sn.reachable && is_auth_failed sn.probe_failure) (values s.sentinel_nodes))

abbrev non_empty {ℓ} : {A : Type ℓ} → List A → Bool
non_empty [] = false
non_empty (_ ∷ _) = true

unfoldable pub has_auth_failure : ReplicationState → Bool
unfolding auth_failed_redis_nodes auth_failed_sentinel_nodes
has_auth_failure s =
    non_empty (auth_failed_redis_nodes s) || non_empty (auth_failed_sentinel_nodes s)

abbrev pub holds_data : RedisNodeState → Bool
holds_data rn = rn.reachable && ltb_ℤ (pos 0) rn.keys

unfoldable pub data_holders : ReplicationState → List RedisNodeState
data_holders s = select holds_data (values s.redis_nodes)

-- ===== src/Replication/Sentinels/Gates.antt =====
-- internal/redis/replication_state.go: what stands before a SENTINEL RESET, the heal actions, and the
-- replicas that a failover in flight has promoted.
use Prim.Native.String.{◌++◌ as ◌+++◌}
use littlered.Prelude.Text.{str_contains}
use littlered.Prelude.{
  Bool, false, not, ◌&&◌, ◌||◌, Option, none, some, List, [], ◌∷◌, ◌++◌, map, String, ◌==◌,
  string_eq, if◌then◌else◌, select, any,
}
use littlered.Replication.State.{
  RedisNodeState, ReplicaInfo, ReplicationState, SentinelNodeState, is_ghost, lookup, role_master,
  values,
}
use littlered.Replication.Sentinels.{has_flag, flagged_down, watching}

abbrev pub promotable : ReplicationState → ReplicaInfo → Bool
promotable s r = not (is_ghost s r.ip) && not (str_contains r.flags "s_down")

unfoldable pub has_healthy_known_replica : ReplicationState → Bool
has_healthy_known_replica s =
    any (λ sn. watching sn && any (promotable s) sn.replicas) (values s.sentinel_nodes)

-- A pod of that address was gathered and answered.
abbrev answered : Option RedisNodeState → Bool
answered none = false
answered (some m) = m.reachable

unfoldable pub ghost_replica_reset_safe : ReplicationState → Bool → Bool → Bool
unfolding is_ghost lookup has_healthy_known_replica
ghost_replica_reset_safe s ghost_found cluster_whole =
    if not ghost_found || not cluster_whole
    then false
    else if s.real_master_ip == "" || is_ghost s s.real_master_ip
    then false
    else if not (answered (lookup s.real_master_ip s.redis_nodes))
    then false
    else has_healthy_known_replica s

unfoldable pub needs_monitor : ReplicationState → SentinelNodeState → Bool
needs_monitor s sn = sn.reachable && (not sn.monitoring || not (sn.master_ip == s.real_master_ip))

unfoldable pub needs_slaveof : ReplicationState → RedisNodeState → Bool
needs_slaveof s rn =
    if not rn.reachable || rn.ip == s.real_master_ip
    then false
    else rn.role == role_master
      || not (rn.master_host == s.real_master_ip)
      || rn.link_status == "down"

unfoldable pub is_dead_ghost : ReplicationState → ReplicaInfo → Bool
unfolding is_ghost flagged_down
is_dead_ghost s r = is_ghost s r.ip && flagged_down r.flags

unfoldable pub ghost_found : ReplicationState → Bool
unfolding is_dead_ghost
ghost_found s =
    any (λ sn. watching sn && any (is_dead_ghost s) sn.replicas) (values s.sentinel_nodes)

unfoldable pub get_heal_actions : ReplicationState → String → List String
unfolding needs_monitor needs_slaveof ghost_found
get_heal_actions s master_name =
    if s.real_master_ip == ""
    then []
    else map (λ sn. "MONITOR " +++ s.real_master_ip +++ " ON " +++ sn.pod_name)
        (select (needs_monitor s) (values s.sentinel_nodes))
      ++ map (λ rn. "SLAVEOF " +++ s.real_master_ip +++ " ON " +++ rn.pod_name)
          (select (needs_slaveof s) (values s.redis_nodes))
      ++ (if ghost_found s then ("SENTINEL RESET " +++ master_name) ∷ [] else [])

promoted_of : List ReplicaInfo → List String
unfolding has_flag
promoted_of [] = []
promoted_of (r ∷ rs) =
    let rest = promoted_of rs in
    if not (r.ip == "") && has_flag r.flags "promoted" then r.ip ∷ rest else rest

unfoldable pub promoted_in : List SentinelNodeState → List String
unfolding promoted_of
promoted_in [] = []
promoted_in (sn ∷ sns) =
    let rest = promoted_in sns in if watching sn then promoted_of sn.replicas ++ rest else rest

unfoldable pub promoted_ips : ReplicationState → List String
unfolding promoted_in
promoted_ips s = promoted_in (values s.sentinel_nodes)

-- ===== src/Replication/Rescue.antt =====
-- internal/controller/replica_rescue_plan.go: the pods that are pointed at the real master (Rule R).
use littlered.Prelude.{
  ◌≡◌, sym, subst, ◌≢◌, ◌⊎◌, inl, inr, Bool, true, false, not, ◌&&◌, ◌||◌, List, [], map, String,
  ◌==◌, string_eq, if◌then◌else◌, arith, select, In, In-of_select, In-of_map, Bool-cases,
}
use littlered.Prelude.Sort.{by, sort_by, In-of_sort_by}
use text.Mathlib.TextEquality.{eq_iff}
use littlered.Replication.State.{RedisNodeState, ReplicationState, contains, role_master}
use littlered.Replication.Sentinels.Gates.{promoted_ips}

-- `ip` is the key of the map.
unfoldable pub needs_rescue : ReplicationState → String × RedisNodeState → Bool
unfolding promoted_ips
needs_rescue s (ip, rn) =
    rn.reachable
    && (not (ip == s.real_master_ip)
        && (not (contains ip (promoted_ips s))
            && (rn.role == role_master || not (rn.master_host == s.real_master_ip))))

abbrev node_of : String × RedisNodeState → RedisNodeState
node_of entry = entry.1

unfoldable pub plan_replica_rescue : ReplicationState → List RedisNodeState
unfolding needs_rescue sort_by
plan_replica_rescue s =
    if s.real_master_ip == ""
    then []
    else sort_by (by (λ n. n.pod_name)) (map node_of (select (needs_rescue s) s.redis_nodes))

-- A gathered pod that answered, is neither the real master nor promoted by a Sentinel, and does not
-- follow the real master.
pub record IsStray (s : ReplicationState) (rn : RedisNodeState) : Type 0 where
  pub key : String
  pub listed : In (key, rn) s.redis_nodes
  pub answered : rn.reachable ≡ true
  pub other : key ≢ s.real_master_ip
  pub spared : contains key (promoted_ips s) ≡ false
  pub wrong : (rn.role ≡ role_master) ⊎ (rn.master_host ≢ s.real_master_ip)

IsStray-entry :
    (s : ReplicationState) (entry : String × RedisNodeState)
    → In entry s.redis_nodes
    → needs_rescue s entry ≡ true
    → IsStray s entry.1
unfolding needs_rescue
IsStray-entry s (ip, rn) m h = record {
  key = ip;
  listed = m;
  answered = ground (arith, h);
  other = λ e. ground (arith, h, (eq_iff ip s.real_master_ip).1 e);
  spared = ground (arith, h);
  wrong = ground (arith, h, eq_iff rn.role role_master, eq_iff rn.master_host s.real_master_ip);
}

-- What planReplicaRescue touches.
pub rescue-IsStray :
    (s : ReplicationState) (rn : RedisNodeState)
    → In rn (plan_replica_rescue s)
    → (s.real_master_ip ≢ "") × IsStray s rn
unfolding plan_replica_rescue
rescue-IsStray s rn m = elim (Bool-cases (s.real_master_ip == "")) [
  | inl e ↦ absurd (rw e at m)
  | inr e ↦
      let found = In-of_map node_of rn (select (needs_rescue s) s.redis_nodes) (
        In-of_sort_by (by (λ n. n.pod_name)) rn
          (map node_of (select (needs_rescue s) s.redis_nodes)) (rw e at m)) in
      let chosen = In-of_select (needs_rescue s) found.0 s.redis_nodes found.1 in
      (
        λ p. ground (arith, (eq_iff s.real_master_ip "").1 p, e),
        subst (IsStray s) (sym found.2) (IsStray-entry s found.0 chosen.0 chosen.1),
      )
]

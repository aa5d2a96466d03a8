-- ===== src/Replication/Sentinels.antt =====
-- internal/redis/replication_state.go, client.go and cross_instance.go: what the Sentinels say, the
-- vote that names the real master, and the questions that gate a reset or a recovery.
-- `range masterCounts` visits the candidates in the order in which the tally lists them. That order
-- follows the list of Sentinels, which stands for any order of the map SentinelNodes.
pub mod Gates
mod Votes
mod Fallback
mod Heal
pub mod Examples
use littlered.Prelude.Text.{str_contains, split, trim_space}
use littlered.Prelude.{
  ℕ, suc, ◌+◌, ◌/◌, Bool, true, false, not, ◌&&◌, ◌||◌, Option, none, some, List, [], ◌∷◌, ◌++◌,
  map, String, ◌==◌, string_eq, if◌then◌else◌, ltb, leb, select, any, count_if, find_first, nat_eq,
}
use littlered.Replication.State.{
  RedisNodeState, ReplicaInfo, ReplicationState, SentinelNodeState, contains, is_ghost, lookup,
  role_master, values,
}

abbrev failover_state_none : String
failover_state_none = "none"

abbrev failover_state_reconf_slaves : String
failover_state_reconf_slaves = "reconf_slaves"

unfoldable pub has_flag : String → String → Bool
unfolding split trim_space
has_flag flags want = any (λ f. trim_space f == want) (split b',' flags)

unfoldable pub flagged_down : String → Bool
flagged_down flags = str_contains flags "s_down" || str_contains flags "o_down"

unfoldable pub failover_in_progress : String → String → Bool
unfolding trim_space
failover_in_progress flags state =
    if str_contains flags "failover_in_progress"
    then true
    else let idle = trim_space state in not (idle == "" || idle == failover_state_none)

unfoldable pub master_failover_in_progress : SentinelNodeState → Bool
unfolding failover_in_progress
master_failover_in_progress sn = failover_in_progress sn.master_flags sn.master_failover_state

-- The first replica flagged as promoted decides.
promoted_down : List ReplicaInfo → Bool
unfolding has_flag flagged_down
promoted_down [] = false
promoted_down (r ∷ rs) =
    let rest = promoted_down rs in
    if has_flag r.flags "promoted" then flagged_down r.flags else rest

unfoldable pub failover_stalled : SentinelNodeState → Bool
unfolding master_failover_in_progress promoted_down trim_space
failover_stalled sn =
    if not sn.reachable || not sn.monitoring
    then false
    else if not (master_failover_in_progress sn)
    then false
    else if not (trim_space sn.master_failover_state == failover_state_reconf_slaves)
    then false
    else promoted_down sn.replicas

abbrev pub watching : SentinelNodeState → Bool
watching sn = sn.reachable && sn.monitoring

unfoldable pub reports_failover : SentinelNodeState → Bool
unfolding master_failover_in_progress
reports_failover sn = watching sn && master_failover_in_progress sn

-- Step 1.
unfoldable pub note_failovers : ReplicationState → ReplicationState
unfolding reports_failover failover_stalled
note_failovers s = record s {
  failover_reported = s.failover_reported || any reports_failover (values s.sentinel_nodes);
  failover_progressing =
      s.failover_progressing
      || any (λ sn. reports_failover sn && not (failover_stalled sn)) (values s.sentinel_nodes);
}

-- `m[ip]` and `m[ip]++` on a map of counts.
unfoldable pub votes_for : String → List (String × ℕ) → ℕ
votes_for ip [] = 0
votes_for ip ((j, n) ∷ m) = if j == ip then n else votes_for ip m

unfoldable pub bump : String → List (String × ℕ) → List (String × ℕ)
bump ip [] = (ip, 1) ∷ []
bump ip ((j, n) ∷ m) = if j == ip then (j, suc n) ∷ m else (j, n) ∷ bump ip m

unfoldable pub tally : List SentinelNodeState → List (String × ℕ)
unfolding bump
tally [] = []
tally (sn ∷ sns) =
    let m = tally sns in
    if sn.reachable && (sn.monitoring && not (sn.master_ip == "")) then bump sn.master_ip m else m

unfoldable pub reachable_sentinels : ReplicationState → ℕ
reachable_sentinels s = count_if (λ sn. sn.reachable) (values s.sentinel_nodes)

-- Step 3: the candidate that ends the loop, and the votes for ghosts where none does.
unfoldable pub elected_by : ReplicationState → ℕ → List (String × ℕ) → Option String
elected_by s majority [] = none
elected_by s majority ((ip, n) ∷ m) =
    let rest = elected_by s majority m in
    if leb majority n && contains ip s.live_topology_ips then some ip else rest

unfoldable pub ghost_votes : ReplicationState → List (String × ℕ) → ℕ
unfolding is_ghost
ghost_votes s [] = 0
ghost_votes s ((ip, n) ∷ m) = let rest = ghost_votes s m in if is_ghost s ip then n + rest else rest

abbrev pub is_redis_master : RedisNodeState → Bool
is_redis_master rn = rn.reachable && rn.role == role_master

-- Step 4.
unfoldable pub fall_back : ReplicationState → Option RedisNodeState → ReplicationState
fall_back s none = s
fall_back s (some rn) = record s { real_master_ip = rn.ip }

unfoldable pub decide : ReplicationState → Option String → ℕ → ℕ → ReplicationState
unfolding fall_back
decide s (some ip) majority ghosts = record s { real_master_ip = ip }
decide s none majority ghosts =
    if not s.failover_reported && ltb ghosts majority
    then fall_back s (find_first is_redis_master (values s.redis_nodes))
    else s

-- Steps 2 to 4.
unfoldable pub count_and_decide : ReplicationState → ReplicationState
unfolding tally reachable_sentinels elected_by ghost_votes decide
count_and_decide s =
    let counts = tally (values s.sentinel_nodes) in
    let majority = reachable_sentinels s / 2 + 1 in
    decide s (elected_by s majority counts) majority (ghost_votes s counts)

unfoldable pub determine_real_master : ReplicationState → ReplicationState
unfolding note_failovers count_and_decide
determine_real_master s = count_and_decide (note_failovers s)

-- The verdict and the count that it stands on.
unfoldable pub all_sentinels_bare : ReplicationState → Bool × ℕ
unfolding reachable_sentinels
all_sentinels_bare s =
    let reachable = reachable_sentinels s in
    (ltb 0 reachable && count_if watching (values s.sentinel_nodes) == 0, reachable)

abbrev pub watches_ghost : ReplicationState → SentinelNodeState → Bool
watches_ghost s sn =
    sn.reachable && (sn.monitoring && (not (sn.master_ip == "") && is_ghost s sn.master_ip))

unfoldable pub sentinels_monitor_ghost_master : ReplicationState → Bool
unfolding reachable_sentinels
sentinels_monitor_ghost_master s =
    let reachable = reachable_sentinels s in
    ltb 0 reachable
    && leb (reachable / 2 + 1) (count_if (watches_ghost s) (values s.sentinel_nodes))

-- ===== src/Failover/Intent.antt =====
-- internal/controller/failover_intent.go: the intent that the assignments on the pods express, and
-- what is stamped and repointed under it.
pub mod Epochs
pub mod Master
mod Examples
use littlered.Prelude.{
  ◌+◌, ◌-◌, Bool, true, false, not, ◌&&◌, ◌||◌, Option, none, some, List, [], ◌∷◌, String, ◌==◌,
  string_eq, nat_eq, if◌then◌else◌, select,
}
use littlered.Prelude.Int.{ℤ, pos, negsuc, ltb_ℤ, beq_ℤ}
use littlered.Prelude.Text.{str_ltb}
use littlered.Prelude.Sort.{by, sort_by}
use littlered.Replication.State.{
  RedisNodeState, ReplicationState, lookup, role_master, role_replica,
}

pub record FailoverPodView : Type 0 where
  pub name : String
  pub ip : String
  pub terminating : Bool
  pub ready : Bool
  pub restarted : Bool
  pub reachable : Bool
  pub has_assignment : Bool
  pub assigned_role : String
  pub assigned_master_ip : String
  pub epoch : ℤ

pub record FailoverIntent : Type 0 where
  pub master_name : String
  pub master_ip : String
  pub max_epoch : ℤ

pub record FailoverStamp : Type 0 where
  pub pod_name : String
  pub role : String
  pub master_ip : String
  pub epoch : ℤ
  pub authorize_master_start : Bool

-- Epochs are int64: the successor of the largest one wraps around.
unfoldable pub next_epoch : ℤ → ℤ
next_epoch (pos n) = if n == 9223372036854775807 then negsuc 9223372036854775807 else pos (n + 1)
next_epoch (negsuc n) = if n == 0 then pos 0 else negsuc (n - 1)

-- The two variables of the loop, `intent` and `masterEpoch`.
pub record Resolving : Type 0 where
  pub intent : FailoverIntent
  pub master_epoch : ℤ

abbrev pub max_of : ℤ → ℤ → ℤ
max_of a b = if ltb_ℤ a b then b else a

-- The three cases of the `switch`.
abbrev pub supersedes : FailoverPodView → Resolving → Bool
supersedes p r =
    r.intent.master_name == ""
    || ltb_ℤ r.master_epoch p.epoch
    || (beq_ℤ p.epoch r.master_epoch && str_ltb p.name r.intent.master_name)

unfoldable pub resolve_pod : FailoverPodView → Resolving → Resolving
resolve_pod p r =
    if not p.has_assignment
    then r
    else if p.assigned_role == role_master && supersedes p r
    then record {
      intent = record {
        master_name = p.name;
        master_ip = p.ip;
        max_epoch = max_of r.intent.max_epoch p.epoch;
      };
      master_epoch = p.epoch;
    }
    else record r {
      intent = record {
        master_name = r.intent.master_name;
        master_ip = r.intent.master_ip;
        max_epoch = max_of r.intent.max_epoch p.epoch;
      };
    }

unfoldable pub resolve_from : Resolving → List FailoverPodView → Resolving
unfolding resolve_pod
resolve_from r [] = r
resolve_from r (p ∷ ps) = resolve_from (resolve_pod p r) ps

abbrev pub unresolved : Resolving
unresolved = record {
  intent = record { master_name = ""; master_ip = ""; max_epoch = pos 0 };
  master_epoch = pos 0;
}

unfoldable pub resolve_failover_intent : List FailoverPodView → FailoverIntent
resolve_failover_intent pods = (resolve_from unresolved pods).intent

abbrev is_live_master : Option RedisNodeState → Bool
is_live_master none = false
is_live_master (some rn) = rn.reachable && rn.role == role_master

unfoldable pub determine_failover_live_master : ReplicationState → String → String
determine_failover_live_master s intended_master_ip =
    if intended_master_ip == ""
    then ""
    else if is_live_master (lookup intended_master_ip s.redis_nodes)
    then intended_master_ip
    else ""

-- A missing label is "".
abbrev label_of : List (String × String) → String → String
label_of labels pod = elim (lookup pod labels) [ none ↦ "" | some l ↦ l ]

unfoldable pub failover_transition_settled :
    FailoverIntent → ReplicationState → List (String × String) → Bool
unfolding determine_failover_live_master
failover_transition_settled intent s role_labels =
    if intent.master_name == ""
    then true
    else if determine_failover_live_master s intent.master_ip == ""
    then false
    else label_of role_labels intent.master_name == role_master

abbrev is_reachable : Option RedisNodeState → Bool
is_reachable none = false
is_reachable (some rn) = rn.reachable

unfoldable pub failover_promotion_unsettled :
    FailoverIntent → ReplicationState → List (String × String) → Bool
unfolding failover_transition_settled
failover_promotion_unsettled intent s role_labels =
    if intent.master_name == ""
    then false
    else if not (is_reachable (lookup intent.master_ip s.redis_nodes))
    then false
    else not (failover_transition_settled intent s role_labels)

abbrev pub replica_stamp : FailoverPodView → String → ℤ → FailoverStamp
replica_stamp p live_master_ip epoch = record {
  pod_name = p.name;
  role = role_replica;
  master_ip = live_master_ip;
  epoch = epoch;
  authorize_master_start = false;
}

unfoldable pub reauth_pod : FailoverIntent → String → FailoverPodView → Option FailoverStamp
unfolding next_epoch
reauth_pod intent live_master_ip p =
    if p.ip == "" || p.terminating || p.name == intent.master_name || p.ip == live_master_ip
    then none
    else if not p.has_assignment
    then some (replica_stamp p live_master_ip (max_of intent.max_epoch (pos 1)))
    else if not p.ready && p.restarted && not p.reachable
    then some (replica_stamp p live_master_ip (next_epoch intent.max_epoch))
    else none

abbrev pub cons_some {ℓ} : {A : Type ℓ} → Option A → List A → List A
cons_some none xs = xs
cons_some (some x) xs = x ∷ xs

unfoldable pub reauth_from : FailoverIntent → String → List FailoverPodView → List FailoverStamp
unfolding reauth_pod
reauth_from intent live_master_ip [] = []
reauth_from intent live_master_ip (p ∷ ps) =
    cons_some (reauth_pod intent live_master_ip p) (reauth_from intent live_master_ip ps)

unfoldable pub plan_failover_reauth :
    List FailoverPodView → FailoverIntent → String → List FailoverStamp
unfolding sort_by
plan_failover_reauth pods intent live_master_ip =
    sort_by (by (λ s. s.pod_name)) (reauth_from intent live_master_ip pods)

abbrev strays : String → List (String × RedisNodeState) → List String
strays live_master_ip [] = []
strays live_master_ip ((ip, rn) ∷ nodes) =
    if not rn.reachable || ip == live_master_ip
    then strays live_master_ip nodes
    else if rn.role == role_master || not (rn.master_host == live_master_ip)
    then ip ∷ strays live_master_ip nodes
    else strays live_master_ip nodes

unfoldable pub plan_failover_repoints : ReplicationState → String → List String
unfolding sort_by
plan_failover_repoints s live_master_ip = sort_by str_ltb (strays live_master_ip s.redis_nodes)

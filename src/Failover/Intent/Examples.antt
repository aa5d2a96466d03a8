-- ===== src/Failover/Intent/Examples.antt =====
-- A superseded master, its successor, and a pod that waits to be released.
use littlered.Prelude.{◌≡◌, refl, inl, true, false, List, [], ◌∷◌, String, arith}
use text.Mathlib.TextEquality.{eq_iff}
use littlered.Prelude.Int.{ℤ, pos}
use littlered.Failover.Intent.{
  FailoverPodView, FailoverStamp, resolve_failover_intent, resolve_from, replica_stamp,
}
use littlered.Failover.Intent.Master.{resolve_failover_intent-IsIntended, IsIntended, AreNamed}

abbrev pod : String → String → String → ℤ → FailoverPodView
pod name ip role epoch = record {
  name = name;
  ip = ip;
  terminating = false;
  ready = false;
  restarted = true;
  reachable = false;
  has_assignment = true;
  assigned_role = role;
  assigned_master_ip = "";
  epoch = epoch;
}

abbrev old_master : FailoverPodView
old_master = pod "redis-0" "10.0.0.1" "master" (pos 3)

abbrev new_master : FailoverPodView
new_master = pod "redis-1" "10.0.0.2" "master" (pos 4)

abbrev pods : List FailoverPodView
pods = old_master ∷ new_master ∷ []

successor : (resolve_failover_intent pods).master_name ≡ "redis-1"
unfolding resolve_failover_intent resolve_from
successor = refl

pods-AreNamed : AreNamed pods
pods-AreNamed p m e = ground (arith, m, e, eq_iff "redis-0" "", eq_iff "redis-1" "")

resolve_failover_intent-IsIntended_example :
    (p : FailoverPodView) × IsIntended pods (resolve_failover_intent pods) p
resolve_failover_intent-IsIntended_example =
    resolve_failover_intent-IsIntended pods old_master pods-AreNamed (inl refl) refl

abbrev release : FailoverStamp
release = replica_stamp old_master "10.0.0.2" (pos 5)

-- ===== src/Failover/Plan/Acting.antt =====
-- What the act step of `planFailover` does, by whether the holders have one history.
use littlered.Prelude.{
  ◌≡◌, refl, ◌≢◌, ◌⊎◌, inl, inr, Bool, true, false, not, ◌&&◌, ◌||◌, ℕ, some, List, [], ◌∷◌, String,
  string_eq, if◌then◌else◌, arith, Bool-cases, ◌↔◌, ◌≤◌, count_if, length,
}
use text.Mathlib.TextEquality.{eq_iff}
use littlered.Replication.State.{RedisNodeState, ReplicationState, data_holders, values}
use littlered.Replication.Lineage.{holders_diverged}
use littlered.Replication.Lineage.Spec.{OneLineage}
use littlered.Replication.Lineage.Decides.{holders_diverged-OneLineage}
use littlered.Replication.BestHolder.{Best, best_data_holder, holders_forked}
use littlered.Replication.BestHolder.Chosen.{
  Elected, best_data_holder-Elected, best_data_holder_found, holders_forked-count, is_master,
}
use littlered.Failover.Plan.{FailoverPlan, seed, promote, refuse, unsafe_elect, act, elect, verify}
use littlered.Failover.Plan.Gates.{acts}

-- The data holders have one history that a single one of them may have extended.
pub record OneHistory (s : ReplicationState) : Type 0 where
  pub lineage : OneLineage (data_holders s)
  pub writable : count_if is_master (data_holders s) ≤ 1

abbrev pub HasHolder : ReplicationState → Type 0
HasHolder s = data_holders s ≢ []

-- Electing the pod loses nothing: it is the most complete of holders with one history.
pub record IsLossless (s : ReplicationState) (ip : String) : Type 0 where
  pub node : RedisNodeState
  pub elected : Elected (values s.redis_nodes) node
  pub address : ip ≡ node.ip
  pub history : OneHistory s

pub history_iff :
    (s : ReplicationState)
    → ((holders_diverged (data_holders s) || holders_forked (data_holders s)) ≡ false)
      ↔ OneHistory s
history_iff s = (
  λ e. record {
    lineage = (holders_diverged-OneLineage (data_holders s)).0 (ground arith);
    writable = ground (arith, holders_forked-count (data_holders s));
  },
  λ o. ground (
    arith,
    (holders_diverged-OneLineage (data_holders s)).1 o.lineage,
    holders_forked-count (data_holders s),
    o.writable,
  ),
)

-- `elect` on its three branches, over the verdict of `BestDataHolder`.
elect_branches :
    (b : Best) (n : RedisNodeState) (u bad : Bool) (k : ℕ)
    → b.best ≡ some n
    → (b.diverged || b.forked) ≡ bad
    → ((elect b u k).action ≡ (if bad then (if u then unsafe_elect else refuse) else promote))
      × ((elect b u k).master_ip ≡ (if bad && not u then "" else n.ip))
unfolding elect
elect_branches b n true true k e f = rw (e, f, elect) (refl, refl)
elect_branches b n true false k e f = rw (e, f, elect) (refl, refl)
elect_branches b n false true k e f = rw (e, f, elect) (refl, refl)
elect_branches b n false false k e f = rw (e, f, elect) (refl, refl)

-- What the act step does where data is held.
pub record Acted (s : ReplicationState) (u : Bool) (plan : FailoverPlan) : Type 0 where
  pub node : RedisNodeState
  pub elected : Elected (values s.redis_nodes) node
  pub promotes : OneHistory s → (plan.action ≡ promote) × (plan.master_ip ≡ node.ip)
  pub refuses : ¬ OneHistory s → u ≡ false → (plan.action ≡ refuse) × (plan.master_ip ≡ "")
  pub forces : ¬ OneHistory s → u ≡ true → (plan.action ≡ unsafe_elect) × (plan.master_ip ≡ node.ip)

pub act-Acted :
    (s : ReplicationState) (hs : List RedisNodeState) (u : Bool) (boot : String)
    → data_holders s ≡ hs
    → hs ≢ []
    → Acted s u (act s hs u boot)
unfolding act
act-Acted s [] u boot e n = absurd (n refl)
act-Acted s (h ∷ hs) u boot e n = record {
  node = b;
  elected = best_data_holder-Elected s b found.1;
  promotes = λ o. ground (arith, by_branch, (history_iff s).1 o, found.2, found.3);
  refuses = λ o v. ground (arith, by_branch, mixed o, found.2, found.3);
  forces = λ o v. ground (arith, by_branch, mixed o, found.2, found.3);
}
  where
    found :
        (b : RedisNodeState) × ((best_data_holder s).best ≡ some b)
        × ((best_data_holder s).diverged ≡ holders_diverged (data_holders s))
        × ((best_data_holder s).forked ≡ holders_forked (data_holders s))
    found = best_data_holder_found s e

    b : RedisNodeState
    b = found.0

    by_branch :
        let bad = (best_data_holder s).diverged || (best_data_holder s).forked in
        ((elect (best_data_holder s) u (length (h ∷ hs))).action
          ≡ (if bad then (if u then unsafe_elect else refuse) else promote))
        × ((elect (best_data_holder s) u (length (h ∷ hs))).master_ip
            ≡ (if bad && not u then "" else b.ip))
    by_branch =
        elect_branches (best_data_holder s) b u
          ((best_data_holder s).diverged || (best_data_holder s).forked) (length (h ∷ hs)) found.1
          refl

    mixed :
        ¬ OneHistory s
        → (holders_diverged (data_holders s) || holders_forked (data_holders s)) ≡ true
    mixed o =
        elim (Bool-cases (holders_diverged (data_holders s) || holders_forked (data_holders s))) [
          | inl y ↦ y
          | inr y ↦ absurd (o ((history_iff s).0 y))
        ]

pub history_cases : (s : ReplicationState) → OneHistory s ⊎ ¬ OneHistory s
history_cases s =
    elim (Bool-cases (holders_diverged (data_holders s) || holders_forked (data_holders s))) [
      | inl y ↦ inr (λ o. ground (arith, (history_iff s).1 o))
      | inr y ↦ inl ((history_iff s).0 y)
    ]

elect_idle :
    (b : Best) (u : Bool) (k : ℕ) → acts (elect b u k).action ≡ false → (elect b u k).master_ip ≡ ""
unfolding elect
elect_idle b u k h = ground arith

act_idle :
    (s : ReplicationState) (hs : List RedisNodeState) (u : Bool) (boot : String)
    → acts (act s hs u boot).action ≡ false
    → (act s hs u boot).master_ip ≡ ""
unfolding act
act_idle s [] u boot h = ground arith
act_idle s (n ∷ ns) u boot h = elect_idle (best_data_holder s) u (length (n ∷ ns)) h

pub verify_idle :
    (s : ReplicationState) (bad : List RedisNodeState) (u : Bool) (boot : String)
    → acts (verify s bad u boot).action ≡ false
    → (verify s bad u boot).master_ip ≡ ""
unfolding verify
verify_idle s [] u boot h = act_idle s (data_holders s) u boot h
verify_idle s (n ∷ ns) u boot h = refl

pub act_empty :
    (s : ReplicationState) (hs : List RedisNodeState) (u : Bool) (boot : String)
    → hs ≡ []
    → acts (act s hs u boot).action ≡ true
    → (boot ≢ "") × ((act s hs u boot).action ≡ seed) × ((act s hs u boot).master_ip ≡ boot)
unfolding act
act_empty s [] u boot e h = ground (arith, eq_iff boot "")
act_empty s (n ∷ ns) u boot e h = absurd (cc)

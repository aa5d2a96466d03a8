-- ===== src/Replication/Sentinels/Heal.antt =====
-- When `GetHealActions` has nothing to do.
use littlered.Prelude.{
  ◌≡◌, refl, ◌≢◌, inl, inr, ◌↔◌, Bool, true, false, List, [], ◌∷◌, ◌++◌, map, String, arith, select,
  any, All, if◌then◌else◌, Bool-cases, ◌&&◌, ◌==◌, string_eq,
}
use text.Mathlib.TextEquality.{eq_iff}
use littlered.Replication.State.{
  RedisNodeState, ReplicaInfo, ReplicationState, SentinelNodeState, is_ghost, role_master, values,
}
use littlered.Replication.Sentinels.{flagged_down, watching}
use littlered.Replication.Sentinels.Gates.{
  needs_monitor, needs_slaveof, is_dead_ghost, ghost_found, get_heal_actions,
}

-- A reachable Sentinel monitors the real master.
abbrev pub IsAligned : ReplicationState → SentinelNodeState → Type 0
IsAligned s sn = sn.reachable ≡ true → (sn.monitoring ≡ true) × (sn.master_ip ≡ s.real_master_ip)

-- A reachable pod is the real master, or a replica of it whose link is not down.
abbrev pub Follows : ReplicationState → RedisNodeState → Type 0
Follows s rn =
    rn.reachable ≡ true
    → rn.ip ≢ s.real_master_ip
    → (rn.role ≢ role_master) × (rn.master_host ≡ s.real_master_ip) × (rn.link_status ≢ "down")

-- A reachable Sentinel that monitors lists no ghost that it flags as down.
abbrev pub HasNoDeadGhost : ReplicationState → SentinelNodeState → Type 0
HasNoDeadGhost s sn =
    sn.reachable ≡ true
    → sn.monitoring ≡ true
    → All (λ r. is_ghost s r.ip ≡ true → flagged_down r.flags ≡ false) sn.replicas

abbrev pub Converged : ReplicationState → Type 0
Converged s =
    All (IsAligned s) (values s.sentinel_nodes)
    × All (Follows s) (values s.redis_nodes)
    × All (HasNoDeadGhost s) (values s.sentinel_nodes)

module _ {A : Type 0} where
  map_nil : {B : Type 0} (f : A → B) (xs : List A) → (map f xs ≡ []) ↔ (xs ≡ [])
  map_nil f [] = (λ _. refl, λ _. refl)
  map_nil f (x ∷ xs) = (λ e. absurd (cc), λ e. absurd (cc))

  append_nil : (xs ys : List A) → (xs ++ ys ≡ []) ↔ ((xs ≡ []) × (ys ≡ []))
  append_nil [] ys = (λ e. (refl, e), λ h. h.1)
  append_nil (x ∷ xs) ys = (λ e. absurd (cc), λ h. absurd (cc))

  -- Nothing is selected exactly when each element has the property.
  select_nil :
      (p : A → Bool) (P : A → Type 0)
      → ((x : A) → (p x ≡ false) ↔ P x)
      → (xs : List A) → (select p xs ≡ []) ↔ All P xs
  select_nil p P h [] = (λ _. tt, λ _. refl)
  select_nil p P h (x ∷ xs) = elim (Bool-cases (p x)) [
    | inl e ↦ rw e (λ c. absurd (cc), λ a. absurd (ground (arith, e, (h x).1 a.0)))
    | inr e ↦ rw e (λ c. ((h x).0 e, (select_nil p P h xs).0 c), λ a. (select_nil p P h xs).1 a.1)
  ]

  any_nil :
      (p : A → Bool) (P : A → Type 0)
      → ((x : A) → (p x ≡ false) ↔ P x)
      → (xs : List A) → (any p xs ≡ false) ↔ All P xs
  any_nil p P h [] = (λ _. tt, λ _. refl)
  any_nil p P h (x ∷ xs) = elim (Bool-cases (p x)) [
    | inl e ↦ rw e (λ c. absurd (cc), λ a. absurd (ground (arith, e, (h x).1 a.0)))
    | inr e ↦ rw e (λ c. ((h x).0 e, (any_nil p P h xs).0 c), λ a. (any_nil p P h xs).1 a.1)
  ]

needs_monitor_iff :
    (s : ReplicationState) (sn : SentinelNodeState) → (needs_monitor s sn ≡ false) ↔ IsAligned s sn
unfolding needs_monitor
needs_monitor_iff s sn = ground (arith, eq_iff sn.master_ip s.real_master_ip)

needs_slaveof_iff :
    (s : ReplicationState) (rn : RedisNodeState) → (needs_slaveof s rn ≡ false) ↔ Follows s rn
unfolding needs_slaveof
needs_slaveof_iff s rn = ground (
  arith,
  eq_iff rn.ip s.real_master_ip,
  eq_iff rn.master_host s.real_master_ip,
  eq_iff rn.role role_master,
  eq_iff rn.link_status "down",
)

is_dead_ghost_iff :
    (s : ReplicationState) (r : ReplicaInfo)
    → (is_dead_ghost s r ≡ false) ↔ (is_ghost s r.ip ≡ true → flagged_down r.flags ≡ false)
unfolding is_dead_ghost
is_dead_ghost_iff s r = ground arith

watching_ghost_iff :
    (s : ReplicationState) (sn : SentinelNodeState)
    → ((watching sn && any (is_dead_ghost s) sn.replicas) ≡ false) ↔ HasNoDeadGhost s sn
watching_ghost_iff s sn = (
  λ e r m. h.0 (ground (arith, e, r, m)),
  λ k. elim (Bool-cases (any (is_dead_ghost s) sn.replicas)) [
    | inl e ↦ elim (Bool-cases (watching sn)) [
      | inl w ↦ absurd (ground (arith, h.1 (k (ground (arith, w)) (ground (arith, w))), e))
      | inr w ↦ rw w refl
    ]
    | inr e ↦ ground (arith, e)
  ],
)
  where
    h :
        (any (is_dead_ghost s) sn.replicas ≡ false)
        ↔ All (λ r. is_ghost s r.ip ≡ true → flagged_down r.flags ≡ false) sn.replicas
    h =
        any_nil (is_dead_ghost s) (λ r. is_ghost s r.ip ≡ true → flagged_down r.flags ≡ false)
          (is_dead_ghost_iff s) sn.replicas

reset_nil : (b : Bool) (a : String) → ((if b then a ∷ [] else []) ≡ []) ↔ (b ≡ false)
reset_nil true a = (λ e. absurd (cc), λ e. absurd (cc))
reset_nil false a = (λ _. refl, λ _. refl)

three_nil :
    {A B C : Type 0} (f : A → C) (g : B → C) (xs : List A) (ys : List B) (zs : List C)
    → (map f xs ++ map g ys ++ zs ≡ []) ↔ ((xs ≡ []) × (ys ≡ []) × (zs ≡ []))
three_nil f g xs ys zs = (
  λ e.
      let a = (append_nil (map f xs ++ map g ys) zs).0 e in
      let b = (append_nil (map f xs) (map g ys)).0 a.0 in
      ((map_nil f xs).0 b.0, (map_nil g ys).0 b.1, a.1),
  λ h.
      (append_nil (map f xs ++ map g ys) zs).1
        ((append_nil (map f xs) (map g ys)).1 ((map_nil f xs).1 h.0, (map_nil g ys).1 h.1), h.2),
)

-- Where a real master is determined, `GetHealActions` returns no action exactly when every reachable
-- Sentinel monitors the real master, every other reachable pod is a replica of it whose link is not
-- down, and no reachable Sentinel that monitors lists a ghost that it flags as down.
pub get_heal_actions-Converged :
    (s : ReplicationState) (master_name : String)
    → s.real_master_ip ≢ ""
    → (get_heal_actions s master_name ≡ []) ↔ Converged s
unfolding get_heal_actions ghost_found
get_heal_actions-Converged s master_name n =
    let monitors =
      select_nil (needs_monitor s) (IsAligned s) (needs_monitor_iff s) (values s.sentinel_nodes) in
    let slaves =
      select_nil (needs_slaveof s) (Follows s) (needs_slaveof_iff s) (values s.redis_nodes) in
    let ghosts =
      any_nil (λ sn. watching sn && any (is_dead_ghost s) sn.replicas) (HasNoDeadGhost s)
        (watching_ghost_iff s) (values s.sentinel_nodes) in
    elim (Bool-cases (s.real_master_ip == "")) [
      | inl e ↦ absurd (n ((eq_iff s.real_master_ip "").0 e))
      | inr e ↦ rw e (
        λ a.
            let h = (three_nil _ _ _ _ _).0 a in
            (monitors.0 h.0, slaves.0 h.1, ghosts.0 ((reset_nil (ghost_found s) _).0 h.2)),
        λ c.
            (three_nil _ _ _ _ _).1
              (monitors.1 c.0, slaves.1 c.1, (reset_nil (ghost_found s) _).1 (ghosts.1 c.2)),
      )
    ]

-- ===== src/Replication/Sentinels/Votes.antt =====
-- The vote of the Sentinels: at most one address has a majority of those that are reachable, the tally
-- counts every vote, and so the scan of the tally finds that address in any order.
use littlered.Prelude.{
  ℕ, suc, ◌+◌, ◌/◌, ◌≤◌, ◌<◌, ◌≡◌, refl, sym, ap, ◌∙◌, subst, ◌≢◌, inl, inr, Bool, true, not, ◌&&◌,
  none, some, List, [], ◌∷◌, String, ◌==◌, string_eq, if◌then◌else◌, arith, leb, count_if,
  Option-cases, Bool-cases, All,
}
use mathlib.Core.Option.{some-injective}
use text.Mathlib.TextEquality.{eq_iff}
use littlered.Replication.State.{ReplicationState, SentinelNodeState, contains, is_ghost, values}
use littlered.Replication.Sentinels.{
  votes_for, bump, tally, elected_by, ghost_votes, watches_ghost, reachable_sentinels,
}

-- The Sentinel is reachable and names this address as the master that it monitors.
abbrev pub names : String → SentinelNodeState → Bool
names ip sn = sn.reachable && (sn.monitoring && (not (sn.master_ip == "") && sn.master_ip == ip))

abbrev pub votes : ReplicationState → String → ℕ
votes s ip = count_if (names ip) (values s.sentinel_nodes)

votes_for-bump :
    (ip k : String) (m : List (String × ℕ))
    → votes_for ip (bump k m) ≡ (if k == ip then suc (votes_for ip m) else votes_for ip m)
unfolding votes_for bump
votes_for-bump ip k [] = refl
votes_for-bump ip k ((j, n) ∷ m) = elim (Bool-cases (j == k)) [
  | inl e ↦ rw e (ground (arith, eq_iff j k, eq_iff j ip, eq_iff k ip))
  | inr e ↦ rw e (ground (arith, votes_for-bump ip k m, eq_iff j k, eq_iff j ip, eq_iff k ip))
]

counted : SentinelNodeState → Bool
counted sn = sn.reachable && (sn.monitoring && not (sn.master_ip == ""))

votes_for-tally :
    (ip : String) (sns : List SentinelNodeState)
    → votes_for ip (tally sns) ≡ count_if (names ip) sns
unfolding tally votes_for counted
votes_for-tally ip [] = refl
votes_for-tally ip (sn ∷ sns) = elim (Bool-cases (counted sn)) [
  | inl e ↦
      rw e (ground (arith, votes_for-tally ip sns, votes_for-bump ip sn.master_ip (tally sns), e))
  | inr e ↦ rw e (ground (arith, votes_for-tally ip sns, e))
]

-- No entry is above what a function gives its address.
abbrev Within : (String → ℕ) → List (String × ℕ) → Type 0
Within f m = All (λ e. e.1 ≤ f e.0) m

Within-le :
    (f g : String → ℕ) (m : List (String × ℕ))
    → ((j : String) → f j ≤ g j)
    → Within f m
    → Within g m
Within-le f g [] le h = tt
Within-le f g ((j, n) ∷ m) le h = (ground (arith, le j, h.0), Within-le f g m le h.1)

Within-bump :
    (f g : String → ℕ) (k : String) (m : List (String × ℕ))
    → ((j : String) → f j ≤ g j)
    → f k < g k
    → Within f m
    → Within g (bump k m)
unfolding bump
Within-bump f g k [] le lt h = ground arith
Within-bump f g k ((j, n) ∷ m) le lt h = elim (Bool-cases (j == k)) [
  | inl e ↦ rw e (
    subst (λ x. suc n ≤ g x) (sym ((eq_iff j k).0 e))
        (ground (arith, lt, subst (λ x. n ≤ f x) ((eq_iff j k).0 e) h.0)),
    Within-le f g m le h.1,
  )
  | inr e ↦ rw e (ground (arith, le j, h.0), Within-bump f g k m le lt h.1)
]

tally-Within : (sns : List SentinelNodeState) → Within (λ ip. count_if (names ip) sns) (tally sns)
unfolding tally counted
tally-Within [] = tt
tally-Within (sn ∷ sns) = elim (Bool-cases (counted sn)) [
  | inl e ↦ rw e (
      Within-bump (λ ip. count_if (names ip) sns) (λ ip. count_if (names ip) (sn ∷ sns))
        sn.master_ip (tally sns) (λ j. ground arith)
        (ground (arith, e, eq_iff sn.master_ip sn.master_ip)) (tally-Within sns))
  | inr e ↦ rw e (
      Within-le (λ ip. count_if (names ip) sns) (λ ip. count_if (names ip) (sn ∷ sns)) (tally sns)
        (λ j. ground arith) (tally-Within sns))
]

-- Two addresses share the reachable Sentinels.
disjoint_votes :
    (a b : String) (sns : List SentinelNodeState)
    → a ≢ b
    → count_if (names a) sns + count_if (names b) sns ≤ count_if (λ sn. sn.reachable) sns
disjoint_votes a b [] n = ground arith
disjoint_votes a b (sn ∷ sns) n =
    ground (arith, disjoint_votes a b sns n, eq_iff sn.master_ip a, eq_iff sn.master_ip b)

pub elected_by-some :
    (s : ReplicationState) (f : String → ℕ) (majority : ℕ) (m : List (String × ℕ)) (ip : String)
    → Within f m
    → elected_by s majority m ≡ some ip
    → (majority ≤ f ip) × (contains ip s.live_topology_ips ≡ true)
unfolding elected_by
elected_by-some s f majority [] ip h e = ground arith
elected_by-some s f majority ((j, n) ∷ m) ip h e =
    elim (Bool-cases (leb majority n && contains j s.live_topology_ips)) [
      | inl c ↦
          subst (λ x. (majority ≤ f x) × (contains x s.live_topology_ips ≡ true))
            (some-injective j ip (rw c at e)) (ground (arith, h.0))
      | inr c ↦ elected_by-some s f majority m ip h.1 (rw c at e)
    ]

elected_by_found :
    (s : ReplicationState) (majority : ℕ) (m : List (String × ℕ)) (ip : String)
    → 0 < majority
    → majority ≤ votes_for ip m
    → contains ip s.live_topology_ips ≡ true
    → elected_by s majority m ≢ none
unfolding elected_by votes_for
elected_by_found s majority [] ip p h l = ground arith
elected_by_found s majority ((j, n) ∷ m) ip p h l =
    elim (Bool-cases (leb majority n && contains j s.live_topology_ips)) [
      | inl c ↦ rw c (λ e. ground arith)
      | inr c ↦ elim (Bool-cases (j == ip)) [
        | inl d ↦ absurd (
            ground (
              arith,
              c,
              subst (λ x. contains x s.live_topology_ips ≡ true) (sym ((eq_iff j ip).0 d)) l,
              subst (λ b. majority ≤ (if b then n else votes_for ip m)) d h,
            ))
        | inr d ↦ rw c (elected_by_found s majority m ip p (rw d at h) l)
      ]
    ]

-- The address of a pod that counts as live has the votes of a majority of the reachable Sentinels.
pub record HasMajority (s : ReplicationState) (ip : String) : Type 0 where
  pub won : reachable_sentinels s / 2 + 1 ≤ votes s ip
  pub live : contains ip s.live_topology_ips ≡ true

pub elected_by-HasMajority :
    (s : ReplicationState) (ip : String)
    → elected_by s (reachable_sentinels s / 2 + 1) (tally (values s.sentinel_nodes)) ≡ some ip
    → HasMajority s ip
elected_by-HasMajority s ip e = record { won = b.0; live = b.1 }
  where
    b : (reachable_sentinels s / 2 + 1 ≤ votes s ip) × (contains ip s.live_topology_ips ≡ true)
    b =
        elected_by-some s (votes s) (reachable_sentinels s / 2 + 1)
          (tally (values s.sentinel_nodes)) ip (tally-Within (values s.sentinel_nodes)) e

pub HasMajority-unique :
    (s : ReplicationState) (a b : String) → HasMajority s a → HasMajority s b → a ≡ b
unfolding reachable_sentinels
HasMajority-unique s a b h k = elim (Bool-cases (a == b)) [
  | inl e ↦ (eq_iff a b).0 e
  | inr e ↦ absurd (
      ground (
        arith,
        h.won,
        k.won,
        disjoint_votes a b (values s.sentinel_nodes) (λ p. ground (arith, (eq_iff a b).1 p, e)),
      ))
]

pub elected_by-of_HasMajority :
    (s : ReplicationState) (ip : String)
    → HasMajority s ip
    → elected_by s (reachable_sentinels s / 2 + 1) (tally (values s.sentinel_nodes)) ≡ some ip
elected_by-of_HasMajority s ip h =
    elim (Option-cases
      (elected_by s (reachable_sentinels s / 2 + 1) (tally (values s.sentinel_nodes)))) [
        | inl e ↦ absurd (
            elected_by_found s (reachable_sentinels s / 2 + 1) (tally (values s.sentinel_nodes)) ip
              (ground arith) (ground (arith, h.won, votes_for-tally ip (values s.sentinel_nodes)))
              h.live e)
        | inr (a, e) ↦ e ∙ ap some (HasMajority-unique s a ip (elected_by-HasMajority s a e) h)
      ]

ghost_votes-bump :
    (s : ReplicationState) (k : String) (m : List (String × ℕ))
    → ghost_votes s (bump k m) ≡ (if is_ghost s k then suc (ghost_votes s m) else ghost_votes s m)
unfolding ghost_votes bump
ghost_votes-bump s k [] = ground arith
ghost_votes-bump s k ((j, n) ∷ m) = elim (Bool-cases (j == k)) [
  | inl e ↦ rw e (
      subst
        (λ x. (if is_ghost s j then suc n + ghost_votes s m else ghost_votes s m) ≡ (
          if is_ghost s x
          then suc (if is_ghost s j then n + ghost_votes s m else ghost_votes s m)
          else (if is_ghost s j then n + ghost_votes s m else ghost_votes s m)))
        ((eq_iff j k).0 e) (ground arith))
  | inr e ↦ rw e (ground (arith, ghost_votes-bump s k m))
]

-- The votes for ghosts are the Sentinels that watch one.
pub ghost_votes-tally :
    (s : ReplicationState) (sns : List SentinelNodeState)
    → ghost_votes s (tally sns) ≡ count_if (watches_ghost s) sns
unfolding tally ghost_votes counted
ghost_votes-tally s [] = refl
ghost_votes-tally s (sn ∷ sns) = elim (Bool-cases (counted sn)) [
  | inl e ↦
      rw e (ground (arith, ghost_votes-tally s sns, ghost_votes-bump s sn.master_ip (tally sns), e))
  | inr e ↦ rw e (ground (arith, ghost_votes-tally s sns, e))
]

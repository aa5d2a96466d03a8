-- ===== src/Capture/Evidence.antt =====
-- The evidence that the capture verdict stands on.
use littlered.Prelude.{
  ℕ, suc, ◌+◌, ◌≤◌, ◌≡◌, refl, sym, ap, ◌∙◌, subst, ◌≢◌, ◌⊎◌, inl, inr, Bool, true, false, none,
  some, List, [], ◌∷◌, String, string_eq, arith, any, All, count_if, Bool-cases, Option-cases,
}
use mathlib.Core.Option.{some-injective}
use text.Mathlib.TextEquality.{eq_iff}
use littlered.Replication.State.{
  MonitoredMaster, ReplicationState, SentinelNodeState, is_ours, values,
}
use littlered.Replication.Sentinels.{flagged_down, is_redis_master}
use littlered.Capture.{monitored_addresses, weigh, weigh_all, speaks, hear, hear_all}

-- A live address that is not ours.
abbrev pub IsForeign : ReplicationState → String → MonitoredMaster → Type 0
IsForeign s ip m = (m.ip ≡ ip) × (is_ours s m.ip ≡ false) × (flagged_down m.flags ≡ false)

-- Every master that a reachable Sentinel monitors, under any name, is at that address.
abbrev pub Serves : ReplicationState → String → SentinelNodeState → Type 0
Serves s ip sn = sn.reachable ≡ true → All (IsForeign s ip) (monitored_addresses sn)

abbrev pub observer : SentinelNodeState → Bool
observer sn = speaks sn (monitored_addresses sn)

-- The four clauses: two of the three Sentinels that are deployed have an observation, all observations
-- agree on one live foreign address, and no reachable pod of ours is a master.
pub record CapturedBy (s : ReplicationState) (ip : String) : Type 0 where
  pub named : ip ≢ ""
  pub observers : 2 ≤ count_if observer (values s.sentinel_nodes)
  pub agreed : All (Serves s ip) (values s.sentinel_nodes)
  pub masterless : any is_redis_master (values s.redis_nodes) ≡ false

module _ (s : ReplicationState) where
  weigh_all-none : (ms : List MonitoredMaster) → weigh_all s ms none ≡ none
  unfolding weigh_all weigh
  weigh_all-none [] = refl
  weigh_all-none (m ∷ ms) = weigh_all-none ms

  weigh-cases :
      (m : MonitoredMaster) (f : String)
      → (weigh s m (some f) ≡ none)
        ⊎ ((weigh s m (some f) ≡ some m.ip)
            × (m.ip ≢ "")
            × ((f ≡ "") ⊎ (f ≡ m.ip))
            × (is_ours s m.ip ≡ false)
            × (flagged_down m.flags ≡ false))
  unfolding weigh
  weigh-cases m f = ground (arith, eq_iff m.ip "", eq_iff f "", eq_iff f m.ip)

  weigh_all-some :
      (ms : List MonitoredMaster) (f g : String)
      → weigh_all s ms (some f) ≡ some g
      → All (IsForeign s g) ms × ((f ≡ "") ⊎ (f ≡ g)) × ((g ≡ "") → (f ≡ "") × (ms ≡ []))
  unfolding weigh_all
  weigh_all-some [] f g e = (tt, inr (some-injective f g e), λ h. (some-injective f g e ∙ h, refl))
  weigh_all-some (m ∷ ms) f g e = elim (weigh-cases m f) [
    | inl n ↦ absurd (ground (arith, sym (weigh_all-none ms) ∙ (rw n at e)))
    | inr (w, nonempty, or, ours, down) ↦
        let t = weigh_all-some ms m.ip g (rw w at e) in
        let same = elim t.1 as (λ _. m.ip ≡ g) [ inl z ↦ absurd (nonempty z) | inr z ↦ z ] in
        (
          ((same, ours, down), t.0),
          elim or as (λ _. (f ≡ "") ⊎ (f ≡ g)) [ inl z ↦ inl z | inr z ↦ inr (z ∙ same) ],
          λ h. absurd (nonempty (same ∙ h)),
        )
  ]

  weigh-foreign :
      (m : MonitoredMaster) (f ip : String)
      → ip ≢ ""
      → (f ≡ "") ⊎ (f ≡ ip)
      → IsForeign s ip m
      → weigh s m (some f) ≡ some ip
  unfolding weigh
  weigh-foreign m f ip n or h = ground (arith, eq_iff m.ip "", eq_iff f "", eq_iff f m.ip, n)

  pub weigh_all-foreign :
      (ms : List MonitoredMaster) (f ip : String)
      → ip ≢ ""
      → (f ≡ "") ⊎ (f ≡ ip)
      → All (IsForeign s ip) ms
      → (weigh_all s ms (some f) ≡ some ip) ⊎ ((ms ≡ []) × (weigh_all s ms (some f) ≡ some f))
  unfolding weigh_all
  weigh_all-foreign [] f ip n or h = inr (refl, refl)
  weigh_all-foreign (m ∷ ms) f ip n or h =
      rw (weigh-foreign m f ip n or h.0)
        (elim (weigh_all-foreign ms ip ip n (inr refl) h.1) [ inl e ↦ inl e | inr (_, e) ↦ inl e ])

  pub hear_all-none :
      (sns : List SentinelNodeState) (k j : ℕ) (g : String) → hear_all s sns (none, k) ≢ (some g, j)
  unfolding hear_all hear
  hear_all-none [] k j g e = absurd (ground (arith, ap (λ p. p.0) e))
  hear_all-none (sn ∷ sns) k j g e = elim (Bool-cases (observer sn)) [
    | inl o ↦ hear_all-none sns (suc k) j g (rw (o, weigh_all-none (monitored_addresses sn)) at e)
    | inr o ↦ hear_all-none sns k j g (rw o at e)
  ]

  silent : (sn : SentinelNodeState) (g : String) → observer sn ≡ false → Serves s g sn
  silent sn g o r = go (monitored_addresses sn) o
    where
      go : (ms : List MonitoredMaster) → speaks sn ms ≡ false → All (IsForeign s g) ms
      go [] h = tt
      go (m ∷ ms) h = absurd (ground (arith, r, h))

  observed_nonempty :
      (sn : SentinelNodeState) (f h : String)
      → observer sn ≡ true
      → weigh_all s (monitored_addresses sn) (some f) ≡ some h
      → h ≢ ""
  observed_nonempty sn f h o w p =
      let ms_nil = ((weigh_all-some (monitored_addresses sn) f h w).2 p).1 in
      absurd (ground (arith, subst (λ ms. speaks sn ms ≡ true) ms_nil o))

  pub hear_all-some :
      (sns : List SentinelNodeState) (f g : String) (k j : ℕ)
      → (f ≡ "" → k ≡ 0)
      → hear_all s sns (some f, k) ≡ (some g, j)
      → All (Serves s g) sns
        × (j ≡ k + count_if observer sns)
        × ((f ≡ "") ⊎ (f ≡ g))
        × (g ≡ "" → j ≡ 0)
  unfolding hear_all hear
  hear_all-some [] f g k j z e =
      let a = some-injective f g (ap (λ p. p.0) e) in
      let b = ap (λ p. p.1) e in (tt, ground (arith, b), inr a, λ h. ground (arith, z (a ∙ h), b))
  hear_all-some (sn ∷ sns) f g k j z e = elim (Bool-cases (observer sn)) [
    | inr o ↦
        let t = hear_all-some sns f g k j z (rw o at e) in
        ((silent sn g o, t.0), rw o t.1, t.2, t.3)
    | inl o ↦ elim (Option-cases (weigh_all s (monitored_addresses sn) (some f))) [
      | inl w ↦ absurd (hear_all-none sns (suc k) j g (rw (o, w) at e))
      | inr (h, w) ↦
          let a = weigh_all-some (monitored_addresses sn) f h w in
          let some_h = observed_nonempty sn f h o w in
          let t = hear_all-some sns h g (suc k) j (λ p. absurd (some_h p)) (rw (o, w) at e) in
          let same = elim t.2 as (λ _. h ≡ g) [ inl p ↦ absurd (some_h p) | inr p ↦ p ] in
          (
            (λ _. subst (λ x. All (IsForeign s x) (monitored_addresses sn)) same a.0, t.0),
            rw o (ground (arith, t.1)),
            elim a.1 as (λ _. (f ≡ "") ⊎ (f ≡ g)) [ inl p ↦ inl p | inr p ↦ inr (p ∙ same) ],
            t.3,
          )
    ]
  ]

-- ===== src/Capture/Verdict.antt =====
-- When `planForsaken` declares a capture.
use littlered.Prelude.{
  ℕ, suc, ◌+◌, ◌≤◌, ◌≡◌, refl, ap, ◌∙◌, subst, ◌≢◌, ◌⊎◌, inl, inr, ◌↔◌, Bool, true, false, not,
  ◌&&◌, Option, none, some, List, [], ◌∷◌, String, arith, any, All, count_if, Bool-cases,
}
use littlered.Prelude.Int.{ℤ, ◌-ℤ◌, ltb_ℤ}
use mathlib.Core.Option.{some-injective}
use littlered.Replication.State.{MonitoredMaster, ReplicationState, SentinelNodeState, values}
use littlered.Replication.Sentinels.{is_redis_master}
use littlered.Capture.{
  monitored_addresses, weigh_all, speaks, hear, hear_all, sign, forsaken_signature, armed,
  has_cooled, verdict, plan_forsaken, forsaken_cooldown,
}
use littlered.Capture.Evidence.{
  IsForeign, Serves, observer, CapturedBy, weigh_all-foreign, hear_all-some,
}

module _ (s : ReplicationState) where
  heard :
      (sn : SentinelNodeState) (ms : List MonitoredMaster) (f ip : String)
      → ip ≢ ""
      → (f ≡ "") ⊎ (f ≡ ip)
      → (sn.reachable ≡ true → All (IsForeign s ip) ms)
      → speaks sn ms ≡ true
      → weigh_all s ms (some f) ≡ some ip
  heard sn [] f ip n or h o = absurd (ground (arith, o))
  heard sn (m ∷ ms) f ip n or h o = elim (weigh_all-foreign s (m ∷ ms) f ip n or (h o)) [
    | inl e ↦ e
    | inr (e, _) ↦ absurd (cc)
  ]

  -- Observations that agree are all heard.
  hear_all-Serves :
      (sns : List SentinelNodeState) (f ip : String) (k : ℕ)
      → ip ≢ ""
      → (f ≡ "") ⊎ (f ≡ ip)
      → All (Serves s ip) sns
      → (f' : String) × (hear_all s sns (some f, k) ≡ (some f', k + count_if observer sns))
        × ((f ≡ ip) ⊎ (1 ≤ count_if observer sns) → f' ≡ ip)
  unfolding hear_all hear
  hear_all-Serves [] f ip k n or h = (f, ground arith, λ c. ground (arith, c))
  hear_all-Serves (sn ∷ sns) f ip k n or h = elim (Bool-cases (observer sn)) [
    | inr o ↦ let t = hear_all-Serves sns f ip k n or h.1 in rw o (t.0, t.1, t.2)
    | inl o ↦
        let t = hear_all-Serves sns ip ip (suc k) n (inr refl) h.1 in
        rw (o, heard sn (monitored_addresses sn) f ip n or h.0 o)
          (t.0, t.1 ∙ ap (λ x. (some t.0, x)) (ground arith), λ _. t.2 (inl refl))
  ]

  sign-CapturedBy :
      (f ip : String) (k : ℕ)
      → (sign s (some f, k) ≡ some ip)
        ↔ ((f ≡ ip) × (2 ≤ k) × (any is_redis_master (values s.redis_nodes) ≡ false))
  unfolding sign
  sign-CapturedBy f ip k = ground arith

  found :
      (acc : Option String × ℕ) (ip : String)
      → hear_all s (values s.sentinel_nodes) (some "", 0) ≡ acc
      → sign s acc ≡ some ip
      → CapturedBy s ip
  unfolding sign
  found (none, k) ip e h = absurd (cc)
  found (some f, k) ip e h =
      let c = (sign-CapturedBy f ip k).0 h in
      let t = hear_all-some s (values s.sentinel_nodes) "" f 0 k (λ _. refl) e in
      record {
        named = λ p. ground (arith, t.3 (c.0 ∙ p), c.1);
        observers = ground (arith, t.1, c.1);
        agreed = subst (λ x. All (Serves s x) (values s.sentinel_nodes)) c.0 t.0;
        masterless = c.2;
      }

  -- forsakenSignature finds the address exactly when the instance is captured by it.
  pub forsaken_signature_iff : (ip : String) → (forsaken_signature s ≡ some ip) ↔ CapturedBy s ip
  unfolding forsaken_signature
  forsaken_signature_iff ip = (
    λ e. found (hear_all s (values s.sentinel_nodes) (some "", 0)) ip refl e,
    λ c.
        let t = hear_all-Serves (values s.sentinel_nodes) "" ip 0 c.named (inl refl) c.agreed in
        rw t.1 (
          (sign-CapturedBy t.0 ip (0 + count_if observer (values s.sentinel_nodes))).1
            (t.2 (inr (ground (arith, c.observers))), ground (arith, c.observers), c.masterless)),
  )

-- The capture was first seen at least forsakenCooldown ago.
abbrev pub Lasted : Option ℤ → ℤ → Type 0
Lasted none now = ⊥
Lasted (some since) now = ltb_ℤ (now -ℤ since) forsaken_cooldown ≡ false

has_cooled_iff : (since : Option ℤ) (now : ℤ) → (has_cooled since now ≡ true) ↔ Lasted since now
has_cooled_iff none now = (λ e. absurd (cc), λ e. absurd e)
has_cooled_iff (some since) now = ground arith

verdict_iff :
    (o : Option String) (since : Option ℤ) (now : ℤ) (ip : String)
    → (((verdict o since now).captured ≡ true) × ((verdict o since now).foreign_master ≡ ip))
      ↔ (o ≡ some ip)
unfolding verdict
verdict_iff none since now ip = (λ h. absurd (ground (arith, h.0)), λ h. absurd (cc))
verdict_iff (some f) since now ip = (λ h. ap some h.1, λ h. (refl, some-injective f ip h))

-- planForsaken reports a capture by an address exactly when at least two Sentinels answered and have an
-- observation, every master that a reachable Sentinel monitors under any name is at that one address,
-- which is not ours and not flagged down, no reachable pod of ours is a master, and a capture was seen
-- before or no rollout is under way.
pub captured_iff :
    (s : ReplicationState) (since : Option ℤ) (now : ℤ) (rolling : Bool) (ip : String)
    → (((plan_forsaken s since now rolling).captured ≡ true)
        × ((plan_forsaken s since now rolling).foreign_master ≡ ip))
      ↔ (CapturedBy s ip × ((armed since ≡ true) ⊎ (rolling ≡ false)))
unfolding plan_forsaken
captured_iff s since now rolling ip = elim (Bool-cases (rolling && not (armed since))) [
  | inl e ↦ rw e (λ h. absurd (ground (arith, h.0)), λ h. absurd (ground (arith, e, h.1)))
  | inr e ↦ rw e (
    λ h. (
      (forsaken_signature_iff s ip).0 ((verdict_iff (forsaken_signature s) since now ip).0 h),
      ground (arith, e),
    ),
    λ h. (verdict_iff (forsaken_signature s) since now ip).1 ((forsaken_signature_iff s ip).1 h.0),
  )
]

verdict_late :
    (o : Option String) (since : Option ℤ) (now : ℤ) (ip : String)
    → (((verdict o since now).forsaken ≡ true) × ((verdict o since now).foreign_master ≡ ip))
      ↔ ((o ≡ some ip) × Lasted since now)
unfolding verdict
verdict_late none since now ip =
    (λ h. absurd (ground (arith, h.0)), λ h. absurd (ground (arith, h.0)))
verdict_late (some f) since now ip = (
  λ h. (ap some h.1, (has_cooled_iff since now).0 h.0),
  λ h. ((has_cooled_iff since now).1 h.1, some-injective f ip h.0),
)

Lasted-armed : (since : Option ℤ) (now : ℤ) → Lasted since now → armed since ≡ true
Lasted-armed none now l = absurd l
Lasted-armed (some since) now l = refl

-- planForsaken calls an instance forsaken by an address exactly when the four clauses of the capture
-- hold for the address now and the capture was first seen at least forsakenCooldown ago, whether a
-- rollout is under way or not.
pub forsaken_iff :
    (s : ReplicationState) (since : Option ℤ) (now : ℤ) (rolling : Bool) (ip : String)
    → (((plan_forsaken s since now rolling).forsaken ≡ true)
        × ((plan_forsaken s since now rolling).foreign_master ≡ ip))
      ↔ (CapturedBy s ip × Lasted since now)
unfolding plan_forsaken
forsaken_iff s since now rolling ip = elim (Bool-cases (rolling && not (armed since))) [
  | inl e ↦ rw e (
    λ h. absurd (ground (arith, h.0)),
    λ h. absurd (ground (arith, e, Lasted-armed since now h.1)),
  )
  | inr e ↦ rw e (
    λ h.
        let l = (verdict_late (forsaken_signature s) since now ip).0 h in
        ((forsaken_signature_iff s ip).0 l.0, l.1),
    λ h.
        (verdict_late (forsaken_signature s) since now ip).1
          ((forsaken_signature_iff s ip).1 h.0, h.1),
  )
]

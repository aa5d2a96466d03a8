-- ===== src/Failover/Watcher.antt =====
-- internal/controller/failover_monitor.go: when the watcher of a master pushes its event. A zero time is
-- `none`; times and durations are nanoseconds.
use littlered.Prelude.{
  ℕ, suc, ◌≡◌, refl, sym, ap, ◌∙◌, ◌≢◌, ◌⊎◌, inl, inr, Bool, true, false, not, ◌&&◌, Option, none,
  some, List, [], ◌∷◌, String, ◌==◌, string_eq, if◌then◌else◌, arith, any, Bool-cases,
}
use littlered.Prelude.Int.{ℤ, ◌-ℤ◌, ltb_ℤ}
use text.Mathlib.TextEquality.{eq_iff}

pub record FailoverProbeStreak : Type 0 where
  pub master_ip : String
  pub failing_since : Option ℤ
  pub fired : Bool

-- The failure happened at least downAfter after the first one.
abbrev pub is_late : ℤ → ℤ → ℤ → Bool
is_late down_after since now = not (ltb_ℤ (now -ℤ since) down_after)

-- The streak that this failure belongs to, with the time of its first failure.
abbrev pub joined : FailoverProbeStreak → String → ℤ → Option ℤ → FailoverProbeStreak × ℤ
joined prev master_ip now none =
    (record { master_ip = master_ip; failing_since = some now; fired = false }, now)
joined prev master_ip now (some since) =
    if prev.master_ip == master_ip
    then (prev, since)
    else (record { master_ip = master_ip; failing_since = some now; fired = false }, now)

unfoldable pub judge_streak : FailoverProbeStreak × ℤ → ℤ → ℤ → FailoverProbeStreak × Bool
judge_streak (next, since) now down_after =
    if not next.fired && is_late down_after since now
    then (record next { fired = true }, true)
    else (next, false)

unfoldable pub advance_failover_probe_streak :
    FailoverProbeStreak → String → Bool → ℤ → ℤ → FailoverProbeStreak × Bool
unfolding judge_streak
advance_failover_probe_streak prev master_ip probe_ok now down_after =
    if master_ip == ""
    then (record { master_ip = ""; failing_since = none; fired = false }, false)
    else if probe_ok
    then (record { master_ip = master_ip; failing_since = none; fired = false }, false)
    else judge_streak (joined prev master_ip now prev.failing_since) now down_after

-- How many events the watcher pushes over failed probes of one address, at these times.
unfoldable pub events : FailoverProbeStreak → String → ℤ → List ℤ → ℕ
unfolding advance_failover_probe_streak
events prev master_ip down_after [] = 0
events prev master_ip down_after (now ∷ times) =
    let (next, fire) = advance_failover_probe_streak prev master_ip false now down_after in
    let rest = events next master_ip down_after times in if fire then suc rest else rest

abbrev pub once : Bool → ℕ
once true = 1
once false = 0

abbrev streak : String → ℤ → Bool → FailoverProbeStreak
streak master_ip since fired = record {
  master_ip = master_ip;
  failing_since = some since;
  fired = fired;
}

-- Within a streak.
eq_ne : (ip : String) → ip ≢ "" → (ip == "") ≡ false
eq_ne ip n = ground (arith, n, eq_iff ip "")

events-streak :
    (ip : String) (down_after since : ℤ) (fired : Bool) (times : List ℤ)
    → ip ≢ ""
    → events (streak ip since fired) ip down_after times
      ≡ (if fired then 0 else once (any (is_late down_after since) times))
unfolding events
events-streak ip d since true [] n = refl
events-streak ip d since false [] n = refl
events-streak ip d since true (t ∷ ts) n =
    rw ((eq_ne ip n), (eq_iff ip ip).1 refl) (events-streak ip d since true ts n)
events-streak ip d since false (t ∷ ts) n = elim (Bool-cases (is_late d since t)) [
  | inl l ↦ rw (eq_ne ip n, (eq_iff ip ip).1 refl, l) (ap suc (events-streak ip d since true ts n))
  | inr l ↦ rw (eq_ne ip n, (eq_iff ip ip).1 refl, l) (events-streak ip d since false ts n)
]

-- The failure begins a streak: the last probe succeeded, or it was of another address.
abbrev pub Rearmed : FailoverProbeStreak → String → Type 0
Rearmed prev master_ip = (prev.failing_since ≡ none) ⊎ (prev.master_ip ≢ master_ip)

joined_new :
    (prev : FailoverProbeStreak) (ip : String) (t : ℤ) (o : Option ℤ)
    → prev.failing_since ≡ o
    → Rearmed prev ip
    → joined prev ip t o ≡ (streak ip t false, t)
joined_new prev ip t none e r = refl
joined_new prev ip t (some since) e (inl n) = absurd (ground (arith, sym e ∙ n))
joined_new prev ip t (some since) e (inr n) = elim (Bool-cases (prev.master_ip == ip)) [
  | inl h ↦ absurd (n ((eq_iff prev.master_ip ip).0 h))
  | inr h ↦ rw h refl
]

-- Over failed probes of one address that begin a streak, the watcher pushes exactly one event where one
-- of the probes is at least downAfter after the first, and none otherwise.
pub streak_fires_once :
    (prev : FailoverProbeStreak) (master_ip : String) (down_after first : ℤ) (times : List ℤ)
    → master_ip ≢ ""
    → Rearmed prev master_ip
    → events prev master_ip down_after (first ∷ times)
      ≡ once (any (is_late down_after first) (first ∷ times))
unfolding events judge_streak
streak_fires_once prev ip d t ts n r =
    rw (eq_ne ip n, joined_new prev ip t prev.failing_since refl r)
      (elim (Bool-cases (is_late d t t)) [
        | inl l ↦ rw l (ap suc (events-streak ip d t true ts n))
        | inr l ↦ rw l (events-streak ip d t false ts n)
      ])

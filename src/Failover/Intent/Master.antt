-- ===== src/Failover/Intent/Master.antt =====
-- Which pod is the intended master.
use littlered.Prelude.{
  ◌≡◌, refl, ◌≢◌, ◌⊎◌, inl, inr, Bool, true, false, ◌&&◌, ◌||◌, List, [], ◌∷◌, String, ◌==◌,
  string_eq, nat_eq, arith, Bool-cases, In, ℕ, ◌+◌, ltb, nat_beq, sym, subst, ◌∙◌,
}
use text.Mathlib.TextEquality.{eq_iff}
use littlered.Prelude.Int.{ℤ, ltb_ℤ, beq_ℤ, pos_part, neg_part, ◌≤ℤ◌, ◌<ℤ◌}
use littlered.Prelude.Text.{str_ltb, StrLt-trans, StrLt-irrefl}
use littlered.Replication.State.{role_master}
use littlered.Failover.Intent.{
  FailoverPodView, FailoverIntent, Resolving, resolve_pod, resolve_from, resolve_failover_intent,
  supersedes, unresolved,
}

-- The pod is assigned the role of master.
abbrev pub is_assigned_master : FailoverPodView → Bool
is_assigned_master p = p.has_assignment && p.assigned_role == role_master

-- `supersedes` on epochs and names.
abbrev beats : ℤ → String → ℤ → String → Bool
beats e n e' n' = n' == "" || ltb_ℤ e' e || (beq_ℤ e e' && str_ltb n n')

-- The same, on the parts of the epochs and with the tests on names given.
parts_trans :
    (a a' b b' c c' : ℕ) (re qr pr qp : Bool)
    → (re || ltb (c + a') (a + c') || (nat_beq (a + c') (c + a') && qr)) ≡ false
    → (re || ltb (c + b') (b + c') || (nat_beq (b + c') (c + b') && pr)) ≡ true
    → (qp ≡ true → pr ≡ true → qr ≡ true)
    → (ltb (b + a') (a + b') || (nat_beq (a + b') (b + a') && qp)) ≡ false
parts_trans a a' b b' c c' true qr pr qp h k t = absurd (ground arith)
parts_trans a a' b b' c c' false true true qp h k t = ground arith
parts_trans a a' b b' c c' false true false qp h k t = ground arith
parts_trans a a' b b' c c' false false false qp h k t = ground arith
parts_trans a a' b b' c c' false false true true h k t = ground (arith, t refl refl)
parts_trans a a' b b' c c' false false true false h k t = ground arith

beats_trans :
    (a b c : ℤ) (q p r : String)
    → p ≢ ""
    → beats a q c r ≡ false
    → beats b p c r ≡ true
    → beats a q b p ≡ false
beats_trans a b c q p r n h k =
    let tail =
      parts_trans (pos_part a) (neg_part a) (pos_part b) (neg_part b) (pos_part c) (neg_part c)
        (r == "") (str_ltb q r) (str_ltb p r) (str_ltb q p) h k (λ x y. StrLt-trans q p r x y) in
    let named : (p == "") ≡ false = ground (arith, eq_iff p "") in rw named tail

beats_irrefl : (e : ℤ) (n : String) → n ≢ "" → beats e n e n ≡ false
beats_irrefl e n h = ground (arith, eq_iff n "", StrLt-irrefl n)

-- What one turn of the loop leaves as the intended master.
data Turned (p : FailoverPodView) (r : Resolving) : Type 0 where
  kept :
      (is_assigned_master p ≡ false) ⊎ (supersedes p r ≡ false)
      → (resolve_pod p r).intent.master_name ≡ r.intent.master_name
      → (resolve_pod p r).intent.master_ip ≡ r.intent.master_ip
      → (resolve_pod p r).master_epoch ≡ r.master_epoch
      → Turned p r
  taken :
      is_assigned_master p ≡ true
      → supersedes p r ≡ true
      → (resolve_pod p r).intent.master_name ≡ p.name
      → (resolve_pod p r).intent.master_ip ≡ p.ip
      → (resolve_pod p r).master_epoch ≡ p.epoch
      → Turned p r

turned : (p : FailoverPodView) (r : Resolving) → Turned p r
unfolding resolve_pod
turned p r = elim (Bool-cases (is_assigned_master p)) [
  | inl m ↦ elim (Bool-cases (supersedes p r)) [
    | inl s ↦ taken m s (ground (arith, m, s)) (ground (arith, m, s)) (ground (arith, m, s))
    | inr s ↦ kept (inr s) (ground (arith, m, s)) (ground (arith, m, s)) (ground (arith, m, s))
  ]
  | inr m ↦ kept (inl m) (ground (arith, m)) (ground (arith, m)) (ground (arith, m))
]

-- The master of `r` is the pod.
record Names (r : Resolving) (p : FailoverPodView) : Type 0 where
  pub assigned : is_assigned_master p ≡ true
  pub name : r.intent.master_name ≡ p.name
  pub address : r.intent.master_ip ≡ p.ip
  pub epoch : r.master_epoch ≡ p.epoch

abbrev pub AreNamed : List FailoverPodView → Type 0
AreNamed pods = (p : FailoverPodView) → In p pods → p.name ≢ ""

unbeaten :
    (q : FailoverPodView) (r : Resolving) (n : String) (e : ℤ)
    → r.intent.master_name ≡ n
    → r.master_epoch ≡ e
    → beats q.epoch q.name e n ≡ false
    → supersedes q r ≡ false
unbeaten q r n e same_n same_e h =
    subst (λ m. beats q.epoch q.name r.master_epoch m ≡ false) (sym same_n)
      (subst (λ x. beats q.epoch q.name x n ≡ false) (sym same_e) h)

-- What does not supersede the master before a turn does not after it.
turn-unbeaten :
    (q p : FailoverPodView) (r : Resolving)
    → p.name ≢ ""
    → Turned p r
    → supersedes q r ≡ false
    → supersedes q (resolve_pod p r) ≡ false
turn-unbeaten q p r n (kept _ a _ c) h =
    unbeaten q (resolve_pod p r) r.intent.master_name r.master_epoch a c h
turn-unbeaten q p r n (taken _ s a _ c) h =
    unbeaten q (resolve_pod p r) p.name p.epoch a c
      (beats_trans q.epoch p.epoch r.master_epoch q.name p.name r.intent.master_name n h s)

-- A pod that had its turn does not supersede what it left.
turn_own :
    (p : FailoverPodView) (r : Resolving)
    → p.name ≢ ""
    → Turned p r
    → is_assigned_master p ≡ true
    → supersedes p (resolve_pod p r) ≡ false
turn_own p r n (kept (inl x) _ _ _) m = absurd (ground (arith, x, m))
turn_own p r n (kept (inr s) a _ c) m =
    unbeaten p (resolve_pod p r) r.intent.master_name r.master_epoch a c s
turn_own p r n (taken _ _ a _ c) m =
    unbeaten p (resolve_pod p r) p.name p.epoch a c (beats_irrefl p.epoch p.name n)

resolve_from_cons :
    (r : Resolving) (p : FailoverPodView) (ps : List FailoverPodView)
    → resolve_from r (p ∷ ps) ≡ resolve_from (resolve_pod p r) ps
unfolding resolve_from
resolve_from_cons r p ps = refl

resolve_from_nil : (r : Resolving) → resolve_from r [] ≡ r
unfolding resolve_from
resolve_from_nil r = refl

resolve_from-unbeaten :
    (q : FailoverPodView) (ps : List FailoverPodView) (r : Resolving)
    → AreNamed ps
    → (supersedes q r ≡ false) ⊎ (In q ps × (is_assigned_master q ≡ true))
    → supersedes q (resolve_from r ps) ≡ false
resolve_from-unbeaten q [] r n (inl h) =
    subst (λ x. supersedes q x ≡ false) (sym (resolve_from_nil r)) h
resolve_from-unbeaten q [] r n (inr (m, _)) = elim m [ ]
resolve_from-unbeaten q (p ∷ ps) r n c =
    subst (λ x. supersedes q x ≡ false) (sym (resolve_from_cons r p ps))
      (resolve_from-unbeaten q ps (resolve_pod p r) (λ k m. n k (inr m)) (next c))
  where
    next :
        (supersedes q r ≡ false) ⊎ (In q (p ∷ ps) × (is_assigned_master q ≡ true))
        → (supersedes q (resolve_pod p r) ≡ false) ⊎ (In q ps × (is_assigned_master q ≡ true))
    next (inl h) = inl (turn-unbeaten q p r (n p (inl refl)) (turned p r) h)
    next (inr (inl e, m)) = inl (
        subst (λ k. supersedes k (resolve_pod p r) ≡ false) (sym e)
          (turn_own p r (n p (inl refl)) (turned p r)
            (subst (λ k. is_assigned_master k ≡ true) e m)))
    next (inr (inr i, m)) = inr (i, m)

-- The loop leaves the master it began with, or makes one of the pods the master.
data Sourced (before after : Resolving) (ps : List FailoverPodView) : Type 0 where
  same :
      after.intent.master_name ≡ before.intent.master_name
      → after.intent.master_ip ≡ before.intent.master_ip
      → after.master_epoch ≡ before.master_epoch
      → Sourced before after ps
  named : (p : FailoverPodView) → In p ps → Names after p → Sourced before after ps

turn-Sourced :
    (p : FailoverPodView) (ps : List FailoverPodView) (r after : Resolving)
    → Turned p r
    → Sourced (resolve_pod p r) after ps
    → Sourced r after (p ∷ ps)
turn-Sourced p ps r after t (named q m n) = named q (inr m) n
turn-Sourced p ps r after (kept _ a b c) (same x y z) = same (x ∙ a) (y ∙ b) (z ∙ c)
turn-Sourced p ps r after (taken m _ a b c) (same x y z) =
    named p (inl refl) (record { assigned = m; name = x ∙ a; address = y ∙ b; epoch = z ∙ c })

resolve_from-Sourced :
    (ps : List FailoverPodView) (r : Resolving) → Sourced r (resolve_from r ps) ps
resolve_from-Sourced [] r =
    subst (λ x. Sourced r x []) (sym (resolve_from_nil r)) (same refl refl refl)
resolve_from-Sourced (p ∷ ps) r =
    subst (λ x. Sourced r x (p ∷ ps)) (sym (resolve_from_cons r p ps))
      (turn-Sourced p ps r (resolve_from (resolve_pod p r) ps) (turned p r)
        (resolve_from-Sourced ps (resolve_pod p r)))

-- The pod is the intended master: among the pods that are assigned the role of master none has a
-- higher epoch, and none with the same epoch comes first by name.
pub record IsIntended (pods : List FailoverPodView) (intent : FailoverIntent) (p : FailoverPodView)
    : Type 0 where
  pub listed : In p pods
  pub assigned : is_assigned_master p ≡ true
  pub name : intent.master_name ≡ p.name
  pub address : intent.master_ip ≡ p.ip
  pub highest :
      (q : FailoverPodView)
      → In q pods
      → is_assigned_master q ≡ true
      → (q.epoch <ℤ p.epoch) ⊎ ((q.epoch ≤ℤ p.epoch) × (str_ltb q.name p.name ≡ false))

not_beats :
    (e e' : ℤ) (n n' : String)
    → beats e n e' n' ≡ false
    → (e <ℤ e') ⊎ ((e ≤ℤ e') × (str_ltb n n' ≡ false))
not_beats e e' n n' h = ground (arith, h)

-- Where all pods have names and some pod is assigned the role of master, the resolved intent names
-- a listed pod with that role and its address; no pod with that role has a higher epoch, and none
-- with the same epoch has a smaller name.
pub resolve_failover_intent-IsIntended :
    (pods : List FailoverPodView) (some_master : FailoverPodView)
    → AreNamed pods
    → In some_master pods
    → is_assigned_master some_master ≡ true
    → (p : FailoverPodView) × IsIntended pods (resolve_failover_intent pods) p
unfolding resolve_failover_intent
resolve_failover_intent-IsIntended pods k n i m = by_source (resolve_from-Sourced pods unresolved)
  where
    least :
        (q : FailoverPodView)
        → In q pods
        → is_assigned_master q ≡ true
        → supersedes q (resolve_from unresolved pods) ≡ false
    least q j a = resolve_from-unbeaten q pods unresolved n (inr (j, a))

    by_source :
        Sourced unresolved (resolve_from unresolved pods) pods
        → (p : FailoverPodView) × IsIntended pods (resolve_from unresolved pods).intent p
    by_source (same e _ _) = absurd (
        ground (arith, least k i m, e, eq_iff (resolve_from unresolved pods).intent.master_name ""))
    by_source (named p j x) = (
      p,
      record {
        listed = j;
        assigned = x.assigned;
        name = x.name;
        address = x.address;
        highest = λ q l a. not_beats q.epoch p.epoch q.name p.name (
            subst (λ e. beats q.epoch q.name e p.name ≡ false) x.epoch
              (subst
                (λ t. beats q.epoch q.name (resolve_from unresolved pods).master_epoch t ≡ false)
                x.name (least q l a)));
      },
    )

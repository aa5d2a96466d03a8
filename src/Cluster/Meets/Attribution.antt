-- ===== src/Cluster/Meets/Attribution.antt =====
-- Which addresses the operator may MEET on the evidence of the cluster bus.
use littlered.Prelude.{
  ◌≡◌, refl, ◌≢◌, ◌↔◌, ◌⊎◌, inl, inr, Bool, true, false, ◌||◌, List, [], ◌∷◌, String, ◌==◌,
  string_eq, arith, Bool-cases, In, subst, ◌∙◌,
}
use text.Mathlib.TextEquality.{eq_iff}
use littlered.Replication.State.{contains}
use littlered.Cluster.Meets.{
  MeetCandidate, member, isolated, unattributed, attribute_view, attribute_meet_target,
  admissible_when_confirmed,
}

pub contains_iff : (ip : String) (xs : List String) → (contains ip xs ≡ true) ↔ In ip xs
contains_iff ip [] = (λ e. absurd (cc), λ m. elim m [ ])
contains_iff ip (x ∷ xs) = ground (arith, eq_iff x ip, contains_iff ip xs)

-- Another node that the candidate names in its own view.
pub record Peer (c : MeetCandidate) (id : String) : Type 0 where
  pub named : In id c.known_ids
  pub nonempty : id ≢ ""
  pub other : id ≢ c.node_id

-- The address answered, with an id, and its view was gathered.
pub record Answered (c : MeetCandidate) : Type 0 where
  pub address : c.pod_ip ≢ ""
  pub identified : c.identified ≡ true
  pub known : c.node_id ≢ ""
  pub viewed : c.view_known ≡ true

abbrev pub KnowsOurs : MeetCandidate → List String → Type 0
KnowsOurs c our_ids = (id : String) × Peer c id × In id our_ids

abbrev IsPeerIn : String → List String → String → Type 0
IsPeerIn node_id ids id = In id ids × (id ≢ "") × (id ≢ node_id)

module _ (node_id : String) (our_ids : List String) where
  -- The head of the view is passed over, attributes the candidate, or counts as a peer.
  data Head (peered : Bool) (x : String) (ids : List String) : Type 0 where
    skips :
        ¬ ((x ≢ "") × (x ≢ node_id))
        → attribute_view node_id peered our_ids (x ∷ ids)
          ≡ attribute_view node_id peered our_ids ids
        → Head peered x ids
    ours :
        (x ≢ "") × (x ≢ node_id)
        → In x our_ids
        → attribute_view node_id peered our_ids (x ∷ ids) ≡ member
        → Head peered x ids
    counts :
        (x ≢ "") × (x ≢ node_id)
        → ¬ In x our_ids
        → attribute_view node_id peered our_ids (x ∷ ids) ≡ attribute_view node_id true our_ids ids
        → Head peered x ids

  Head-cases : (peered : Bool) (x : String) (ids : List String) → Head peered x ids
  unfolding attribute_view
  Head-cases peered x ids = elim (Bool-cases (x == "" || x == node_id)) [
    | inl s ↦ skips (λ (a, b). ground (arith, eq_iff x "", eq_iff x node_id)) (rw s refl)
    | inr n ↦ elim (Bool-cases (contains x our_ids)) [
      | inl o ↦
          ours (λ e. ground (arith, eq_iff x ""), λ e. ground (arith, eq_iff x node_id))
            ((contains_iff x our_ids).0 o) (rw (n, o) refl)
      | inr o ↦
          counts (λ e. ground (arith, eq_iff x ""), λ e. ground (arith, eq_iff x node_id))
            (λ m. ground (arith, (contains_iff x our_ids).1 m)) (rw (n, o) refl)
    ]
  ]

  -- What the loop says of the rest of the view.
  data Verdict (peered : Bool) (ids : List String) : Type 0 where
    is_member :
        (id : String)
        → IsPeerIn node_id ids id
        → In id our_ids
        → attribute_view node_id peered our_ids ids ≡ member
        → Verdict peered ids
    is_unattributed :
        (peered ≡ true) ⊎ ((id : String) × IsPeerIn node_id ids id)
        → ((id : String) → IsPeerIn node_id ids id → ¬ In id our_ids)
        → attribute_view node_id peered our_ids ids ≡ unattributed
        → Verdict peered ids
    is_isolated :
        peered ≡ false
        → ((id : String) → ¬ IsPeerIn node_id ids id)
        → attribute_view node_id peered our_ids ids ≡ isolated
        → Verdict peered ids

  verdict : (peered : Bool) (ids : List String) → Verdict peered ids
  unfolding attribute_view
  verdict true [] = is_unattributed (inl refl) (λ id p. elim p.0 [ ]) refl
  verdict false [] = is_isolated refl (λ id p. elim p.0 [ ]) refl
  verdict peered (x ∷ ids) =
      with_head (verdict peered ids) (verdict true ids) (Head-cases peered x ids)
    where
      skipped :
          ¬ ((x ≢ "") × (x ≢ node_id))
          → (id : String) → IsPeerIn node_id (x ∷ ids) id
          → IsPeerIn node_id ids id
      skipped s id (m, p, q) = elim m [
        | inl e ↦ absurd (s (subst (λ y. (y ≢ "") × (y ≢ node_id)) e (p, q)))
        | inr n ↦ (n, p, q)
      ]

      strangers :
          ¬ In x our_ids
          → ((id : String) → IsPeerIn node_id ids id → ¬ In id our_ids)
          → (id : String) → IsPeerIn node_id (x ∷ ids) id
          → ¬ In id our_ids
      strangers o f id (m, p, q) k = elim m [
        | inl e ↦ o (subst (λ y. In y our_ids) e k)
        | inr n ↦ f id (n, p, q) k
      ]

      after_skip :
          ¬ ((x ≢ "") × (x ≢ node_id))
          → attribute_view node_id peered our_ids (x ∷ ids)
            ≡ attribute_view node_id peered our_ids ids
          → Verdict peered ids
          → Verdict peered (x ∷ ids)
      after_skip s e (is_member id (m, p, q) o v) = is_member id (inr m, p, q) o (e ∙ v)
      after_skip s e (is_unattributed (inl q) f v) =
          is_unattributed (inl q) (λ id p. f id (skipped s id p)) (e ∙ v)
      after_skip s e (is_unattributed (inr (id, (m, r, q))) f v) =
          is_unattributed (inr (id, (inr m, r, q))) (λ id p. f id (skipped s id p)) (e ∙ v)
      after_skip s e (is_isolated q f v) = is_isolated q (λ id p. f id (skipped s id p)) (e ∙ v)

      after_count :
          (x ≢ "") × (x ≢ node_id)
          → ¬ In x our_ids
          → attribute_view node_id peered our_ids (x ∷ ids)
            ≡ attribute_view node_id true our_ids ids
          → Verdict true ids
          → Verdict peered (x ∷ ids)
      after_count p o e (is_member id (m, q, r) k v) = is_member id (inr m, q, r) k (e ∙ v)
      after_count p o e (is_unattributed _ f v) =
          is_unattributed (inr (x, (inl refl, p.0, p.1))) (strangers o f) (e ∙ v)
      after_count p o e (is_isolated q f v) = absurd (cc)

      with_head :
          Verdict peered ids → Verdict true ids → Head peered x ids → Verdict peered (x ∷ ids)
      with_head v w (skips s e) = after_skip s e v
      with_head v w (ours p o e) = is_member x (inl refl, p.0, p.1) o e
      with_head v w (counts p o e) = after_count p o e w

Peer-of : (c : MeetCandidate) (id : String) → IsPeerIn c.node_id c.known_ids id → Peer c id
Peer-of c id (m, n, o) = record { named = m; nonempty = n; other = o }

of_Peer : (c : MeetCandidate) (id : String) → Peer c id → IsPeerIn c.node_id c.known_ids id
of_Peer c id p = (p.named, p.nonempty, p.other)

Answered-view :
    (c : MeetCandidate) (our_ids : List String)
    → Answered c
    → attribute_meet_target c our_ids ≡ attribute_view c.node_id false our_ids c.known_ids
unfolding attribute_meet_target
Answered-view c our_ids a =
    ground
      (arith, a.address, a.known, a.identified, a.viewed, eq_iff c.pod_ip "", eq_iff c.node_id "")

-- The three verdicts on an address that answered: `member` exactly when it names another node that
-- is ours, `unattributed` exactly when it names other nodes and none of them is ours, and
-- `isolated` exactly when it names no other node.
pub attribute-Answered :
    (c : MeetCandidate) (our_ids : List String)
    → Answered c
    → ((attribute_meet_target c our_ids ≡ member) ↔ KnowsOurs c our_ids)
      × ((attribute_meet_target c our_ids ≡ isolated) ↔ ((id : String) → ¬ Peer c id))
      × ((attribute_meet_target c our_ids ≡ unattributed)
          ↔ (((id : String) × Peer c id) × ¬ KnowsOurs c our_ids))
attribute-Answered c our_ids a =
    by_verdict (Answered-view c our_ids a) (verdict c.node_id our_ids false c.known_ids)
  where
    by_verdict :
        attribute_meet_target c our_ids ≡ attribute_view c.node_id false our_ids c.known_ids
        → Verdict c.node_id our_ids false c.known_ids
        → ((attribute_meet_target c our_ids ≡ member) ↔ KnowsOurs c our_ids)
          × ((attribute_meet_target c our_ids ≡ isolated) ↔ ((id : String) → ¬ Peer c id))
          × ((attribute_meet_target c our_ids ≡ unattributed)
              ↔ (((id : String) × Peer c id) × ¬ KnowsOurs c our_ids))
    by_verdict e (is_member id p o v) = (
      (λ _. (id, Peer-of c id p, o), λ _. e ∙ v),
      (λ w. absurd (cc), λ n. absurd (n id (Peer-of c id p))),
      (λ w. absurd (cc), λ (_, n). absurd (n (id, Peer-of c id p, o))),
    )
    by_verdict e (is_unattributed (inl q) f v) = absurd (cc)
    by_verdict e (is_unattributed (inr (id, p)) f v) = (
      (λ w. absurd (cc), λ (i, q, o). absurd (f i (of_Peer c i q) o)),
      (λ w. absurd (cc), λ n. absurd (n id (Peer-of c id p))),
      (λ _. ((id, Peer-of c id p), λ (i, q, o). f i (of_Peer c i q) o), λ _. e ∙ v),
    )
    by_verdict e (is_isolated q f v) = (
      (λ w. absurd (cc), λ (i, r, o). absurd (f i (of_Peer c i r))),
      (λ _ i r. f i (of_Peer c i r), λ _. e ∙ v),
      (λ w. absurd (cc), λ ((i, r), n). absurd (f i (of_Peer c i r))),
    )

admissible-Answered :
    (c : MeetCandidate) (our_ids : List String)
    → admissible_when_confirmed (attribute_meet_target c our_ids) ≡ true
    → Answered c
unfolding attribute_meet_target
admissible-Answered c our_ids h = record {
  address = ground (arith, eq_iff c.pod_ip "");
  identified = ground arith;
  known = ground (arith, eq_iff c.node_id "");
  viewed = ground arith;
}

-- The no-evidence verdicts are exactly those of an address that did not answer.
pub admissible_iff_Answered :
    (c : MeetCandidate) (our_ids : List String)
    → (admissible_when_confirmed (attribute_meet_target c our_ids) ≡ true) ↔ Answered c
admissible_iff_Answered c our_ids =
    (admissible-Answered c our_ids, λ a. admitted a (verdict c.node_id our_ids false c.known_ids))
  where
    admitted :
        Answered c
        → Verdict c.node_id our_ids false c.known_ids
        → admissible_when_confirmed (attribute_meet_target c our_ids) ≡ true
    admitted a (is_member id p o v) = rw (Answered-view c our_ids a, v) refl
    admitted a (is_unattributed q f v) = rw (Answered-view c our_ids a, v) refl
    admitted a (is_isolated q f v) = rw (Answered-view c our_ids a, v) refl

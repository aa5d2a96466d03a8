-- ===== src/Replication/Lineage/Joining.antt =====
-- Pass 1 of `holdersDiverged` gives two ids one root exactly when they are connected.
use littlered.Prelude.{
  ℕ, ◌≡◌, refl, sym, ap, ◌∙◌, subst, inl, inr, Bool, true, false, List, [], ◌∷◌, String, ◌==◌,
  string_eq, if◌then◌else◌, arith, Bool-cases, In, All,
}
use text.Mathlib.TextEquality.{eq_iff}
use littlered.Replication.State.{RedisNodeState}
use littlered.Replication.Lineage.{Parents, valid, connect, connect_all}
use littlered.Replication.Lineage.Spec.{Connected, here, promoted, back, via}
use littlered.Replication.Lineage.Forest.{Forest, find-Found, merge, deepen, union-Forest}

abbrev pub IsSound : List RedisNodeState → (String → String) → Type 0
IsSound hs R = (x : String) → Connected hs x (R x)

abbrev pub Joins : (String → String) → RedisNodeState → Type 0
Joins R h = valid h.replid ≡ true → valid h.replid2 ≡ true → R h.replid ≡ R h.replid2

abbrev pub Keeps : (R R' : String → String) → Type 0
Keeps R R' = (u v : String) → R u ≡ R v → R' u ≡ R' v

-- What one or more rounds of pass 1 make of the roots `R`.
pub record Pass (hs : List RedisNodeState) (R : String → String) (todo : List RedisNodeState)
    (m : Parents) : Type 0 where
  pub roots : String → String
  pub depth : String → ℕ
  pub forest : Forest roots depth m
  pub sound : IsSound hs roots
  pub keeps : Keeps R roots
  pub joined : All (Joins roots) todo

merge-IsSound :
    (hs : List RedisNodeState) (R : String → String) (h : RedisNodeState)
    → In h hs
    → valid h.replid ≡ true
    → valid h.replid2 ≡ true
    → IsSound hs R
    → IsSound hs (merge (R h.replid) (R h.replid2) R)
merge-IsSound hs R h m v w s x = elim (Bool-cases (R x == R h.replid)) [
  | inl e ↦ rw e (
      via (subst (Connected hs x) ((eq_iff (R x) (R h.replid)).0 e) (s x))
        (via (back (s h.replid)) (via (promoted h m v w) (s h.replid2))))
  | inr e ↦ rw e (s x)
]

merge-Joins :
    (R : String → String) (h : RedisNodeState) → Joins (merge (R h.replid) (R h.replid2) R) h
merge-Joins R h v w =
    ground (arith, eq_iff (R h.replid) (R h.replid), eq_iff (R h.replid2) (R h.replid))

connect-Pass :
    (hs : List RedisNodeState) (R : String → String) (d : String → ℕ) (h : RedisNodeState)
    (m : Parents)
    → In h hs
    → Forest R d m
    → IsSound hs R
    → Pass hs R (h ∷ []) (connect h m)
unfolding connect
connect-Pass hs R d h m i F s = elim (Bool-cases (valid h.replid)) [
  | inl v ↦ rw v (elim (Bool-cases (valid h.replid2)) [
    | inl w ↦ rw w (record {
      roots = merge (R h.replid) (R h.replid2) R;
      depth = deepen (R h.replid) (R h.replid2) R d;
      forest = union-Forest h.replid h.replid2 m F;
      sound = merge-IsSound hs R h i v w s;
      keeps = λ a b e. ap (λ r. if r == R h.replid then R h.replid2 else r) e;
      joined = (merge-Joins R h, tt);
    })
    | inr w ↦ rw w (same (find-Found h.replid m F).forest (λ _ w'. absurd (false_true w w')))
  ])
  | inr v ↦ rw v (elim (Bool-cases (valid h.replid2)) [
    | inl w ↦ rw w (same (find-Found h.replid2 m F).forest (λ v' _. absurd (false_true v v')))
    | inr w ↦ rw w (same F (λ v' _. absurd (false_true v v')))
  ])
]
  where
    false_true : {b : Bool} → b ≡ false → b ≡ true → ⊥
    false_true e e' = cc

    same : {m' : Parents} → Forest R d m' → Joins R h → Pass hs R (h ∷ []) m'
    same F' j = record {
      roots = R;
      depth = d;
      forest = F';
      sound = s;
      keeps = λ a b e. e;
      joined = (j, tt);
    }

pub connect_all-Pass :
    (hs : List RedisNodeState) (R : String → String) (d : String → ℕ) (todo : List RedisNodeState)
    (m : Parents)
    → ((h : RedisNodeState) → In h todo → In h hs)
    → Forest R d m
    → IsSound hs R
    → Pass hs R todo (connect_all todo m)
unfolding connect_all
connect_all-Pass hs R d [] m i F s = record {
  roots = R;
  depth = d;
  forest = F;
  sound = s;
  keeps = λ a b e. e;
  joined = tt;
}
connect_all-Pass hs R d (h ∷ todo) m i F s =
    let one = connect-Pass hs R d h m (i h (inl refl)) F s in
    let rest =
      connect_all-Pass hs one.roots one.depth todo (connect h m) (λ k j. i k (inr j)) one.forest
        one.sound in
    record {
      roots = rest.roots;
      depth = rest.depth;
      forest = rest.forest;
      sound = rest.sound;
      keeps = λ a b e. rest.keeps a b (one.keeps a b e);
      joined = (λ v w. rest.keeps h.replid h.replid2 (one.joined.0 v w), rest.joined);
    }

-- Connected ids have one root.
pub Connected-root :
    {hs : List RedisNodeState} (R : String → String) {a b : String}
    → ((h : RedisNodeState) → In h hs → Joins R h)
    → Connected hs a b
    → R a ≡ R b
Connected-root R j (here a) = refl
Connected-root R j (promoted h m v w) = j h m v w
Connected-root R j (back c) = sym (Connected-root R j c)
Connected-root R j (via c e) = Connected-root R j c ∙ Connected-root R j e

-- ===== src/Replication/Lineage/Forest.antt =====
-- The parents of the union-find are a forest, which `find` and `union` keep.
use littlered.Prelude.{
  ℕ, zero, suc, ◌≤◌, ◌<◌, ◌≡◌, refl, sym, subst, ◌∙◌, ◌⊎◌, inl, inr, false, not, ◌&&◌, none, some,
  [], ◌∷◌, String, length, ◌==◌, string_eq, if◌then◌else◌, arith, Bool-cases, Option-cases,
}
use text.Mathlib.TextEquality.{eq_iff}
use littlered.Replication.State.{lookup}
use littlered.Replication.Lineage.{Parents, find_from, find, union}

-- `R` is the root of each id and `d` how far below its root it is.
pub record Forest (R : String → String) (d : String → ℕ) (m : Parents) : Type 0 where
  pub linked : (x p : String) → lookup x m ≡ some p → R p ≡ R x
  pub down : (x p : String) → lookup x m ≡ some p → (p ≡ x) ⊎ (d p < d x)
  pub rooted : (x : String) → lookup x m ≡ some x → R x ≡ x
  pub fresh : (x : String) → lookup x m ≡ none → R x ≡ x
  pub flat : (x : String) → lookup x m ≡ none → d x ≡ 0
  pub bounded : (x : String) → d x ≤ length m
  pub fixed : (x : String) → R (R x) ≡ R x
  pub top : (x : String) → d (R x) ≡ 0

-- An entry that points at the root keeps the forest.
Forest-compress :
    {R : String → String} {d : String → ℕ} {m : Parents} (x : String)
    → Forest R d m
    → (R x ≡ x) ⊎ (0 < d x)
    → Forest R d ((x, R x) ∷ m)
unfolding lookup
Forest-compress {R} {d} {m} x F h = record {
  linked = λ y p e. ground (arith, eq_iff x y, F.linked y p, F.fixed x);
  down = λ y p e. ground (arith, eq_iff x y, F.down y p, F.top x);
  rooted = λ y e. ground (arith, eq_iff x y, F.rooted y);
  fresh = λ y e. ground (arith, eq_iff x y, F.fresh y);
  flat = λ y e. ground (arith, eq_iff x y, F.flat y);
  bounded = λ y. omega (arith, F.bounded y);
  fixed = F.fixed;
  top = F.top;
}

Forest-compress_to :
    {R : String → String} {d : String → ℕ} {m : Parents} (x r : String)
    → r ≡ R x
    → Forest R d m
    → (R x ≡ x) ⊎ (0 < d x)
    → Forest R d ((x, r) ∷ m)
Forest-compress_to {R} {d} {m} x r e F h =
    subst (λ q. Forest R d ((x, q) ∷ m)) (sym e) (Forest-compress x F h)

pub record Found (R : String → String) (d : String → ℕ) (x : String) (r : String × Parents)
    : Type 0 where
  pub root : r.0 ≡ R x
  pub forest : Forest R d r.1

-- With more fuel than the depth of the id, `find` returns its root and keeps the forest.
find_from-Found :
    {R : String → String} {d : String → ℕ} (f : ℕ) (x : String) (m : Parents)
    → Forest R d m
    → d x < f
    → Found R d x (find_from f x m)
unfolding find_from
find_from-Found zero x m F h = elim h [ ]
find_from-Found {R} {d} (suc f) x m F h = elim (Option-cases (lookup x m)) [
  | inl e ↦
      rw (e, find_from)
        (record {
          root = sym (F.fresh x e);
          forest = Forest-compress_to x x (sym (F.fresh x e)) F (inl (F.fresh x e));
        })
  | inr (p, e) ↦
      rw (e, find_from)
        (elim (Bool-cases (p == x)) [
          | inl same ↦ rw same (record {
            root = sym (F.rooted x (subst (λ q. lookup x m ≡ some q) ((eq_iff p x).0 same) e));
            forest = F;
          })
          | inr other ↦
              rw other (above p e other (find_from-Found f p m F (omega (arith, below p e other))))
        ])
]
  where
    below : (p : String) → lookup x m ≡ some p → (p == x) ≡ false → d p < d x
    below p e other = ground (arith, F.down x p e, eq_iff p x)

    above :
        (p : String)
        → lookup x m ≡ some p
        → (p == x) ≡ false
        → Found R d p (find_from f p m)
        → Found R d x ((find_from f p m).0, (x, (find_from f p m).0) ∷ (find_from f p m).1)
    above p e other A =
        let same : (find_from f p m).0 ≡ R x = A.root ∙ F.linked x p e in
        record {
          root = same;
          forest =
              Forest-compress_to x (find_from f p m).0 same A.forest
                (inr (omega (arith, below p e other)));
        }

pub find-Found :
    {R : String → String} {d : String → ℕ} (x : String) (m : Parents)
    → Forest R d m
    → Found R d x (find x m)
unfolding find
find-Found x m F = find_from-Found (suc (length m)) x m F (omega (arith, F.bounded x))

-- The roots after `parent[ra] = rb`, and the depths.
abbrev pub merge : String → String → (String → String) → String → String
merge ra rb R y = if R y == ra then rb else R y

abbrev pub deepen : String → String → (String → String) → (String → ℕ) → String → ℕ
deepen ra rb R d y = if (R y == ra) && not (ra == rb) then suc (d y) else d y

Forest-link :
    {R : String → String} {d : String → ℕ} {m : Parents} (a b : String)
    → Forest R d m
    → Forest (merge (R a) (R b) R) (deepen (R a) (R b) R d) ((R a, R b) ∷ m)
unfolding lookup
Forest-link {R} {d} {m} a b F = record {
  linked = λ y p e. ground (
    arith,
    eq_iff (R a) y,
    eq_iff (R y) (R a),
    eq_iff (R p) (R a),
    F.linked y p,
    F.fixed a,
    F.fixed b,
  );
  down = λ y p e. ground (
    arith,
    eq_iff (R a) y,
    eq_iff (R y) (R a),
    eq_iff (R p) (R a),
    eq_iff (R a) (R b),
    F.linked y p,
    F.down y p,
    F.fixed a,
    F.fixed b,
    F.top a,
    F.top b,
  );
  rooted = λ y e. ground (arith, eq_iff (R a) y, eq_iff (R y) (R a), F.rooted y, F.fixed a);
  fresh = λ y e. ground (arith, eq_iff (R a) y, eq_iff (R y) (R a), F.fresh y);
  flat = λ y e. ground (arith, eq_iff (R a) y, eq_iff (R y) (R a), F.flat y, F.fresh y);
  bounded = λ y. ground (arith, F.bounded y);
  fixed = λ y. ground (
    arith,
    eq_iff (R y) (R a),
    eq_iff (R (R y)) (R a),
    eq_iff (R (R b)) (R a),
    F.fixed y,
    F.fixed b,
  );
  top = λ y. ground (
    arith,
    eq_iff (R y) (R a),
    eq_iff (R (R y)) (R a),
    eq_iff (R (R b)) (R a),
    eq_iff (R a) (R b),
    F.fixed y,
    F.fixed b,
    F.top y,
    F.top b,
  );
}

-- After `union`: the roots are those of `merge`.
pub union-Forest :
    {R : String → String} {d : String → ℕ} (a b : String) (m : Parents)
    → Forest R d m
    → Forest (merge (R a) (R b) R) (deepen (R a) (R b) R d) (union a b m)
unfolding union
union-Forest {R} {d} a b m F =
    let at_a = find-Found a m F in
    let at_b = find-Found b (find a m).1 at_a.forest in
    subst
      (λ q.
        Forest (merge (R a) (R b) R) (deepen (R a) (R b) R d)
          ((q, (find b (find a m).1).0) ∷ (find b (find a m).1).1))
      (sym at_a.root)
      (subst
        (λ q.
          Forest (merge (R a) (R b) R) (deepen (R a) (R b) R d)
            ((R a, q) ∷ (find b (find a m).1).1))
        (sym at_b.root) (Forest-link a b at_b.forest))

pub Forest-nil : Forest (λ x. x) (λ _. 0) []
unfolding lookup
Forest-nil = record {
  linked = λ x p e. cc;
  down = λ x p e. cc;
  rooted = λ x e. cc;
  fresh = λ x e. refl;
  flat = λ x e. refl;
  bounded = λ x. omega arith;
  fixed = λ x. refl;
  top = λ x. refl;
}

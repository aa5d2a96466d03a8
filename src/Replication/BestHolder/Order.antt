-- ===== src/Replication/BestHolder/Order.antt =====
-- `better` is a strict order that compares any two nodes of different addresses.
use littlered.Prelude.{◌≡◌, Bool, true, false, not, if◌then◌else◌, arith, Bool-cases, inl, inr}
use littlered.Prelude.Int.{ℤ, ltb_ℤ, beq_ℤ}
use littlered.Prelude.Text.{str_ltb, StrLt-irrefl, StrLt-trans, StrLt-connex}
use littlered.Replication.State.{RedisNodeState}
use littlered.Replication.BestHolder.{better}

-- The keys of the comparison, field by field.
better_by : (o o' k k' : ℤ) → Bool → Bool
better_by o o' k k' b =
    if not (beq_ℤ o o') then ltb_ℤ o' o else if not (beq_ℤ k k') then ltb_ℤ k' k else b

by_trans :
    (o o' o'' k k' k'' : ℤ) (p q r : Bool)
    → (p ≡ true → q ≡ true → r ≡ true)
    → better_by o o' k k' p ≡ true
    → better_by o' o'' k' k'' q ≡ true
    → better_by o o'' k k'' r ≡ true
unfolding better_by
by_trans o o' o'' k k' k'' p q r t h h' = ground arith

by_connex :
    (o o' k k' : ℤ) (p q : Bool)
    → better_by o o' k k' p ≡ false
    → better_by o' o k' k q ≡ false
    → (p ≡ false) × (q ≡ false)
unfolding better_by
by_connex o o' k k' p q h h' = ground arith

pub better_irrefl : (a : RedisNodeState) → better a a ≡ false
better_irrefl a = elim (Bool-cases (str_ltb a.ip a.ip)) [
  | inl e ↦ absurd (StrLt-irrefl a.ip e)
  | inr e ↦ ground arith
]

pub better_trans :
    (a b c : RedisNodeState) → better a b ≡ true → better b c ≡ true → better a c ≡ true
unfolding better_by
better_trans a b c h h' =
    by_trans a.offset b.offset c.offset a.keys b.keys c.keys (str_ltb a.ip b.ip) (str_ltb b.ip c.ip)
      (str_ltb a.ip c.ip) (StrLt-trans a.ip b.ip c.ip) h h'

pub better_connex : (a b : RedisNodeState) → better a b ≡ false → better b a ≡ false → a.ip ≡ b.ip
unfolding better_by
better_connex a b h h' =
    let (p, q) =
      by_connex a.offset b.offset a.keys b.keys (str_ltb a.ip b.ip) (str_ltb b.ip a.ip) h h' in
    StrLt-connex a.ip b.ip p q

-- ===== src/Replication/BestHolder.antt =====
-- internal/redis/replication_state.go: holdersForked and BestDataHolder, the choice of the node to
-- elect.
mod Order
pub mod Chosen
use littlered.Prelude.{
  ℕ, zero, suc, Bool, true, false, not, ◌&&◌, Option, none, some, List, [], ◌∷◌, String, ltb, ◌==◌,
  string_eq, if◌then◌else◌,
}
use littlered.Prelude.Int.{ℤ, ltb_ℤ, beq_ℤ}
use littlered.Prelude.Text.{str_ltb}
use littlered.Replication.State.{RedisNodeState, ReplicationState, role_master, data_holders}
use littlered.Replication.Lineage.{holders_diverged}

-- The loop of `holdersForked`, with the masters counted so far.
forked_from : ℕ → List RedisNodeState → Bool
forked_from writable [] = false
forked_from writable (h ∷ hs) = elim (h.role == role_master) [
  | true ↦ (let rest = forked_from (suc writable) hs in if ltb 1 (suc writable) then true else rest)
  | false ↦ forked_from writable hs
]

unfoldable pub holders_forked : List RedisNodeState → Bool
unfolding forked_from
holders_forked hs = forked_from 0 hs

-- The `switch` of the loop: does `h` replace `best`?
abbrev pub better : RedisNodeState → RedisNodeState → Bool
better h best =
    if not (beq_ℤ h.offset best.offset)
    then ltb_ℤ best.offset h.offset
    else if not (beq_ℤ h.keys best.keys)
    then ltb_ℤ best.keys h.keys
    else str_ltb h.ip best.ip

best_from : RedisNodeState → List RedisNodeState → RedisNodeState
best_from best [] = best
best_from best (h ∷ hs) = best_from (if better h best then h else best) hs

pub record Best : Type 0 where
  pub best : Option RedisNodeState
  pub diverged : Bool
  pub forked : Bool

-- The loop starts at `holders[0]`, which it visits too.
best_of : List RedisNodeState → Best
best_of [] = record { best = none; diverged = false; forked = false }
best_of (h ∷ hs) = record {
  best = some (best_from h (h ∷ hs));
  diverged = holders_diverged (h ∷ hs);
  forked = holders_forked (h ∷ hs);
}

unfoldable pub best_data_holder : ReplicationState → Best
unfolding best_from best_of
best_data_holder s = best_of (data_holders s)

-- ===== src/Cluster/Slots.antt =====
-- internal/redis/cluster_client.go: GenerateSlotRanges, FormatSlotRange and ParseSlotRange.
pub mod Tiling
pub mod Text
use littlered.Prelude.{
  ℕ, zero, suc, ◌+◌, ◌-◌, ◌/◌, ◌%◌, ltb, ◌==◌, nat_eq, if◌then◌else◌, Option, none, some, List, [],
  ◌∷◌, String,
}
use littlered.Prelude.Text.{split}
use littlered.Prelude.Decimal.{itoa, atoi}
use Prim.Native.String.{◌++◌}

pub record SlotRange : Type 0 where
  pub start : ℕ
  pub end : ℕ

-- The loop, with `n` ranges to go from shard `i` and slot `start` on.
ranges_from : (n i start slots_per_shard remainder : ℕ) → List SlotRange
ranges_from zero i start slots_per_shard remainder = []
ranges_from (suc n) i start slots_per_shard remainder =
    let count = if ltb i remainder then slots_per_shard + 1 else slots_per_shard in
    record { start = start; end = start + count - 1 }
    ∷ ranges_from n (i + 1) (start + count) slots_per_shard remainder

-- A count of shards that is not positive is 0.
unfoldable pub generate_slot_ranges : ℕ → List SlotRange
unfolding ranges_from
generate_slot_ranges shards =
    if shards == 0 then [] else ranges_from shards 0 0 (16384 / shards) (16384 % shards)

unfoldable pub format_slot_range : ℕ → ℕ → String
format_slot_range start end = if start == end then itoa start else itoa start ++ "-" ++ itoa end

-- Both parts have to be numbers; `none` is an error.
abbrev both : Option ℕ → Option ℕ → Option SlotRange
both none e = none
both (some s) none = none
both (some s) (some e) = some (record { start = s; end = e })

parse_parts : List String → Option SlotRange
parse_parts [] = none
parse_parts (p ∷ []) = both (atoi p) (atoi p)
parse_parts (p ∷ q ∷ []) = both (atoi p) (atoi q)
parse_parts (p ∷ q ∷ r ∷ ps) = none

unfoldable pub parse_slot_range : String → Option SlotRange
unfolding parse_parts
parse_slot_range s = parse_parts (split b'-' s)

-- ===== src/Cluster/Examples.antt =====
-- The slots of three shards.
use littlered.Prelude.{◌≡◌, ◌/◌, length, some, arith}
use littlered.Cluster.Slots.{generate_slot_ranges, format_slot_range, parse_slot_range}
use littlered.Cluster.Slots.Tiling.{generate_slot_ranges-Tiles, Tiles, Shares}
use littlered.Cluster.Slots.Text.{parse-format}

generate_slot_ranges-Tiles_example :
    (length (generate_slot_ranges 3) ≡ 3)
    × Tiles 0 16384 (generate_slot_ranges 3)
    × Shares (16384 / 3) (generate_slot_ranges 3)
generate_slot_ranges-Tiles_example = generate_slot_ranges-Tiles 3 (omega arith) (omega arith)

parse-format_example :
    parse_slot_range (format_slot_range 0 5461) ≡ some (record { start = 0; end = 5461 })
parse-format_example = parse-format 0 5461 (omega arith) (omega arith)

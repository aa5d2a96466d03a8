-- ===== src/Cluster/Slots/Text.antt =====
-- A formatted slot range is parsed back.
use littlered.Prelude.{ℕ, ◌<◌, ◌≡◌, refl, nat_beq, nat_beq_iff, Bool-cases, inl, inr, some}
use littlered.Prelude.Decimal.{atoi-itoa, split-itoa, split-itoa_pair}
use littlered.Cluster.Slots.{format_slot_range, parse_slot_range}

-- ParseSlotRange reads back what FormatSlotRange writes, for any two numbers that int64 holds.
pub parse-format :
    (start end : ℕ)
    → start < 9223372036854775808
    → end < 9223372036854775808
    → parse_slot_range (format_slot_range start end) ≡ some (record { start = start; end = end })
unfolding parse_slot_range format_slot_range
parse-format start end s e = elim (Bool-cases (nat_beq start end)) [
  | inl same ↦
      rw (same, split-itoa b'-' start refl, atoi-itoa start s, ← (nat_beq_iff start end).0 same)
        refl
  | inr other ↦ rw (other, split-itoa_pair start end, atoi-itoa start s, atoi-itoa end e) refl
]

-- ===== src/Cluster/Slots/Tiling.antt =====
-- The generated ranges tile the 16384 slots, in shares that differ by at most one.
use littlered.Prelude.{
  ℕ, zero, suc, ◌+◌, ◌*◌, ◌/◌, ◌%◌, ◌≤◌, ◌<◌, ◌≡◌, refl, sym, ◌∙◌, ◌⊎◌, inl, inr, ltb, nat_beq,
  false, if◌then◌else◌, List, [], ◌∷◌, length, All, In, Bool-cases, arith, ap,
}
use native.Mathlib.Nat.{div-add-mod, mod-lt}
use littlered.Cluster.Slots.{SlotRange, ranges_from, generate_slot_ranges}

-- The ranges follow one another without a gap, from slot `a` up to, and without, slot `b`.
abbrev pub Tiles : ℕ → ℕ → List SlotRange → Type 0
Tiles a b [] = a ≡ b
Tiles a b (r ∷ rs) = (r.start ≡ a) × (r.start ≤ r.end) × Tiles (r.end + 1) b rs

-- The share of each range is `k` slots, or one more.
abbrev pub Shares : ℕ → List SlotRange → Type 0
Shares k rs = All (λ r. (r.end + 1 ≡ r.start + k) ⊎ (r.end + 1 ≡ r.start + (k + 1))) rs

-- Where shard `i` starts.
abbrev offset : ℕ → ℕ → ℕ → ℕ
offset per rem i = i * per + (if ltb i rem then i else rem)

-- The loop tiles what is left, whatever slot `a` the last range ended before.
ranges_from-Tiles :
    (n i per rem a start b : ℕ)
    → 0 < per
    → a ≡ start
    → start ≡ offset per rem i
    → b ≡ offset per rem (i + n)
    → Tiles a b (ranges_from n i start per rem)
unfolding ranges_from
ranges_from-Tiles zero i per rem a start b p s e f = ground arith
ranges_from-Tiles (suc n) i per rem a start b p s e f = (
  omega arith,
  ground arith,
  ranges_from-Tiles n (i + 1) per rem _ _ b p (ground arith) (ground arith) (ground arith),
)

ranges_from-Shares : (n i start per rem : ℕ) → 0 < per → Shares per (ranges_from n i start per rem)
unfolding ranges_from
ranges_from-Shares zero i start per rem p = tt
ranges_from-Shares (suc n) i start per rem p =
    (ground arith, ranges_from-Shares n (i + 1) _ per rem p)

length-ranges_from : (n i start per rem : ℕ) → length (ranges_from n i start per rem) ≡ n
unfolding ranges_from
length-ranges_from zero i start per rem = refl
length-ranges_from (suc n) i start per rem = ap suc (length-ranges_from n (i + 1) _ per rem)

module _ (shards : ℕ) (some_shard : 0 < shards) (fit : shards ≤ 16384) where
  -- For 1 to 16384 shards there is one range for each shard; they tile the slots 0 to 16383, and
  -- each is as large as any other, or larger by one slot.
  pub generate_slot_ranges-Tiles :
      (length (generate_slot_ranges shards) ≡ shards)
      × Tiles 0 16384 (generate_slot_ranges shards)
      × Shares (16384 / shards) (generate_slot_ranges shards)
  unfolding generate_slot_ranges
  generate_slot_ranges-Tiles =
      let more : nat_beq shards 0 ≡ false = ground arith in
      rw more (
        length-ranges_from shards 0 0 (16384 / shards) (16384 % shards),
        ranges_from-Tiles shards 0 (16384 / shards) (16384 % shards) 0 0 16384 share (omega arith)
            (ground arith) (ground (arith, whole, mod-lt 16384 some_shard)),
        ranges_from-Shares shards 0 0 (16384 / shards) (16384 % shards) share,
      )
    where
      whole : shards * (16384 / shards) + 16384 % shards ≡ 16384
      whole = div-add-mod 16384 shards

      positive : (q : ℕ) → shards * q + 16384 % shards ≡ 16384 → 0 < q
      positive zero e = absurd (omega (arith, e, mod-lt 16384 some_shard))
      positive (suc q) e = omega arith

      share : 0 < 16384 / shards
      share = positive (16384 / shards) whole

-- A slot that the tiles span is in one of them.
Tiles-covers :
    (a b slot : ℕ) (rs : List SlotRange)
    → Tiles a b rs
    → a ≤ slot
    → slot < b
    → (r : SlotRange) × In r rs × (r.start ≤ slot) × (slot ≤ r.end)
Tiles-covers a b slot [] t l u = absurd (omega arith)
Tiles-covers a b slot (r ∷ rs) (s, w, t) l u = elim (Bool-cases (ltb r.end slot)) [
  | inl past ↦
      (let (q, m, x, y) = Tiles-covers (r.end + 1) b slot rs t (ground arith) u in (q, inr m, x, y))
  | inr inside ↦ (r, inl refl, ground arith, ground arith)
]

-- What starts a tiling is not below its first slot.
Tiles-above : (a b : ℕ) (rs : List SlotRange) (r : SlotRange) → Tiles a b rs → In r rs → a ≤ r.start
Tiles-above a b [] r t m = elim m [ ]
Tiles-above a b (q ∷ rs) r (s, w, t) (inl e) = ground arith
Tiles-above a b (q ∷ rs) r (s, w, t) (inr m) = omega (arith, Tiles-above (q.end + 1) b rs r t m)

Tiles-apart :
    (a b slot : ℕ) (rs : List SlotRange) (r q : SlotRange)
    → Tiles a b rs
    → In r rs
    → In q rs
    → r.start ≤ slot
    → slot ≤ r.end
    → q.start ≤ slot
    → slot ≤ q.end
    → r ≡ q
Tiles-apart a b slot [] r q t m m' x y z w = elim m [ ]
Tiles-apart a b slot (k ∷ rs) r q (s, v, t) (inl e) (inl e') x y z w = e ∙ sym e'
Tiles-apart a b slot (k ∷ rs) r q (s, v, t) (inl e) (inr m') x y z w =
    absurd (ground (arith, e, Tiles-above (k.end + 1) b rs q t m'))
Tiles-apart a b slot (k ∷ rs) r q (s, v, t) (inr m) (inl e') x y z w =
    absurd (ground (arith, e', Tiles-above (k.end + 1) b rs r t m))
Tiles-apart a b slot (k ∷ rs) r q (s, v, t) (inr m) (inr m') x y z w =
    Tiles-apart (k.end + 1) b slot rs r q t m m' x y z w

-- For 1 to 16384 shards every slot belongs to exactly one shard's range.
pub slot_owner :
    (shards slot : ℕ)
    → 0 < shards
    → shards ≤ 16384
    → slot < 16384
    → (r : SlotRange) × In r (generate_slot_ranges shards)
      × (r.start ≤ slot)
      × (slot ≤ r.end)
      × ((q : SlotRange)
          → In q (generate_slot_ranges shards)
          → q.start ≤ slot
          → slot ≤ q.end
          → r ≡ q)
slot_owner shards slot p f l =
    let t = (generate_slot_ranges-Tiles shards p f).1 in
    let (r, m, x, y) = Tiles-covers 0 16384 slot (generate_slot_ranges shards) t (omega arith) l in
    (
      r,
      m,
      x,
      y,
      λ q m' z w. Tiles-apart 0 16384 slot (generate_slot_ranges shards) r q t m m' x y z w,
    )

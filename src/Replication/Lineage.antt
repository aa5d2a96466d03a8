-- ===== src/Replication/Lineage.antt =====
-- internal/redis/replication_state.go: isZeroReplid and holdersDiverged, the union-find over the
-- holders' replication ids.
mod Forest
mod Joining
pub mod Decides
pub mod Spec
use littlered.Prelude.{
  ℕ, zero, suc, ◌+◌, Bool, true, false, not, ◌&&◌, ◌||◌, Option, none, some, List, [], ◌∷◌, String,
  length, ltb, nat_beq, ◌==◌, string_eq, if◌then◌else◌,
}
use littlered.Replication.State.{RedisNodeState, lookup}
use Prim.Native.Char.{code}

all_zero : String → Bool
all_zero String.[] = true
all_zero (String.◌∷◌ c s) = nat_beq (code c) b'0' && all_zero s

unfoldable pub is_zero_replid : String → Bool
unfolding all_zero
is_zero_replid r = if r == "" then true else all_zero r

unfoldable pub valid : String → Bool
valid r = not (is_zero_replid r)

-- The map `parent`; an assignment puts an entry in front.
abbrev pub Parents : Type 0
Parents = List (String × String)

-- `find`, with the paths compressed. A chain of parents is shorter than the map, so `find` below
-- gives fuel enough, and the value at no fuel is not used.
pub find_from : ℕ → String → Parents → String × Parents
find_from zero x m = (x, m)
find_from (suc f) x m = elim (lookup x m) [
  | none ↦ (x, (x, x) ∷ m)
  | some p ↦
      let above = find_from f p m in if p == x then (x, m) else (above.0, (x, above.0) ∷ above.1)
]

pub find : String → Parents → String × Parents
find x m = find_from (suc (length m)) x m

-- `parent[find(a)] = find(b)`.
pub union : String → String → Parents → Parents
union a b m = let at_a = find a m in let at_b = find b at_a.1 in (at_a.0, at_b.0) ∷ at_b.1

-- The body of pass 1.
pub connect : RedisNodeState → Parents → Parents
connect h m =
    if valid h.replid && valid h.replid2
    then union h.replid h.replid2 m
    else if valid h.replid
    then (find h.replid m).1
    else if valid h.replid2
    then (find h.replid2 m).1
    else m

pub connect_all : List RedisNodeState → Parents → Parents
connect_all [] m = m
connect_all (h ∷ hs) m = connect_all hs (connect h m)

-- A key of `comps`: the root of a lineage, or the `__noreplid_<i>` of a holder that has none (no
-- replication id is spelled so: they are strings of hexadecimal digits).
pub data CompKey : Type 0 where
  root : String → CompKey
  no_replid : ℕ → CompKey

abbrev pub key_beq : CompKey → CompKey → Bool
key_beq (root a) (root b) = a == b
key_beq (no_replid i) (no_replid j) = nat_beq i j
key_beq (root _) (no_replid _) = false
key_beq (no_replid _) (root _) = false

abbrev pub has_key : CompKey → List CompKey → Bool
has_key k [] = false
has_key k (c ∷ cs) = key_beq c k || has_key k cs

-- `comps[k] = true`.
pub add_key : CompKey → List CompKey → List CompKey
add_key k cs = if has_key k cs then cs else k ∷ cs

-- The key of holder `i`, and the map that the look-up leaves.
pub comp_key : ℕ → RedisNodeState → Parents → CompKey × Parents
comp_key i h m =
    if valid h.replid
    then (root (find h.replid m).0, (find h.replid m).1)
    else if valid h.replid2
    then (root (find h.replid2 m).0, (find h.replid2 m).1)
    else (no_replid i, m)

-- Pass 2.
pub components : ℕ → List RedisNodeState → Parents → List CompKey → List CompKey
components i [] m cs = cs
components i (h ∷ hs) m cs =
    let at_h = comp_key i h m in components (i + 1) hs at_h.1 (add_key at_h.0 cs)

unfoldable pub holders_diverged : List RedisNodeState → Bool
unfolding find_from find union connect connect_all add_key comp_key components
holders_diverged hs = ltb 1 (length (components 0 hs (connect_all hs []) []))

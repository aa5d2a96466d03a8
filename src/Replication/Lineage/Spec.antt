-- ===== src/Replication/Lineage/Spec.antt =====
-- What "one replication lineage" means: the holders' replication ids are connected by the pairs
-- (replid, replid2) of the holders.
use littlered.Prelude.{
  ◌≤◌, ◌≡◌, true, Option, none, some, List, ◌⊎◌, String, length, In, All, if◌then◌else◌,
}
use littlered.Replication.State.{RedisNodeState}
use littlered.Replication.Lineage.{valid}

pub data Connected (hs : List RedisNodeState) : String → String → Type 0 where
  here : (a : String) → Connected hs a a
  promoted :
      (h : RedisNodeState)
      → In h hs
      → valid h.replid ≡ true
      → valid h.replid2 ≡ true
      → Connected hs h.replid h.replid2
  back : {a b : String} → Connected hs a b → Connected hs b a
  via : {a b c : String} → Connected hs a b → Connected hs b c → Connected hs a c

-- The replication id that a holder is known by.
abbrev pub lineage : RedisNodeState → Option String
lineage h =
    if valid h.replid then some h.replid else if valid h.replid2 then some h.replid2 else none

-- At most one holder, or holders whose ids are all connected to one.
abbrev pub OneLineage : List RedisNodeState → Type 0
OneLineage hs =
    (length hs ≤ 1)
    ⊎ ((r : String) × All (λ h. (a : String) × (lineage h ≡ some a) × Connected hs r a) hs)

-- ===== src/Topology/Normalize.antt =====
-- `NormalizeTierEdges`: keeps the edges between adjacent tiers. A write to a row that is not there
-- would be Go's panic on a nil map, here `none`.
pub mod Edges
pub mod Exact
use unifabric.Common.{
  String, List, [], ◌∷◌, Bool, true, not, ◌||◌, Option, none, some, Map, ℤ, pos, negsuc, ◌-ℤ◌,
  ltb_ℤ, get, put, keys, fold_option, foldl, ◌==◌, if◌then◌else◌, string_eq, int_eq, pos_part,
  neg_part, ◌+◌,
}
use unifabric.Topology.Types.{Device, device_of, Adjacency, TopologyGraph}

pub abs : ℤ → ℤ
abs (pos n) = pos n
abs (negsuc n) = pos (n + 1)

-- `newAdj[a][b] = true`
pub write_edge : Adjacency → String → String → Option Adjacency
write_edge adj a b = elim (get adj a) [ none ↦ none | some row ↦ some (put adj a (put row b true)) ]

-- the two tests of the loop body, which go on to the next pair
pub skips : Device → Device → Bool
unfolding abs
skips da db =
    ltb_ℤ da.tier (pos 0) || ltb_ℤ db.tier (pos 0) || not (abs (da.tier -ℤ db.tier) == pos 1)

pub normalize_pair : Map String Device → String → Adjacency → String → Option Adjacency
normalize_pair devices a adj b =
    if skips (device_of devices a) (device_of devices b)
    then some adj
    else elim (write_edge adj a b) [ none ↦ none | some adj' ↦ write_edge adj' b a ]

pub normalize_row : Map String Device → Adjacency → String × Map String Bool → Option Adjacency
normalize_row devices adj (a, neighbors) =
    fold_option (normalize_pair devices a) adj (keys neighbors)

-- a row for every device
pub empty_rows : Map String Device → Adjacency
empty_rows devices = foldl (λ m name. put m name []) [] (keys devices)

pub normalize_tier_edges : TopologyGraph → Option TopologyGraph
normalize_tier_edges g = elim (fold_option (normalize_row g.devices) (empty_rows g.devices) g.adj) [
  | none ↦ none
  | some adj ↦ some (record g { adj = adj })
]

-- ===== src/Graph/Traverse.antt =====
-- `_traverse`, `downstream_of` and `upstream_of` of domain/dependency.py. The `while` loop runs on
-- fuel: a round takes one entry off the frontier, and an entry is put on it only where the hop
-- count of its node falls, so twice the number of edges times (max_hops + 1), plus one, is enough.
pub mod Ends
pub mod Sound
pub mod Shortest
pub mod Exact
use db_platform.Base.{
  ℕ, zero, suc, ◌+◌, ◌*◌, String, Bool, true, false, Option, none, some, List, [], ◌∷◌, ◌++◌, leb,
  if◌then◌else◌, length,
}
use db_platform.Base.Dict
use db_platform.Graph.{Dependency, DependencyGraph, DependencyNode, Adjacency, neighbours}

pub record Visit : Type 0 where
  pub hops : ℕ
  pub path : List Dependency

pub record Pending : Type 0 where
  pub current_id : String
  pub hops : ℕ
  pub path : List Dependency

pub record Search : Type 0 where
  pub visited : List (String × Visit)
  pub frontier : List Pending

-- Which end of an edge is `other_id`: the target where the adjacency is the outgoing one.
pub data Direction : Type 0 where
  along_outgoing along_incoming : Direction

unfoldable pub other_id : Direction → Dependency → String
other_id along_outgoing edge = edge.target_id
other_id along_incoming edge = edge.source_id

-- `other_id in visited and visited[other_id][0] <= hops + 1`
unfoldable pub known_within : List (String × Visit) → String → ℕ → Bool
known_within visited id limit = elim (Dict.get id visited) [
  | none ↦ false
  | some v ↦ leb v.hops limit
]

-- `visited[other_id] = (hops + 1, new_path)` and the append to the frontier.
abbrev pub enter : Direction → Pending → Search → Dependency → Search
enter d p s edge = record {
  visited =
      Dict.put (other_id d edge) (record { hops = p.hops + 1; path = p.path ++ edge ∷ [] })
        s.visited;
  frontier =
      s.frontier
      ++ record { current_id = other_id d edge; hops = p.hops + 1; path = p.path ++ edge ∷ [] }
        ∷ [];
}

-- The body of the `for` loop, for an entry `p` of the frontier that was taken off.
unfoldable pub relax : Direction → Pending → Search → Dependency → Search
unfolding known_within
relax d p s edge =
    if known_within s.visited (other_id d edge) (p.hops + 1) then s else enter d p s edge

unfoldable pub scan : Direction → Pending → Search → List Dependency → Search
scan d p s [] = s
scan d p s (edge ∷ edges) = scan d p (relax d p s edge) edges

-- One round of the `while` loop, after `p` left the frontier.
unfoldable pub expand : Direction → Adjacency → ℕ → Search → Pending → List Pending → Search
expand d adjacency max_hops s p rest =
    if leb max_hops p.hops
    then record s { frontier = rest }
    else scan d p (record s { frontier = rest }) (neighbours adjacency p.current_id)

-- `none` if the fuel runs out.
unfoldable pub loop : Direction → Adjacency → ℕ → ℕ → Search → Option Search
loop d adjacency max_hops zero s = elim s.frontier [ [] ↦ some s | _ ∷ _ ↦ none ]
loop d adjacency max_hops (suc fuel) s = elim s.frontier [
  | [] ↦ some s
  | p ∷ rest ↦ loop d adjacency max_hops fuel (expand d adjacency max_hops s p rest)
]

abbrev pub start : String → Search
start node_id = record {
  visited = [];
  frontier = record { current_id = node_id; hops = 0; path = [] } ∷ [];
}

abbrev pub all_edges : Adjacency → List Dependency
all_edges [] = []
all_edges ((_, es) ∷ rest) = es ++ all_edges rest

abbrev pub enough : Adjacency → ℕ → ℕ
enough adjacency max_hops = 2 * (length (all_edges adjacency) * (max_hops + 1)) + 1

pub record Found : Type 0 where
  pub node : DependencyNode
  pub hop_count : ℕ
  pub path : List Dependency

-- The list that is returned: what was visited, where the graph has the node.
unfoldable pub found : List (String × DependencyNode) → List (String × Visit) → List Found
found nodes [] = []
found nodes ((id, v) ∷ rest) =
    let tail = found nodes rest in
    elim (Dict.get id nodes) [
      | none ↦ tail
      | some n ↦ record { node = n; hop_count = v.hops; path = v.path } ∷ tail
    ]

unfoldable pub traverse : DependencyGraph → String → Direction → Adjacency → ℕ → Option (List Found)
unfolding loop found
traverse g node_id d adjacency max_hops =
    elim (loop d adjacency max_hops (enough adjacency max_hops) (start node_id)) [
      | none ↦ none
      | some s ↦ some (found g.nodes s.visited)
    ]

unfoldable pub downstream_of : DependencyGraph → String → ℕ → Option (List Found)
unfolding traverse
downstream_of g node_id max_hops = traverse g node_id along_incoming g.incoming_index max_hops

unfoldable pub upstream_of : DependencyGraph → String → ℕ → Option (List Found)
unfolding traverse
upstream_of g node_id max_hops = traverse g node_id along_outgoing g.outgoing_index max_hops

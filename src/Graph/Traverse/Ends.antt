-- ===== src/Graph/Traverse/Ends.antt =====
-- The work that is left to the `while` loop of `_traverse`, which each round lowers.
use db_platform.Base.{
  ℕ, zero, suc, ◌+◌, ◌*◌, ◌≤◌, ◌<◌, String, ◌≡◌, refl, ap, none, some, List, [], ◌∷◌, ◌++◌, arith,
  eq_iff, length, length-append, List-cases, Has, Has-append, map, inl, inr, ◌⊎◌,
}
use db_platform.Base.Dict
use db_platform.Base.Dict.{get-put}
use db_platform.Graph.{Dependency, Adjacency, neighbours}
use db_platform.Graph.Traverse.{
  Visit, Pending, Search, Direction, other_id, enter, relax, scan, expand, loop, start, all_edges,
  enough,
}

-- The hop count of a node, or one more than any hop count.
abbrev pub level : ℕ → List (String × Visit) → String → ℕ
level max_hops visited id = elim (Dict.get id visited) [ none ↦ suc max_hops | some v ↦ v.hops ]

abbrev potential : ℕ → List (String × Visit) → List String → ℕ
potential max_hops visited [] = 0
potential max_hops visited (id ∷ ids) = level max_hops visited id + potential max_hops visited ids

-- A lower hop count at `id` lowers the potential, and strictly so where `id` is counted.
potential-put-le :
    (m : ℕ) (visited : List (String × Visit)) (ids : List String) (id : String) (v : Visit)
    → v.hops ≤ level m visited id
    → potential m (Dict.put id v visited) ids ≤ potential m visited ids
potential-put-le m visited [] id v h = omega arith
potential-put-le m visited (j ∷ ids) id v h =
    ground (arith, potential-put-le m visited ids id v, get-put id j v visited, eq_iff id j)

potential-put-lt :
    (m : ℕ) (visited : List (String × Visit)) (ids : List String) (id : String) (v : Visit)
    → v.hops < level m visited id
    → Has id ids
    → potential m (Dict.put id v visited) ids < potential m visited ids
potential-put-lt m visited [] id v h k = absurd k
potential-put-lt m visited (j ∷ ids) id v h k = ground (
  arith,
  potential-put-le m visited ids id v,
  potential-put-lt m visited ids id v,
  get-put id j v visited,
  eq_iff id j,
)

abbrev work : ℕ → List String → Search → ℕ
work m ids s = 2 * potential m s.visited ids + length s.frontier

-- An edge is passed over where its end is known within the hops, and else the end is entered.
pub relax-cases :
    (d : Direction) (m : ℕ) (p : Pending) (s : Search) (e : Dependency)
    → p.hops < m
    → ((relax d p s e ≡ s) × (level m s.visited (other_id d e) ≤ p.hops + 1))
      ⊎ ((relax d p s e ≡ enter d p s e) × (p.hops + 1 < level m s.visited (other_id d e)))
unfolding relax
relax-cases d m p s e h = ground arith

relax-work :
    (d : Direction) (m : ℕ) (ids : List String) (p : Pending) (s : Search) (e : Dependency)
    → p.hops < m
    → Has (other_id d e) ids
    → work m ids (relax d p s e) ≤ work m ids s
relax-work d m ids p s e h k = elim (relax-cases d m p s e h) [
  | inl (same, _) ↦ rw same (omega arith)
  | inr (entered, less) ↦ rw entered (
      omega (
        arith,
        potential-put-lt m s.visited ids (other_id d e)
            (record { hops = p.hops + 1; path = p.path ++ e ∷ [] }) less k,
        length-append s.frontier
            (record { current_id = other_id d e; hops = p.hops + 1; path = p.path ++ e ∷ [] } ∷ []),
      ))
]

scan-work :
    (d : Direction) (m : ℕ) (ids : List String) (p : Pending) (s : Search) (es : List Dependency)
    → p.hops < m
    → ((e : Dependency) → Has e es → Has (other_id d e) ids)
    → work m ids (scan d p s es) ≤ work m ids s
unfolding scan
scan-work d m ids p s [] h k = omega arith
scan-work d m ids p s (e ∷ es) h k = omega (
  arith,
  relax-work d m ids p s e h (k e (inl refl)),
  scan-work d m ids p (relax d p s e) es h (λ x q. k x (inr q)),
)

expand-work :
    (d : Direction) (a : Adjacency) (m : ℕ) (ids : List String) (s : Search) (p : Pending)
    (rest : List Pending)
    → s.frontier ≡ p ∷ rest
    → ((e : Dependency) → Has e (neighbours a p.current_id) → Has (other_id d e) ids)
    → work m ids (expand d a m s p rest) < work m ids s
unfolding expand
expand-work d a m ids s p rest f k = ground (
  arith,
  scan-work d m ids p (record s { frontier = rest }) (neighbours a p.current_id),
  ap (λ (l : List Pending). length l) f,
)

-- Every edge of the adjacency is counted.
neighbours-all_edges :
    (a : Adjacency) (id : String) (e : Dependency) → Has e (neighbours a id) → Has e (all_edges a)
unfolding neighbours Dict.get
neighbours-all_edges [] id e h = h
neighbours-all_edges ((j, es) ∷ a) id e h =
    ground (arith, neighbours-all_edges a id e, Has-append e es (all_edges a))

Has-map :
    (f : Dependency → String) (e : Dependency) (es : List Dependency)
    → Has e es
    → Has (f e) (map f es)
Has-map f e [] h = absurd h
Has-map f e (x ∷ es) h = ground (arith, Has-map f e es, ap f {x = e} {y = x})

abbrev ends_of : Direction → Adjacency → List String
ends_of d a = map (other_id d) (all_edges a)

loop_ends :
    (d : Direction) (a : Adjacency) (m fuel : ℕ) (s : Search)
    → work m (ends_of d a) s ≤ fuel
    → (t : Search) × (loop d a m fuel s ≡ some t)
unfolding loop
loop_ends d a m zero s h = elim (List-cases s.frontier) [
  | inl empty ↦ (s, simp (empty, loop))
  | inr (p, rest, f) ↦ absurd (omega (arith, ap (λ (l : List Pending). length l) f))
]
loop_ends d a m (suc fuel) s h = elim (List-cases s.frontier) [
  | inl empty ↦ (s, simp (empty, loop))
  | inr (p, rest, f) ↦
      let less =
        expand-work d a m (ends_of d a) s p rest f
          (λ e k. Has-map (other_id d) e (all_edges a) (neighbours-all_edges a p.current_id e k)) in
      let (t, ends) = loop_ends d a m fuel (expand d a m s p rest) (omega arith) in
      (t, rw (f, loop) ends)
]

potential-start :
    (m : ℕ) (f : Dependency → String) (es : List Dependency)
    → potential m [] (map f es) ≡ length es * (m + 1)
unfolding Dict.get
potential-start m f [] = omega arith
potential-start m f (e ∷ es) = omega (arith, potential-start m f es)

-- The fuel of `traverse` is enough, whatever the adjacency and wherever the search starts.
pub loop_returns :
    (d : Direction) (a : Adjacency) (m : ℕ) (id : String)
    → (t : Search) × (loop d a m (enough a m) (start id) ≡ some t)
loop_returns d a m id =
    loop_ends d a m (enough a m) (start id)
      (omega (arith, potential-start m (other_id d) (all_edges a)))

-- An invariant that one round keeps holds at the end, where the frontier is empty.
pub loop_rule {ℓ} :
    (d : Direction) (a : Adjacency) (m : ℕ) (P : Search → Type ℓ)
    → ((s : Search) (p : Pending) (rest : List Pending)
        → s.frontier ≡ p ∷ rest
        → P s
        → P (expand d a m s p rest))
    → (fuel : ℕ) (s t : Search) → P s
    → loop d a m fuel s ≡ some t
    → P t × (t.frontier ≡ [])
unfolding loop
loop_rule d a m P keeps zero s t h e = ground arith
loop_rule d a m P keeps (suc fuel) s t h e = elim (List-cases s.frontier) [
  | inl empty ↦ ground arith
  | inr (p, rest, f) ↦
      loop_rule d a m P keeps fuel (expand d a m s p rest) t (keeps s p rest f h)
        (rw (f, loop) at e)
]

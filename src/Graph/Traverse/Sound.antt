-- ===== src/Graph/Traverse/Sound.antt =====
-- The paths that `_traverse` keeps against the walks of the adjacency.
use db_platform.Base.{
  ℕ, suc, ◌+◌, ◌≤◌, ◌<◌, String, ◌≡◌, refl, some, List, [], ◌∷◌, ◌++◌, arith, leb, Bool-cases, Has,
  All, Distinct, All-append, inl, inr,
}
use native.Mathlib.Numerals.{add-one}
use db_platform.Base.Dict
use db_platform.Base.Dict.{put-All, put-Distinct}
use db_platform.Graph.{Dependency, Adjacency, neighbours}
use db_platform.Graph.Traverse.{
  Visit, Pending, Search, Direction, other_id, enter, relax, scan, expand, loop, start,
}
use db_platform.Graph.Traverse.Ends.{relax-cases, loop_rule}

-- `path` leads from `origin` to `id` in `n` steps, each along an edge that the adjacency lists at
-- the node before it.
pub data Walk (d : Direction) (a : Adjacency) (origin : String)
    : String → ℕ → List Dependency → Type 0 where
  here : Walk d a origin origin 0 []
  step :
      {id to : String} {n : ℕ} {path path' : List Dependency}
      → Walk d a origin id n path
      → (e : Dependency) → Has e (neighbours a id)
      → other_id d e ≡ to
      → path' ≡ path ++ e ∷ []
      → Walk d a origin to (suc n) path'

module _ (d : Direction) (a : Adjacency) (m : ℕ) (origin : String) where
  -- A visit at `id`: a walk of at least one and at most `max_hops` steps.
  pub record Reached (id : String) (v : Visit) : Type 0 where
    pub walk : Walk d a origin id v.hops v.path
    pub least : 1 ≤ v.hops
    pub most : v.hops ≤ m

  pub record IsSound (s : Search) : Type 0 where
    pub visits : All (λ (x : String × Visit). Reached x.0 x.1) s.visited
    pub once : Distinct (Dict.keys s.visited)
    pub waiting : All (λ (p : Pending). Walk d a origin p.current_id p.hops p.path) s.frontier

  start-IsSound : IsSound (start origin)
  start-IsSound = record { visits = tt; once = tt; waiting = (here, tt) }

  Walk-on :
      (p : Pending) (e : Dependency)
      → Walk d a origin p.current_id p.hops p.path
      → Has e (neighbours a p.current_id)
      → Walk d a origin (other_id d e) (p.hops + 1) (p.path ++ e ∷ [])
  Walk-on p e w h = rw add-one (step w e h refl refl)

  enter-IsSound :
      (p : Pending) (s : Search) (e : Dependency)
      → p.hops < m
      → Walk d a origin p.current_id p.hops p.path
      → Has e (neighbours a p.current_id)
      → IsSound s
      → IsSound (enter d p s e)
  enter-IsSound p s e h w k i =
      let on = Walk-on p e w k in
      let entered : Visit = record { hops = p.hops + 1; path = p.path ++ e ∷ [] } in
      let new : Reached (other_id d e) entered = record {
        walk = on;
        least = omega arith;
        most = omega arith;
      } in
      record {
        visits =
            put-All (λ (x : String × Visit). Reached x.0 x.1) (other_id d e) entered s.visited
              i.visits new;
        once = put-Distinct (other_id d e) entered s.visited i.once;
        waiting =
            All-append (λ (q : Pending). Walk d a origin q.current_id q.hops q.path) s.frontier _
              i.waiting (on, tt);
      }

  scan-IsSound :
      (p : Pending) (s : Search) (es : List Dependency)
      → p.hops < m
      → Walk d a origin p.current_id p.hops p.path
      → ((e : Dependency) → Has e es → Has e (neighbours a p.current_id))
      → IsSound s
      → IsSound (scan d p s es)
  unfolding scan
  scan-IsSound p s [] h w k i = i
  scan-IsSound p s (e ∷ es) h w k i =
      scan-IsSound p (relax d p s e) es h w (λ x q. k x (inr q))
        (elim (relax-cases d m p s e h) [
          | inl (same, _) ↦ rw same i
          | inr (entered, _) ↦ rw entered (enter-IsSound p s e h w (k e (inl refl)) i)
        ])

  expand-IsSound :
      (s : Search) (p : Pending) (rest : List Pending)
      → s.frontier ≡ p ∷ rest
      → IsSound s
      → IsSound (expand d a m s p rest)
  unfolding expand
  expand-IsSound s p rest f i =
      let walks : All (λ (q : Pending). Walk d a origin q.current_id q.hops q.path) (p ∷ rest) =
        rw f at i.waiting in
      let popped : IsSound (record s { frontier = rest }) = record {
        visits = i.visits;
        once = i.once;
        waiting = walks.1;
      } in
      elim (Bool-cases (leb m p.hops)) [
        | inl far ↦ rw far popped
        | inr near ↦ rw near (
            scan-IsSound p (record s { frontier = rest }) (neighbours a p.current_id) (ground arith)
              walks.0 (λ e k. k) popped)
      ]

  -- Every visit of a search that ended was reached.
  pub loop-IsSound : (fuel : ℕ) (t : Search) → loop d a m fuel (start origin) ≡ some t → IsSound t
  loop-IsSound fuel t e =
      let (sound, _) =
        loop_rule d a m IsSound expand-IsSound fuel (start origin) t start-IsSound e in
      sound

-- ===== src/Graph/Traverse/Shortest.antt =====
-- The nodes at the end of a walk within `max_hops` against what `_traverse` visits, and the lengths
-- of these walks against the hop counts.
use mathlib.Core.Path.{subst₂}
use db_platform.Base.{
  ℕ, suc, ◌+◌, ◌≤◌, ◌<◌, String, ◌≡◌, refl, some, List, [], ◌∷◌, ◌++◌, arith, eq_iff, leb, leb→le,
  Bool-cases, Option-cases, Has, inl, inr, ◌⊎◌,
}
use db_platform.Base.Dict
use db_platform.Base.Dict.{get-put, get-put_cases}
use db_platform.Graph.{Dependency, Adjacency, neighbours}
use db_platform.Graph.Traverse.{
  Visit, Pending, Search, Direction, other_id, enter, relax, scan, expand, loop, start,
}
use db_platform.Graph.Traverse.Ends.{level, relax-cases, loop_rule}
use db_platform.Graph.Traverse.Sound.{Walk, here, step}

-- An entry of the frontier is at `id` with `h` hops.
abbrev Waiting : String → ℕ → List Pending → Type 0
Waiting id h [] = ⊥
Waiting id h (p ∷ ps) = ((p.current_id ≡ id) × (p.hops ≡ h)) ⊎ Waiting id h ps

Waiting-append :
    (id : String) (h : ℕ) (ps qs : List Pending) → Waiting id h ps → Waiting id h (ps ++ qs)
Waiting-append id h [] qs w = absurd w
Waiting-append id h (p ∷ ps) qs w = ground (arith, Waiting-append id h ps qs)

Waiting-concat : (p : Pending) (ps : List Pending) → Waiting p.current_id p.hops (ps ++ p ∷ [])
Waiting-concat p [] = inl (refl, refl)
Waiting-concat p (q ∷ ps) = inr (Waiting-concat p ps)

module _ (d : Direction) (a : Adjacency) (m : ℕ) (origin : String) where
  -- All neighbours of `id` are known within one hop more than `h`.
  abbrev Settled : (String → ℕ) → String → ℕ → Type 0
  Settled lv id h =
      (m ≤ h) ⊎ ((e : Dependency) → Has e (neighbours a id) → lv (other_id d e) ≤ suc h)

  abbrev Closed : Search → String → ℕ → Type 0
  Closed s id h = Waiting id h s.frontier ⊎ Settled (level m s.visited) id h

  record IsClosed (s : Search) : Type 0 where
    source : Closed s origin 0
    visits : (id : String) (v : Visit) → Dict.get id s.visited ≡ some v → Closed s id v.hops

  -- How a search grows: hop counts fall, what waits goes on waiting, new visits wait.
  record Grows (s t : Search) : Type 0 where
    falls : (id : String) → level m t.visited id ≤ level m s.visited id
    waits : (id : String) (h : ℕ) → Waiting id h s.frontier → Waiting id h t.frontier
    fresh :
        (id : String) (v : Visit)
        → Dict.get id t.visited ≡ some v
        → (Dict.get id s.visited ≡ some v) ⊎ Waiting id v.hops t.frontier

  Grows-refl : (s : Search) → Grows s s
  Grows-refl s = record { falls = λ id. omega arith; waits = λ id h w. w; fresh = λ id v e. inl e }

  Grows-trans : (s t u : Search) → Grows s t → Grows t u → Grows s u
  Grows-trans s t u g k = record {
    falls = λ id. omega (arith, g.falls id, k.falls id);
    waits = λ id h w. k.waits id h (g.waits id h w);
    fresh = λ id v e. elim (k.fresh id v e) [
      | inl old ↦ elim (g.fresh id v old) [
        | inl older ↦ inl older
        | inr w ↦ inr (k.waits id v.hops w)
      ]
      | inr w ↦ inr w
    ];
  }

  enter-Grows :
      (p : Pending) (s : Search) (e : Dependency)
      → p.hops + 1 < level m s.visited (other_id d e)
      → Grows s (enter d p s e)
  enter-Grows p s e less =
      let entered : Visit = record { hops = p.hops + 1; path = p.path ++ e ∷ [] } in
      let put_on : Pending = record {
        current_id = other_id d e;
        hops = p.hops + 1;
        path = p.path ++ e ∷ [];
      } in
      record {
        falls = λ id.
            ground (arith, get-put (other_id d e) id entered s.visited, eq_iff (other_id d e) id);
        waits = λ id h w. Waiting-append id h s.frontier (put_on ∷ []) w;
        fresh = λ id v g. elim (get-put_cases (other_id d e) id entered v s.visited g) [
          | inl (same, value) ↦ inr (
              subst₂ (λ i (x : Visit). Waiting i x.hops (s.frontier ++ put_on ∷ [])) same value
                (Waiting-concat put_on s.frontier))
          | inr old ↦ inl old
        ];
      }

  relax-Grows :
      (p : Pending) (s : Search) (e : Dependency)
      → p.hops < m
      → Grows s (relax d p s e) × (level m (relax d p s e).visited (other_id d e) ≤ suc p.hops)
  relax-Grows p s e h = elim (relax-cases d m p s e h) [
    | inl (same, known) ↦ rw same (Grows-refl s, omega arith)
    | inr (entered, less) ↦ rw entered (
      enter-Grows p s e less,
      ground (
        arith,
        get-put (other_id d e) (other_id d e)
            (record { hops = p.hops + 1; path = p.path ++ e ∷ [] }) s.visited,
        eq_iff (other_id d e) (other_id d e),
      ),
    )
  ]

  -- After the `for` loop every edge's end is known within one hop more.
  scan-Grows :
      (p : Pending) (s : Search) (es : List Dependency)
      → p.hops < m
      → Grows s (scan d p s es)
        × ((e : Dependency)
            → Has e es
            → level m (scan d p s es).visited (other_id d e) ≤ suc p.hops)
  unfolding scan
  scan-Grows p s [] h = (Grows-refl s, λ e k. absurd k)
  scan-Grows p s (x ∷ es) h =
      let (one, low) = relax-Grows p s x h in
      let (more, all_low) = scan-Grows p (relax d p s x) es h in
      (
        Grows-trans s (relax d p s x) (scan d p (relax d p s x) es) one more,
        λ e k. elim k [
          | inl same ↦ rw same (omega (arith, more.falls (other_id d x)))
          | inr later ↦ all_low e later
        ],
      )

  close :
      (s t : Search) (p : Pending) (rest : List Pending) (id : String) (h : ℕ)
      → s.frontier ≡ p ∷ rest
      → Grows (record s { frontier = rest }) t
      → Settled (level m t.visited) p.current_id p.hops
      → Closed s id h
      → Closed t id h
  close s t p rest id h f g settled (inr (inl far)) = inr (inl far)
  close s t p rest id h f g settled (inr (inr near)) =
      inr (inr (λ e k. omega (arith, near e k, g.falls (other_id d e))))
  close s t p rest id h f g settled (inl w) =
      let w' : Waiting id h (p ∷ rest) = rw f at w in
      elim w' [
        | inl (node, hops) ↦ inr (subst₂ (Settled (level m t.visited)) node hops settled)
        | inr later ↦ inl (g.waits id h later)
      ]

  grown-IsClosed :
      (s t : Search) (p : Pending) (rest : List Pending)
      → s.frontier ≡ p ∷ rest
      → Grows (record s { frontier = rest }) t
      → Settled (level m t.visited) p.current_id p.hops
      → IsClosed s
      → IsClosed t
  grown-IsClosed s t p rest f g settled i = record {
    source = close s t p rest origin 0 f g settled i.source;
    visits = λ id v e. elim (g.fresh id v e) [
      | inl old ↦ close s t p rest id v.hops f g settled (i.visits id v old)
      | inr w ↦ inl w
    ];
  }

  expand-IsClosed :
      (s : Search) (p : Pending) (rest : List Pending)
      → s.frontier ≡ p ∷ rest
      → IsClosed s
      → IsClosed (expand d a m s p rest)
  unfolding expand
  expand-IsClosed s p rest f i =
      let popped : Search = record s { frontier = rest } in
      elim (Bool-cases (leb m p.hops)) [
        | inl far ↦
            rw far
              (grown-IsClosed s popped p rest f (Grows-refl popped) (inl (leb→le m p.hops far)) i)
        | inr near ↦
            let (grows, low) = scan-Grows p popped (neighbours a p.current_id) (ground arith) in
            rw near (grown-IsClosed s _ p rest f grows (inr low) i)
      ]

  start-IsClosed : IsClosed (start origin)
  unfolding Dict.get
  start-IsClosed = record { source = inl (inl (refl, refl)); visits = λ id v e. cc }

  module _ (t : Search) (i : IsClosed t) (done : t.frontier ≡ []) where
    Settled-end : (id : String) (h : ℕ) → Closed t id h → Settled (level m t.visited) id h
    Settled-end id h (inl w) = let w' : Waiting id h [] = rw done at w in absurd w'
    Settled-end id h (inr s) = s

    Settled-known :
        (id : String) (n : ℕ)
        → n ≤ m
        → ((n ≡ 0) × (id ≡ origin)) ⊎ (level m t.visited id ≤ n)
        → (h : ℕ) × (h ≤ n) × Settled (level m t.visited) id h
    Settled-known id n h (inl (none_yet, at_origin)) =
        (0, omega arith, rw at_origin (Settled-end origin 0 i.source))
    Settled-known id n h (inr low) = elim (Option-cases (Dict.get id t.visited)) [
      | inl unseen ↦ absurd (ground arith)
      | inr (v, seen) ↦ (v.hops, ground arith, Settled-end id v.hops (i.visits id v seen))
    ]

    Walk-known :
        {id : String} {n : ℕ} {path : List Dependency}
        → Walk d a origin id n path
        → n ≤ m
        → ((n ≡ 0) × (id ≡ origin)) ⊎ (level m t.visited id ≤ n)
    Walk-known here h = inl (refl, refl)
    Walk-known (step {id} {to} {n} w e k end_is _) h =
        let (at, less, settled) = Settled-known id n (omega arith) (Walk-known w (omega arith)) in
        elim settled [
          | inl far ↦ absurd (omega arith)
          | inr near ↦ inr (rw (← end_is) (omega (arith, near e k)))
        ]

  -- At the end each walk of one to `max_hops` steps leads to a visit with no more hops.
  pub loop_reaches :
      (fuel : ℕ) (t : Search) {id : String} {n : ℕ} {path : List Dependency}
      → loop d a m fuel (start origin) ≡ some t
      → Walk d a origin id n path
      → 1 ≤ n
      → n ≤ m
      → (v : Visit) × (Dict.get id t.visited ≡ some v) × (v.hops ≤ n)
  loop_reaches fuel t {id} {n} e w least most =
      let (closed, done) =
        loop_rule d a m IsClosed expand-IsClosed fuel (start origin) t start-IsClosed e in
      elim (Walk-known t closed done w most) [
        | inl (zero_steps, _) ↦ absurd (omega arith)
        | inr low ↦ elim (Option-cases (Dict.get id t.visited)) [
          | inl unseen ↦ absurd (ground arith)
          | inr (v, seen) ↦ (v, seen, ground arith)
        ]
      ]

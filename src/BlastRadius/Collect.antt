-- ===== src/BlastRadius/Collect.antt =====
-- The lists of found resources that `analyze` of blast_radius/analyzer.py fills.
use db_platform.Base.{
  String, ◌≡◌, ◌≢◌, refl, ap, true, false, List, [], ◌∷◌, ◌++◌, arith, ◌==◌, eq_iff, Has,
  Has-append, Distinct, Distinct-concat, inl, inr, ◌⊎◌, ◌↔◌, Bool-cases,
}
use db_platform.Graph.{AffectedResource, Impact}
use db_platform.Graph.Traverse.{Found}
use db_platform.BlastRadius.{Collected, is_seen, affected, offer, collect}

abbrev pub resource_ids : List AffectedResource → List String
resource_ids [] = []
resource_ids (r ∷ rs) = r.resource.id ∷ resource_ids rs

pub resource_ids-append :
    (rs : List AffectedResource) (r : AffectedResource)
    → resource_ids (rs ++ r ∷ []) ≡ resource_ids rs ++ r.resource.id ∷ []
resource_ids-append [] r = refl
resource_ids-append (x ∷ rs) r = ap (λ l. x.resource.id ∷ l) (resource_ids-append rs r)

Has-resource_ids :
    (r : AffectedResource) (rs : List AffectedResource)
    → Has r rs
    → Has r.resource.id (resource_ids rs)
Has-resource_ids r [] h = h
Has-resource_ids r (x ∷ rs) (inl e) = inl (ap (λ (y : AffectedResource). y.resource.id) e)
Has-resource_ids r (x ∷ rs) (inr h) = inr (Has-resource_ids r rs h)

-- The set of seen ids is that of the resources listed, each of which is listed once.
pub record IsTidy (c : Collected) : Type 0 where
  pub same : (id : String) → (is_seen id c.seen ≡ true) ↔ Has id (resource_ids c.resources)
  pub once : Distinct (resource_ids c.resources)

-- The two ways that a found resource is taken.
pub data Offered (impact : Impact) (node_id : String) (c : Collected) (f : Found) : Type 0 where
  skipped :
      (is_seen f.node.id c.seen ≡ true) ⊎ (f.node.id ≡ node_id)
      → offer impact node_id c f ≡ c
      → Offered impact node_id c f
  listed :
      is_seen f.node.id c.seen ≡ false
      → f.node.id ≢ node_id
      → offer impact node_id c f
        ≡ record { seen = f.node.id ∷ c.seen; resources = c.resources ++ affected impact f ∷ [] }
      → Offered impact node_id c f

pub offered :
    (impact : Impact) (node_id : String) (c : Collected) (f : Found) → Offered impact node_id c f
unfolding offer
offered impact node_id c f = elim (Bool-cases (is_seen f.node.id c.seen)) [
  | inl seen ↦ skipped (inl seen) (rw seen)
  | inr new ↦ elim (Bool-cases (f.node.id == node_id)) [
    | inl self ↦ skipped (inr ((eq_iff f.node.id node_id).0 self)) (rw (new, self))
    | inr other ↦ listed new (λ e. ground (arith, eq_iff f.node.id node_id)) (rw (new, other))
  ]
]

module _ (impact : Impact) (node_id : String) where
  pub offer-IsTidy : (c : Collected) (f : Found) → IsTidy c → IsTidy (offer impact node_id c f)
  unfolding is_seen affected
  offer-IsTidy c f t = elim (offered impact node_id c f) [
    | skipped _ e ↦ rw e t
    | listed new _ e ↦
        let ids = resource_ids-append c.resources (affected impact f) in
        let fresh : ¬ (Has f.node.id (resource_ids c.resources)) =
          λ h. cc (new, (t.same f.node.id).1 h) in
        rw e (record {
          same = λ id. rw ids (
              ground (
                arith,
                t.same id,
                eq_iff f.node.id id,
                Has-append id (resource_ids c.resources) (f.node.id ∷ []),
              ));
          once = rw ids (Distinct-concat (resource_ids c.resources) f.node.id t.once fresh);
        })
  ]

  pub collect-IsTidy :
      (fs : List Found) (c : Collected) → IsTidy c → IsTidy (collect impact node_id fs c)
  unfolding collect
  collect-IsTidy [] c t = t
  collect-IsTidy (f ∷ fs) c t = collect-IsTidy fs (offer impact node_id c f) (offer-IsTidy c f t)

  offer-keeps :
      (c : Collected) (f : Found) (id : String)
      → Has id (resource_ids c.resources)
      → Has id (resource_ids (offer impact node_id c f).resources)
  offer-keeps c f id h = elim (offered impact node_id c f) [
    | skipped _ e ↦ rw e h
    | listed _ _ e ↦
        rw (e, resource_ids-append c.resources (affected impact f))
          ((Has-append id (resource_ids c.resources) _).1 (inl h))
  ]

  pub collect-keeps :
      (fs : List Found) (c : Collected) (id : String)
      → Has id (resource_ids c.resources)
      → Has id (resource_ids (collect impact node_id fs c).resources)
  unfolding collect
  collect-keeps [] c id h = h
  collect-keeps (f ∷ fs) c id h =
      collect-keeps fs (offer impact node_id c f) id (offer-keeps c f id h)

  offer-covers :
      (c : Collected) (f : Found)
      → IsTidy c
      → f.node.id ≢ node_id
      → Has f.node.id (resource_ids (offer impact node_id c f).resources)
  unfolding affected
  offer-covers c f t other = elim (offered impact node_id c f) [
    | skipped (inl seen) e ↦ rw e ((t.same f.node.id).0 seen)
    | skipped (inr self) e ↦ absurd (other self)
    | listed _ _ e ↦
        rw (e, resource_ids-append c.resources (affected impact f))
          ((Has-append f.node.id (resource_ids c.resources) (f.node.id ∷ [])).1 (inr (inl refl)))
  ]

  -- Every found resource but the node itself is listed.
  pub collect-covers :
      (fs : List Found) (c : Collected) (f : Found)
      → IsTidy c
      → Has f fs
      → f.node.id ≢ node_id
      → Has f.node.id (resource_ids (collect impact node_id fs c).resources)
  unfolding collect
  collect-covers [] c f t h other = absurd h
  collect-covers (x ∷ fs) c f t (inl e) other =
      collect-keeps fs (offer impact node_id c x) f.node.id
        (rw e (offer-covers c x t (rw e at other)))
  collect-covers (x ∷ fs) c f t (inr h) other =
      collect-covers fs (offer impact node_id c x) f (offer-IsTidy c x t) h other

  -- What is listed was listed before, or is a found resource other than the node itself.
  abbrev pub Listed : List Found → Collected → AffectedResource → Type 0
  Listed fs c r =
      Has r c.resources ⊎ ((f : Found) × Has f fs × (f.node.id ≢ node_id) × (r ≡ affected impact f))

  offer-only :
      (c : Collected) (f : Found) (r : AffectedResource)
      → Has r (offer impact node_id c f).resources
      → Has r c.resources ⊎ ((f.node.id ≢ node_id) × (r ≡ affected impact f))
  offer-only c f r h = elim (offered impact node_id c f) [
    | skipped _ e ↦ inl (rw e at h)
    | listed _ other e ↦
        let h' : Has r (c.resources ++ affected impact f ∷ []) = rw e at h in
        elim ((Has-append r c.resources (affected impact f ∷ [])).0 h') [
          | inl old ↦ inl old
          | inr (inl new) ↦ inr (other, new)
          | inr (inr none_left) ↦ absurd none_left
        ]
  ]

  pub collect-only :
      (fs : List Found) (c : Collected) (r : AffectedResource)
      → Has r (collect impact node_id fs c).resources
      → Listed fs c r
  unfolding collect
  collect-only [] c r h = inl h
  collect-only (f ∷ fs) c r h = elim (collect-only fs (offer impact node_id c f) r h) [
    | inl before ↦ elim (offer-only c f r before) [
      | inl old ↦ inl old
      | inr (other, e) ↦ inr (f, inl refl, other, e)
    ]
    | inr (x, later, other, e) ↦ inr (x, inr later, other, e)
  ]

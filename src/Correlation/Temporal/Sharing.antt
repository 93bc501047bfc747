-- ===== src/Correlation/Temporal/Sharing.antt =====
-- backend/correlation/analyzers/temporal_analyzer.py: what the steps of the loop do to two entities
-- of one cluster.
use mathlib.Core.List.{append-nil, append_assoc}
use osint_platform_core.Base.{
  ℕ, ◌-◌, ◌≤◌, ◌<◌, Bool, true, false, List, [], ◌∷◌, ◌++◌, ◌==◌, leb, ltb, max, keep, any, nat_in,
  length, ◌&&◌, ◌≡◌, refl, All, any-append, arith, Bool-cases, inl, inr, ==_refl,
}
use osint_platform_core.Correlation.Temporal.{
  EntityTimes, Event, TemporalCluster, Current, events_of, start_cluster, extend_cluster,
  close_cluster, cluster_loop,
}

abbrev pub has_event : (entity_id time : ℕ) → List Event → Bool
has_event entity_id time es = any (λ e. (e.entity_id == entity_id) && (e.time == time)) es

abbrev pub both_in : (a b : ℕ) → List TemporalCluster → Bool
both_in a b clusters = any (λ c. nat_in a c.entity_ids && nat_in b c.entity_ids) clusters

-- The events of the entities that are asked for.
abbrev pub active_events : List ℕ → List EntityTimes → List Event
active_events entity_ids rows = events_of (keep (λ r. nat_in r.id entity_ids) rows)

-- What was found before stays in front.
pub cluster_loop-append :
    (window : ℕ) (front back : List TemporalCluster) (c : Current) (es : List Event)
    → cluster_loop window (front ++ back) c es ≡ front ++ cluster_loop window back c es
unfolding cluster_loop
cluster_loop-append window front back c [] = append_assoc front back (close_cluster c)
cluster_loop-append window front back c (e ∷ es) = elim (Bool-cases (leb (e.time - c.end) window)) [
  | inl near ↦ rw near (cluster_loop-append window front back (extend_cluster e c) es)
  | inr far ↦ rw far (
      rw (append_assoc front back (close_cluster c))
        (cluster_loop-append window front (back ++ close_cluster c) (start_cluster e) es))
]

pub any-append_right {ℓ} :
    {A : Type ℓ} (p : A → Bool) (xs ys : List A) → any p ys ≡ true → any p (xs ++ ys) ≡ true
any-append_right p [] ys h = h
any-append_right p (x ∷ xs) ys h = ground (arith, any-append_right p xs ys h)

module _ (a b : ℕ) (distinct : (a == b) ≡ false) where
  two-lt-length : (xs : List ℕ) → nat_in a xs ≡ true → nat_in b xs ≡ true → 1 < length xs
  two-lt-length [] h k = cc
  two-lt-length (x ∷ []) h k = ground (arith, h, k)
  two-lt-length (x ∷ y ∷ xs) h k = omega arith

  pub both-close_cluster :
      (c : Current)
      → nat_in a c.entities ≡ true
      → nat_in b c.entities ≡ true
      → both_in a b (close_cluster c) ≡ true
  unfolding close_cluster
  both-close_cluster c h k =
      let size = two-lt-length c.entities h k in
      let big : ltb 1 (length c.entities) ≡ true = ground (arith, size) in rw big (rw (h, k) refl)

pub nat_in-extend :
    (a : ℕ) (e : Event) (c : Current)
    → nat_in a c.entities ≡ true
    → nat_in a (extend_cluster e c).entities ≡ true
unfolding extend_cluster
nat_in-extend a e c h = elim (Bool-cases (nat_in e.entity_id c.entities)) [
  | inl old ↦ rw old h
  | inr new ↦ rw new (any-append (λ x. x == a) c.entities _ h)
]

pub nat_in-extend_self :
    (e : Event) (c : Current) → nat_in e.entity_id (extend_cluster e c).entities ≡ true
unfolding extend_cluster
nat_in-extend_self e c = elim (Bool-cases (nat_in e.entity_id c.entities)) [
  | inl old ↦ rw old old
  | inr new ↦
      rw new (any-append_right (λ x. x == e.entity_id) c.entities _ (rw (==_refl e.entity_id) refl))
]

pub end-extend : (e : Event) (c : Current) → (extend_cluster e c).end ≡ max c.end e.time
unfolding extend_cluster
end-extend e c = refl

pub loop_split :
    (window : ℕ) (front : List TemporalCluster) (c : Current) (es : List Event)
    → cluster_loop window front c es ≡ front ++ cluster_loop window [] c es
loop_split window front c es = rw append-nil at (cluster_loop-append window front [] c es)

-- The clusters of the loop are those that were found before, and those of the rest.
loop-both :
    (window a b : ℕ) (front : List TemporalCluster) (c : Current) (es : List Event)
    → both_in a b (cluster_loop window [] c es) ≡ true
    → both_in a b (cluster_loop window front c es) ≡ true
loop-both window a b front c es h = rw (loop_split window front c es) (any-append_right _ front _ h)

-- An event of the list is not before a time that none of them is before.
pub time-le :
    (b tb t : ℕ) (es : List Event) → All (λ e. t ≤ e.time) es → has_event b tb es ≡ true → t ≤ tb
time-le b tb t [] h k = cc
time-le b tb t (e ∷ es) h k = elim (Bool-cases ((e.entity_id == b) && (e.time == tb))) [
  | inl here ↦ ground (arith, here, h.0)
  | inr other ↦ time-le b tb t es h.1 (rw other at k)
]

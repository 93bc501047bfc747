-- ===== src/Correlation/Temporal/Clusters.antt =====
-- backend/correlation/analyzers/temporal_analyzer.py: which entities share a cluster.
use mathlib.Core.Path.{subst}
use osint_platform_core.Base.{
  ℕ, ◌+◌, ◌-◌, ◌≤◌, true, false, some, List, [], ◌∷◌, ◌++◌, ◌==◌, leb, nat_in, if◌then◌else◌, ◌&&◌,
  ◌≡◌, refl, ◌∙◌, any-append, arith, Bool-cases, inl, inr,
}
use osint_platform_core.Base.Sort.{sort_by, IsSorted, sort_by-IsSorted, any-sort_by}
use osint_platform_core.Correlation.Temporal.{
  EntityTimes, Event, TemporalCluster, Current, events_of, start_cluster, extend_cluster,
  close_cluster, cluster_loop, clusters_of, find_activity_clusters,
}
use osint_platform_core.Correlation.Temporal.Sharing.{
  has_event, both_in, active_events, any-append_right, both-close_cluster, nat_in-extend,
  nat_in-extend_self, end-extend, loop_split, time-le,
}

module _ (window a b : ℕ) (distinct : (a == b) ≡ false) where
  -- A cluster that holds both entities will be among the results.
  loop-keeps :
      (front : List TemporalCluster) (c : Current) (es : List Event)
      → nat_in a c.entities ≡ true
      → nat_in b c.entities ≡ true
      → both_in a b (cluster_loop window front c es) ≡ true
  unfolding cluster_loop
  loop-keeps front c [] h k = any-append_right _ front _ (both-close_cluster a b distinct c h k)
  loop-keeps front c (e ∷ es) h k = elim (Bool-cases (leb (e.time - c.end) window)) [
    | inl near ↦
        rw near
          (loop-keeps front (extend_cluster e c) es (nat_in-extend a e c h) (nat_in-extend b e c k))
    | inr far ↦ rw far (
        let closed = both-close_cluster a b distinct c h k in
        let found = any-append_right _ front _ closed in
        rw (loop_split window (front ++ close_cluster c) (start_cluster e) es)
          (any-append _ (front ++ close_cluster c) _ found))
  ]

  -- An entity that was active at the end of the cluster or before shares it with the entity of a
  -- later event that is near.
  loop-joins :
      (ta tb : ℕ) (c : Current) (es : List Event)
      → IsSorted (λ e. e.time) es
      → nat_in a c.entities ≡ true
      → ta ≤ c.end
      → tb ≤ ta + window
      → has_event b tb es ≡ true
      → (front : List TemporalCluster) → both_in a b (cluster_loop window front c es) ≡ true
  unfolding cluster_loop
  loop-joins ta tb c [] s h le near k front = cc
  loop-joins ta tb c (e ∷ es) s h le near k front =
      elim (Bool-cases ((e.entity_id == b) && (e.time == tb))) [
        | inl here ↦
            let at_once : leb (e.time - c.end) window ≡ true = ground (arith, here) in
            let same : e.entity_id ≡ b = ground (arith, here) in
            let there : nat_in b (extend_cluster e c).entities ≡ true =
              subst (λ i. nat_in i (extend_cluster e c).entities ≡ true) same
                (nat_in-extend_self e c) in
            rw at_once (loop-keeps front (extend_cluster e c) es (nat_in-extend a e c h) there)
        | inr other ↦
            let k' : has_event b tb es ≡ true = rw other at k in
            let before = time-le b tb e.time es s.0 k' in
            let at_once : leb (e.time - c.end) window ≡ true = ground (arith, before) in
            let later : ta ≤ (extend_cluster e c).end = rw (end-extend e c) (omega arith) in
            rw at_once (
              loop-joins ta tb (extend_cluster e c) es s.1 (nat_in-extend a e c h) later near k'
                front)
      ]

both_in_comm : (a b : ℕ) (cs : List TemporalCluster) → both_in a b cs ≡ both_in b a cs
both_in_comm a b [] = refl
both_in_comm a b (c ∷ cs) = ground (arith, both_in_comm a b cs)

started : (a : ℕ) (e : Event) → e.entity_id ≡ a → nat_in a (start_cluster e).entities ≡ true
unfolding start_cluster
started a e h = ground (arith, h)

started_end : (t : ℕ) (e : Event) → e.time ≡ t → t ≤ (start_cluster e).end
unfolding start_cluster
started_end t e h = omega (arith, h)

-- The entity of the next event, once it is in the current cluster, shares it with a near one.
head-joins :
    (window a ta b tb : ℕ) (c : Current) (e : Event) (es : List Event)
    → (a == b) ≡ false
    → e.entity_id ≡ a
    → e.time ≡ ta
    → tb ≤ ta + window
    → IsSorted (λ x. x.time) es
    → has_event b tb es ≡ true
    → (front : List TemporalCluster) → both_in a b (cluster_loop window front c (e ∷ es)) ≡ true
unfolding cluster_loop
head-joins window a ta b tb c e es apart ia ita near s k front =
    elim (Bool-cases (leb (e.time - c.end) window)) [
      | inl joined ↦
          let there =
            subst (λ i. nat_in i (extend_cluster e c).entities ≡ true) ia
              (nat_in-extend_self e c) in
          let later : ta ≤ (extend_cluster e c).end = rw (end-extend e c) (omega arith) in
          rw joined
            (loop-joins window a b apart ta tb (extend_cluster e c) es s there later near k front)
      | inr far ↦ rw far (
          loop-joins window a b apart ta tb (start_cluster e) es s (started a e ia)
            (started_end ta e ita) near k (front ++ close_cluster c))
    ]

abbrev next_current : ℕ → Current → Event → Current
next_current window c e =
    if leb (e.time - c.end) window then extend_cluster e c else start_cluster e

abbrev next_front : ℕ → List TemporalCluster → Current → Event → List TemporalCluster
next_front window front c e =
    if leb (e.time - c.end) window then front else front ++ close_cluster c

loop-step :
    (window : ℕ) (front : List TemporalCluster) (c : Current) (e : Event) (es : List Event)
    → cluster_loop window front c (e ∷ es)
      ≡ cluster_loop window (next_front window front c e) (next_current window c e) es
unfolding cluster_loop
loop-step window front c e es = refl

-- Two events of a sorted list that are near each other put their entities into one cluster.
pub loop-shares :
    (window a ta b tb : ℕ) (c : Current) (es : List Event)
    → (a == b) ≡ false
    → ta ≤ tb + window
    → tb ≤ ta + window
    → IsSorted (λ e. e.time) es
    → has_event a ta es ≡ true
    → has_event b tb es ≡ true
    → (front : List TemporalCluster) → both_in a b (cluster_loop window front c es) ≡ true
loop-shares window a ta b tb c [] apart l r s h k front = cc
loop-shares window a ta b tb c (e ∷ es) apart l r s h k front =
    elim (Bool-cases ((e.entity_id == a) && (e.time == ta))) [
      | inl first ↦
          head-joins window a ta b tb c e es apart (ground (arith, first)) (ground (arith, first)) r
            s.1 (ground (arith, first, k, apart)) front
      | inr other ↦ elim (Bool-cases ((e.entity_id == b) && (e.time == tb))) [
        | inl first ↦
            both_in_comm a b (cluster_loop window front c (e ∷ es))
            ∙ head-joins window b tb a ta c e es (ground (arith, apart)) (ground (arith, first))
                (ground (arith, first)) l s.1 (rw other at h) front
        | inr neither ↦
            let h' : has_event a ta es ≡ true = rw other at h in
            let k' : has_event b tb es ≡ true = rw neither at k in
            rw (loop-step window front c e es) (
              loop-shares window a ta b tb (next_current window c e) es apart l r s.1 h' k'
                (next_front window front c e))
      ]
    ]

clusters_of-shares :
    (window a ta b tb : ℕ) (es : List Event)
    → (a == b) ≡ false
    → ta ≤ tb + window
    → tb ≤ ta + window
    → IsSorted (λ e. e.time) es
    → has_event a ta es ≡ true
    → has_event b tb es ≡ true
    → both_in a b (clusters_of window es) ≡ true
unfolding clusters_of
clusters_of-shares window a ta b tb [] apart l r s h k = cc
clusters_of-shares window a ta b tb (e ∷ es) apart l r s h k =
    elim (Bool-cases ((e.entity_id == a) && (e.time == ta))) [
      | inl first ↦
          loop-joins window a b apart ta tb (start_cluster e) es s.1
            (started a e (ground (arith, first))) (started_end ta e (ground (arith, first))) r
            (ground (arith, first, k, apart)) []
      | inr other ↦ elim (Bool-cases ((e.entity_id == b) && (e.time == tb))) [
        | inl first ↦
            both_in_comm a b (cluster_loop window [] (start_cluster e) es)
            ∙ loop-joins window b a (ground (arith, apart)) tb ta (start_cluster e) es s.1
                (started b e (ground (arith, first))) (started_end tb e (ground (arith, first))) l
                (rw other at h) []
        | inr neither ↦
            loop-shares window a ta b tb (start_cluster e) es apart l r s.1 (rw other at h)
              (rw neither at k) []
      ]
    ]

has_event-none :
    (a ta : ℕ) (rows : List EntityTimes) → has_event a ta (active_events [] rows) ≡ false
unfolding events_of
has_event-none a ta [] = refl
has_event-none a ta (row ∷ rows) = has_event-none a ta rows

-- Two different entities that were each active at times no further apart than the window share a
-- cluster.
pub find_activity_clusters-both_in :
    (window a ta b tb : ℕ) (entity_ids : List ℕ) (rows : List EntityTimes)
    → (a == b) ≡ false
    → has_event a ta (active_events entity_ids rows) ≡ true
    → has_event b tb (active_events entity_ids rows) ≡ true
    → ta ≤ tb + window
    → tb ≤ ta + window
    → both_in a b (find_activity_clusters entity_ids (some rows) window) ≡ true
unfolding find_activity_clusters
find_activity_clusters-both_in window a ta b tb [] rows apart h k l r =
    cc (h, has_event-none a ta rows)
find_activity_clusters-both_in window a ta b tb (id ∷ ids) rows apart h k l r =
    let events = active_events (id ∷ ids) rows in
    clusters_of-shares window a ta b tb (sort_by (λ e. e.time) events) apart l r
      (sort_by-IsSorted (λ e. e.time) events) (any-sort_by (λ e. e.time) _ events ∙ h)
      (any-sort_by (λ e. e.time) _ events ∙ k)

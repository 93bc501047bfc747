-- ===== src/Correlation/Temporal/Timeline.antt =====
-- backend/correlation/analyzers/temporal_analyzer.py: what a cluster holds, and how far clusters lie
-- from one another.
use mathlib.Core.List.{append_assoc}
use osint_platform_core.Base.{
  ℕ, ◌+◌, ◌-◌, ◌≤◌, ◌<◌, some, List, [], ◌∷◌, ◌++◌, leb, ltb, length, ◌∙◌, All, All-map, All-append,
  arith, Bool-cases, inl, inr,
}
use osint_platform_core.Base.Sort.{sort_by, IsSorted, sort_by-IsSorted, any-sort_by}
use osint_platform_core.Correlation.Temporal.{
  EntityTimes, Event, TemporalCluster, Current, start_cluster, extend_cluster, close_cluster,
  cluster_loop, clusters_of, find_activity_clusters,
}
use osint_platform_core.Correlation.Temporal.Sharing.{active_events, loop_split}
use osint_platform_core.Correlation.Temporal.Steps.{
  IsCluster, AreSeparated, Invariant, end-extended, start-extended, extended, started, closed,
}

loop-IsCluster :
    (window : ℕ) (before : List Event) (c : Current) (es : List Event)
    → IsSorted (λ e. e.time) es
    → All (λ e. c.end ≤ e.time) es
    → Invariant before c
    → All (IsCluster (before ++ es)) (cluster_loop window [] c es)
unfolding cluster_loop start_cluster
loop-IsCluster window before c [] s h inv = closed before [] c tt inv
loop-IsCluster window before c (e ∷ es) s h inv = elim (Bool-cases (leb (e.time - c.end) window)) [
  | inl near ↦
      let later : All (λ x. (extend_cluster e c).end ≤ x.time) es =
        rw (end-extended e c) (All-map es (λ x k. omega (arith, k, h.0)) s.0) in
      rw near (
        rw append_assoc at (
          loop-IsCluster window (before ++ e ∷ []) (extend_cluster e c) es s.1 later
            (extended e before c h.0 inv)))
  | inr far ↦
      let gap : c.end < e.time = ground (arith, far) in
      let later : All (λ x. c.end < x.time) es = All-map es (λ x k. omega (arith, k, gap)) s.0 in
      rw far (
        rw (loop_split window (close_cluster c) (start_cluster e) es) (
          All-append _ (close_cluster c) _ (closed before (e ∷ es) c (gap, later) inv) (
            rw append_assoc at (
              loop-IsCluster window (before ++ e ∷ []) (start_cluster e) es s.1 s.0
                (started e before c gap inv)))))
]

start-closed : (t : ℕ) (c : Current) → t ≤ c.start → All (λ d. t ≤ d.start_time) (close_cluster c)
unfolding close_cluster
start-closed t c le = elim (Bool-cases (ltb 1 (length c.entities))) [
  | inl big ↦ rw big (le, tt)
  | inr small ↦ rw small tt
]

-- The clusters of the rest start where the current one does, or later.
starts_after :
    (window t : ℕ) (c : Current) (es : List Event)
    → t ≤ c.start
    → All (λ e. t ≤ e.time) es
    → All (λ d. t ≤ d.start_time) (cluster_loop window [] c es)
unfolding cluster_loop start_cluster
starts_after window t c [] le h = start-closed t c le
starts_after window t c (e ∷ es) le h = elim (Bool-cases (leb (e.time - c.end) window)) [
  | inl near ↦
      rw near (starts_after window t (extend_cluster e c) es (rw (start-extended e c) le) h.1)
  | inr far ↦ rw far (
      rw (loop_split window (close_cluster c) (start_cluster e) es) (
        All-append (λ d. t ≤ d.start_time) (close_cluster c) _ (start-closed t c le)
          (starts_after window t (start_cluster e) es h.0 h.1)))
]

loop-AreSeparated :
    (window : ℕ) (c : Current) (es : List Event)
    → IsSorted (λ e. e.time) es
    → AreSeparated window (cluster_loop window [] c es)
unfolding cluster_loop close_cluster start_cluster
loop-AreSeparated window c [] s = elim (Bool-cases (ltb 1 (length c.entities))) [
  | inl big ↦ rw big (tt, tt)
  | inr small ↦ rw small tt
]
loop-AreSeparated window c (e ∷ es) s = elim (Bool-cases (leb (e.time - c.end) window)) [
  | inl near ↦ rw near (loop-AreSeparated window (extend_cluster e c) es s.1)
  | inr far ↦
      let gap : c.end + window < e.time = ground (arith, far) in
      let later =
        All-map _ (λ d k. omega (arith, k, gap))
          (starts_after window e.time (start_cluster e) es (omega arith) s.0) in
      let rest = loop-AreSeparated window (start_cluster e) es s.1 in
      rw far (
        rw (loop_split window (close_cluster c) (start_cluster e) es)
          (elim (Bool-cases (ltb 1 (length c.entities))) [
            | inl big ↦ rw big (later, rest)
            | inr small ↦ rw small rest
          ]))
]

-- The clusters are separated, and each holds exactly the entities active in its interval.
pub record IsTimeline (window : ℕ) (events : List Event) (cs : List TemporalCluster) : Type 0 where
  pub clusters : All (IsCluster events) cs
  pub separated : AreSeparated window cs

single : (e : Event) → Invariant (e ∷ []) (start_cluster e)
unfolding start_cluster
single e = record {
  members = λ id. ground arith;
  distinct = (tt, tt);
  ordered = omega arith;
  latest = (omega arith, tt);
}

clusters_of-IsTimeline :
    (window : ℕ) (es : List Event)
    → IsSorted (λ e. e.time) es
    → IsTimeline window es (clusters_of window es)
unfolding clusters_of start_cluster
clusters_of-IsTimeline window [] s = record { clusters = tt; separated = tt }
clusters_of-IsTimeline window (e ∷ es) s = record {
  clusters = loop-IsCluster window (e ∷ []) (start_cluster e) es s.1 s.0 (single e);
  separated = loop-AreSeparated window (start_cluster e) es s.1;
}

-- The order of the events does not matter.
IsCluster-sorted :
    (events : List Event) (c : TemporalCluster)
    → IsCluster (sort_by (λ e. e.time) events) c
    → IsCluster events c
IsCluster-sorted events c h = record {
  members = λ id. h.members id ∙ any-sort_by (λ e. e.time) _ events;
  distinct = h.distinct;
  counted = h.counted;
  shared = h.shared;
  ordered = h.ordered;
}

-- Whatever the rows and the window: each cluster has more than one entity, each once, and exactly
-- those that were active in its interval; and from the end of a cluster to the start of a later one
-- is more than the window.
pub find_activity_clusters-IsTimeline :
    (window : ℕ) (entity_ids : List ℕ) (rows : List EntityTimes)
    → IsTimeline window
        (active_events entity_ids rows)
        (find_activity_clusters entity_ids (some rows) window)
unfolding find_activity_clusters
find_activity_clusters-IsTimeline window [] rows = record { clusters = tt; separated = tt }
find_activity_clusters-IsTimeline window (id ∷ ids) rows =
    let events = active_events (id ∷ ids) rows in
    let sorted =
      clusters_of-IsTimeline window (sort_by (λ e. e.time) events)
        (sort_by-IsSorted (λ e. e.time) events) in
    record {
      clusters =
          All-map (clusters_of window (sort_by (λ e. e.time) events)) (IsCluster-sorted events)
            sorted.clusters;
      separated = sorted.separated;
    }

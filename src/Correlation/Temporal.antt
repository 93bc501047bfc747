-- ===== src/Correlation/Temporal.antt =====
-- backend/correlation/analyzers/temporal_analyzer.py: the overlap of two streams of events, and the
-- clusters of entities that are active close to one another. Times and windows count ticks of one
-- clock, and a score that is a fraction is the pair of its parts.
pub mod Sharing
pub mod Clusters
pub mod Steps
pub mod Timeline
mod Examples
use osint_platform_core.Base.{
  ℕ, ◌+◌, ◌-◌, Bool, true, false, Option, none, some, List, [], ◌∷◌, ◌++◌, ◌==◌, leb, ltb, max, not,
  keep, any, map, nat_in, length, if◌then◌else◌, ◌&&◌, ◌||◌, is_nil,
}
use osint_platform_core.Base.Sort.{sort_by}

-- `abs((ts1 - ts2).total_seconds())`
abbrev pub distance : ℕ → ℕ → ℕ
distance t u = (t - u) + (u - t)

-- A quotient of counts; the quotient of a stream without events is 0.0.
pub record Fraction : Type 0 where
  pub part : ℕ
  pub whole : ℕ

abbrev pub zero_score : Fraction
zero_score = record { part = 0; whole = 1 }

-- The inner loop stops at the first event that is near.
unfoldable pub overlaps : (window : ℕ) → List ℕ → ℕ → Bool
overlaps window [] ts1 = false
overlaps window (ts2 ∷ rest) ts1 = leb (distance ts1 ts2) window || overlaps window rest ts1

unfoldable pub find_temporal_overlap : List ℕ → List ℕ → (window : ℕ) → Fraction
unfolding overlaps
find_temporal_overlap e1_events e2_events window =
    if is_nil e1_events || is_nil e2_events then zero_score else record {
      part = length (keep (overlaps window e2_events) e1_events);
      whole = length e1_events;
    }

-- The columns of `Relationship` that the analyzer reads.
pub record TimedRelationship : Type 0 where
  pub source_entity_id : ℕ
  pub target_entity_id : ℕ
  pub created_at : Option ℕ

-- `[t for t in times if t]`
unfoldable pub times_of : List (Option ℕ) → List ℕ
times_of [] = []
times_of (none ∷ rest) = times_of rest
times_of (some t ∷ rest) = t ∷ times_of rest

unfoldable pub event_times : (entity_id : ℕ) → List TimedRelationship → List ℕ
unfolding times_of
event_times entity_id rels = times_of (
    map (λ r. r.created_at)
      (keep (λ r. r.source_entity_id == entity_id || r.target_entity_id == entity_id) rels))

-- The table, or none where a query raises.
unfoldable pub detect_co_occurrence :
    (entity1_id entity2_id window : ℕ) → Option (List TimedRelationship) → Fraction
unfolding event_times find_temporal_overlap
detect_co_occurrence entity1_id entity2_id window none = zero_score
detect_co_occurrence entity1_id entity2_id window (some rels) =
    find_temporal_overlap (event_times entity1_id rels) (event_times entity2_id rels) window

pub record EntityTimes : Type 0 where
  pub id : ℕ
  pub created_at : Option ℕ
  pub updated_at : Option ℕ

pub record Event : Type 0 where
  pub entity_id : ℕ
  pub time : ℕ

abbrev same_time : Option ℕ → ℕ → Bool
same_time none t = false
same_time (some u) t = t == u

abbrev created_event : ℕ → Option ℕ → List Event
created_event id none = []
created_event id (some t) = record { entity_id = id; time = t } ∷ []

abbrev updated_event : ℕ → (created updated : Option ℕ) → List Event
updated_event id created none = []
updated_event id created (some t) =
    if same_time created t then [] else record { entity_id = id; time = t } ∷ []

unfoldable pub events_of : List EntityTimes → List Event
events_of [] = []
events_of (row ∷ rows) =
    created_event row.id row.created_at
    ++ (updated_event row.id row.created_at row.updated_at ++ events_of rows)

pub record TemporalCluster : Type 0 where
  pub entity_ids : List ℕ
  pub start_time : ℕ
  pub end_time : ℕ
  pub activity_count : ℕ

-- `current_cluster_entities`, `cluster_start` and `cluster_end`
pub record Current : Type 0 where
  pub entities : List ℕ
  pub start : ℕ
  pub end : ℕ

unfoldable pub start_cluster : Event → Current
start_cluster e = record { entities = e.entity_id ∷ []; start = e.time; end = e.time }

unfoldable pub extend_cluster : Event → Current → Current
extend_cluster e c = record c {
  entities = if nat_in e.entity_id c.entities then c.entities else c.entities ++ e.entity_id ∷ [];
  end = max c.end e.time;
}

unfoldable pub close_cluster : Current → List TemporalCluster
close_cluster c =
    if ltb 1 (length c.entities)
    then (record {
      entity_ids = c.entities;
      start_time = c.start;
      end_time = c.end;
      activity_count = length c.entities;
    }
        ∷ [])
    else []

-- The loop over the events after the first one. A time before `cluster_end` is near as well.
unfoldable pub cluster_loop :
    (window : ℕ) → List TemporalCluster → Current → List Event → List TemporalCluster
unfolding extend_cluster close_cluster start_cluster
cluster_loop window clusters c [] = clusters ++ close_cluster c
cluster_loop window clusters c (e ∷ es) =
    let near = leb (e.time - c.end) window in
    cluster_loop window (if near then clusters else clusters ++ close_cluster c)
      (if near then extend_cluster e c else start_cluster e) es

unfoldable pub clusters_of : (window : ℕ) → List Event → List TemporalCluster
unfolding cluster_loop start_cluster
clusters_of window [] = []
clusters_of window (e ∷ es) = cluster_loop window [] (start_cluster e) es

-- The rows of the table, or none where the query raises.
unfoldable pub find_activity_clusters :
    (entity_ids : List ℕ) → Option (List EntityTimes) → (window : ℕ) → List TemporalCluster
unfolding clusters_of events_of sort_by
find_activity_clusters entity_ids none window = []
find_activity_clusters entity_ids (some rows) window =
    if is_nil entity_ids
    then []
    else clusters_of window
        (sort_by (λ e. e.time) (events_of (keep (λ r. nat_in r.id entity_ids) rows)))

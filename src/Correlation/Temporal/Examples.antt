-- ===== src/Correlation/Temporal/Examples.antt =====
-- The temporal analyzer at concrete inputs.
use osint_platform_core.Base.{List, [], ◌∷◌, some, none, ◌≡◌, refl, true, arith}
use osint_platform_core.Correlation.Temporal.{
  EntityTimes, find_activity_clusters, find_temporal_overlap, events_of,
}
use osint_platform_core.Correlation.Temporal.Sharing.{both_in, active_events}
use osint_platform_core.Correlation.Temporal.Clusters.{find_activity_clusters-both_in}
use osint_platform_core.Correlation.Temporal.Timeline.{
  IsTimeline, find_activity_clusters-IsTimeline,
}

abbrev rows : List EntityTimes
rows =
    record { id = 1; created_at = some 100; updated_at = some 500 }
    ∷ record { id = 2; created_at = some 130; updated_at = some 130 }
    ∷ record { id = 3; created_at = some 900; updated_at = none }
    ∷ []

clusters_example :
    find_activity_clusters (1 ∷ 2 ∷ 3 ∷ []) (some rows) 60
    ≡ record { entity_ids = 1 ∷ 2 ∷ []; start_time = 100; end_time = 130; activity_count = 2 } ∷ []
unfolding find_activity_clusters
clusters_example = refl

find_activity_clusters-both_in_example :
    both_in 1 2 (find_activity_clusters (1 ∷ 2 ∷ 3 ∷ []) (some rows) 60) ≡ true
unfolding events_of
find_activity_clusters-both_in_example =
    find_activity_clusters-both_in 60 1 100 2 130 (1 ∷ 2 ∷ 3 ∷ []) rows refl refl refl (omega arith)
      (omega arith)

find_activity_clusters-IsTimeline_example :
    IsTimeline 60
      (active_events (1 ∷ 2 ∷ 3 ∷ []) rows)
      (find_activity_clusters (1 ∷ 2 ∷ 3 ∷ []) (some rows) 60)
find_activity_clusters-IsTimeline_example =
    find_activity_clusters-IsTimeline 60 (1 ∷ 2 ∷ 3 ∷ []) rows

overlap_example : find_temporal_overlap (10 ∷ 50 ∷ []) (12 ∷ []) 5 ≡ record { part = 1; whole = 2 }
unfolding find_temporal_overlap
overlap_example = refl

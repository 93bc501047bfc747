-- ===== src/Correlation/Temporal/Steps.antt =====
-- backend/correlation/analyzers/temporal_analyzer.py: the state of the loop over the events, and what
-- a cluster holds when it is closed.
use osint_platform_core.Base.{
  ℕ, ◌+◌, ◌≤◌, ◌<◌, Bool, true, false, List, [], ◌∷◌, ◌++◌, ◌==◌, leb, ltb, max, any, nat_in,
  length, ◌&&◌, ◌||◌, ◌≡◌, refl, sym, ◌∙◌, All, All-map, All-append, any_of_append, any_congr,
  any_none, arith, Bool-cases, inl, inr,
}
use osint_platform_core.Base.Apart.{AreApart}
use osint_platform_core.Correlation.Temporal.{
  Event, TemporalCluster, Current, start_cluster, extend_cluster, close_cluster,
}

-- An event of the entity in a closed interval.
abbrev pub within : (id first last : ℕ) → Event → Bool
within id first last e = (e.entity_id == id) && (leb first e.time && leb e.time last)

pub record IsCluster (events : List Event) (c : TemporalCluster) : Type 0 where
  pub members : (id : ℕ) → nat_in id c.entity_ids ≡ any (within id c.start_time c.end_time) events
  pub distinct : AreApart ◌==◌ c.entity_ids
  pub counted : c.activity_count ≡ length c.entity_ids
  pub shared : 1 < c.activity_count
  pub ordered : c.start_time ≤ c.end_time

-- The clusters are in order, with more than the window between one and the next.
abbrev pub AreSeparated : ℕ → List TemporalCluster → Type 0
AreSeparated window [] = Unit
AreSeparated window (c ∷ cs) =
    All (λ d. c.end_time + window < d.start_time) cs × AreSeparated window cs

-- The state of the loop after some events.
pub record Invariant (before : List Event) (c : Current) : Type 0 where
  pub members : (id : ℕ) → nat_in id c.entities ≡ any (within id c.start c.end) before
  pub distinct : AreApart ◌==◌ c.entities
  pub ordered : c.start ≤ c.end
  pub latest : All (λ e. e.time ≤ c.end) before

nat_in-snoc : (id x : ℕ) (xs : List ℕ) → nat_in id (xs ++ x ∷ []) ≡ (nat_in id xs || (x == id))
nat_in-snoc id x xs = any_of_append (λ y. y == id) xs (x ∷ []) ∙ ground arith

nat_in_same : (id x : ℕ) (xs : List ℕ) → (x == id) ≡ true → nat_in x xs ≡ true → nat_in id xs ≡ true
nat_in_same id x [] e h = cc
nat_in_same id x (y ∷ ys) e h = ground (arith, h, e, nat_in_same id x ys e)

apart_snoc :
    (x : ℕ) (xs : List ℕ) → nat_in x xs ≡ false → AreApart ◌==◌ xs → AreApart ◌==◌ (xs ++ x ∷ [])
apart_snoc x [] h a = (tt, tt)
apart_snoc x (y ∷ ys) h a = (
  All-append (λ z. (y == z) ≡ false) ys (x ∷ []) a.0 (ground (arith, h), tt),
  apart_snoc x ys (ground (arith, h)) a.1,
)

nat_in-extended :
    (id : ℕ) (e : Event) (c : Current)
    → nat_in id (extend_cluster e c).entities ≡ (nat_in id c.entities || (e.entity_id == id))
unfolding extend_cluster
nat_in-extended id e c = elim (Bool-cases (nat_in e.entity_id c.entities)) [
  | inl old ↦ rw old (elim (Bool-cases (e.entity_id == id)) [
    | inl same ↦ rw (same, nat_in_same id e.entity_id c.entities same old) refl
    | inr other ↦ ground (arith, other)
  ])
  | inr new ↦ rw new (nat_in-snoc id e.entity_id c.entities)
]

distinct-extended :
    (e : Event) (c : Current)
    → AreApart ◌==◌ c.entities
    → AreApart ◌==◌ (extend_cluster e c).entities
unfolding extend_cluster
distinct-extended e c a = elim (Bool-cases (nat_in e.entity_id c.entities)) [
  | inl old ↦ rw old a
  | inr new ↦ rw new (apart_snoc e.entity_id c.entities new a)
]

within-later :
    (id first last t : ℕ) (before : List Event)
    → All (λ e. e.time ≤ last) before
    → last ≤ t
    → any (within id first t) before ≡ any (within id first last) before
within-later id first last t before h le =
    any_congr _ _ before (All-map before (λ e k. ground (arith, k, le)) h)

pub end-extended : (e : Event) (c : Current) → (extend_cluster e c).end ≡ max c.end e.time
unfolding extend_cluster
end-extended e c = refl

pub start-extended : (e : Event) (c : Current) → (extend_cluster e c).start ≡ c.start
unfolding extend_cluster
start-extended e c = refl

latest_snoc :
    (e : Event) (before : List Event) (c : Current)
    → c.end ≤ e.time
    → All (λ x. x.time ≤ c.end) before
    → All (λ x. x.time ≤ e.time) (before ++ e ∷ [])
latest_snoc e before c le h =
    All-append _ before (e ∷ []) (All-map before (λ x k. omega (arith, k, le)) h) (omega arith, tt)

any-within_snoc :
    (id first : ℕ) (e : Event) (before : List Event)
    → first ≤ e.time
    → any (within id first e.time) (before ++ e ∷ [])
      ≡ (any (within id first e.time) before || (e.entity_id == id))
any-within_snoc id first e before le =
    any_of_append (within id first e.time) before (e ∷ []) ∙ ground (arith, le)

pub extended :
    (e : Event) (before : List Event) (c : Current)
    → c.end ≤ e.time
    → Invariant before c
    → Invariant (before ++ e ∷ []) (extend_cluster e c)
extended e before c le inv =
    let last : (extend_cluster e c).end ≡ e.time = rw (end-extended e c) (omega arith) in
    let le' : c.start ≤ e.time = omega (arith, inv.ordered) in
    record {
      members = λ id.
          nat_in-extended id e c
          ∙ rw (last, start-extended e c)
              (rw (any-within_snoc id c.start e before le') (
                rw (within-later id c.start c.end e.time before inv.latest le, inv.members id)
                  refl));
      distinct = distinct-extended e c inv.distinct;
      ordered = rw (last, start-extended e c) le';
      latest = rw last (latest_snoc e before c le inv.latest);
    }

pub started :
    (e : Event) (before : List Event) (c : Current)
    → c.end < e.time
    → Invariant before c
    → Invariant (before ++ e ∷ []) (start_cluster e)
unfolding start_cluster
started e before c lt inv = record {
  members = λ id. sym (
      any-within_snoc id e.time e before (omega arith)
      ∙ rw
          (any_none (within id e.time e.time) before
            (All-map before (λ x h. ground (arith, h, lt)) inv.latest))
          (ground arith));
  distinct = (tt, tt);
  ordered = omega arith;
  latest = latest_snoc e before c (omega (arith, lt)) inv.latest;
}

-- A cluster that is closed keeps its members when later events follow.
pub closed :
    (before after : List Event) (c : Current)
    → All (λ e. c.end < e.time) after
    → Invariant before c
    → All (IsCluster (before ++ after)) (close_cluster c)
unfolding close_cluster
closed before after c later inv = elim (Bool-cases (ltb 1 (length c.entities))) [
  | inr small ↦ rw small tt
  | inl big ↦ rw big (
    record {
      members = λ id.
          inv.members id
          ∙ sym (
              any_of_append (within id c.start c.end) before after
              ∙ rw
                  (any_none (within id c.start c.end) after
                    (All-map after (λ e h. ground (arith, h)) later))
                  (ground arith));
      distinct = inv.distinct;
      counted = refl;
      shared = ground (arith, big);
      ordered = inv.ordered;
    },
    tt,
  )
]

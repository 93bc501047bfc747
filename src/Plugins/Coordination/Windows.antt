-- ===== src/Plugins/Coordination/Windows.antt =====
-- backend/plugins/modules/misinformation/detectors/coordination_detector.py: when posts are reported as
-- simultaneous.
use osint_platform_core.Base.{
  ℕ, zero, suc, ◌+◌, ◌-◌, ◌≤◌, ◌<◌, String, Bool, true, false, not, some, List, [], ◌∷◌, ◌++◌, leb,
  any, map, length, All, All-map, Bool-cases, inl, inr, ◌&&◌, ◌||◌, ◌≡◌, refl, ◌∙◌, ap, arith,
  is_nil,
}
use osint_platform_core.Base.Http.{ok}
use osint_platform_core.Base.Sort.{
  sort_by, insert_by, IsSorted, sort_by-IsSorted, length-sort_by, any-insert_by, any-sort_by,
}
use osint_platform_core.Correlation.Temporal.{distance}
use osint_platform_core.Plugins.Coordination.{
  Post, is_mixed, time_window, timestamps_of, parse_timestamps, take_group, group_loop,
  find_simultaneous,
}

-- Two times no further apart than the window.
abbrev pub near : ℕ → ℕ → Bool
near t u = leb (distance t u) time_window

abbrev pub has_near_pair : List ℕ → Bool
has_near_pair [] = false
has_near_pair (t ∷ ts) = any (near t) ts || has_near_pair ts

abbrev Sorted : List ℕ → Type 0
Sorted ts = IsSorted (λ t. t) ts

take_group-shorter : (first : ℕ) (ts : List ℕ) → length (take_group first ts).1 ≤ length ts
unfolding take_group
take_group-shorter first [] = omega arith
take_group-shorter first (t ∷ ts) = elim (Bool-cases (leb (t - first) time_window)) [
  | inl close ↦ rw close (let h = take_group-shorter first ts in omega (arith, h))
  | inr far ↦ rw far (omega arith)
]

take_group-Sorted : (first : ℕ) (ts : List ℕ) → Sorted ts → Sorted (take_group first ts).1
unfolding take_group
take_group-Sorted first [] s = tt
take_group-Sorted first (t ∷ ts) s = elim (Bool-cases (leb (t - first) time_window)) [
  | inl close ↦ rw close (take_group-Sorted first ts s.1)
  | inr far ↦ rw far s
]

-- In a sorted list, the group of a time is empty only if no later time is near it; then all are left.
take_group-alone :
    (first : ℕ) (ts : List ℕ)
    → Sorted (first ∷ ts)
    → is_nil (take_group first ts).0 ≡ true
    → (any (near first) ts ≡ false) × ((take_group first ts).1 ≡ ts)
unfolding take_group
take_group-alone first [] s h = (refl, refl)
take_group-alone first (t ∷ ts) s h = elim (Bool-cases (leb (t - first) time_window)) [
  | inl close ↦ let k : false ≡ true = rw close at h in cc
  | inr far ↦ rw far (
    none_near (t ∷ ts) ((ground (arith, far), All-map ts (λ u k. ground (arith, k, far)) s.1.0)),
    refl,
  )
]
  where
    none_near : (us : List ℕ) → All (λ u. first + time_window < u) us → any (near first) us ≡ false
    none_near [] k = refl
    none_near (u ∷ us) k = ground (arith, none_near us k.1, k.0)

take_group-near :
    (first : ℕ) (ts : List ℕ)
    → Sorted (first ∷ ts)
    → is_nil (take_group first ts).0 ≡ false
    → any (near first) ts ≡ true
unfolding take_group
take_group-near first [] s h = cc
take_group-near first (t ∷ ts) s h = elim (Bool-cases (leb (t - first) time_window)) [
  | inl close ↦ ground (arith, close, s.0.0)
  | inr far ↦ let k : true ≡ false = rw far at h in cc
]

not_nil {ℓ} : {A : Type ℓ} (xs : List A) (y : A) → is_nil (xs ++ y ∷ []) ≡ false
not_nil [] y = refl
not_nil (x ∷ xs) y = refl

near_comm : (t u : ℕ) → near t u ≡ near u t
near_comm t u = ground arith

-- The order of the times does not matter.
has_near_pair-insert_by :
    (t : ℕ) (ts : List ℕ)
    → has_near_pair (insert_by (λ x. x) t ts) ≡ (any (near t) ts || has_near_pair ts)
unfolding insert_by
has_near_pair-insert_by t [] = refl
has_near_pair-insert_by t (u ∷ us) = elim (Bool-cases (leb t u)) [
  | inl here ↦ rw here refl
  | inr later ↦ rw later (
      rw (any-insert_by (λ x. x) (near u) t us, near_comm u t, has_near_pair-insert_by t us)
        (swap (near t u) (any (near u) us) (any (near t) us) (has_near_pair us)))
]
  where
    swap : (a b c d : Bool) → ((a || b) || (c || d)) ≡ ((a || c) || (b || d))
    swap a b c d = ground arith

has_near_pair-sort_by : (ts : List ℕ) → has_near_pair (sort_by (λ x. x) ts) ≡ has_near_pair ts
unfolding sort_by
has_near_pair-sort_by [] = refl
has_near_pair-sort_by (t ∷ ts) =
    has_near_pair-insert_by t (sort_by (λ x. x) ts)
    ∙ rw (has_near_pair-sort_by ts, any-sort_by (λ x. x) (near t) ts) refl

module _ (isoformat : ℕ → String) where
  group_loop-ends :
      (fuel : ℕ) (ts : List ℕ) (groups : List (List String))
      → Sorted ts
      → length ts < fuel
      → (r : List (List String)) × (group_loop isoformat fuel ts groups ≡ some r)
        × (is_nil r ≡ (is_nil groups && not (has_near_pair ts)))
  unfolding group_loop
  group_loop-ends zero ts groups s h = absurd (omega arith)
  group_loop-ends (suc fuel) [] groups s h = (groups, refl, ground arith)
  group_loop-ends (suc fuel) (t ∷ ts) groups s h = elim (Bool-cases (is_nil (take_group t ts).0)) [
    | inl alone ↦
        let (far, rest) = take_group-alone t ts s alone in
        let (r, ended, sign) = group_loop-ends fuel ts groups s.1 (omega arith) in
        (r, rw alone (rw rest ended), sign ∙ rw far refl)
    | inr together ↦
        let shorter = take_group-shorter t ts in
        let group = map isoformat (t ∷ (take_group t ts).0) in
        let (r, ended, sign) =
          group_loop-ends fuel (take_group t ts).1 (groups ++ group ∷ [])
            (take_group-Sorted t ts s.1) (omega (arith, shorter)) in
        let found = take_group-near t ts s together in
        (r, rw together ended, sign ∙ rw (not_nil groups group, found) (ground arith))
  ]

  -- Where the times that can be read are all naive or all aware, they are sorted; with one unit of fuel
  -- more than there are timestamps the loop over them ends, and it reports a group exactly if two of
  -- the posts, in whatever order they are given, are no further apart than the window.
  pub find_simultaneous-near :
      (posts : List Post)
      → is_mixed posts ≡ false
      → (timestamps : List ℕ) × (groups : List (List String)) × (parse_timestamps posts
          ≡ ok timestamps)
        × (find_simultaneous isoformat (suc (length (timestamps_of posts))) timestamps
            ≡ some groups)
        × (is_nil groups ≡ not (has_near_pair (timestamps_of posts)))
  unfolding find_simultaneous parse_timestamps
  find_simultaneous-near posts pure_kind =
      let ts = timestamps_of posts in
      let (groups, ended, sign) =
        group_loop-ends (suc (length ts)) (sort_by (λ t. t) ts) [] (sort_by-IsSorted (λ t. t) ts)
          (rw (length-sort_by (λ t. t) ts) (omega arith)) in
      (
        sort_by (λ t. t) ts,
        groups,
        rw pure_kind refl,
        ended,
        sign ∙ ap not (has_near_pair-sort_by ts),
      )

-- ===== src/Api/Graph/Reach.antt =====
-- backend/api/v1/routes/graph.py: reachability in the graph, beside a round of `neighbourhood`.
use osint_platform_core.Base.{
  ℕ, suc, Bool, true, false, List, [], ◌∷◌, ◌==◌, ◌≡◌, refl, arith, ap, ◌∙◌, sym, any, keep,
  Bool-cases, inl, inr, ◌⊎◌, nat_in, ◌&&◌, ◌||◌, ==_iff, ==_refl,
}
use osint_platform_core.Ingestion.Store.{Entity, Relationship}
use osint_platform_core.Api.Graph.{Db, has, touches, get_entity_relationships, Reached}
use osint_platform_core.Api.Graph.Visits.{IsRound, ends, targets, any-join}

module _ (db : Db) where
  -- A relationship has both among its ends, and the second is an entity.
  abbrev pub joined : (a b : ℕ) → Bool
  joined a b = any (λ r. touches a r && touches b r) db.relationships

  abbrev pub adjacent : (a b : ℕ) → Bool
  adjacent a b = joined a b && has db.entities b

  -- The specification: `c` is reached from `a` by at most `depth` relationships, over entities.
  pub data Trail : (depth a c : ℕ) → Type 0 where
    stop : (depth a : ℕ) → Trail depth a a
    step : (depth a b c : ℕ) → adjacent a b ≡ true → Trail depth b c → Trail (suc depth) a c

any-keep_and {ℓ} :
    {A : Type ℓ} (p q : A → Bool) (xs : List A) → any p (keep q xs) ≡ any (λ x. q x && p x) xs
any-keep_and p q [] = refl
any-keep_and p q (x ∷ xs) = elim (Bool-cases (q x)) [
  | inl kept ↦ rw kept (ap (λ b. p x || b) (any-keep_and p q xs))
  | inr dropped ↦ rw dropped (any-keep_and p q xs)
]

ends_lem : (b : ℕ) (rs : List Relationship) → nat_in b (ends rs) ≡ any (touches b) rs
ends_lem b [] = refl
ends_lem b (r ∷ rs) = ground (arith, ends_lem b rs)

any-member :
    (q : ℕ → Bool) (a : ℕ) (ids : List ℕ) → nat_in a ids ≡ true → q a ≡ true → any q ids ≡ true
any-member q a [] h k = cc
any-member q a (x ∷ xs) h k = elim (Bool-cases (x == a)) [
  | inl here ↦ let e : x ≡ a = (==_iff x a).0 here in rw e (rw k refl)
  | inr there ↦ ground (arith, any-member q a xs (rw there at h) k)
]

any-elim :
    (q : ℕ → Bool) (ids : List ℕ)
    → any q ids ≡ true
    → (a : ℕ) × ((q a ≡ true) × (nat_in a ids ≡ true))
any-elim q [] h = absurd (cc)
any-elim q (x ∷ xs) h = elim (Bool-cases (q x)) [
  | inl here ↦ (x, (here, rw (==_refl x) refl))
  | inr there ↦
      let (a, (passes, member)) = any-elim q xs (rw there at h) in
      (a, (passes, ground (arith, member)))
]

module _ (db : Db) where
  relationships_lem :
      (a b : ℕ) → nat_in b (ends (get_entity_relationships "both" a db)) ≡ joined db a b
  unfolding get_entity_relationships
  relationships_lem a b =
      ends_lem b (keep (touches a) db.relationships)
      ∙ any-keep_and (touches b) (touches a) db.relationships

  -- The neighbours that a round visits are the ends of the relationships of the frontier.
  targets_lem : (b : ℕ) (ids : List ℕ) → nat_in b (targets db ids) ≡ any (λ a. joined db a b) ids
  targets_lem b [] = refl
  targets_lem b (a ∷ ids) =
      any-join b (ends (get_entity_relationships "both" a db)) (targets db ids)
      ∙ rw (relationships_lem a b, targets_lem b ids) refl

  pub weaken : (depth a c : ℕ) → Trail db depth a c → Trail db (suc depth) a c
  weaken _ _ _ (stop depth a) = stop (suc depth) a
  weaken _ _ _ (step depth a b c e p) = step (suc depth) a b c e (weaken depth b c p)

  -- Every neighbour of what is reached is reached, unless it is still to be visited.
  abbrev pub IsClosed : Reached → Type 0
  IsClosed s =
      (a b : ℕ)
      → has s.0 a ≡ true
      → nat_in a s.1 ≡ false
      → adjacent db a b ≡ true
      → has s.0 b ≡ true

  abbrev pub IsInside : Reached → Type 0
  IsInside s = (m : ℕ) → nat_in m s.1 ≡ true → has s.0 m ≡ true

  and_true : (a b : Bool) → a && b ≡ true → (a ≡ true) × (b ≡ true)
  and_true true b h = (refl, h)
  and_true false b h = absurd (cc)

  -- the neighbours of the frontier are reached in the round
  pub hit :
      (ids : List ℕ) (s s' : Reached) (a b : ℕ)
      → IsRound db (targets db ids) s s'
      → nat_in a ids ≡ true
      → adjacent db a b ≡ true
      → has s'.0 b ≡ true
  hit ids s s' a b r h e =
      let (j, there) = and_true (joined db a b) (has db.entities b) e in
      r.hits b (targets_lem b ids ∙ any-member (λ x. joined db x b) a ids h j) there

  pub round-IsClosed :
      (V : List Entity) (F : List ℕ) (s' : Reached)
      → IsRound db (targets db F) (V, []) s'
      → IsClosed (V, F)
      → IsClosed s'
  round-IsClosed V F s' r closed a b h old e = elim (r.new a h) [
    | inr fresh ↦ absurd (ground (arith, fresh, old))
    | inl before ↦ elim (Bool-cases (nat_in a F)) [
      | inl front ↦ hit F (V, []) s' a b r front e
      | inr back ↦ r.keeps b (closed a b before back e)
    ]
  ]

  -- What a round reaches was reached before it, or is next to the frontier.
  pub round_sound :
      (V : List Entity) (F : List ℕ) (s' : Reached) (c : ℕ)
      → IsRound db (targets db F) (V, []) s'
      → has s'.0 c ≡ true
      → (has V c ≡ true) ⊎ ((a : ℕ) × ((nat_in a F ≡ true) × (adjacent db a c ≡ true)))
  round_sound V F s' c r h = elim (r.sound c h) [
    | inl old ↦ inl old
    | inr (target, there) ↦
        let (a, (j, member)) = any-elim (λ x. joined db x c) F (sym (targets_lem c F) ∙ target) in
        inr (a, (member, rw j there))
  ]

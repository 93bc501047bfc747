-- ===== src/Api/Graph/Search.antt =====
-- backend/api/v1/routes/graph.py: the rounds of `neighbourhood`.
use osint_platform_core.Base.{
  ℕ, zero, suc, true, Option, some, List, [], ◌∷◌, ◌==◌, ◌≡◌, ◌↔◌, refl, arith, ◌∙◌, sym,
  Bool-cases, Option-cases, inl, inr, ◌⊎◌, nat_in, ==_iff,
}
use osint_platform_core.Base.Rows.{find-passes}
use osint_platform_core.Base.Apart.{AreApart}
use osint_platform_core.Base.Http.{ok}
use osint_platform_core.Storage.Queries.{get_by_id}
use osint_platform_core.Ingestion.Store.{Entity}
use osint_platform_core.Api.Graph.{
  Db, Graph, has, Walk, visit_frontier, rounds, if_any, restart, from_centre, neighbourhood,
}
use osint_platform_core.Api.Graph.Visits.{
  IsRound, same_id, targets, frontier-IsRound, find-any-none,
}
use osint_platform_core.Api.Graph.Reach.{
  Trail, stop, step, weaken, IsClosed, IsInside, hit, round-IsClosed, round_sound,
}

if_any_lem :
    (frontier : List ℕ) (stopped rest : Walk)
    → ((frontier ≡ []) × (if_any frontier stopped rest ≡ stopped))
      ⊎ (if_any frontier stopped rest ≡ rest)
if_any_lem [] stopped rest = inl (refl, refl)
if_any_lem (id ∷ ids) stopped rest = inr refl

module _ (db : Db) where
  -- Nothing leaves what is closed.
  closed-Trail :
      (V : List Entity) (depth a c : ℕ)
      → IsClosed db (V, [])
      → has V a ≡ true
      → Trail db depth a c
      → has V c ≡ true
  closed-Trail V _ _ _ closed h (stop depth a) = h
  closed-Trail V _ _ _ closed h (step depth a b c e p) =
      closed-Trail V depth b c closed (closed a b h refl e) p

  -- the walk after the next round
  abbrev next : List ℕ → Walk → Walk
  next frontier w = visit_frontier db frontier (restart db w)

  next-IsRound :
      (frontier : List ℕ) (w : Walk)
      → IsRound db (targets db frontier) (w.reached.0, []) (next frontier w).reached
  next-IsRound frontier w = frontier-IsRound db frontier (restart db w)

  -- The search stops after a round with no new neighbour, or goes on.
  rounds_lem :
      (depth : ℕ) (frontier : List ℕ) (w : Walk)
      → (((next frontier w).reached.1 ≡ []) × (rounds db (suc depth) frontier w ≡ next frontier w))
        ⊎ (rounds db (suc depth) frontier w
            ≡ rounds db depth (next frontier w).reached.1 (next frontier w))
  unfolding rounds
  rounds_lem depth frontier w = if_any_lem _ _ _

  rounds-keeps :
      (depth : ℕ) (frontier : List ℕ) (w : Walk) (a : ℕ)
      → has w.reached.0 a ≡ true
      → has (rounds db depth frontier w).reached.0 a ≡ true
  unfolding rounds
  rounds-keeps zero frontier w a h = h
  rounds-keeps (suc depth) frontier w a h =
      let kept = (next-IsRound frontier w).keeps a h in
      elim (rounds_lem depth frontier w) [
        | inl (over, e) ↦ rw e kept
        | inr e ↦ rw e (rounds-keeps depth _ (next frontier w) a kept)
      ]

  rounds_complete :
      (depth : ℕ) (frontier : List ℕ) (w : Walk) (a c : ℕ)
      → IsClosed db (w.reached.0, frontier)
      → has w.reached.0 a ≡ true
      → Trail db depth a c
      → has (rounds db depth frontier w).reached.0 c ≡ true
  rounds_complete _ frontier w _ _ closed h (stop depth a) = rounds-keeps depth frontier w a h
  rounds_complete _ frontier w _ _ closed h (step depth a b c e p) =
      let r = next-IsRound frontier w in
      let closed' = round-IsClosed db w.reached.0 frontier (next frontier w).reached r closed in
      let b-in = neighbour r in
      elim (rounds_lem depth frontier w) [
        | inl (over, same) ↦
            rw same (closed-Trail (next frontier w).reached.0 depth b c (rw over at closed') b-in p)
        | inr same ↦ rw same (rounds_complete depth _ (next frontier w) b c closed' b-in p)
      ]
    where
      neighbour :
          IsRound db (targets db frontier) (w.reached.0, []) (next frontier w).reached
          → has (next frontier w).reached.0 b ≡ true
      neighbour r = elim (Bool-cases (nat_in a frontier)) [
        | inl front ↦ hit db frontier (w.reached.0, []) (next frontier w).reached a b r front e
        | inr back ↦ r.keeps b (closed a b h back e)
      ]

  rounds_sound :
      (depth : ℕ) (frontier : List ℕ) (w : Walk) (c : ℕ)
      → IsInside db (w.reached.0, frontier)
      → has (rounds db depth frontier w).reached.0 c ≡ true
      → (a : ℕ) × ((has w.reached.0 a ≡ true) × Trail db depth a c)
  unfolding rounds
  rounds_sound zero frontier w c inside h = (c, (h, stop zero c))
  rounds_sound (suc depth) frontier w c inside h =
      let r = next-IsRound frontier w in
      elim (rounds_lem depth frontier w) [
        | inl (over, same) ↦ from_round r (stop depth c) (rw same at h)
        | inr same ↦
            let (b, (there, p)) =
              rounds_sound depth (next frontier w).reached.1 (next frontier w) c
                (r.inside (λ m k. absurd (cc))) (rw same at h) in
            from_round r p there
      ]
    where
      from_round :
          {b : ℕ}
          → IsRound db (targets db frontier) (w.reached.0, []) (next frontier w).reached
          → Trail db depth b c
          → has (next frontier w).reached.0 b ≡ true
          → (a : ℕ) × ((has w.reached.0 a ≡ true) × Trail db (suc depth) a c)
      from_round {b} r p there = elim (round_sound db w.reached.0 frontier _ b r there) [
        | inl old ↦ (b, (old, weaken db depth b c p))
        | inr (a, (front, e)) ↦ (a, (inside a front, step depth a b c e p))
      ]

  rounds-AreApart :
      (depth : ℕ) (frontier : List ℕ) (w : Walk)
      → AreApart same_id w.reached.0
      → AreApart same_id (rounds db depth frontier w).reached.0
  unfolding rounds
  rounds-AreApart zero frontier w h = h
  rounds-AreApart (suc depth) frontier w h =
      let kept = (next-IsRound frontier w).apart h in
      elim (rounds_lem depth frontier w) [
        | inl (over, e) ↦ rw e kept
        | inr e ↦ rw e (rounds-AreApart depth _ (next frontier w) kept)
      ]

  abbrev start : (entity_id : ℕ) → Entity → Walk
  start entity_id centre = record { reached = (centre ∷ [], []); visited_rels = [] }

  single : (e : Entity) (m : ℕ) → has (e ∷ []) m ≡ true → e.id ≡ m
  single e m h = ground (arith, h)

  start-IsClosed :
      (entity_id : ℕ) (centre : Entity)
      → centre.id ≡ entity_id
      → IsClosed db (centre ∷ [], entity_id ∷ [])
  start-IsClosed entity_id centre same a b h back e =
      let k = single centre a h in absurd (ground (arith, k, same, back))

  start_sound :
      (entity_id depth c : ℕ) (centre : Entity)
      → centre.id ≡ entity_id
      → has (rounds db depth (entity_id ∷ []) (start entity_id centre)).reached.0 c ≡ true
      → Trail db depth entity_id c
  start_sound entity_id depth c centre same h =
      let (a, (there, p)) =
        rounds_sound depth (entity_id ∷ []) (start entity_id centre) c
          (λ m k. ground (arith, k, same)) h in
      let e : a ≡ entity_id = sym (single centre a there) ∙ same in rw e at p

  from_centre-Trail :
      (entity_id depth : ℕ) (o : Option Entity) (centre : Entity)
      → o ≡ some centre
      → centre.id ≡ entity_id
      → (g : Graph) × ((from_centre db entity_id depth o ≡ ok g)
          × ((c : ℕ) → (has g.nodes c ≡ true) ↔ Trail db depth entity_id c)
          × AreApart same_id g.nodes)
  unfolding from_centre
  from_centre-Trail entity_id depth o centre found same =
      let w = rounds db depth (entity_id ∷ []) (start entity_id centre) in
      (
        record { nodes = w.reached.0; edges = w.visited_rels },
        (
          rw found refl,
          (λ c. (
            start_sound entity_id depth c centre same,
            rounds_complete depth (entity_id ∷ []) (start entity_id centre) entity_id c
                (start-IsClosed entity_id centre same) (ground (arith, same)),
          )),
          rounds-AreApart depth (entity_id ∷ []) (start entity_id centre) (tt, tt),
        ),
      )

-- For an entity of the table and any depth, the handler answers a graph; an identifier is that of
-- a node of it exactly if it is reached from the centre over at most `depth` relationships, in
-- either direction and through entities of the table only; and no two nodes are the same entity.
pub neighbourhood-Trail :
    (db : Db) (entity_id depth : ℕ)
    → has db.entities entity_id ≡ true
    → (g : Graph) × ((neighbourhood db entity_id depth ≡ ok g)
        × ((c : ℕ) → (has g.nodes c ≡ true) ↔ Trail db depth entity_id c)
        × AreApart same_id g.nodes)
unfolding neighbourhood get_by_id
neighbourhood-Trail db entity_id depth h =
    elim (Option-cases (get_by_id (λ e. e.id) entity_id db.entities)) [
      | inl absent ↦
          absurd (ground (arith, h, find-any-none (λ e. e.id == entity_id) db.entities absent))
      | inr (centre, present) ↦ from_centre-Trail db entity_id depth _ centre present (
          (==_iff centre.id entity_id).0
            (find-passes (λ e. e.id == entity_id) db.entities centre present))
    ]

-- ===== src/Api/Graph/Visits.antt =====
-- backend/api/v1/routes/graph.py: one round of `neighbourhood`.
use osint_platform_core.Base.{
  ℕ, Bool, true, false, none, List, [], ◌∷◌, ◌++◌, ◌==◌, ◌≡◌, refl, arith, sym, any, keep,
  Bool-cases, Option-cases, inl, inr, ◌⊎◌, nat_in, any-append, ◌||◌, ==_iff,
}
use osint_platform_core.Base.Rows.{find, find-passes, find-any}
use osint_platform_core.Base.Apart.{AreApart, AreApart-append}
use osint_platform_core.Storage.Queries.{get_by_id}
use osint_platform_core.Ingestion.Store.{Entity, Relationship}
use osint_platform_core.Api.Graph.{
  Db, has, get_entity_relationships, Reached, visit, Walk, visit_relationship, visit_relationships,
  visit_frontier,
}

-- What one visit does, by cases.
data Visit (db : Db) (n : ℕ) : Reached → Reached → Type 0 where
  known : (V : List Entity) → (F : List ℕ) → has V n ≡ true → Visit db n (V, F) (V, F)
  missing : (V : List Entity) → (F : List ℕ) → has db.entities n ≡ false → Visit db n (V, F) (V, F)
  found :
      (V : List Entity)
      → (F : List ℕ) → (e : Entity) → has V n ≡ false
      → has db.entities n ≡ true
      → e.id ≡ n
      → Visit db n (V, F) (V ++ e ∷ [], F ++ n ∷ [])

pub find-any-none : {A : Type 0} (p : A → Bool) (xs : List A) → find p xs ≡ none → any p xs ≡ false
find-any-none p [] h = refl
find-any-none p (x ∷ xs) h = ground (arith, find-any-none p xs)

visit-Visit : (db : Db) (n : ℕ) (s : Reached) → Visit db n s (visit db n s)
unfolding visit get_by_id
visit-Visit db n (V, F) = elim (Bool-cases (has V n)) [
  | inl here ↦ rw here (known V F here)
  | inr new ↦ elim (Option-cases (find (λ e. e.id == n) db.entities)) [
    | inl absent ↦ rw new (rw absent (missing V F (find-any-none _ db.entities absent)))
    | inr (e, present) ↦ rw new (
        rw present (
          found V F e new (find-any _ db.entities e present)
            ((==_iff e.id n).0 (find-passes _ db.entities e present))))
  ]
]

abbrev pub same_id : Entity → Entity → Bool
same_id a b = a.id == b.id

-- What a round that visits the neighbours `ns` does to what is reached.
pub record IsRound (db : Db) (ns : List ℕ) (s s' : Reached) : Type 0 where
  pub keeps : (m : ℕ) → has s.0 m ≡ true → has s'.0 m ≡ true
  pub hits : (m : ℕ) → nat_in m ns ≡ true → has db.entities m ≡ true → has s'.0 m ≡ true
  pub sound :
      (m : ℕ)
      → has s'.0 m ≡ true
      → (has s.0 m ≡ true) ⊎ ((nat_in m ns ≡ true) × (has db.entities m ≡ true))
  pub new : (m : ℕ) → has s'.0 m ≡ true → (has s.0 m ≡ true) ⊎ (nat_in m s'.1 ≡ true)
  pub nexts : (m : ℕ) → nat_in m s.1 ≡ true → nat_in m s'.1 ≡ true
  pub inside :
      ((m : ℕ) → nat_in m s.1 ≡ true → has s.0 m ≡ true)
      → (m : ℕ) → nat_in m s'.1 ≡ true
      → has s'.0 m ≡ true
  pub apart : AreApart same_id s.0 → AreApart same_id s'.0

any-snoc {ℓ} :
    {A : Type ℓ} (p : A → Bool) (xs : List A) (x : A) → any p (xs ++ x ∷ []) ≡ any p xs || p x
any-snoc p [] x = ground arith
any-snoc p (y ∷ ys) x = ground (arith, any-snoc p ys x)

or_cases : (a b : Bool) → a || b ≡ true → (a ≡ true) ⊎ (b ≡ true)
or_cases true b h = inl refl
or_cases false b h = inr h

stays-IsRound :
    (db : Db) (n : ℕ) (s : Reached)
    → (has db.entities n ≡ true → has s.0 n ≡ true)
    → IsRound db (n ∷ []) s s
stays-IsRound db n s present = record {
  keeps = λ m h. h;
  hits = λ m here there.
      let e : n ≡ m = ground (arith, here) in rw e at (present (rw (sym e) at there));
  sound = λ m h. inl h;
  new = λ m h. inl h;
  nexts = λ m h. h;
  inside = λ f. f;
  apart = λ a. a;
}

has-snoc :
    (V : List Entity) (e : Entity) (m : ℕ)
    → has (V ++ e ∷ []) m ≡ true
    → (has V m ≡ true) ⊎ ((e.id == m) ≡ true)
has-snoc V e m h = or_cases (has V m) (e.id == m) (rw (any-snoc (λ x. x.id == m) V e) at h)

keep-none : {A : Type 0} (p : A → Bool) (xs : List A) → any p xs ≡ false → keep p xs ≡ []
keep-none p [] h = refl
keep-none p (x ∷ xs) h = ground (arith, keep-none p xs)

Visit-IsRound : (db : Db) (n : ℕ) (s s' : Reached) → Visit db n s s' → IsRound db (n ∷ []) s s'
Visit-IsRound db n _ _ (known V F here) = stays-IsRound db n (V, F) (λ h. here)
Visit-IsRound db n _ _ (missing V F absent) =
    stays-IsRound db n (V, F) (λ h. absurd (ground (arith, h, absent)))
Visit-IsRound db n _ _ (found V F e unseen there same) = record {
  keeps = λ m h. any-append (λ x. x.id == m) V (e ∷ []) h;
  hits = λ m here exists. rw (any-snoc (λ x. x.id == m) V e) (ground (arith, here, same));
  sound = λ m h. elim (has-snoc V e m h) [
    | inl old ↦ inl old
    | inr this ↦
        let k : n ≡ m = ground (arith, this, same) in inr (ground (arith, k), rw k at there)
  ];
  new = λ m h. elim (has-snoc V e m h) [
    | inl old ↦ inl old
    | inr this ↦ inr (rw (any-snoc (λ x. x == m) F n) (ground (arith, this, same)))
  ];
  nexts = λ m h. any-append (λ x. x == m) F (n ∷ []) h;
  inside = λ f m h.
      rw (any-snoc (λ x. x.id == m) V e)
        (elim (or_cases (nat_in m F) (n == m) (rw (any-snoc (λ x. x == m) F n) at h)) [
          | inl old ↦ rw (f m old) refl
          | inr this ↦ ground (arith, this, same)
        ]);
  apart = AreApart-append same_id (λ x. x.id == n) e (λ y h. rw same h) V (keep-none _ V unseen);
}

pub any-join : (m : ℕ) (ns ms : List ℕ) → nat_in m (ns ++ ms) ≡ nat_in m ns || nat_in m ms
any-join m [] ms = refl
any-join m (n ∷ ns) ms = ground (arith, any-join m ns ms)

-- Two rounds after one another.
append-IsRound :
    (db : Db) (ns ms : List ℕ) (s t u : Reached)
    → IsRound db ns s t
    → IsRound db ms t u
    → IsRound db (ns ++ ms) s u
append-IsRound db ns ms s t u p q = record {
  keeps = λ m h. q.keeps m (p.keeps m h);
  hits = λ m h there. elim (or_cases (nat_in m ns) (nat_in m ms) (rw (any-join m ns ms) at h)) [
    | inl first ↦ q.keeps m (p.hits m first there)
    | inr second ↦ q.hits m second there
  ];
  sound = λ m h. elim (q.sound m h) [
    | inr (second, there) ↦ inr (rw (any-join m ns ms) (ground (arith, second)), there)
    | inl before ↦ elim (p.sound m before) [
      | inl old ↦ inl old
      | inr (first, there) ↦ inr (rw (any-join m ns ms) (ground (arith, first)), there)
    ]
  ];
  new = λ m h. elim (q.new m h) [
    | inr fresh ↦ inr fresh
    | inl before ↦ elim (p.new m before) [ inl old ↦ inl old | inr fresh ↦ inr (q.nexts m fresh) ]
  ];
  nexts = λ m h. q.nexts m (p.nexts m h);
  inside = λ f. q.inside (p.inside f);
  apart = λ a. q.apart (p.apart a);
}

nil-IsRound : (db : Db) (s : Reached) → IsRound db [] s s
nil-IsRound db s = record {
  keeps = λ m h. h;
  hits = λ m h there. absurd (cc);
  sound = λ m h. inl h;
  new = λ m h. inl h;
  nexts = λ m h. h;
  inside = λ f. f;
  apart = λ a. a;
}

-- The neighbours that a round visits.
abbrev pub ends : List Relationship → List ℕ
ends [] = []
ends (r ∷ rs) = (r.source_entity_id ∷ []) ++ (r.target_entity_id ∷ []) ++ ends rs

module _ (db : Db) where
  abbrev pub targets : List ℕ → List ℕ
  targets [] = []
  targets (id ∷ ids) = ends (get_entity_relationships "both" id db) ++ targets ids

  relationships-IsRound :
      (rs : List Relationship) (w : Walk)
      → IsRound db (ends rs) w.reached (visit_relationships db rs w).reached
  unfolding visit_relationships visit_relationship
  relationships-IsRound [] w = nil-IsRound db w.reached
  relationships-IsRound (r ∷ rs) w =
      let s = w.reached in
      let t = visit db r.source_entity_id s in
      let u = visit db r.target_entity_id t in
      append-IsRound db (r.source_entity_id ∷ []) _ s t _
        (Visit-IsRound db r.source_entity_id s t (visit-Visit db r.source_entity_id s))
        (append-IsRound db (r.target_entity_id ∷ []) (ends rs) t u _
          (Visit-IsRound db r.target_entity_id t u (visit-Visit db r.target_entity_id t))
          (relationships-IsRound rs _))

  -- A round visits the ends of the relationships of the frontier.
  pub frontier-IsRound :
      (ids : List ℕ) (w : Walk)
      → IsRound db (targets ids) w.reached (visit_frontier db ids w).reached
  unfolding visit_frontier
  frontier-IsRound [] w = nil-IsRound db w.reached
  frontier-IsRound (id ∷ ids) w =
      append-IsRound db (ends (get_entity_relationships "both" id db)) (targets ids) w.reached _ _
        (relationships-IsRound (get_entity_relationships "both" id db) w)
        (frontier-IsRound ids (visit_relationships db (get_entity_relationships "both" id db) w))

-- ===== src/Api/Cases/Listing.antt =====
-- backend/api/v1/routes/cases.py: `list_case_entities` and `list_cases`.
use osint_platform_core.Base.{
  ℕ, suc, String, Bool, true, false, Option, none, some, List, [], ◌∷◌, ◌≡◌, refl, ap, sym, ◌∙◌,
  ◌==◌, any, keep, length, length-take, min, Option-cases, ◌⊎◌, inl, inr, ◌&&◌,
}
use osint_platform_core.Base.Http.{Outcome, ok, http_exception, unhandled, traverse, cons_outcome}
use osint_platform_core.Storage.Queries.{Page, get_all, get_by_id, paginate}
use osint_platform_core.Api.Cases.Rows.{Case, Db, CaseResponse, response_by, from_orm_model}
use osint_platform_core.Api.Cases.{found_or_404, is_match, list_response, list_cases}
use osint_platform_core.Api.Cases.Entities.{CaseEntityResponse, list_case_entities}

cons-length {ℓ} :
    {B : Type ℓ} (o : Outcome B) (os : Outcome (List B)) (ys : List B) (n : ℕ)
    → ((zs : List B) → os ≡ ok zs → length zs ≡ n)
    → cons_outcome o os ≡ ok ys
    → length ys ≡ suc n
cons-length (ok y) (ok zs) ys n f h =
    let e : ok (y ∷ zs) ≡ ok ys = h in
    let g : y ∷ zs ≡ ys = cc in ap length (sym g) ∙ ap suc (f zs refl)
cons-length (ok y) (http_exception code detail) ys n f h = absurd (cc)
cons-length (ok y) (unhandled error) ys n f h = absurd (cc)
cons-length (http_exception code detail) os ys n f h = absurd (cc)
cons-length (unhandled error) os ys n f h = absurd (cc)

traverse-length {ℓ} :
    {A B : Type ℓ} (f : A → Outcome B) (xs : List A) (ys : List B)
    → traverse f xs ≡ ok ys
    → length ys ≡ length xs
unfolding traverse
traverse-length f [] ys h = let g : [] ≡ ys = cc in ap length (sym g)
traverse-length f (x ∷ xs) ys h =
    cons-length (f x) (traverse f xs) ys (length xs) (λ zs k. traverse-length f xs zs k) h

-- The listing of the entities of a case, if it is answered, stops after 100: the query has a default limit, and the
-- handler passes no other.
pub list_case_entities-length :
    (case_id : ℕ) (db : Db) (rs : List CaseEntityResponse)
    → (list_case_entities case_id db).0 ≡ ok rs
    → length rs ≡ min 100 (length (keep (λ ce. ce.case_id == case_id) db.case_entities))
unfolding list_case_entities found_or_404 get_all
list_case_entities-length case_id db rs h =
    elim (Option-cases (get_by_id (λ c. c.id) case_id db.cases)) [
      | inl absent ↦
          let k : http_exception 404 "Case not found" ≡ ok rs = rw absent at h in absurd (cc)
      | inr (c, present) ↦
          traverse-length _ _ rs (rw present at h)
          ∙ length-take 100 (keep (λ ce. ce.case_id == case_id) db.case_entities)
    ]

-- a case whose creator was deleted, so that the column is null
abbrev pub is_orphan : Case → Bool
is_orphan c = elim c.created_by [ none ↦ true | some user_id ↦ false ]

response-cases :
    (c : Case)
    → ((is_orphan c ≡ true) × (from_orm_model c ≡ unhandled "ValidationError"))
      ⊎ ((r : CaseResponse) × ((is_orphan c ≡ false) × (from_orm_model c ≡ ok r)))
unfolding from_orm_model
response-cases c = elim (Option-cases c.created_by) [
  | inl absent ↦ inl (rw absent (refl, refl))
  | inr (user_id, present) ↦ inr (response_by c user_id, rw present (refl, refl))
]

traverse-orphan :
    (cs : List Case)
    → any is_orphan cs ≡ true
    → traverse from_orm_model cs ≡ unhandled "ValidationError"
unfolding traverse
traverse-orphan [] h = cc
traverse-orphan (c ∷ cs) h = elim (response-cases c) [
  | inl (orphan, error) ↦ rw error refl
  | inr (r, (owned, response)) ↦ rw response (rw (traverse-orphan cs (rw owned at h)) refl)
]

abbrev pub page_rows :
    (page page_size : ℕ) → (status priority : Option String) → Db → Outcome (Page Case)
page_rows page page_size status priority db =
    paginate page page_size (λ c. is_match status c.status && is_match priority c.priority) db.cases

-- A page of the listing that has one case whose creator is gone is answered with an error, a
-- `ValidationError` of the response, whatever the other cases of the page are.
pub list_cases-is_orphan :
    (page page_size : ℕ) (status priority : Option String) (db : Db) (p : Page Case)
    → page_rows page page_size status priority db ≡ ok p
    → any is_orphan p.items ≡ true
    → (list_cases page page_size status priority db).0 ≡ unhandled "ValidationError"
unfolding list_cases list_response
list_cases-is_orphan page page_size status priority db p h orphan =
    rw h (rw (traverse-orphan p.items orphan) refl)

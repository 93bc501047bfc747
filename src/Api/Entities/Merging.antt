-- ===== src/Api/Entities/Merging.antt =====
-- backend/api/v1/routes/entities.py: `merge_entities`, entity by entity.
use osint_platform_core.Base.{
  ℕ, Bool, true, false, Option, some, List, [], ◌∷◌, ◌==◌, ◌≡◌, refl, arith, ap, sym, ◌∙◌, nat_in,
  not, map, Bool-cases, inl, inr, if◌then◌else◌, ◌&&◌,
}
use osint_platform_core.Base.Rows.{update}
use osint_platform_core.Storage.Queries.{get_by_id, update_record}
use osint_platform_core.Ingestion.Store.{Entity}
use osint_platform_core.Api.Entities.{Db, point_at, merge_loop, merge_found, merge_entities}

-- The specification of a merge: the duplicates other than the canonical entity point at it.
abbrev pub merged : (canonical : ℕ) → (duplicates : List ℕ) → Entity → Entity
merged canonical duplicates e =
    if nat_in e.id duplicates && not (e.id == canonical) then point_at canonical e else e

merged-step :
    (canonical d : ℕ) (ds : List ℕ) (e : Entity)
    → (d == canonical) ≡ false
    → merged canonical ds (if e.id == d then point_at canonical e else e)
      ≡ merged canonical (d ∷ ds) e
merged-step canonical d ds e other = ground arith

merged-skip :
    (canonical d : ℕ) (ds : List ℕ) (e : Entity)
    → (d == canonical) ≡ true
    → merged canonical ds e ≡ merged canonical (d ∷ ds) e
merged-skip canonical d ds e same = ground arith

map-ext :
    (f g : Entity → Entity) (es : List Entity) → ((e : Entity) → f e ≡ g e) → map f es ≡ map g es
map-ext f g [] h = refl
map-ext f g (e ∷ es) h = rw (h e, map-ext f g es h) refl

map-update :
    (f g mark : Entity → Entity) (q : Entity → Bool) (es : List Entity)
    → ((e : Entity) → f (if q e then mark e else e) ≡ g e)
    → map f (update q mark es) ≡ map g es
map-update f g mark q [] h = refl
map-update f g mark q (e ∷ es) h = rw (h e, map-update f g mark q es h) refl

map_same : (canonical : ℕ) (es : List Entity) → map (merged canonical []) es ≡ es
map_same canonical [] = refl
map_same canonical (e ∷ es) = ap (λ rest. e ∷ rest) (map_same canonical es)

pub merge_loop-map :
    (canonical : ℕ) (ds : List ℕ) (rows : List Entity)
    → (merge_loop canonical ds rows).1 ≡ map (merged canonical ds) rows
unfolding merge_loop update_record
merge_loop-map canonical [] rows = sym (map_same canonical rows)
merge_loop-map canonical (d ∷ ds) rows = elim (Bool-cases (d == canonical)) [
  | inl same ↦
      rw same (
        merge_loop-map canonical ds rows
        ∙ map-ext _ _ rows (λ e. merged-skip canonical d ds e same))
  | inr other ↦ rw other (
      merge_loop-map canonical ds (update (λ e. e.id == d) (point_at canonical) rows)
      ∙ map-update _ _ (point_at canonical) (λ e. e.id == d) rows
          (λ e. merged-step canonical d ds e other))
]

found-map :
    (canonical : ℕ) (ds : List ℕ) (o : Option Entity) (c : Entity) (db : Db)
    → o ≡ some c
    → (merge_found canonical ds o db).1
      ≡ (record db { entities = map (merged canonical ds) db.entities })
unfolding merge_found
found-map canonical ds o c db h = rw h (rw (merge_loop-map canonical ds db.entities) refl)

-- A merge into an entity that there is makes every listed duplicate other than that entity
-- non-canonical and points it at the entity, and changes nothing else: no other entity, no other
-- field, no relationship, in particular none of a duplicate and no pointer at a duplicate.
pub merge_entities-map :
    (canonical : ℕ) (duplicates : List ℕ) (c : Entity) (db : Db)
    → get_by_id (λ e. e.id) canonical db.entities ≡ some c
    → (merge_entities canonical duplicates db).1
      ≡ (record db { entities = map (merged canonical duplicates) db.entities })
unfolding merge_entities
merge_entities-map canonical duplicates c db h = found-map canonical duplicates _ c db h

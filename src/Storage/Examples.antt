-- ===== src/Storage/Examples.antt =====
-- The theorems about backend/storage/ at concrete inputs.
use mathlib.Core.List.{Permᴰ}
use mathlib.Core.List.Permᴰ as Perm
use osint_platform_core.Base.{
  ℕ, ltb, List, [], ◌∷◌, ◌==◌, ◌≡◌, refl, arith, length, if◌then◌else◌, Bool-cases, inl, inr,
}
use osint_platform_core.Storage.Queries.{paginate, count_records}
use osint_platform_core.Storage.Queries.Pages.{first_pages, pages_of, paginate-first_pages}

abbrev rows : List ℕ
rows = 3 ∷ 8 ∷ 5 ∷ 9 ∷ 7 ∷ []

-- The order of the rows changes from one call to the next.
abbrev listing : ℕ → List ℕ
listing n = if n == 2 then 8 ∷ 3 ∷ 5 ∷ 9 ∷ 7 ∷ [] else rows

lists : (n : ℕ) → Permᴰ (listing n) rows
lists n = elim (Bool-cases (n == 2)) [
  | inl changed ↦ rw changed (Permᴰ.swap refl refl)
  | inr same ↦ rw same (Perm.refl rows)
]

paginate-first_pages_example :
    length (first_pages 2 (ltb 2) listing (pages_of (paginate 1 2 (ltb 2) (listing 2))))
    ≡ count_records (ltb 2) rows
paginate-first_pages_example = paginate-first_pages 2 (ltb 2) listing rows lists 1 2 (omega arith)

-- ===== src/Storage/Queries/Pages.antt =====
-- backend/storage/database/postgres/queries.py: the pages of a listing by `paginate`.
use native.Mathlib.Nat.{lt-div-mul-add, le_trans, mul-le-mul_right}
use mathlib.Core.List.{Permᴰ}
use mathlib.Core.List.Permᴰ.{nil, cons, swap, trans}
use osint_platform_core.Base.{
  ℕ, zero, suc, ◌+◌, ◌-◌, ◌*◌, ◌/◌, ◌≤◌, ◌<◌, Bool, false, List, [], ◌∷◌, ◌++◌, ap, length-append,
  if◌then◌else◌, Bool-cases, inl, inr, ◌≡◌, refl, arith, ◌∙◌, ◌==◌, ltb, keep, take, drop, length,
  length-take, length-drop, max, min,
}
use osint_platform_core.Base.Http.{Outcome, ok}
use osint_platform_core.Storage.Queries.{Page, get_all, count_records, paginate}

module _ {A : Type 0} where
  abbrev pub items_of : Outcome (Page A) → List A
  items_of (ok p) = p.items
  items_of _ = []

  abbrev pub pages_of : Outcome (Page A) → ℕ
  pages_of (ok p) = p.pages
  pages_of _ = 0

-- `pages` is enough pages for `total` rows
pages-enough : (total size : ℕ) → 0 < size → total ≤ max 1 ((total + size - 1) / size) * size
pages-enough total size h =
    let q = (total + size - 1) / size in
    let enough : total ≤ q * size =
      omega (arith, lt-div-mul-add {a = total + size - 1} {b = size} h) in
    le_trans enough (mul-le-mul_right size (omega arith))

module _ {A : Type 0} where
  count : (filters : A → Bool) → A → ℕ
  count filters x = if filters x then 1 else 0

  length-keep :
      (filters : A → Bool) (x : A) (xs : List A)
      → length (keep filters (x ∷ xs)) ≡ count filters x + length (keep filters xs)
  unfolding count
  length-keep filters x xs = elim (Bool-cases (filters x)) [
    | inl kept ↦ rw kept (omega arith)
    | inr dropped ↦ rw dropped (omega arith)
  ]

  -- The number of rows that pass the filters is the same in every order.
  length-keep-Perm :
      (filters : A → Bool) (xs ys : List A)
      → Permᴰ xs ys
      → length (keep filters xs) ≡ length (keep filters ys)
  length-keep-Perm filters xs ys nil = refl
  length-keep-Perm filters xs ys (cons {a} {b} {l₁} {l₂} e p) =
      let same : count filters a ≡ count filters b = ap (count filters) e in
      omega (
        arith,
        length-keep filters a l₁,
        length-keep filters b l₂,
        same,
        length-keep-Perm filters l₁ l₂ p,
      )
  length-keep-Perm filters xs ys (swap {a} {b} {a'} {b'} {l} e f) = omega (
    arith,
    length-keep filters a (b ∷ l),
    length-keep filters b l,
    length-keep filters a' (b' ∷ l),
    length-keep filters b' l,
    ap (count filters) e,
    ap (count filters) f,
  )
  length-keep-Perm filters xs ys (trans {l₂ = l₂} p q) =
      length-keep-Perm filters xs l₂ p ∙ length-keep-Perm filters l₂ ys q

module _ {A : Type 0} (page_size : ℕ) (filters : A → Bool) (listing : ℕ → List A) where
  -- The items of the pages 1 to `n`, one after the other; the database lists the rows for page `k` in
  -- the order of `listing k`.
  unfoldable pub first_pages : (n : ℕ) → List A
  first_pages zero = []
  first_pages (suc n) =
      first_pages n ++ items_of (paginate (suc n) page_size filters (listing (suc n)))

  page-items :
      (n : ℕ) (rows : List A)
      → 0 < page_size
      → items_of (paginate (suc n) page_size filters rows)
        ≡ take page_size (drop (n * page_size) (keep filters rows))
  unfolding paginate get_all
  page-items n rows h =
      let e : ltb (suc n) 1 ≡ false = ground arith in
      let f : (page_size == 0) ≡ false = ground arith in
      let g : suc n - 1 ≡ n = omega arith in rw (e, f) (rw g refl)

  paginate-pages :
      (page : ℕ) (rows : List A)
      → 0 < page_size
      → pages_of (paginate page page_size filters rows)
        ≡ max 1 ((length (keep filters rows) + page_size - 1) / page_size)
  unfolding paginate count_records
  paginate-pages page rows h = let f : (page_size == 0) ≡ false = ground arith in rw f refl

  -- With a page size that is not 0, page `n + 1` has `page_size` items as long as there are rows
  -- left, then what is left: none beyond the last page.
  pub paginate-length :
      (n : ℕ) (rows : List A)
      → 0 < page_size
      → length (items_of (paginate (suc n) page_size filters rows))
        ≡ min page_size (count_records filters rows - n * page_size)
  unfolding count_records
  paginate-length n rows h = rw (page-items n rows h) (
      omega (
        arith,
        length-take page_size (drop (n * page_size) (keep filters rows)),
        length-drop (n * page_size) (keep filters rows),
      ))

  module _ (rows : List A) (lists : (n : ℕ) → Permᴰ (listing n) rows) where
    same_total : (n : ℕ) → count_records filters (listing n) ≡ count_records filters rows
    unfolding count_records
    same_total n = length-keep-Perm filters (listing n) rows (lists n)

    length-first_pages :
        (n : ℕ)
        → 0 < page_size
        → length (first_pages n) ≡ min (n * page_size) (count_records filters rows)
    unfolding first_pages
    length-first_pages zero h = let e : 0 * page_size ≡ 0 = omega arith in rw e (omega arith)
    length-first_pages (suc n) h =
        let e : suc n * page_size ≡ n * page_size + page_size = omega arith in
        let page = items_of (paginate (suc n) page_size filters (listing (suc n))) in
        rw e (
          omega (
            arith,
            length-append (first_pages n) page,
            length-first_pages n h,
            paginate-length n (listing (suc n)) h,
            same_total (suc n),
          ))

    -- With a page size that is not 0, and in whatever order the database lists the rows at each call,
    -- which has no ORDER BY: the pages 1 to `pages` have together as many items as there are rows that
    -- pass the filters, and whichever page is asked for, it reports that number of pages. Which rows
    -- these are is left open: where the order changes, one may come twice and another not at all.
    pub paginate-first_pages :
        (page call : ℕ)
        → 0 < page_size
        → length (first_pages (pages_of (paginate page page_size filters (listing call))))
          ≡ count_records filters rows
    unfolding count_records
    paginate-first_pages page call h =
        let total = length-keep-Perm filters (listing call) rows (lists call) in
        rw (paginate-pages page (listing call) h, total)
          (omega (
            arith,
            length-first_pages (max 1 ((length (keep filters rows) + page_size - 1) / page_size)) h,
            pages-enough (length (keep filters rows)) page_size h,
          ))

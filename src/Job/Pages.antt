-- ===== src/Job/Pages.antt =====
-- What a page of jobs holds: which jobs, in which order, how many, and when the call panics.
use aurora_old.Base.{
  ℕ, zero, suc, eq_iff, true, false, ◌&&◌, Option, none, some, List, [], ◌∷◌, ◌≡◌, ◌≢◌, refl, sym,
  arith, inl, inr, Bool-cases, ok, err, keep, map, All, All-keep, All-take, All-drop, length, take,
  drop, length-take,
}
use aurora_old.Base.Int.{
  ℤ, pos, pos_part, ◌+ℤ◌, ◌-ℤ◌, ◌≤ℤ◌, ◌<ℤ◌, leb_ℤ, ltb_ℤ, int64-le, sub-le, +ℤ_parts,
}
use aurora_old.Identity.Subject.{Subject, is_superadmin}
use aurora_old.Job.Types.{slice_panic, Job, JobFilter}
use aurora_old.Job.Store.{JobStore}
use aurora_old.Job.Listing.{
  passes, insert_newest, sort_newest, slice, page_end, page, matching, page_result, list_jobs,
}
use aurora_old.Job.World.{World}
use aurora_old.Job.Engine.{list_visible}

-- Each job is at least as new as the next.
abbrev pub IsNewestFirst : List Job → Type 0
IsNewestFirst [] = Unit
IsNewestFirst (x ∷ []) = Unit
IsNewestFirst (x ∷ y ∷ l) = (y.created_at ≤ℤ x.created_at) × IsNewestFirst (y ∷ l)

insert_newest-sorted :
    (j : Job) (l : List Job) → IsNewestFirst l → IsNewestFirst (insert_newest j l)
unfolding insert_newest
insert_newest-sorted j [] h = tt
insert_newest-sorted j (x ∷ []) h = ground arith
insert_newest-sorted j (x ∷ y ∷ l) h = ground (arith, insert_newest-sorted j (y ∷ l) h.1)

sort_newest-sorted : (l : List Job) → IsNewestFirst (sort_newest l)
unfolding sort_newest
sort_newest-sorted [] = tt
sort_newest-sorted (j ∷ l) = insert_newest-sorted j (sort_newest l) (sort_newest-sorted l)

module _ {ℓ} (P : Job → Type ℓ) where
  insert_newest-All : (j : Job) (l : List Job) → P j → All P l → All P (insert_newest j l)
  unfolding insert_newest
  insert_newest-All j [] p h = (p, tt)
  insert_newest-All j (x ∷ l) p h = elim (Bool-cases (ltb_ℤ j.created_at x.created_at)) [
    | inl b ↦ rw b (h.0, insert_newest-All j l p h.1)
    | inr b ↦ rw b (p, h)
  ]

  sort_newest-All : (l : List Job) → All P l → All P (sort_newest l)
  unfolding sort_newest
  sort_newest-All [] h = tt
  sort_newest-All (j ∷ l) h = insert_newest-All j (sort_newest l) h.0 (sort_newest-All l h.1)

length-insert_newest : (j : Job) (l : List Job) → length (insert_newest j l) ≡ suc (length l)
unfolding insert_newest
length-insert_newest j [] = refl
length-insert_newest j (x ∷ l) = ground (arith, length-insert_newest j l)

length-sort_newest : (l : List Job) → length (sort_newest l) ≡ length l
unfolding sort_newest
length-sort_newest [] = refl
length-sort_newest (j ∷ l) =
    omega (arith, length-insert_newest j (sort_newest l), length-sort_newest l)

take-sorted : (n : ℕ) (l : List Job) → IsNewestFirst l → IsNewestFirst (take n l)
take-sorted zero l h = tt
take-sorted (suc n) [] h = tt
take-sorted (suc zero) (x ∷ []) h = tt
take-sorted (suc zero) (x ∷ y ∷ l) h = tt
take-sorted (suc (suc n)) (x ∷ []) h = tt
take-sorted (suc (suc n)) (x ∷ y ∷ l) h = (h.0, take-sorted (suc n) (y ∷ l) h.1)

drop-sorted : (n : ℕ) (l : List Job) → IsNewestFirst l → IsNewestFirst (drop n l)
drop-sorted zero l h = h
drop-sorted (suc n) [] h = tt
drop-sorted (suc zero) (x ∷ []) h = tt
drop-sorted (suc (suc n)) (x ∷ []) h = tt
drop-sorted (suc n) (x ∷ y ∷ l) h = drop-sorted n (y ∷ l) h.1

slice-some :
    (xs : List Job) (lo hi : ℤ) {l : List Job}
    → slice xs lo hi ≡ some l
    → (pos 0 ≤ℤ lo) × (lo ≤ℤ hi) × (l ≡ take (pos_part (hi -ℤ lo)) (drop (pos_part lo) xs))
slice-some xs lo hi h = elim (Bool-cases (leb_ℤ (pos 0) lo && leb_ℤ lo hi)) [
  | inl b ↦ (ground arith, ground arith, sym (cc (rw b at h)))
  | inr b ↦ cc (rw b at h)
]

page_end-le :
    (offset limit : ℤ) (n : ℕ)
    → pos 0 ≤ℤ offset
    → pos 0 <ℤ limit
    → page_end offset limit (pos n) ≤ℤ offset +ℤ limit
page_end-le offset limit n o l = ground (arith, int64-le (offset +ℤ limit), +ℤ_parts offset limit)

-- Where a page lies in the list of all matches, and that it keeps to its limit.
page-some :
    (f : JobFilter) (xs : List Job) {l : List Job}
    → page f xs ≡ some l
    → (n : ℕ) × (m : ℕ) × (l ≡ take n (drop m xs)) × (pos 0 <ℤ f.limit → pos n ≤ℤ f.limit)
unfolding page
page-some f xs h = elim (Bool-cases (leb_ℤ (pos (length xs)) f.offset)) [
  | inl b ↦ (0, 0, sym (cc (rw b at h)), λ p. omega arith)
  | inr b ↦
      let hi = page_end f.offset f.limit (pos (length xs)) in
      let (lo_ok, hi_ok, cut) = slice-some xs f.offset hi (rw b at h) in
      (
        pos_part (hi -ℤ f.offset),
        pos_part f.offset,
        cut,
        λ p. sub-le hi f.offset f.limit hi_ok (page_end-le f.offset f.limit (length xs) lo_ok p),
      )
]

page_result-ok :
    (o : Option (List Job)) (n : ℤ) {r : List Job × ℤ}
    → page_result o n ≡ ok r
    → (o ≡ some r.0) × (r.1 ≡ n)
page_result-ok none n h = cc
page_result-ok (some l) n h = (cc h, cc h)

module _ {ℓ} (P : Job → Type ℓ) where
  All-page :
      (f : JobFilter) (xs : List Job) {l : List Job} → page f xs ≡ some l → All P xs → All P l
  All-page f xs h a =
      let (n, m, e, _) = page-some f xs h in rw e (All-take P n (drop m xs) (All-drop P m xs a))

-- A page that is returned holds jobs that pass the filter, newest first, no more than the limit asks
-- for; the number beside it counts all jobs that pass.
pub list_jobs-page :
    (f : JobFilter) (s : JobStore) {r : List Job × ℤ}
    → list_jobs f s ≡ ok r
    → All (λ j. passes f j ≡ true) r.0
      × IsNewestFirst r.0
      × (pos 0 <ℤ f.limit → pos (length r.0) ≤ℤ f.limit)
      × (r.1 ≡ pos (length (keep (passes f) (map (λ e. e.1) s.jobs))))
unfolding list_jobs
list_jobs-page f s {r} h =
    let found = keep (passes f) (map (λ e. e.1) s.jobs) in
    let (cut, count) = page_result-ok (page f (matching f s)) (pos (length (matching f s))) h in
    let (n, m, e, fits) = page-some f (matching f s) cut in
    (
      All-page (λ j. passes f j ≡ true) f (matching f s) cut
          (sort_newest-All (λ j. passes f j ≡ true) found
            (All-keep (passes f) (map (λ e. e.1) s.jobs))),
      rw e (
          take-sorted n (drop m (matching f s))
            (drop-sorted m (matching f s) (sort_newest-sorted found))),
      λ p. rw (e, length-take) (omega (arith, fits p)),
      rw (count, length-sort_newest),
    )

-- A negative offset makes the repository cut the list of matches below its start, which panics.
list_jobs_panics :
    (f : JobFilter) (s : JobStore) → f.offset <ℤ pos 0 → list_jobs f s ≡ err slice_panic
unfolding list_jobs page
list_jobs_panics f s h = ground arith

passes-tenant :
    (f : JobFilter) (j : Job) → f.tenant_id ≢ "" → passes f j ≡ true → j.tenant_id ≡ f.tenant_id
unfolding passes
passes-tenant f j n h = ground (arith, eq_iff f.tenant_id "", eq_iff j.tenant_id f.tenant_id)

All-map {ℓ κ} :
    (P : Job → Type ℓ) (Q : Job → Type κ) (l : List Job)
    → ((j : Job) → P j → Q j)
    → All P l
    → All Q l
All-map P Q [] f h = tt
All-map P Q (j ∷ l) f h = (f j h.0, All-map P Q l f h.1)

-- A caller without the superadmin role, and with an identity, lists only its own jobs, whatever
-- filter it sends.
pub list_visible-own :
    (s : Subject) (f : JobFilter) (w : World) {r : List Job × ℤ}
    → is_superadmin s ≡ false
    → s.user_id ≢ ""
    → list_visible (some s) f w ≡ ok r
    → All (λ j. j.tenant_id ≡ s.user_id) r.0
unfolding list_visible
list_visible-own s f w {r} n u h =
    let g = record f { tenant_id = s.user_id } in
    let k : list_jobs g w.store ≡ ok r = rw n at h in
    All-map (λ j. passes g j ≡ true) (λ j. j.tenant_id ≡ s.user_id) r.0
      (λ j p. passes-tenant g j u p) (list_jobs-page g w.store k).0

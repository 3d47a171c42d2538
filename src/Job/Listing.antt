-- ===== src/Job/Listing.antt =====
-- internal/infra/memory/job_repo.go: `List`, which filters, sorts by age and cuts a page.
-- `sort.Slice` fixes no order among equal times; insertion gives one of the orders it may give.
use aurora_old.Base.{
  String, ◌==◌, Bool, ◌&&◌, ◌||◌, Option, none, some, List, [], ◌∷◌, map, keep, length, take, drop,
  if◌then◌else◌, Result, ok, err,
}
use aurora_old.Base.Int.{ℤ, pos, pos_part, ◌+ℤ◌, ◌-ℤ◌, ltb_ℤ, leb_ℤ, int64}
use aurora_old.Job.Types.{JobError, slice_panic, unset, status_is, Job, JobFilter}
use aurora_old.Job.Store.{JobStore}

-- A filter field that is empty lets everything pass.
abbrev text_passes : String → String → Bool
text_passes wanted found = wanted == "" || found == wanted

unfoldable pub passes : JobFilter → Job → Bool
passes f j =
    text_passes f.tenant_id j.tenant_id
    && text_passes f.job_type j.job_type
    && (status_is f.status unset || status_is j.status f.status)
    && text_passes f.resource_type j.resource_type
    && text_passes f.resource_id j.resource_id

unfoldable pub insert_newest : Job → List Job → List Job
insert_newest j [] = j ∷ []
insert_newest j (x ∷ xs) =
    if ltb_ℤ j.created_at x.created_at then x ∷ insert_newest j xs else j ∷ x ∷ xs

unfoldable pub sort_newest : List Job → List Job
unfolding insert_newest
sort_newest [] = []
sort_newest (j ∷ js) = insert_newest j (sort_newest js)

-- `matched[lo:hi]`, where `hi` is at most the length; `none` is a panic.
abbrev pub slice {ℓ} : {A : Type ℓ} → List A → ℤ → ℤ → Option (List A)
slice xs lo hi =
    if leb_ℤ (pos 0) lo && leb_ℤ lo hi
    then some (take (pos_part (hi -ℤ lo)) (drop (pos_part lo) xs))
    else none

abbrev pub page_end : ℤ → ℤ → ℤ → ℤ
page_end offset limit total =
    let end = int64 (offset +ℤ limit) in
    if leb_ℤ limit (pos 0) || ltb_ℤ total end then total else end

unfoldable pub page : JobFilter → List Job → Option (List Job)
page f matched =
    let total = pos (length matched) in
    if leb_ℤ total f.offset
    then some []
    else slice matched f.offset (page_end f.offset f.limit total)

abbrev pub matching : JobFilter → JobStore → List Job
matching f s = sort_newest (keep (passes f) (map (λ e. e.1) s.jobs))

abbrev pub page_result : Option (List Job) → ℤ → Result JobError (List Job × ℤ)
page_result none total = err slice_panic
page_result (some jobs) total = ok (jobs, total)

-- The page and the number of all matches.
unfoldable pub list_jobs : JobFilter → JobStore → Result JobError (List Job × ℤ)
list_jobs f s = page_result (page f (matching f s)) (pos (length (matching f s)))

-- ===== src/Listings/Bulk.antt =====
-- backend/app/routers/admin.py: what a change of many jobs does to each.
use mathlib.Core.Path.{subst}
use employed.Base.{
  ==_iff, Bool, Bool-cases, List, Option, Option-cases, String, [], and-split, any, ap, arith,
  contains, false, false≢true, if◌then◌else◌, inl, inr, leb, length, list_eq, nat_eq, none,
  option_eq, or-false, refl, some, string_eq, sym, take, take-all, true, ℕ, ◌&&◌, ◌==◌, ◌∙◌, ◌∷◌,
  ◌≡◌, ◌≤◌, ◌⊎◌,
}
use employed.Base.Text.{after, before}
use employed.Base.Dict.{Dict, lookup, lookup-insert}
use employed.Enums.{
  JobStatus, country_eq, job_status_eq, job_type_eq, market_key_eq, membership_status_eq,
  payment_provider_key_eq, payment_status_eq, verification_state_eq,
}
use employed.Models.{JobPost, User}
use employed.Applications.{EmitWorld}
use employed.Listings.Admin.{
  BulkStatusResult, Moderation, Texts, bulk_each, bulk_set_status, fits_bulk, moderated_job,
  save_moderated, valid_status, without_repeats,
}
use employed.Base.Outcome.{ok, raised}
use employed.Listings.{invalid_status, unprocessable}

-- The row of an identifier after one save.
lookup-save_moderated :
    (texts : Texts) (w : EmitWorld) (now : ℕ) (admin : User) (status : JobStatus)
    (reason : Option String) (id j : ℕ) (job : JobPost) (t : Moderation)
    → lookup j (save_moderated texts w now admin status reason id job t).jobs
      ≡ (if id == j then some (moderated_job now admin status reason job) else lookup j t.jobs)
unfolding save_moderated
lookup-save_moderated texts w now admin status reason id j job t =
    lookup-insert id j (moderated_job now admin status reason job) t.jobs

moderated-status :
    (now : ℕ) (admin : User) (status : JobStatus) (reason : Option String) (job : JobPost)
    → (moderated_job now admin status reason job).status ≡ status
unfolding moderated_job
moderated-status now admin status reason job = refl

-- What a status does to the row of one job, among identifiers that are handled.
unfoldable pub HasStatus : JobStatus → Bool → Option JobPost → Option JobPost → Type 0
HasStatus status true (some before) (some job) = job.status ≡ status
HasStatus status true none none = Unit
HasStatus status true none (some job) = ⊥
HasStatus status true (some before) none = ⊥
HasStatus status false before job = job ≡ before

unfoldable pub handled : (String → ℕ) → ℕ → List String → Bool
handled uuid_of j ids = any (λ given. uuid_of given == j) ids

status_when_hit :
    (status : JobStatus) (later : Bool) (job saved : JobPost) (after : Option JobPost)
    → saved.status ≡ status
    → HasStatus status later (some saved) after
    → HasStatus status true (some job) after
unfolding HasStatus
status_when_hit status true job saved none e h = h
status_when_hit status true job saved (some a) e h = h
status_when_hit status false job saved none e h = absurd (cc h)
status_when_hit status false job saved (some a) e h =
    let same : a ≡ saved = cc h in ap JobPost.status same ∙ e

same_row : (status : JobStatus) (row : Option JobPost) → HasStatus status false row row
unfolding HasStatus
same_row status row = refl

at_key :
    (jobs : Dict ℕ JobPost) (id j : ℕ) {row : Option JobPost}
    → (id == j) ≡ true
    → lookup id jobs ≡ row
    → lookup j jobs ≡ row
at_key jobs id j q e = ap (λ k. lookup k jobs) (sym ((==_iff id j).0 q)) ∙ e

status_when_missing :
    (status : JobStatus) (later : Bool) (after : Option JobPost)
    → HasStatus status later none after
    → HasStatus status true none after
unfolding HasStatus
status_when_missing status true after h = h
status_when_missing status false none h = tt
status_when_missing status false (some a) h = absurd (cc h)

module _ (uuid_of : String → ℕ) where
  contains-handled :
      (j : ℕ) (id : String) (seen : List String)
      → contains id seen ≡ true
      → handled uuid_of j seen ≡ false
      → (uuid_of id == j) ≡ false
  unfolding handled
  contains-handled j id [] e h = absurd (false≢true e)
  contains-handled j id (x ∷ seen) e h = elim (Bool-cases (x == id)) [
    | inl q ↦
        (let same = ap uuid_of ((==_iff x id).0 q) in
          ap (λ k. k == j) (sym same) ∙ (or-false (uuid_of x == j) (handled uuid_of j seen) h).0)
    | inr q ↦
        contains-handled j id seen (rw q at e)
          (or-false (uuid_of x == j) (handled uuid_of j seen) h).1
  ]

module _ (texts : Texts) (world : ℕ → EmitWorld) (uuid_of : String → ℕ) (now : ℕ) (admin : User)
    (status : JobStatus) (reason : Option String) where
  bulk_each-HasStatus :
      (ids : List String) (t : Moderation) (j : ℕ)
      → HasStatus status
          (handled uuid_of j ids)
          (lookup j t.jobs)
          (lookup j (bulk_each texts world uuid_of now admin status reason ids t).1.jobs)
  unfolding bulk_each handled
  bulk_each-HasStatus [] t j = same_row status (lookup j t.jobs)
  bulk_each-HasStatus (given ∷ ids) t j = elim (Option-cases (lookup (uuid_of given) t.jobs)) [
    | inl e ↦
        let ih = bulk_each-HasStatus ids t j in
        elim (Bool-cases (uuid_of given == j)) [
          | inl q ↦
              (let here = at_key t.jobs (uuid_of given) j q e in
                rw (e, bulk_each, q, here)
                  (status_when_missing status (handled uuid_of j ids)
                    (lookup j (bulk_each texts world uuid_of now admin status reason ids t).1.jobs)
                    (rw here at ih)))
          | inr q ↦ rw (e, bulk_each, q) ih
        ]
    | inr (job, e) ↦
        let id = uuid_of given in
        let t' = save_moderated texts (world id) now admin status reason id job t in
        let ih =
          rw (lookup-save_moderated texts (world id) now admin status reason id j job t) at
            (bulk_each-HasStatus ids t' j) in
        elim (Bool-cases (id == j)) [
          | inl q ↦
              (let here = at_key t.jobs id j q e in
                rw (e, bulk_each, q, here)
                  (status_when_hit status (handled uuid_of j ids) job
                    (moderated_job now admin status reason job)
                    (lookup j (bulk_each texts world uuid_of now admin status reason ids t').1.jobs)
                    (moderated-status now admin status reason job) (rw q at ih)))
          | inr q ↦ rw (e, bulk_each, q) (rw q at ih)
        ]
  ]

  bulk_each-bound :
      (ids : List String) (t : Moderation)
      → (bulk_each texts world uuid_of now admin status reason ids t).0 ≤ length ids
  unfolding bulk_each
  bulk_each-bound [] t = omega arith
  bulk_each-bound (given ∷ ids) t = elim (Option-cases (lookup (uuid_of given) t.jobs)) [
    | inl e ↦ (let le = bulk_each-bound ids t in rw (e, bulk_each) (omega (arith, le)))
    | inr (job, e) ↦
        (let le = bulk_each-bound ids (
            save_moderated texts (world (uuid_of given)) now admin status reason (uuid_of given) job
              t) in
          rw (e, bulk_each) (omega (arith, le)))
  ]

  -- The identifiers of a request, without repeats, are no more than it has.
  length-without_repeats : (seen ids : List String) → length (without_repeats seen ids) ≤ length ids
  unfolding without_repeats
  length-without_repeats seen [] = omega arith
  length-without_repeats seen (id ∷ ids) =
      let le = length-without_repeats seen ids in
      let le' = length-without_repeats (id ∷ seen) ids in
      elim (Bool-cases (contains id seen)) [
        | inl e ↦ rw e (omega (arith, le))
        | inr e ↦ rw e (omega (arith, le'))
      ]

  handled-without_repeats :
      (j : ℕ) (seen ids : List String)
      → handled uuid_of j seen ≡ false
      → handled uuid_of j (without_repeats seen ids) ≡ handled uuid_of j ids
  unfolding handled without_repeats
  handled-without_repeats j seen [] h = refl
  handled-without_repeats j seen (id ∷ ids) h = elim (Bool-cases (contains id seen)) [
    | inl e ↦
        (let mine = contains-handled uuid_of j id seen e h in
          rw (e, mine) (handled-without_repeats j seen ids h))
    | inr e ↦ elim (Bool-cases (uuid_of id == j)) [
      | inl q ↦ rw (e, q) refl
      | inr q ↦ rw (e, q) (handled-without_repeats j (id ∷ seen) ids (rw q h))
    ]
  ]

  taken_all :
      (job_ids : List String)
      → fits_bulk job_ids ≡ true
      → take 200 (without_repeats [] job_ids) ≡ without_repeats [] job_ids
  unfolding fits_bulk
  taken_all job_ids b =
      let short = length-without_repeats [] job_ids in
      let bound = (and-split (leb 1 (length job_ids)) (leb (length job_ids) 200) b).1 in
      take-all 200 (without_repeats [] job_ids) (ground (arith, bound, short))

  bulk_set_status-ok :
      (job_ids : List String) (given : String) (t : Moderation)
      → fits_bulk job_ids ≡ true
      → valid_status given ≡ some status
      → let ids = without_repeats [] job_ids in
        let each = bulk_each texts world uuid_of now admin status reason ids t in
        bulk_set_status texts world uuid_of now admin job_ids given reason t
        ≡ (ok (record { requested = length ids; updated = each.0 }), each.1)
  unfolding bulk_set_status
  bulk_set_status-ok job_ids given t b v = rw (b, v, taken_all job_ids b) refl

  asked-HasStatus :
      (job_ids : List String) (t : Moderation) (j : ℕ)
      → HasStatus status (handled uuid_of j job_ids) (lookup j t.jobs) (
          lookup j
            (bulk_each texts world uuid_of now admin status reason
              (without_repeats [] job_ids)
              t).1.jobs)
  unfolding handled
  asked-HasStatus job_ids t j =
      rw (← handled-without_repeats j [] job_ids refl)
        (bulk_each-HasStatus (without_repeats [] job_ids) t j)

-- A request for many jobs ends in one of three ways. One with no identifier or with more than two
-- hundred is refused, and so is one with a status that is none, and neither changes anything. Any
-- other answers with the number of its distinct identifiers and with a number of jobs that is no
-- greater; every job that it names and that is there has the status afterwards, none is added or
-- lost, and every job that it does not name is as it was.
pub bulk_set_status-HasStatus :
    (texts : Texts) (world : ℕ → EmitWorld) (uuid_of : String → ℕ) (now : ℕ) (admin : User)
    (reason : Option String) (job_ids : List String) (given : String) (t : Moderation) (j : ℕ)
    → let done = bulk_set_status texts world uuid_of now admin job_ids given reason t in
      (((leb 1 (length job_ids) && leb (length job_ids) 200) ≡ false)
        × (done ≡ (raised unprocessable, t)))
      ⊎ (((leb 1 (length job_ids) && leb (length job_ids) 200) ≡ true)
          × (valid_status given ≡ none)
          × (done ≡ (raised invalid_status, t)))
      ⊎ (((leb 1 (length job_ids) && leb (length job_ids) 200) ≡ true)
          × (s : JobStatus) × (valid_status given ≡ some s)
          × (r : BulkStatusResult) × (done.0 ≡ ok r)
          × (r.updated ≤ r.requested)
          × (r.requested ≡ length (without_repeats [] job_ids))
          × HasStatus s (handled uuid_of j job_ids) (lookup j t.jobs) (lookup j done.1.jobs))
unfolding fits_bulk bulk_set_status
bulk_set_status-HasStatus texts world uuid_of now admin reason job_ids given t j =
    elim (Bool-cases (leb 1 (length job_ids) && leb (length job_ids) 200)) [
      | inr b ↦ inl (b, rw b refl)
      | inl b ↦ elim (Option-cases (valid_status given)) [
        | inl v ↦ inr (inl (b, v, rw (b, v) refl))
        | inr (s, v) ↦
            let ids = without_repeats [] job_ids in
            let each = bulk_each texts world uuid_of now admin s reason ids t in
            let e = bulk_set_status-ok texts world uuid_of now admin s reason job_ids given t b v in
            inr (
              inr (
                b,
                s,
                v,
                record { requested = length ids; updated = each.0 },
                ap (λ d. d.0) e,
                bulk_each-bound texts world uuid_of now admin s reason ids t,
                refl,
                subst
                    (λ m.
                      HasStatus s (handled uuid_of j job_ids) (lookup j t.jobs) (lookup j m.jobs))
                    (sym (ap (λ d. d.1) e))
                    (asked-HasStatus texts world uuid_of now admin s reason job_ids t j),
              ))
      ]
    ]

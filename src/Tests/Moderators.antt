-- ===== src/Tests/Moderators.antt =====
-- Examples on the moderation of jobs and on the admins.
use employed.Base.{
  All, Bool, List, Option, String, [], arith, false, is_some, leb, length, list_eq, nat_eq, none,
  option_eq, refl, some, string_eq, true, ℕ, ◌&&◌, ◌==◌, ◌||◌, ◌↔◌, ◌∷◌, ◌≡◌, ◌≢◌, ◌≤◌, ◌⊎◌,
}
use employed.Tests.{ana, broken_world, hooks, listing, listings}
use employed.Enums.{
  JobStatus, country_eq, job_status_eq, job_type_eq, market_key_eq, membership_status_eq,
  mozambique, parse_job_type, payment_provider_key_eq, payment_status_eq, verification_state_eq,
}
use employed.Models.{JobPost, User, many}
use employed.Rbac.{get_user_roles}
use employed.Listings.{
  JobCreate, JobUpdate, authorize_company, authorize_company_post, coerce_company_id, create_job,
  invalid_status, is_admin_user, may_post, new_job, not_owner, save_new, unprocessable, user_id_of,
}
use employed.Listings.Reading.{JobRead, admin_reader, get_job, owner_reader}
use employed.Listings.Editing.{
  deactivate_job, edited_job, find_own_job, may_modify, save_changed, set_job_fields, update_job,
}
use employed.Listings.Moderation.{
  ByNoAdmin, NoAdmin, Visit, close_job, edit, post, serve, serve_all, serve_all-active,
}
use employed.Listings.Visibility.{get_job_iff, update_job-old_owner}
use employed.Listings.Admin.{
  BulkStatusResult, Moderation, Texts, bulk_set_status, valid_status, without_repeats,
}
use employed.Listings.Bulk.{HasStatus, bulk_set_status-HasStatus, handled}
use employed.Base.Dict.{Dict, lookup}
use employed.Base.Text.{codes}
use employed.Base.Outcome.{ok, raised}

abbrev no_changes : JobUpdate
no_changes = record {
  title = some (codes "Cook");
  company = none;
  location = none;
  url = none;
  contact = none;
  apply_whatsapp = none;
  job_type = none;
  description = none;
  remote = none;
  salary_min = none;
  salary_max = none;
  salary_currency = none;
  salary_period = none;
}

abbrev rui : User
rui = record ana { id = 2 }

abbrev boss : User
boss = record ana { id = 9; roles = many ("admin" ∷ []) }

abbrev cook : JobCreate
cook = record {
  title = codes "Cook";
  company = none;
  location = none;
  url = none;
  contact = "rui@acme.mx";
  apply_whatsapp = none;
  jobtype = "Full Time";
  description = "Cooks";
  remote = false;
  salary_min = none;
  salary_max = none;
  salary_currency = none;
  salary_period = none;
  company_id = none;
}

abbrev same_html : String → String
same_html s = s

abbrev no_uuid : String → Option ℕ
no_uuid s = none

abbrev visits : List Visit
visits =
    record { at = 200; market = mozambique; request = post true 4 cook (some rui) [] }
    ∷ record { at = 210; market = mozambique; request = edit rui 4 no_changes }
    ∷ record { at = 220; market = mozambique; request = close_job rui 3 true }
    ∷ []

visits-ByNoAdmin : All (λ v. ByNoAdmin v.request) visits
unfolding ByNoAdmin NoAdmin is_admin_user get_user_roles
visits-ByNoAdmin = (refl, (refl, (refl, tt)))

visits_keep_listing : lookup 3 (serve_all same_html no_uuid visits listings) ≡ some listing
unfolding serve_all serve create_job update_job deactivate_job may_post authorize_company_post
    parse_job_type find_own_job may_modify is_admin_user get_user_roles save_new save_changed
    coerce_company_id authorize_company new_job edited_job set_job_fields user_id_of
visits_keep_listing = refl

boss_is_admin : is_admin_user boss ≡ true
unfolding is_admin_user get_user_roles
boss_is_admin = refl

ana_is_no_admin : is_admin_user ana ≡ false
unfolding is_admin_user get_user_roles
ana_is_no_admin = refl

ana_not_boss : ana.id ≢ boss.id
ana_not_boss e = ground arith

abbrev titles : Texts
titles = record { of_title = λ s. "title"; isoformat = λ n. "now" }

abbrev three : String → ℕ
three s = 3

active_valid : valid_status "flagged" ≡ some JobStatus.flagged
unfolding valid_status
active_valid = refl

abbrev seen : JobRead
seen = record { job = listing; include_contact = false }

abbrev moderation : Moderation
moderation = record { jobs = listings; webhooks = hooks }

abbrev members : Dict ℕ User
members = (1, ana) ∷ (9, boss) ∷ []

abbrev nobody : Option User
nobody = none

abbrev admin_role : String
admin_role = "admin"

abbrev nine : String → ℕ
nine s = 9

-- A text and a UUID are compared as values of two types.
abbrev same_key : String → ℕ → Bool
same_key given id = false

abbrev three_ids : List String
three_ids = "3" ∷ "3" ∷ []

serve_all-active_example : lookup 3 listings ≡ some listing
serve_all-active_example =
    serve_all-active same_html no_uuid visits listings 3 listing visits-ByNoAdmin
      visits_keep_listing refl

get_job_iff_example : (get_job mozambique nobody 3 listings ≡ ok seen) ↔ (
    (lookup 3 listings ≡ some seen.job)
    × ((seen.job.country == mozambique || admin_reader nobody) ≡ true)
    × ((seen.job.status == JobStatus.active
          || (owner_reader nobody seen.job || admin_reader nobody))
        ≡ true)
    × (seen.include_contact ≡ is_some nobody))
get_job_iff_example = get_job_iff mozambique none 3 listings seen

update_job-old_owner_example :
    let after = (update_job same_html 200 mozambique boss 3 no_changes listings).1 in
    (stored : JobPost) × (lookup 3 after ≡ some stored)
    × (stored.user_id ≡ some boss.id)
    × (stored.country ≡ mozambique)
    × (find_own_job ana 3 after ≡ raised not_owner)
update_job-old_owner_example =
    update_job-old_owner same_html 200 mozambique boss ana 3 no_changes listing listings refl
      boss_is_admin refl ana_is_no_admin ana_not_boss

bulk_set_status-HasStatus_example :
    let done =
      bulk_set_status titles
        (λ id. broken_world)
        three
        200
        boss
        three_ids
        "flagged"
        none
        moderation in
    (((leb 1 (length three_ids) && leb (length three_ids) 200) ≡ false)
      × (done ≡ (raised unprocessable, moderation)))
    ⊎ (((leb 1 (length three_ids) && leb (length three_ids) 200) ≡ true)
        × (valid_status "flagged" ≡ none)
        × (done ≡ (raised invalid_status, moderation)))
    ⊎ (((leb 1 (length three_ids) && leb (length three_ids) 200) ≡ true)
        × (s : JobStatus) × (valid_status "flagged" ≡ some s)
        × (r : BulkStatusResult) × (done.0 ≡ ok r)
        × (r.updated ≤ r.requested)
        × (r.requested ≡ length (without_repeats [] three_ids))
        × HasStatus s (handled three 3 three_ids) (lookup 3 moderation.jobs) (lookup 3 done.1.jobs))
bulk_set_status-HasStatus_example =
    bulk_set_status-HasStatus titles (λ id. broken_world) three 200 boss none three_ids "flagged"
      moderation 3

-- ===== src/Enums/Jobs.antt =====
-- Kinds of jobs and countries (backend/app/models/enums.py).
use employed.Base.{
  Bool, Eq, Option, String, arith, false, if◌then◌else◌, list_eq, nat_eq, nat_eqb, none, option_eq,
  some, string_eq, true, ℕ, ◌==◌, ◌↔◌, ◌≡◌,
}

pub data JobType : Type 0 where
  full_time part_time contract temporary internship freelance remote_work volunteer other_type :
      JobType

abbrev pub job_type_rank : JobType → ℕ
job_type_rank full_time = 0
job_type_rank part_time = 1
job_type_rank contract = 2
job_type_rank temporary = 3
job_type_rank internship = 4
job_type_rank freelance = 5
job_type_rank remote_work = 6
job_type_rank volunteer = 7
job_type_rank other_type = 8

abbrev pub job_type_eqb : JobType → JobType → Bool
job_type_eqb a b = nat_eqb (job_type_rank a) (job_type_rank b)

pub job_type_eqb_iff : (a b : JobType) → (job_type_eqb a b ≡ true) ↔ (a ≡ b)
job_type_eqb_iff a b = ground arith

instance abbrev pub job_type_eq : Eq JobType
job_type_eq = record { same = job_type_eqb; same_iff = job_type_eqb_iff }

unfoldable pub job_type_value : JobType → String
job_type_value full_time = "Full Time"
job_type_value part_time = "Part Time"
job_type_value contract = "Contract"
job_type_value temporary = "Temporary"
job_type_value internship = "Internship"
job_type_value freelance = "Freelance"
job_type_value remote_work = "Remote"
job_type_value volunteer = "Volunteer"
job_type_value other_type = "Other"

-- `JobType(text)`; `none` is a text that is no member.
unfoldable pub parse_job_type : String → Option JobType
parse_job_type text =
    if text == "Full Time"
    then some full_time
    else if text == "Part Time"
    then some part_time
    else if text == "Contract"
    then some contract
    else if text == "Temporary"
    then some temporary
    else if text == "Internship"
    then some internship
    else if text == "Freelance"
    then some freelance
    else if text == "Remote"
    then some remote_work
    else if text == "Volunteer"
    then some volunteer
    else if text == "Other"
    then some other_type
    else none

pub data Country : Type 0 where
  mexico mozambique : Country

abbrev pub country_eqb : Country → Country → Bool
country_eqb mexico mexico = true
country_eqb mozambique mozambique = true
country_eqb _ _ = false

pub country_eqb_iff : (a b : Country) → (country_eqb a b ≡ true) ↔ (a ≡ b)
country_eqb_iff a b = ground arith

instance abbrev pub country_eq : Eq Country
country_eq = record { same = country_eqb; same_iff = country_eqb_iff }

unfoldable pub country_value : Country → String
country_value mexico = "Mexico"
country_value mozambique = "Mozambique"

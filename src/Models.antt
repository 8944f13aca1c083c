-- ===== src/Models.antt =====
-- Rows of the tables (backend/app/models): the columns that the modelled services read or write.
-- A UUID is a number, a timestamp the number of seconds since the epoch.
pub mod Keys
use employed.Base.{Bool, List, Option, String, list_eq, nat_eq, option_eq, string_eq, ℕ}
use employed.Enums.{
  Country, JobStatus, JobType, MarketKey, MembershipStatus, PaymentProviderKey, PaymentStatus,
  TenantRole, VerificationState, country_eq, job_status_eq, job_type_eq, market_key_eq,
  membership_status_eq, payment_provider_key_eq, payment_status_eq, verification_state_eq,
}
use employed.Json.{Json}
use employed.Base.Dict.{Dict}
use employed.Base.Text.{Text}

-- `user.roles`: unset, one string, or a list.
pub data RolesAttr : Type 0 where
  unset : RolesAttr
  single : String → RolesAttr
  many : List String → RolesAttr

pub record User : Type 0 where
  pub id : ℕ
  pub roles : RolesAttr
  pub email : Text
  pub email_verified : Bool
  pub verification_status : VerificationState

pub record Membership : Type 0 where
  pub id : ℕ
  pub user_id : ℕ
  pub company_id : ℕ
  pub role : TenantRole
  pub status : MembershipStatus
  pub invited_by : Option ℕ

pub record Company : Type 0 where
  pub id : ℕ
  pub name : Text
  pub slug : Text
  pub market : MarketKey
  pub description : Option String
  pub logo_url : Option String
  pub website : Option String
  pub verification_status : VerificationState
  pub created_by : Option ℕ
  pub verified_email_domains : List Text
  pub trust_badges : List String
  pub external_refs : Option (Dict String Json)

-- A settled charge, as `_json_history_entry` writes it.
pub record ChargeEntry : Type 0 where
  pub intent_id : ℕ
  pub provider_key : PaymentProviderKey
  pub provider_ref : Option String
  pub amount : ℕ
  pub currency : String
  pub settled_at : ℕ
  pub extended_through : Option ℕ

-- Who changed a job's status: a task of the worker, or a user.
pub data Changer : Type 0 where
  by_task : String → Changer
  by_user : ℕ → Changer

-- A change of a job's status, as the jobs and the workers record it.
pub record StatusChange : Type 0 where
  pub changed_at : ℕ
  pub changed_by : Changer
  pub from_status : JobStatus
  pub to_status : JobStatus
  pub reason : Option String

pub record JobPost : Type 0 where
  pub id : ℕ
  pub user_id : Option ℕ
  pub company_id : Option ℕ
  pub title : Text
  pub company : Option Text
  pub country : Country
  pub location : Option Text
  pub url : Option String
  pub contact : String
  pub apply_whatsapp : Option String
  pub job_type : JobType
  pub remote : Bool
  pub description : String
  pub html_description : Option String
  pub salary_min : Option ℕ
  pub salary_max : Option ℕ
  pub salary_currency : Option String
  pub salary_period : Option String
  pub status : JobStatus
  pub featured_through : Option ℕ
  pub featured_charge_history : List ChargeEntry
  pub status_history : List StatusChange
  pub published_at : Option ℕ
  pub expired_at : Option ℕ
  pub created_at : ℕ
  pub updated_at : ℕ
  pub verification_status : VerificationState
  pub external_refs : Option (Dict String Json)

pub record PaymentIntent : Type 0 where
  pub id : ℕ
  pub job_id : ℕ
  pub user_id : ℕ
  pub market_key : MarketKey
  pub provider_key : PaymentProviderKey
  pub provider_ref : Option String
  pub status : PaymentStatus
  pub amount : ℕ
  pub currency : String
  pub payer_msisdn : Option Text
  pub payer_msisdn_hash : Option String
  pub extended_through : Option ℕ
  pub failure_reason : Option String
  pub simulator : Bool
  pub meta : Dict String Json
  pub settled_at : Option ℕ
  pub created_at : ℕ
  pub updated_at : ℕ

pub record Profile : Type 0 where
  pub id : ℕ
  pub user_id : ℕ
  pub verification_status : VerificationState
  pub external_refs : Option (Dict String Json)

-- ===== src/Tests.antt =====
-- Rows and tables for the examples.
mod Access
mod Tenancy
mod Delivery
mod Charges
mod Guards
mod Records
mod Callbacks
mod Opening
mod Publication
mod Locks
mod Moderators
mod Sessions
mod Search
use employed.Base.{
  List, [], false, list_eq, nat_eq, none, option_eq, some, string_eq, true, ℕ, ◌+◌, ◌∷◌,
}
use employed.Enums.{
  ApplicationStatus, JobStatus, MembershipStatus, PaymentStatus, VerificationState, active, applied,
  country_eq, full_time, invited, job_published, job_status_eq, job_type_eq, market_key_eq,
  membership_status_eq, mozambique, mpesa, mx, mz, org_owner, payment_provider_key_eq,
  payment_status_eq, pending, recruiter, unverified, verification_state_eq,
}
use employed.Models.{Company, JobPost, Membership, PaymentIntent, User, many}
use employed.Webhooks.{WebhookDelivery, WebhookEndpoint, WebhookTables, name}
use employed.Memberships.{Tables}
use employed.Applications.{Application, ApplicationTables, EmitWorld}
use employed.Companies.{CompanyFields, CompanyTables}
use employed.Payments.{PayTables}
use employed.Replay.{ReplayCache}
use employed.Trust.{company, job, user}
use employed.Base.Dict.{Dict}
use employed.Base.Text.{codes}

abbrev pub ana : User
ana = record {
  id = 1;
  roles = many ("user" ∷ []);
  email = codes "ana@acme.mx";
  email_verified = true;
  verification_status = VerificationState.unverified;
}

abbrev pub ana_at_acme : Membership
ana_at_acme = record {
  id = 11;
  user_id = 1;
  company_id = 7;
  role = recruiter;
  status = MembershipStatus.active;
  invited_by = none;
}

abbrev pub rui_at_acme : Membership
rui_at_acme = record {
  id = 12;
  user_id = 2;
  company_id = 7;
  role = org_owner;
  status = invited;
  invited_by = some 1;
}

abbrev pub staff : List Membership
staff = ana_at_acme ∷ rui_at_acme ∷ []

abbrev pub staff_tables : Tables
staff_tables = record { memberships = staff; trail = [] }

abbrev pub acme : Company
acme = record {
  id = 7;
  name = codes "Acme";
  slug = codes "acme";
  market = mx;
  description = none;
  logo_url = none;
  website = none;
  verification_status = VerificationState.unverified;
  created_by = some 2;
  verified_email_domains = [];
  trust_badges = "activity" ∷ [];
  external_refs = none;
}

abbrev pub tenants : CompanyTables
tenants = record { companies = acme ∷ []; memberships = staff }

abbrev pub no_fields : CompanyFields
no_fields = record {
  description = none;
  logo_url = none;
  website = none;
  verified_email_domains = none;
  external_refs = none;
  unknown = [];
}

abbrev pub listing : JobPost
listing = record {
  id = 3;
  user_id = some 1;
  company_id = some 7;
  title = codes "Clerk";
  company = some (codes "Acme");
  country = mozambique;
  location = none;
  url = none;
  contact = "hr@acme.mx";
  apply_whatsapp = none;
  job_type = full_time;
  remote = false;
  description = "Files";
  html_description = none;
  salary_min = some 10;
  salary_max = none;
  salary_currency = none;
  salary_period = none;
  status = JobStatus.active;
  featured_through = none;
  featured_charge_history = [];
  status_history = [];
  published_at = none;
  expired_at = none;
  created_at = 100;
  updated_at = 100;
  verification_status = VerificationState.unverified;
  external_refs = none;
}

abbrev pub listings : Dict ℕ JobPost
listings = (3, listing) ∷ []

abbrev pub charge : PaymentIntent
charge = record {
  id = 5;
  job_id = 3;
  user_id = 1;
  market_key = mz;
  provider_key = mpesa;
  provider_ref = none;
  status = PaymentStatus.pending;
  amount = 900;
  currency = "MZN";
  payer_msisdn = none;
  payer_msisdn_hash = none;
  extended_through = some 5000;
  failure_reason = none;
  simulator = true;
  meta = [];
  settled_at = none;
  created_at = 100;
  updated_at = 100;
}

abbrev pub ledger : PayTables
ledger = record { intents = (5, charge) ∷ []; jobs = listings }

abbrev pub hook : WebhookEndpoint
hook = record {
  id = 21;
  company_id = some 7;
  url = "https://acme.mx/hook";
  secret = "s";
  events = "job.published" ∷ [];
  active = true;
}

abbrev pub sending : WebhookDelivery
sending = record {
  id = 31;
  endpoint_id = 21;
  event = job_published;
  payload = [];
  status = "pending";
  attempts = 8;
  next_attempt_at = none;
  last_error = none;
}

abbrev pub hooks : WebhookTables
hooks = record { endpoints = hook ∷ []; deliveries = sending ∷ []; queue = [] }

abbrev pub candidacy : Application
candidacy = record {
  id = 41;
  job_id = 3;
  candidate_user_id = some 1;
  candidate_snapshot = none;
  company_id = some 7;
  status = ApplicationStatus.applied;
  resume_version_id = none;
  cover_note = none;
  source = "platform";
}

abbrev pub pipeline : ApplicationTables
pipeline = record { applications = []; trail = []; webhooks = hooks }

abbrev pub broken_world : EmitWorld
broken_world = record {
  available = true;
  ids = λ n. 100 + n;
  flush_fails = true;
  accepts = λ n. false;
}

abbrev pub seen_events : ReplayCache
seen_events = record { ttl_seconds = 300; max_entries = 2; entries = ("a", 1) ∷ ("b", 2) ∷ [] }

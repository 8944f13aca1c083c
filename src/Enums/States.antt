-- ===== src/Enums/States.antt =====
-- States of verification, of the hiring pipeline, of payments and of jobs
-- (backend/app/models/enums.py). States that share a name are written through their type.
use employed.Base.{
  Bool, Eq, String, arith, list_eq, nat_eq, nat_eqb, option_eq, string_eq, true, ℕ, ◌↔◌, ◌≡◌,
}

pub data VerificationState : Type 0 where
  unverified pending verified rejected revoked flagged : VerificationState

abbrev pub verification_state_rank : VerificationState → ℕ
verification_state_rank VerificationState.unverified = 0
verification_state_rank VerificationState.pending = 1
verification_state_rank VerificationState.verified = 2
verification_state_rank VerificationState.rejected = 3
verification_state_rank VerificationState.revoked = 4
verification_state_rank VerificationState.flagged = 5

abbrev pub verification_state_eqb : VerificationState → VerificationState → Bool
verification_state_eqb a b = nat_eqb (verification_state_rank a) (verification_state_rank b)

pub verification_state_eqb_iff :
    (a b : VerificationState) → (verification_state_eqb a b ≡ true) ↔ (a ≡ b)
verification_state_eqb_iff a b = ground arith

instance abbrev pub verification_state_eq : Eq VerificationState
verification_state_eq = record {
  same = verification_state_eqb;
  same_iff = verification_state_eqb_iff;
}

unfoldable pub verification_state_value : VerificationState → String
verification_state_value VerificationState.unverified = "unverified"
verification_state_value VerificationState.pending = "pending"
verification_state_value VerificationState.verified = "verified"
verification_state_value VerificationState.rejected = "rejected"
verification_state_value VerificationState.revoked = "revoked"
verification_state_value VerificationState.flagged = "flagged"

pub data ApplicationStatus : Type 0 where
  applied reviewed shortlisted rejected hired : ApplicationStatus

unfoldable pub application_status_value : ApplicationStatus → String
application_status_value ApplicationStatus.applied = "applied"
application_status_value ApplicationStatus.reviewed = "reviewed"
application_status_value ApplicationStatus.shortlisted = "shortlisted"
application_status_value ApplicationStatus.rejected = "rejected"
application_status_value ApplicationStatus.hired = "hired"

pub data PaymentStatus : Type 0 where
  pending awaiting_user completed failed cancelled expired : PaymentStatus

abbrev pub payment_status_rank : PaymentStatus → ℕ
payment_status_rank PaymentStatus.pending = 0
payment_status_rank PaymentStatus.awaiting_user = 1
payment_status_rank PaymentStatus.completed = 2
payment_status_rank PaymentStatus.failed = 3
payment_status_rank PaymentStatus.cancelled = 4
payment_status_rank PaymentStatus.expired = 5

abbrev pub payment_status_eqb : PaymentStatus → PaymentStatus → Bool
payment_status_eqb a b = nat_eqb (payment_status_rank a) (payment_status_rank b)

pub payment_status_eqb_iff : (a b : PaymentStatus) → (payment_status_eqb a b ≡ true) ↔ (a ≡ b)
payment_status_eqb_iff a b = ground arith

instance abbrev pub payment_status_eq : Eq PaymentStatus
payment_status_eq = record { same = payment_status_eqb; same_iff = payment_status_eqb_iff }

pub data JobStatus : Type 0 where
  pending active flagged inactive filled : JobStatus

abbrev pub job_status_rank : JobStatus → ℕ
job_status_rank JobStatus.pending = 0
job_status_rank JobStatus.active = 1
job_status_rank JobStatus.flagged = 2
job_status_rank JobStatus.inactive = 3
job_status_rank JobStatus.filled = 4

abbrev pub job_status_eqb : JobStatus → JobStatus → Bool
job_status_eqb a b = nat_eqb (job_status_rank a) (job_status_rank b)

pub job_status_eqb_iff : (a b : JobStatus) → (job_status_eqb a b ≡ true) ↔ (a ≡ b)
job_status_eqb_iff a b = ground arith

instance abbrev pub job_status_eq : Eq JobStatus
job_status_eq = record { same = job_status_eqb; same_iff = job_status_eqb_iff }

unfoldable pub job_status_value : JobStatus → String
job_status_value JobStatus.pending = "pending"
job_status_value JobStatus.active = "active"
job_status_value JobStatus.flagged = "flagged"
job_status_value JobStatus.inactive = "inactive"
job_status_value JobStatus.filled = "filled"

-- ===== src/Enums/Markets.antt =====
-- Markets, payment providers and webhook events (backend/app/models/enums.py).
use employed.Base.{
  Bool, Eq, String, arith, false, list_eq, nat_eq, option_eq, string_eq, true, ◌↔◌, ◌≡◌,
}

pub data MarketKey : Type 0 where
  mx mz : MarketKey

abbrev pub market_key_eqb : MarketKey → MarketKey → Bool
market_key_eqb mx mx = true
market_key_eqb mz mz = true
market_key_eqb _ _ = false

pub market_key_eqb_iff : (a b : MarketKey) → (market_key_eqb a b ≡ true) ↔ (a ≡ b)
market_key_eqb_iff a b = ground arith

instance abbrev pub market_key_eq : Eq MarketKey
market_key_eq = record { same = market_key_eqb; same_iff = market_key_eqb_iff }

pub data PaymentProviderKey : Type 0 where
  stripe mpesa emola : PaymentProviderKey

abbrev pub payment_provider_key_eqb : PaymentProviderKey → PaymentProviderKey → Bool
payment_provider_key_eqb stripe stripe = true
payment_provider_key_eqb mpesa mpesa = true
payment_provider_key_eqb emola emola = true
payment_provider_key_eqb _ _ = false

pub payment_provider_key_eqb_iff :
    (a b : PaymentProviderKey) → (payment_provider_key_eqb a b ≡ true) ↔ (a ≡ b)
payment_provider_key_eqb_iff a b = ground arith

instance abbrev pub payment_provider_key_eq : Eq PaymentProviderKey
payment_provider_key_eq = record {
  same = payment_provider_key_eqb;
  same_iff = payment_provider_key_eqb_iff;
}

pub data WebhookEvent : Type 0 where
  job_published application_created application_status_changed : WebhookEvent

unfoldable pub webhook_event_value : WebhookEvent → String
webhook_event_value job_published = "job.published"
webhook_event_value application_created = "application.created"
webhook_event_value application_status_changed = "application.status_changed"

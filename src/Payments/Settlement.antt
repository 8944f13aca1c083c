-- ===== src/Payments/Settlement.antt =====
-- backend/app/payments/settlement.py: what settling an intent writes.
use mathlib.Core.Option
use mathlib.Core.Path.{fun_ext, subst}
use employed.Base.{
  ==_iff, ==_refl, Bool-cases, List, Option, Option-cases, String, [], ap, arith, false,
  if◌then◌else◌, inl, inr, keep_last, length, length-append, length-keep_last, list_eq, ltb, nat_eq,
  none, option_eq, refl, some, string_eq, ℕ, ◌++◌, ◌+◌, ◌<◌, ◌==◌, ◌∙◌, ◌∷◌, ◌≡◌, ◌≢◌, ◌≤◌, ◌⊎◌,
}
use employed.Enums.{
  PaymentStatus, country_eq, job_status_eq, job_type_eq, market_key_eq, membership_status_eq,
  payment_provider_key_eq, payment_status_eq, verification_state_eq,
}
use employed.Models.{ChargeEntry, JobPost, PaymentIntent}
use employed.Payments.{
  PayTables, append_history, completed_intent, feature_job, featured_job, given, history_max,
  json_history_entry, ref_or, settle_intent,
}
use employed.Base.Dict.{Dict, insert, lookup, lookup-insert}

pub stored_self :
    (id : ℕ) (i : PaymentIntent) (d : Dict ℕ PaymentIntent) → lookup id (insert id i d) ≡ some i
stored_self id i d =
    lookup-insert id id i d ∙ ap (λ b. if b then some i else lookup id d) (==_refl id)

completed_status :
    (i : PaymentIntent) (now : ℕ) (ref : Option String)
    → (completed_intent i now ref).status ≡ PaymentStatus.completed
unfolding completed_intent
completed_status i now ref = refl

module _ (now id : ℕ) (ref : Option String) (t : PayTables) where
  settle_missing : lookup id t.intents ≡ none → settle_intent now id ref t ≡ (none, t)
  unfolding settle_intent
  settle_missing h = rw (h, settle_intent) refl

  settle_completed :
      (i : PaymentIntent)
      → lookup id t.intents ≡ some i
      → i.status ≡ PaymentStatus.completed
      → settle_intent now id ref t ≡ (some i, t)
  unfolding settle_intent
  settle_completed i h c = rw (h, c, settle_intent) refl

  -- The tables after the first settlement of an intent.
  abbrev pub settled : PaymentIntent → PayTables
  settled i =
      let done = completed_intent i now ref in
      record {
        intents = insert id done t.intents;
        jobs = feature_job (lookup i.job_id t.jobs) done now ref t.jobs;
      }

  pub settle_open :
      (i : PaymentIntent)
      → lookup id t.intents ≡ some i
      → (i.status == PaymentStatus.completed) ≡ false
      → settle_intent now id ref t ≡ (some (completed_intent i now ref), settled i)
  unfolding settle_intent
  settle_open i h c = rw (h, c, settle_intent) refl

-- Settling the same intent again, at any time and with any reference of the provider, changes
-- neither table.
pub settle_intent_idem :
    (now later id : ℕ) (ref ref' : Option String) (t : PayTables)
    → (settle_intent later id ref' (settle_intent now id ref t).1).1
      ≡ (settle_intent now id ref t).1
settle_intent_idem now later id ref ref' t = elim (Option-cases (lookup id t.intents)) [
  | inl e ↦
      let q = settle_missing now id ref t e in
      rw q (ap (λ (r : Option PaymentIntent × PayTables). r.1) (settle_missing later id ref' t e))
  | inr (i, e) ↦ elim (Bool-cases (i.status == PaymentStatus.completed)) [
    | inl c ↦
        let done = (==_iff i.status PaymentStatus.completed).0 c in
        rw (settle_completed now id ref t i e done) (
          ap (λ (r : Option PaymentIntent × PayTables). r.1)
            (settle_completed later id ref' t i e done))
    | inr c ↦ rw (settle_open now id ref t i e c) (
        ap (λ (r : Option PaymentIntent × PayTables). r.1)
          (settle_completed later id ref' (settled now id ref t i) (completed_intent i now ref)
            (stored_self id (completed_intent i now ref) t.intents) (completed_status i now ref)))
  ]
]

length-append_history :
    (history : List ChargeEntry) (entry : ChargeEntry)
    → length (append_history history entry) ≤ history_max
unfolding append_history
length-append_history history entry =
    let longer = history ++ entry ∷ [] in
    elim (Bool-cases (ltb history_max (length longer))) [
      | inl e ↦ rw e (omega (arith, length-keep_last {0} history_max longer))
      | inr e ↦ rw e (ground arith)
    ]

pub not_completed :
    (i : PaymentIntent)
    → i.status ≢ PaymentStatus.completed
    → (i.status == PaymentStatus.completed) ≡ false
not_completed i h = elim (Bool-cases (i.status == PaymentStatus.completed)) [
  | inl e ↦ absurd (h ((==_iff i.status PaymentStatus.completed).0 e))
  | inr e ↦ e
]

pub lookup-feature_job :
    (k : ℕ) (i : PaymentIntent) (now : ℕ) (ref : Option String) (jobs : Dict ℕ JobPost)
    (o : Option JobPost)
    → lookup i.job_id jobs ≡ o
    → lookup k (feature_job o i now ref jobs) ≡ (
        if i.job_id == k
        then Option.map (λ j. featured_job j i now ref) (lookup k jobs)
        else lookup k jobs)
unfolding feature_job
lookup-feature_job k i now ref jobs none e = elim (Bool-cases (i.job_id == k)) [
  | inl q ↦ rw (q, subst (λ x. lookup x jobs ≡ none) ((==_iff i.job_id k).0 q) e) refl
  | inr q ↦ rw q refl
]
lookup-feature_job k i now ref jobs (some j) e = elim (Bool-cases (i.job_id == k)) [
  | inl q ↦
      rw (lookup-insert, q, subst (λ x. lookup x jobs ≡ some j) ((==_iff i.job_id k).0 q) e) refl
  | inr q ↦ rw (lookup-insert, q) refl
]

pub length-append_history_short :
    (history : List ChargeEntry) (entry : ChargeEntry)
    → length history < history_max
    → length (append_history history entry) ≡ length history + 1
unfolding append_history
length-append_history_short history entry h =
    let longer = history ++ entry ∷ [] in
    let n = length-append {0} history (entry ∷ []) in
    elim (Bool-cases (ltb history_max (length longer))) [
      | inl e ↦ absurd (ground (arith, e, n))
      | inr e ↦ rw e (omega (arith, n))
    ]

pub settle_intent_effect :
    (now id : ℕ) (ref : Option String) (t : PayTables) (i : PaymentIntent)
    → lookup id t.intents ≡ some i
    → i.status ≢ PaymentStatus.completed
    → let done = completed_intent i now ref in
      let after = (settle_intent now id ref t).1 in
      ((settle_intent now id ref t).0 ≡ some done)
      × ((k : ℕ) → lookup k after.intents ≡ (if id == k then some done else lookup k t.intents))
      × ((k : ℕ)
          → lookup k after.jobs ≡ (
              if i.job_id == k
              then Option.map (λ j. featured_job j done now ref) (lookup k t.jobs)
              else lookup k t.jobs))
unfolding completed_intent
settle_intent_effect now id ref t i h unsettled =
    rw (settle_open now id ref t i h (not_completed i unsettled)) (
      refl,
      (λ k. lookup-insert id k (completed_intent i now ref) t.intents),
      (λ k.
          lookup-feature_job k (completed_intent i now ref) now ref t.jobs (lookup i.job_id t.jobs)
            refl),
    )

-- A paid intent, and its job, told apart from the code: fifty charges are kept.
abbrev pub newer_ref : Option String → Option String → Option String
newer_ref none old = old
newer_ref (some s) old = if s == "" then old else some s

abbrev pub paid_intent : ℕ → Option String → PaymentIntent → PaymentIntent
paid_intent now ref i = record i {
  status = PaymentStatus.completed;
  settled_at = some now;
  updated_at = now;
  provider_ref = newer_ref ref i.provider_ref;
}

abbrev pub charge_of : ℕ → Option String → PaymentIntent → ChargeEntry
charge_of now ref i = record {
  intent_id = i.id;
  provider_key = i.provider_key;
  provider_ref = newer_ref ref i.provider_ref;
  amount = i.amount;
  currency = i.currency;
  settled_at = now;
  extended_through = i.extended_through;
}

abbrev pub paid_job : ℕ → Option String → PaymentIntent → JobPost → JobPost
paid_job now ref i job =
    let charges = job.featured_charge_history ++ charge_of now ref i ∷ [] in
    record job {
      featured_through = elim i.extended_through [
        | none ↦ job.featured_through
        | some through ↦ some through
      ];
      updated_at = now;
      featured_charge_history = if ltb 50 (length charges) then keep_last 50 charges else charges;
    }

newer_ref-ref_or : (ref old : Option String) → ref_or ref old ≡ newer_ref ref old
unfolding ref_or given
newer_ref-ref_or none old = refl
newer_ref-ref_or (some s) old = elim (Bool-cases (s == "")) [
  | inl e ↦ rw e refl
  | inr e ↦ rw e refl
]

newer_ref_twice : (ref old : Option String) → newer_ref ref (newer_ref ref old) ≡ newer_ref ref old
newer_ref_twice none old = refl
newer_ref_twice (some s) old = elim (Bool-cases (s == "")) [ inl e ↦ rw e refl | inr e ↦ rw e refl ]

completed-paid_intent :
    (now : ℕ) (ref : Option String) (i : PaymentIntent)
    → completed_intent i now ref ≡ paid_intent now ref i
unfolding completed_intent
completed-paid_intent now ref i = rw (newer_ref-ref_or ref i.provider_ref) refl

featured-paid_job :
    (now : ℕ) (ref : Option String) (i : PaymentIntent) (job : JobPost)
    → featured_job job (paid_intent now ref i) now ref ≡ paid_job now ref i job
unfolding featured_job append_history json_history_entry
featured-paid_job now ref i job =
    rw (newer_ref-ref_or ref (newer_ref ref i.provider_ref), newer_ref_twice ref i.provider_ref)
      refl

paid_effect :
    (now id : ℕ) (ref : Option String) (t : PayTables) (i : PaymentIntent)
    → lookup id t.intents ≡ some i
    → i.status ≢ PaymentStatus.completed
    → ((settle_intent now id ref t).0 ≡ some (paid_intent now ref i))
      × ((k : ℕ)
          → lookup k (settle_intent now id ref t).1.intents
            ≡ (if id == k then some (paid_intent now ref i) else lookup k t.intents))
      × ((k : ℕ)
          → lookup k (settle_intent now id ref t).1.jobs ≡ (
              if i.job_id == k
              then Option.map (paid_job now ref i) (lookup k t.jobs)
              else lookup k t.jobs))
paid_effect now id ref t i e unsettled =
    let same = completed-paid_intent now ref i in
    let (a, b, c) = settle_intent_effect now id ref t i e unsettled in
    (
      a ∙ ap some same,
      (λ k. b k ∙ ap (λ x. if id == k then some x else lookup k t.intents) same),
      (λ k.
          c k
          ∙ ap
              (λ x.
                if i.job_id == k
                then Option.map (λ j. featured_job j x now ref) (lookup k t.jobs)
                else lookup k t.jobs)
              same
          ∙ ap (λ f. if i.job_id == k then Option.map f (lookup k t.jobs) else lookup k t.jobs)
              (fun_ext (featured-paid_job now ref i))),
    )

-- Settling ends in one of three ways. An intent that is not there is answered with none, and one
-- that is completed with itself, and neither changes a row. Any other intent is returned and stored
-- completed at this time, with the given reference unless that is absent or empty; its job, if there
-- is one, is stored as updated at this time, featured through the day that the intent bought, and
-- with the charge's number, provider, reference, amount, currency and times as the last of at most
-- fifty charges. All other intents and jobs stay as they are.
pub settle_intent_total :
    (now id : ℕ) (ref : Option String) (t : PayTables)
    → ((lookup id t.intents ≡ none) × (settle_intent now id ref t ≡ (none, t)))
      ⊎ ((i : PaymentIntent) × (lookup id t.intents ≡ some i)
          × (i.status ≡ PaymentStatus.completed)
          × (settle_intent now id ref t ≡ (some i, t)))
      ⊎ ((i : PaymentIntent) × (lookup id t.intents ≡ some i)
          × (i.status ≢ PaymentStatus.completed)
          × ((settle_intent now id ref t).0 ≡ some (paid_intent now ref i))
          × ((k : ℕ)
              → lookup k (settle_intent now id ref t).1.intents
                ≡ (if id == k then some (paid_intent now ref i) else lookup k t.intents))
          × ((k : ℕ)
              → lookup k (settle_intent now id ref t).1.jobs ≡ (
                  if i.job_id == k
                  then Option.map (paid_job now ref i) (lookup k t.jobs)
                  else lookup k t.jobs)))
settle_intent_total now id ref t = elim (Option-cases (lookup id t.intents)) [
  | inl e ↦ inl (e, settle_missing now id ref t e)
  | inr (i, e) ↦ elim (Bool-cases (i.status == PaymentStatus.completed)) [
    | inl c ↦
        let done = (==_iff i.status PaymentStatus.completed).0 c in
        inr (inl (i, e, done, settle_completed now id ref t i e done))
    | inr c ↦
        let unsettled : i.status ≢ PaymentStatus.completed =
          λ q. ground (arith, c, (==_iff i.status PaymentStatus.completed).1 q) in
        let (a, b, p) = paid_effect now id ref t i e unsettled in
        inr (inr (i, e, unsettled, a, b, p))
  ]
]

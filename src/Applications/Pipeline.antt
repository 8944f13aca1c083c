-- ===== src/Applications/Pipeline.antt =====
-- backend/app/services/applications.py: what the creation of an application and a change of its
-- status leave behind.
use employed.Base.{
  Bool, Bool-cases, List, String, [], ap, append-nil, arith, false, false≢true, inl, inr, is_some,
  list_eq, nat_eq, option_eq, refl, some, string_eq, sym, true, ℕ, ◌++◌, ◌↔◌, ◌∙◌, ◌∷◌, ◌≡◌, ◌≢◌,
  ◌⊎◌,
}
use employed.Enums.{
  ApplicationStatus, WebhookEvent, application_created, application_status_changed,
  application_status_value, country_eq, job_status_eq, job_type_eq, market_key_eq,
  membership_status_eq, payment_provider_key_eq, payment_status_eq, verification_state_eq,
}
use employed.Webhooks.{
  EmitError, WebhookDelivery, WebhookEndpoint, WebhookTables, emit, emit_to, make_deliveries,
  subscribed_endpoints,
}
use employed.Applications.{
  Application, ApplicationTables, EmitWorld, both_or_neither, candidate_error, change_status,
  create_application, created_payload, emit_application_created, emit_application_status_changed,
  flush_error, guarded_emit, status_changed_payload,
}
use employed.Base.Dict.{Dict, insert}
use employed.Base.Outcome.{Outcome, Outcome-cases, ok, raised}
use employed.Json.{Json, text}
use employed.Audit.{AuditLog, audit_entry, lacks_actor, write_audit}

both_or_neither_iff : (a b : Bool) → (both_or_neither a b ≡ true) ↔ (a ≡ b)
unfolding both_or_neither
both_or_neither_iff a b = ground arith

-- The webhook tables with some deliveries more.
abbrev pub Grows : WebhookTables → WebhookTables → Type 0
Grows t t' =
    (t'.endpoints ≡ t.endpoints)
    × (new : List WebhookDelivery) × (t'.deliveries ≡ t.deliveries ++ new)

Grows-same : (t : WebhookTables) → Grows t t
Grows-same t = (refl, [], sym (append-nil t.deliveries))

-- What a guarded call keeps of an answer of `emit`.
abbrev pub kept :
    WebhookTables → Outcome EmitError (List WebhookDelivery × WebhookTables) → WebhookTables
kept t (ok r) = r.1
kept t (raised e) = t

emit_to-Grows :
    (ids : ℕ → ℕ) (fails : Bool) (accepts : ℕ → Bool) (event : WebhookEvent)
    (payload : Dict String Json) (t : WebhookTables) (ws : List WebhookEndpoint)
    → Grows t (kept t (emit_to ids fails accepts event payload t ws))
unfolding emit_to
emit_to-Grows ids fails accepts event payload t [] = Grows-same t
emit_to-Grows ids true accepts event payload t (w ∷ ws) = Grows-same t
emit_to-Grows ids false accepts event payload t (w ∷ ws) =
    (refl, make_deliveries ids 0 event payload (w ∷ ws), refl)

guarded_emit-Grows :
    (w : EmitWorld) (event : WebhookEvent) (payload : Dict String Json) (t : WebhookTables)
    → Grows t (guarded_emit w event payload t)
unfolding guarded_emit emit
guarded_emit-Grows w event payload t = elim (Bool-cases w.available) [
  | inr e ↦ rw (e, guarded_emit) (Grows-same t)
  | inl e ↦ elim (Outcome-cases (emit w.ids w.flush_fails w.accepts event payload t)) [
    | inr (x, q) ↦ rw (e, q) (Grows-same t)
    | inl (r, q) ↦
        (let g =
            emit_to-Grows w.ids w.flush_fails w.accepts event payload t
              (subscribed_endpoints t.endpoints event) in
          rw (e, q) (rw (ap (kept t) q) at g))
  ]
]

emit_application_created-Grows :
    (w : EmitWorld) (a : Application) (t : WebhookTables) → Grows t (emit_application_created w a t)
unfolding emit_application_created
emit_application_created-Grows w a t =
    guarded_emit-Grows w application_created (created_payload a) t

emit_application_status_changed-Grows :
    (w : EmitWorld) (a : Application) (previous : ApplicationStatus) (t : WebhookTables)
    → Grows t (emit_application_status_changed w a previous t)
unfolding emit_application_status_changed
emit_application_status_changed-Grows w a previous t =
    guarded_emit-Grows w application_status_changed (status_changed_payload previous a) t

-- A creation raises, and writes nothing, when the candidate is given twice or not at all, or when
-- the insert fails. Otherwise, whatever becomes of the webhook, the returned application is at
-- `applied` and is the row under its id; no other row and no audit entry changes, and the webhook
-- deliveries that were there stay.
create_application_total :
    (insert_fails : Bool) (w : EmitWorld) (a : Application) (t : ApplicationTables)
    → ((is_some a.candidate_user_id ≡ is_some a.candidate_snapshot)
        × (create_application insert_fails w a t ≡ (raised candidate_error, t)))
      ⊎ ((insert_fails ≡ true) × (create_application insert_fails w a t ≡ (raised flush_error, t)))
      ⊎ ((is_some a.candidate_user_id ≢ is_some a.candidate_snapshot)
          × (insert_fails ≡ false)
          × (hooks : WebhookTables) × Grows t.webhooks hooks
          × (create_application insert_fails w a t ≡ (
              let made = record a { status = ApplicationStatus.applied } in
              (
                ok made,
                record t { applications = insert a.id made t.applications; webhooks = hooks },
              ))))
unfolding create_application
create_application_total insert_fails w a t =
    let both = both_or_neither_iff (is_some a.candidate_user_id) (is_some a.candidate_snapshot) in
    elim (Bool-cases
      (both_or_neither (is_some a.candidate_user_id) (is_some a.candidate_snapshot))) [
        | inl e ↦ inl (both.0 e, rw (e, both_or_neither) refl)
        | inr e ↦ elim (Bool-cases insert_fails) [
          | inl f ↦ inr (inl (f, rw (e, f) refl))
          | inr f ↦ inr (
              inr (
                λ q. false≢true (sym e ∙ both.1 q),
                f,
                emit_application_created w (record a { status = ApplicationStatus.applied })
                    t.webhooks,
                emit_application_created-Grows w (record a { status = ApplicationStatus.applied })
                    t.webhooks,
                rw (e, f) refl,
              ))
        ]
      ]

-- A change of status always succeeds, from any status to any: the application under its id carries
-- the new status, one audit entry names the actor, the application, and both statuses, and the
-- webhook deliveries that were there stay, whatever becomes of the new ones.
change_status_total :
    (w : EmitWorld) (a : Application) (status : ApplicationStatus) (actor : ℕ)
    (t : ApplicationTables)
    → (hooks : WebhookTables) × (entry : AuditLog) × Grows t.webhooks hooks
      × (change_status w a status actor t ≡ (
          let moved = record a { status = status } in
          (
            ok moved,
            record {
              applications = insert a.id moved t.applications;
              trail = t.trail ++ entry ∷ [];
              webhooks = hooks;
            },
          )))
      × (entry.actor_id ≡ some actor)
      × (entry.target_id ≡ a.id)
      × (entry.before ≡ some (("status", text (application_status_value a.status)) ∷ []))
      × (entry.after ≡ some (("status", text (application_status_value status)) ∷ []))
unfolding change_status write_audit audit_entry lacks_actor
change_status_total w a status actor t = (
  emit_application_status_changed w (record a { status = status }) a.status t.webhooks,
  _,
  emit_application_status_changed-Grows w (record a { status = status }) a.status t.webhooks,
  refl,
  refl,
  refl,
  refl,
  refl,
)

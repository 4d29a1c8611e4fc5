-- ===== src/Service/Audited/Atomic.antt =====
-- `RbacService._run_audited` is all or nothing, and leaves the evidence of what it did.
use fastapi_templates_xtn.Prelude.{
  ℕ, ◌≡◌, refl, List, [], ◌∷◌, ◌++◌, Option, none, ok, err, sym, subst, Ensures, bind_ok, ensured,
  Result-cases, ltb→lt, ◌<◌, arith, ◌⊎◌, inl, inr, String, ltb, Bool-cases,
}
use fastapi_templates_xtn.Errors.{Outcome, Error, RbacError, rbac_error, value_error, key_error}
use fastapi_templates_xtn.Audit.{
  Python, Fields, sanitize_audit_state, validate_audit_action, validate_audit_reason,
  validate_audit_request_id,
}
use fastapi_templates_xtn.Models.{RbacAuditEvent, Decision, allowed, denied, Db}
use fastapi_templates_xtn.Service.Base.{MutationOutcome, Operation}
use fastapi_templates_xtn.Service.Audited.{
  Request, or_else, audit_event, write_denied_audit, with_denied_audit, transaction, finish,
  run_audited,
}

-- Two databases that differ at most in their audit events.
pub record SameTables (d d' : Db) : Type 0 where
  pub users : d.users ≡ d'.users
  pub state : d.state ≡ d'.state
  pub permissions : d.permissions ≡ d'.permissions
  pub roles : d.roles ≡ d'.roles
  pub role_permissions : d.role_permissions ≡ d'.role_permissions
  pub user_roles : d.user_roles ≡ d'.user_roles

-- The event is about this request, by its actor.
pub record IsEventOf (request : Request) (decision : Decision) (reason : String)
    (event : RbacAuditEvent) : Type 0 where
  pub actor : event.actor_user_id ≡ request.context.principal.user_id
  pub target_user : event.target_user_id ≡ request.target_user_id
  pub decided : event.decision ≡ decision
  pub because : event.reason_code ≡ reason
  pub action : event.action ≡ request.action

module _ (py : Python) where
  abbrev pub after_event : Db → RbacAuditEvent → Db
  after_event d event = record d { audit_events = d.audit_events ++ event ∷ [] }

  validated_action : (s t : String) → validate_audit_action py s ≡ ok t → t ≡ s
  unfolding validate_audit_action
  validated_action s t h = ground arith

  validated_reason : (s t : String) → validate_audit_reason py s ≡ ok t → t ≡ s
  unfolding validate_audit_reason
  validated_reason s t h = ground arith

  pub audit_event-IsEventOf :
      (request : Request) (decision : Decision) (reason : String) (role : Option ℕ)
      (before after : Option Fields)
      → Ensures
          (audit_event py request decision reason role before after)
          (IsEventOf request decision reason)
  unfolding audit_event
  audit_event-IsEventOf request decision reason role before after =
      bind_ok (validate_audit_action py request.action) _ _ λ a ea.
        bind_ok (validate_audit_reason py reason) _ _ λ r er.
          bind_ok (sanitize_audit_state py before) _ _ λ b eb.
            bind_ok (sanitize_audit_state py after) _ _ λ c ec.
              bind_ok (validate_audit_request_id py request.context.request_id) _ _ λ i ei. record {
                actor = refl;
                target_user = refl;
                decided = refl;
                because = validated_reason reason r er;
                action = validated_action request.action a ea;
              }

  -- The database after a request that may have left the evidence of its denial.
  abbrev pub Rejected : Request → Db → Error → Db → Type 0
  Rejected request db e db' =
      (db' ≡ db)
      ⊎ ((error : RbacError) × (event : RbacAuditEvent) × (e ≡ rbac_error error)
          × (error.status_code < 500)
          × IsEventOf request denied error.reason_code event
          × (db' ≡ after_event db event))

  with_denied_audit-Rejected :
      (request : Request) (error : RbacError) (db : Db)
      → Rejected request db (rbac_error error) (with_denied_audit py request error db)
  unfolding with_denied_audit write_denied_audit
  with_denied_audit-Rejected request error db = elim (Bool-cases (ltb error.status_code 500)) [
    | inl client ↦
        elim (Result-cases
          (audit_event py request denied error.reason_code request.target_role_id none none)) [
            | inl (event, e) ↦
                rw (client, e)
                  (inr (
                    error,
                    event,
                    refl,
                    ltb→lt error.status_code 500 client,
                    ensured _ e (
                        audit_event-IsEventOf request denied error.reason_code
                          request.target_role_id none none),
                    refl,
                  ))
            | inr (x, e) ↦ rw (client, e) (inl refl)
          ]
    | inr server ↦ rw server (inl refl)
  ]

  module _ {T : Type 0} (request : Request) (operation : Operation T) (db : Db) where
    -- The database after a request that succeeded.
    abbrev pub Committed : T → Db → Type 0
    Committed value db' =
        (outcome : MutationOutcome T) × (d : Db) × (event : RbacAuditEvent) × (operation db
          ≡ ok (outcome, d))
        × (value ≡ outcome.value)
        × IsEventOf request allowed outcome.reason_code event
        × (db' ≡ after_event d event)

    transaction-Committed : Ensures (transaction py request operation db) (λ r. Committed r.0 r.1)
    unfolding transaction
    transaction-Committed = bind_ok (operation db) _ _ λ done e.
        bind_ok
          (audit_event py request allowed done.0.reason_code
            (or_else done.0.audit_target_role_id request.target_role_id) done.0.before_state
            done.0.after_state)
          _ _
          λ event ev. (
            done.0,
            done.1,
            event,
            e,
            refl,
            ensured _ ev (audit_event-IsEventOf request allowed done.0.reason_code _ _ _),
            refl,
          )

    abbrev pub Audited : Outcome T × Db → Type 0
    Audited (ok value, db') = Committed value db'
    Audited (err e, db') = Rejected request db e db'

    finish-Audited :
        (r : Outcome (T × Db))
        → Ensures r (λ x. Committed x.0 x.1)
        → Audited (finish py request db r)
    unfolding finish
    finish-Audited (ok (value, d)) h = h
    finish-Audited (err (rbac_error e)) h = with_denied_audit-Rejected request e db
    finish-Audited (err (value_error m)) h = inl refl
    finish-Audited (err (key_error k)) h = inl refl

    -- An audited request that returns has committed exactly the writes of its operation and one event that
    -- allows it; one that raises has written nothing, or only one event that denies it, and that for an
    -- error below 500.
    pub run_audited_atomic : Audited (run_audited py request operation db)
    unfolding run_audited
    run_audited_atomic = finish-Audited (transaction py request operation db) transaction-Committed

    -- What an operation keeps, and the events do not touch, an audited request keeps.
    pub run_audited_keeps {ℓ} :
        (P : Db → Type ℓ)
        → ((d : Db) (events : List RbacAuditEvent) → P d → P (record d { audit_events = events }))
        → Ensures (operation db) (λ r. P r.1)
        → P db
        → P (run_audited py request operation db).1
    run_audited_keeps P stable keeps h =
        after (run_audited py request operation db) run_audited_atomic
      where
        rejected : (e : Error) (db' : Db) → Rejected request db e db' → P db'
        rejected e db' (inl same) = subst P (sym same) h
        rejected e db' (inr (error, event, a, b, c, same)) =
            subst P (sym same) (stable db (db.audit_events ++ event ∷ []) h)

        after : (r : Outcome T × Db) → Audited r → P r.1
        after (ok v, db') (outcome, d, event, ran, same, is_event, written) =
            subst P (sym written)
              (stable d (d.audit_events ++ event ∷ []) (ensured (λ r. P r.1) ran keeps))
        after (err e, db') rej = rejected e db' rej

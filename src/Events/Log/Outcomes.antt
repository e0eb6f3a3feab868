-- ===== src/Events/Log/Outcomes.antt =====
-- events.py: the paths on which `append` and `append_fenced` return.
use auto_lean.Base.{
  ◌≡◌, refl, ◌∙◌, ap, ◌⊎◌, inl, inr, Option, none, some, List, String, Result, ok, arith, >>=-eq-ok,
  >>-eq-ok, guard_then-eq-ok, not, ◌&&◌, value_error, string_Eq, pair_Eq, ◌==◌,
}
use auto_lean.Base.Int.{int_Eq}
use auto_lean.Base.Text.{is_blank}
use auto_lean.Base.Lists.{any}
use auto_lean.Json.{Codec}
use auto_lean.Leases.{Lease}
use auto_lean.Events.{StoredEvent, Idempotency, AttestationNonce, binding_Eq, Db, Env, Request}
use auto_lean.Events.Read.{existing_idempotency}
use auto_lean.Events.Append.{
  validate_append_request, replay_or, append_new, append_locked, append, is_registration,
}
use auto_lean.Events.Fenced.{
  assert_current_fence, assert_fenced_replay_task_binding, validate_fenced_task_binding,
  replay_or_fenced, append_fenced,
}

module _ (c : Codec) where
  abbrev Out : Type 0
  Out = List StoredEvent × Db c.Doc

  -- An answer from an idempotency record, which writes nothing.
  abbrev pub Replayed : Option Idempotency → Db c.Doc → List StoredEvent → Db c.Doc → Type 0
  Replayed idempotency db events db' =
      (existing_idempotency c db idempotency ≡ ok (some events)) × (db' ≡ db)

  -- New events under an idempotency key that has no record.
  abbrev pub Made :
      Env
      → Request
      → Option Idempotency
      → Option AttestationNonce
      → Db c.Doc
      → List StoredEvent
      → Db c.Doc
      → Type 0
  Made env r idempotency attestation db events db' =
      (existing_idempotency c db idempotency ≡ ok none)
      × (append_new c env r idempotency attestation db ≡ ok (events, db'))

  replay_or-eq-ok :
      (db : Db c.Doc) (o : Option (List StoredEvent)) (new : Result Out) (events : List StoredEvent)
      (db' : Db c.Doc)
      → replay_or c db o new ≡ ok (events, db')
      → ((o ≡ some events) × (db' ≡ db)) ⊎ ((o ≡ none) × (new ≡ ok (events, db')))
  unfolding replay_or
  replay_or-eq-ok db none new events db' h = inr (refl, h)
  replay_or-eq-ok db (some es) new events db' h = ground arith

  pub append-eq-ok :
      (env : Env) (r : Request) (idempotency : Option Idempotency)
      (attestation : Option AttestationNonce) (db : Db c.Doc) (events : List StoredEvent)
      (db' : Db c.Doc)
      → append c env r idempotency attestation db ≡ ok (events, db')
      → Replayed idempotency db events db' ⊎ Made env r idempotency attestation db events db'
  unfolding append append_locked
  append-eq-ok env r idempotency attestation db events db' h =
      let (_, h1) = >>-eq-ok (validate_append_request r) _ h in
      let (_, h2) =
        guard_then-eq-ok (not (r.entity_type == "task" && any is_registration r.new_events))
          value_error _ h1 in
      let (existing, found, h3) = >>=-eq-ok (existing_idempotency c db idempotency) _ h2 in
      elim (replay_or-eq-ok db existing _ events db' h3) [
        | inl (e, same) ↦ inl (found ∙ ap ok e, same)
        | inr (e, made) ↦ inr (found ∙ ap ok e, made)
      ]

  replay_or_fenced-eq-ok :
      (task_id : String) (db : Db c.Doc) (o : Option (List StoredEvent)) (new : Result Out)
      (events : List StoredEvent) (db' : Db c.Doc)
      → replay_or_fenced c task_id db o new ≡ ok (events, db')
      → ((o ≡ some events)
          × (assert_fenced_replay_task_binding task_id events ≡ ok tt)
          × (db' ≡ db))
        ⊎ ((o ≡ none) × (new ≡ ok (events, db')))
  unfolding replay_or_fenced
  replay_or_fenced-eq-ok task_id db none new events db' h = inr (refl, h)
  replay_or_fenced-eq-ok task_id db (some es) new events db' h =
      let (belongs, same) = >>-eq-ok (assert_fenced_replay_task_binding task_id es) _ h in
      inl (ground (arith, same), ground (arith, same, belongs), ground (arith, same))

  pub append_fenced-eq-ok :
      (env : Env) (task_id : String) (lease : Lease) (r : Request)
      (idempotency : Option Idempotency) (attestation : Option AttestationNonce) (db : Db c.Doc)
      (events : List StoredEvent) (db' : Db c.Doc)
      → append_fenced c env task_id lease r idempotency attestation db ≡ ok (events, db')
      → (validate_fenced_task_binding task_id r.new_events ≡ ok tt)
        × ((Replayed idempotency db events db'
              × (assert_fenced_replay_task_binding task_id events ≡ ok tt))
            ⊎ ((assert_current_fence c env task_id lease db ≡ ok tt)
                × Made env r idempotency attestation db events db'))
  unfolding append_fenced
  append_fenced-eq-ok env task_id lease r idempotency attestation db events db' h =
      let (_, h1) = >>-eq-ok (validate_append_request r) _ h in
      let (_, h2) = guard_then-eq-ok (not (is_blank task_id)) value_error _ h1 in
      let (bound, h3) = >>-eq-ok (validate_fenced_task_binding task_id r.new_events) _ h2 in
      let (existing, found, h4) = >>=-eq-ok (existing_idempotency c db idempotency) _ h3 in
      (
        bound,
        elim (replay_or_fenced-eq-ok task_id db existing _ events db' h4) [
          | inl (e, belongs, same) ↦ inl ((found ∙ ap ok e, same), belongs)
          | inr (e, made) ↦
              let (current, made') =
                >>-eq-ok (assert_current_fence c env task_id lease db) _ made in
              inr (current, (found ∙ ap ok e, made'))
        ],
      )

-- ===== src/Events/Log/Identifiers.antt =====
-- events.py: the identifiers that a write returns are distinct, and decode from their record.
use auto_lean.Base.{
  ℕ, ◌+◌, ◌≡◌, refl, ◌∙◌, ap, true, false, ◌||◌, some, List, [], ◌∷◌, ◌++◌, String, ok, arith,
  >>=-eq-ok, ◌==◌, string_Eq, eq_iff,
}
use auto_lean.Base.Lists.{any, contains, distinct, is_empty}
use auto_lean.Json.{Codec, arr, texts}
use auto_lean.Events.{NewEvent, EventRow, Db, Env}
use auto_lean.Events.Read.{nonempty_texts, unique_ids, event_id_list}
use auto_lean.Events.Append.{collides, insert_new_event, insert_events}
use auto_lean.Events.Log.Rows.{row_ids, with_row, insert_new_event-eq-ok}

-- `str(uuid.uuid4())` is never the empty text.
pub record NamesEvents (env : Env) : Type 0 where
  pub names : (k : ℕ) → (env.uuid4 k == "") ≡ false

module _ (c : Codec) where
  fresh-contains :
      (row : EventRow c.Doc) (rows : List (EventRow c.Doc))
      → any (collides c row) rows ≡ false
      → contains row.event_id (row_ids c rows) ≡ false
  unfolding any contains row_ids
  fresh-contains row [] h = refl
  fresh-contains row (r ∷ rows) h = ground (arith, fresh-contains row rows)

  contains-row_ids_last :
      (id : String) (row : EventRow c.Doc) (rows : List (EventRow c.Doc))
      → contains id (row_ids c (rows ++ row ∷ []))
        ≡ (contains id (row_ids c rows) || row.event_id == id)
  unfolding contains row_ids
  contains-row_ids_last id row [] = ground arith
  contains-row_ids_last id row (r ∷ rows) = ground (arith, contains-row_ids_last id row rows)

  contains-with_row :
      (id : String) (row : EventRow c.Doc) (db mid : Db c.Doc)
      → mid ≡ with_row c row db
      → contains id (row_ids c mid.events)
        ≡ (contains id (row_ids c db.events) || row.event_id == id)
  unfolding with_row
  contains-with_row id row db mid step =
      ap (λ (d : Db c.Doc). contains id (row_ids c d.events)) step
      ∙ contains-row_ids_last id row db.events

  module _ (env : Env) (t i : String) (n at : ℕ) where
    -- An identifier that is in the log already is not given to a new event.
    ids-fresh :
        (offset : ℕ) (events : List NewEvent) (db : Db c.Doc) (ids : List String) (db' : Db c.Doc)
        (id : String)
        → insert_events c env t i n at offset events db ≡ ok (ids, db')
        → contains id (row_ids c db.events) ≡ true
        → contains id ids ≡ false
    unfolding insert_events contains
    ids-fresh offset [] db ids db' id h old = ground arith
    ids-fresh offset (event ∷ events) db ids db' id h old =
        let (mid, inserted, h1) = >>=-eq-ok (insert_new_event c env t i n at offset event db) _ h in
        let (rest, looped, same) =
          >>=-eq-ok (insert_events c env t i n at (offset + 1) events mid) _ h1 in
        let (row, is, fresh, step) =
          insert_new_event-eq-ok c env t i n at offset event db inserted in
        let grown : contains id (row_ids c mid.events) ≡ true =
          contains-with_row id row db mid step ∙ ground (arith, old) in
        ground (
          arith,
          same,
          is.named,
          fresh-contains row db.events fresh,
          eq_iff (env.uuid4 offset) id,
          ids-fresh (offset + 1) events mid rest.0 rest.1 id looped grown,
        )

    ids-distinct :
        (offset : ℕ) (events : List NewEvent) (db : Db c.Doc) (ids : List String) (db' : Db c.Doc)
        → insert_events c env t i n at offset events db ≡ ok (ids, db')
        → distinct ids ≡ true
    unfolding insert_events distinct
    ids-distinct offset [] db ids db' h = ground arith
    ids-distinct offset (event ∷ events) db ids db' h =
        let (mid, inserted, h1) = >>=-eq-ok (insert_new_event c env t i n at offset event db) _ h in
        let (rest, looped, same) =
          >>=-eq-ok (insert_events c env t i n at (offset + 1) events mid) _ h1 in
        let (row, is, fresh, step) =
          insert_new_event-eq-ok c env t i n at offset event db inserted in
        let grown : contains (env.uuid4 offset) (row_ids c mid.events) ≡ true =
          contains-with_row (env.uuid4 offset) row db mid step
          ∙ ground (arith, is.named, eq_iff row.event_id (env.uuid4 offset)) in
        ground (
          arith,
          same,
          ids-fresh (offset + 1) events mid rest.0 rest.1 (env.uuid4 offset) looped grown,
          ids-distinct (offset + 1) events mid rest.0 rest.1 looped,
        )

    ids-nonempty :
        NamesEvents env
        → (offset : ℕ) (events : List NewEvent) (db : Db c.Doc) (ids : List String) (db' : Db c.Doc)
        → insert_events c env t i n at offset events db ≡ ok (ids, db')
        → (nonempty_texts (texts ids) ≡ some ids) × (is_empty ids ≡ is_empty events)
    unfolding insert_events nonempty_texts texts
    ids-nonempty named offset [] db ids db' h = ground arith
    ids-nonempty named offset (event ∷ events) db ids db' h =
        let (mid, inserted, h1) = >>=-eq-ok (insert_new_event c env t i n at offset event db) _ h in
        let (rest, looped, same) =
          >>=-eq-ok (insert_events c env t i n at (offset + 1) events mid) _ h1 in
        ground (
          arith,
          same,
          named.names offset,
          ids-nonempty named (offset + 1) events mid rest.0 rest.1 looped,
        )

    -- The record of a write decodes to the identifiers of its events.
    pub event_id_list-ids :
        NamesEvents env
        → (offset : ℕ) (events : List NewEvent) (db : Db c.Doc) (ids : List String) (db' : Db c.Doc)
        → insert_events c env t i n at offset events db ≡ ok (ids, db')
        → is_empty events ≡ false
        → event_id_list (arr (texts ids)) ≡ some ids
    unfolding event_id_list unique_ids
    event_id_list-ids named offset events db ids db' h some_event =
        let whole = ids-nonempty named offset events db ids db' h in
        ground (arith, whole, ids-distinct offset events db ids db' h)

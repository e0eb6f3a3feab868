-- ===== src/Events/Log/Rows.antt =====
-- events.py: the rows that the loop of a write inserts.
use mathlib.Core.List.{append_assoc, append-nil}
use auto_lean.Base.{
  ℕ, ◌+◌, ◌≡◌, refl, subst, false, List, [], ◌∷◌, ◌++◌, String, Result, ok, arith, >>=-eq-ok,
}
use auto_lean.Base.Lists.{length, any}
use auto_lean.Json.{Codec, obj, canonical_json}
use auto_lean.Events.{NewEvent, EventRow, Db, Env}
use auto_lean.Events.Append.{collides, insert_new_event, insert_events}
use auto_lean.Events.Log.Writes.{insert_event-eq-ok}

module _ (c : Codec) where
  -- A row for a new event at an offset of the stream's sequence.
  pub record IsRowOf (env : Env) (entity_type entity_id : String) (expected offset position : ℕ)
      (event : NewEvent) (row : EventRow c.Doc) : Type 0 where
    pub in_type : row.entity_type ≡ entity_type
    pub in_entity : row.entity_id ≡ entity_id
    pub sequence : row.entity_sequence ≡ expected + offset
    pub at_position : row.global_position ≡ position + 1
    pub kind : row.event_type ≡ event.event_type
    pub named : row.event_id ≡ env.uuid4 offset

  abbrev pub AreRowsOf :
      Env → String → String → ℕ → ℕ → ℕ → List NewEvent → List (EventRow c.Doc) → Type 0
  AreRowsOf env t i n offset position [] [] = Unit {0}
  AreRowsOf env t i n offset position (event ∷ events) (row ∷ rows) =
      IsRowOf env t i n offset position event row
      × AreRowsOf env t i n (offset + 1) (position + 1) events rows
  AreRowsOf env t i n offset position _ _ = ⊥

  -- The tables with rows appended to the log.
  abbrev pub with_rows : List (EventRow c.Doc) → Db c.Doc → Db c.Doc
  with_rows rows db = record db {
    events = db.events ++ rows;
    last_position = db.last_position + length rows;
  }

  unfoldable pub row_ids : List (EventRow c.Doc) → List String
  row_ids [] = []
  row_ids (row ∷ rows) = row.event_id ∷ row_ids rows

  unfoldable pub with_row : EventRow c.Doc → Db c.Doc → Db c.Doc
  with_row row db = record db {
    events = db.events ++ row ∷ [];
    last_position = row.global_position;
  }

  pub insert_new_event-eq-ok :
      (env : Env) (t i : String) (n at offset : ℕ) (event : NewEvent) (db : Db c.Doc)
      {db' : Db c.Doc}
      → insert_new_event c env t i n at offset event db ≡ ok db'
      → (row : EventRow c.Doc) × IsRowOf env t i n offset db.last_position event row
        × (any (collides c row) db.events ≡ false)
        × (db' ≡ with_row row db)
  unfolding insert_new_event with_row
  insert_new_event-eq-ok env t i n at offset event db h =
      let (payload, _, h1) = >>=-eq-ok (canonical_json c (obj event.payload)) _ h in
      let (metadata, _, h2) = >>=-eq-ok (canonical_json c (obj event.metadata)) _ h1 in
      let facts = insert_event-eq-ok c _ db h2 in
      (
        record {
          global_position = db.last_position + 1;
          event_id = env.uuid4 offset;
          entity_type = t;
          entity_id = i;
          entity_sequence = n + offset;
          event_type = event.event_type;
          payload_json = payload;
          metadata_json = metadata;
          recorded_at = at;
        },
        record {
          in_type = refl;
          in_entity = refl;
          sequence = refl;
          at_position = refl;
          kind = refl;
          named = refl;
        },
        facts.0,
        facts.1,
      )

  -- The result of the loop.
  abbrev pub Inserted :
      Env → String → String → ℕ → ℕ → List NewEvent → Db c.Doc → List String → Db c.Doc → Type 0
  Inserted env t i n offset events db ids db' =
      (rows : List (EventRow c.Doc)) × AreRowsOf env t i n offset db.last_position events rows
      × (db' ≡ with_rows rows db)
      × (ids ≡ row_ids rows)

  Inserted-nil :
      (env : Env) (t i : String) (n offset : ℕ) (db : Db c.Doc)
      → Inserted env t i n offset [] db [] db
  unfolding row_ids
  Inserted-nil env t i n offset db = ([], tt, ground (arith, append-nil db.events), refl)

  Inserted-cons :
      (env : Env) (t i : String) (n offset : ℕ) (event : NewEvent) (events : List NewEvent)
      (db : Db c.Doc) (row : EventRow c.Doc) (ids : List String) (db' : Db c.Doc)
      → IsRowOf env t i n offset db.last_position event row
      → Inserted env t i n (offset + 1) events (with_row row db) ids db'
      → Inserted env t i n offset (event ∷ events) db (env.uuid4 offset ∷ ids) db'
  unfolding row_ids with_row
  Inserted-cons env t i n offset event events db row ids db' is (rows, are, tables, names) = (
    row ∷ rows,
    (is, subst (λ p. AreRowsOf env t i n (offset + 1) p events rows) is.at_position are),
    ground (arith, append_assoc db.events (row ∷ []) rows, is.at_position),
    ground (arith, is.named),
  )

  Inserted-cast :
      (env : Env) (t i : String) (n offset : ℕ) (events : List NewEvent) (db : Db c.Doc)
      (ids ids' : List String) (db' db'' : Db c.Doc)
      → ◌≡◌ {A = Result (List String × Db c.Doc)} (ok (ids, db')) (ok (ids', db''))
      → Inserted env t i n offset events db ids db'
      → Inserted env t i n offset events db ids' db''
  Inserted-cast env t i n offset events db ids ids' db' db'' e (rows, are, tables, names) =
      (rows, are, ground arith, ground arith)

  pub insert_events-eq-ok :
      (env : Env) (t i : String) (n at offset : ℕ) (events : List NewEvent) (db : Db c.Doc)
      (ids : List String) (db' : Db c.Doc)
      → insert_events c env t i n at offset events db ≡ ok (ids, db')
      → Inserted env t i n offset events db ids db'
  unfolding insert_events
  insert_events-eq-ok env t i n at offset [] db ids db' h =
      Inserted-cast env t i n offset [] db [] ids db db' h (Inserted-nil env t i n offset db)
  insert_events-eq-ok env t i n at offset (event ∷ events) db ids db' h =
      let (mid, inserted, h1) = >>=-eq-ok (insert_new_event c env t i n at offset event db) _ h in
      let (rest, looped, same) =
        >>=-eq-ok (insert_events c env t i n at (offset + 1) events mid) _ h1 in
      let (row, is, fresh, step) = insert_new_event-eq-ok env t i n at offset event db inserted in
      Inserted-cast env t i n offset (event ∷ events) db _ ids rest.1 db' same (
        Inserted-cons env t i n offset event events db row rest.0 rest.1 is (
          subst (λ d. Inserted env t i n (offset + 1) events d rest.0 rest.1) step
            (insert_events-eq-ok env t i n at (offset + 1) events mid rest.0 rest.1 looped)))

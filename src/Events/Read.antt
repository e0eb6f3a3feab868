-- ===== src/Events/Read.antt =====
-- events.py: queries, decoded rows, and the lookup of idempotency records.
use auto_lean.Base.{
  ℕ, zero, suc, Bool, not, ◌&&◌, Option, none, some, List, [], ◌∷◌, String, lookup, Result, ok, err,
  value_error, runtime_error, projection_error, idempotency_conflict, ◌>>=◌, ◌>>◌, guard, or_raise,
  ltb, leb, ◌==◌, string_Eq, pair_Eq, if◌then◌else◌,
}
use auto_lean.Base.Int.{ℤ, pos, negsuc}
use auto_lean.Base.Lists.{take, length, distinct, is_empty}
use auto_lean.Json.{
  Json, Items, Codec, str, arr, nil, cons, load_canonical_json, load_canonical_json_object,
}
use auto_lean.Events.{StoredEvent, Idempotency, EventRow, IdempotencyRow, Db}

-- The texts of a JSON list of non-empty texts.
unfoldable pub nonempty_texts : Items → Option (List String)
nonempty_texts nil = some []
nonempty_texts (cons (str s) rest) =
    if s == "" then none else elim (nonempty_texts rest) [ none ↦ none | some ss ↦ some (s ∷ ss) ]
nonempty_texts (cons _ rest) = none

unfoldable pub unique_ids : Option (List String) → Option (List String)
unique_ids none = none
unique_ids (some ids) = if not (is_empty ids) && distinct ids then some ids else none

-- The check of a decoded `event_ids_json`.
unfoldable pub event_id_list : Json → Option (List String)
event_id_list (arr xs) = unique_ids (nonempty_texts xs)
event_id_list _ = none

module _ (c : Codec) where
  unfoldable pub row_to_event : EventRow c.Doc → Result StoredEvent
  row_to_event row = do
    payload ← load_canonical_json_object c row.payload_json
    metadata ← load_canonical_json_object c row.metadata_json
    ok (record {
      global_position = row.global_position;
      event_id = row.event_id;
      entity_type = row.entity_type;
      entity_id = row.entity_id;
      entity_sequence = row.entity_sequence;
      event_type = row.event_type;
      payload = payload;
      metadata = metadata;
      recorded_at = row.recorded_at;
    })

  unfoldable pub rows_to_events : List (EventRow c.Doc) → Result (List StoredEvent)
  rows_to_events [] = ok []
  rows_to_events (row ∷ rows) = do
    event ← row_to_event row
    events ← rows_to_events rows
    ok (event ∷ events)

  -- `SELECT * FROM events WHERE event_id = ?`
  unfoldable pub find_event : String → List (EventRow c.Doc) → Option (EventRow c.Doc)
  find_event id [] = none
  find_event id (row ∷ rows) = if row.event_id == id then some row else find_event id rows

  unfoldable pub events_by_ids : List (EventRow c.Doc) → List String → Result (List StoredEvent)
  events_by_ids rows [] = ok []
  events_by_ids rows (id ∷ ids) = do
    row ← or_raise (find_event id rows) runtime_error
    event ← row_to_event row
    events ← events_by_ids rows ids
    ok (event ∷ events)

  unfoldable pub resolve_idempotency :
      Db c.Doc → IdempotencyRow c.Doc → Idempotency → Result (List StoredEvent)
  resolve_idempotency db row value = do
    guard (row.request_hash == value.request_hash) idempotency_conflict
    decoded ← load_canonical_json c row.event_ids_json
    ids ← or_raise (event_id_list decoded) projection_error
    events_by_ids db.events ids

  unfoldable pub resolve_row :
      Db c.Doc → Idempotency → Option (IdempotencyRow c.Doc) → Result (Option (List StoredEvent))
  resolve_row db value none = ok none
  resolve_row db value (some row) = do events ← resolve_idempotency db row value; ok (some events)

  -- `lookup_idempotency`, which `_existing_idempotency` repeats inside a transaction.
  unfoldable pub lookup_idempotency : Db c.Doc → Idempotency → Result (Option (List StoredEvent))
  lookup_idempotency db value =
      resolve_row db value (lookup (value.scope, value.key) db.idempotency_records)

  unfoldable pub existing_idempotency :
      Db c.Doc → Option Idempotency → Result (Option (List StoredEvent))
  existing_idempotency db none = ok none
  existing_idempotency db (some value) = lookup_idempotency db value

  unfoldable pub current_sequence : String → String → Db c.Doc → ℕ
  current_sequence entity_type entity_id db =
      elim (lookup (entity_type, entity_id) db.entity_versions) [ none ↦ 0 | some n ↦ n ]

  abbrev pub in_stream : String → String → EventRow c.Doc → Bool
  in_stream entity_type entity_id row = row.entity_type == entity_type && row.entity_id == entity_id

  -- `WHERE`
  unfoldable pub select : (EventRow c.Doc → Bool) → List (EventRow c.Doc) → List (EventRow c.Doc)
  select test [] = []
  select test (row ∷ rows) = let rest = select test rows in if test row then row ∷ rest else rest

  -- `ORDER BY`
  unfoldable pub order_row :
      (EventRow c.Doc → ℕ) → EventRow c.Doc → List (EventRow c.Doc) → List (EventRow c.Doc)
  order_row key row [] = row ∷ []
  order_row key row (r ∷ rows) =
      if leb (key row) (key r) then row ∷ r ∷ rows else r ∷ order_row key row rows

  unfoldable pub order_by : (EventRow c.Doc → ℕ) → List (EventRow c.Doc) → List (EventRow c.Doc)
  order_by key [] = []
  order_by key (row ∷ rows) = order_row key row (order_by key rows)

  unfoldable pub read_stream : String → String → ℕ → Db c.Doc → Result (List StoredEvent)
  read_stream entity_type entity_id after_sequence db = rows_to_events (
      order_by (λ row. row.entity_sequence)
        (select
          (λ row. in_stream entity_type entity_id row && ltb after_sequence row.entity_sequence)
          db.events))

  abbrev limited : Option ℤ → List (EventRow c.Doc) → Result (List (EventRow c.Doc))
  limited none rows = ok rows
  limited (some (pos zero)) rows = err value_error
  limited (some (pos (suc n))) rows = ok (take (suc n) rows)
  limited (some (negsuc n)) rows = err value_error

  unfoldable pub read_all : ℕ → Option ℤ → Db c.Doc → Result (List StoredEvent)
  read_all after_position limit db = do
    rows ← limited limit (
        order_by (λ row. row.global_position)
          (select (λ row. ltb after_position row.global_position) db.events))
    rows_to_events rows

  unfoldable pub count_events : Option String → Db c.Doc → ℕ
  count_events none db = length db.events
  count_events (some entity_type) db =
      length (select (λ row. row.entity_type == entity_type) db.events)

-- ===== src/Routes/Stream.antt =====
-- How the event stream of an execution ends.
use agentic_execution.Prelude.{
  ℕ, ◌≡◌, refl, sym, ◌∙◌, inl, inr, Bool, true, false, Option, none, some, List, [], ◌∷◌,
  Bool-cases, any, All, Text, eq-of-text_eq,
}
use agentic_execution.Models.{Execution, Db, get_execution}
use agentic_execution.Routes.{Event, update, done, keepalive, is_terminal, same_text, event_stream}

abbrev pub last_event : List Event → Option Event
last_event [] = none
last_event (e ∷ []) = some e
last_event (e ∷ f ∷ es) = last_event (f ∷ es)

last-cons :
    (x : Event) (es : List Event) {y : Event}
    → last_event es ≡ some y
    → last_event (x ∷ es) ≡ some y
last-cons x [] h = cc
last-cons x (e ∷ es) h = h

abbrev option_terminal : Option Execution → Bool
option_terminal none = false
option_terminal (some e) = is_terminal e

-- The execution has reached an end in this state of the database.
abbrev is_settled_at : ℕ → Db → Bool
is_settled_at id db = option_terminal (get_execution id db)

abbrev IsPresentAt : ℕ → Db → Type 0
IsPresentAt id db = (e : Execution) × (get_execution id db ≡ some e)

-- The payload shows whether the execution has ended, as it contains the status.
abbrev pub ShowsStatus : (Execution → Db → Text) → Type 0
ShowsStatus render =
    (e e' : Execution) (db db' : Db) → render e db ≡ render e' db' → is_terminal e ≡ is_terminal e'

-- An execution that has not ended leaves it to the later turns.
any-later :
    (id : ℕ) (db : Db) (dbs : List Db) {e : Execution}
    → get_execution id db ≡ some e
    → is_terminal e ≡ false
    → any (is_settled_at id) (db ∷ dbs) ≡ true
    → any (is_settled_at id) dbs ≡ true
any-later id db dbs {e} found ongoing = rw (found, ongoing) (λ h. h)

module _ (render : Execution → Db → Text) (shows : ShowsStatus render) (id : ℕ) where
  -- The payload that was sent last is not that of an ended execution.
  abbrev IsOpen : Option Text → Type 0
  IsOpen last_payload =
      (e : Execution) (db : Db)
      → same_text last_payload (render e db) ≡ true
      → is_terminal e ≡ false

  IsOpen-after : (e : Execution) (db : Db) → is_terminal e ≡ false → IsOpen (some (render e db))
  IsOpen-after e db ongoing e' db' same =
      sym (shows e e' db db' (eq-of-text_eq (render e db) (render e' db') same)) ∙ ongoing

  stream-done_from :
      (last_payload : Option Text) (dbs : List Db)
      → IsOpen last_payload
      → All (IsPresentAt id) dbs
      → any (is_settled_at id) dbs ≡ true
      → last_event (event_stream render id last_payload dbs) ≡ some done
  unfolding event_stream
  stream-done_from last_payload [] opened present settled = cc
  stream-done_from last_payload (db ∷ dbs) opened ((e, found), present) settled =
      elim (Bool-cases (same_text last_payload (render e db))) [
        | inl same ↦
            rw (found, same, event_stream)
              (last-cons keepalive (event_stream render id last_payload dbs) (
                stream-done_from last_payload dbs opened present
                  (any-later id db dbs {e = e} found (opened e db same) settled)))
        | inr fresh ↦ elim (Bool-cases (is_terminal e)) [
          | inl ended ↦ rw (found, fresh, ended, event_stream) refl
          | inr ongoing ↦
              rw (found, fresh, ongoing, event_stream)
                (last-cons (update (render e db)) (event_stream render id (some (render e db)) dbs)
                  (stream-done_from (some (render e db)) dbs (IsOpen-after e db ongoing) present
                    (any-later id db dbs {e = e} found ongoing settled)))
        ]
      ]

  -- If some turn before the deadline sees the execution ended, and every turn finds the execution,
  -- the last event of the stream is done, for payloads that show the status.
  pub stream-done :
      (dbs : List Db)
      → All (IsPresentAt id) dbs
      → any (is_settled_at id) dbs ≡ true
      → last_event (event_stream render id none dbs) ≡ some done
  stream-done dbs = stream-done_from none dbs (λ e db same. cc)

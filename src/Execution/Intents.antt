-- ===== src/Execution/Intents.antt =====
-- arc/storage/store.py: the intents table, as the list of its rows in the order of their insertion.
-- The market of an intent is taken to be stored, so that the foreign key holds.
use lufy.Prelude.{
  ℕ, Bool, true, false, ◌&&◌, ◌||◌, List, [], ◌∷◌, ◌++◌, any, keep, map, Text, text_eq, is_empty,
  leb, ◌==◌, if◌then◌else◌,
}
use lufy.Domain.Models.{ExecutionIntent}
use lufy.Execution.Ids.{colon, print}

pub record IntentRow : Type 0 where
  pub engine : Text
  pub intent_id : Text
  pub intent : ExecutionIntent

-- The row is the engine's for the window.
abbrev pub is_row : Text → ℕ → Text → IntentRow → Bool
is_row slug offset engine r =
    text_eq r.intent.market_slug slug
    && (r.intent.offset_seconds == offset)
    && text_eq r.engine engine

unfoldable pub has_intent : Text → ℕ → Text → List IntentRow → Bool
has_intent slug offset engine rows = any (is_row slug offset engine) rows

-- `intent.intent_id or f"{market_slug}:{offset_seconds}"`
abbrev pub row_id : ExecutionIntent → Text
row_id i =
    if is_empty i.intent_id then i.market_slug ++ (colon ∷ print i.offset_seconds) else i.intent_id

abbrev pub new_row : ExecutionIntent → Text → IntentRow
new_row i engine = record { engine = engine; intent_id = row_id i; intent = i }

-- `INSERT OR IGNORE`: a row with the key of the insert, or with its engine, market and window, is
-- a conflict
abbrev pub conflicts : ExecutionIntent → Text → List IntentRow → Bool
conflicts i engine rows =
    has_intent i.market_slug i.offset_seconds engine rows
    || any (λ r. text_eq r.intent_id (row_id i)) rows

-- `Store.save_intent`, with whether the row is new
unfoldable pub save_intent : ExecutionIntent → Text → List IntentRow → List IntentRow × Bool
unfolding has_intent print
save_intent i engine rows =
    if conflicts i engine rows then (rows, false) else (rows ++ new_row i engine ∷ [], true)

-- `ORDER BY offset_seconds`
abbrev pub insert_by_offset : ExecutionIntent → List ExecutionIntent → List ExecutionIntent
insert_by_offset i [] = i ∷ []
insert_by_offset i (j ∷ intents) =
    if leb i.offset_seconds j.offset_seconds
    then i ∷ j ∷ intents
    else j ∷ insert_by_offset i intents

abbrev pub by_offset : List ExecutionIntent → List ExecutionIntent
by_offset [] = []
by_offset (i ∷ intents) = insert_by_offset i (by_offset intents)

abbrev pub row_intent : IntentRow → ExecutionIntent
row_intent r = record r.intent { intent_id = r.intent_id }

-- `Store.intents_for` with an engine
unfoldable pub intents_for : Text → Text → List IntentRow → List ExecutionIntent
intents_for slug engine rows =
    by_offset (
      map row_intent
        (keep (λ r. text_eq r.intent.market_slug slug && text_eq r.engine engine) rows))

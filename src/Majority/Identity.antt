-- ===== src/Majority/Identity.antt =====
-- arc/majority/identity.py: the ids of an intent. The hash behind a trace id is the library's, and a
-- parameter.
use lufy.Prelude.{ℕ, ◌∷◌, ◌++◌, Text}
use lufy.Execution.Ids.{colon, print}
use lufy.Majority.Config.{majority_engine}

abbrev pub engine_qualified : Text → ℕ → Text
engine_qualified slug window = majority_engine ++ (colon ∷ (slug ++ (colon ∷ print window)))

unfoldable pub majority_intent_id_for : Text → ℕ → Text
unfolding print
majority_intent_id_for slug window = engine_qualified slug window

-- the first `_TRACE_LENGTH` characters of the digest in hexadecimal, which `digest` is
unfoldable pub majority_trace_id_for : (Text → Text) → Text → ℕ → Text
unfolding print
majority_trace_id_for digest slug window = digest (engine_qualified slug window)

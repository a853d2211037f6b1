-- ===== src/Execution/Venue.antt =====
-- arc/errors.py and arc/execution/retry.py: what a venue call may raise, and what the engine does
-- about it. The venue itself is not part of the program: its answers are arguments of the model.
use lufy.Prelude.{ℕ, Text}
use lufy.Domain.Enums.{post_only_would_cross_reason}

-- An exception with its text, by the class that `classify` tests for; `unrecognised` is any
-- exception that is no `ArcError`.
pub data VenueError : Type 0 where
  transient_latency_reject connection_lost cancel_ack_timeout : Text → VenueError
  post_only_would_cross other_arc_error unrecognised : Text → VenueError

-- `str(exc)`
abbrev pub message : VenueError → Text
message (transient_latency_reject s) = s
message (connection_lost s) = s
message (cancel_ack_timeout s) = s
message (post_only_would_cross s) = s
message (other_arc_error s) = s
message (unrecognised s) = s

-- `IMMEDIATE_RETRY_LIMIT`
abbrev pub immediate_retry_limit : ℕ
immediate_retry_limit = 6

pub data Disposition : Type 0 where
  retry_now indeterminate fail : Disposition

unfoldable pub classify : VenueError → Disposition
classify (transient_latency_reject _) = Disposition.retry_now
classify (connection_lost _) = Disposition.indeterminate
classify (cancel_ack_timeout _) = Disposition.indeterminate
classify (post_only_would_cross _) = Disposition.fail
classify (other_arc_error _) = Disposition.fail
classify (unrecognised _) = Disposition.indeterminate

unfoldable pub rejection_reason : VenueError → Text
rejection_reason (post_only_would_cross _) = post_only_would_cross_reason
rejection_reason (transient_latency_reject s) = s
rejection_reason (connection_lost s) = s
rejection_reason (cancel_ack_timeout s) = s
rejection_reason (other_arc_error s) = s
rejection_reason (unrecognised s) = s

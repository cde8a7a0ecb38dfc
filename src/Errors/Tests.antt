-- ===== src/Errors/Tests.antt =====
-- A refusal for size beside a timeout, wrapped, and the theorem at this input.
use meta_posting.Prelude.{String, Bool, true, false, ◌≡◌, refl, str_eq}
use meta_posting.Errors.{
  GraphError, graph, deadline_exceeded, Error, leaf, wrapped, joined, no_more, also,
  is_retryable_error,
}
use meta_posting.Errors.Leaves.{leaves, any_of, is_worth_retrying, is_retryable_error-leaves}

abbrev hint : String → Bool
hint m = str_eq m "please reduce the amount of data"

abbrev too_big : GraphError
too_big = record {
  message = "please reduce the amount of data";
  code = 1;
  error_subcode = 0;
  is_transient = true;
  http_status = 500;
}

abbrev with_timeout : Error
with_timeout =
    wrapped (joined (also (leaf (graph too_big)) (also (leaf deadline_exceeded) no_more)))

size_alone_is_final : is_retryable_error hint (leaf (graph too_big)) ≡ false
unfolding is_retryable_error
size_alone_is_final = refl

is_retryable_error-leaves_example :
    is_retryable_error hint with_timeout ≡ any_of (is_worth_retrying hint) (leaves with_timeout)
is_retryable_error-leaves_example = is_retryable_error-leaves hint with_timeout

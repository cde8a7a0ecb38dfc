-- ===== src/Errors.antt =====
-- Which errors of the Meta client are worth another attempt (internal/meta/errors.go, and
-- IsOversizedRequest of internal/meta/pagination.go). An error is a tree of wrapped and joined errors.
pub mod Leaves
mod Tests
use meta_posting.Prelude.{
  ℕ, String, Bool, true, false, not, ◌&&◌, ◌||◌, Option, none, some, List, [], ◌∷◌, ◌==◌, leb,
  if◌then◌else◌,
}

-- `GraphError`, the fields that classify it.
pub record GraphError : Type 0 where
  pub message : String
  pub code : ℕ
  pub error_subcode : ℕ
  pub is_transient : Bool
  pub http_status : ℕ

-- The errors that wrap no other; `http` has a status code, `transport` its `CanRetry`.
pub data Leaf : Type 0 where
  graph : GraphError → Leaf
  http : ℕ → Leaf
  transport : Bool → Leaf
  response context_canceled deadline_exceeded other : Leaf

mutual
  -- `Unwrap() error` and `Unwrap() []error`.
  pub data Error : Type 0 where
    leaf : Leaf → Error
    wrapped : Error → Error
    joined : Errors → Error

  pub data Errors : Type 0 where
    no_more : Errors
    also : Error → Errors → Errors

abbrev pub one_of : ℕ → List ℕ → Bool
one_of n [] = false
one_of n (x ∷ xs) = (n == x) || one_of n xs

-- `has_hint` is `strings.Contains(strings.ToLower(message), oversizedResponseHint)`.
module _ (has_hint : String → Bool) where
  abbrev pub is_oversized : GraphError → Bool
  is_oversized e = (e.code == 1) && has_hint e.message

  abbrev pub is_server_trouble : ℕ → Bool
  is_server_trouble status = (status == 429) || leb 500 status

  -- `GraphError.Retryable`.
  unfoldable pub graph_retryable : GraphError → Bool
  graph_retryable e =
      if is_oversized e
      then false
      else if e.is_transient || is_server_trouble e.http_status
      then true
      else one_of e.code (1 ∷ 2 ∷ 4 ∷ 17 ∷ 32 ∷ 341 ∷ 613 ∷ [])

  -- The `Retryable` methods; the other errors have none.
  unfoldable pub retryable : Leaf → Bool
  unfolding graph_retryable
  retryable (graph e) = graph_retryable e
  retryable (http status) = is_server_trouble status
  retryable (transport can_retry) = can_retry
  retryable response = true
  retryable _ = false

  abbrev pub is_cancellation : Leaf → Bool
  is_cancellation context_canceled = true
  is_cancellation deadline_exceeded = true
  is_cancellation _ = false

  unfoldable mutual
    -- `errors.Is` with context.Canceled or context.DeadlineExceeded.
    pub is_cancelled : Error → Bool
    is_cancelled (leaf l) = is_cancellation l
    is_cancelled (wrapped e) = is_cancelled e
    is_cancelled (joined es) = any_cancelled es

    pub any_cancelled : Errors → Bool
    any_cancelled no_more = false
    any_cancelled (also e es) = is_cancelled e || any_cancelled es

  unfoldable mutual
    unfolding is_cancelled retryable

    -- `IsRetryableError`.
    pub is_retryable_error : Error → Bool
    is_retryable_error (leaf l) = is_cancelled (leaf l) || retryable l
    is_retryable_error (wrapped e) = is_cancelled (wrapped e) || is_retryable_error e
    is_retryable_error (joined es) = is_cancelled (joined es) || any_retryable es

    pub any_retryable : Errors → Bool
    any_retryable no_more = false
    any_retryable (also e es) = is_retryable_error e || any_retryable es

  unfoldable mutual
    -- `errors.As` to a GraphError: the first in the tree.
    pub find_graph : Error → Option GraphError
    find_graph (leaf (graph e)) = some e
    find_graph (leaf _) = none
    find_graph (wrapped e) = find_graph e
    find_graph (joined es) = find_graph_in es

    pub find_graph_in : Errors → Option GraphError
    find_graph_in no_more = none
    find_graph_in (also e es) =
        let rest = find_graph_in es in elim (find_graph e) [ some g ↦ some g | none ↦ rest ]

  -- `IsOversizedRequest`.
  unfoldable pub is_oversized_request : Error → Bool
  unfolding find_graph
  is_oversized_request e = elim (find_graph e) [ none ↦ false | some g ↦ is_oversized g ]

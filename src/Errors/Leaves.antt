-- ===== src/Errors/Leaves.antt =====
-- The classification of an error tree by its leaves (internal/meta/errors.go).
use meta_posting.Prelude.{
  String, Bool, true, false, ◌||◌, ◌&&◌, not, ◌==◌, leb, ◌≡◌, refl, List, [], ◌∷◌, ◌++◌, arith,
}
use meta_posting.Errors.{
  graph, http, transport, response, context_canceled, deadline_exceeded, other, graph_retryable,
  Leaf, Error, leaf, wrapped, joined, Errors, no_more, also, retryable, is_cancellation,
  is_cancelled, any_cancelled, is_retryable_error, any_retryable,
}

unfoldable mutual
  -- The leaves, in the order in which `errors.Is` visits them.
  pub leaves : Error → List Leaf
  leaves (leaf l) = l ∷ []
  leaves (wrapped e) = leaves e
  leaves (joined es) = all_leaves es

  pub all_leaves : Errors → List Leaf
  all_leaves no_more = []
  all_leaves (also e es) = leaves e ++ all_leaves es

abbrev pub any_of : (Leaf → Bool) → List Leaf → Bool
any_of p [] = false
any_of p (l ∷ ls) = p l || any_of p ls

any_of-append :
    (p : Leaf → Bool) (xs ys : List Leaf) → any_of p (xs ++ ys) ≡ (any_of p xs || any_of p ys)
any_of-append p [] ys = refl
any_of-append p (x ∷ xs) ys = ground (arith, any_of-append p xs ys)

module _ (has_hint : String → Bool) where
  -- A failure that may pass by itself, class by class.
  abbrev pub is_worth_retrying : Leaf → Bool
  is_worth_retrying context_canceled = true
  is_worth_retrying deadline_exceeded = true
  is_worth_retrying response = true
  is_worth_retrying other = false
  is_worth_retrying (transport can_retry) = can_retry
  is_worth_retrying (http status) = (status == 429) || leb 500 status
  is_worth_retrying (graph e) =
      not (e.code == 1 && has_hint e.message)
      && (e.is_transient
          || (((e.http_status == 429) || leb 500 e.http_status)
              || ((e.code == 1)
                  || ((e.code == 2)
                      || ((e.code == 4)
                          || ((e.code == 17)
                              || ((e.code == 32) || ((e.code == 341) || (e.code == 613)))))))))

  is_worth_retrying-eq :
      (l : Leaf) → is_worth_retrying l ≡ (is_cancellation has_hint l || retryable has_hint l)
  unfolding retryable graph_retryable
  is_worth_retrying-eq context_canceled = refl
  is_worth_retrying-eq deadline_exceeded = refl
  is_worth_retrying-eq response = refl
  is_worth_retrying-eq other = refl
  is_worth_retrying-eq (transport can_retry) = refl
  is_worth_retrying-eq (http status) = refl
  is_worth_retrying-eq (graph e) = ground arith

  mutual
    unfolding is_cancelled leaves

    cancelled-leaves :
        (e : Error) → is_cancelled has_hint e ≡ any_of (is_cancellation has_hint) (leaves e)
    cancelled-leaves (leaf l) = ground arith
    cancelled-leaves (wrapped e) = cancelled-leaves e
    cancelled-leaves (joined es) = any_cancelled-leaves es

    any_cancelled-leaves :
        (es : Errors)
        → any_cancelled has_hint es ≡ any_of (is_cancellation has_hint) (all_leaves es)
    any_cancelled-leaves no_more = refl
    any_cancelled-leaves (also e es) = ground (
      arith,
      cancelled-leaves e,
      any_cancelled-leaves es,
      any_of-append (is_cancellation has_hint) (leaves e) (all_leaves es),
    )

  any_of-weaker :
      (ls : List Leaf)
      → (any_of (is_cancellation has_hint) ls || any_of is_worth_retrying ls)
        ≡ any_of is_worth_retrying ls
  any_of-weaker [] = refl
  any_of-weaker (l ∷ ls) = ground (arith, is_worth_retrying-eq l, any_of-weaker ls)

  mutual
    unfolding is_retryable_error is_cancelled leaves

    retryable-leaves :
        (e : Error) → is_retryable_error has_hint e ≡ any_of is_worth_retrying (leaves e)
    retryable-leaves (leaf l) = ground (arith, is_worth_retrying-eq l)
    retryable-leaves (wrapped e) =
        ground (arith, cancelled-leaves e, retryable-leaves e, any_of-weaker (leaves e))
    retryable-leaves (joined es) =
        ground
          (arith, any_cancelled-leaves es, any_retryable-leaves es, any_of-weaker (all_leaves es))

    any_retryable-leaves :
        (es : Errors) → any_retryable has_hint es ≡ any_of is_worth_retrying (all_leaves es)
    any_retryable-leaves no_more = refl
    any_retryable-leaves (also e es) = ground (
      arith,
      retryable-leaves e,
      any_retryable-leaves es,
      any_of-append is_worth_retrying (leaves e) (all_leaves es),
    )

  -- An error is retried as a job exactly if one of the errors that it wraps or joins, however deep
  -- and in whatever order, is a cancellation, a deadline, an unreadable response, a retryable transport
  -- error, HTTP status 429 or at least 500, or a Graph error that is transient or has such a status or
  -- one of the codes 1, 2, 4, 17, 32, 341 and 613, but is not a refusal for size.
  pub is_retryable_error-leaves :
      (e : Error) → is_retryable_error has_hint e ≡ any_of is_worth_retrying (leaves e)
  is_retryable_error-leaves e = retryable-leaves e

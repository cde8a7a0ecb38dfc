-- ===== src/Client.antt =====
-- The retries of the Graph client (internal/meta/client.go, doWithClientRetries). Building and sending
-- a request, the governor and the wait between attempts are an interface over a state `S`; each
-- request's reply is logged.
pub mod Attempts
mod Tests
use meta_posting.Prelude.{
  ℕ, zero, suc, String, Bool, true, false, ◌||◌, Option, none, some, List, [], ◌∷◌, ◌++◌,
  if◌then◌else◌,
}
use meta_posting.Errors.{
  Error, Leaf, leaf, wrapped, graph, http, transport, response, GraphError, graph_retryable,
  retryable,
}
use meta_posting.Publish.Model.{Answer, answered, refused}

-- What comes of a request: a transport error (with `retryableTransportError`, and whether it is a
-- cancellation or a deadline), a body that is unreadable, an error with its Retry-After, a body that
-- is no JSON, or the decoded answer.
pub data Reply (A : Type 0) : Type 0 where
  not_sent : Bool → Bool → Reply A
  unreadable undecodable : Reply A
  graph_failed : GraphError → ℕ → Reply A
  bad_status : ℕ → ℕ → Reply A
  decoded : A → Reply A

pub record Wire (S A : Type 0) : Type 0 where
  pub has_hint : String → Bool
  pub cancelled : S → Option Error
  pub build_error : S → Option Error
  pub wait : S → S × Option Error
  pub perform : S → S × Reply A
  pub sleep : ℕ → ℕ → S → S × Option Error

pub record World (S A : Type 0) : Type 0 where
  pub state : S
  pub replies : List (Reply A)

module _ {S A : Type 0} (wire : Wire S A) where
  -- What an attempt does with a failure that may be retried: the failure and its Retry-After.
  abbrev pub Next : Type 0
  Next = Leaf → ℕ → World S A → World S A × Answer A

  abbrev pub give_up : Next
  give_up failure delay w = (w, refused (leaf failure))

  abbrev pub if_retryable : Bool → Next → Next
  if_retryable again next failure delay w =
      if again then next failure delay w else give_up failure delay w

  abbrev pub concluded : Next → World S A → Reply A → World S A × Answer A
  concluded next w (not_sent again stopped) =
      if_retryable again next (transport (again || stopped)) 0 w
  concluded next w unreadable = (w, refused (leaf response))
  concluded next w undecodable = (w, refused (leaf response))
  concluded next w (graph_failed g delay) =
      if_retryable (graph_retryable wire.has_hint g) next (graph g) delay w
  concluded next w (bad_status status delay) =
      if_retryable (retryable wire.has_hint (http status)) next (http status) delay w
  concluded next w (decoded a) = (w, answered a)

  abbrev pub replied : Next → World S A → S × Reply A → World S A × Answer A
  replied next w (s, reply) =
      concluded next (record { state = s; replies = w.replies ++ reply ∷ [] }) reply

  abbrev pub waited : Next → World S A → S × Option Error → World S A × Answer A
  waited next w (s, some e) = (record w { state = s }, refused e)
  waited next w (s, none) = replied next w (wire.perform s)

  abbrev pub built : Next → World S A → Option Error → World S A × Answer A
  built next w (some e) = (w, refused (wrapped e))
  built next w none = waited next w (wire.wait w.state)

  abbrev pub unless_cancelled : Next → World S A → Option Error → World S A × Answer A
  unless_cancelled next w (some e) = (w, refused e)
  unless_cancelled next w none = built next w (wire.build_error w.state)

  -- One round of the loop.
  unfoldable pub attempt : Next → World S A → World S A × Answer A
  unfolding graph_retryable retryable
  attempt next w = unless_cancelled next w (wire.cancelled w.state)

  abbrev pub slept :
      (World S A → World S A × Answer A) → World S A → S × Option Error → World S A × Answer A
  slept next w (s, some e) = (record w { state = s }, refused e)
  slept next w (s, none) = next (record w { state = s })

  -- The loop with the retries that are left, at the attempt of a number.
  unfoldable pub attempts : ℕ → ℕ → World S A → World S A × Answer A
  unfolding attempt
  attempts zero number w = attempt give_up w
  attempts (suc left) number w =
      attempt
        (λ failure delay w'.
          slept (attempts left (suc number)) w' (wire.sleep number delay w'.state))
        w

  -- `doWithClientRetries`.
  unfoldable pub do_with_client_retries : ℕ → World S A → World S A × Answer A
  unfolding attempts
  do_with_client_retries max_retries w = attempts max_retries 0 w

  -- The call for mutations that must not be repeated, `PostJSONNoRetry`.
  unfoldable pub do_once : World S A → World S A × Answer A
  unfolding do_with_client_retries
  do_once w = do_with_client_retries 0 w

-- ===== src/Client/Attempts.antt =====
-- How often a call is sent, and why (internal/meta/client.go).
use meta_posting.Prelude.{
  ℕ, zero, suc, ◌≤◌, Bool, true, ◌||◌, ◌≡◌, refl, sym, ◌∙◌, Option, none, some, List, [], ◌∷◌, ◌++◌,
  length, All, arith, if_cases,
}
use mathlib.Core.List.{append_assoc, append-nil}
use meta_posting.Errors.{Error, leaf, Leaf, graph, http, transport, graph_retryable, retryable}
use meta_posting.Publish.Model.{Answer, answered, refused}
use meta_posting.Client.{
  Reply, not_sent, unreadable, undecodable, graph_failed, bad_status, decoded, Wire, World, Next,
  give_up, if_retryable, replied, waited, built, unless_cancelled, attempt, slept, attempts,
  do_with_client_retries,
}

module _ {S A : Type 0} (wire : Wire S A) where
  -- A failure after which the call may be sent again.
  abbrev pub MayRepeat : Reply A → Type 0
  MayRepeat (not_sent again stopped) = again ≡ true
  MayRepeat unreadable = ⊥
  MayRepeat undecodable = ⊥
  MayRepeat (graph_failed g delay) = graph_retryable wire.has_hint g ≡ true
  MayRepeat (bad_status status delay) = retryable wire.has_hint (http status) ≡ true
  MayRepeat (decoded a) = ⊥

  abbrev pub at_most_one : Option (Reply A) → List (Reply A)
  at_most_one none = []
  at_most_one (some r) = r ∷ []

  -- The replies of a call: failures that may be repeated, and perhaps a last one, which is the
  -- answer if there is one; `most` is the number of requests.
  abbrev pub Sends : ℕ → World S A → World S A × Answer A → Type 0
  Sends most w res =
      (failures : List (Reply A)) × (last : Option (Reply A)) × (res.0.replies
        ≡ w.replies ++ (failures ++ at_most_one last))
      × All MayRepeat failures
      × (length (failures ++ at_most_one last) ≤ most)
      × ((a : A) → res.1 ≡ answered a → last ≡ some (decoded a))

  Sends-none :
      (most : ℕ) (w : World S A) (s : S) (e : Error)
      → Sends most w (record w { state = s }, refused e)
  Sends-none most w s e = ([], none, sym (append-nil w.replies), tt, omega arith, (λ a h. cc))

  -- A reply that ends the call without an answer.
  Sends-last :
      (most : ℕ) (w : World S A) (s : S) (r : Reply A) (e : Error)
      → Sends (suc most) w (record { state = s; replies = w.replies ++ r ∷ [] }, refused e)
  Sends-last most w s r e = ([], some r, refl, tt, omega arith, (λ a h. cc))

  -- What follows a failure that may be repeated.
  abbrev Continues : ℕ → Next wire → Type 0
  Continues most next =
      (failure : Leaf) (delay : ℕ) (w : World S A) → Sends most w (next failure delay w)

  Sends-more :
      (most : ℕ) (w : World S A) (s : S) (r : Reply A) (res : World S A × Answer A)
      → MayRepeat r
      → Sends most (record { state = s; replies = w.replies ++ r ∷ [] }) res
      → Sends (suc most) w res
  Sends-more most w s r res may (failures, last, same, repeats, few, answer) = (
    r ∷ failures,
    last,
    same ∙ append_assoc w.replies (r ∷ []) (failures ++ at_most_one last),
    (may, repeats),
    omega arith,
    answer,
  )

  if_retryable-Sends :
      (most : ℕ) (next : Next wire) (again : Bool) (failure : Leaf) (delay : ℕ) (w : World S A)
      (s : S) (r : Reply A)
      → (again ≡ true → MayRepeat r)
      → Continues most next
      → Sends (suc most) w (
          if_retryable wire again next failure delay
            (record { state = s; replies = w.replies ++ r ∷ [] }))
  if_retryable-Sends most next again failure delay w s r may rest =
      if_cases (Sends (suc most) w) again
        (λ h.
          Sends-more most w s r
            (next failure delay (record { state = s; replies = w.replies ++ r ∷ [] })) (may h)
            (rest failure delay (record { state = s; replies = w.replies ++ r ∷ [] })))
        (λ h. Sends-last most w s r (leaf failure))

  replied-Sends :
      (most : ℕ) (next : Next wire) (w : World S A) (res : S × Reply A)
      → Continues most next
      → Sends (suc most) w (replied wire next w res)
  replied-Sends most next w (s, not_sent again stopped) rest =
      if_retryable-Sends most next again (transport (again || stopped)) 0 w s
        (not_sent again stopped) (λ h. h) rest
  replied-Sends most next w (s, unreadable) rest = Sends-last most w s unreadable _
  replied-Sends most next w (s, undecodable) rest = Sends-last most w s undecodable _
  replied-Sends most next w (s, graph_failed g delay) rest =
      if_retryable-Sends most next (graph_retryable wire.has_hint g) (graph g) delay w s
        (graph_failed g delay) (λ h. h) rest
  replied-Sends most next w (s, bad_status status delay) rest =
      if_retryable-Sends most next (retryable wire.has_hint (http status)) (http status) delay w s
        (bad_status status delay) (λ h. h) rest
  replied-Sends most next w (s, decoded b) rest =
      ([], some (decoded b), refl, tt, omega arith, (λ a h. cc))

  waited-Sends :
      (most : ℕ) (next : Next wire) (w : World S A) (res : S × Option Error)
      → Continues most next
      → Sends (suc most) w (waited wire next w res)
  waited-Sends most next w (s, some e) rest = Sends-none (suc most) w s e
  waited-Sends most next w (s, none) rest = replied-Sends most next w (wire.perform s) rest

  built-Sends :
      (most : ℕ) (next : Next wire) (w : World S A) (res : Option Error)
      → Continues most next
      → Sends (suc most) w (built wire next w res)
  built-Sends most next w (some e) rest = Sends-none (suc most) w w.state _
  built-Sends most next w none rest = waited-Sends most next w (wire.wait w.state) rest

  unless_cancelled-Sends :
      (most : ℕ) (next : Next wire) (w : World S A) (res : Option Error)
      → Continues most next
      → Sends (suc most) w (unless_cancelled wire next w res)
  unless_cancelled-Sends most next w (some e) rest = Sends-none (suc most) w w.state e
  unless_cancelled-Sends most next w none rest =
      built-Sends most next w (wire.build_error w.state) rest

  slept-Sends :
      (most : ℕ) (next : World S A → World S A × Answer A) (w : World S A) (res : S × Option Error)
      → ((w' : World S A) → Sends most w' (next w'))
      → Sends most w (slept wire next w res)
  slept-Sends most next w (s, some e) rest = Sends-none most w s e
  slept-Sends most next w (s, none) rest = rest (record w { state = s })

  attempts-Sends :
      (left number : ℕ) (w : World S A) → Sends (suc left) w (attempts wire left number w)
  unfolding attempts attempt
  attempts-Sends zero number w =
      unless_cancelled-Sends 0 (give_up wire) w (wire.cancelled w.state)
        (λ failure delay w'. Sends-none 0 w' w'.state (leaf failure))
  attempts-Sends (suc left) number w =
      unless_cancelled-Sends (suc left)
        (λ failure delay w'.
          slept wire (attempts wire left (suc number)) w' (wire.sleep number delay w'.state))
        w (wire.cancelled w.state)
        (λ failure delay w'.
          slept-Sends (suc left) (attempts wire left (suc number)) w'
            (wire.sleep number delay w'.state) (attempts-Sends left (suc number)))

  -- A call sends at most one request more than the retries it is allowed, so exactly one at most when
  -- it is allowed none; it sends another only after a failure that may be repeated; and the answer that it
  -- returns is that of its last request.
  pub do_with_client_retries-Sends :
      (max_retries : ℕ) (w : World S A)
      → Sends (suc max_retries) w (do_with_client_retries wire max_retries w)
  unfolding do_with_client_retries
  do_with_client_retries-Sends max_retries w = attempts-Sends max_retries 0 w

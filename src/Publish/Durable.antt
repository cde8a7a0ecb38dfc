-- ===== src/Publish/Durable.antt =====
-- How an attempt as a whole ends (internal/application/batches.go, PublishAccountResult).
use meta_posting.Prelude.{ℕ, String, ◌≡◌, refl, ap, ◌⊎◌, inl, inr, Option, none, some, Option-cases}
use mathlib.Core.Path.{subst}
use meta_posting.Schema.{AccountResult, Batch}
use meta_posting.Errors.{Error}
use meta_posting.Publish.Model.{World, Answer, answered, refused}
use meta_posting.Publish.Calm.{Calm, Calm-silent}
use meta_posting.Publish.Backend.{Plan, AdAccount, Store, Graph, Texts}
use meta_posting.Publish.Records.{Checkpoints, access_token_error}
use meta_posting.Publish.Account.{
  publish_plan, run_account, after_token_error, account_read, batch_read, result_read,
  publish_account_result,
}
use meta_posting.Publish.Attempted.{Publishes, Attempted, run_account-Attempted}

module _ {S : Type 0} (store : Store S) (api : Graph S) (texts : Texts) (now : ℕ) (id : ℕ)
    (trim : texts.trim_space "" ≡ "") where
  -- How an attempt goes: it asks for no ACTIVE; or it reads the result, its batch and its account, and
  -- returns what a publication of this result returns, with the mark of an expired connection.
  abbrev pub Ends : World S → World S × Option Error → Type 0
  Ends w res =
      Calm w.sent res.0.sent
      ⊎ ((result : AccountResult) × (batch : Batch) × (account : AdAccount)
          × (store.get_account_result id w.state ≡ answered result)
          × (store.get_batch result.batch_id w.state ≡ answered batch)
          × (store.get_ad_account result.ad_account_id w.state ≡ answered account)
          × ((plan : Plan) × (token : String) × (known : Checkpoints) × (w1 : World S) × Calm w.sent
                w1.sent
              × (res
                  ≡ after_token_error store api texts now batch (
                      publish_plan store api texts now id batch result account plan token known w1))
              × Publishes store api texts now id trim batch result account plan token known w1
                  (publish_plan store api texts now id batch result account plan token known w1)))

  after_token_error-sent :
      (batch : Batch) (res : World S × Option Error)
      → (after_token_error store api texts now batch res).0.sent ≡ res.0.sent
  unfolding after_token_error
  after_token_error-sent batch (w, none) = refl
  after_token_error-sent batch (w, some e) = elim (Option-cases (access_token_error e)) [
    | inl x ↦ rw (x, after_token_error) refl
    | inr (g, x) ↦ rw (x, after_token_error) refl
  ]

  conclude_attempt :
      (batch : Batch) (result : AccountResult) (account : AdAccount) (w : World S)
      (res : World S × Option Error)
      → store.get_account_result id w.state ≡ answered result
      → store.get_batch result.batch_id w.state ≡ answered batch
      → store.get_ad_account result.ad_account_id w.state ≡ answered account
      → Attempted store api texts now id trim batch result account w res
      → Ends w (after_token_error store api texts now batch res)
  conclude_attempt batch result account w res a b c (inl calm) =
      inl (rw (after_token_error-sent batch res) calm)
  conclude_attempt batch result account w res a b c
        (inr (plan, token, known, w1, calm, same, how)) =
      inr (
        result,
        batch,
        account,
        a,
        b,
        c,
        (
          plan,
          token,
          known,
          w1,
          calm,
          ap (λ r. after_token_error store api texts now batch r) same,
          subst (Publishes store api texts now id trim batch result account plan token known w1)
              same how,
        ),
      )

  account_read-Ends :
      (batch : Batch) (result : AccountResult) (w : World S) (res : Answer AdAccount)
      → store.get_account_result id w.state ≡ answered result
      → store.get_batch result.batch_id w.state ≡ answered batch
      → store.get_ad_account result.ad_account_id w.state ≡ res
      → Ends w (
          after_token_error store api texts now batch
            (account_read store api texts now id batch result w res))
  account_read-Ends batch result w (refused e) a b c =
      inl (rw (after_token_error-sent batch (w, some e)) (Calm-silent w.sent))
  account_read-Ends batch result w (answered account) a b c =
      conclude_attempt batch result account w
        (run_account store api texts now id batch result account w) a b c
        (run_account-Attempted store api texts now id trim batch result account w)

  batch_read-Ends :
      (result : AccountResult) (w : World S) (res : Answer Batch)
      → store.get_account_result id w.state ≡ answered result
      → store.get_batch result.batch_id w.state ≡ res
      → Ends w (batch_read store api texts now id result w res)
  batch_read-Ends result w (refused e) a b = inl (Calm-silent w.sent)
  batch_read-Ends result w (answered batch) a b =
      account_read-Ends batch result w (store.get_ad_account result.ad_account_id w.state) a b refl

  result_read-Ends :
      (w : World S) (res : Answer AccountResult)
      → store.get_account_result id w.state ≡ res
      → Ends w (result_read store api texts now id w res)
  result_read-Ends w (refused e) a = inl (Calm-silent w.sent)
  result_read-Ends w (answered result) a =
      batch_read-Ends result w (store.get_batch result.batch_id w.state) a refl

  -- Whatever the database and Meta answer, an attempt to publish an account result asks for no ACTIVE, or
  -- it returns what a publication of this result for its account returns, but for the mark of an expired
  -- connection. The publication asks for ACTIVE only for its ad, then its ad set, then its campaign,
  -- behind all its other calls; and if it has asked, then either the success of the result is written
  -- with its outcome and no error is returned, or one more call, the last, asks to pause its campaign,
  -- and an error is returned unless Meta confirms the pause; a campaign whose id is blank is never asked
  -- about. (Trimming the empty text gives the empty text.)
  pub publish_account_result-Ends :
      (w : World S) → Ends w (publish_account_result store api texts now id w)
  unfolding publish_account_result
  publish_account_result-Ends w = result_read-Ends w (store.get_account_result id w.state) refl

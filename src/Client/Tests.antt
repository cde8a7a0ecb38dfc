-- ===== src/Client/Tests.antt =====
-- A call whose first two requests fail.
use meta_posting.Prelude.{ℕ, suc, false, ◌≡◌, refl, none, [], length, ltb, if◌then◌else◌}
use meta_posting.Publish.Model.{answered}
use meta_posting.Client.{bad_status, decoded, Wire, World, do_with_client_retries, do_once}
use meta_posting.Client.Attempts.{Sends, do_with_client_retries-Sends}

abbrev unsteady : Wire ℕ ℕ
unsteady = record {
  has_hint = λ s. false;
  cancelled = λ s. none;
  build_error = λ s. none;
  wait = λ s. (s, none);
  perform = λ s. (suc s, if ltb s 2 then bad_status 503 0 else decoded s);
  sleep = λ number delay s. (s, none);
}

abbrev quiet_start : World ℕ ℕ
quiet_start = record { state = 0; replies = [] }

third_succeeds : (do_with_client_retries unsteady 3 quiet_start).1 ≡ answered 2
unfolding do_with_client_retries
third_succeeds = refl

one_request : length (do_once unsteady quiet_start).0.replies ≡ 1
unfolding do_once
one_request = refl

do_with_client_retries-Sends_example :
    Sends unsteady 4 quiet_start (do_with_client_retries unsteady 3 quiet_start)
do_with_client_retries-Sends_example = do_with_client_retries-Sends unsteady 3 quiet_start

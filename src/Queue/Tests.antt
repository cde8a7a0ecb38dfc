-- ===== src/Queue/Tests.antt =====
-- Small queues, what the transactions do on them, and the theorems at these inputs.
use meta_posting.Prelude.{ℕ, ◌+◌, ◌≤◌, Bool, true, false, ◌≡◌, refl, [], ◌∷◌, none, some, arith}
use meta_posting.Prelude.Int.{ℤ, pos}
use meta_posting.Sql.{find_key}
use meta_posting.Schema.{job_key, Job, JobStatus, Database, ok, is_running}
use meta_posting.Queue.{Decoder, leased, claim}
use meta_posting.Queue.Leases.{complete, completed}
use meta_posting.Queue.Invariant.{IsValid, RowFits}
use meta_posting.Queue.Steps.{Step, claims, completes, Step-IsValid}
use meta_posting.Queue.Lifecycle.{
  History, here, then, handouts, History-IsValid, handed_out_le, History-final, Step-exclusive,
}

abbrev waiting : ℕ → ℤ → Job
waiting id priority = record {
  id = id;
  created_at = 1;
  updated_at = 1;
  connection_id = none;
  job_type = "sync_tracker";
  status = JobStatus.pending;
  priority = priority;
  payload = "{}";
  dedupe_key = none;
  attempts = 0;
  max_attempts = 2;
  available_at = 5;
  locked_by = "";
  locked_at = none;
  locked_until = none;
  last_error = "";
  finished_at = none;
}

abbrev two_jobs : Database
two_jobs = record {
  jobs = waiting 1 (pos 5) ∷ waiting 2 (pos 10) ∷ [];
  results = [];
  batches = [];
  objects = [];
}

abbrev no_decoder : Decoder
no_decoder payload = none

abbrev unlocked : ℕ → Bool
unlocked id = false

abbrev claimed : Database
claimed = (claim no_decoder unlocked "worker-a" (pos 30) 10 two_jobs).0

waiting-RowFits : (id : ℕ) (priority : ℤ) → RowFits (waiting id priority)
waiting-RowFits id priority = record { capped = omega arith; lock = (refl, refl, refl, refl) }

two_jobs-IsValid : IsValid two_jobs
two_jobs-IsValid = record {
  rows = (waiting-RowFits 1 (pos 5), (waiting-RowFits 2 (pos 10), tt));
  keyed = (((λ e. omega arith), tt), (tt, tt));
}

waiting-claims : Step no_decoder 10 two_jobs claimed
waiting-claims = claims unlocked "worker-a" (pos 30) 10 two_jobs

abbrev done : Database
done = record two_jobs {
  jobs = waiting 1 (pos 5) ∷ completed 20 (leased "worker-a" 30 10 (waiting 2 (pos 10))) ∷ [];
}

claimed-completes : Step no_decoder 20 claimed done
unfolding claim complete
claimed-completes = completes 2 "worker-a" 20 refl

two_steps : History no_decoder two_jobs done
two_steps = then 20 (then 10 here waiting-claims) claimed-completes

History-IsValid_example : IsValid done
History-IsValid_example = History-IsValid no_decoder two_jobs-IsValid two_steps

done-IsValid : IsValid done
done-IsValid =
    Step-IsValid no_decoder (Step-IsValid no_decoder two_jobs-IsValid waiting-claims)
      claimed-completes

handed_out_le_example :
    (k : Job) × (find_key job_key 2 done.jobs ≡ some k)
    × (k.attempts ≡ 0 + handouts 2 no_decoder two_steps)
    × (0 + handouts 2 no_decoder two_steps ≤ 2)
unfolding find_key
handed_out_le_example =
    handed_out_le no_decoder 2 (waiting 2 (pos 10)) two_jobs done two_jobs-IsValid refl two_steps

completed_row :
    find_key job_key 2 done.jobs
    ≡ some (completed 20 (leased "worker-a" 30 10 (waiting 2 (pos 10))))
unfolding find_key
completed_row = refl

abbrev done_later : Database
done_later = (claim no_decoder unlocked "worker-b" (pos 30) 99 done).0

later : History no_decoder done done_later
later = then 99 here (claims unlocked "worker-b" (pos 30) 99 done)

History-final_example :
    find_key job_key 2 done_later.jobs
    ≡ some (completed 20 (leased "worker-a" 30 10 (waiting 2 (pos 10))))
History-final_example =
    History-final no_decoder 2 (completed 20 (leased "worker-a" 30 10 (waiting 2 (pos 10)))) done
      done_later done-IsValid completed_row refl later

abbrev raced : Database
raced = (claim no_decoder unlocked "worker-b" (pos 30) 20 claimed).0

claimed-IsValid : IsValid claimed
claimed-IsValid = Step-IsValid no_decoder two_jobs-IsValid waiting-claims

Step-exclusive_example :
    (k : Job) × (find_key job_key 2 raced.jobs ≡ some k)
    × (is_running k.status ≡ true → k.locked_by ≡ "worker-a")
    × (k.attempts ≡ 1)
unfolding claim find_key
Step-exclusive_example =
    Step-exclusive no_decoder 2 20 "worker-a" (leased "worker-a" 30 10 (waiting 2 (pos 10))) claimed
      raced claimed-IsValid refl refl (claims unlocked "worker-b" (pos 30) 20 claimed)

race_takes_other :
    (claim no_decoder unlocked "worker-b" (pos 30) 20 claimed).1
    ≡ ok (leased "worker-b" 30 20 (waiting 1 (pos 5)))
unfolding claim
race_takes_other = refl

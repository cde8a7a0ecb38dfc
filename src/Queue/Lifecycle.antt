-- ===== src/Queue/Lifecycle.antt =====
-- The life of a job over any history of transactions (internal/platform/database/job_repository.go).
use meta_posting.Prelude.{ℕ, ◌+◌, ◌≤◌, String, true, false, ◌≡◌, refl, ◌∙◌, some, arith, str_eq_iff}
use meta_posting.Sql.{find_key}
use meta_posting.Sql.Laws.{All-find_key}
use meta_posting.Schema.{job_key, Job, Database, is_running, is_active}
use meta_posting.Queue.{Decoder}
use meta_posting.Queue.Leases.{holds}
use meta_posting.Queue.Invariant.{IsValid, RowFits}
use meta_posting.Queue.Handouts.{hands_out, Counted, Step-Counted}
use meta_posting.Queue.Steps.{
  Step, Move, stay, bury, hand_out, extend, finish, give_back, drop, Step-Move, Step-IsValid,
}

-- A history: transactions one after another, each at its own time.
pub data History (decode : Decoder) (db : Database) : Database → Type 0 where
  here : History decode db db
  then :
      {mid last : Database} (now : ℕ)
      → History decode db mid
      → Step decode now mid last
      → History decode db last

-- How often a history hands out the job of an id.
unfoldable pub handouts :
    (id : ℕ) (decode : Decoder) {db last : Database} → History decode db last → ℕ
handouts id decode here = 0
handouts id decode (then now h s) = handouts id decode h + hands_out id decode s

-- Whatever the transactions, the tables stay valid.
pub History-IsValid :
    (decode : Decoder) {db last : Database} → IsValid db → History decode db last → IsValid last
History-IsValid decode v here = v
History-IsValid decode v (then now h s) = Step-IsValid decode (History-IsValid decode v h) s

History-Counted :
    (decode : Decoder) (id : ℕ) (j : Job) {db last : Database}
    → find_key job_key id db.jobs ≡ some j
    → (h : History decode db last) → Counted id j (handouts id decode h) last
unfolding handouts
History-Counted decode id j found here = (j, found, omega arith, refl)
History-Counted decode id j found (then now h s) =
    let (k, at, more, budget) = History-Counted decode id j found h in
    let (l, at', once, same) = Step-Counted decode id k s at in (l, at', omega arith, same ∙ budget)

-- The claims of a history return a job at most as often as its attempt budget still allows, and its
-- attempt counter counts exactly how often they do.
pub handed_out_le :
    (decode : Decoder) (id : ℕ) (j : Job) (db last : Database)
    → IsValid db
    → find_key job_key id db.jobs ≡ some j
    → (h : History decode db last)
    → (k : Job) × (find_key job_key id last.jobs ≡ some k)
      × (k.attempts ≡ j.attempts + handouts id decode h)
      × (j.attempts + handouts id decode h ≤ j.max_attempts)
handed_out_le decode id j db last v found h =
    let (k, at, count, budget) = History-Counted decode id j found h in
    let fits = All-find_key job_key RowFits id last.jobs k (History-IsValid decode v h).rows at in
    (k, at, count, omega (arith, fits.capped))

Move-final : (now : ℕ) (j k : Job) → is_active j.status ≡ false → Move now j k → k ≡ j
Move-final now j k final stay = refl
Move-final now j k final (bury h) = ground arith
Move-final now j k final (hand_out worker lease h) = ground arith
Move-final now j k final (extend worker lease h) = ground arith
Move-final now j k final (finish worker h) = ground arith
Move-final now j k final (give_back worker message delay h) = ground arith
Move-final now j k final (drop h) = cc

-- A job that has succeeded, died or been cancelled is never written again, by any history.
pub History-final :
    (decode : Decoder) (id : ℕ) (j : Job) (db last : Database)
    → IsValid db
    → find_key job_key id db.jobs ≡ some j
    → is_active j.status ≡ false
    → History decode db last
    → find_key job_key id last.jobs ≡ some j
History-final decode id j db last v found final here = found
History-final decode id j db last v found final (then {mid = mid} now h s) =
    let before = History-final decode id j db mid v found final h in
    let (k, at, move) = Step-Move decode id j (History-IsValid decode v h) s before in
    rw (← Move-final now j k final move) at

-- A row that a worker holds stays that worker's while it runs, and is handed to nobody.
Move-held :
    (now : ℕ) (worker : String) (j k : Job)
    → holds worker now j ≡ true
    → Move now j k
    → (is_running k.status ≡ true → k.locked_by ≡ worker) × (k.attempts ≡ j.attempts)
Move-held now worker j k held stay = ground (arith, str_eq_iff j.locked_by worker)
Move-held now worker j k held (bury h) = ground arith
Move-held now worker j k held (hand_out w lease h) = ground arith
Move-held now worker j k held (extend w lease h) = ground (arith, str_eq_iff j.locked_by worker)
Move-held now worker j k held (finish w h) = ground arith
Move-held now worker j k held (give_back w message delay h) = ground arith
Move-held now worker j k held (drop h) = ground arith

-- While a worker's lease on a job is live, no transaction hands the job to anyone: afterwards the
-- job is still that worker's, or it no longer runs, and no attempt was counted.
pub Step-exclusive :
    (decode : Decoder) (id now : ℕ) (worker : String) (j : Job) (db db' : Database)
    → IsValid db
    → find_key job_key id db.jobs ≡ some j
    → holds worker now j ≡ true
    → Step decode now db db'
    → (k : Job) × (find_key job_key id db'.jobs ≡ some k)
      × (is_running k.status ≡ true → k.locked_by ≡ worker)
      × (k.attempts ≡ j.attempts)
Step-exclusive decode id now worker j db db' v found held s =
    let (k, at, move) = Step-Move decode id j v s found in
    let (kept, same) = Move-held now worker j k held move in (k, at, kept, same)

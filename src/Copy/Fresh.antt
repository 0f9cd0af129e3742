-- ===== src/Copy/Fresh.antt =====
-- A local copy never returns an old block (crates/sqlite-remote-vfs/src/local.rs): the two rules at
-- the top of the source, reads and writes in one queue, and a failed write clears the copy.
use sqlite_remote_vfs.Base.{
  ℕ, ◌+◌, ◌≡◌, refl, sym, ◌∙◌, ap, inl, inr, Bool, true, false, Option, none, some, List, [], ◌∷◌,
  ◌++◌, Result, ok, err, Bool-cases, true_not_false, if_true, if_false, All, u64,
}
use sqlite_remote_vfs.Base.Bytes.{Bytes}
use sqlite_remote_vfs.Base.Map.{find}
use sqlite_remote_vfs.Pages.View.{Stored}
use sqlite_remote_vfs.LocalDb.Fill.{Run}
use sqlite_remote_vfs.CopyHeader.{Head}
use sqlite_remote_vfs.Copy.{
  LocalStore, Writer, Background, Job, work, work_all, drain, cleared, job_written, queue_write,
  queue_read, answer, start,
}
use sqlite_remote_vfs.Copy.Queue.{Step, Steps, takes, stays, goes}

abbrev pub first_of : Option Bytes → Option Bytes → Option Bytes
first_of (some bytes) o = some bytes
first_of none o = o

-- `written` hides `stored`.
abbrev pub over : List (ℕ × Bytes) → Stored → Stored
over written stored i = first_of (find i written) (stored i)

-- A block that stands twice in the list stands there with the same content.
abbrev pub Consistent : List (ℕ × Bytes) → Type 0
Consistent blocks = All (λ e. find e.0 blocks ≡ some e.1) blocks

-- The content of the blocks once the jobs are done.
abbrev pub latest : Stored → List Job → Stored
latest stored [] = stored
latest stored (job ∷ jobs) = latest (over job.blocks stored) jobs

-- What `LocalStore` promises, where `holds` says which blocks a store holds: a read returns held
-- blocks one after the other and changes nothing, a write that succeeds leaves no old content of the
-- blocks written, and a store that was cleared holds nothing.
pub record IsStore {V : Type 0} (ops : LocalStore V) (holds : V → Stored) : Type 0 where
  pub read_run :
      (v : V) (first count : ℕ) (blocks : List Bytes)
      → (ops.read v first count).0 ≡ ok blocks
      → Run (holds v) first blocks
  pub read_keeps :
      (v : V) (first count i : ℕ) (bytes : Bytes)
      → holds (ops.read v first count).1 i ≡ some bytes
      → holds v i ≡ some bytes
  pub write_over :
      (v : V) (head : Head) (blocks : List (ℕ × Bytes)) (i : ℕ) (bytes : Bytes)
      → Consistent blocks
      → (ops.write v head blocks).0 ≡ ok tt
      → holds (ops.write v head blocks).1 i ≡ some bytes
      → over blocks (holds v) i ≡ some bytes
  pub clear_drops : (v : V) (i : ℕ) → (ops.clear v).0 ≡ ok tt → holds (ops.clear v).1 i ≡ none

-- `v` holds only blocks of `stored`.
abbrev pub Within : Stored → Stored → Type 0
Within held stored = (i : ℕ) (bytes : Bytes) → held i ≡ some bytes → stored i ≡ some bytes

-- A thread that has not given up has a store with blocks of `stored` only.
abbrev pub Fresh : {V : Type 0} → (V → Stored) → Stored → Writer V → Type 0
Fresh holds stored t = t.given_up ≡ false → Within (holds t.store) stored

first_of_mono :
    (o a b : Option Bytes) (bytes : Bytes)
    → (a ≡ some bytes → b ≡ some bytes)
    → first_of o a ≡ some bytes
    → first_of o b ≡ some bytes
first_of_mono none a b bytes h e = h e
first_of_mono (some c) a b bytes h e = e

over-Within :
    (blocks : List (ℕ × Bytes)) (held stored : Stored)
    → Within held stored
    → Within (over blocks held) (over blocks stored)
over-Within blocks held stored h i bytes e =
    first_of_mono (find i blocks) (held i) (stored i) bytes (h i bytes) e

pub Run-Within :
    (held stored : Stored) (first : ℕ) (blocks : List Bytes)
    → Within held stored
    → Run held first blocks
    → Run stored first blocks
Run-Within held stored first [] h run = tt
Run-Within held stored first (b ∷ bs) h run =
    (h first b run.0, Run-Within held stored (first + 1) bs h run.1)

module _ {V : Type 0} {ops : LocalStore V} {holds : V → Stored} (law : IsStore ops holds) where
  cleared-Fresh :
      (stored : Stored) (v : V) (failures : ℕ) (r : Result Bytes (Unit {0}) × V)
      → ops.clear v ≡ r
      → Fresh holds stored (cleared ops r failures)
  unfolding cleared
  cleared-Fresh stored v failures (err e, v') same = λ given. cc
  cleared-Fresh stored v failures (ok u, v') same = λ given i bytes e.
      cc (law.clear_drops v i (ap (λ x. x.0) same), ap (λ x. holds x.1 i) same, e)

  job_written-Fresh :
      (stored : Stored) (v : V) (job : Job) (failures : ℕ) (r : Result Bytes (Unit {0}) × V)
      → Consistent job.blocks
      → Within (holds v) stored
      → ops.write v job.head job.blocks ≡ r
      → Fresh holds (over job.blocks stored) (job_written ops r failures)
  unfolding job_written
  job_written-Fresh stored v job failures (err e, v') m within same =
      cleared-Fresh (over job.blocks stored) v' (u64 (failures + 1)) (ops.clear v') refl
  job_written-Fresh stored v job failures (ok u, v') m within same = λ given i bytes e.
      over-Within job.blocks (holds v) stored within i bytes (
        law.write_over v job.head job.blocks i bytes m (ap (λ x. x.0) same)
          (ap (λ x. holds x.1 i) same ∙ e))

  work_given : (t : Writer V) (job : Job) → t.given_up ≡ true → work ops t job ≡ t
  unfolding work
  work_given t job e = if_true t.given_up _ _ e

  work_open :
      (t : Writer V) (job : Job)
      → t.given_up ≡ false
      → work ops t job ≡ job_written ops (ops.write t.store job.head job.blocks) t.failures
  unfolding work
  work_open t job e = if_false t.given_up _ _ e

  work-Fresh :
      (stored : Stored) (t : Writer V) (job : Job)
      → Consistent job.blocks
      → Fresh holds stored t
      → Fresh holds (over job.blocks stored) (work ops t job)
  work-Fresh stored t job m fresh = elim (Bool-cases t.given_up) [
    | inl given ↦ λ still.
        absurd
          (true_not_false (sym given ∙ ap (λ x. x.given_up) (sym (work_given t job given)) ∙ still))
    | inr not_given ↦ rw (work_open t job not_given) (
        job_written-Fresh stored t.store job t.failures (ops.write t.store job.head job.blocks) m
          (fresh not_given) refl)
  ]

  work_all-Fresh :
      (stored : Stored) (t : Writer V) (jobs : List Job)
      → All (λ job. Consistent job.blocks) jobs
      → Fresh holds stored t
      → Fresh holds (latest stored jobs) (work_all ops t jobs)
  unfolding work_all
  work_all-Fresh stored t [] m fresh = fresh
  work_all-Fresh stored t (job ∷ jobs) m fresh =
      work_all-Fresh (over job.blocks stored) (work ops t job) jobs m.1
        (work-Fresh stored t job m.0 fresh)

  -- The copy is at the content `stored`, once the thread has done what is queued.
  pub record Current (stored : Stored) (b : Background V) : Type 0 where
    pub base : Stored
    pub fresh : Fresh holds base b.thread
    pub queued : (i : ℕ) → latest base b.jobs i ≡ stored i
    pub maps : All (λ job. Consistent job.blocks) b.jobs

  pub start-Current :
      (stored : Stored) (v : V) (spawned : Bool)
      → Within (holds v) stored
      → Current stored (start ops v spawned)
  unfolding start
  start-Current stored v spawned h = record {
    base = stored;
    fresh = λ given. h;
    queued = λ i. refl;
    maps = tt;
  }

  -- The thread keeps it, whenever it takes a job.
  pub Step-Current :
      (stored : Stored) (a b : Background V) → Step ops a b → Current stored a → Current stored b
  Step-Current stored a b (takes job rest t has) c = record {
    base = over job.blocks c.base;
    fresh = work-Fresh c.base t job c.maps.0 c.fresh;
    queued = c.queued;
    maps = c.maps.1;
  }

  pub Steps-Current :
      (stored : Stored) {a b : Background V} → Steps ops a b → Current stored a → Current stored b
  Steps-Current stored (stays b) c = c
  Steps-Current stored (goes a b d s rest) c =
      Steps-Current stored rest (Step-Current stored a b s c)

  latest-append :
      (stored : Stored) (jobs : List Job) (job : Job)
      → latest stored (jobs ++ (job ∷ [])) ≡ over job.blocks (latest stored jobs)
  latest-append stored [] job = refl
  latest-append stored (next ∷ jobs) job = latest-append (over next.blocks stored) jobs job

  maps_append :
      (jobs : List Job) (job : Job)
      → All (λ j. Consistent j.blocks) jobs
      → Consistent job.blocks
      → All (λ j. Consistent j.blocks) (jobs ++ (job ∷ []))
  maps_append [] job all m = (m, tt)
  maps_append (next ∷ jobs) job all m = (all.0, maps_append jobs job all.1 m)

  over_queued :
      (blocks : List (ℕ × Bytes)) (a b : Stored) (i : ℕ)
      → a i ≡ b i
      → over blocks a i ≡ over blocks b i
  over_queued blocks a b i e = ap (first_of (find i blocks)) e

  -- What a read of a current copy returns, and leaves.
  abbrev pub ReadsCurrent : Stored → ℕ → Result Bytes (List Bytes) × Background V → Type 0
  ReadsCurrent stored first o =
      Current stored o.1 × ((blocks : List Bytes) → o.0 ≡ ok blocks → Run stored first blocks)

  answer-ReadsCurrent :
      (stored : Stored) (b : Background V) (first count : ℕ)
      → Current stored b
      → b.jobs ≡ []
      → ReadsCurrent stored first (answer ops b first count)
  unfolding answer
  answer-ReadsCurrent stored b first count c idle = elim (Bool-cases b.thread.given_up) [
    | inl given ↦ rw (if_true b.thread.given_up _ _ given) (c, λ blocks e. cc)
    | inr not_given ↦
        let t = b.thread in
        let within : Within (holds t.store) stored = λ i bytes e.
          sym (c.queued i) ∙ ap (λ jobs. latest c.base jobs i) idle ∙ c.fresh not_given i bytes e in
        rw (if_false b.thread.given_up _ _ not_given) (
          record {
            base = c.base;
            fresh = λ still i bytes e.
                c.fresh still i bytes (law.read_keeps t.store first count i bytes e);
            queued = c.queued;
            maps = c.maps;
          },
          λ blocks e.
              Run-Within (holds t.store) stored first blocks within
                (law.read_run t.store first count blocks e),
        )
  ]

  drain_idle : (b : Background V) → (drain ops b).jobs ≡ []
  unfolding drain
  drain_idle b = refl

  drain-Current :
      (stored : Stored) (b : Background V) → Current stored b → Current stored (drain ops b)
  unfolding drain
  drain-Current stored b c = record {
    base = latest c.base b.jobs;
    fresh = work_all-Fresh c.base b.thread b.jobs c.maps c.fresh;
    queued = c.queued;
    maps = tt;
  }

  pub queue_write-Current :
      (stored : Stored) (b : Background V) (head : Head) (blocks : List (ℕ × Bytes))
      → Consistent blocks
      → Current stored b
      → (queue_write ops b head blocks).0 ≡ true
      → Current (over blocks stored) (queue_write ops b head blocks).1
  unfolding queue_write
  queue_write-Current stored b head blocks m c sent = elim (Bool-cases b.has_thread) [
    | inl has ↦
        let job : Job = record { head = head; blocks = blocks } in
        rw (if_true b.has_thread _ _ has) (record {
          base = c.base;
          fresh = c.fresh;
          queued = λ i.
              ap (λ s. s i) (latest-append c.base b.jobs job)
              ∙ over_queued blocks (latest c.base b.jobs) stored i (c.queued i);
          maps = maps_append b.jobs job c.maps m;
        })
    | inr gone ↦ cc (rw (if_false b.has_thread _ _ gone) at sent)
  ]

  pub queue_read-Current :
      (stored : Stored) (b : Background V) (first count : ℕ)
      → Current stored b
      → ReadsCurrent stored first (queue_read ops b first count)
  unfolding queue_read
  queue_read-Current stored b first count c = elim (Bool-cases b.has_thread) [
    | inl has ↦ rw (if_true b.has_thread _ _ has) (
        answer-ReadsCurrent stored (drain ops b) first count (drain-Current stored b c)
          (drain_idle b))
    | inr gone ↦ rw (if_false b.has_thread _ _ gone) (c, λ blocks e. cc)
  ]

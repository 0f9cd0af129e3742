-- ===== src/Copy/Queue.antt =====
-- The thread that writes a local copy, at any speed (`Background`,
-- crates/sqlite-remote-vfs/src/local.rs).
use sqlite_remote_vfs.Base.{ℕ, ◌≡◌, refl, sym, ◌∙◌, ap, Bool, true, List, ◌∷◌, if_true}
use sqlite_remote_vfs.Copy.{
  LocalStore, Writer, Background, Job, work, work_all, drain, queue_read, answer,
}

module _ {V : Type 0} (ops : LocalStore V) where
  -- The thread may take the next job at any time.
  pub data Step : Background V → Background V → Type 0 where
    takes :
        (job : Job) (rest : List Job) (t : Writer V) (has : Bool)
        → Step
            (record { jobs = job ∷ rest; thread = t; has_thread = has })
            (record { jobs = rest; thread = work ops t job; has_thread = has })

  -- Any number of jobs.
  pub data Steps : Background V → Background V → Type 0 where
    stays : (b : Background V) → Steps b b
    goes : (a b c : Background V) → Step a b → Steps b c → Steps a c

  drain-Step : (a b : Background V) → Step a b → drain ops a ≡ drain ops b
  unfolding drain work_all
  drain-Step a b (takes job rest t has) = refl

  has_thread-Step : (a b : Background V) → Step a b → a.has_thread ≡ b.has_thread
  has_thread-Step a b (takes job rest t has) = refl

  drain-Steps : {a b : Background V} → Steps a b → drain ops a ≡ drain ops b
  drain-Steps (stays b) = refl
  drain-Steps (goes a c b s rest) = drain-Step a c s ∙ drain-Steps rest

  has_thread-Steps : {a b : Background V} → Steps a b → a.has_thread ≡ b.has_thread
  has_thread-Steps (stays b) = refl
  has_thread-Steps (goes a c b s rest) = has_thread-Step a c s ∙ has_thread-Steps rest

  pub queue_read_open :
      (b : Background V) (first count : ℕ)
      → b.has_thread ≡ true
      → queue_read ops b first count ≡ answer ops (drain ops b) first count
  unfolding queue_read
  queue_read_open b first count has = if_true b.has_thread _ _ has

  -- How far the thread has come does not show in what a read returns, nor in the state it leaves.
  pub queue_read-Steps :
      (a b : Background V) (first count : ℕ)
      → Steps a b
      → a.has_thread ≡ true
      → queue_read ops a first count ≡ queue_read ops b first count
  queue_read-Steps a b first count s has =
      queue_read_open a first count has
      ∙ ap (λ x. answer ops x first count) (drain-Steps s)
      ∙ sym (queue_read_open b first count (sym (has_thread-Steps s) ∙ has))

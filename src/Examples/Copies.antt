-- ===== src/Examples/Copies.antt =====
-- The theorems on a local copy at concrete inputs: a store that keeps its blocks in a list.
use sqlite_remote_vfs.Base.{
  ℕ, zero, suc, ◌+◌, ◌≡◌, refl, sym, ◌∙◌, inl, inr, true, Option, none, some, List, [], ◌∷◌, ◌++◌,
  Bool-cases, ◌==◌, Result, ok,
}
use sqlite_remote_vfs.Base.Bytes.{Bytes}
use sqlite_remote_vfs.Base.Map.{find, remove_all}
use sqlite_remote_vfs.Pages.View.{Stored}
use sqlite_remote_vfs.LocalDb.Fill.{Run}
use sqlite_remote_vfs.CopyHeader.{Head}
use sqlite_remote_vfs.Copy.{
  LocalStore, Background, start, queue_write, queue_read, answer, drain, work_all, work,
  job_written,
}
use sqlite_remote_vfs.Copy.Queue.{Step, Steps, queue_read-Steps}
use sqlite_remote_vfs.Copy.Fresh.{IsStore, over, first_of}
use sqlite_remote_vfs.Copy.Session.{Runs, queue_read-latest}

abbrev pub Kept : Type 0
Kept = List (ℕ × Bytes)

abbrev pub onto : Option Bytes → List Bytes → List Bytes
onto none rest = []
onto (some b) rest = b ∷ rest

abbrev pub read_kept : Kept → ℕ → ℕ → List Bytes
read_kept v first zero = []
read_kept v first (suc n) = onto (find first v) (read_kept v (first + 1) n)

abbrev pub list_store : LocalStore Kept
list_store = record {
  head = λ v. (ok none, v);
  read = λ v first count. (ok (read_kept v first count), v);
  write = λ v head blocks. (ok tt, blocks ++ v);
  forget = λ v head blocks. (ok tt, remove_all blocks v);
  clear = λ v. (ok tt, []);
}

abbrev pub kept : Kept → Stored
kept v i = find i v

find-append : (i : ℕ) (a b : Kept) → find i (a ++ b) ≡ first_of (find i a) (find i b)
unfolding find
find-append i [] b = refl
find-append i ((j, x) ∷ a) b = elim (Bool-cases (j == i)) [
  | inl same ↦ rw same refl
  | inr other ↦ rw other (find-append i a b)
]

onto-Run :
    (s : Stored) (first : ℕ) (o : Option Bytes) (rest : List Bytes)
    → s first ≡ o
    → Run s (first + 1) rest
    → Run s first (onto o rest)
onto-Run s first none rest e run = tt
onto-Run s first (some b) rest e run = (e, run)

read_kept-Run : (v : Kept) (first n : ℕ) → Run (kept v) first (read_kept v first n)
read_kept-Run v first zero = tt
read_kept-Run v first (suc n) =
    onto-Run (kept v) first (find first v) (read_kept v (first + 1) n) refl
      (read_kept-Run v (first + 1) n)

ok_same : {a b : List Bytes} → Path (Result Bytes (List Bytes)) (ok a) (ok b) → a ≡ b
ok_same e = cc

list_store-IsStore : IsStore list_store kept
unfolding find
list_store-IsStore = record {
  read_run = λ v first count blocks e. rw (← ok_same e) (read_kept-Run v first count);
  read_keeps = λ v first count i bytes e. e;
  write_over = λ v head blocks i bytes m e held. sym (find-append i blocks v) ∙ held;
  clear_drops = λ v i e. refl;
}

abbrev head : Head
head = record { subject = []; db_id = []; page_size = 4; page_count = 2; version = 7 }

-- A copy with two blocks, of which one is written while the thread has not started with it.
abbrev two_kept : Kept
two_kept = (0, 1 ∷ []) ∷ (1, 2 ∷ []) ∷ []

abbrev new_block : List (ℕ × Bytes)
new_block = (1, 9 ∷ []) ∷ []

abbrev waiting : Background Kept
waiting = (queue_write list_store (start list_store two_kept true) head new_block).1

abbrev working : Background Kept
working = record {
  jobs = [];
  thread =
      work list_store (start list_store two_kept true).thread
        (record { head = head; blocks = new_block });
  has_thread = true;
}

waiting-Runs :
    Runs list_store
      (kept two_kept)
      (start list_store two_kept true)
      (over new_block (kept two_kept))
      waiting
unfolding queue_write start find
waiting-Runs =
    Runs.writes (kept two_kept) (over new_block (kept two_kept)) _ _ head new_block (refl, tt) refl
      (Runs.ends _ _)

waiting_read : (queue_read list_store waiting 0 2).0 ≡ ok ((1 ∷ []) ∷ (9 ∷ []) ∷ [])
unfolding queue_read queue_write start drain answer work_all work job_written find
waiting_read = refl

queue_read-latest_example : Run (over new_block (kept two_kept)) 0 ((1 ∷ []) ∷ (9 ∷ []) ∷ [])
queue_read-latest_example =
    queue_read-latest list_store-IsStore (kept two_kept) (over new_block (kept two_kept)) two_kept
      true waiting 0 2 ((1 ∷ []) ∷ (9 ∷ []) ∷ []) (λ i bytes e. e) waiting-Runs waiting_read

one_step : Steps list_store waiting working
unfolding queue_write start
one_step =
    Steps.goes _ _ _ (Step.takes (record { head = head; blocks = new_block }) [] _ true)
      (Steps.stays _)

has_thread : waiting.has_thread ≡ true
unfolding queue_write start
has_thread = refl

queue_read-Steps_example : queue_read list_store waiting 0 2 ≡ queue_read list_store working 0 2
queue_read-Steps_example = queue_read-Steps list_store waiting working 0 2 one_step has_thread

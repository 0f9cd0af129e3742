-- ===== src/Pages/Written.antt =====
-- A file of which a part is written: the bytes, the size and the invariant, and one block more.
use sqlite_remote_vfs.Base.{
  ℕ, ◌+◌, ◌-◌, ◌*◌, ◌/◌, ◌%◌, ◌≤◌, ◌<◌, ◌≡◌, refl, ◌∙◌, ap, ◌⊎◌, inl, inr, arith, length, get_or,
  slice, length-slice, get_or-slice, Bool-cases, if◌then◌else◌, ltb, leb, ltb→lt, ltb→le,
}
use sqlite_remote_vfs.Base.Bytes.{Bytes}
use sqlite_remote_vfs.Pages.{Pages}
use sqlite_remote_vfs.Pages.Position.{div_within}
use sqlite_remote_vfs.Pages.View.{Stored, byte, Serves, Keeps, byte-Keeps}
use sqlite_remote_vfs.Pages.Place.{NothingBeyond, Placed}

-- The file `q` after the first `done` bytes of a write to the file `p`.
pub record Written (stored : Stored) (p : Pages) (offset : ℕ) (bytes : Bytes) (done : ℕ) (q : Pages)
    : Type 0 where
  pub serves : Serves stored q
  pub beyond : NothingBeyond stored q
  pub page_size : q.page_size ≡ p.page_size
  pub new : (k : ℕ) → k < done → byte stored q (offset + k) ≡ get_or bytes k 0
  pub old : (i : ℕ) → (i < offset) ⊎ (offset + done ≤ i) → byte stored q i ≡ byte stored p i
  -- The file grows as far as is needed, and no further.
  pub grows : p.page_count ≤ q.page_count
  pub covers : (k : ℕ) → k < done → (offset + k) / p.page_size < q.page_count
  pub tight :
      (q.page_count ≡ p.page_count) ⊎ (q.page_count * p.page_size < offset + done + p.page_size)

pub Written-none :
    (stored : Stored) (p : Pages) (offset : ℕ) (bytes : Bytes)
    → Serves stored p
    → NothingBeyond stored p
    → Written stored p offset bytes 0 p
Written-none stored p offset bytes s beyond = record {
  serves = s;
  beyond = beyond;
  page_size = refl;
  new = λ k lt. absurd (omega arith);
  old = λ i _. refl;
  grows = omega arith;
  covers = λ k lt. absurd (omega arith);
  tight = inl refl;
}

index_bound : (pos size : ℕ) → 0 < size → (pos / size + 1) * size ≤ pos + size
index_bound pos size h = grind arith

-- One more block.
module _ {stored : Stored} {p : Pages} (offset : ℕ) (bytes : Bytes) (done n : ℕ) {q r t : Pages}
    (w : Written stored p offset bytes done q) (k : Keeps stored q r)
    (room : done + n ≤ length bytes) (positive : 0 < n)
    (fits : (offset + done) % r.page_size + n ≤ r.page_size)
    (placed : Placed stored r (offset + done) (slice bytes done n) t) where
  len : length (slice bytes done n) ≡ n
  len = length-slice bytes done n room

  size_same : r.page_size ≡ p.page_size
  size_same = k.settings.page_size ∙ w.page_size

  next_new : (j : ℕ) → j < done + n → byte stored t (offset + j) ≡ get_or bytes j 0
  next_new j lt = elim (Bool-cases (ltb j done)) [
    | inl before ↦
        let lt' = ltb→lt j done before in
        placed.bytes_out (offset + j) (inl (omega arith)) ∙ byte-Keeps k (offset + j) ∙ w.new j lt'
    | inr here ↦
        let le = ltb→le j done here in
        let e : offset + j ≡ offset + done + (j - done) = omega arith in
        let e' : done + (j - done) ≡ j = omega arith in
        ap (byte stored t) e
        ∙ placed.bytes_in (j - done) (omega (arith, len))
        ∙ get_or-slice 0 bytes done n (j - done) (omega arith)
        ∙ ap (λ i. get_or bytes i 0) e'
  ]

  next_old : (i : ℕ) → (i < offset) ⊎ (offset + (done + n) ≤ i) → byte stored t i ≡ byte stored p i
  next_old i out = placed.bytes_out i (omega (arith, len)) ∙ byte-Keeps k i ∙ w.old i (omega arith)

  here_index : ℕ
  here_index = (offset + done) / r.page_size

  next_count : t.page_count ≡ (if leb q.page_count here_index then here_index + 1 else q.page_count)
  unfolding here_index
  next_count = simp (← k.settings.page_count) placed.page_count

  next_covers_here : here_index < t.page_count
  next_covers_here = ground (arith, next_count)

  next_grows : q.page_count ≤ t.page_count
  next_grows = ground (arith, next_count)

  next_covers : (j : ℕ) → j < done + n → (offset + j) / p.page_size < t.page_count
  next_covers j lt = elim (Bool-cases (ltb j done)) [
    | inl before ↦ omega (arith, w.covers j (ltb→lt j done before), next_grows)
    | inr here ↦
        let le = ltb→le j done here in
        let e : offset + j ≡ offset + done + (j - done) = omega arith in
        let same : (offset + done + (j - done)) / r.page_size ≡ here_index =
          unfold here_index in
          div_within (offset + done) (j - done) r.page_size k.serves.positive (omega arith) in
        simp (← size_same, e, same) next_covers_here
  ]

  next_tight :
      (t.page_count ≡ p.page_count)
      ⊎ (t.page_count * p.page_size < offset + (done + n) + p.page_size)
  next_tight = elim (Bool-cases (leb q.page_count here_index)) [
    | inl grew ↦
        let count : t.page_count ≡ here_index + 1 = next_count ∙ rw grew in
        inr (
          simp (count, ← size_same)
            (unfold here_index in
              omega (arith, index_bound (offset + done) r.page_size k.serves.positive)))
    | inr kept ↦
        let count : t.page_count ≡ q.page_count = next_count ∙ rw kept in
        elim w.tight [ inl same ↦ inl (count ∙ same) | inr close ↦ inr (rw count (omega arith)) ]
  ]

  pub Written-next : Written stored p offset bytes (done + n) t
  Written-next = record {
    serves = placed.serves;
    beyond = placed.beyond;
    page_size = placed.page_size ∙ size_same;
    new = next_new;
    old = next_old;
    grows = omega (arith, w.grows, next_grows);
    covers = next_covers;
    tight = next_tight;
  }

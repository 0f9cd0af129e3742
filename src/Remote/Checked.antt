-- ===== src/Remote/Checked.antt =====
-- What `checked` lets through (crates/sqlite-remote-vfs/src/database.rs).
use sqlite_remote_vfs.Base.{
  ℕ, ◌≤◌, ◌≡◌, refl, sym, ◌∙◌, ap, inl, inr, Option, ltb, ◌==◌, Bool-cases, ltb→le, le→ltb, ==→eq,
  ok, ◌↔◌, some, none,
}
use sqlite_remote_vfs.Proto
use sqlite_remote_vfs.Pages.{valid_page_size, max_page_count}
use sqlite_remote_vfs.Remote.PageSizes.{PageSize, PageSize-valid, valid-PageSize, ==_eq}
use sqlite_remote_vfs.Remote.{checked, checked_count, differs}

differs-none : (in_use size : ℕ) → differs (some in_use) size ≡ none → size ≡ in_use
unfolding differs
differs-none in_use size h = elim (Bool-cases (size == in_use)) [
  | inl same ↦ ==→eq size in_use same
  | inr other ↦ cc (rw other at h)
]

checked_count-ok :
    (o : Option ℕ) (opened answer : Proto.Opened)
    → checked_count o opened ≡ ok answer
    → (o ≡ none) × (answer ≡ opened) × (opened.page_count ≤ max_page_count)
unfolding checked_count
checked_count-ok (some n) opened answer h = cc
checked_count-ok none opened answer h = elim (Bool-cases (ltb max_page_count opened.page_count)) [
  | inl over ↦ cc (rw over at h)
  | inr fits ↦ (refl, cc (rw fits at h), ltb→le max_page_count opened.page_count fits)
]

-- What the client asks of an answer: a page size that is a power of two between 512 and 65536, no
-- more than 2 ^ 32 - 2 pages, and, for a database that is in use, its page size.
pub record Usable (opened : Proto.Opened) (in_use : Option ℕ) : Type 0 where
  pub page_size : PageSize opened.page_size
  pub page_count : opened.page_count ≤ 4294967294
  pub same_size : (size : ℕ) → in_use ≡ some size → opened.page_size ≡ size

none-differs :
    (in_use : Option ℕ) (n : ℕ)
    → ((size : ℕ) → in_use ≡ some size → n ≡ size)
    → differs in_use n ≡ none
unfolding differs
none-differs none n h = refl
none-differs (some size) n h = rw (==_eq n size (h size refl)) refl

pub checked-ok :
    (opened answer : Proto.Opened) (in_use : Option ℕ)
    → checked opened in_use ≡ ok answer
    → (answer ≡ opened) × Usable opened in_use
unfolding checked
checked-ok opened answer in_use h = elim (Bool-cases (valid_page_size opened.page_size)) [
  | inr bad ↦ cc (rw bad at h)
  | inl valid ↦
      let (differs_not, same, fits) =
        checked_count-ok (differs in_use opened.page_size) opened answer (rw valid at h) in
      (
        same,
        record {
          page_size = PageSize-valid opened.page_size valid;
          page_count = fits;
          same_size = λ size e.
              differs-none size opened.page_size
                (ap (λ o. differs o opened.page_size) (sym e) ∙ differs_not);
        },
      )
]

Usable-passes :
    (opened : Proto.Opened) (in_use : Option ℕ)
    → Usable opened in_use
    → checked opened in_use ≡ ok opened
unfolding checked checked_count
Usable-passes opened in_use u =
    rw
      (
        valid-PageSize opened.page_size u.page_size,
        none-differs in_use opened.page_size u.same_size,
        le→ltb max_page_count opened.page_count u.page_count,
      )
      refl

-- The client follows an answer of the server to `open` or `resume` exactly if it is usable, and then
-- it takes the answer as it is.
pub checked_iff :
    (opened answer : Proto.Opened) (in_use : Option ℕ)
    → (checked opened in_use ≡ ok answer) ↔ ((answer ≡ opened) × Usable opened in_use)
checked_iff opened answer in_use =
    (checked-ok opened answer in_use, λ (same, u). Usable-passes opened in_use u ∙ ap ok (sym same))

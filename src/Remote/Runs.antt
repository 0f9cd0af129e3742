-- ===== src/Remote/Runs.antt =====
-- Runs of consecutive indexes (`runs`, crates/sqlite-remote-vfs/src/database.rs).
use sqlite_remote_vfs.Base.{
  ℕ, zero, suc, ◌+◌, ◌<◌, ◌≡◌, refl, sym, ◌∙◌, ap, inl, inr, List, [], ◌∷◌, ◌++◌, ◌==◌, u64,
  u64_mod, u64_of_lt, arith, Bool-cases, ==→eq, All,
}
use sqlite_remote_vfs.Remote.{push_run, runs_from, runs}

-- The indexes of one run.
unfoldable pub indexes_of : ℕ → ℕ → List ℕ
indexes_of first zero = []
indexes_of first (suc count) = first ∷ indexes_of (u64 (first + 1)) count

unfoldable pub expanded : List (ℕ × ℕ) → List ℕ
unfolding indexes_of
expanded [] = []
expanded ((first, count) ∷ rest) = indexes_of first count ++ expanded rest

append_assoc : (xs ys zs : List ℕ) → (xs ++ ys) ++ zs ≡ xs ++ (ys ++ zs)
append_assoc [] ys zs = refl
append_assoc (x ∷ xs) ys zs = ap (◌∷◌ x) (append_assoc xs ys zs)

append_nil : (xs : List ℕ) → xs ++ [] ≡ xs
append_nil [] = refl
append_nil (x ∷ xs) = ap (◌∷◌ x) (append_nil xs)

u64_shift : (first count : ℕ) → u64 (u64 (first + 1) + count) ≡ u64 (first + suc count)
unfolding u64
u64_shift first count = omega arith

u64_twice : (n : ℕ) → u64 n < u64_mod
unfolding u64
u64_twice n = omega arith

indexes_of-suc :
    (first count : ℕ)
    → first < u64_mod
    → indexes_of first (suc count) ≡ indexes_of first count ++ (u64 (first + count) ∷ [])
unfolding indexes_of
indexes_of-suc first zero h =
    let e : first + 0 ≡ first = omega arith in
    ap (λ i. i ∷ []) (sym (u64_of_lt first h) ∙ ap u64 (sym e))
indexes_of-suc first (suc count) h = ap (◌∷◌ first) (
    indexes_of-suc (u64 (first + 1)) count (u64_twice (first + 1))
    ∙ ap (λ i. indexes_of (u64 (first + 1)) count ++ (i ∷ [])) (u64_shift first count))

abbrev Starts : List (ℕ × ℕ) → Type 0
Starts rs = All (λ r. r.0 < u64_mod) rs

expanded-push_run :
    (rs : List (ℕ × ℕ)) (index : ℕ)
    → Starts rs
    → expanded (push_run rs index) ≡ expanded rs ++ (index ∷ [])
unfolding expanded push_run indexes_of
expanded-push_run [] index h = refl
expanded-push_run ((first, count) ∷ []) index h = elim (Bool-cases (u64 (first + count) == index)) [
  | inl next ↦ rw next (
      ap (λ l. l ++ []) (indexes_of-suc first count h.0)
      ∙ append_nil (indexes_of first count ++ (u64 (first + count) ∷ []))
      ∙ ap (λ i. indexes_of first count ++ (i ∷ [])) (==→eq (u64 (first + count)) index next)
      ∙ ap (λ l. l ++ (index ∷ [])) (sym (append_nil (indexes_of first count))))
  | inr apart ↦ rw apart (sym (append_assoc (indexes_of first count) [] (index ∷ [])))
]
expanded-push_run ((first, count) ∷ next ∷ rest) index h =
    ap (λ l. indexes_of first count ++ l) (expanded-push_run (next ∷ rest) index h.1)
    ∙ sym (append_assoc (indexes_of first count) (expanded (next ∷ rest)) (index ∷ []))

push_run-Starts :
    (rs : List (ℕ × ℕ)) (index : ℕ) → index < u64_mod → Starts rs → Starts (push_run rs index)
unfolding push_run
push_run-Starts [] index lt h = (lt, tt)
push_run-Starts ((first, count) ∷ []) index lt h =
    elim (Bool-cases (u64 (first + count) == index)) [
      | inl next ↦ rw next (h.0, tt)
      | inr apart ↦ rw apart (h.0, (lt, tt))
    ]
push_run-Starts ((first, count) ∷ next ∷ rest) index lt h =
    (h.0, push_run-Starts (next ∷ rest) index lt h.1)

expanded-runs_from :
    (rs : List (ℕ × ℕ)) (xs : List ℕ)
    → Starts rs
    → All (λ x. x < u64_mod) xs
    → expanded (runs_from rs xs) ≡ expanded rs ++ xs
unfolding runs_from
expanded-runs_from rs [] h hx = sym (append_nil (expanded rs))
expanded-runs_from rs (x ∷ xs) h hx =
    expanded-runs_from (push_run rs x) xs (push_run-Starts rs x hx.0 h) hx.1
    ∙ ap (λ l. l ++ xs) (expanded-push_run rs x h)
    ∙ append_assoc (expanded rs) (x ∷ []) xs

-- The runs of a list of 64-bit indexes stand for exactly these indexes, in their order.
pub expanded-runs : (xs : List ℕ) → All (λ x. x < u64_mod) xs → expanded (runs xs) ≡ xs
unfolding runs expanded
expanded-runs xs h = expanded-runs_from [] xs tt h

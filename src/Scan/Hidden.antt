-- ===== src/Scan/Hidden.antt =====
-- src/scan.c: the walk over a directory passes over hidden entries.
use musicd.Base.{
  ◌≡◌, refl, sym, ap, ◌∙◌, inl, inr, Bool-cases, Option-cases, true, false, List, [], ◌∷◌, ◌++◌,
  Bytes, codes, peek, ◌==◌, ℤ,
}
use musicd.Memory.{Run, done, bind-ext}
use musicd.Scan.Walk.{Env, iterate_entries}

-- The names that do not begin with a dot.
abbrev pub shown : List Bytes → List Bytes
shown [] = []
shown (name ∷ names) = elim (peek name == b'.') [ true ↦ shown names | false ↦ name ∷ shown names ]

module _ {Store Song : Type 0} (env : Env Store Song) where
  interrupted_at :
      (scan : Bytes → ℤ → Store → Run Store) (dirpath : Bytes) (dir_id : ℤ) (names : List Bytes)
      (st : Store)
      → env.interrupted st ≡ true
      → iterate_entries env scan dirpath dir_id names st ≡ done st
  unfolding iterate_entries
  interrupted_at scan dirpath dir_id [] st e = refl
  interrupted_at scan dirpath dir_id (name ∷ names) st e = rw (e, iterate_entries) refl

  hidden_at :
      (scan : Bytes → ℤ → Store → Run Store) (dirpath : Bytes) (dir_id : ℤ) (name : Bytes)
      (names : List Bytes) (st : Store)
      → env.interrupted st ≡ false
      → (peek name == b'.') ≡ true
      → iterate_entries env scan dirpath dir_id (name ∷ names) st
        ≡ iterate_entries env scan dirpath dir_id names st
  unfolding iterate_entries
  hidden_at scan dirpath dir_id name names st on hidden = rw (on, iterate_entries) (rw hidden refl)

  -- An entry whose name begins with a dot, `.` and `..` among them, is passed over: the loop does the same
  -- without all of these.
  pub iterate_entries-shown :
      (scan : Bytes → ℤ → Store → Run Store) (dirpath : Bytes) (dir_id : ℤ) (names : List Bytes)
      (st : Store)
      → iterate_entries env scan dirpath dir_id (shown names) st
        ≡ iterate_entries env scan dirpath dir_id names st
  unfolding iterate_entries
  iterate_entries-shown scan dirpath dir_id [] st = refl
  iterate_entries-shown scan dirpath dir_id (name ∷ names) st =
      elim (Bool-cases (env.interrupted st)) [
        | inl stopped ↦
            interrupted_at scan dirpath dir_id (shown (name ∷ names)) st stopped
            ∙ sym (interrupted_at scan dirpath dir_id (name ∷ names) st stopped)
        | inr on ↦ elim (Bool-cases (peek name == b'.')) [
          | inl hidden ↦
              let dropped : shown (name ∷ names) ≡ shown names = rw (hidden, shown) refl in
              ap (λ l. iterate_entries env scan dirpath dir_id l st) dropped
              ∙ iterate_entries-shown scan dirpath dir_id names st
              ∙ sym (hidden_at scan dirpath dir_id name names st on hidden)
          | inr visible ↦
              let kept : shown (name ∷ names) ≡ name ∷ shown names = rw (visible, shown) refl in
              ap (λ l. iterate_entries env scan dirpath dir_id l st) kept
              ∙ elim (Option-cases (env.stat (dirpath ++ (codes "/" ++ name)) st)) [
                | inl e ↦
                    rw (on, iterate_entries)
                      (rw visible (rw e (iterate_entries-shown scan dirpath dir_id names st)))
                | inr (status, e) ↦ elim (Bool-cases status.is_dir) [
                  | inl dir ↦
                      rw (on, iterate_entries)
                        (rw visible (
                          rw e (
                            rw dir (
                              bind-ext (scan (dirpath ++ (codes "/" ++ name)) dir_id st) _ _
                                (iterate_entries-shown scan dirpath dir_id names)))))
                  | inr other ↦
                      rw (on, iterate_entries)
                        (rw visible
                          (rw e (rw other (iterate_entries-shown scan dirpath dir_id names _))))
                ]
              ]
        ]
      ]

-- ===== src/Daemon/Tables.antt =====
-- A Go map with string keys, as the list of its entries: writing a key removes its old entry, and
-- a loop that deletes keys keeps the other entries.
use solomon.Prelude.{
  ◌≡◌, refl, sym, inl, inr, Bool, true, false, not, Option, none, some, List, [], ◌∷◌, arith,
  if◌then◌else◌, Bool-cases, Text, equal, equal_iff,
}

abbrev pub Table : Type 0 → Type 0
Table V = List (Text × V)

module _ {V : Type 0} where
  unfoldable pub find : Table V → Text → Option V
  find [] key = none
  find ((k, v) ∷ t) key = if equal k key then some v else find t key

  -- The entries that pass the test stay.
  unfoldable pub keep : (Text → V → Bool) → Table V → Table V
  keep p [] = []
  keep p ((k, v) ∷ t) = let rest = keep p t in if p k v then (k, v) ∷ rest else rest

  unfoldable pub delete : Table V → Text → Table V
  unfolding keep
  delete t key = keep (λ k v. not (equal k key)) t

  unfoldable pub put : Table V → Text → V → Table V
  unfolding delete
  put t key value = (key, value) ∷ delete t key

  pub find-delete_same : (t : Table V) (key : Text) → find (delete t key) key ≡ none
  unfolding find delete keep
  find-delete_same [] key = refl
  find-delete_same ((k, v) ∷ t) key = ground (arith, find-delete_same t key)

  pub find-delete_other :
      (t : Table V) (key other : Text)
      → equal key other ≡ false
      → find (delete t key) other ≡ find t other
  unfolding find delete keep
  find-delete_other [] key other h = refl
  find-delete_other ((k, v) ∷ t) key other h = elim (Bool-cases (equal k key)) [
    | inl same ↦
        let e : k ≡ key = (equal_iff k key).0 same in
        let apart : equal k other ≡ false = rw e h in
        rw (same, apart) (find-delete_other t key other h)
    | inr differs ↦ rw (differs, find-delete_other t key other h) refl
  ]

  pub find-delete :
      (t : Table V) (key other : Text)
      → find (delete t key) other ≡ (if equal key other then none else find t other)
  find-delete t key other = elim (Bool-cases (equal key other)) [
    | inl same ↦
        let e : key ≡ other = (equal_iff key other).0 same in
        rw (same, ← e) (find-delete_same t key)
    | inr differs ↦ rw differs (find-delete_other t key other differs)
  ]

  pub find-put :
      (t : Table V) (key : Text) (v : V) (other : Text)
      → find (put t key v) other ≡ (if equal key other then some v else find t other)
  unfolding find put
  find-put t key v other = ground (arith, find-delete t key other)

  -- An entry that is found passes the test that kept it.
  pub find-keep :
      (p : Text → V → Bool) (t : Table V) (key : Text) (v : V)
      → find (keep p t) key ≡ some v
      → (found : Text) × (p found v ≡ true) × (equal found key ≡ true)
  unfolding find keep
  find-keep p [] key v h = cc
  find-keep p ((k, w) ∷ t) key v h = elim (Bool-cases (p k w)) [
    | inl kept ↦ elim (Bool-cases (equal k key)) [
      | inl same ↦ let e : w ≡ v = ground arith in (k, rw (sym e) kept, same)
      | inr differs ↦ find-keep p t key v (ground arith)
    ]
    | inr dropped ↦ find-keep p t key v (ground arith)
  ]

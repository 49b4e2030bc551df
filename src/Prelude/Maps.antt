-- ===== src/Prelude/Maps.antt =====
-- The hash maps of the Rust library, as lists of entries: an insertion replaces the key's entry. The
-- order of the entries stands for the order in which a map happens to be walked.
use rustbound_server.Prelude.{
  ◌≡◌, inl, inr, refl, arith, Bool, true, if◌then◌else◌, List, [], ◌∷◌, Option, none, some,
  Bool-cases, All,
}

-- Keys with a Boolean equality.
pub record Key (A : Type 0) : Type 0 where
  pub eqb : A → A → Bool
  pub eqb_refl : (a : A) → eqb a a ≡ true
  pub eqb→eq : (a b : A) → eqb a b ≡ true → a ≡ b

module _ {B : Type 0} where
  abbrev pub or_else : Option B → Option B → Option B
  or_else none o = o
  or_else (some v) o = some v

module _ {A B : Type 0} ⦃key : Key A⦄ where
  unfoldable pub lookup : A → List (A × B) → Option B
  lookup k [] = none
  lookup k ((j, v) ∷ m) = if key.eqb j k then some v else lookup k m

  unfoldable pub remove : A → List (A × B) → List (A × B)
  remove k [] = []
  remove k ((j, v) ∷ m) = let rest = remove k m in if key.eqb j k then rest else (j, v) ∷ rest

  unfoldable pub insert : A → B → List (A × B) → List (A × B)
  insert k v m = (k, v) ∷ remove k m

  -- The entries whose key passes a test.
  unfoldable pub filter_keys : (A → Bool) → List (A × B) → List (A × B)
  filter_keys p [] = []
  filter_keys p ((j, v) ∷ m) = let rest = filter_keys p m in if p j then (j, v) ∷ rest else rest

  -- The entries are inserted one after the other.
  unfoldable pub extend : List (A × B) → List (A × B) → List (A × B)
  extend [] m = m
  extend ((j, v) ∷ entries) m = extend entries (insert j v m)

  -- No key has two entries.
  unfoldable pub Distinct : List (A × B) → Type 0
  Distinct [] = Unit {0}
  Distinct ((j, v) ∷ m) = (lookup j m ≡ none) × Distinct m

module _ {A B : Type 0} ⦃key : Key A⦄ where
  pub lookup-remove :
      (k j : A) (m : List (A × B))
      → lookup j (remove k m) ≡ (if key.eqb k j then none else lookup j m)
  unfolding lookup remove
  lookup-remove k j [] = ground arith
  lookup-remove k j ((i, v) ∷ m) = elim (Bool-cases (key.eqb i k)) [
    | inl same ↦ ground (arith, same, key.eqb→eq i k same, lookup-remove k j m)
    | inr other ↦ elim (Bool-cases (key.eqb i j)) [
      | inl here ↦ elim (Bool-cases (key.eqb k j)) [
        | inl both ↦
            absurd (ground (arith, other, key.eqb→eq i j here, key.eqb→eq k j both, key.eqb_refl j))
        | inr apart ↦ ground (arith, other, here, apart)
      ]
      | inr away ↦ ground (arith, other, away, lookup-remove k j m)
    ]
  ]

  pub lookup-insert :
      (k j : A) (v : B) (m : List (A × B))
      → lookup j (insert k v m) ≡ (if key.eqb k j then some v else lookup j m)
  unfolding lookup insert
  lookup-insert k j v m = ground (arith, lookup-remove k j m)

  pub lookup-filter_keys :
      (p : A → Bool) (j : A) (m : List (A × B))
      → lookup j (filter_keys p m) ≡ (if p j then lookup j m else none)
  unfolding lookup filter_keys
  lookup-filter_keys p j [] = ground arith
  lookup-filter_keys p j ((i, v) ∷ m) = elim (Bool-cases (key.eqb i j)) [
    | inl here ↦ ground (arith, here, key.eqb→eq i j here, lookup-filter_keys p j m)
    | inr away ↦ ground (arith, away, lookup-filter_keys p j m)
  ]

  pub filter_keys-Distinct :
      (p : A → Bool) (m : List (A × B)) → Distinct m → Distinct (filter_keys p m)
  unfolding Distinct filter_keys
  filter_keys-Distinct p [] h = tt
  filter_keys-Distinct p ((i, v) ∷ m) (new, rest) =
      ground (arith, lookup-filter_keys p i m, filter_keys-Distinct p m rest)

  pub remove-Distinct : (k : A) (m : List (A × B)) → Distinct m → Distinct (remove k m)
  unfolding Distinct remove
  remove-Distinct k [] h = tt
  remove-Distinct k ((i, v) ∷ m) (new, rest) =
      ground (arith, lookup-remove k i m, remove-Distinct k m rest)

  pub insert-Distinct : (k : A) (v : B) (m : List (A × B)) → Distinct m → Distinct (insert k v m)
  unfolding Distinct insert
  insert-Distinct k v m h =
      (ground (arith, lookup-remove k k m, key.eqb_refl k), remove-Distinct k m h)

  pub extend-Distinct : (entries m : List (A × B)) → Distinct m → Distinct (extend entries m)
  unfolding extend
  extend-Distinct [] m h = h
  extend-Distinct ((i, v) ∷ entries) m h =
      extend-Distinct entries (insert i v m) (insert-Distinct i v m h)

  -- Where the entries have distinct keys, theirs win over those of the map.
  pub lookup-extend :
      (entries m : List (A × B)) (j : A)
      → Distinct entries
      → lookup j (extend entries m) ≡ or_else (lookup j entries) (lookup j m)
  unfolding Distinct lookup extend
  lookup-extend [] m j h = refl
  lookup-extend ((i, v) ∷ entries) m j (new, rest) = elim (Bool-cases (key.eqb i j)) [
    | inl here ↦ ground (
      arith,
      here,
      key.eqb→eq i j here,
      new,
      lookup-extend entries (insert i v m) j rest,
      lookup-insert i j v m,
    )
    | inr away ↦
        ground (arith, away, lookup-extend entries (insert i v m) j rest, lookup-insert i j v m)
  ]

  -- What holds of every entry that is found holds of every entry.
  pub lookup-All :
      (P : A × B → Type 0) (m : List (A × B))
      → Distinct m
      → ((k : A) (v : B) → lookup k m ≡ some v → P (k, v))
      → All P m
  unfolding Distinct lookup
  lookup-All P [] h f = tt
  lookup-All P ((i, u) ∷ m) (new, rest) f = (
    f i u (rw (key.eqb_refl i) refl),
    lookup-All P m rest (λ k v found. f k v (elim (Bool-cases (key.eqb i k)) [
      | inl same ↦ absurd (ground (arith, new, found, key.eqb→eq i k same))
      | inr other ↦ rw other found
    ])),
  )

-- ===== src/Prelude/Buffer.antt =====
-- Functions that take a byte buffer by `&mut`: a cursor over input, or a growing output vector.
-- The outcome carries the buffer as the call leaves it, also where the call fails.
use rustbound_server.Prelude.{
  ℕ, zero, suc, ◌<◌, ◌≡◌, refl, ◌∙◌, ◌⊎◌, inl, inr, arith, List, [], ◌∷◌, ◌++◌, length, Option,
  none, some, Option-cases,
}

-- `ok a buf`: the call returns `Ok(a)` and leaves the buffer `buf`; `err e buf`: it returns `Err(e)`.
pub data Outcome {ℓ κ} (E : Type ℓ) (A : Type κ) : Type (ℓ ⊔ κ) where
  ok : A → List ℕ → Outcome E A
  err : E → List ℕ → Outcome E A

-- A call that touches no buffer.
pub data Result {ℓ κ} (E : Type ℓ) (A : Type κ) : Type (ℓ ⊔ κ) where
  success : A → Result E A
  failure : E → Result E A

pub Result-cases {ℓ κ} :
    {E : Type ℓ} {A : Type κ} (r : Result E A)
    → ((a : A) × (r ≡ success a)) ⊎ ((e : E) × (r ≡ failure e))
Result-cases (success a) = inl (a, refl)
Result-cases (failure e) = inr (e, refl)

-- A function over the buffer.
abbrev pub Action {ℓ κ} : Type ℓ → Type κ → Type (ℓ ⊔ κ)
Action E A = List ℕ → Outcome E A

infixl 5 ◌>>=◌
abbrev pub ◌>>=◌ {ℓ κ ι} :
    {E : Type ℓ} {A : Type κ} {B : Type ι} → Action E A → (A → Action E B) → Action E B
◌>>=◌ m f buf = elim (m buf) [ ok a rest ↦ f a rest | err e rest ↦ err e rest ]

infixl 5 ◌>>◌
abbrev pub ◌>>◌ {ℓ κ} : {E : Type ℓ} {B : Type κ} → Action E (Unit {0}) → Action E B → Action E B
m >> k = m >>= λ _. k

-- An infallible write.
abbrev pub write {ℓ} : {E : Type ℓ} → (List ℕ → List ℕ) → Action E (Unit {0})
write f buf = ok tt (f buf)

abbrev pub done {ℓ κ} : {E : Type ℓ} {A : Type κ} → A → Action E A
done a buf = ok a buf

abbrev pub fail {ℓ κ} : {E : Type ℓ} {A : Type κ} → E → Action E A
fail e buf = err e buf

-- `.map_err(f)`.
abbrev pub map_err {ℓ κ ι} :
    {E : Type ℓ} {F : Type κ} {A : Type ι} → (E → F) → Action E A → Action F A
map_err f m buf = elim (m buf) [ ok a rest ↦ ok a rest | err e rest ↦ err (f e) rest ]

-- A body that works on a copy of the buffer and writes it back only on success.
abbrev pub transact {ℓ κ} : {E : Type ℓ} {A : Type κ} → Action E A → Action E A
transact m buf = elim (m buf) [ ok a rest ↦ ok a rest | err e rest ↦ err e buf ]

-- `let mut body = Vec::new()`, filled by `build` and handed to `send`; a failure to build it leaves
-- the output as it is.
abbrev pub with_body {ℓ κ} :
    {E : Type ℓ} {A : Type κ} → Action E (Unit {0}) → (List ℕ → Action E A) → Action E A
with_body build send output = elim (build []) [
  | ok _ body ↦ send body output
  | err e _ ↦ err e output
]

-- `buf.get(..n)`, with what lies behind it; `none` where fewer than `n` elements are left.
unfoldable pub split_front {ℓ} : {A : Type ℓ} → ℕ → List A → Option (List A × List A)
split_front zero xs = some ([], xs)
split_front (suc n) [] = none
split_front (suc n) (x ∷ xs) = elim (split_front n xs) [
  | none ↦ none
  | some (front, back) ↦ some (x ∷ front, back)
]

module _ {ℓ} {A : Type ℓ} where
  pub split_front-append : (xs ys : List A) → split_front (length xs) (xs ++ ys) ≡ some (xs, ys)
  unfolding split_front
  split_front-append [] ys = refl
  split_front-append (x ∷ xs) ys = rw (split_front-append xs ys)

  pub split_front_parts :
      (n : ℕ) (xs front back : List A)
      → split_front n xs ≡ some (front, back)
      → (xs ≡ front ++ back) × (length front ≡ n)
  unfolding split_front
  split_front_parts zero xs front back h = ground arith
  split_front_parts (suc n) [] front back h = cc
  split_front_parts (suc n) (x ∷ xs) front back h = elim (Option-cases (split_front n xs)) [
    | inl e ↦ ground (arith, e)
    | inr ((f, b), e) ↦ ground (arith, e, split_front_parts n xs f b e)
  ]

  pub split_front_short : (n : ℕ) (xs : List A) → length xs < n → split_front n xs ≡ none
  unfolding split_front
  split_front_short zero xs h = absurd (omega arith)
  split_front_short (suc n) [] h = refl
  split_front_short (suc n) (x ∷ xs) h = rw (split_front_short n xs (omega arith))

module _ {ℓ κ ι} {E : Type ℓ} {A : Type κ} {B : Type ι} where
  -- One step of a chain, for proofs that keep the parts shut.
  pub >>=-ok :
      (m : Action E A) (f : A → Action E B) {buf rest : List ℕ} {a : A}
      → m buf ≡ ok a rest
      → (m >>= f) buf ≡ f a rest
  >>=-ok m f e = rw (e, ◌>>=◌)

  pub >>=-eq_ok :
      (m : Action E A) (f : A → Action E B) (buf last : List ℕ) (b : B)
      → (m >>= f) buf ≡ ok b last
      → (a : A) × (rest : List ℕ) × (m buf ≡ ok a rest) × (f a rest ≡ ok b last)
  >>=-eq_ok m f buf last b e = settle (m buf) refl e
    where
      settle :
          (o : Outcome E A)
          → m buf ≡ o
          → elim o [ ok a rest ↦ f a rest | err x rest ↦ err x rest ] ≡ ok b last
          → (a : A) × (rest : List ℕ) × (m buf ≡ ok a rest) × (f a rest ≡ ok b last)
      settle (ok a rest) p q = (a, rest, p, q)
      settle (err x rest) p q = cc

  pub >>=-err :
      (m : Action E A) (f : A → Action E B) {buf rest : List ℕ} {e : E}
      → m buf ≡ err e rest
      → (m >>= f) buf ≡ err e rest
  >>=-err m f p = rw (p, ◌>>=◌)

module _ {ℓ κ} {E : Type ℓ} {A : Type κ} where
  pub Outcome-cases :
      (o : Outcome E A)
      → ((a : A) × (rest : List ℕ) × (o ≡ ok a rest))
        ⊎ ((e : E) × (rest : List ℕ) × (o ≡ err e rest))
  Outcome-cases (ok a rest) = inl (a, rest, refl)
  Outcome-cases (err e rest) = inr (e, rest, refl)

  pub map_err-eq_ok {ι} :
      {F : Type ι} (f : E → F) (m : Action E A) (buf rest : List ℕ) (a : A)
      → map_err f m buf ≡ ok a rest
      → m buf ≡ ok a rest
  map_err-eq_ok {F} f m buf rest a e = settle (m buf) refl e
    where
      settle :
          (o : Outcome E A)
          → m buf ≡ o
          → ◌≡◌ {A = Outcome F A} (elim o [ ok b r ↦ ok b r | err x r ↦ err (f x) r ]) (ok a rest)
          → m buf ≡ ok a rest
      settle (ok b r) p q = p ∙ cc
      settle (err x r) p q = cc

  pub with_body-eq_ok :
      (build : Action E (Unit {0})) (send : List ℕ → Action E A) (output rest : List ℕ) (a : A)
      → with_body build send output ≡ ok a rest
      → (body : List ℕ) × (build [] ≡ ok tt body) × (send body output ≡ ok a rest)
  with_body-eq_ok build send output rest a e = settle (build []) refl e
    where
      settle :
          (o : Outcome E (Unit {0}))
          → build [] ≡ o
          → elim o [ ok _ body ↦ send body output | err x _ ↦ err x output ] ≡ ok a rest
          → (body : List ℕ) × (build [] ≡ ok tt body) × (send body output ≡ ok a rest)
      settle (ok u body) p q = (body, p, q)
      settle (err x body) p q = cc

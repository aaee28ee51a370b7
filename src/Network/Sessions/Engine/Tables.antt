-- ===== src/Network/Sessions/Engine/Tables.antt =====
-- Dicts by flow key, and lists with one element replaced.
use securemailscope.Base.{
  ℕ, zero, suc, ◌≤◌, ◌<◌, ◌≡◌, refl, ap, ◌≢◌, true, List, [], ◌∷◌, ◌++◌, some, map, length,
  get_elem?, All, arith,
}
use securemailscope.Network.Flows.{FlowKey, eq_key}
use securemailscope.Network.Flows.Identity.{eq_key_iff}
use securemailscope.Network.Sessions.Engine.{find_key, set_key, del_key, set_at}

eq_key_refl : (key : FlowKey) → eq_key key key ≡ true
eq_key_refl key = (eq_key_iff key key).1 refl

module _ {ℓ} {A : Type ℓ} where
  pub set_at_past : (i : ℕ) (a : A) (xs : List A) → length xs ≤ i → set_at i a xs ≡ xs
  unfolding set_at
  set_at_past i a [] h = refl
  set_at_past zero a (x ∷ xs) h = absurd (omega arith)
  set_at_past (suc i) a (x ∷ xs) h = ap (◌∷◌ x) (set_at_past i a xs (omega arith))

  pub length-set_at : (i : ℕ) (a : A) (xs : List A) → length (set_at i a xs) ≡ length xs
  unfolding set_at
  length-set_at i a [] = refl
  length-set_at zero a (x ∷ xs) = refl
  length-set_at (suc i) a (x ∷ xs) = ap suc (length-set_at i a xs)

  pub map-set_at {κ} :
      {B : Type κ} (f : A → B) (i : ℕ) (a b : A) (xs : List A)
      → get_elem? xs i ≡ some b
      → f a ≡ f b
      → map f (set_at i a xs) ≡ map f xs
  unfolding set_at
  map-set_at f i a b [] h e = refl
  map-set_at f zero a b (x ∷ xs) h e = ground (arith, e)
  map-set_at f (suc i) a b (x ∷ xs) h e = ap (◌∷◌ (f x)) (map-set_at f i a b xs h e)

  pub map-append_end {κ} :
      {B : Type κ} (f : A → B) (xs : List A) (a : A)
      → map f (xs ++ (a ∷ [])) ≡ map f xs ++ (f a ∷ [])
  map-append_end f [] a = refl
  map-append_end f (x ∷ xs) a = ap (◌∷◌ (f x)) (map-append_end f xs a)

  pub get_elem?-set_at :
      (i : ℕ) (a b : A) (xs : List A)
      → get_elem? xs i ≡ some b
      → get_elem? (set_at i a xs) i ≡ some a
  unfolding set_at
  get_elem?-set_at i a b [] h = absurd (ground arith)
  get_elem?-set_at zero a b (x ∷ xs) h = refl
  get_elem?-set_at (suc i) a b (x ∷ xs) h = get_elem?-set_at i a b xs h

  pub get_elem?-set_at_other :
      (i j : ℕ) (a : A) (xs : List A) → i ≢ j → get_elem? (set_at i a xs) j ≡ get_elem? xs j
  unfolding set_at
  get_elem?-set_at_other i j a [] h = refl
  get_elem?-set_at_other zero zero a (x ∷ xs) h = absurd (h refl)
  get_elem?-set_at_other zero (suc j) a (x ∷ xs) h = refl
  get_elem?-set_at_other (suc i) zero a (x ∷ xs) h = refl
  get_elem?-set_at_other (suc i) (suc j) a (x ∷ xs) h =
      get_elem?-set_at_other i j a xs (λ e. h (ap suc e))

  pub get_elem?_bound : (xs : List A) (i : ℕ) (a : A) → get_elem? xs i ≡ some a → i < length xs
  get_elem?_bound [] i a h = absurd (ground arith)
  get_elem?_bound (x ∷ xs) zero a h = omega arith
  get_elem?_bound (x ∷ xs) (suc i) a h = omega (arith, get_elem?_bound xs i a h)

  pub get_elem?-append_left :
      (xs ys : List A) (i : ℕ) → i < length xs → get_elem? (xs ++ ys) i ≡ get_elem? xs i
  get_elem?-append_left [] ys i h = absurd (omega arith)
  get_elem?-append_left (x ∷ xs) ys zero h = refl
  get_elem?-append_left (x ∷ xs) ys (suc i) h = get_elem?-append_left xs ys i (omega arith)

  pub get_elem?-append_end : (xs : List A) (a : A) → get_elem? (xs ++ (a ∷ [])) (length xs) ≡ some a
  get_elem?-append_end [] a = refl
  get_elem?-append_end (x ∷ xs) a = get_elem?-append_end xs a

  pub find_key-All {κ} :
      (P : FlowKey × A → Type κ) (key : FlowKey) (a : A) (table : List (FlowKey × A))
      → All P table
      → find_key key table ≡ some a
      → P (key, a)
  unfolding find_key
  find_key-All P key a [] h e = absurd (ground arith)
  find_key-All P key a ((k, b) ∷ table) h e =
      ground (arith, eq_key_iff key k, find_key-All P key a table)

  pub find_key-set_key :
      (key : FlowKey) (a : A) (table : List (FlowKey × A))
      → find_key key (set_key key a table) ≡ some a
  unfolding find_key set_key
  find_key-set_key key a [] = ground (arith, eq_key_refl key)
  find_key-set_key key a ((k, b) ∷ table) =
      ground (arith, eq_key_refl key, find_key-set_key key a table)

  pub find_key-set_key_other :
      (key other : FlowKey) (a : A) (table : List (FlowKey × A))
      → key ≢ other
      → find_key other (set_key key a table) ≡ find_key other table
  unfolding find_key set_key
  find_key-set_key_other key other a [] h = ground (arith, eq_key_iff other key)
  find_key-set_key_other key other a ((k, b) ∷ table) h =
      ground
        (arith, eq_key_iff key k, eq_key_iff other k, find_key-set_key_other key other a table h)

  pub set_key-All {κ} :
      (P : FlowKey × A → Type κ) (key : FlowKey) (a : A) (table : List (FlowKey × A))
      → P (key, a)
      → All P table
      → All P (set_key key a table)
  unfolding set_key
  set_key-All P key a [] p h = (p, tt)
  set_key-All P key a ((k, b) ∷ table) p h =
      ground (arith, eq_key_iff key k, set_key-All P key a table p)

  -- Behind `del`, what held of the entries holds, and no entry has the key.
  pub del_key-All {κ} :
      (P : FlowKey × A → Type κ) (key : FlowKey) (table : List (FlowKey × A))
      → All P table
      → All (λ entry. P entry × (entry.0 ≢ key)) (del_key key table)
  unfolding del_key
  del_key-All P key [] h = tt
  del_key-All P key ((k, b) ∷ table) h = ground (arith, eq_key_iff key k, del_key-All P key table)

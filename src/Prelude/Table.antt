-- ===== src/Prelude/Table.antt =====
-- A Go map as an association list with at most one entry for a key. The order of the entries
-- stands for the order in which `range` happens to visit them.
use reverse_http.Prelude.{
  suc, ◌≤◌, ◌≡◌, refl, false, Option, none, some, List, [], ◌∷◌, arith, length, subst,
  if◌then◌else◌, Eq, ◌==◌, Bool-cases, inl, inr, if_cases, sym, ◌∙◌,
}
use mathlib.Core.Bool.{true≢false}

abbrev pub Table {ℓ κ} : Type ℓ → Type κ → Type (ℓ ⊔ κ)
Table K V = List (K × V)

module _ {ℓ κ} {K : Type ℓ} {V : Type κ} ⦃e : Eq K⦄ where
  -- m[k]
  unfoldable pub lookup : K → Table K V → Option V
  lookup k [] = none
  lookup k ((i, w) ∷ rest) = if i == k then some w else lookup k rest

  -- m[k] = v
  unfoldable pub insert : K → V → Table K V → Table K V
  insert k v [] = (k, v) ∷ []
  insert k v ((i, w) ∷ rest) = if i == k then (k, v) ∷ rest else (i, w) ∷ insert k v rest

  -- delete(m, k)
  unfoldable pub delete : K → Table K V → Table K V
  delete k [] = []
  delete k ((j, w) ∷ m) = if j == k then m else (j, w) ∷ delete k m

  -- Every entry of the key goes.
  unfoldable pub erase : K → Table K V → Table K V
  erase k [] = []
  erase k ((j, w) ∷ m) = if j == k then erase k m else (j, w) ∷ erase k m

  pub lookup-erase : (k : K) (m : Table K V) → lookup k (erase k m) ≡ none
  unfolding lookup erase
  lookup-erase k [] = refl
  lookup-erase k ((j, w) ∷ m) =
      if_cases (λ l. lookup k l ≡ none) (j == k) (λ _. lookup-erase k m)
        λ f.
          if_cases (λ o. o ≡ none) (j == k) (λ t. absurd (true≢false (sym t ∙ f)))
            λ _. lookup-erase k m

  pub lookup-insert :
      (k j : K) (x : V) (m : Table K V)
      → lookup j (insert k x m) ≡ (if k == j then some x else lookup j m)
  unfolding lookup insert
  lookup-insert k j x [] = refl
  lookup-insert k j x ((a, w) ∷ rest) =
      ground (arith, e.same_iff k j, e.same_iff a k, e.same_iff a j, lookup-insert k j x rest)

  -- No key stands twice.
  abbrev pub Unique : Table K V → Type κ
  Unique [] = Unit
  Unique ((j, w) ∷ m) = (lookup j m ≡ none) × Unique m

  pub lookup-delete :
      (k j : K) (m : Table K V)
      → Unique m
      → lookup j (delete k m) ≡ (if k == j then none else lookup j m)
  unfolding lookup delete
  lookup-delete k j [] u = ground arith
  lookup-delete k j ((i, w) ∷ m) u =
      ground (arith, e.same_iff k j, e.same_iff i k, e.same_iff i j, lookup-delete k j m u.1)

  lookup-insert-none :
      (k j : K) (v : V) (m : Table K V)
      → (j == k) ≡ false
      → lookup j m ≡ none
      → lookup j (insert k v m) ≡ none
  lookup-insert-none k j v m h n =
      ground (arith, lookup-insert k j v m, e.same_iff k j, e.same_iff j k)

  pub insert-Unique : (k : K) (v : V) (m : Table K V) → Unique m → Unique (insert k v m)
  unfolding insert lookup
  insert-Unique k v [] u = (refl, u)
  insert-Unique k v ((j, w) ∷ m) u = elim (Bool-cases (j == k)) [
    | inl hit ↦ let p = (e.same_iff j k).0 hit in rw hit (subst (λ x. lookup x m ≡ none) p u.0, u.1)
    | inr miss ↦ rw miss (lookup-insert-none k j v m miss u.0, insert-Unique k v m u.1)
  ]

  pub delete-Unique : (k : K) (m : Table K V) → Unique m → Unique (delete k m)
  unfolding delete lookup
  delete-Unique k [] u = u
  delete-Unique k ((j, w) ∷ m) u =
      ground (arith, delete-Unique k m u.1, lookup-delete k j m u.1, e.same_iff j k, e.same_iff k j)

  pub insert_nonempty : (k : K) (v : V) (m : Table K V) → 1 ≤ length (insert k v m)
  unfolding insert
  insert_nonempty k v [] = omega arith
  insert_nonempty k v ((j, w) ∷ m) = ground (arith, insert_nonempty k v m)

  pub length-insert_le : (k : K) (v : V) (m : Table K V) → length (insert k v m) ≤ suc (length m)
  unfolding insert
  length-insert_le k v [] = omega arith
  length-insert_le k v ((j, w) ∷ m) = ground (arith, length-insert_le k v m)

  pub length-insert_new :
      (k : K) (v : V) (m : Table K V) → lookup k m ≡ none → length (insert k v m) ≡ suc (length m)
  unfolding lookup insert
  length-insert_new k v [] h = refl
  length-insert_new k v ((j, w) ∷ m) h = ground (arith, length-insert_new k v m)

  pub length-insert_old :
      (k : K) (v w : V) (m : Table K V) → lookup k m ≡ some w → length (insert k v m) ≡ length m
  unfolding lookup insert
  length-insert_old k v w [] h = cc
  length-insert_old k v w ((j, x) ∷ m) h = ground (arith, length-insert_old k v w m)

  pub length-delete_le : (k : K) (m : Table K V) → length (delete k m) ≤ length m
  unfolding delete
  length-delete_le k [] = omega arith
  length-delete_le k ((j, w) ∷ m) = ground (arith, length-delete_le k m)

  pub delete-none : (k : K) (m : Table K V) → lookup k m ≡ none → delete k m ≡ m
  unfolding lookup delete
  delete-none k [] h = refl
  delete-none k ((j, w) ∷ m) h = ground (arith, delete-none k m)

  pub delete-insert_new :
      (k : K) (v : V) (m : Table K V) → lookup k m ≡ none → delete k (insert k v m) ≡ m
  unfolding lookup insert delete
  delete-insert_new k v [] h = ground (arith, e.same_iff k k)
  delete-insert_new k v ((j, w) ∷ m) h = ground (arith, delete-insert_new k v m)

-- ===== src/Map.antt =====
-- `std::unordered_map` with integer keys, as an association list with one entry for each key, and
-- the laws that its users rely on.
use Prim.Native.Nat.add
use internet.Prelude.{
  ℕ, zero, suc, ◌+◌, ◌-◌, ◌≤◌, ◌<◌, ◌≡◌, refl, ap, subst, inl, inr, Bool, true, false, ◌||◌, Option,
  none, some, List, [], ◌∷◌, arith, ◌==◌, if◌then◌else◌, Bool-cases, length, All,
}

module _ {ℓ} (V : Type ℓ) where
  abbrev pub Map : Type ℓ
  Map = List (ℕ × V)

module _ {ℓ} {V : Type ℓ} where
  unfoldable pub lookup : ℕ → Map V → Option V
  lookup key [] = none
  lookup key ((here, value) ∷ others) = if here == key then some value else lookup key others

  -- `m[k] = v`.
  unfoldable pub insert : ℕ → V → Map V → Map V
  insert key new [] = (key, new) ∷ []
  insert key new ((here, old) ∷ others) =
      if here == key then (key, new) ∷ others else (here, old) ∷ insert key new others

  unfoldable pub erase : ℕ → Map V → Map V
  erase k [] = []
  erase k ((j, v) ∷ m) = if j == k then erase k m else (j, v) ∷ erase k m

  unfoldable pub contains : ℕ → Map V → Bool
  unfolding lookup
  contains k [] = false
  contains k ((j, v) ∷ m) = (j == k) || contains k m

  pub lookup-insert :
      (key other : ℕ) (new : V) (m : Map V)
      → lookup other (insert key new m) ≡ (if key == other then some new else lookup other m)
  unfolding lookup insert
  lookup-insert key other new [] = refl
  lookup-insert key other new (entry ∷ m) = ground (arith, lookup-insert key other new m)

  pub lookup-erase :
      (k j : ℕ) (m : Map V) → lookup j (erase k m) ≡ (if k == j then none else lookup j m)
  unfolding lookup erase
  lookup-erase k j [] = ground arith
  lookup-erase k j ((i, w) ∷ m) = ground (arith, lookup-erase k j m)

  pub contains-lookup :
      (k : ℕ) (m : Map V) → contains k m ≡ elim (lookup k m) [ none ↦ false | some v ↦ true ]
  unfolding lookup contains
  contains-lookup k [] = refl
  contains-lookup k ((i, w) ∷ m) = ground (arith, contains-lookup k m)

  -- Each key has one entry, as in the container.
  abbrev pub Distinct : Map V → Type ℓ
  Distinct [] = Unit
  Distinct ((k, v) ∷ m) = (lookup k m ≡ none) × Distinct m

  pub insert-Distinct : (k : ℕ) (v : V) (m : Map V) → Distinct m → Distinct (insert k v m)
  unfolding lookup insert
  insert-Distinct k v [] d = (refl, tt)
  insert-Distinct k v ((j, w) ∷ m) d =
      ground (arith, insert-Distinct k v m d.1, lookup-insert k j v m)

  pub erase-Distinct : (k : ℕ) (m : Map V) → Distinct m → Distinct (erase k m)
  unfolding erase
  erase-Distinct k [] d = tt
  erase-Distinct k ((j, w) ∷ m) d = ground (arith, erase-Distinct k m d.1, lookup-erase k j m)

  pub length-erase_le : (k : ℕ) (m : Map V) → length (erase k m) ≤ length m
  unfolding erase
  length-erase_le k [] = omega arith
  length-erase_le k ((j, w) ∷ m) = ground (arith, length-erase_le k m)

  pub length-erase_lt :
      (k : ℕ) (m : Map V) {v : V} → lookup k m ≡ some v → length (erase k m) < length m
  unfolding lookup erase
  length-erase_lt k [] e = ground arith
  length-erase_lt k ((j, w) ∷ m) {v} e =
      ground (arith, length-erase_le k m, length-erase_lt k m {v = v})

  pub erase_of_absent : (k : ℕ) (m : Map V) → lookup k m ≡ none → erase k m ≡ m
  unfolding lookup erase
  erase_of_absent k [] e = refl
  erase_of_absent k ((j, w) ∷ m) e = ground (arith, erase_of_absent k m)

  pub length-erase_ge : (k : ℕ) (m : Map V) → Distinct m → length m ≤ suc (length (erase k m))
  unfolding lookup erase
  length-erase_ge k [] d = omega arith
  length-erase_ge k ((j, w) ∷ m) d = ground (
    arith,
    length-erase_ge k m d.1,
    λ (e : j ≡ k). ap length (erase_of_absent k m (subst (λ i. lookup i m ≡ none) e d.0)),
  )

-- Predicates on the entries.
module _ {ℓ κ} {V : Type ℓ} (P : ℕ × V → Type κ) where
  pub All-insert : (k : ℕ) (v : V) (m : Map V) → P (k, v) → All P m → All P (insert k v m)
  unfolding insert
  All-insert k v [] p a = (p, tt)
  All-insert k v ((j, w) ∷ m) p a = elim (Bool-cases (j == k)) [
    | inl e ↦ rw (e, insert) (p, a.1)
    | inr e ↦ rw (e, insert) (a.0, All-insert k v m p a.1)
  ]

  pub All-erase : (k : ℕ) (m : Map V) → All P m → All P (erase k m)
  unfolding erase
  All-erase k [] a = tt
  All-erase k ((j, w) ∷ m) a = elim (Bool-cases (j == k)) [
    | inl e ↦ rw (e, erase) (All-erase k m a.1)
    | inr e ↦ rw (e, erase) (a.0, All-erase k m a.1)
  ]

  pub All-lookup : (k : ℕ) (m : Map V) {v : V} → All P m → lookup k m ≡ some v → P (k, v)
  unfolding lookup
  All-lookup k [] a e = absurd (ground arith)
  All-lookup k ((j, w) ∷ m) {v} a e = elim (Bool-cases (j == k)) [
    | inl h ↦ subst P (ground arith) a.0
    | inr h ↦ All-lookup k m a.1 (ground arith)
  ]

-- All keys lie in `[lo, hi)`.
abbrev pub Within {ℓ} : {V : Type ℓ} → ℕ → ℕ → Map V → Type 0
Within lo hi [] = Unit
Within lo hi (e ∷ m) = (lo ≤ e.0) × (e.0 < hi) × Within lo hi m

module _ {ℓ} {V : Type ℓ} where
  pub Within-insert :
      (lo hi k : ℕ) (v : V) (m : Map V)
      → lo ≤ k
      → k < hi
      → Within lo hi m
      → Within lo hi (insert k v m)
  unfolding insert
  Within-insert lo hi k v [] p q a = (p, q, tt)
  Within-insert lo hi k v ((j, w) ∷ m) p q a = ground (arith, Within-insert lo hi k v m p q a.2)

  pub Within-mono : (lo hi hi' : ℕ) (m : Map V) → hi ≤ hi' → Within lo hi m → Within lo hi' m
  Within-mono lo hi hi' [] h a = tt
  Within-mono lo hi hi' (e ∷ m) h a = (a.0, omega arith, Within-mono lo hi hi' m h a.2)

  -- Without its first key, or without its last, a range is shorter.
  pub Within-erase_first :
      (lo hi : ℕ) (m : Map V) → Within lo hi m → Within (suc lo) hi (erase lo m)
  unfolding erase
  Within-erase_first lo hi [] a = tt
  Within-erase_first lo hi ((j, w) ∷ m) a = ground (arith, Within-erase_first lo hi m a.2)

  Within-erase_last : (lo hi : ℕ) (m : Map V) → Within lo (suc hi) m → Within lo hi (erase hi m)
  unfolding erase
  Within-erase_last lo hi [] a = tt
  Within-erase_last lo hi ((j, w) ∷ m) a = ground (arith, Within-erase_last lo hi m a.2)

  pub Within-lookup :
      (lo hi k : ℕ) (m : Map V) {v : V} → Within lo hi m → lookup k m ≡ some v → (lo ≤ k) × (k < hi)
  unfolding lookup
  Within-lookup lo hi k [] a e = ground arith
  Within-lookup lo hi k ((j, w) ∷ m) {v} a e = ground (arith, Within-lookup lo hi k m {v = v} a.2)

  Within-empty : (lo : ℕ) (m : Map V) → Within lo lo m → length m ≡ 0
  Within-empty lo [] a = refl
  Within-empty lo (e ∷ m) a = absurd (omega arith)

  -- Distinct keys of a range are at most as many as its numbers.
  length_of_range : (lo n : ℕ) (m : Map V) → Distinct m → Within lo (n + lo) m → length m ≤ n
  length_of_range lo zero m d a =
      omega (arith, Within-empty lo m (subst (λ h. Within lo h m) (add.zero lo) a))
  length_of_range lo (suc n) m d a = omega (
    arith,
    length-erase_ge (n + lo) m d,
    length_of_range lo n (erase (n + lo) m) (erase-Distinct (n + lo) m d)
        (Within-erase_last lo (n + lo) m (subst (λ h. Within lo h m) (add.suc n lo) a)),
  )

  pub length-Within :
      (lo hi : ℕ) (m : Map V) → lo ≤ hi → Distinct m → Within lo hi m → length m ≤ hi - lo
  length-Within lo hi m h d a =
      length_of_range lo (hi - lo) m d (subst (λ k. Within lo k m) (omega arith) a)

-- ===== src/Ref/Ownership.antt =====
-- Who sees a change of the object.
use internet.Prelude.{
  ℕ, ◌≡◌, refl, ap, true, none, some, ◌==◌, if◌then◌else◌, ==_iff, ok, fault, runtime_error,
  undefined, ◌>>=◌, Ensures, Ensures-of_eq,
}
use internet.Ref.{Heap, Ref, borrow, is_owned, load, get, get_mut, copy, of_value}

-- The store, once the object of a reference that lies at `self` is what it has become.
abbrev pub store_at : {T : Type 0} → ℕ → Ref T → Heap T → Heap T
store_at self r heap at = if at == self then r.obj else heap at

module _ {T : Type 0} where
  load_lem : (heap : Heap T) (at : ℕ) (o : T) → heap at ≡ some o → load heap (some at) ≡ ok o
  unfolding load
  load_lem heap at o e = ap (λ x. elim x [ some o ↦ ok o | none ↦ fault undefined ]) e

  stored : (self : ℕ) (r : Ref T) (heap : Heap T) → store_at self r heap self ≡ r.obj
  stored self r heap = ap (λ b. if b then r.obj else heap self) ((==_iff self self).1 refl)

  owner_of : T → Ref T
  owner_of o = record { borrowed_obj = none; obj = some o }

  shown :
      (self : ℕ) (o o' : T) (heap : Heap T)
      → get (store_at self (owner_of o') heap) (borrow self (owner_of o)) ≡ ok o'
  unfolding get borrow owner_of
  shown self o o' heap =
      let r : Ref T = record { borrowed_obj = none; obj = some o' } in
      load_lem (store_at self r heap) self o' (stored self r heap)

  -- A borrowed reference shows the owner's object, and the change of it; a copy, which owns its own
  -- object, does not change with it; and only an owner may change.
  pub borrow-get_mut :
      (self : ℕ) (o : T) (f : T → T) (heap : Heap T)
      → let owner : Ref T = record { borrowed_obj = none; obj = some o } in
        let borrowed = borrow self owner in
        let before = store_at self owner heap in
        Ensures
          (λ changed.
            let after = store_at self changed heap in
            (get after changed ≡ ok (f o))
            × (get after borrowed ≡ ok (f o))
            × Ensures (λ c. (get after c ≡ ok o) × (is_owned c ≡ true)) (copy before borrowed))
          (get_mut f owner)
        × (get before borrowed ≡ ok o)
        × (get_mut f borrowed ≡ fault runtime_error)
  unfolding borrow get get_mut copy is_owned of_value owner_of
  borrow-get_mut self o f heap =
      let owner : Ref T = record { borrowed_obj = none; obj = some o } in
      let before = store_at self owner heap in
      (
        (
          refl,
          shown self o (f o) heap,
          Ensures-of_eq _ (copy before (borrow self owner)) _
              (ap (λ m. m >>= λ c. ok (of_value c)) (shown self o o heap)) (refl, refl),
        ),
        shown self o o heap,
        refl,
      )

-- ===== src/Ref.antt =====
-- util/ref.hh: a reference that owns its object or borrows another's. The objects lie in a store, by
-- their address: `none` where there is none, or no longer. A `Ref` that owns an object lies at an
-- address too, and its object there.
pub mod Ownership
use internet.Prelude.{
  ℕ, Bool, true, false, not, Option, none, some, if◌then◌else◌, Exec, ok, fault, runtime_error,
  undefined, ◌>>=◌,
}

abbrev pub Heap : Type 0 → Type 0
Heap T = ℕ → Option T

-- `borrowed_obj_`, which may be null, and `obj_`.
pub record Ref (T : Type 0) : Type 0 where
  pub borrowed_obj : Option ℕ
  pub obj : Option T

module _ {T : Type 0} where
  -- The constructors that own their object: the default object, or one that is moved from.
  unfoldable pub of_value : T → Ref T
  of_value obj = record { borrowed_obj = none; obj = some obj }

  -- `borrow( obj )` of the object at an address.
  unfoldable pub borrow_object : ℕ → Ref T
  borrow_object at = record { borrowed_obj = some at; obj = none }

  -- `borrow()` of a reference whose own object lies at `self`.
  unfoldable pub borrow : ℕ → Ref T → Ref T
  borrow self r = record {
    borrowed_obj = elim r.obj [ some o ↦ some self | none ↦ r.borrowed_obj ];
    obj = none;
  }

  unfoldable pub is_owned : Ref T → Bool
  is_owned r = elim r.obj [ some o ↦ true | none ↦ false ]

  unfoldable pub is_borrowed : Ref T → Bool
  unfolding is_owned
  is_borrowed r = not (is_owned r)

  -- The object at an address; without one, what the code does has no meaning.
  unfoldable pub load : Heap T → Option ℕ → Exec T
  load heap none = fault undefined
  load heap (some at) = elim (heap at) [ some o ↦ ok o | none ↦ fault undefined ]

  unfoldable pub get : Heap T → Ref T → Exec T
  unfolding load
  get heap r = elim r.obj [ some o ↦ ok o | none ↦ load heap r.borrowed_obj ]

  -- What `get_mut` refers to is changed by `f`.
  unfoldable pub get_mut : (T → T) → Ref T → Exec (Ref T)
  get_mut f r = elim r.obj [
    | some o ↦ ok (record r { obj = some (f o) })
    | none ↦ fault runtime_error
  ]

  -- The copy constructor.
  unfoldable pub copy : Heap T → Ref T → Exec (Ref T)
  unfolding get of_value
  copy heap other = get heap other >>= λ o. ok (of_value o)

  -- Copy assignment, which does nothing where both are the same object.
  unfoldable pub assign : Heap T → (is_same : Bool) → (other this : Ref T) → Exec (Ref T)
  unfolding get
  assign heap is_same other this =
      let copied : Exec (Ref T) =
        get heap other >>= λ o. ok (record { borrowed_obj = none; obj = some o }) in
      if is_same then ok this else copied

  -- `release`, where references may be copied. An object that is moved from is `moved`.
  unfoldable pub release : (moved : T) → Heap T → Ref T → Exec (T × Ref T)
  unfolding get
  release moved heap r = elim r.obj [
    | some o ↦ ok (o, record r { obj = some moved })
    | none ↦ get heap r >>= λ o. ok (o, r)
  ]

-- ===== src/Xcache/GetSet.antt =====
-- `GetSet`: the value that is there, or the one that the provider gives.
use common_lib_go.Prelude.{
  ℕ, ◌≡◌, refl, Bool, Option, none, some, arith, ◌⊎◌, inl, inr, ℕ_discrete, insert,
}
use common_lib_go.Xcache.{Bytes, Bucket, ok, err, Error, no_data, get_locked}
use common_lib_go.Xcache.Store.{set_locked, Stored}
use common_lib_go.Xcache.Methods.{own, callback, Provided, get_set}
use common_lib_go.Xcache.Invariant.{Written, Valid}
use common_lib_go.Xcache.Read.{get_locked_lem}
use common_lib_go.Xcache.SetLocked.{Storable, set_locked_lem, set_locked_refused, storable?}

module _ (blank : ℕ → ℕ) {E : Type 0} where
  get_set_there :
      (b : Bucket) (k x : Bytes) (h : ℕ) (provided : E ⊎ Bytes) (notify : Bool)
      → get_locked b k h ≡ ok x
      → get_set blank b k h provided notify
        ≡ some (record { bucket = b; value = inr x; evicted = none })
  unfolding get_set
  get_set_there b k x h provided notify e = ground (arith, e)

  get_set_failed :
      (b : Bucket) (k : Bytes) (h : ℕ) (e : E) (notify : Bool)
      → get_locked b k h ≡ err no_data
      → get_set blank b k h (inl e) notify
        ≡ some (record { bucket = b; value = inl (callback e); evicted = none })
  unfolding get_set
  get_set_failed b k h e notify none' = ground (arith, none')

  get_set_stored :
      (b : Bucket) (k x : Bytes) (h : ℕ) (notify : Bool) (r : Stored)
      → get_locked b k h ≡ err no_data
      → set_locked blank b k x h notify ≡ some r
      → r.error ≡ none
      → ◌≡◌ {A = Option (Provided E)}
          (get_set blank b k h (inr x) notify)
          (some (record { bucket = r.bucket; value = inr x; evicted = r.evicted }))
  unfolding get_set
  get_set_stored b k x h notify r none' stored fine = ground (arith, none', stored, fine)

  get_set_refused :
      (b : Bucket) (k x : Bytes) (h : ℕ) (notify : Bool) (e : Error)
      → get_locked b k h ≡ err no_data
      → set_locked blank b k x h notify
        ≡ some (record { bucket = b; error = some e; evicted = none })
      → ◌≡◌ {A = Option (Provided E)}
          (get_set blank b k h (inr x) notify)
          (some (record { bucket = b; value = inl (own e); evicted = none }))
  unfolding get_set
  get_set_refused b k x h notify e none' refuses = ground (arith, none', refuses)

  -- The value was there; or there was no data, and the provider failed, or its value cannot be stored, or
  -- it is stored.
  abbrev pub Outcome : Bucket → Written → Bytes → ℕ → E ⊎ Bytes → Provided E → Type 0
  Outcome b g k h provided r =
      ((x : Bytes) × (get_locked b k h ≡ ok x) × (r.value ≡ inr x) × (r.bucket ≡ b))
      ⊎ ((e : E) × (get_locked b k h ≡ err no_data)
          × (provided ≡ inl e)
          × (r.value ≡ inl (callback e))
          × (r.bucket ≡ b))
      ⊎ ((e : Error) × (x : Bytes) × (get_locked b k h ≡ err no_data)
          × (provided ≡ inr x)
          × (¬ Storable k x)
          × (r.value ≡ inl (own e))
          × (r.bucket ≡ b))
      ⊎ ((x : Bytes) × (get_locked b k h ≡ err no_data)
          × (provided ≡ inr x)
          × (r.value ≡ inr x)
          × (get_locked r.bucket k h ≡ ok x)
          × Valid r.bucket (insert ℕ_discrete h (k, x) g))

  -- In a well-formed bucket `GetSet` never panics, and it does one of four things. A get gives a value
  -- for the key: it is returned, and nothing changes. Or a get gives no data, and then: the provider
  -- fails, its error is returned, and nothing changes; or its value cannot be stored, an error is
  -- returned, and nothing changes; or its value is returned and stored, and a get then gives it.
  pub get_set_lem :
      (b : Bucket) (g : Written) (k : Bytes) (h : ℕ) (provided : E ⊎ Bytes) (notify : Bool)
      → Valid b g
      → (r : Provided E) × (get_set blank b k h provided notify ≡ some r)
        × Outcome b g k h provided r
  get_set_lem b g k h provided notify w = elim (get_locked_lem b g k h w) [
    | inr (x, found, _) ↦
        (_, get_set_there b k x h provided notify found, inl (x, found, refl, refl))
    | inl nothing ↦ provide provided nothing
  ]
    where
      provide :
          (provided : E ⊎ Bytes)
          → get_locked b k h ≡ err no_data
          → (r : Provided E) × (get_set blank b k h provided notify ≡ some r)
            × Outcome b g k h provided r
      provide (inl e) nothing =
          (_, get_set_failed b k h e notify nothing, inr (inl (e, nothing, refl, refl, refl)))
      provide (inr x) nothing = elim (storable? k x) [
        | yes fits ↦
            let (r, stored, s) = set_locked_lem blank k x h notify w fits in
            (
              _,
              get_set_stored b k x h notify r nothing stored s.no_error,
              inr (inr (inr (x, nothing, refl, refl, s.found, s.valid))),
            )
        | no too_big ↦
            let (e, refuses) = set_locked_refused blank b k x h notify too_big in
            (
              _,
              get_set_refused b k x h notify e nothing refuses,
              inr (inr (inl (e, x, nothing, refl, too_big, refl, refl))),
            )
      ]

-- ===== src/Xcache/Update.antt =====
-- `Update`: the mutator sees the value of the key, and may edit it in place or give another one.
use common_lib_go.Prelude.{
  ℕ, ◌≡◌, refl, ap, ◌∙◌, Bool, true, false, ◌%◌, Option, none, some, length, arith, ◌⊎◌, inl, inr,
  Option-cases, Bool-cases, ℕ_discrete, lookup, insert,
}
use common_lib_go.Xcache.{
  Bytes, Bucket, Pair, ok, err, Error, no_data, find_pair, get_locked, value_of, idx_of, chunk_size,
}
use common_lib_go.Xcache.Store.{set_locked, Stored}
use common_lib_go.Xcache.Methods.{
  own, callback, own_error, Mutation, Updated, write_back, finish_update, update,
}
use common_lib_go.Xcache.Invariant.{Written, Valid}
use common_lib_go.Xcache.Read.{find_pair_lem, get_found, get_none, pair_at, key_of-pair_at}
use common_lib_go.Xcache.SetLocked.{Storable, set_locked_lem, set_locked_refused, storable?}
use common_lib_go.Xcache.Edited.{edited, write_back-edited, edited-Valid, edited_found}

module _ (blank : ℕ → ℕ) {E : Type 0} where
  -- What an update leaves, given the bucket and the pairs after the mutator: the mutator failed; or it
  -- wants no update; or its value cannot be stored; or the value is stored.
  abbrev pub Finished :
      Bucket → Written → Bytes → ℕ → Mutation E → Option Error → Updated E → Type 0
  Finished b g k h m read r =
      ((e : E) × (m.error ≡ some e) × (r.error ≡ some (callback e)) × (r.bucket ≡ b))
      ⊎ ((m.error ≡ none) × (m.update ≡ false) × (r.error ≡ own_error read) × (r.bucket ≡ b))
      ⊎ ((m.error ≡ none)
          × (m.update ≡ true)
          × (¬ Storable k m.value)
          × ((e : Error) × (r.error ≡ some (own e)))
          × (r.bucket ≡ b))
      ⊎ ((m.error ≡ none)
          × (m.update ≡ true)
          × (r.error ≡ none)
          × (get_locked r.bucket k h ≡ ok m.value)
          × Valid r.bucket (insert ℕ_discrete h (k, m.value) g))

  finish_failed :
      (b : Bucket) (k : Bytes) (h : ℕ) (m : Mutation E) (read : Option Error) (notify : Bool)
      (e : E)
      → m.error ≡ some e
      → finish_update blank b k h m read notify
        ≡ some (record { bucket = b; error = some (callback e); evicted = none })
  unfolding finish_update
  finish_failed b k h m read notify e failed = ground (arith, failed)

  finish_same :
      (b : Bucket) (k : Bytes) (h : ℕ) (m : Mutation E) (read : Option Error) (notify : Bool)
      → m.error ≡ none
      → m.update ≡ false
      → finish_update blank b k h m read notify
        ≡ some (record { bucket = b; error = own_error read; evicted = none })
  unfolding finish_update
  finish_same b k h m read notify fine same = ground (arith, fine, same)

  finish_set :
      (b : Bucket) (k : Bytes) (h : ℕ) (m : Mutation E) (read : Option Error) (notify : Bool)
      (r : Stored)
      → m.error ≡ none
      → m.update ≡ true
      → set_locked blank b k m.value h notify ≡ some r
      → finish_update blank b k h m read notify
        ≡ some (record { bucket = r.bucket; error = own_error r.error; evicted = r.evicted })
  unfolding finish_update
  finish_set b k h m read notify r fine changed stored = ground (arith, fine, changed, stored)

  finish_update_lem :
      {b : Bucket} {g : Written} (k : Bytes) (h : ℕ) (m : Mutation E) (read : Option Error)
      (notify : Bool)
      → Valid b g
      → (r : Updated E) × (finish_update blank b k h m read notify ≡ some r)
        × Finished b g k h m read r
  finish_update_lem {b} {g} k h m read notify w = elim (Option-cases m.error) [
    | inr (e, failed) ↦ (_, finish_failed b k h m read notify e failed, inl (e, failed, refl, refl))
    | inl fine ↦ elim (Bool-cases m.update) [
      | inr same ↦
          (_, finish_same b k h m read notify fine same, inr (inl (fine, same, refl, refl)))
      | inl changed ↦ elim (storable? k m.value) [
        | no too_big ↦
            let (e, refuses) = set_locked_refused blank b k m.value h notify too_big in
            (
              _,
              finish_set b k h m read notify _ fine changed refuses,
              inr (inr (inl (fine, changed, too_big, (e, refl), refl))),
            )
        | yes fits ↦
            let (s, stored, done) = set_locked_lem blank k m.value h notify w fits in
            (
              _,
              finish_set b k h m read notify s fine changed stored,
              inr (inr (inr (fine, changed, ap own_error done.no_error, done.found, done.valid))),
            )
      ]
    ]
  ]

  update_none :
      (b : Bucket) (k : Bytes) (h : ℕ) (mutator : Option Bytes → Option (Mutation E))
      (notify : Bool) (m : Mutation E)
      → find_pair b k h ≡ err no_data
      → mutator none ≡ some m
      → update blank b k h mutator notify ≡ finish_update blank b k h m (some no_data) notify
  unfolding update
  update_none b k h mutator notify m e runs = ground (arith, e, runs)

  update_found :
      (b : Bucket) (k : Bytes) (h : ℕ) (mutator : Option Bytes → Option (Mutation E))
      (notify : Bool) (p : Pair) (m : Mutation E)
      → find_pair b k h ≡ ok p
      → mutator (some (value_of p)) ≡ some m
      → update blank b k h mutator notify
        ≡ finish_update blank (write_back b h p m.in_place) k h m none notify
  unfolding update
  update_found b k h mutator notify p m e runs = ground (arith, e, runs)

  -- What an update does: without data for the key the mutator runs on nil. With data it runs on the
  -- value, and the bytes that it leaves there are what a get gives then, in a well-formed bucket that has
  -- them as the last value written for the hash.
  abbrev pub Updates :
      Bucket → Written → Bytes → ℕ → (Option Bytes → Option (Mutation E)) → Updated E → Type 0
  Updates b g k h mutator r =
      ((m : Mutation E) × (get_locked b k h ≡ err no_data)
        × (mutator none ≡ some m)
        × Finished b g k h m (some no_data) r)
      ⊎ ((x : Bytes) × (m : Mutation E) × (get_locked b k h ≡ ok x)
          × (mutator (some x) ≡ some m)
          × (lookup ℕ_discrete h g ≡ some (k, x))
          × ((b' : Bucket) × (get_locked b' k h ≡ ok m.in_place)
              × Valid b' (insert ℕ_discrete h (k, m.in_place) g)
              × Finished b' (insert ℕ_discrete h (k, m.in_place) g) k h m none r))

  -- In a well-formed bucket an update never panics, if the mutator does not, neither on nil where there is
  -- no data nor on the value that is there, and keeps the length of that value. Without data the mutator
  -- runs on nil. With data it runs on the value, and the bytes that it leaves there are what a get gives
  -- then. After that it returns the mutator's error, or nothing more happens (and without data that is an
  -- error), or the value that the mutator gives is refused or stored.
  pub update_lem :
      (b : Bucket) (g : Written) (k : Bytes) (h : ℕ) (mutator : Option Bytes → Option (Mutation E))
      (notify : Bool)
      → Valid b g
      → (get_locked b k h ≡ err no_data → (m : Mutation E) × (mutator none ≡ some m))
      → ((x : Bytes)
          → get_locked b k h ≡ ok x
          → (m : Mutation E) × (mutator (some x) ≡ some m) × (length m.in_place ≡ length x))
      → (r : Updated E) × (update blank b k h mutator notify ≡ some r) × Updates b g k h mutator r
  update_lem b g k h mutator notify w fresh edit = elim (find_pair_lem b g k h w) [
    | inl nothing ↦
        let absent = get_none b k h nothing in
        let (m, runs) = fresh absent in
        let (r, e, f) = finish_update_lem k h m (some no_data) notify w in
        (r, update_none b k h mutator notify m nothing runs ∙ e, inl (m, absent, runs, f))
    | inr f ↦
        let x = f.value in
        let present = get_found b g k h f in
        let (m, runs, len) = edit x present in
        let b' = edited k h w f m.in_place len in
        let p = pair_at f.item.chunk.mem (idx_of f.place % chunk_size) k x in
        let valid = edited-Valid k h w f m.in_place len in
        let (r, e, done) = finish_update_lem k h m none notify valid in
        let same : value_of p ≡ x = (key_of-pair_at b.chunks (idx_of f.place) k x f.item).1 in
        (
          r,
          update_found b k h mutator notify p m f.found (ap (λ y. mutator (some y)) same ∙ runs)
              ∙ ap (λ d. finish_update blank d k h m none notify)
                  (write_back-edited k h w f m.in_place len)
              ∙ e,
          inr (
            x,
            m,
            present,
            runs,
            f.written,
            (b', edited_found k h w f m.in_place len, valid, done),
          ),
        )
  ]

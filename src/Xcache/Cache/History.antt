-- ===== src/Xcache/Cache/History.antt =====
-- What a `Get` of `Cache` gives after any sequence of `Set` and `Del`.
use common_lib_go.Prelude.{
  ℕ, ◌+◌, ◌-◌, ◌/◌, ◌<◌, ◌≤◌, ◌^◌, ◌≡◌, refl, ◌∙◌, Bool, none, some, List, [], ◌∷◌, arith, ◌⊎◌, inl,
  inr, lookup,
}
use common_lib_go.Prelude.Int.{pos}
use common_lib_go.Xcache.{Bytes, no_data, ok, err, buckets_count}
use common_lib_go.Xcache.Read.{get_locked_lem}
use common_lib_go.Xcache.Laws.{init_lem}
use common_lib_go.Xcache.Cache.{Cache, new, bucket_of, get}
use common_lib_go.Xcache.Cache.Calls.{Call, View, view_after, view, perform, run}
use common_lib_go.Xcache.Cache.Steps.{Coherent, perform_lem}

module _ (sum64 : Bytes → ℕ) (blank : ℕ → ℕ) where
  run_step :
      (c c' : Cache) (call : Call) (calls : List Call)
      → perform sum64 blank c call ≡ some c'
      → run sum64 blank c (call ∷ calls) ≡ run sum64 blank c' calls
  unfolding run
  run_step c c' call calls e = ground (arith, e)

  run_lem :
      (c : Cache) (v : View) (calls : List Call)
      → Coherent sum64 blank c v
      → (c' : Cache) × (run sum64 blank c calls ≡ some c') × Coherent sum64 blank c' (view v calls)
  unfolding run
  run_lem c v [] h = (c, refl, h)
  run_lem c v (call ∷ calls) h =
      let (c1, e, h1) = perform_lem sum64 blank c v h call in
      let (c2, f, h2) = run_lem c1 (view_after v call) calls h1 in
      (c2, run_step c c1 call calls e ∙ f, h2)

  new_lem :
      (n : ℕ) (notify : Bool)
      → 0 < n
      → n + buckets_count ≤ 2 ^ 48
      → (c : Cache) × (new (pos n) notify ≡ ok c) × Coherent sum64 blank c (λ k. none)
  unfolding new lookup
  new_lem n notify some_bytes small =
      let (b, e, w, _) =
        init_lem ((n + buckets_count - 1) / buckets_count) (omega arith) (omega arith) in
      (
        record { buckets = λ i. b; notify = notify },
        ground (arith, some_bytes, e),
        record {
          written = λ i. [];
          valid = λ i. w;
          distinct = λ i. tt;
          seen = λ k x l. absurd (cc);
        },
      )

  get_lem :
      (c : Cache) (v : View) (k : Bytes)
      → Coherent sum64 blank c v
      → (get sum64 c k ≡ err no_data) ⊎ ((x : Bytes) × (get sum64 c k ≡ ok x) × (v k ≡ some x))
  unfolding get
  get_lem c v k h =
      elim (get_locked_lem (c.buckets (bucket_of sum64 k)) (h.written (bucket_of sum64 k)) k
        (sum64 k) (h.valid (bucket_of sum64 k))) [
          | inl nothing ↦ inl nothing
          | inr (x, found, l) ↦ inr (x, found, h.seen k x l)
        ]

  -- A cache of up to 2 ^ 48 - 512 bytes is made, and no sequence of sets and deletes of any keys and
  -- values panics. Afterwards a get of any key says that there is no data, or gives the value of the
  -- last set of this key that could be stored, if the key was not deleted since. This is so
  -- whatever the hash is, also where keys share one.
  pub get-run :
      (n : ℕ) (notify : Bool) (calls : List Call) (k : Bytes)
      → 0 < n
      → n + buckets_count ≤ 2 ^ 48
      → (c c' : Cache) × (new (pos n) notify ≡ ok c)
        × (run sum64 blank c calls ≡ some c')
        × ((get sum64 c' k ≡ err no_data)
            ⊎ ((x : Bytes) × (get sum64 c' k ≡ ok x) × (view (λ j. none) calls k ≡ some x)))
  get-run n notify calls k some_bytes small =
      let (c, e, h) = new_lem n notify some_bytes small in
      let (c', f, h') = run_lem c (λ j. none) calls h in
      (c, c', e, f, get_lem c' (view (λ j. none) calls) k h')

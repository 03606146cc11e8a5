-- ===== src/Keycounter/Counts.antt =====
-- The counter against a function from keys to numbers.
use common_lib_go.Prelude.{
  ℕ, suc, ◌+◌, ◌-◌, ◌≡◌, refl, ite, none, some, arith, Distinct, lookup, insert, delete,
  lookup-insert, lookup-insert_self, lookup-delete, insert-Distinct, delete-Distinct,
  length-insert_new, length-insert_old, length-delete, if◌then◌else◌, ◌==◌, ◌<◌,
}
use common_lib_go.Prelude.Int.{pos, negsuc, ◌+ℤ◌, ◌-ℤ◌}
use common_lib_go.Keycounter.{KeyCounter, new, value, inc, dec_key, count}

-- How many times each key is held, as a function: what the counter stands for.
abbrev pub Held : Type 0 → Type 0
Held K = K → ℕ

module _ {K : Type 0} (dec : Discrete K) where
  -- Each key stands once, with the number of its holders, and a key with none does not stand.
  pub record Counts (s : KeyCounter K) (h : Held K) : Type 0 where
    pub distinct : Distinct s.keys
    pub holds : (k : K) → lookup dec k s.keys ≡ (if h k == 0 then none else some (pos (h k)))

  abbrev pub one_more : K → Held K → Held K
  one_more k h j = ite (dec j k) (h j + 1) (h j)

  abbrev pub one_less : K → Held K → Held K
  one_less k h j = ite (dec j k) (h j - 1) (h j)

  pub new-Counts : Counts new (λ _. 0)
  unfolding new lookup
  new-Counts = record { distinct = tt; holds = λ k. refl }

  -- `Dec` of a key that is held, with the numbers put in.
  dec_key_held :
      (s : KeyCounter K) (k : K) (n : ℕ)
      → lookup dec k s.keys ≡ some (pos (suc n))
      → dec_key dec s k ≡ record {
        keys =
            if n == 0
            then delete dec k (insert dec k (pos n) s.keys)
            else insert dec k (pos n) s.keys;
      }
  unfolding dec_key ◌-ℤ◌
  dec_key_held s k n e = ground (arith, e, lookup-insert_self dec k (pos n) s.keys)

  dec_key_absent :
      (s : KeyCounter K) (k : K)
      → lookup dec k s.keys ≡ none
      → dec_key dec s k ≡ record { keys = insert dec k (negsuc 0) s.keys }
  unfolding dec_key ◌-ℤ◌
  dec_key_absent s k e = ground (arith, e, lookup-insert_self dec k (negsuc 0) s.keys)

  inc_minus :
      (s : KeyCounter K) (k : K)
      → lookup dec k s.keys ≡ none
      → let t : KeyCounter K = record { keys = insert dec k (negsuc 0) s.keys } in
        (value dec (inc dec t k) k ≡ pos 0) × (count (inc dec t k) ≡ count s + 1)
  unfolding value inc count ◌+ℤ◌
  inc_minus s k e =
      let m = insert dec k (negsuc 0) s.keys in
      let old = lookup-insert_self dec k (negsuc 0) s.keys in
      (
        ground (arith, old, lookup-insert_self dec k (pos 0) m),
        ground (
          arith,
          old,
          length-insert_new dec k (negsuc 0) s.keys e,
          length-insert_old dec k (pos 0) (negsuc 0) m old,
        ),
      )

  module _ {s : KeyCounter K} {h : Held K} (c : Counts s h) (k : K) where
    inc-Counts : Counts (inc dec s k) (one_more k h)
    unfolding inc ◌+ℤ◌
    inc-Counts = record {
      distinct = insert-Distinct dec k _ s.keys c.distinct;
      holds = λ j.
          ground
            (arith, lookup-insert dec j k (value dec s k +ℤ pos 1) s.keys, c.holds j, c.holds k);
    }

    held_lookup : 0 < h k → lookup dec k s.keys ≡ some (pos (suc (h k - 1)))
    held_lookup held = ground (arith, c.holds k)

    dec-Counts : 0 < h k → Counts (dec_key dec s k) (one_less k h)
    dec-Counts held =
        let n = h k - 1 in
        let keys' = insert dec k (pos n) s.keys in
        let d = insert-Distinct dec k (pos n) s.keys c.distinct in
        rw (dec_key_held s k n (held_lookup held)) (record {
          distinct = ground (arith, d, delete-Distinct dec k keys' d);
          holds = λ j. ground (
            arith,
            lookup-delete dec j k keys' d,
            lookup-insert dec j k (pos n) s.keys,
            c.holds j,
            c.holds k,
          );
        })

    -- `Inc` adds one holder to its key and changes no other key. The number of keys grows exactly
    -- if the key was not held.
    pub inc_lem :
        Counts (inc dec s k) (one_more k h)
        × (count (inc dec s k) ≡ (if h k == 0 then count s + 1 else count s))
    unfolding count inc ◌+ℤ◌
    inc_lem = (
      inc-Counts,
      ground (
        arith,
        c.holds k,
        length-insert_new dec k (value dec s k +ℤ pos 1) s.keys,
        length-insert_old dec k (value dec s k +ℤ pos 1) (pos (h k)) s.keys,
      ),
    )

    -- `Dec` of a held key takes one holder away and changes no other key. The number of keys falls
    -- exactly if this was the last holder.
    pub dec_lem :
        0 < h k
        → Counts (dec_key dec s k) (one_less k h)
          × (count (dec_key dec s k) ≡ (if h k == 1 then count s - 1 else count s))
    unfolding count
    dec_lem held = (
      dec-Counts held,
      let n = h k - 1 in
          let e = held_lookup held in
          rw (dec_key_held s k n e) (
            ground (
              arith,
              length-insert_old dec k (pos n) (pos (suc n)) s.keys e,
              length-delete dec k (pos n) (insert dec k (pos n) s.keys)
                  (lookup-insert_self dec k (pos n) s.keys),
            )),
    )

  -- `Dec` of a key that is not held leaves the key with the count -1; a later `Inc` brings it to 0
  -- and does not take it out, so `Count` counts a key that nobody holds.
  pub count_dec_absent :
      {s : KeyCounter K} {h : Held K} (k : K)
      → Counts s h
      → h k ≡ 0
      → (value dec (inc dec (dec_key dec s k) k) k ≡ pos 0)
        × (count (inc dec (dec_key dec s k) k) ≡ count s + 1)
  count_dec_absent {s} k c e =
      let absent : lookup dec k s.keys ≡ none = ground (arith, c.holds k) in
      rw (dec_key_absent s k absent) (inc_minus s k absent)

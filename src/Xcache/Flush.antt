-- ===== src/Xcache/Flush.antt =====
-- `Reset` and `getItemsLocked`: the items are the pairs that a get gives.
use common_lib_go.Prelude.{
  ℕ, zero, suc, ◌%◌, ◌≡◌, refl, sym, ap, subst, ◌∙◌, true, false, some, List, [], ◌∷◌, map, length,
  get_elem?, arith, ◌⊎◌, inl, inr, Bool-cases, ℕ_discrete, lookup, Distinct, lookup-Fresh,
}
use common_lib_go.Xcache.{
  Bytes, Bucket, Pair, ok, err, no_data, get_locked, read_item, locate, is_live, idx_of, chunk_size,
  Items, no_items, add_item, key_of, value_of,
}
use common_lib_go.Xcache.Store.{read_items}
use common_lib_go.Xcache.Methods.{empty_bucket, reset}
use common_lib_go.Xcache.Invariant.{Written, Valid, Current, Previous, ItemAt, live-ItemAt}
use common_lib_go.Xcache.Read.{
  find_pair_lem, get_found, get_none, pair_at, key_of-pair_at, locate-ItemAt,
}
use common_lib_go.Xcache.Clean.{read_item_dead}
use common_lib_go.Xcache.Laws.{empty_bucket-Valid}
use common_lib_go.Xcache.Placement.{some_inj}

-- The pair is one of the items.
abbrev pub Among : Bytes → Bytes → Items → Type 0
Among k x i = (n : ℕ) × (get_elem? i.keys n ≡ some k) × (get_elem? i.values n ≡ some x)

read_item_ok :
    (b : Bucket) (v : ℕ) (p : Pair) → locate b v ≡ ok p → read_item b v ≡ ok (key_of p, value_of p)
unfolding read_item
read_item_ok b v p e = ground (arith, e)

read_item-ItemAt :
    (b : Bucket) (v : ℕ) (k x : Bytes)
    → is_live b v ≡ true
    → ItemAt b.chunks (idx_of v) k x
    → read_item b v ≡ ok (k, x)
read_item-ItemAt b v k x live i =
    let (key, value) = key_of-pair_at b.chunks (idx_of v) k x i in
    read_item_ok b v (pair_at i.chunk.mem (idx_of v % chunk_size) k x)
      (locate-ItemAt b v k x live i)
    ∙ ap (λ y. ok (y, value_of (pair_at i.chunk.mem (idx_of v % chunk_size) k x))) key
    ∙ ap (λ z. ok (k, z)) value

-- The items of some places of the map.
record Reads (b : Bucket) (g : Written) (m : List (ℕ × ℕ)) (i : Items) : Type 0 where
  done : read_items b (map (λ e. e.1) m) ≡ some i
  all :
      (h v : ℕ) (k x : Bytes)
      → lookup ℕ_discrete h m ≡ some v
      → is_live b v ≡ true
      → lookup ℕ_discrete h g ≡ some (k, x)
      → Among k x i
  written : (k x : Bytes) → Among k x i → (h : ℕ) × (lookup ℕ_discrete h g ≡ some (k, x))

Reads-dead :
    (b : Bucket) (g : Written) (h v : ℕ) (m : List (ℕ × ℕ)) (i : Items)
    → is_live b v ≡ false
    → Reads b g m i
    → Reads b g ((h, v) ∷ m) i
unfolding read_items lookup
Reads-dead b g h v m i dead r = record {
  done = ground (arith, read_item_dead b v dead, r.done);
  all = λ j u k x there live l. elim (ℕ_discrete j h) [
    | yes same ↦ absurd (ground (arith, there, same, live, dead))
    | no other ↦ r.all j u k x (ground (arith, there, other)) live l
  ];
  written = r.written;
}

Reads-live :
    (b : Bucket) (g : Written) (h v : ℕ) (k x : Bytes) (m : List (ℕ × ℕ)) (i : Items)
    → read_item b v ≡ ok (k, x)
    → lookup ℕ_discrete h g ≡ some (k, x)
    → Reads b g m i
    → Reads b g ((h, v) ∷ m) (add_item k x i)
unfolding read_items lookup
Reads-live b g h v k x m i found written r = record {
  done = ground (arith, found, r.done);
  all = λ j u y z there live l. elim (ℕ_discrete j h) [
    | yes same ↦
        let one : ◌≡◌ {A = Bytes × Bytes} (k, x) (y, z) =
          some_inj (sym written ∙ ap (λ n. lookup ℕ_discrete n g) (sym same) ∙ l) in
        (0, ap (λ (q : Bytes × Bytes). some q.0) one, ap (λ (q : Bytes × Bytes). some q.1) one)
    | no other ↦
        let (n, at, at') = r.all j u y z (ground (arith, there, other)) live l in (suc n, at, at')
  ];
  written = λ y z a. later y z a;
}
  where
    later :
        (y z : Bytes) → Among y z (add_item k x i) → (j : ℕ) × (lookup ℕ_discrete j g ≡ some (y, z))
    later y z (zero, at, at') =
        (h, written ∙ ap (λ q. some (q, x)) (some_inj at) ∙ ap (λ q. some (y, q)) (some_inj at'))
    later y z (suc n, at, at') = r.written y z (n, at, at')

reads :
    (b : Bucket) (g : Written) (m : List (ℕ × ℕ))
    → Distinct m
    → ((h v : ℕ) → lookup ℕ_discrete h m ≡ some v → Current b g h v ⊎ Previous b g h v)
    → (i : Items) × Reads b g m i
unfolding read_items lookup
reads b g [] d entries = (
  no_items,
  record {
    done = refl;
    all = λ h v k x there. absurd (cc);
    written = λ k x a. absurd (nothing k x a);
  },
)
  where
    nothing : (k x : Bytes) → Among k x no_items → ⊥
    nothing k x (n, at, at') = cc
reads b g ((h, v) ∷ m) d entries =
    let (i, r) = reads b g m d.1 (λ j u there. entries j u (later j u there)) in
    elim (Bool-cases (is_live b v)) [
      | inr dead ↦ (i, Reads-dead b g h v m i dead r)
      | inl live ↦
          let (k, x, l, at) = live-ItemAt b g h v (entries h v (ground arith)) live in
          (add_item k x i, Reads-live b g h v k x m i (read_item-ItemAt b v k x live at) l r)
    ]
  where
    later : (j u : ℕ) → lookup ℕ_discrete j m ≡ some u → lookup ℕ_discrete j ((h, v) ∷ m) ≡ some u
    later j u there = ground (arith, there, lookup-Fresh ℕ_discrete h m d.0)

reset_done :
    (b : Bucket) (i : Items)
    → read_items b (map (λ e. e.1) b.m) ≡ some i
    → reset b true ≡ some (empty_bucket (length b.chunks), i)
unfolding reset
reset_done b i e = ground (arith, e)

-- A `Reset` of a well-formed bucket never panics and leaves a well-formed bucket with no pair. The
-- items that it gives hold every pair that a get gave before, and only pairs that were the last ones
-- written for their hashes.
pub reset_lem :
    (b : Bucket) (g : Written)
    → Valid b g
    → (b' : Bucket) × (i : Items) × (reset b true ≡ some (b', i))
      × Valid b' []
      × ((k x : Bytes) (h : ℕ) → get_locked b k h ≡ ok x → Among k x i)
      × ((k x : Bytes) → Among k x i → (h : ℕ) × (lookup ℕ_discrete h g ≡ some (k, x)))
reset_lem b g w =
    let (i, r) = reads b g b.m w.distinct w.entries in
    (
      empty_bucket (length b.chunks),
      i,
      reset_done b i r.done,
      empty_bucket-Valid (length b.chunks) (omega (arith, w.index)) w.small,
      λ k x h e. kept i r k x h e,
      r.written,
    )
  where
    kept :
        (i : Items)
        → Reads b g b.m i
        → (k x : Bytes) (h : ℕ) → get_locked b k h ≡ ok x
        → Among k x i
    kept i r k x h e = elim (find_pair_lem b g k h w) [
      | inl nothing ↦ absurd (clash e (get_none b k h nothing))
      | inr f ↦
          subst (λ y. Among k y i) (same_value (sym (get_found b g k h f) ∙ e))
            (r.all h f.place k f.value f.there f.live f.written)
    ]
      where
        clash : {x : Bytes} → get_locked b k h ≡ ok x → get_locked b k h ≡ err no_data → ⊥
        clash e f = cc

        same_value : {y z : Bytes} → ok y ≡ ok z → y ≡ z
        same_value e = cc

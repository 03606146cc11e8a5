-- ===== src/Xcache/Edited.antt =====
-- A bucket whose pair is overwritten in place by a value of the same length: it stays well-formed.
use common_lib_go.Prelude.{
  ℕ, ◌+◌, ◌/◌, ◌%◌, ◌≤◌, ◌≡◌, ◌≢◌, refl, sym, ap, subst, ◌∙◌, true, Option, some, length, get_elem?,
  arith, ◌⊎◌, inl, inr, ℕ_discrete, lookup, insert, lookup-insert, lookup-insert_self, length-set,
  get_elem?-bound, get_elem?-set_self, get_elem?-set_ne, get_elem?-set_self, get_elem?-set_ne,
}
use common_lib_go.Xcache.{Bytes, Chunk, Bucket, ok, chunk_size, idx_of, is_live, get_locked}
use common_lib_go.Xcache.Invariant.{
  ItemAt, Written, pair_size, Current, Previous, filled, Valid, is_live-current, is_live-previous,
  one_size,
}
use common_lib_go.Xcache.Read.{FoundAt, FoundAt-live, pair_at}
use common_lib_go.Xcache.Methods.{write_back}
use common_lib_go.Xcache.Rewrite.{rewritten, overwrite, untouched-ItemAt, rewritten-ItemAt}
use common_lib_go.Xcache.Placement.{some_inj}
use common_lib_go.Xcache.SetLocked.{found_value}

module _ {b : Bucket} {g : Written} (k : Bytes) (h : ℕ) (w : Valid b g) (f : FoundAt b g k h)
    (bs : Bytes) (len : length bs ≡ length f.value) where
  abbrev n : ℕ
  n = idx_of f.place / chunk_size

  abbrev a : ℕ
  a = idx_of f.place % chunk_size + 4 + length k

  -- The bucket afterwards.
  abbrev pub edited : Bucket
  edited = record b { chunks = rewritten b.chunks n f.item.chunk a bs }

  abbrev g' : Written
  g' = insert ℕ_discrete h (k, bs) g

  pub write_back-edited :
      write_back b h (pair_at f.item.chunk.mem (idx_of f.place % chunk_size) k f.value) bs ≡ edited
  unfolding write_back
  write_back-edited = ground (arith, f.there, f.item.at)

  same_size : pair_size k f.value ≡ pair_size k bs
  same_size = omega (arith, len)

  -- What is written now was written before, with the same size.
  size_before :
      (j : ℕ) (y z : Bytes)
      → lookup ℕ_discrete j g' ≡ some (y, z)
      → (q : Bytes × Bytes) × (lookup ℕ_discrete j g ≡ some q) × (pair_size q.0 q.1 ≡ pair_size y z)
  size_before j y z l = elim (ℕ_discrete j h) [
    | yes same ↦ (
      (k, f.value),
      ap (λ i. lookup ℕ_discrete i g) same ∙ f.written,
      same_size
          ∙ one_size g' h k bs y z (lookup-insert_self ℕ_discrete h (k, bs) g)
              (ap (λ i. lookup ℕ_discrete i g') (sym same) ∙ l),
    )
    | no other ↦ ((y, z), ground (arith, other, l, lookup-insert ℕ_discrete j h (k, bs) g), refl)
  ]

  written_other :
      (j : ℕ) (q : Bytes × Bytes)
      → j ≢ h
      → lookup ℕ_discrete j g ≡ some q
      → lookup ℕ_discrete j g' ≡ some q
  written_other j q other l = ground (arith, l, other, lookup-insert ℕ_discrete j h (k, bs) g)

  own_item : ItemAt edited.chunks (idx_of f.place) k bs
  own_item = rewritten-ItemAt b.chunks (idx_of f.place) k f.value bs f.item len

  -- The pair of another hash, if it is live.
  other_item :
      (j v : ℕ) (y z : Bytes)
      → j ≢ h
      → lookup ℕ_discrete j b.m ≡ some v
      → lookup ℕ_discrete j g ≡ some (y, z)
      → is_live b v ≡ true
      → ItemAt b.chunks (idx_of v) y z
      → ItemAt edited.chunks (idx_of v) y z
  other_item j v y z other there l live i =
      untouched-ItemAt b.chunks n a bs f.item.at (idx_of v) y z
        (λ same. beside same (
          w.apart h f.place j v (λ q. other (sym q)) f.there there k f.value y z f.written l f.live
            live))
        i
    where
      beside :
          idx_of v / chunk_size ≡ n
          → (idx_of f.place + pair_size k f.value ≤ idx_of v)
            ⊎ (idx_of v + pair_size y z ≤ idx_of f.place)
          → (idx_of v % chunk_size + pair_size y z ≤ a) ⊎ (a + length bs ≤ idx_of v % chunk_size)
      beside same (inl above) = inr (omega (arith, len))
      beside same (inr below) = inl (omega arith)

  other_entry :
      (j v : ℕ)
      → j ≢ h
      → lookup ℕ_discrete j b.m ≡ some v
      → Current b g j v ⊎ Previous b g j v
      → Current edited g' j v ⊎ Previous edited g' j v
  other_entry j v other there (inl (y, z, l, same, below, i)) = inl (
    y,
    z,
    written_other j (y, z) other l,
    same,
    below,
    other_item j v y z other there l (is_live-current b v same (omega arith)) i,
  )
  other_entry j v other there (inr (before, rest)) = inr (
    before,
    λ le.
        let (y, z, l, i) = rest le in
        (
          y,
          z,
          written_other j (y, z) other l,
          other_item j v y z other there l (is_live-previous b v before le) i,
        ),
  )

  own_entry :
      Current b g h f.place ⊎ Previous b g h f.place
      → Current edited g' h f.place ⊎ Previous edited g' h f.place
  own_entry (inl (y, z, l, same, below, i)) = inl (
    k,
    bs,
    lookup-insert_self ℕ_discrete h (k, bs) g,
    same,
    omega (arith, below, same_size, one_size g h y z k f.value l f.written),
    own_item,
  )
  own_entry (inr (before, rest)) =
      inr (before, λ le. (k, bs, lookup-insert_self ℕ_discrete h (k, bs) g, own_item))

  entry_now :
      (j v : ℕ) → lookup ℕ_discrete j b.m ≡ some v → Current edited g' j v ⊎ Previous edited g' j v
  entry_now j v there = elim (ℕ_discrete j h) [
    | no other ↦ other_entry j v other there (w.entries j v there)
    | yes same ↦
        let here : f.place ≡ v =
          some_inj (sym f.there ∙ ap (λ i. lookup ℕ_discrete i b.m) (sym same) ∙ there) in
        subst (λ i. Current edited g' i v ⊎ Previous edited g' i v) (sym same)
          (subst (λ q. Current edited g' h q ⊎ Previous edited g' h q) here
            (own_entry (w.entries h f.place f.there)))
  ]

  pub edited-Valid : Valid edited g'
  unfolding is_live
  edited-Valid = record {
    gen_pos = w.gen_pos;
    index = omega (arith, w.index, length-set b.chunks n (some (overwrite f.item.chunk a bs)));
    small = omega (arith, w.small, length-set b.chunks n (some (overwrite f.item.chunk a bs)));
    position = λ c e. position_now c e;
    distinct = w.distinct;
    entries = entry_now;
    apart = λ i v j u differ at there k' x' y z li lj live_v live_u.
        let ((k0, x0), l0, s0) = size_before i k' x' li in
        let ((y0, z0), m0, t0) = size_before j y z lj in
        let side = w.apart i v j u differ at there k0 x0 y0 z0 l0 m0 live_v live_u in
        ground (arith, side, s0, t0);
  }
    where
      position_now :
          (c : Option Chunk)
          → get_elem? edited.chunks (b.idx / chunk_size) ≡ some c
          → filled c ≡ b.idx % chunk_size
      position_now c e = elim (ℕ_discrete n (b.idx / chunk_size)) [
        | no other ↦ w.position c (
            sym (
              get_elem?-set_ne b.chunks n (b.idx / chunk_size) (some (overwrite f.item.chunk a bs))
                other)
            ∙ e)
        | yes same ↦
            let new : some (overwrite f.item.chunk a bs) ≡ c = some_inj (
              sym (
                get_elem?-set_self b.chunks n (some (overwrite f.item.chunk a bs))
                  (get_elem?-bound b.chunks n (some f.item.chunk) f.item.at))
              ∙ ap (get_elem? edited.chunks) same
              ∙ e) in
            ap filled (sym new)
            ∙ w.position (some f.item.chunk) (ap (get_elem? b.chunks) (sym same) ∙ f.item.at)
      ]

  -- A get gives the new value.
  pub edited_found : get_locked edited k h ≡ ok bs
  unfolding is_live
  edited_found =
      let there : FoundAt edited g' k h =
        FoundAt-live edited g' k bs h f.place f.there f.nonzero f.live
          (lookup-insert_self ℕ_discrete h (k, bs) g) own_item in
      found_value edited g k bs h there

-- ===== src/Xcache/Placement.antt =====
-- A pair put at its spot: the bucket stays well-formed, with or without the cleanup.
use common_lib_go.Prelude.{
  ℕ, ◌+◌, ◌*◌, ◌/◌, ◌%◌, ◌^◌, ◌<◌, ◌≤◌, ◌≡◌, ◌≢◌, sym, ap, subst, ◌∙◌, true, false, Option, none,
  some, List, length, get_elem?, arith, ◌⊎◌, inl, inr, ℕ_discrete, lookup, insert, lookup-insert,
  lookup-insert_self, length-set, get_elem?-set_self, Distinct, insert-Distinct,
}
use common_lib_go.Xcache.{
  Bytes, Chunk, Bucket, append, chunk_size, gen_of, idx_of, masked_gen, is_live,
}
use common_lib_go.Xcache.Store.{place_of, header, append_pair, Spot, is_kept, kept_places, next_gen}
use common_lib_go.Xcache.Memory.{gen_of-place_of}
use common_lib_go.Xcache.Invariant.{
  Written, pair_size, ItemAt, Current, Previous, filled, Valid, Apart, one_size, is_live-current,
}
use common_lib_go.Xcache.Read.{FoundAt, FoundAt-live}
use common_lib_go.Xcache.Spot.{IsSpot}
use common_lib_go.Xcache.Clean.{is_kept-is_live, kept-Distinct, lookup-kept, kept-lookup}
use common_lib_go.Xcache.Placed.{placed, new-ItemAt}
use common_lib_go.Xcache.Entries.{Before-next_gen, new_entry, old_entry, idx_small, old_side}

-- The parts of the invariant that say where the next pair goes.
record AtEnd (b : Bucket) : Type 0 where
  gen_pos : 0 < masked_gen b.gen
  index : b.idx / chunk_size < length b.chunks
  small : length b.chunks * chunk_size ≤ 2 ^ 40
  position :
      (c : Option Chunk)
      → get_elem? b.chunks (b.idx / chunk_size) ≡ some c
      → filled c ≡ b.idx % chunk_size
  distinct : Distinct b.m

swap : {A B : Type 0} → A ⊎ B → B ⊎ A
swap (inl a) = inr a
swap (inr b) = inl b

pub some_inj : {A : Type 0} {a b : A} → some a ≡ some b → a ≡ b
some_inj e = cc

append_pair-len :
    (blank : ℕ → ℕ) (c : Option Chunk) (k x : Bytes)
    → (append_pair blank c k x).len ≡ filled c + pair_size k x
unfolding append_pair append header
append_pair-len blank none k x = omega arith
append_pair-len blank (some c) k x = omega arith

not_zero : (v g : ℕ) → gen_of v ≡ g → 0 < g → v ≢ 0
unfolding gen_of
not_zero v g e h z = omega (arith, e, h, z)

module _ (blank : ℕ → ℕ) {b : Bucket} {g : Written} {s : Spot} (h : ℕ) (k x : Bytes) (w : Valid b g)
    (p : IsSpot b (pair_size k x) s) (c : Option Chunk)
    (e : get_elem? s.chunks (s.idx / chunk_size) ≡ some c) where
  abbrev b' : Bucket
  b' = placed blank b s h k x c

  abbrev g' : Written
  g' = insert ℕ_discrete h (k, x) g

  abbrev place : ℕ
  place = place_of s.idx s.gen

  gen_pos : 0 < masked_gen s.gen
  gen_pos = go p.onward
    where
      go :
          ((s.clean ≡ false) × (s.gen ≡ b.gen) × (b.idx ≤ s.idx))
            ⊎ ((s.clean ≡ true) × (s.gen ≡ next_gen b.gen) × (s.idx ≡ 0))
          → 0 < masked_gen s.gen
      go (inl (_, same, _)) = subst (λ n. 0 < masked_gen n) (sym same) w.gen_pos
      go (inr (_, next, _)) =
          subst (λ n. 0 < masked_gen n) (sym next) (Before-next_gen b.gen w.gen_pos).1

  at_end : AtEnd b'
  at_end =
      let same : (s.idx + pair_size k x) / chunk_size ≡ s.idx / chunk_size =
        omega (arith, p.room) in
      let long = length-set s.chunks (s.idx / chunk_size) (some (append_pair blank c k x)) in
      record {
        gen_pos = gen_pos;
        index = omega (arith, same, long, p.inside);
        small = omega (arith, long, p.memory.same_length, w.small);
        position = λ d at.
            let one : some (append_pair blank c k x) ≡ d = some_inj (
              sym (
                get_elem?-set_self s.chunks (s.idx / chunk_size) (some (append_pair blank c k x))
                  p.inside)
              ∙ subst (λ i. get_elem? b'.chunks i ≡ some d) same at) in
            ap filled (sym one)
            ∙ append_pair-len blank c k x
            ∙ omega (arith, p.position c e, p.room);
        distinct = insert-Distinct ℕ_discrete h place b.m w.distinct;
      }

  entry_at :
      (j v : ℕ)
      → lookup ℕ_discrete j b'.m ≡ some v
      → (s.clean ≡ false) ⊎ (is_kept b' v ≡ true)
      → Current b' g' j v ⊎ Previous b' g' j v
  entry_at j v there stays = elim (ℕ_discrete j h) [
    | yes same ↦
        let here : place ≡ v =
          ground (arith, same, there, lookup-insert ℕ_discrete j h place b.m) in
        inl (
          subst (λ i. Current b' g' i v) (sym same)
            (subst (λ q. Current b' g' h q) here (new_entry blank h k x w p c e)))
    | no other ↦
        old_entry blank h k x w p c e j v other stays
          (w.entries j v (ground (arith, other, there, lookup-insert ℕ_discrete j h place b.m)))
  ]

  there_before :
      (j v : ℕ) → j ≢ h → lookup ℕ_discrete j b'.m ≡ some v → lookup ℕ_discrete j b.m ≡ some v
  there_before j v other there =
      ground (arith, other, there, lookup-insert ℕ_discrete j h place b.m)

  written_before :
      (j : ℕ) (y : Bytes × Bytes)
      → j ≢ h
      → lookup ℕ_discrete j g' ≡ some y
      → lookup ℕ_discrete j g ≡ some y
  written_before j y other l = ground (arith, other, l, lookup-insert ℕ_discrete j h (k, x) g)

  place_of_new : (v : ℕ) → lookup ℕ_discrete h b'.m ≡ some v → idx_of v ≡ s.idx
  place_of_new v there =
      ap idx_of (some_inj (sym there ∙ lookup-insert_self ℕ_discrete h place b.m))
      ∙ (gen_of-place_of s.idx s.gen (idx_small blank h k x w p c e)).1

  -- The new pair and an older one.
  new-Apart :
      (v j u : ℕ)
      → j ≢ h
      → lookup ℕ_discrete h b'.m ≡ some v
      → lookup ℕ_discrete j b'.m ≡ some u
      → (s.clean ≡ false) ⊎ (is_kept b' u ≡ true)
      → Apart b' g' h v j u
  new-Apart v j u other at there stays k' x' y z lh lj live_v live_u =
      let l = written_before j (y, z) other lj in
      let (_, side) =
        old_side blank h k x w p c e j u y z l stays (w.entries j u (there_before j u other there))
          live_u in
      let size = one_size g' h k' x' k x lh (lookup-insert_self ℕ_discrete h (k, x) g) in
      let start = place_of_new v at in ground (arith, side, size, start)

  Apart-at :
      (i v j u : ℕ)
      → i ≢ j
      → lookup ℕ_discrete i b'.m ≡ some v
      → lookup ℕ_discrete j b'.m ≡ some u
      → (s.clean ≡ false) ⊎ (is_kept b' v ≡ true)
      → (s.clean ≡ false) ⊎ (is_kept b' u ≡ true)
      → Apart b' g' i v j u
  Apart-at i v j u differ at there stays_v stays_u k' x' y z li lj live_v live_u =
      elim (ℕ_discrete i h) [
        | yes same ↦
            new-Apart v j u (λ q. differ (same ∙ sym q))
              (ap (λ n. lookup ℕ_discrete n b'.m) (sym same) ∙ at) there stays_u k' x' y z
              (ap (λ n. lookup ℕ_discrete n g') (sym same) ∙ li) lj live_v live_u
        | no other ↦ elim (ℕ_discrete j h) [
          | yes same ↦ swap (
              new-Apart u i v other (ap (λ n. lookup ℕ_discrete n b'.m) (sym same) ∙ there) at
                stays_v y z k' x' (ap (λ n. lookup ℕ_discrete n g') (sym same) ∙ lj) li live_u
                live_v)
          | no other' ↦
              let at' = there_before i v other at in
              let there' = there_before j u other' there in
              let li' = written_before i (k', x') other li in
              let lj' = written_before j (y, z) other' lj in
              w.apart i v j u differ at' there' k' x' y z li' lj'
                (old_side blank h k x w p c e i v k' x' li' stays_v (w.entries i v at') live_v).0
                (old_side blank h k x w p c e j u y z lj' stays_u (w.entries j u there') live_u).0
        ]
      ]

  -- With no cleanup the bucket is well-formed at once.
  pub placed-Valid : s.clean ≡ false → Valid b' g'
  placed-Valid plain = record {
    gen_pos = at_end.gen_pos;
    index = at_end.index;
    small = at_end.small;
    position = at_end.position;
    distinct = at_end.distinct;
    entries = λ j v there. entry_at j v there (inl plain);
    apart = λ i v j u differ at there. Apart-at i v j u differ at there (inl plain) (inl plain);
  }

  new_gen : gen_of place ≡ masked_gen s.gen
  new_gen = (gen_of-place_of s.idx s.gen (idx_small blank h k x w p c e)).0

  new_idx : idx_of place ≡ s.idx
  new_idx = (gen_of-place_of s.idx s.gen (idx_small blank h k x w p c e)).1

  new_live : is_live b' place ≡ true
  new_live = is_live-current b' place new_gen (omega (arith, new_idx))

  pub new_there : lookup ℕ_discrete h b'.m ≡ some place
  new_there = lookup-insert_self ℕ_discrete h place b.m

  pub new_kept : lookup ℕ_discrete h (kept_places b' b'.m) ≡ some place
  new_kept = kept-lookup b' h place b'.m new_there (is_kept-is_live b' place ∙ new_live)

  -- The pair is found, as long as the map has its place.
  pub new_found :
      (m : List (ℕ × ℕ)) → lookup ℕ_discrete h m ≡ some place → FoundAt (record b' { m = m }) g' k h
  new_found m there =
      FoundAt-live (record b' { m = m }) g' k x h place there
        (not_zero place (masked_gen s.gen) new_gen gen_pos)
        (is_live-current (record b' { m = m }) place new_gen (omega (arith, new_idx)))
        (lookup-insert_self ℕ_discrete h (k, x) g)
        (subst (λ i. ItemAt b'.chunks i k x) (sym new_idx) (new-ItemAt blank b s k x p c e))

  pub kept-Valid : Valid (record b' { m = kept_places b' b'.m }) g'
  unfolding is_live
  kept-Valid = record {
    gen_pos = at_end.gen_pos;
    index = at_end.index;
    small = at_end.small;
    position = at_end.position;
    distinct = kept-Distinct b' b'.m at_end.distinct;
    entries = λ j v there.
        let (before, stays) = lookup-kept b' j v b'.m at_end.distinct there in
        entry_at j v before (inr stays);
    apart = λ i v j u differ at there.
        let (at', stays_v) = lookup-kept b' i v b'.m at_end.distinct at in
        let (there', stays_u) = lookup-kept b' j u b'.m at_end.distinct there in
        Apart-at i v j u differ at' there' (inr stays_v) (inr stays_u);
  }

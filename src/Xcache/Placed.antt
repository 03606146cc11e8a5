-- ===== src/Xcache/Placed.antt =====
-- The bucket with a pair put at its spot.
use common_lib_go.Prelude.{
  ℕ, ◌+◌, ◌/◌, ◌%◌, ◌≤◌, ◌≡◌, refl, sym, ap, subst, ◌∙◌, Option, none, some, List, length,
  get_elem?, set, arith, ◌⊎◌, inl, inr, ℕ_discrete, insert, get_elem?-set_self, get_elem?-set_ne,
}
use common_lib_go.Xcache.{Bytes, Chunk, Bucket, chunk_size}
use common_lib_go.Xcache.Store.{place_of, header, append_pair, or_new, Spot, put_pair}
use common_lib_go.Xcache.Memory.{Holds}
use common_lib_go.Xcache.Invariant.{pair_size, ItemAt, filled}
use common_lib_go.Xcache.Spot.{IsSpot}
use common_lib_go.Xcache.Write.{append_pair-Holds, append_pair_self, at_len, old}

abbrev pub placed : (ℕ → ℕ) → Bucket → Spot → ℕ → Bytes → Bytes → Option Chunk → Bucket
placed blank b s h k x c = record {
  chunks = set s.chunks (s.idx / chunk_size) (some (append_pair blank c k x));
  m = insert ℕ_discrete h (place_of s.idx s.gen) b.m;
  idx = s.idx + pair_size k x;
  gen = s.gen;
}

pub put_pair-placed :
    (blank : ℕ → ℕ) (b : Bucket) (s : Spot) (h : ℕ) (k x : Bytes) (c : Option Chunk)
    → get_elem? s.chunks (s.idx / chunk_size) ≡ some c
    → put_pair blank b s h k x ≡ some (placed blank b s h k x c)
unfolding put_pair
put_pair-placed blank b s h k x c e = ground (arith, e)

filled_len : (blank : ℕ → ℕ) (c : Option Chunk) (k x : Bytes) → at_len blank c k x ≡ filled c
filled_len blank none k x = refl
filled_len blank (some c) k x = refl

header_fits : (y z : Bytes) (i : ℕ) → i + length (header y z) ≤ i + pair_size y z
unfolding header
header_fits y z i = omega arith

module _ (blank : ℕ → ℕ) (b : Bucket) (s : Spot) (k x : Bytes) (p : IsSpot b (pair_size k x) s)
    (c : Option Chunk) (e : get_elem? s.chunks (s.idx / chunk_size) ≡ some c) where
  abbrev after : List (Option Chunk)
  after = set s.chunks (s.idx / chunk_size) (some (append_pair blank c k x))

  start : at_len blank c k x ≡ s.idx % chunk_size
  start = filled_len blank c k x ∙ p.position c e

  pub new-ItemAt : ItemAt after s.idx k x
  new-ItemAt =
      let (a, d, f) = append_pair_self blank c k x in
      record {
        chunk = append_pair blank c k x;
        at =
            get_elem?-set_self s.chunks (s.idx / chunk_size) (some (append_pair blank c k x))
              p.inside;
        head = subst (λ i. Holds (append_pair blank c k x).mem i (header k x)) start a;
        key = subst (λ i. Holds (append_pair blank c k x).mem (i + 4) k) start d;
        value = subst (λ i. Holds (append_pair blank c k x).mem (i + 4 + length k) x) start f;
        fits = p.room;
      }

  apart_in_chunk :
      (off m n : ℕ)
      → (off + m ≤ s.idx) ⊎ (s.idx + n ≤ off)
      → off / chunk_size ≡ s.idx / chunk_size
      → (off % chunk_size + m ≤ at_len blank c k x) ⊎ (at_len blank c k x + n ≤ off % chunk_size)
  apart_in_chunk off m n (inl below) same = inl (omega (arith, start))
  apart_in_chunk off m n (inr above) same = inr (omega (arith, start))

  same_chunk :
      (off : ℕ) (y z : Bytes)
      → (off + pair_size y z ≤ s.idx) ⊎ (s.idx + pair_size k x ≤ off)
      → off / chunk_size ≡ s.idx / chunk_size
      → ItemAt s.chunks off y z
      → ItemAt after off y z
  same_chunk off y z o same i =
      let here : c ≡ some i.chunk = ground (arith, e, i.at, ap (get_elem? s.chunks) same) in
      let mem : i.chunk.mem ≡ old blank c k x = sym (ap (λ d. (or_new blank d).mem) here) in
      let off' = off % chunk_size in
      let apart : (off' + pair_size y z ≤ at_len blank c k x)
          ⊎ (at_len blank c k x + pair_size k x ≤ off') =
        apart_in_chunk off (pair_size y z) (pair_size k x) o same in
      let keeps =
        λ (a : ℕ) (bs : Bytes) (l : off' ≤ a) (u : a + length bs ≤ off' + pair_size y z)
            (h : Holds i.chunk.mem a bs).
          append_pair-Holds blank c k x a bs (within a (length bs) apart l u)
            (subst (λ (m : ℕ → ℕ). Holds m a bs) mem h) in
      record {
        chunk = append_pair blank c k x;
        at =
            subst (λ j. get_elem? after j ≡ some (some (append_pair blank c k x))) (sym same)
              (get_elem?-set_self s.chunks (s.idx / chunk_size) (some (append_pair blank c k x))
                p.inside);
        head = keeps off' (header y z) (omega arith) (header_fits y z off') i.head;
        key = keeps (off' + 4) y (omega arith) (omega arith) i.key;
        value = keeps (off' + 4 + length y) z (omega arith) (omega arith) i.value;
        fits = i.fits;
      }
    where
      within :
          (a l : ℕ)
          → (off % chunk_size + pair_size y z ≤ at_len blank c k x)
            ⊎ (at_len blank c k x + pair_size k x ≤ off % chunk_size)
          → off % chunk_size ≤ a
          → a + l ≤ off % chunk_size + pair_size y z
          → (a + l ≤ at_len blank c k x) ⊎ (at_len blank c k x + pair_size k x ≤ a)
      within a l (inl below) h u = inl (omega arith)
      within a l (inr above) h u = inr (omega arith)

  pub old-ItemAt :
      (off : ℕ) (y z : Bytes)
      → (off + pair_size y z ≤ s.idx) ⊎ (s.idx + pair_size k x ≤ off)
      → ItemAt s.chunks off y z
      → ItemAt after off y z
  old-ItemAt off y z o i = elim (ℕ_discrete (off / chunk_size) (s.idx / chunk_size)) [
    | yes same ↦ same_chunk off y z o same i
    | no other ↦ record {
      chunk = i.chunk;
      at =
          get_elem?-set_ne s.chunks (s.idx / chunk_size) (off / chunk_size)
            (some (append_pair blank c k x)) (λ q. other (sym q))
          ∙ i.at;
      head = i.head;
      key = i.key;
      value = i.value;
      fits = i.fits;
    }
  ]

-- ===== src/Xcache/Spot.antt =====
-- Where the next pair goes: there it fits in its chunk, and the memory is still as it was.
use common_lib_go.Prelude.{
  ℕ, ◌+◌, ◌*◌, ◌/◌, ◌%◌, ◌<◌, ◌≤◌, ◌≡◌, refl, sym, ap, subst, ◌∙◌, true, false, Option, none, some,
  List, ltb, leb, length, get_elem?, set, arith, ◌⊎◌, inl, inr, Bool-cases, ℕ_discrete, length-set,
  get_elem?-lt, get_elem?-set_self, get_elem?-set_ne,
}
use common_lib_go.Xcache.{Bytes, Chunk, Bucket, chunk_size}
use common_lib_go.Xcache.Store.{header, truncate, Spot, choose_spot, next_gen}
use common_lib_go.Xcache.Memory.{Holds}
use common_lib_go.Xcache.Invariant.{Written, ItemAt, filled, Valid}

-- The chunks of one list have the memory of those of the other.
pub record SameMemory (cs ds : List (Option Chunk)) : Type 0 where
  pub same_length : length ds ≡ length cs
  pub same :
      (j : ℕ) (c : Chunk)
      → get_elem? cs j ≡ some (some c)
      → (d : Chunk) × (get_elem? ds j ≡ some (some d)) × (d.mem ≡ c.mem)

pub SameMemory-ItemAt :
    (cs ds : List (Option Chunk)) (off : ℕ) (k x : Bytes)
    → SameMemory cs ds
    → ItemAt cs off k x
    → ItemAt ds off k x
SameMemory-ItemAt cs ds off k x s i =
    let (d, at, mem) = s.same (off / chunk_size) i.chunk i.at in
    record {
      chunk = d;
      at = at;
      head = subst (λ (m : ℕ → ℕ). Holds m (off % chunk_size) (header k x)) (sym mem) i.head;
      key = subst (λ (m : ℕ → ℕ). Holds m (off % chunk_size + 4) k) (sym mem) i.key;
      value = subst (λ (m : ℕ → ℕ). Holds m (off % chunk_size + 4 + length k) x) (sym mem) i.value;
      fits = i.fits;
    }

-- The chunks after a truncation.
abbrev Truncated : List (Option Chunk) → ℕ → Type 0
Truncated cs i =
    (ds : List (Option Chunk)) × (truncate cs i ≡ some ds)
    × SameMemory cs ds
    × ((c : Option Chunk) → get_elem? ds i ≡ some c → filled c ≡ 0)

truncate_at :
    (cs : List (Option Chunk)) (i : ℕ) (c : Option Chunk)
    → i < length cs
    → get_elem? cs i ≡ some c
    → Truncated cs i
unfolding truncate
truncate_at cs i none h e = (
  cs,
  ground (arith, e),
  record { same_length = refl; same = λ j c at. (c, at, refl) },
  λ c at. ground (arith, e, at),
)
truncate_at cs i (some x) h e =
    let y : Chunk = record x { len = 0 } in
    (
      set cs i (some y),
      ground (arith, e),
      record {
        same_length = length-set cs i (some y);
        same = λ j c at. elim (ℕ_discrete i j) [
          | yes eq ↦ (
            y,
            subst (λ l. get_elem? (set cs i (some y)) l ≡ some (some y)) eq
                (get_elem?-set_self cs i (some y) h),
            ground (arith, e, at, ap (get_elem? cs) eq),
          )
          | no ne ↦ (c, get_elem?-set_ne cs i j (some y) ne ∙ at, refl)
        ];
      },
      λ c at. ground (arith, get_elem?-set_self cs i (some y) h, at),
    )

truncate-SameMemory : (cs : List (Option Chunk)) (i : ℕ) → i < length cs → Truncated cs i
truncate-SameMemory cs i h = let (c, e) = get_elem?-lt cs i h in truncate_at cs i c h e

-- What `choose_spot` promises for a pair of `n` bytes.
pub record IsSpot (b : Bucket) (n : ℕ) (s : Spot) : Type 0 where
  pub memory : SameMemory b.chunks s.chunks
  pub inside : s.idx / chunk_size < length s.chunks
  pub room : s.idx % chunk_size + n < chunk_size
  pub position :
      (c : Option Chunk)
      → get_elem? s.chunks (s.idx / chunk_size) ≡ some c
      → filled c ≡ s.idx % chunk_size
  pub onward :
      ((s.clean ≡ false) × (s.gen ≡ b.gen) × (b.idx ≤ s.idx))
      ⊎ ((s.clean ≡ true) × (s.gen ≡ next_gen b.gen) × (s.idx ≡ 0))

pub choose_spot_lem :
    (b : Bucket) (g : Written) (n : ℕ)
    → Valid b g
    → n < chunk_size
    → (s : Spot) × (choose_spot b n ≡ some s) × IsSpot b n s
unfolding choose_spot
choose_spot_lem b g n w small =
    elim (Bool-cases (ltb (b.idx / chunk_size) ((b.idx + n) / chunk_size))) [
      | inr stays ↦ (
        record { chunks = b.chunks; idx = b.idx; gen = b.gen; clean = false },
        ground (arith, stays),
        record {
          memory = record { same_length = refl; same = λ j c at. (c, at, refl) };
          inside = w.index;
          room = ground (arith, stays);
          position = w.position;
          onward = inl (refl, refl, omega arith);
        },
      )
      | inl moves ↦ elim (Bool-cases (leb (length b.chunks) ((b.idx + n) / chunk_size))) [
        | inl around ↦
            let (cs, e, m, f) = truncate-SameMemory b.chunks 0 (omega (arith, w.index)) in
            (
              record { chunks = cs; idx = 0; gen = next_gen b.gen; clean = true },
              ground (arith, moves, around, e),
              record {
                memory = m;
                inside = omega (arith, m.same_length, w.index);
                room = omega (arith, small);
                position = f;
                onward = inr (refl, refl, refl);
              },
            )
        | inr next ↦
            let c = (b.idx + n) / chunk_size in
            let (cs, e, m, f) = truncate-SameMemory b.chunks c (ground (arith, next)) in
            let back : (c * chunk_size) / chunk_size ≡ c = omega arith in
            (
              record { chunks = cs; idx = c * chunk_size; gen = b.gen; clean = false },
              ground (arith, moves, next, e),
              record {
                memory = m;
                inside = ground (arith, m.same_length, next, back);
                room = omega (arith, small);
                position = λ x at.
                    ground (arith, f x (subst (λ l. get_elem? cs l ≡ some x) back at), back);
                onward = inl (refl, refl, ground (arith, moves));
              },
            )
      ]
    ]

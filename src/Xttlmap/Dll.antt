-- ===== src/Xttlmap/Dll.antt =====
-- Segments of the doubly linked list on the heap.
use common_lib_go.Prelude.{
  ◌≡◌, ◌≢◌, sym, Option, none, some, List, [], ◌∷◌, ◌++◌, arith, Distinct, Fresh,
}
use common_lib_go.Xttlmap.{Ptr, Entry, Node, Heap, update, link_next, link_prev}

-- What a segment stands for: the pointer and the entry of each node, in order.
abbrev pub Cells : Type 0 → Type 0 → Type 0
Cells K V = List (Ptr × Entry K V)

module _ {K V : Type 0} where
  -- The first pointer of a segment that goes on with `d`, and the last of one that comes after `d`.
  abbrev pub first_or : Option Ptr → Cells K V → Option Ptr
  first_or d [] = d
  first_or d ((p, e) ∷ cs) = some p

  abbrev pub last_or : Option Ptr → Cells K V → Option Ptr
  last_or d [] = d
  last_or d ((p, e) ∷ cs) = last_or (some p) cs

  abbrev pub node : Entry K V → Option Ptr → Option Ptr → Node K V
  node e prev next = record { entry = e; prev = prev; next = next }

  -- From `prev` to `next` the nodes of the heap are linked, both ways, as the cells say.
  abbrev pub Dll : Heap K V → Option Ptr → Cells K V → Option Ptr → Type 0
  Dll h prev [] next = Unit {0}
  Dll h prev ((p, e) ∷ cs) next =
      (h p ≡ some (node e prev (first_or next cs))) × Dll h (some p) cs next

  pub update_self :
      (h : Heap K V) (p : Ptr) (f : Node K V → Node K V) (n : Node K V)
      → h p ≡ some n
      → update h p f p ≡ some (f n)
  unfolding update
  update_self h p f n e = ground (arith, e)

  pub update_ne :
      (h : Heap K V) (p q : Ptr) (f : Node K V → Node K V) → q ≢ p → update h p f q ≡ h q
  unfolding update
  update_ne h p q f n = ground arith

  -- A segment survives a change of a node that is not its own.
  pub Dll-update :
      (h : Heap K V) (prev : Option Ptr) (cs : Cells K V) (next : Option Ptr) (p : Ptr)
      (f : Node K V → Node K V)
      → Fresh p cs
      → Dll h prev cs next
      → Dll (update h p f) prev cs next
  Dll-update h prev [] next p f fr d = tt
  Dll-update h prev ((q, e) ∷ cs) next p f fr d =
      (rw (update_ne h p q f (λ x. fr.0 (sym x))) d.0, Dll-update h (some q) cs next p f fr.1 d.1)

  pub Dll-append :
      (h : Heap K V) (prev : Option Ptr) (xs ys : Cells K V) (next : Option Ptr)
      → Dll h prev xs (first_or next ys)
      → Dll h (last_or prev xs) ys next
      → Dll h prev (xs ++ ys) next
  Dll-append h prev [] ys next d e = e
  Dll-append h prev ((p, x) ∷ []) ys next d e = (d.0, e)
  Dll-append h prev ((p, x) ∷ c ∷ xs) ys next d e =
      (d.0, Dll-append h (some p) (c ∷ xs) ys next d.1 e)

  pub Dll-split :
      (h : Heap K V) (prev : Option Ptr) (xs ys : Cells K V) (next : Option Ptr)
      → Dll h prev (xs ++ ys) next
      → Dll h prev xs (first_or next ys) × Dll h (last_or prev xs) ys next
  Dll-split h prev [] ys next d = (tt, d)
  Dll-split h prev ((p, x) ∷ []) ys next d = ((d.0, tt), d.1)
  Dll-split h prev ((p, x) ∷ c ∷ xs) ys next d =
      let (a, b) = Dll-split h (some p) (c ∷ xs) ys next d.1 in ((d.0, a), b)

  pub link_last_ne :
      (h : Heap K V) (q : Ptr) (cs : Cells K V) (x : Option Ptr) (p : Ptr)
      → p ≢ q
      → Fresh p cs
      → link_next h (last_or (some q) cs) x p ≡ h p
  link_last_ne h q [] x p n f = update_ne h q p _ n
  link_last_ne h q ((r, e) ∷ cs) x p n f = link_last_ne h r cs x p f.0 f.1

  -- The last node of a segment may be linked to another successor.
  relink_last :
      (h : Heap K V) (prev : Option Ptr) (p : Ptr) (e : Entry K V) (cs : Cells K V)
      (next next' : Option Ptr)
      → Distinct ((p, e) ∷ cs)
      → Dll h prev ((p, e) ∷ cs) next
      → Dll (link_next h (last_or (some p) cs) next') prev ((p, e) ∷ cs) next'
  relink_last h prev p e [] next next' u d = (update_self h p _ (node e prev next) d.0, tt)
  relink_last h prev p e ((q, x) ∷ cs) next next' u d = (
    rw (link_last_ne h q cs next' p u.0.0 u.0.1) d.0,
    relink_last h (some p) q x cs next next' u.1 d.1,
  )

  pub Dll-relink_last :
      (h : Heap K V) (cs : Cells K V) (next next' : Option Ptr)
      → Distinct cs
      → Dll h none cs next
      → Dll (link_next h (last_or none cs) next') none cs next'
  Dll-relink_last h [] next next' u d = tt
  Dll-relink_last h ((p, e) ∷ cs) next next' u d = relink_last h none p e cs next next' u d

  -- The first node of a segment may be linked to another predecessor.
  pub Dll-relink_first :
      (h : Heap K V) (prev prev' : Option Ptr) (cs : Cells K V)
      → Distinct cs
      → Dll h prev cs none
      → Dll (link_prev h (first_or none cs) prev') prev' cs none
  Dll-relink_first h prev prev' [] u d = tt
  Dll-relink_first h prev prev' ((p, e) ∷ cs) u d = (
    update_self h p (λ n. record n { prev = prev' }) (node e prev (first_or none cs)) d.0,
    Dll-update h (some p) cs none p (λ n. record n { prev = prev' }) u.0 d.1,
  )

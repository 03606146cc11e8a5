-- ===== src/Xlimits/Shared.antt =====
-- All users of an id share one semaphore, for as long as the id is in use.
use common_lib_go.Prelude.{
  ◌<◌, ◌≡◌, refl, sym, ◌∙◌, Bool, true, false, none, some, List, [], ◌∷◌, arith, lookup,
}
use common_lib_go.Prelude.Int.{ℤ}
use common_lib_go.Xlimits.{Blocker, new_blocker, take_consumer, put, acquire, release}
use common_lib_go.Xlimits.Usage.{
  Users, Counts, one_more, one_less, limit_of, take-Counts, put-Counts,
}

-- A call of `Acquire`, with whether its semaphore fails, or of `Release`.
pub data Call (K : Type 0) : Type 0 where
  acquire_call : K → Bool → Call K
  release_call : K → Call K

module _ {K : Type 0} (dec : Discrete K) where
  unfoldable pub run : Blocker K → List (Call K) → Blocker K
  run s [] = s
  run s (acquire_call id failed ∷ cs) = run (acquire dec s id failed).0 cs
  run s (release_call id ∷ cs) = run (release dec s id) cs

  -- The users after one call.
  abbrev pub users_after : Users K → Call K → Users K
  users_after h (acquire_call id false) = one_more dec id h
  users_after h (acquire_call id true) = one_less dec id (one_more dec id h)
  users_after h (release_call id) = one_less dec id h

  abbrev pub users_after_all : Users K → List (Call K) → Users K
  users_after_all h [] = h
  users_after_all h (c ∷ cs) = users_after_all (users_after h c) cs

  -- Only a user of an id releases it, and the id `k` has a user all the time.
  abbrev pub Allowed : Users K → Call K → Type 0
  Allowed h (acquire_call id failed) = Unit {0}
  Allowed h (release_call id) = 0 < h id

  abbrev pub InUse : K → Users K → List (Call K) → Type 0
  InUse k h [] = 0 < h k
  InUse k h (c ∷ cs) = (0 < h k) × Allowed h c × InUse k (users_after h c) cs

  pub new-Counts : (max_conn : ℤ) → Counts dec (new_blocker max_conn) (λ _. 0)
  unfolding new_blocker lookup
  new-Counts max_conn = record { distinct = tt; entries = λ k. refl }

  has_user : (k : K) (h : Users K) (cs : List (Call K)) → InUse k h cs → 0 < h k
  has_user k h [] u = u
  has_user k h (c ∷ cs) u = u.0

  acquire_ok :
      (s : Blocker K) (id : K)
      → acquire dec s id false ≡ ((take_consumer dec s id).0, some (take_consumer dec s id).1)
  unfolding acquire
  acquire_ok s id = refl

  acquire_failed :
      (s : Blocker K) (id : K)
      → acquire dec s id true ≡ (put dec (take_consumer dec s id).0 id, none)
  unfolding acquire
  acquire_failed s id = refl

  release-put : (s : Blocker K) (id : K) → release dec s id ≡ put dec s id
  unfolding release
  release-put s id = refl

  -- `Acquire` of an id that has users gives, when the semaphore does not fail, the semaphore that
  -- the id had before and has afterwards.
  pub acquire_joins :
      {s : Blocker K} {h : Users K} (id : K)
      → Counts dec s h
      → 0 < h id
      → let r = acquire dec s id false in (r.1 ≡ limit_of dec s id) × (r.1 ≡ limit_of dec r.0 id)
  acquire_joins {s} id v held =
      let (_, own, same) = take-Counts dec id v in
      rw (acquire_ok s id) (sym own ∙ same id held, sym own)

  abbrev next_state : Blocker K → Call K → Blocker K
  next_state s (acquire_call id failed) = (acquire dec s id failed).0
  next_state s (release_call id) = release dec s id

  call-Counts :
      (k : K) (s : Blocker K) (h : Users K) (c : Call K)
      → Counts dec s h
      → 0 < h k
      → Allowed h c
      → 0 < users_after h c k
      → Counts dec (next_state s c) (users_after h c)
        × (limit_of dec (next_state s c) k ≡ limit_of dec s k)
  call-Counts k s h (acquire_call id false) v now a later =
      let (w, own, same) = take-Counts dec id v in rw (next_state, acquire_ok s id) (w, same k now)
  call-Counts k s h (acquire_call id true) v now a later =
      let (w, own, same) = take-Counts dec id v in
      let (x, same') = put-Counts dec id w (ground arith) in
      rw (next_state, acquire_failed s id) (x, same' k later ∙ same k now)
  call-Counts k s h (release_call id) v now a later =
      let (x, same) = put-Counts dec id v a in rw (next_state, release-put s id) (x, same k later)

  run_nil : (s : Blocker K) → run s [] ≡ s
  unfolding run
  run_nil s = refl

  run_call :
      (s : Blocker K) (c : Call K) (cs : List (Call K)) → run s (c ∷ cs) ≡ run (next_state s c) cs
  unfolding run
  run_call s (acquire_call id failed) cs = refl
  run_call s (release_call id) cs = refl

  -- Over any calls of `Acquire` and `Release` in which only users release and the id `k` has a user
  -- all the time, `k` keeps its semaphore, and each id has a consumer just while it has users, with
  -- their number.
  pub run-Counts :
      (k : K) (cs : List (Call K)) (s : Blocker K) (h : Users K)
      → Counts dec s h
      → InUse k h cs
      → Counts dec (run s cs) (users_after_all h cs)
        × (limit_of dec (run s cs) k ≡ limit_of dec s k)
  run-Counts k [] s h v u = rw (run_nil s) (v, refl)
  run-Counts k (c ∷ cs) s h v (now, a, rest) =
      let (w, same) = call-Counts k s h c v now a (has_user k (users_after h c) cs rest) in
      let (x, same') = run-Counts k cs (next_state s c) (users_after h c) w rest in
      rw (run_call s c cs) (x, same' ∙ same)

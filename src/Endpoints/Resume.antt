-- ===== src/Endpoints/Resume.antt =====
-- main.py: `resume_session`, with the cache of platform/resume_idempotency.py. `digest` is the sha1
-- of the checkpoint's values, and `alist` the checkpoints of the session, the newest first, which
-- the checkpointer gives.
use water_info.Base.{
  ◌≡◌, refl, sym, ◌∙◌, String, Bool, true, false, not, Option, none, some, List, [], ◌∷◌, ◌++◌,
  if◌then◌else◌, ◌==◌, string_eq, find, take, any, keep, Bool-cases, inl, inr, arith,
}
use water_info.Base.Result.{Result, ok, err}
use water_info.Platform.Idempotency.{
  Key, same_key, same_key-eq, same_key_refl, in_flight, try_acquire, release, released,
}
use water_info.Routing.State.{Next, State}

pub record Checkpoint : Type 0 where
  pub checkpoint_id : String
  pub values : State

pub record ResumeRequest : Type 0 where
  pub checkpoint_id : Option String
  pub override_next_agent : Option Next

pub data ResumeError : Type 0 where
  persistence_disabled checkpoint_not_found no_checkpoints_for_session : ResumeError
  resume_already_in_progress : ResumeError
  -- what the run of the graph raised
  run_failed : ResumeError

unfoldable pub head_of : List Checkpoint → Option Checkpoint
head_of [] = none
head_of (c ∷ cs) = some c

unfoldable pub or_missing : ResumeError → Option Checkpoint → Result ResumeError Checkpoint
or_missing e none = err e
or_missing e (some c) = ok c

-- The checkpoint that is asked for, among the 50 newest, or the newest.
unfoldable pub target_checkpoint : Option String → List Checkpoint → Result ResumeError Checkpoint
unfolding find head_of or_missing
target_checkpoint none alist = or_missing no_checkpoints_for_session (head_of (take 1 alist))
target_checkpoint (some id) alist =
    or_missing checkpoint_not_found (find (λ c. c.checkpoint_id == id) (take 50 alist))

-- The input of the run; its trace has the phase data_query.
unfoldable pub resumed_state : String → Option Next → State → State
resumed_state session_id none s = record s {
  session_id = session_id;
  execution_traces = s.execution_traces ++ "data_query" ∷ [];
}
resumed_state session_id (some next) s = record s {
  session_id = session_id;
  next_agent = next;
  execution_traces = s.execution_traces ++ "data_query" ∷ [];
}

module _ (digest : State → String) (ainvoke : State → Bool) where
  -- `ainvoke` says whether the run of the graph returns; the key is released in any case.
  unfoldable pub run_acquired : Key → State → Bool × List Key → Result ResumeError String × List Key
  unfolding release
  run_acquired key s (false, inflight) = (err resume_already_in_progress, inflight)
  run_acquired key s (true, inflight) =
      (if ainvoke s then ok key.checkpoint_id else err run_failed, release key inflight)

  unfoldable pub key_of : Checkpoint → Key
  key_of c = record { checkpoint_id = c.checkpoint_id; state_sha1 = digest c.values }

  unfoldable pub resume_from :
      String
      → ResumeRequest
      → Result ResumeError Checkpoint
      → List Key
      → Result ResumeError String × List Key
  unfolding run_acquired key_of try_acquire resumed_state
  resume_from session_id body (err e) inflight = (err e, inflight)
  resume_from session_id body (ok c) inflight =
      run_acquired (key_of c) (resumed_state session_id body.override_next_agent c.values)
        (try_acquire (key_of c) inflight)

  unfoldable pub resume_session :
      Bool
      → String
      → ResumeRequest
      → List Checkpoint
      → List Key
      → Result ResumeError String × List Key
  unfolding resume_from target_checkpoint
  resume_session enabled session_id body alist inflight =
      if not enabled
      then (err persistence_disabled, inflight)
      else resume_from session_id body (target_checkpoint body.checkpoint_id alist) inflight

  release-flight :
      (k j : Key) (inflight : List Key)
      → same_key j k ≡ false
      → in_flight k (release j inflight) ≡ in_flight k inflight
  unfolding release in_flight any keep
  release-flight k j [] apart = refl
  release-flight k j (x ∷ xs) apart = elim (Bool-cases (same_key x j)) [
    | inr other ↦ ground (arith, other, release-flight k j xs apart)
    | inl mine ↦
        let e : same_key x k ≡ false = rw (same_key-eq x j mine) apart in
        ground (arith, mine, e, release-flight k j xs apart)
  ]

  acquired-flight :
      (k j : Key) (inflight : List Key)
      → in_flight j inflight ≡ false
      → in_flight k (release j (j ∷ inflight)) ≡ in_flight k inflight
  unfolding release keep
  acquired-flight k j inflight free = rw (same_key_refl j) (elim (Bool-cases (same_key j k)) [
    | inr other ↦ release-flight k j inflight other
    | inl mine ↦ let e = same_key-eq j k mine in rw (← e) (released j inflight ∙ sym free)
  ])

  acquired-run :
      (k j : Key) (s : State) (inflight : List Key)
      → in_flight k (run_acquired j s (try_acquire j inflight)).1 ≡ in_flight k inflight
  unfolding run_acquired try_acquire
  acquired-run k j s inflight = elim (Bool-cases (in_flight j inflight)) [
    | inl held ↦ rw held refl
    | inr free ↦ rw free (acquired-flight k j inflight free)
  ]

  from_target :
      (session_id : String) (body : ResumeRequest) (found : Result ResumeError Checkpoint)
      (inflight : List Key) (k : Key)
      → in_flight k (resume_from session_id body found inflight).1 ≡ in_flight k inflight
  unfolding resume_from
  from_target session_id body (err e) inflight k = refl
  from_target session_id body (ok c) inflight k = acquired-run k (key_of c) _ inflight

  -- A call of the endpoint leaves the same keys in flight as it found: what it claims it releases, on
  -- every path, the one where the run of the graph raises included.
  pub resume_session-releases :
      (enabled : Bool) (session_id : String) (body : ResumeRequest) (alist : List Checkpoint)
      (inflight : List Key) (k : Key)
      → in_flight k (resume_session enabled session_id body alist inflight).1 ≡ in_flight k inflight
  unfolding resume_session
  resume_session-releases false session_id body alist inflight k = refl
  resume_session-releases true session_id body alist inflight k =
      from_target session_id body (target_checkpoint body.checkpoint_id alist) inflight k

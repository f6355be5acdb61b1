-- ===== src/Platform/Idempotency.antt =====
-- platform/resume_idempotency.py: one resumed run at a time for a checkpoint and a state. The lock
-- makes each call one step; a set is the list of its elements.
use water_info.Base.{
  String, ◌≡◌, refl, ap, Bool, true, false, not, ◌&&◌, List, [], ◌∷◌, ◌==◌, ==_refl, string_eq,
  if◌then◌else◌, any, keep, arith, inl, inr, Bool-cases, eq_of_==,
}

-- `(checkpoint_id, state_sha1)`
pub record Key : Type 0 where
  pub checkpoint_id : String
  pub state_sha1 : String

unfoldable pub same_key : Key → Key → Bool
same_key j k = j.checkpoint_id == k.checkpoint_id && j.state_sha1 == k.state_sha1

unfoldable pub in_flight : Key → List Key → Bool
unfolding any same_key
in_flight k inflight = any (λ j. same_key j k) inflight

unfoldable pub try_acquire : Key → List Key → Bool × List Key
unfolding in_flight
try_acquire k inflight = if in_flight k inflight then (false, inflight) else (true, k ∷ inflight)

-- `set.discard`
unfoldable pub release : Key → List Key → List Key
unfolding keep same_key
release k inflight = keep (λ j. not (same_key j k)) inflight

pub data Call : Type 0 where
  acquires releases : Key → Call

unfoldable pub run : List Call → List Key → List Key
unfolding try_acquire release
run [] s = s
run (acquires k ∷ cs) s = run cs (try_acquire k s).1
run (releases k ∷ cs) s = run cs (release k s)

-- None of the calls releases the key.
unfoldable pub holds : Key → List Call → Bool
unfolding same_key
holds k [] = true
holds k (acquires j ∷ cs) = holds k cs
holds k (releases j ∷ cs) = not (same_key j k) && holds k cs

pub same_key_refl : (k : Key) → same_key k k ≡ true
unfolding same_key
same_key_refl k = rw (==_refl k.checkpoint_id, ==_refl k.state_sha1) refl

pub same_key-eq : (j k : Key) → same_key j k ≡ true → j ≡ k
unfolding same_key
same_key-eq j k h =
    let one : (j.checkpoint_id == k.checkpoint_id) ≡ true = ground (arith, h) in
    let two : (j.state_sha1 == k.state_sha1) ≡ true = ground (arith, h) in
    let a = eq_of_== j.checkpoint_id k.checkpoint_id one in
    let b = eq_of_== j.state_sha1 k.state_sha1 two in
    ap {A = String × String} (λ x. record { checkpoint_id = x.0; state_sha1 = x.1 }) (cc (a, b))

acquired : (k : Key) (s : List Key) → in_flight k (try_acquire k s).1 ≡ true
unfolding try_acquire in_flight any
acquired k s = ground (arith, same_key_refl k)

acquire-stays :
    (k j : Key) (s : List Key) → in_flight k s ≡ true → in_flight k (try_acquire j s).1 ≡ true
unfolding try_acquire in_flight any
acquire-stays k j s h = ground arith

release-stays :
    (k j : Key) (s : List Key)
    → same_key j k ≡ false
    → in_flight k s ≡ true
    → in_flight k (release j s) ≡ true
unfolding release in_flight any keep
release-stays k j [] apart h = h
release-stays k j (x ∷ s) apart h = elim (Bool-cases (same_key x j)) [
  | inr other ↦ ground (arith, release-stays k j s apart)
  | inl mine ↦
      let e : same_key x k ≡ false = rw (same_key-eq x j mine) apart in
      ground (arith, release-stays k j s apart)
]

run-stays :
    (k : Key) (cs : List Call) (s : List Key)
    → holds k cs ≡ true
    → in_flight k s ≡ true
    → in_flight k (run cs s) ≡ true
unfolding run holds
run-stays k [] s h i = i
run-stays k (acquires j ∷ cs) s h i = run-stays k cs (try_acquire j s).1 h (acquire-stays k j s i)
run-stays k (releases j ∷ cs) s h i = elim (Bool-cases (same_key j k)) [
  | inl mine ↦ ground (arith, mine, h)
  | inr other ↦
      run-stays k cs (release j s) (ground (arith, other, h)) (release-stays k j s other i)
]

-- From a claim of a key until a release of it, whatever calls come in between, the key cannot be
-- claimed again.
pub try_acquire-excludes :
    (k : Key) (s : List Key) (cs : List Call)
    → holds k cs ≡ true
    → (try_acquire k (run cs (try_acquire k s).1)).0 ≡ false
unfolding try_acquire
try_acquire-excludes k s cs h =
    let held : in_flight k (run cs (try_acquire k s).1) ≡ true =
      run-stays k cs (try_acquire k s).1 h (acquired k s) in
    rw held refl

pub released : (k : Key) (s : List Key) → in_flight k (release k s) ≡ false
unfolding release in_flight any keep
released k [] = refl
released k (x ∷ s) = ground (arith, released k s)

-- After a release the key can be claimed.
pub release-try_acquire : (k : Key) (s : List Key) → (try_acquire k (release k s)).0 ≡ true
unfolding try_acquire
release-try_acquire k s = rw (released k s) refl

-- ===== src/Platform/Recorder.antt =====
-- platform/audit_recorder.py: records that could not be sent are buffered, up to a limit. How the
-- platform answers a post is a parameter.
use mathlib.Core.List.{append-nil, append_assoc}
use water_info.Base.{
  last_of, length-drop, ℕ, ◌+◌, ◌-◌, ◌≤◌, ◌<◌, String, ◌≡◌, refl, Bool, true, false, not, ◌||◌,
  List, [], ◌∷◌, ◌++◌, length, length-append, if◌then◌else◌, ltb, arith, keep, sym, ◌∙◌,
}

-- A table and the payload of a record.
pub record Entry : Type 0 where
  pub table : String
  pub payload : String

-- How a post ends: it succeeds, or raises; the message says that a table is missing or it does not.
pub data Outcome : Type 0 where
  sent missing failed : Outcome

pub record Recorder : Type 0 where
  pub enabled : Bool
  pub buffer_limit : ℕ
  pub disabled : Bool
  pub buffer : List Entry

-- `_buffer`
unfoldable pub add_to_buffer : Entry → Recorder → Recorder
unfolding last_of
add_to_buffer e r =
    let grown = r.buffer ++ e ∷ [] in
    record r {
      buffer = if ltb r.buffer_limit (length grown) then last_of r.buffer_limit grown else grown;
    }

-- The `except` of `_record`: a missing table disables further writes.
unfoldable pub handle : Outcome → Entry → Recorder → Recorder
unfolding add_to_buffer
handle sent e r = r
handle missing e r = add_to_buffer e (record r { disabled = true })
handle failed e r = add_to_buffer e r

-- `_record`, given how the post ends
unfoldable pub record_entry : Outcome → Entry → Recorder → Recorder
unfolding handle
record_entry outcome e r = if not r.enabled || r.disabled then r else handle outcome e r

-- The `except` of `retry_buffered`.
unfoldable pub handle_again : Outcome → Entry → Recorder → Recorder
unfolding add_to_buffer
handle_again sent e r = r
handle_again missing e r = add_to_buffer e r
handle_again failed e r = add_to_buffer e r

unfoldable pub resend : (Entry → Outcome) → List Entry → Recorder → Recorder
unfolding handle_again
resend post [] r = r
resend post (e ∷ es) r = resend post es (handle_again (post e) e r)

unfoldable pub retry_buffered : (Entry → Outcome) → Recorder → Recorder
unfolding resend
retry_buffered post r =
    if not r.enabled || r.disabled then r else resend post r.buffer (record r { buffer = [] })

-- The recorder's buffer is within its limit.
pub record IsBounded (r : Recorder) : Type 0 where
  pub has_limit : 0 < r.buffer_limit
  pub fits : length r.buffer ≤ r.buffer_limit

add_to_buffer-IsBounded : (e : Entry) (r : Recorder) → IsBounded r → IsBounded (add_to_buffer e r)
unfolding add_to_buffer last_of
add_to_buffer-IsBounded e r b =
    let grown = r.buffer ++ e ∷ [] in
    record {
      has_limit = b.has_limit;
      fits = ground (arith, b.has_limit, b.fits, length-drop (length grown - r.buffer_limit) grown);
    }

handle-IsBounded : (o : Outcome) (e : Entry) (r : Recorder) → IsBounded r → IsBounded (handle o e r)
unfolding handle
handle-IsBounded sent e r b = b
handle-IsBounded missing e r b =
    add_to_buffer-IsBounded e (record r { disabled = true })
      (record { has_limit = b.has_limit; fits = b.fits })
handle-IsBounded failed e r b = add_to_buffer-IsBounded e r b

handle_again-IsBounded :
    (o : Outcome) (e : Entry) (r : Recorder) → IsBounded r → IsBounded (handle_again o e r)
unfolding handle_again
handle_again-IsBounded sent e r b = b
handle_again-IsBounded missing e r b = add_to_buffer-IsBounded e r b
handle_again-IsBounded failed e r b = add_to_buffer-IsBounded e r b

resend-IsBounded :
    (post : Entry → Outcome) (es : List Entry) (r : Recorder)
    → IsBounded r
    → IsBounded (resend post es r)
unfolding resend
resend-IsBounded post [] r b = b
resend-IsBounded post (e ∷ es) r b =
    resend-IsBounded post es _ (handle_again-IsBounded (post e) e r b)

if-IsBounded :
    (c : Bool) (r s : Recorder) → IsBounded r → IsBounded s → IsBounded (if c then r else s)
if-IsBounded true r s b d = b
if-IsBounded false r s b d = d

-- A call of the recorder, with how its posts end.
pub data Event : Type 0 where
  records : Outcome → Entry → Event
  retries : (Entry → Outcome) → Event

unfoldable pub run : List Event → Recorder → Recorder
unfolding record_entry retry_buffered
run [] r = r
run (records o e ∷ es) r = run es (record_entry o e r)
run (retries post ∷ es) r = run es (retry_buffered post r)

-- However the posts end, the buffer never holds more records than its limit, if the limit is not 0
-- and the buffer starts within it.
pub run-IsBounded : (es : List Event) (r : Recorder) → IsBounded r → IsBounded (run es r)
unfolding run record_entry retry_buffered
run-IsBounded [] r b = b
run-IsBounded (records o e ∷ es) r b =
    run-IsBounded es _ (if-IsBounded _ r _ b (handle-IsBounded o e r b))
run-IsBounded (retries post ∷ es) r b = run-IsBounded es _ (
    if-IsBounded _ r _ b (
      resend-IsBounded post r.buffer (record r { buffer = [] })
        (record { has_limit = b.has_limit; fits = omega arith })))

abbrev pub is_sent : Outcome → Bool
is_sent sent = true
is_sent missing = false
is_sent failed = false

add_to_buffer-room :
    (e : Entry) (r : Recorder)
    → length r.buffer < r.buffer_limit
    → add_to_buffer e r ≡ record r { buffer = r.buffer ++ e ∷ [] }
unfolding add_to_buffer
add_to_buffer-room e r h =
    let fits : ltb r.buffer_limit (length (r.buffer ++ e ∷ [])) ≡ false =
      ground (arith, h, length-append r.buffer (e ∷ [])) in
    rw fits refl

resend-unsent :
    (post : Entry → Outcome) (es : List Entry) (r : Recorder)
    → length r.buffer + length es ≤ r.buffer_limit
    → (resend post es r).buffer ≡ r.buffer ++ keep (λ e. not (is_sent (post e))) es
unfolding resend keep handle_again
resend-unsent post [] r h = sym (append-nil r.buffer)
resend-unsent post (e ∷ es) r h = by (post e) (resend-unsent post es r (omega (arith, h))) (
    rw (add_to_buffer-room e r (omega (arith, h))) (
      resend-unsent post es (record r { buffer = r.buffer ++ e ∷ [] })
        (omega (arith, h, length-append r.buffer (e ∷ [])))
      ∙ append_assoc r.buffer (e ∷ []) _))
  where
    by :
        (o : Outcome)
        → (resend post es r).buffer ≡ r.buffer ++ keep (λ x. not (is_sent (post x))) es
        → (resend post es (add_to_buffer e r)).buffer
          ≡ r.buffer ++ e ∷ keep (λ x. not (is_sent (post x))) es
        → (resend post es (handle_again o e r)).buffer
          ≡ r.buffer
            ++ (if not (is_sent o)
                then e ∷ keep (λ x. not (is_sent (post x))) es
                else keep (λ x. not (is_sent (post x))) es)
    by sent now later = now
    by missing now later = later
    by failed now later = later

-- A retry keeps in the buffer exactly the records that were not sent, in their order.
pub retry_buffered-buffer :
    (post : Entry → Outcome) (r : Recorder)
    → r.enabled ≡ true
    → r.disabled ≡ false
    → IsBounded r
    → (retry_buffered post r).buffer ≡ keep (λ e. not (is_sent (post e))) r.buffer
unfolding retry_buffered
retry_buffered-buffer post r on off b =
    let tries : (not r.enabled || r.disabled) ≡ false = rw (on, off) refl in
    rw tries (resend-unsent post r.buffer (record r { buffer = [] }) (omega (arith, b.fits)))

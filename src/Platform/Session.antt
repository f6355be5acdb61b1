-- ===== src/Platform/Session.antt =====
-- services/session.py: `SessionService` over Redis. The commands and the JSON of a turn are
-- parameters, with what their documentation says of them. An exception is caught by the code: a turn
-- is then lost, and a history is empty; that is not modelled.
use Prim.Native.String
use mathlib.Core.List.{append_assoc, append-nil, map-append}
use water_info.Base.{
  ◌≡◌, refl, sym, ap, ◌∙◌, ℕ, zero, suc, ◌+◌, ◌-◌, ◌≤◌, String, List, [], ◌∷◌, ◌++◌, map, length,
  length-append, drop, last_of, length-drop, length-map, arith,
}

pub record Turn : Type 0 where
  pub role : String
  pub content : String

-- RPUSH, LTRIM with `-n -1`, and LRANGE with `0 -1`; `json.dumps` and `json.loads` of a turn.
pub record Redis : Type 1 where
  pub Store : Type 0
  pub rpush : String → String → Store → Store
  pub ltrim_last : String → ℕ → Store → Store
  pub lrange_all : String → Store → List String
  pub dumps : Turn → String
  pub loads : String → Turn

-- RPUSH adds at the end, LTRIM keeps the last items of a list, and a turn is read as it was written.
pub record IsRedis (r : Redis) : Type 0 where
  pub pushed :
      (key item : String) (s : r.Store)
      → r.lrange_all key (r.rpush key item s) ≡ r.lrange_all key s ++ item ∷ []
  pub trimmed :
      (key : String) (n : ℕ) (s : r.Store)
      → r.lrange_all key (r.ltrim_last key n s)
        ≡ drop (length (r.lrange_all key s) - n) (r.lrange_all key s)
  pub reads_back : (t : Turn) → r.loads (r.dumps t) ≡ t

-- `_key`
unfoldable pub key_of : String → String
key_of session_id = String.◌++◌ "water_ai:session:" session_id

-- `MAX_TURNS * 2`
abbrev pub max_records : ℕ
max_records = 20

module _ (r : Redis) where
  unfoldable pub get_history : String → r.Store → List Turn
  unfolding key_of
  get_history session_id s = map r.loads (r.lrange_all (key_of session_id) s)

  unfoldable pub save_turn : String → Turn → r.Store → r.Store
  unfolding key_of
  save_turn session_id t s =
      let key = key_of session_id in r.ltrim_last key max_records (r.rpush key (r.dumps t) s)

  unfoldable pub save_turns : String → List Turn → r.Store → r.Store
  unfolding save_turn
  save_turns session_id [] s = s
  save_turns session_id (t ∷ ts) s = save_turns session_id ts (save_turn session_id t s)

module _ {ℓ} {A : Type ℓ} where
  -- the last records, at most `max_records`
  keep_last : List A → List A
  unfolding drop
  keep_last xs = drop (length xs - max_records) xs

  drop-append : (n : ℕ) (xs ys : List A) → n ≤ length xs → drop n (xs ++ ys) ≡ drop n xs ++ ys
  unfolding drop
  drop-append zero xs ys h = refl
  drop-append (suc n) [] ys h = absurd (omega (arith, h))
  drop-append (suc n) (x ∷ xs) ys h = drop-append n xs ys (omega (arith, h))

  drop-nil : (n : ℕ) → let none_left : List A = [] in drop n none_left ≡ none_left
  unfolding drop
  drop-nil zero = refl
  drop-nil (suc n) = refl

  drop-drop : (m n : ℕ) (xs : List A) → drop m (drop n xs) ≡ drop (n + m) xs
  unfolding drop
  drop-drop m zero xs = ap (λ k. drop k xs) (omega arith)
  drop-drop m (suc n) [] = drop-nil m ∙ sym (drop-nil (suc n + m))
  drop-drop m (suc n) (x ∷ xs) =
      let sum : suc (n + m) ≡ suc n + m = omega arith in
      drop-drop m n xs ∙ ap (λ k. drop k (x ∷ xs)) sum

  length-keep_last : (xs : List A) → length (keep_last xs) ≤ max_records
  unfolding keep_last
  length-keep_last xs = omega (arith, length-drop (length xs - max_records) xs)

  keep_last-append : (xs ys : List A) → keep_last (keep_last xs ++ ys) ≡ keep_last (xs ++ ys)
  unfolding keep_last
  keep_last-append xs ys =
      let n = length xs - max_records in
      let m = length (drop n xs ++ ys) - max_records in
      let joined = drop-append n xs ys (omega arith) in
      let sum : n + m ≡ length (xs ++ ys) - max_records =
        omega (arith, length-append (drop n xs) ys, length-append xs ys, length-drop n xs) in
      ap (drop m) (sym joined) ∙ drop-drop m n (xs ++ ys) ∙ ap (λ k. drop k (xs ++ ys)) sum

map-drop : {A B : Type 0} (f : A → B) (n : ℕ) (xs : List A) → map f (drop n xs) ≡ drop n (map f xs)
unfolding drop
map-drop f zero xs = refl
map-drop f (suc n) [] = refl
map-drop f (suc n) (x ∷ xs) = map-drop f n xs

map-keep_last :
    {A B : Type 0} (f : A → B) (xs : List A) → map f (keep_last xs) ≡ keep_last (map f xs)
unfolding keep_last
map-keep_last f xs =
    map-drop f (length xs - max_records) xs
    ∙ ap (λ k. drop (k - max_records) (map f xs)) (sym (length-map f xs))

keep_last-short : {A : Type 0} (xs : List A) → length xs ≤ max_records → keep_last xs ≡ xs
unfolding keep_last drop
keep_last-short xs h =
    let zero_left : length xs - max_records ≡ 0 = omega (arith, h) in ap (λ k. drop k xs) zero_left

module _ (r : Redis) (law : IsRedis r) (session_id : String) where
  get_history-save_turn :
      (t : Turn) (s : r.Store)
      → get_history r session_id (save_turn r session_id t s)
        ≡ keep_last (get_history r session_id s ++ t ∷ [])
  unfolding get_history save_turn keep_last
  get_history-save_turn t s =
      let key = key_of session_id in
      let old = r.lrange_all key s in
      let new = old ++ r.dumps t ∷ [] in
      let kept = law.trimmed key max_records (r.rpush key (r.dumps t) s) in
      let pushed = law.pushed key (r.dumps t) s in
      let added : map r.loads new ≡ map r.loads old ++ t ∷ [] =
        map-append r.loads old (r.dumps t ∷ [])
        ∙ ap (λ u. map r.loads old ++ u ∷ []) (law.reads_back t) in
      ap (map r.loads) (kept ∙ ap keep_last pushed) ∙ map-keep_last r.loads new ∙ ap keep_last added

  history-keep_last :
      (ts : List Turn) (s : r.Store)
      → length (get_history r session_id s) ≤ max_records
      → get_history r session_id (save_turns r session_id ts s)
        ≡ keep_last (get_history r session_id s ++ ts)
  unfolding save_turns
  history-keep_last [] s h =
      let old = get_history r session_id s in
      sym (ap keep_last (append-nil old) ∙ keep_last-short old h)
  history-keep_last (t ∷ ts) s h =
      let old = get_history r session_id s in
      let saved = get_history-save_turn t s in
      let fits = length-keep_last (old ++ t ∷ []) in
      history-keep_last ts (save_turn r session_id t s) (rw saved fits)
      ∙ ap (λ x. keep_last (x ++ ts)) saved
      ∙ keep_last-append (old ++ t ∷ []) ts
      ∙ ap keep_last (append_assoc old (t ∷ []) ts)

  -- What is saved is read back: after any turns, the history of a session is the last 20 records of the
  -- earlier history and the turns, in order. The earlier history has at most 20.
  pub get_history-save_turns :
      (ts : List Turn) (s : r.Store)
      → length (get_history r session_id s) ≤ max_records
      → get_history r session_id (save_turns r session_id ts s)
        ≡ last_of max_records (get_history r session_id s ++ ts)
  unfolding last_of keep_last
  get_history-save_turns ts s h = history-keep_last ts s h

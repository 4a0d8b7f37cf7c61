-- ===== src/Ratelimit/Burst.antt =====
-- How many requests of one key the limiter lets through, whatever the other keys' requests and the
-- sweeps of the collection in between.
use tabby_sync.Common.{
  ℕ, suc, ◌+◌, ◌-◌, ◌*◌, ◌≤◌, ◌<◌, Bytes, bytes_eq, bytes_eq_iff, Bool, true, false, not, Option,
  none, some, or_else, List, [], ◌∷◌, ◌≡◌, refl, sym, ap, ◌∙◌, arith, ltb, if◌then◌else◌,
  Bool-cases, inl, inr, ◌&&◌, zero,
}
use tabby_sync.Store.{Time}
use tabby_sync.Ratelimit.{
  Bucket, Limiter, refilled, take_token, full_bucket, allow, gc, is_live, collected,
}
use mathlib.Core.Path.{subst}

pub data Event : Type 0 where
  request : Bytes → Event
  sweep : Event

-- A request's answer, and the limiter after an event.
unfoldable pub step : Time → Event → Limiter → Bool × Limiter
step now (request key) l = allow now key l
step now sweep l = (false, gc now l)

abbrev pub is_of : Bytes → Event → Bool
is_of key (request other) = bytes_eq other key
is_of key sweep = false

-- How many of the key's requests pass.
unfoldable pub passed : Bytes → List (Time × Event) → Limiter → ℕ
passed key [] l = 0
passed key ((now, e) ∷ es) l =
    let done = step now e l in
    let rest = passed key es done.1 in if is_of key e && done.0 then suc rest else rest

-- The times do not decrease, start at `from` and end at most at `to`.
abbrev pub Between : List (Time × Event) → Time → Time → Type 0
Between [] from to = from ≤ to
Between ((now, e) ∷ es) from to = (from ≤ now) × Between es now to

ends : (es : List (Time × Event)) (from to : Time) → Between es from to → from ≤ to
ends [] from to h = h
ends ((now, e) ∷ es) from to (le, h) = omega (arith, ends es now to h)

refill-split : (rate a b c : ℕ) → a ≤ b → b ≤ c → (c - a) * rate ≡ (b - a) * rate + (c - b) * rate
refill-split rate a b c h k = grind arith

cap_idle : (rate window d : ℕ) → 2 * window < d → rate * window ≤ d * rate
cap_idle zero window d h = omega arith
cap_idle (suc rate) window d h = grind (arith, cap_idle rate window d h)

-- The times of the buckets are not ahead.
abbrev pub Past : Time → Option Bucket → Type 0
Past t none = Unit
Past t (some b) = b.last_check ≤ t

module _ (rate window : ℕ) where
  -- The tokens that a request of the bucket's key would find, in parts of 1/window.
  unfoldable pub available : Time → Option Bucket → ℕ
  available t o = refilled rate window t (or_else o (full_bucket rate window t))

  available-later :
      (o : Option Bucket) (s t : Time)
      → Past s o
      → s ≤ t
      → available t o ≤ available s o + (t - s) * rate
  unfolding available refilled
  available-later none s t h k = ground arith
  available-later (some b) s t h k = ground (arith, refill-split rate b.last_check s t h k)

  available_bound : (o : Option Bucket) (t : Time) → available t o ≤ rate * window
  unfolding available refilled
  available_bound o t = ground arith

  refilled-now :
      (now tokens : ℕ)
      → refilled rate window now (record { tokens = tokens; last_check = now }) ≤ tokens
  unfolding refilled
  refilled-now now tokens = ground arith

  -- What a request takes.
  take_token-available :
      (now : Time) (o : Option Bucket)
      → (let t = take_token rate window now (or_else o (full_bucket rate window now)) in
          available now (some t.1) + (if t.0 then window else 0) ≤ available now o)
  unfolding take_token available
  take_token-available now o =
      elim (Bool-cases
        (ltb (refilled rate window now (or_else o (full_bucket rate window now))) window)) [
          | inl empty ↦ ground (
            arith,
            empty,
            refilled-now now (refilled rate window now (or_else o (full_bucket rate window now))),
          )
          | inr has ↦ ground (
            arith,
            has,
            refilled-now now
                (refilled rate window now (or_else o (full_bucket rate window now)) - window),
          )
        ]

  take_token-last : (now : Time) (b : Bucket) → (take_token rate window now b).1.last_check ≡ now
  unfolding take_token
  take_token-last now b = ground arith

  if_live :
      (now t : Time) (b : Bucket) (live : Bool)
      → b.last_check ≤ now
      → (live ≡ false → 2 * window < t - b.last_check)
      → (let o = if live then some b else none in
          Past now o × (available t o ≡ available t (some b)))
  unfolding available refilled
  if_live now t b true h k = (h, refl)
  if_live now t b false h k = (tt, ground (arith, cap_idle rate window (t - b.last_check) (k refl)))

  collected-available :
      (now t : Time) (o : Option Bucket)
      → now ≤ t
      → Past now o
      → Past now (collected window now o) × (available t (collected window now o) ≡ available t o)
  unfolding is_live
  collected-available now t none le h = (tt, refl)
  collected-available now t (some b) le h =
      if_live now t b (is_live window now b) h (λ e. ground arith)

  decides :
      (now : Time) (o : Option Bucket)
      → (take_token rate window now (or_else o (full_bucket rate window now))).0
        ≡ not (ltb (available now o) window)
  unfolding take_token available
  decides now o = ground arith

module _ (key : Bytes) where
  -- What holds after an event.
  record Stepped (now : Time) (e : Event) (l : Limiter) : Type 0 where
    pub rate : (step now e l).1.rate ≡ l.rate
    pub window : (step now e l).1.window ≡ l.window
    pub past : Past now ((step now e l).1.buckets key)
    pub cost :
        available l.rate l.window now ((step now e l).1.buckets key)
          + (if is_of key e && (step now e l).0 then l.window else 0)
        ≤ available l.rate l.window now (l.buckets key)

  step_lem : (now : Time) (e : Event) (l : Limiter) → Past now (l.buckets key) → Stepped now e l
  unfolding step allow gc
  step_lem now sweep l h =
      let (past, same) =
        collected-available l.rate l.window now now (l.buckets key) (omega arith) h in
      record { rate = refl; window = refl; past = past; cost = omega (arith, same) }
  step_lem now (request other) l h = elim (Bool-cases (bytes_eq other key)) [
    | inl mine ↦
        let same = (bytes_eq_iff other key).0 mine in
        let taken = take_token-available l.rate l.window now (l.buckets key) in
        let last =
          take_token-last l.rate l.window now
            (or_else (l.buckets key) (full_bucket l.rate l.window now)) in
        record {
          rate = refl;
          window = refl;
          past = ground (arith, mine, same, last);
          cost = ground (arith, mine, same, taken);
        }
    | inr foreign ↦ record {
      rate = refl;
      window = refl;
      past = ground (arith, foreign);
      cost = ground (arith, foreign);
    }
  ]

  counted :
      (c : Bool) (n window a' a b refill later total : ℕ)
      → n * window ≤ a' + later
      → a' + (if c then window else 0) ≤ a
      → a ≤ b + refill
      → total ≡ refill + later
      → (if c then suc n else n) * window ≤ b + total
  counted true n window a' a b refill later total h k m e = omega arith
  counted false n window a' a b refill later total h k m e = omega arith

  Past-later : (o : Option Bucket) (s t : Time) → s ≤ t → Past s o → Past t o
  Past-later none s t h k = tt
  Past-later (some b) s t h k = omega arith

  passed-available :
      (es : List (Time × Event)) (from to : Time) (l : Limiter)
      → Past from (l.buckets key)
      → Between es from to
      → passed key es l * l.window
        ≤ available l.rate l.window from (l.buckets key) + (to - from) * l.rate
  unfolding passed
  passed-available [] from to l past h = omega arith
  passed-available ((now, e) ∷ es) from to l past (le, h) =
      let s = step_lem now e l (Past-later (l.buckets key) from now le past) in
      let l' = (step now e l).1 in
      let rest = passed-available es now to l' s.past h in
      counted (is_of key e && (step now e l).0) (passed key es l') l.window
        (available l.rate l.window now (l'.buckets key))
        (available l.rate l.window now (l.buckets key))
        (available l.rate l.window from (l.buckets key)) ((now - from) * l.rate)
        ((to - now) * l.rate) ((to - from) * l.rate)
        (settle (passed key es l') (to - now) l'.rate l.rate l'.window l.window (l'.buckets key) now
          s.rate s.window rest)
        s.cost (available-later l.rate l.window (l.buckets key) from now past le)
        (refill-split l.rate from now to le (ends es now to h))
    where
      settle :
          (n d rate' rate window' window : ℕ) (o : Option Bucket) (now : Time)
          → rate' ≡ rate
          → window' ≡ window
          → n * window' ≤ available rate' window' now o + d * rate'
          → n * window ≤ available rate window now o + d * rate
      settle n d rate' rate window' window o now er ew h =
          subst (λ r. n * window ≤ available r window now o + d * r) er
            (subst (λ w. n * w ≤ available rate' w now o + d * rate') ew h)

-- Whatever other keys' requests and sweeps come in between, of a key without a bucket at time
-- `from` at most `rate` requests pass until `to`, and `rate` more for each window in between (the
-- inequality is multiplied by the window), if the times do not decrease.
pub passed_bound :
    (key : Bytes) (es : List (Time × Event)) (from to : Time) (l : Limiter)
    → l.buckets key ≡ none
    → Between es from to
    → passed key es l * l.window ≤ l.rate * l.window + (to - from) * l.rate
passed_bound key es from to l gone h =
    let bound = passed-available key es from to l (subst (Past from) (sym gone) tt) h in
    omega (arith, bound, available_bound l.rate l.window (l.buckets key) from)

-- A sweep changes no later decision: a request of any key at or after the sweep is answered as if
-- there had been no sweep, if the key's bucket is not from the future.
pub allow-gc :
    (now t : Time) (key : Bytes) (l : Limiter)
    → now ≤ t
    → Past now (l.buckets key)
    → (allow t key (gc now l)).0 ≡ (allow t key l).0
unfolding allow gc
allow-gc now t key l le h =
    decides l.rate l.window t (collected l.window now (l.buckets key))
    ∙ ap (λ n. not (ltb n l.window))
        (collected-available l.rate l.window now t (l.buckets key) le h).1
    ∙ sym (decides l.rate l.window t (l.buckets key))

-- ===== src/Operations/RateLimiter/Window.antt =====
-- How many attempts the throttle lets through, and that a caller who waits gets through again.
use libre_agent.Common.{
  ℕ, zero, suc, ◌+◌, ◌-◌, ◌*◌, ◌≤◌, ◌≡◌, refl, ◌∙◌, sym, true, false, List, [], ◌∷◌, ◌++◌, arith,
  ltb, leb, if◌then◌else◌, length, length-append, Bool-cases, inl, inr, min,
}
use libre_agent.Common.{text_key}
use libre_agent.Operations.RateLimiter.{
  max_per_window, window, base_backoff, max_backoff, CallerState, new_caller, window_empty, is_idle,
  drop_aged, double_backoff, backoff_for, judge,
}

-- How many of the times lie less than a window, or just a window, before `now`.
abbrev pub in_window : ℕ → List ℕ → ℕ
in_window now [] = 0
in_window now (t ∷ ts) = (if ltb (t + window) now then 0 else 1) + in_window now ts

-- The times rise along the list, from `lo` on up to `hi`.
abbrev pub Rising : ℕ → ℕ → List ℕ → Type 0
Rising lo hi [] = lo ≤ hi
Rising lo hi (t ∷ ts) = (lo ≤ t) × Rising t hi ts

pub Rising-le : (lo hi : ℕ) (ts : List ℕ) → Rising lo hi ts → lo ≤ hi
Rising-le lo hi [] r = r
Rising-le lo hi (t ∷ ts) r = omega (arith, Rising-le t hi ts r.1)

Rising-mono : (lo hi top : ℕ) (ts : List ℕ) → Rising lo hi ts → hi ≤ top → Rising lo top ts
Rising-mono lo hi top [] r h = omega arith
Rising-mono lo hi top (t ∷ ts) r h = (r.0, Rising-mono t hi top ts r.1 h)

Rising-lower : (low lo hi : ℕ) (ts : List ℕ) → low ≤ lo → Rising lo hi ts → Rising low hi ts
Rising-lower low lo hi [] h r = omega arith
Rising-lower low lo hi (t ∷ ts) h r = (omega arith, r.1)

Rising-snoc :
    (lo hi now : ℕ) (ts : List ℕ) → Rising lo hi ts → hi ≤ now → Rising lo now (ts ++ (now ∷ []))
Rising-snoc lo hi now [] r h = (omega arith, omega arith)
Rising-snoc lo hi now (t ∷ ts) r h = (r.0, Rising-snoc t hi now ts r.1 h)

in_window-append :
    (now : ℕ) (xs ys : List ℕ) → in_window now (xs ++ ys) ≡ in_window now xs + in_window now ys
in_window-append now [] ys = omega arith
in_window-append now (x ∷ xs) ys = omega (arith, in_window-append now xs ys)

pub in_window-le : (now : ℕ) (ts : List ℕ) → in_window now ts ≤ length ts
in_window-le now [] = omega arith
in_window-le now (t ∷ ts) = ground (arith, in_window-le now ts)

drop_aged-Rising : (now lo hi : ℕ) (ts : List ℕ) → Rising lo hi ts → Rising lo hi (drop_aged now ts)
unfolding drop_aged
drop_aged-Rising now lo hi [] r = r
drop_aged-Rising now lo hi (t ∷ ts) r =
    ground (arith, drop_aged-Rising now lo hi ts (Rising-lower lo t hi ts r.0 r.1))

length-drop_aged : (now : ℕ) (ts : List ℕ) → length (drop_aged now ts) ≤ length ts
unfolding drop_aged
length-drop_aged now [] = omega arith
length-drop_aged now (t ∷ ts) = ground (arith, length-drop_aged now ts)

-- What `drop_aged` removes no later window counts.
in_window-drop_aged :
    (now later : ℕ) (ts : List ℕ)
    → now ≤ later
    → in_window later (drop_aged now ts) ≡ in_window later ts
unfolding drop_aged
in_window-drop_aged now later [] h = refl
in_window-drop_aged now later (t ∷ ts) h = ground (arith, in_window-drop_aged now later ts h)

-- Where the last time is aged, all are.
window_empty_out :
    (now later lo hi : ℕ) (ts : List ℕ)
    → Rising lo hi ts
    → window_empty now ts ≡ true
    → now ≤ later
    → in_window later ts ≡ 0
unfolding window_empty
window_empty_out now later lo hi [] r e h = refl
window_empty_out now later lo hi (t ∷ []) r e h = ground arith
window_empty_out now later lo hi (t ∷ s ∷ ts) r e h =
    ground (arith, window_empty_out now later t hi (s ∷ ts) r.1)

double_backoff-le : (n b : ℕ) → b ≤ max_backoff → double_backoff n b ≤ max_backoff
unfolding double_backoff
double_backoff-le zero b h = h
double_backoff-le (suc n) b h = double_backoff-le n (min (b * 2) max_backoff) (omega arith)

backoff_for-le : (level : ℕ) → backoff_for level ≤ max_backoff
unfolding backoff_for
backoff_for-le level = double_backoff-le (level - 1) base_backoff (omega arith)

-- What a caller's state says of the attempts let through, as long as the clock reads `last` or more.
pub record Tracks (last : ℕ) (admitted : List ℕ) (s : CallerState) : Type 0 where
  pub rising : Rising 0 last s.recent
  pub few : length s.recent ≤ max_per_window
  pub counted : (later : ℕ) → last ≤ later → in_window later admitted ≡ in_window later s.recent
  pub until : s.backoff_until ≤ last + max_backoff

pub Tracks-later :
    (last now : ℕ) (admitted : List ℕ) (s : CallerState)
    → last ≤ now
    → Tracks last admitted s
    → Tracks now admitted s
Tracks-later last now admitted s h v = record {
  rising = Rising-mono 0 last now s.recent v.rising h;
  few = v.few;
  counted = λ later p. v.counted later (omega arith);
  until = omega (arith, v.until);
}

pub idle-Tracks :
    (now : ℕ) (admitted : List ℕ) (s : CallerState)
    → Tracks now admitted s
    → is_idle now s ≡ true
    → Tracks now admitted new_caller
unfolding is_idle
idle-Tracks now admitted s v idle = record {
  rising = omega arith;
  few = omega arith;
  counted = λ later p.
      v.counted later p ∙ window_empty_out now later 0 now s.recent v.rising (ground arith) p;
  until = omega arith;
}

module _ (now : ℕ) (admitted : List ℕ) (s : CallerState) (v : Tracks now admitted s) where
  live_counted :
      (later : ℕ)
      → now ≤ later
      → in_window later admitted ≡ in_window later (drop_aged now s.recent)
  live_counted later p = v.counted later p ∙ sym (in_window-drop_aged now later s.recent p)

  refused-Tracks :
      (level : ℕ)
      → length (drop_aged now s.recent) ≤ max_per_window
      → Tracks now admitted (record {
        recent = drop_aged now s.recent;
        backoff_level = level;
        backoff_until = now + backoff_for level;
      })
  refused-Tracks level few = record {
    rising = drop_aged-Rising now 0 now s.recent v.rising;
    few = few;
    counted = live_counted;
    until = omega (arith, backoff_for-le level);
  }

  let_through-Tracks :
      leb max_per_window (length (drop_aged now s.recent)) ≡ false
      → Tracks now (now ∷ admitted) (record {
        recent = drop_aged now s.recent ++ (now ∷ []);
        backoff_level = 0;
        backoff_until = 0;
      })
  let_through-Tracks room = record {
    rising =
        Rising-snoc 0 now now (drop_aged now s.recent)
          (drop_aged-Rising now 0 now s.recent v.rising) (omega arith);
    few = ground (arith, length-append (drop_aged now s.recent) (now ∷ []));
    counted = λ later p.
        omega
          (arith, live_counted later p, in_window-append later (drop_aged now s.recent) (now ∷ []));
    until = omega arith;
  }

  pub judge-Tracks :
      Tracks now (if (judge s now).0 then now ∷ admitted else admitted) (judge s now).1
  unfolding judge
  judge-Tracks = elim (Bool-cases (ltb now s.backoff_until)) [
    | inl e ↦ rw (e, judge) v
    | inr e ↦
        rw (e, judge)
          (elim (Bool-cases (leb max_per_window (length (drop_aged now s.recent)))) [
            | inl full ↦
                rw full (refused-Tracks _ (omega (arith, length-drop_aged now s.recent, v.few)))
            | inr room ↦ rw room (let_through-Tracks room)
          ])
  ]

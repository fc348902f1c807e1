-- ===== src/Platform/Http/Limiter.antt =====
-- The limit on checkouts: `fixedWindowLimiter` of internal/platform/transport/http/handler.go.
use avito_kitchen.Base.{
  ℕ, ◌+◌, ◌≤◌, ◌≡◌, refl, Bool, true, false, leb, ltb, bit, Option, none, some, List, [], ◌∷◌,
  if◌then◌else◌, arith, All, weaken-All, Bool-cases, inl, inr, ◌<◌, ◌*◌,
}
use avito_kitchen.Platform.Worker.{second}

-- `window` is `none` for the zero time.
pub record Limiter : Type 0 where
  pub window : Option ℕ
  pub count : ℕ
  pub limit : ℕ

-- `NewHandler`'s limiter for a configured limit.
abbrev pub new_limiter : ℕ → Limiter
new_limiter limit = record { window = none; count = 0; limit = if ltb limit 1 then 100 else limit }

-- `limiter.window.IsZero() || now.Sub(limiter.window) >= time.Second`.
abbrev pub is_over : Option ℕ → ℕ → Bool
is_over none now = true
is_over (some start) now = leb (start + second) now

abbrev pub refreshed : Limiter → ℕ → Limiter
refreshed l now = if is_over l.window now then record l { window = some now; count = 0 } else l

-- `allow`.
unfoldable pub allow : Limiter → ℕ → Bool × Limiter
allow l now =
    let l' = refreshed l now in
    if leb l'.limit l'.count then (false, l') else (true, record l' { count = l'.count + 1 })

-- The requests at the given times, one after another: how many are let through.
unfoldable pub allowed : Limiter → List ℕ → ℕ
unfolding allow
allowed l [] = 0
allowed l (now ∷ times) = bit (allow l now).0 + allowed (allow l now).1 times

-- Until its window is over, a limiter lets through what is left of its limit.
allowed_within :
    (l : Limiter) (start : ℕ) (times : List ℕ)
    → l.window ≡ some start
    → l.count ≤ l.limit
    → All (λ now. now < start + second) times
    → allowed l times + l.count ≤ l.limit
unfolding allowed allow
allowed_within l start [] w c h = ground arith
allowed_within l start (now ∷ times) w c h = elim (Bool-cases (leb l.limit l.count)) [
  | inl full ↦ let rest = allowed_within l start times w c h.1 in ground (arith, h.0)
  | inr free ↦
      let rest =
        allowed_within (record l { count = l.count + 1 }) start times w (ground arith) h.1 in
      ground (arith, h.0)
]

before_end :
    (t now : ℕ) (times : List ℕ)
    → t ≤ now
    → All (λ x. (t ≤ x) × (x < t + second)) times
    → All (λ x. x < now + second) times
before_end t now times later h = weaken-All _ _ (λ x (from, until). omega arith) times h

-- Of any requests within one second, those let through and those counted before are at most twice
-- the limit, where at most the limit was counted before.
pub allowed_bounds :
    (l : Limiter) (t : ℕ) (times : List ℕ)
    → l.count ≤ l.limit
    → All (λ now. (t ≤ now) × (now < t + second)) times
    → allowed l times + l.count ≤ 2 * l.limit
unfolding allowed allow
allowed_bounds l t [] c h = ground arith
allowed_bounds l t (now ∷ times) c h = elim (Bool-cases (is_over l.window now)) [
  | inl over ↦
      let (from, until) = h.0 in
      let ahead = before_end t now times from h.1 in
      let l' = record l { window = some now; count = 0 } in
      elim (Bool-cases (leb l.limit 0)) [
        | inl full ↦
            let rest = allowed_within l' now times refl (ground arith) ahead in ground arith
        | inr free ↦
            let rest =
              allowed_within (record l' { count = 1 }) now times refl (ground arith) ahead in
            ground arith
      ]
  | inr open_window ↦ elim (Bool-cases (leb l.limit l.count)) [
    | inl full ↦ let rest = allowed_bounds l t times c h.1 in ground arith
    | inr free ↦
        let rest = allowed_bounds (record l { count = l.count + 1 }) t times (ground arith) h.1 in
        ground arith
  ]
]

-- ===== src/Voice/RateLimit.antt =====
-- The fixed-window rate limit of a device and of an address: backend/app/voice/rate_limit.py and
-- repositories/rate_limit.py. Times are seconds.
use Prim.Native.String.{◌++◌ as ◌<>◌}
use bosimao_release.Prelude.{
  ℕ, ◌+◌, ◌-◌, ◌*◌, ◌/◌, ◌≤◌, max, String, Bool, not, Option, none, some, List, [], ◌∷◌, ◌≡◌, arith,
  ◌=ₛ◌, ◌==◌, ◌&&◌, ltb, if◌then◌else◌, find, keep, length,
}

pub record Bucket : Type 0 where
  pub subject_id : String
  pub route_key : String
  pub window_start : ℕ
  pub count : ℕ

pub record RateLimitConfig : Type 0 where
  pub window_seconds : ℕ
  pub device_limit : ℕ
  pub ip_limit : ℕ

abbrev pub is_bucket : String → String → ℕ → Bucket → Bool
is_bucket subject route window b =
    b.subject_id =ₛ subject && b.route_key =ₛ route && b.window_start == window

-- `INSERT … ON CONFLICT … DO UPDATE SET count = count + 1`
unfoldable pub bump : String → String → ℕ → List Bucket → List Bucket
bump subject route window [] =
    record { subject_id = subject; route_key = route; window_start = window; count = 1 } ∷ []
bump subject route window (b ∷ bs) =
    if is_bucket subject route window b
    then record b { count = b.count + 1 } ∷ bs
    else b ∷ bump subject route window bs

-- `SELECT count …`, with 0 for no row.
abbrev pub count_of : Option Bucket → ℕ
count_of none = 0
count_of (some b) = b.count

abbrev pub count_at : String → String → ℕ → List Bucket → ℕ
count_at subject route window bs = count_of (find (is_bucket subject route window) bs)

-- `increment`: the count after it.
abbrev pub increment : String → String → ℕ → List Bucket → ℕ × List Bucket
increment subject route window bs =
    (let bs' = bump subject route window bs in (count_at subject route window bs', bs'))

-- `purge_expired`
unfoldable pub purge_expired : ℕ → List Bucket → ℕ × List Bucket
purge_expired cutoff bs =
    let left = keep (λ (b : Bucket). not (ltb b.window_start cutoff)) bs in
    (length bs - length left, left)

abbrev pub window_start : RateLimitConfig → ℕ → ℕ
window_start c now = now / c.window_seconds * c.window_seconds

-- `max(1, int(window + window_seconds - now) + 1)`
abbrev pub retry_after : RateLimitConfig → ℕ → ℕ
retry_after c now = max 1 (window_start c now + c.window_seconds - now + 1)

abbrev pub device_key : String → String
device_key subject = "device:" <> subject

abbrev pub ip_key : String → String
ip_key ip = "ip:" <> ip

-- `check`: allowed, or when to try again. The device is counted first, and the address only if the
-- device is within its limit.
unfoldable pub check :
    RateLimitConfig → String → String → String → ℕ → List Bucket → Option ℕ × List Bucket
check c subject ip route now bs =
    let (device_count, bs₁) = increment (device_key subject) route (window_start c now) bs in
    let (ip_count, bs₂) = increment (ip_key ip) route (window_start c now) bs₁ in
    if ltb c.device_limit device_count
    then (some (retry_after c now), bs₁)
    else if ltb c.ip_limit ip_count
    then (some (retry_after c now), bs₂)
    else (none, bs₂)

pub record Request : Type 0 where
  pub subject : String
  pub ip : String
  pub route : String
  pub now : ℕ

abbrev pub is_allowed : Option ℕ → ℕ
is_allowed none = 1
is_allowed (some _) = 0

-- The requests of a subject on a route in a window that are let through.
unfoldable pub device_allowed :
    RateLimitConfig → String → String → ℕ → List Request → List Bucket → ℕ
device_allowed c subject route window [] bs = 0
device_allowed c subject route window (r ∷ rs) bs =
    let (answer, bs') = check c r.subject r.ip r.route r.now bs in
    (if r.subject =ₛ subject && r.route =ₛ route && window_start c r.now == window
      then is_allowed answer
      else 0)
    + device_allowed c subject route window rs bs'

-- The requests of an address that are let through.
unfoldable pub ip_allowed : RateLimitConfig → String → String → ℕ → List Request → List Bucket → ℕ
ip_allowed c ip route window [] bs = 0
ip_allowed c ip route window (r ∷ rs) bs =
    let (answer, bs') = check c r.subject r.ip r.route r.now bs in
    (if r.ip =ₛ ip && r.route =ₛ route && window_start c r.now == window
      then is_allowed answer
      else 0)
    + ip_allowed c ip route window rs bs'

-- One bucket is counted up, and the others stay.
count_at-bump :
    (subject route : String) (window : ℕ) (s r : String) (w : ℕ) (bs : List Bucket)
    → count_at s r w (bump subject route window bs)
      ≡ count_at s r w bs + (if subject =ₛ s && route =ₛ r && window == w then 1 else 0)
unfolding bump
count_at-bump subject route window s r w [] = ground arith
count_at-bump subject route window s r w (b ∷ bs) =
    ground (arith, count_at-bump subject route window s r w bs)

module _ (c : RateLimitConfig) (route : String) (window : ℕ) where
  device_left :
      (subject : String) (rs : List Request) (bs : List Bucket)
      → device_allowed c subject route window rs bs
        ≤ c.device_limit - count_at (device_key subject) route window bs
  unfolding device_allowed check
  device_left subject [] bs = omega arith
  device_left subject (r ∷ rs) bs =
      let w = window_start c r.now in
      let bs₁ = bump (device_key r.subject) r.route w bs in
      let bs₂ = bump (ip_key r.ip) r.route w bs₁ in
      ground (
        arith,
        count_at-bump (device_key r.subject) r.route w (device_key subject) route window bs,
        count_at-bump (ip_key r.ip) r.route w (device_key subject) route window bs₁,
        device_left subject rs bs₁,
        device_left subject rs bs₂,
      )

  ip_left :
      (ip : String) (rs : List Request) (bs : List Bucket)
      → ip_allowed c ip route window rs bs ≤ c.ip_limit - count_at (ip_key ip) route window bs
  unfolding ip_allowed check
  ip_left ip [] bs = omega arith
  ip_left ip (r ∷ rs) bs =
      let w = window_start c r.now in
      let bs₁ = bump (device_key r.subject) r.route w bs in
      let bs₂ = bump (ip_key r.ip) r.route w bs₁ in
      ground (
        arith,
        count_at-bump (device_key r.subject) r.route w (ip_key ip) route window bs,
        count_at-bump (ip_key r.ip) r.route w (ip_key ip) route window bs₁,
        ip_left ip rs bs₁,
        ip_left ip rs bs₂,
      )

-- In each window and on each route, whatever requests come in whatever order and whatever the
-- table holds, no device is let through more often than its limit, and no address more often than
-- the limit of addresses.
pub allowed_limits :
    (c : RateLimitConfig) (route : String) (window : ℕ) (subject ip : String) (rs : List Request)
    (bs : List Bucket)
    → (device_allowed c subject route window rs bs ≤ c.device_limit)
      × (ip_allowed c ip route window rs bs ≤ c.ip_limit)
allowed_limits c route window subject ip rs bs = (
  ground (arith, device_left c route window subject rs bs),
  ground (arith, ip_left c route window ip rs bs),
)

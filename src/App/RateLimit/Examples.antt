-- ===== src/App/RateLimit/Examples.antt =====
-- The theorems about the middleware of backend/main.py at concrete inputs.
use osint_platform_core.Base.{◌+◌, ◌/◌, [], ◌∷◌, ◌≡◌, refl, leb, false}
use osint_platform_core.App.RateLimit.{is_exempt}
use osint_platform_core.App.RateLimit.Minutes.{Hit, hits, call, serve, rate_limit_middleware-hits}

abbrev first : Hit
first = record { now = 125; path = "/api/v1/cases"; ip = "10.0.0.1" }

abbrev second : Hit
second = record { now = 130; path = "/api/v1/cases"; ip = "10.0.0.1" }

limited : is_exempt "/api/v1/cases" ≡ false
unfolding is_exempt
limited = refl

rate_limit_middleware-hits_example :
    (call 1 second (serve 1 (first ∷ []))).0 ≡ leb (hits "10.0.0.1" (130 / 60) (first ∷ []) + 1) 1
rate_limit_middleware-hits_example = rate_limit_middleware-hits 1 second (first ∷ []) limited

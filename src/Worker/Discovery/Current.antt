-- ===== src/Worker/Discovery/Current.antt =====
-- worker/src/discovery.c: the endpoint that is answered after any calls.
use void_os_merger.Base.{
  ℕ, ◌<◌, ◌≡◌, refl, ◌==◌, Bool, true, false, Option, none, some, List, [], ◌∷◌, arith,
  if◌then◌else◌, Bytes, strncpy, take, take_all, length-take_le,
}
use void_os_merger.Worker.Discovery.{
  Context, create, configure, enable_mdns, discovered, start, stop, current, discovery_endpoint_max,
}

pub data Call : Type 0 where
  configures : Bytes → ℕ → Call
  enables : Bool → Call
  starts : Bool → Call
  stops : Call

unfoldable pub step : Call → Context → Context
step (configures endpoint backoff) ctx = configure endpoint backoff ctx
step (enables enable) ctx = enable_mdns enable ctx
step (starts callback) ctx = (start callback ctx).0
step stops ctx = stop ctx

-- The state after calls that are listed with the last one first.
unfoldable pub after : List Call → Context
after [] = create
after (c ∷ cs) = step c (after cs)

-- The same calls, read without a state: the last endpoint configured, whether discovery was enabled last, and
-- what the last start that was not stopped has chosen.
unfoldable pub last_configured : List Call → Bytes
last_configured [] = []
last_configured (configures endpoint backoff ∷ cs) = endpoint
last_configured (_ ∷ cs) = last_configured cs

unfoldable pub last_enabled : List Call → Bool
last_enabled [] = false
last_enabled (enables enable ∷ cs) = enable
last_enabled (_ ∷ cs) = last_enabled cs

unfoldable pub chosen : List Call → Option Bytes
chosen [] = none
chosen (starts callback ∷ cs) = some (if last_enabled cs then discovered else last_configured cs)
chosen (stops ∷ cs) = none
chosen (_ ∷ cs) = chosen cs

after-configured :
    (cs : List Call)
    → (after cs).fallback_endpoint ≡ strncpy discovery_endpoint_max (last_configured cs)
unfolding after step last_configured create configure enable_mdns start stop
after-configured [] = refl
after-configured (configures endpoint backoff ∷ cs) = refl
after-configured (enables enable ∷ cs) = after-configured cs
after-configured (starts callback ∷ cs) = after-configured cs
after-configured (stops ∷ cs) = after-configured cs

after-enabled : (cs : List Call) → (after cs).m_dns_enabled ≡ last_enabled cs
unfolding after step last_enabled create configure enable_mdns start stop
after-enabled [] = refl
after-enabled (configures endpoint backoff ∷ cs) = after-enabled cs
after-enabled (enables enable ∷ cs) = refl
after-enabled (starts callback ∷ cs) = after-enabled cs
after-enabled (stops ∷ cs) = after-enabled cs

-- What is answered, for a buffer of any size above 0.
abbrev pub answer : ℕ → Option Bytes → Option Bytes
answer cap none = none
answer cap (some endpoint) = some (strncpy cap (strncpy discovery_endpoint_max endpoint))

strncpy_twice :
    (s : Bytes)
    → strncpy discovery_endpoint_max (strncpy discovery_endpoint_max s)
      ≡ strncpy discovery_endpoint_max s
strncpy_twice s = take_all 127 (take 127 s) (length-take_le 127 s)

current-start :
    (cap : ℕ) (callback : Bool) (ctx : Context) (endpoint : Bytes) (enabled : Bool)
    → 0 < cap
    → ctx.fallback_endpoint ≡ strncpy discovery_endpoint_max endpoint
    → ctx.m_dns_enabled ≡ enabled
    → current cap (start callback ctx).0
      ≡ answer cap (some (if enabled then discovered else endpoint))
unfolding current start
current-start cap callback ctx endpoint true h e m =
    let nonzero : (cap == 0) ≡ false = ground arith in rw (m, nonzero) refl
current-start cap callback ctx endpoint false h e m =
    let nonzero : (cap == 0) ≡ false = ground arith in
    rw (m, nonzero, e, strncpy_twice endpoint) refl

-- After any calls, a buffer of more than 0 bytes is answered exactly if a start was not stopped since: with
-- the discovered master if discovery was enabled last before that start, else with the endpoint configured
-- last before it, cut to 127 bytes and to the buffer.
pub current-after :
    (cap : ℕ) (cs : List Call) → 0 < cap → current cap (after cs) ≡ answer cap (chosen cs)
unfolding after step chosen create configure enable_mdns stop current
current-after cap [] h = ground arith
current-after cap (configures endpoint backoff ∷ cs) h = current-after cap cs h
current-after cap (enables enable ∷ cs) h = current-after cap cs h
current-after cap (starts callback ∷ cs) h =
    current-start cap callback (after cs) (last_configured cs) (last_enabled cs) h
      (after-configured cs) (after-enabled cs)
current-after cap (stops ∷ cs) h = ground arith

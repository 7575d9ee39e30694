-- ===== src/Worker/Discovery.antt =====
-- worker/src/discovery.c: the endpoint of the master that a worker is told of. `Current` is about the endpoint
-- that it answers with. A callback that is not null stands as true; what it is called with is part of the
-- result of `start`.
pub mod Current
use void_os_merger.Base.{
  ℕ, Bool, true, false, not, Option, none, some, List, [], ◌∷◌, ◌||◌, ◌==◌, if◌then◌else◌, Bytes,
  strncpy,
}

abbrev pub discovery_endpoint_max : ℕ
discovery_endpoint_max = 128

pub data DiscoveryStatus : Type 0 where
  idle searching found fallback lost : DiscoveryStatus

pub record Context : Type 0 where
  pub cached_endpoint : Bytes
  pub fallback_endpoint : Bytes
  pub max_retry_backoff_ms : ℕ
  pub status : DiscoveryStatus
  pub has_callback : Bool
  pub m_dns_enabled : Bool

unfoldable pub create : Context
create = record {
  cached_endpoint = [];
  fallback_endpoint = [];
  max_retry_backoff_ms = 0;
  status = idle;
  has_callback = false;
  m_dns_enabled = false;
}

unfoldable pub configure : Bytes → ℕ → Context → Context
configure endpoint backoff ctx = record ctx {
  fallback_endpoint = strncpy discovery_endpoint_max endpoint;
  max_retry_backoff_ms = backoff;
}

unfoldable pub enable_mdns : Bool → Context → Context
enable_mdns enable ctx = record ctx { m_dns_enabled = enable }

-- "tcp://discovered-master.local:5555".
abbrev pub discovered : Bytes
discovered =
    116 ∷ 99 ∷ 112 ∷ 58 ∷ 47 ∷ 47 ∷ 100 ∷ 105 ∷ 115 ∷ 99 ∷ 111 ∷ 118 ∷ 101 ∷ 114 ∷ 101 ∷ 100 ∷ 45
    ∷ 109 ∷ 97 ∷ 115 ∷ 116 ∷ 101 ∷ 114 ∷ 46 ∷ 108 ∷ 111 ∷ 99 ∷ 97 ∷ 108 ∷ 58 ∷ 53 ∷ 53 ∷ 53 ∷ 53
    ∷ []

-- With the endpoint that the callback is called with, if there is one.
unfoldable pub start : Bool → Context → Context × Option Bytes
start callback ctx =
    let cached =
      strncpy discovery_endpoint_max
        (if ctx.m_dns_enabled then discovered else ctx.fallback_endpoint) in
    (
      record ctx {
        has_callback = callback;
        cached_endpoint = cached;
        status = if ctx.m_dns_enabled then found else fallback;
      },
      if callback then some cached else none,
    )

unfoldable pub stop : Context → Context
stop ctx = record ctx { status = idle; has_callback = false }

abbrev pub is_found : DiscoveryStatus → Bool
is_found found = true
is_found _ = false

abbrev pub is_fallback : DiscoveryStatus → Bool
is_fallback fallback = true
is_fallback _ = false

-- None is the answer -1; `cap` is the size of the buffer.
unfoldable pub current : ℕ → Context → Option Bytes
current cap ctx =
    if cap == 0
    then none
    else if not (is_found ctx.status || is_fallback ctx.status)
    then none
    else some (strncpy cap ctx.cached_endpoint)

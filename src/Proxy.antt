-- ===== src/Proxy.antt =====
-- internal/proxy/proxy_service.go: the list of proxies and the one that works. What the network
-- answers is an argument. An empty text is the direct connection.
pub mod Parse
pub mod Order
pub mod Served
use nyyu_market.Prelude.{
  ℕ, ◌+◌, ◌-◌, ◌*◌, ◌%◌, ◌≤◌, List, [], ◌∷◌, ◌++◌, Bool, true, false, not, ◌&&◌, ◌||◌, Option, none,
  some, if◌then◌else◌, ◌==◌, ltb, leb, length, get_elem?,
}
use nyyu_market.Prelude.Text.{Bytes, codes, bytes_eq}
use nyyu_market.Prelude.Strings.{has_prefix, is_empty, to_lower}
use nyyu_market.Time.{Time, Duration, minute}
use Parse.{parse_proxy_list}

pub record ProxyService : Type 0 where
  pub proxy_list : List Bytes
  pub last_update : Time
  pub working_proxy : Bytes

-- `NewProxyService`
abbrev pub new_proxy_service : ProxyService
new_proxy_service = record { proxy_list = [] ∷ []; last_update = 0; working_proxy = [] }

-- What a request for the list gives: no answer, or a status, the lines that were read, and whether
-- all could be read.
pub data Fetched : Type 0 where
  no_answer : Fetched
  answer : ℕ → List Bytes → Bool → Fetched

pub data FetchError : Type 0 where
  request_failed unexpected_status read_failed no_proxies_found : FetchError

-- `fetchProxies`
unfoldable pub fetch_proxies : Time → Fetched → ProxyService → ProxyService × Option FetchError
fetch_proxies now Fetched.no_answer p = (p, some FetchError.request_failed)
fetch_proxies now (Fetched.answer status lines all_read) p =
    let proxies = parse_proxy_list lines in
    if not (status == 200)
    then (p, some FetchError.unexpected_status)
    else (if not all_read
        then (p, some FetchError.read_failed)
        else (if length proxies == 0
            then (p, some FetchError.no_proxies_found)
            else (record p { proxy_list = proxies; last_update = now }, none)))

unfoldable pub filter : (Bytes → Bool) → List Bytes → List Bytes
filter test [] = []
filter test (p ∷ ps) = let rest = filter test ps in if test p then p ∷ rest else rest

-- `GetProxyList`
unfoldable pub get_proxy_list : ProxyService → List Bytes
get_proxy_list p = p.proxy_list

-- `GetHTTPProxyList`
unfoldable pub get_http_proxy_list : ProxyService → List Bytes
get_http_proxy_list p =
    filter
      (λ proxy.
        is_empty proxy
        || (has_prefix (codes "http://") proxy || has_prefix (codes "https://") proxy))
      p.proxy_list

-- `GetSOCKSProxyList`
unfoldable pub get_socks_proxy_list : ProxyService → List Bytes
get_socks_proxy_list p =
    filter (λ proxy. has_prefix (codes "socks4://") proxy || has_prefix (codes "socks5://") proxy)
      p.proxy_list
    ++ ([] ∷ [])

abbrev pub ends_direct : List Bytes → Bool
ends_direct [] = false
ends_direct (p ∷ []) = is_empty p
ends_direct (p ∷ q ∷ ps) = ends_direct (q ∷ ps)

-- `GetProxyCount`
unfoldable pub get_proxy_count : ProxyService → ℕ
get_proxy_count p =
    if ends_direct p.proxy_list then length p.proxy_list - 1 else length p.proxy_list

pub data Status : Type 0 where
  not_initialized stale no_proxies healthy : Status

abbrev pub update_interval : Duration
update_interval = 30 * minute

-- `getStatus`
unfoldable pub get_status : Time → ProxyService → Status
get_status now p =
    if p.last_update == 0
    then Status.not_initialized
    else (if ltb (update_interval * 2) (now - p.last_update)
        then Status.stale
        else (if get_proxy_count p == 0 then Status.no_proxies else Status.healthy))

pub data HealthError : Type 0 where
  no_proxies_available never_updated list_stale : HealthError

-- `HealthCheck`
unfoldable pub health_check : Time → ProxyService → Option HealthError
health_check now p =
    if leb (length p.proxy_list) 1
    then some HealthError.no_proxies_available
    else (if p.last_update == 0
        then some HealthError.never_updated
        else (if ltb (update_interval * 3) (now - p.last_update)
            then some HealthError.list_stale
            else none))

abbrev pub proxy_at : Option Bytes → Bytes
proxy_at none = []
proxy_at (some p) = p

-- `GetRandomProxy`, from the clock's nanoseconds.
unfoldable pub get_random_proxy : ℕ → ProxyService → Bytes
get_random_proxy unix_nano p =
    if length p.proxy_list == 0
    then []
    else proxy_at (get_elem? p.proxy_list (unix_nano % length p.proxy_list))

-- `GetProxyByType`
unfoldable pub get_proxy_by_type : Bytes → ProxyService → List Bytes
get_proxy_by_type proxy_type p =
    let filtered =
      filter
        (λ proxy.
          not (is_empty proxy) && has_prefix (to_lower proxy_type ++ codes "://") (to_lower proxy))
        p.proxy_list in
    if ltb 0 (length filtered) then filtered ++ ([] ∷ []) else filtered

-- `SetWorkingProxy` and `GetWorkingProxy`
unfoldable pub set_working_proxy : Bytes → ProxyService → ProxyService
set_working_proxy proxy p =
    if bytes_eq p.working_proxy proxy then p else record p { working_proxy = proxy }

abbrev pub get_working_proxy : ProxyService → Bytes
get_working_proxy p = p.working_proxy

-- The working proxy before the others; the list as it is if there is none.
unfoldable pub working_first : Bytes → List Bytes → List Bytes
working_first [] list = list
working_first (c ∷ w) list = (c ∷ w) ∷ filter (λ proxy. not (bytes_eq proxy (c ∷ w))) list

-- `GetProxyListWithWorkingFirst`
unfoldable pub get_proxy_list_with_working_first : ProxyService → List Bytes
unfolding working_first
get_proxy_list_with_working_first p = working_first p.working_proxy p.proxy_list

-- The loop of `GetTestedProxyList`: the first proxy that passes the test.
unfoldable pub first_passing : (Bytes → Bool) → List Bytes → Option Bytes
first_passing test [] = none
first_passing test (p ∷ ps) = let rest = first_passing test ps in if test p then some p else rest

abbrev pub tested : Option Bytes → ProxyService → ProxyService × List Bytes
tested none p = (p, p.proxy_list)
tested (some proxy) p = (record (set_working_proxy proxy p) { proxy_list = proxy ∷ [] }, proxy ∷ [])

-- `GetTestedProxyList`; `test` is what `TestProxy` answers.
unfoldable pub get_tested_proxy_list : (Bytes → Bool) → ProxyService → ProxyService × List Bytes
get_tested_proxy_list test p =
    if is_empty p.working_proxy
    then tested (first_passing test p.proxy_list) p
    else (p, p.working_proxy ∷ [] ∷ [])

-- `GetTestedProxyListWithWorkingFirst`
unfoldable pub get_tested_proxy_list_with_working_first :
    (Bytes → Bool) → ProxyService → ProxyService × List Bytes
get_tested_proxy_list_with_working_first test p =
    let (p', list) = get_tested_proxy_list test p in (p', working_first p'.working_proxy list)

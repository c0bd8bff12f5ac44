-- ===== src/Proxy/Served.antt =====
-- What stays true of the proxies, whatever the services ask for and the network answers.
use nyyu_market.Prelude.{
  ℕ, zero, suc, ◌<◌, List, [], ◌∷◌, Bool, true, false, not, Option, none, some, if◌then◌else◌,
  length, get_elem?, ◌==◌, ◌≡◌, ◌≢◌, ◌∙◌, ap, inl, inr, refl, All, All-append, length-append, arith,
  Bool-cases, subst,
}
use nyyu_market.Prelude.Text.{Bytes, bytes_eq}
use nyyu_market.Prelude.Strings.{is_empty}
use nyyu_market.Time.{Time}
use nyyu_market.Proxy.Parse.{IsProxy, parse_proxy_list, parse_lines, parse_lines-All}
use nyyu_market.Proxy.Order.{filter-All}
use nyyu_market.Proxy.{
  ProxyService, new_proxy_service, Fetched, FetchError, fetch_proxies, proxy_at, set_working_proxy,
  working_first, first_passing, get_proxy_list_with_working_first, get_tested_proxy_list, tested,
  filter,
}
use nyyu_market.Aggregator.Connection.{World, Dialed, dial_with_proxy}
use nyyu_market.Aggregator.Connection.Attempts.{dial_with_proxy-first}

-- What happens to the service: a fetch of the list, a test of the proxies, and a connection with
-- the proxy at some place of the list that services try.
pub data Event : Type 0 where
  fetch : Time → Fetched → Event
  test : (Bytes → Bool) → Event
  connected : ℕ → Event

abbrev pub serve : Event → ProxyService → ProxyService
serve (Event.fetch now fetched) p = (fetch_proxies now fetched p).0
serve (Event.test passes) p = (get_tested_proxy_list passes p).0
serve (Event.connected i) p =
    set_working_proxy (proxy_at (get_elem? (get_proxy_list_with_working_first p) i)) p

unfoldable pub serve_all : List Event → ProxyService → ProxyService
serve_all [] p = p
serve_all (e ∷ es) p = serve_all es (serve e p)

-- There is a list of proxies and direct connections, and so is the working proxy.
pub record IsServing (p : ProxyService) : Type 0 where
  pub some_proxy : 0 < length p.proxy_list
  pub all_proxies : All IsProxy p.proxy_list
  pub working : IsProxy p.working_proxy

at-All : (ps : List Bytes) (i : ℕ) → All IsProxy ps → IsProxy (proxy_at (get_elem? ps i))
at-All [] i h = refl
at-All (p ∷ ps) zero h = h.0
at-All (p ∷ ps) (suc i) h = at-All ps i h.1

working_first-All :
    (w : Bytes) (ps : List Bytes) → IsProxy w → All IsProxy ps → All IsProxy (working_first w ps)
unfolding working_first
working_first-All [] ps h k = k
working_first-All (c ∷ w) ps h k = (h, filter-All IsProxy (λ q. not (bytes_eq q (c ∷ w))) ps k)

first_passing-IsProxy :
    (passes : Bytes → Bool) (ps : List Bytes) {q : Bytes}
    → All IsProxy ps
    → first_passing passes ps ≡ some q
    → IsProxy q
unfolding first_passing
first_passing-IsProxy passes [] h e = cc
first_passing-IsProxy passes (p ∷ ps) {q} h e = elim (Bool-cases (passes p)) [
  | inl t ↦ subst IsProxy (ground (arith, t)) h.0
  | inr n ↦ first_passing-IsProxy passes ps {q = q} h.1 (ground (arith, n))
]

set_working_proxy-IsServing :
    (q : Bytes) (p : ProxyService) → IsProxy q → IsServing p → IsServing (set_working_proxy q p)
unfolding set_working_proxy
set_working_proxy-IsServing q p h w = elim (Bool-cases (bytes_eq p.working_proxy q)) [
  | inl e ↦ rw e w
  | inr n ↦ rw n (record { some_proxy = w.some_proxy; all_proxies = w.all_proxies; working = h })
]

if-IsServing :
    (b : Bool) (x y : ProxyService × Option FetchError)
    → IsServing x.0
    → IsServing y.0
    → IsServing (if b then x else y).0
if-IsServing true x y h k = h
if-IsServing false x y h k = k

parsed-IsServing :
    (now : Time) (lines : List Bytes) (p : ProxyService)
    → IsServing p
    → IsServing (record p { proxy_list = parse_proxy_list lines; last_update = now })
unfolding parse_proxy_list
parsed-IsServing now lines p w = record {
  some_proxy = omega (arith, length-append (parse_lines lines) ([] ∷ []));
  all_proxies = All-append IsProxy (parse_lines lines) ([] ∷ []) (parse_lines-All lines) (refl, tt);
  working = w.working;
}

fetch_proxies-IsServing :
    (now : Time) (fetched : Fetched) (p : ProxyService)
    → IsServing p
    → IsServing (fetch_proxies now fetched p).0
unfolding fetch_proxies
fetch_proxies-IsServing now Fetched.no_answer p w = w
fetch_proxies-IsServing now (Fetched.answer status lines all_read) p w =
    if-IsServing (not (status == 200)) _ _ w (
      if-IsServing (not all_read) _ _ w (
        if-IsServing (length (parse_proxy_list lines) == 0) _ _ w (parsed-IsServing now lines p w)))

tested-IsServing :
    (passes : Bytes → Bool) (p : ProxyService) (o : Option Bytes)
    → first_passing passes p.proxy_list ≡ o
    → IsServing p
    → IsServing (tested o p).0
tested-IsServing passes p none e w = w
tested-IsServing passes p (some q) e w =
    let q-IsProxy = first_passing-IsProxy passes p.proxy_list w.all_proxies e in
    let w' = set_working_proxy-IsServing q p q-IsProxy w in
    record { some_proxy = omega arith; all_proxies = (q-IsProxy, tt); working = w'.working }

serve-IsServing : (e : Event) (p : ProxyService) → IsServing p → IsServing (serve e p)
unfolding get_tested_proxy_list get_proxy_list_with_working_first
serve-IsServing (Event.fetch now fetched) p w = fetch_proxies-IsServing now fetched p w
serve-IsServing (Event.test passes) p w = elim (Bool-cases (is_empty p.working_proxy)) [
  | inl e ↦ rw (e, serve) (tested-IsServing passes p (first_passing passes p.proxy_list) refl w)
  | inr n ↦ rw (n, serve) w
]
serve-IsServing (Event.connected i) p w =
    set_working_proxy-IsServing _ p
      (at-All (working_first p.working_proxy p.proxy_list) i
        (working_first-All p.working_proxy p.proxy_list w.working w.all_proxies))
      w

serve_all-IsServing :
    (es : List Event) (p : ProxyService) → IsServing p → IsServing (serve_all es p)
unfolding serve_all
serve_all-IsServing [] p w = w
serve_all-IsServing (e ∷ es) p w = serve_all-IsServing es (serve e p) (serve-IsServing e p w)

some_first :
    (w : Bytes) (ps : List Bytes)
    → 0 < length ps
    → (q : Bytes) × (qs : List Bytes) × (working_first w ps ≡ q ∷ qs)
unfolding working_first
some_first [] [] h = absurd (omega arith)
some_first [] (p ∷ ps) h = (p, ps, refl)
some_first (c ∷ w) ps h = (c ∷ w, filter (λ q. not (bytes_eq q (c ∷ w))) ps, refl)

dial-some :
    (w : World) (p : Bytes) (ps : List Bytes)
    → w.proxies ≡ some (p ∷ ps)
    → dial_with_proxy w ≢ Dialed.no_proxies_available
dial-some w p ps e h = let first = dial_with_proxy-first w in ground (arith, first, e, h)

-- From its start, and after any fetches of the list, tests of the proxies and connections, whatever
-- the network answered: each entry of the list that services try is the direct connection or a URL
-- that `isValidProxyURL` accepts, and `dialWithProxy` with this list never fails for want of proxies.
pub serve_all-dials :
    (es : List Event) (w : World)
    → let list = get_proxy_list_with_working_first (serve_all es new_proxy_service) in
      w.proxies ≡ some list → All IsProxy list × (dial_with_proxy w ≢ Dialed.no_proxies_available)
unfolding get_proxy_list_with_working_first
serve_all-dials es w e =
    let p = serve_all es new_proxy_service in
    let s =
      serve_all-IsServing es new_proxy_service
        (record { some_proxy = omega arith; all_proxies = (refl, tt); working = refl }) in
    let (q, qs, f) = some_first p.working_proxy p.proxy_list s.some_proxy in
    (
      working_first-All p.working_proxy p.proxy_list s.working s.all_proxies,
      dial-some w q qs (e ∙ ap some f),
    )

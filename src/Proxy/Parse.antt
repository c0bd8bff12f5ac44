-- ===== src/Proxy/Parse.antt =====
-- The list of proxies that internal/proxy/proxy_service.go reads: `parseProxyList` and
-- `isValidProxyURL`. The lines of the response are those of a `bufio.Scanner`; texts are ASCII.
use nyyu_market.Prelude.{
  List, [], ◌∷◌, ◌++◌, Bool, true, false, not, ◌&&◌, ◌||◌, Option, none, some, if◌then◌else◌, ◌==◌,
  length, All, ◌≡◌, arith, Bool-cases, inl, inr,
}
use nyyu_market.Prelude.Text.{Bytes, codes, bytes_eq}
use nyyu_market.Prelude.Strings.{has_prefix, is_empty, cut, contains, trim_space, split, to_lower}

abbrev is_protocol : Bytes → Bool
is_protocol s =
    bytes_eq s (codes "http")
    || (bytes_eq s (codes "https") || (bytes_eq s (codes "socks4") || bytes_eq s (codes "socks5")))

-- The address has a host and a port that is not empty, with one colon between them.
abbrev is_address : List Bytes → Bool
is_address (host ∷ port ∷ []) = not (is_empty port)
is_address _ = false

abbrev is_url : Option (Bytes × Bytes) → Bool
is_url none = false
is_url (some (protocol, address)) =
    is_protocol (to_lower protocol)
    && (contains (codes ":") address && is_address (split b':' address))

-- `isValidProxyURL`
unfoldable pub is_valid_proxy_url : Bytes → Bool
is_valid_proxy_url proxy_url =
    if is_empty proxy_url then false else is_url (cut (codes "://") proxy_url)

-- The URL that a line stands for, if it has the form of one.
abbrev url_of : Bytes → Option Bytes
url_of line =
    if is_empty line || has_prefix (codes "#") line
    then none
    else (if contains (codes "://") line
        then some line
        else (if contains (codes ":") line && (length (split b':' line) == 2)
            then some (codes "socks5://" ++ line)
            else none))

abbrev keep_valid : Option Bytes → List Bytes → List Bytes
keep_valid none rest = rest
keep_valid (some url) rest = if is_valid_proxy_url url then url ∷ rest else rest

unfoldable pub parse_lines : List Bytes → List Bytes
parse_lines [] = []
parse_lines (line ∷ lines) = keep_valid (url_of (trim_space line)) (parse_lines lines)

-- `parseProxyList`, with the direct connection at the end; without its error.
unfoldable pub parse_proxy_list : List Bytes → List Bytes
parse_proxy_list lines = parse_lines lines ++ ([] ∷ [])

-- A direct connection, or a URL that `isValidProxyURL` accepts.
abbrev pub IsProxy : Bytes → Type 0
IsProxy p = (is_empty p || is_valid_proxy_url p) ≡ true

keep_valid-All :
    (o : Option Bytes) (rest : List Bytes) → All IsProxy rest → All IsProxy (keep_valid o rest)
keep_valid-All none rest h = h
keep_valid-All (some url) rest h = elim (Bool-cases (is_valid_proxy_url url)) [
  | inl e ↦ rw e (ground (arith, e), h)
  | inr n ↦ rw n h
]

pub parse_lines-All : (lines : List Bytes) → All IsProxy (parse_lines lines)
unfolding parse_lines
parse_lines-All [] = tt
parse_lines-All (line ∷ lines) = keep_valid-All _ (parse_lines lines) (parse_lines-All lines)

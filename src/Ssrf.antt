-- ===== src/Ssrf.antt =====
-- src/services/upload.rs: the addresses that a fetch may reach, the resolution of a URL to such
-- addresses, and the fetch that follows redirects. URL parsing, DNS and the HTTP client are other
-- libraries' and come as the parameter `Net`; an address is its octets or its 16-bit segments.
pub mod Blocks
pub mod Redirects
pub mod Tests
use almond.Prelude.{
  ℕ, zero, suc, ◌*◌, ◌/◌, ◌%◌, ◌+◌, Bool, true, false, not, ◌&&◌, ◌||◌, Option, none, some, List,
  [], ◌∷◌, codes, leb, ltb, ◌==◌, text_eq, if◌then◌else◌, Bytes, map, length, ◌++◌,
}
use almond.Text.{trim_end_matches, ends_with, trim, starts_with}
use almond.Auth.{to_lower}
use almond.Error.{
  AppResult, ok, err, bad_request, timeout, bad_gateway, payload_too_large, ensure, ◌>>=◌, ◌>>◌,
  or_refuse,
}

pub data IpAddr : Type 0 where
  v4 : (a b c d : ℕ) → IpAddr
  v6 : (s0 s1 s2 s3 s4 s5 s6 s7 : ℕ) → IpAddr

-- `contains` of an inclusive range.
abbrev pub within : ℕ → ℕ → ℕ → Bool
within lo hi n = leb lo n && leb n hi

unfoldable pub is_private_v4 : ℕ → ℕ → ℕ → Bool
is_private_v4 a b c =
    a == 0
    || a == 10
    || a == 127
    || leb 224 a
    || (a == 100 && within 64 127 b)
    || (a == 169 && b == 254)
    || (a == 172 && within 16 31 b)
    || (a == 192 && (b == 0 || b == 168))
    || (a == 192 && b == 0 && c == 2)
    || (a == 198 && (b == 18 || b == 19 || b == 51))
    || (a == 203 && b == 0 && c == 113)

-- `s & mask == value` for the masks of the source, which keep the high bits of 16.
abbrev pub masked : ℕ → ℕ → ℕ → Bool
masked low_bits s value = (s / low_bits) * low_bits == value

abbrev pub all_zero : List ℕ → Bool
all_zero [] = true
all_zero (s ∷ ss) = s == 0 && all_zero ss

-- `to_ipv4_mapped` holds of `::ffff:a.b.c.d`. Loopback is `::1`, multicast `ff00::/8`.
unfoldable pub is_private_ip : IpAddr → Bool
unfolding is_private_v4
is_private_ip (v4 a b c d) = is_private_v4 a b c
is_private_ip (v6 s0 s1 s2 s3 s4 s5 s6 s7) =
    let high = all_zero (s0 ∷ s1 ∷ s2 ∷ s3 ∷ s4 ∷ []) in
    if high && s5 == 0xffff
    then is_private_v4 (s6 / 256) (s6 % 256) (s7 / 256)
    else (high && s5 == 0 && s6 == 0 && s7 == 1)
      || (high && s5 == 0 && s6 == 0 && s7 == 0)
      || masked 256 s0 0xff00
      || masked 64 s0 0xfe80
      || masked 512 s0 0xfc00
      || (s0 == 0x2001 && s1 == 0x0db8)

pub is_fips_hostname : Bytes → Bool
is_fips_hostname host = ends_with (codes ".fips") (map to_lower (trim_end_matches b'.' host))

unfoldable pub is_fips_overlay_ip : IpAddr → Bool
is_fips_overlay_ip (v4 a b c d) = false
is_fips_overlay_ip (v6 s0 s1 s2 s3 s4 s5 s6 s7) = masked 256 s0 0xfd00

pub is_allowed_private_upstream_ip : Bytes → IpAddr → Bool
is_allowed_private_upstream_ip host ip = is_fips_hostname host && is_fips_overlay_ip ip

-- A parsed URL, with the port that it names or that its scheme implies.
pub record Url : Type 0 where
  pub text : Bytes
  pub scheme : Bytes
  pub host : Option Bytes
  pub port : Option ℕ

pub data Lookup : Type 0 where
  timed_out failed : Lookup
  found : List IpAddr → Lookup

pub record ResolvedTarget : Type 0 where
  pub url : Url
  pub host : Bytes
  pub addresses : List IpAddr

-- The answer of one request: an error of the client, or a status with a location.
pub data Response : Type 0 where
  no_answer : Response
  answer : (status : ℕ) (location : Option Bytes) → Response

pub record Net : Type 0 where
  pub parse_url : Bytes → Option Url
  pub lookup_host : Bytes → ℕ → Lookup
  pub send : ResolvedTarget → Response
  pub join : Url → Bytes → Option Bytes

unfoldable pub is_reachable : Bytes → IpAddr → Bool
is_reachable host ip = not (is_private_ip ip) || is_allowed_private_upstream_ip host ip

-- `filter(..).collect()`
unfoldable pub reachable : Bytes → List IpAddr → List IpAddr
reachable host [] = []
reachable host (ip ∷ ips) =
    let rest = reachable host ips in if is_reachable host ip then ip ∷ rest else rest

unfoldable pub addresses_of : Bytes → Lookup → AppResult (List IpAddr)
addresses_of host timed_out = err timeout
addresses_of host failed = err bad_request
addresses_of host (found ips) = ok (reachable host ips)

abbrev pub or_else : Option ℕ → ℕ → ℕ
or_else none d = d
or_else (some n) d = n

unfoldable pub is_allowed_scheme : Bytes → Bytes → Bool
is_allowed_scheme scheme host =
    text_eq scheme (codes "https") || (text_eq scheme (codes "http") && is_fips_hostname host)

unfoldable pub resolve_public_target : Net → Bytes → AppResult ResolvedTarget
resolve_public_target net url = do
  parsed ← or_refuse (net.parse_url url)
  host ← or_refuse parsed.host
  ensure (is_allowed_scheme parsed.scheme host) bad_request
  addresses ← addresses_of host (net.lookup_host host (or_else parsed.port 443))
  ensure (not (length addresses == 0)) bad_request
  ok (record { url = parsed; host = host; addresses = addresses })

unfoldable pub validate_url_for_ssrf : Net → Bytes → AppResult (Unit {0})
validate_url_for_ssrf net url = do target ← resolve_public_target net url; ok tt

-- `normalize_server_url` of src/helpers.rs.
unfoldable pub has_scheme : Bytes → Bool
has_scheme url = starts_with (codes "http://") url || starts_with (codes "https://") url

unfoldable pub normalize_server_url : Bytes → Bytes
unfolding has_scheme
normalize_server_url url =
    let trimmed = trim url in if has_scheme trimmed then trimmed else codes "https://" ++ trimmed

unfoldable pub validate_upstream_url : Net → Bytes → AppResult Bytes
validate_upstream_url net server_url = do
  validate_url_for_ssrf net (normalize_server_url server_url)
  ok (normalize_server_url server_url)

abbrev pub max_redirects : ℕ
max_redirects = 5

-- What one iteration of the fetch decides.
pub data Step : Type 0 where
  done : AppResult Response → Step
  follow : Bytes → Step

abbrev pub joined : Option Bytes → Step
joined none = done (err bad_gateway)
joined (some url) = follow url

abbrev pub redirect : Net → Url → Option Bytes → Step
redirect net url none = done (err bad_gateway)
redirect net url (some location) = joined (net.join url location)

-- `is_success` is 200 to 299, `is_redirection` 300 to 399.
unfoldable pub after_answer : Net → ResolvedTarget → ℕ → Response → Step
after_answer net target redirects no_answer = done (err bad_gateway)
after_answer net target redirects (answer status location) =
    if within 200 299 status
    then done (ok (answer status location))
    else if not (within 300 399 status)
    then done (err bad_gateway)
    else if redirects == max_redirects
    then done (err bad_gateway)
    else redirect net target.url location

-- The iterations that `0..=HTTP_REQUEST_MAX_REDIRECTS` has left, and the targets that were asked.
-- `none` is the `unreachable!` behind the loop.
abbrev Fetched : Type 0
Fetched = List ResolvedTarget × Option (AppResult Response)

abbrev next_round : ResolvedTarget → (Bytes → Fetched) → Step → Fetched
next_round target more (done r) = (target ∷ [], some r)
next_round target more (follow url) = (target ∷ (more url).0, (more url).1)

abbrev round : Net → ℕ → (Bytes → Fetched) → AppResult ResolvedTarget → Fetched
round net redirects more (err e) = ([], some (err e))
round net redirects more (ok target) =
    next_round target more (after_answer net target redirects (net.send target))

unfoldable pub fetch_rounds : Net → ℕ → ℕ → Bytes → Fetched
fetch_rounds net zero redirects url = ([], none)
fetch_rounds net (suc rounds) redirects url =
    round net redirects (fetch_rounds net rounds (redirects + 1)) (resolve_public_target net url)

unfoldable pub fetch_from_url : Net → Bytes → Fetched
fetch_from_url net url = fetch_rounds net (max_redirects + 1) 0 url

-- `check_size_limit`
unfoldable pub check_size_limit : Option ℕ → ℕ → AppResult (Unit {0})
check_size_limit none max_size_bytes = ok tt
check_size_limit (some n) max_size_bytes = ensure (not (ltb max_size_bytes n)) payload_too_large

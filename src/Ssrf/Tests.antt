-- ===== src/Ssrf/Tests.antt =====
-- A host with a private and a public address redirects to another, which answers.
use almond.Auth.{to_lower}
use almond.Text.{ends_with, trim_end_matches}
use almond.Prelude.{
  ◌+◌, ◌*◌, ◌≡◌, refl, true, none, some, Option, [], ◌∷◌, codes, any, text_eq, if◌then◌else◌, arith,
  Bytes, ◌||◌,
}
use almond.Error.{ok, err, bad_request}
use almond.Ssrf.{
  v4, v6, is_private_ip, is_fips_hostname, Url, found, Net, answer, ResolvedTarget, fetch_from_url,
  fetch_rounds, resolve_public_target, reachable, addresses_of, is_allowed_scheme, after_answer,
  is_reachable, is_allowed_private_upstream_ip,
}
use almond.Ssrf.Blocks.{address, special_blocks, wider_blocks, in_block, is_private_ip_blocks}
use almond.Ssrf.Redirects.{IsBounded, fetch_from_url_safe}

abbrev url_of : Bytes → Option Url
url_of text = some (record { text = text; scheme = codes "https"; host = some text; port = none })

abbrev net : Net
net = record {
  parse_url = url_of;
  lookup_host = λ host port.
      found
        (v4 10 0 0 1 ∷ (if text_eq host (codes "c") then v4 127 0 0 1 else v4 93 184 216 34) ∷ []);
  send = λ t. if text_eq t.host (codes "a") then answer 302 (some (codes "b")) else answer 200 none;
  join = λ url location. some location;
}

abbrev target : Bytes → ResolvedTarget
target host = record {
  url = record { text = host; scheme = codes "https"; host = some host; port = none };
  host = host;
  addresses = v4 93 184 216 34 ∷ [];
}

follows :
    fetch_from_url net (codes "a")
    ≡ (target (codes "a") ∷ target (codes "b") ∷ [], some (ok (answer 200 none)))
unfolding fetch_from_url fetch_rounds resolve_public_target is_allowed_scheme text_eq addresses_of
    reachable is_reachable is_private_ip is_allowed_private_upstream_ip is_fips_hostname ends_with
    trim_end_matches to_lower after_answer
follows = refl

refuses : fetch_from_url net (codes "c") ≡ ([], some (err bad_request))
unfolding fetch_from_url fetch_rounds resolve_public_target is_allowed_scheme text_eq addresses_of
    reachable is_reachable is_private_ip is_allowed_private_upstream_ip is_fips_hostname ends_with
    trim_end_matches to_lower
refuses = refl

overlay_names : is_fips_hostname (codes "node.FIPS.") ≡ true
unfolding is_fips_hostname ends_with trim_end_matches text_eq to_lower
overlay_names = refl

fetch_from_url_safe_example : IsBounded 6 (fetch_from_url net (codes "a"))
fetch_from_url_safe_example = fetch_from_url_safe net (codes "a")

is_private_ip_blocks_example :
    (is_private_ip (v4 192 0 66 9) ≡ (
      any (in_block (address 192 0 66 9)) special_blocks
      || any (in_block (address 192 0 66 9)) wider_blocks))
    × (is_private_ip (v6 0 0 0 0 0 0xffff (192 * 256 + 0) (66 * 256 + 9)) ≡ (
        any (in_block (address 192 0 66 9)) special_blocks
        || any (in_block (address 192 0 66 9)) wider_blocks))
is_private_ip_blocks_example =
    is_private_ip_blocks 192 0 66 9 (omega arith) (omega arith) (omega arith) (omega arith)

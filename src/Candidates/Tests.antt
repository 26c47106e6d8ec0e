-- ===== src/Candidates/Tests.antt =====
-- Three tiers, of which two name one server, and an author with a list.
use almond.Text.{starts_with, trim, trim_start, trim_end, trim_end_matches}
use almond.Prelude.{
  ◌+◌, ◌<◌, ◌≡◌, refl, none, some, Option, List, [], ◌∷◌, ◌++◌, codes, arith, Bytes, All, length,
  map, contains_key, insert, text_eq,
}
use almond.Ssrf.{
  v4, Url, found, Net, answer, has_scheme, validate_upstream_url, validate_url_for_ssrf,
  resolve_public_target, is_allowed_scheme, addresses_of, reachable, is_reachable, is_private_ip,
  normalize_server_url,
}
use almond.Candidates.{
  custom_origin, xs_server, configured, Context, Candidate, plan, new, walk, or_default,
  option_list, server_url_candidates, next, drain, fetched, push, push_all, push_candidates,
  take_user_servers, user_hints, candidate,
}
use almond.Candidates.Plans.{first_of_each, hints_of, plan_lem}
use almond.Candidates.Walks.{IsCandidate, IsDistinct, author_hints, walk_ends}

abbrev url_of : Bytes → Option Url
url_of text = some (record { text = text; scheme = codes "https"; host = some text; port = none })

abbrev net : Net
net = record {
  parse_url = url_of;
  lookup_host = λ host port. found (v4 93 184 216 34 ∷ []);
  send = λ t. answer 200 none;
  join = λ url location. some location;
}

abbrev ctx : Context
ctx = record {
  net = net;
  filename = codes "f";
  author_pubkey = some 7;
  fetch_user_server_list = λ key. some (codes "https://a" ∷ codes "https://d/" ∷ []);
}

abbrev xs : Option (List Bytes)
xs = some (codes "https://a" ∷ [])

abbrev servers : List Bytes
servers = codes "https://a" ∷ codes " b" ∷ []

planned :
    plan none xs servers
    ≡ (xs_server, codes "https://a")
      ∷ (configured, codes "https://b")
      ∷ (configured, codes "http://b")
      ∷ []
unfolding plan server_url_candidates has_scheme starts_with trim contains_key insert text_eq
planned = refl

urls_of : Option (List Candidate) → List Bytes
urls_of none = []
urls_of (some cs) = map (λ c. c.url) cs

walked :
    urls_of (walk 9 ctx (new ctx none xs servers))
    ≡ codes "https://a/f" ∷ codes "https://b/f" ∷ codes "http://b/f" ∷ codes "https://d/f" ∷ []
unfolding walk urls_of next new plan server_url_candidates has_scheme starts_with trim contains_key
    insert text_eq validate_upstream_url validate_url_for_ssrf resolve_public_target
    is_allowed_scheme addresses_of reachable is_reachable drain fetched push push_all
    push_candidates take_user_servers user_hints is_private_ip normalize_server_url trim_start
    trim_end trim_end_matches candidate
walked = refl

plan_lem_example :
    plan none xs servers
    ≡ first_of_each (
        hints_of custom_origin (option_list none)
        ++ (hints_of xs_server (or_default xs) ++ hints_of configured servers))
plan_lem_example = plan_lem none xs servers

enough : length (plan none xs servers) + length (author_hints ctx) < 9
unfolding plan push push_all push_candidates server_url_candidates has_scheme starts_with trim
    contains_key insert text_eq fetched user_hints trim_start trim_end
enough = omega arith

walk_ends_example :
    (cs : List Candidate) × (walk 9 ctx (new ctx none xs servers) ≡ some cs)
    × IsDistinct cs
    × All (IsCandidate ctx) cs
walk_ends_example = walk_ends ctx none xs servers 9 enough

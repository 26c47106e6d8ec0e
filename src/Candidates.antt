-- ===== src/Candidates.antt =====
-- src/services/upstream_candidates.rs and `server_url_candidates` of src/helpers.rs: which upstream
-- server is tried next. The author's own server list comes from relays and is a parameter, `none`
-- standing for a failed query. The hash sets hold what was seen.
pub mod Plans
pub mod Walks
pub mod Tests
use almond.Prelude.{
  ℕ, zero, suc, Bool, true, false, Option, none, some, List, [], ◌∷◌, ◌++◌, map, codes,
  if◌then◌else◌, Bytes, HashMap, contains_key, insert, text_eq_instance,
}
use almond.Text.{trim, trim_end_matches}
use almond.Error.{AppResult, ok, err}
use almond.Ssrf.{Net, has_scheme, validate_upstream_url}

pub data Tier : Type 0 where
  custom_origin xs_server configured user_server : Tier

pub record Candidate : Type 0 where
  pub tier : Tier
  pub base : Bytes
  pub url : Bytes

-- A server to try, before its validation.
abbrev pub Hint : Type 0
Hint = Tier × Bytes

abbrev pub Seen : Type 0
Seen = HashMap Bytes (Unit {0})

pub server_url_candidates : Bytes → List Bytes
server_url_candidates url =
    let trimmed = trim url in
    if has_scheme trimmed
    then trimmed ∷ []
    else (codes "https://" ++ trimmed) ∷ (codes "http://" ++ trimmed) ∷ []

-- The locals of `plan`.
pub record Planning : Type 0 where
  pub planned : List Hint
  pub seen : Seen

abbrev push_one : Tier → Bytes → Planning → Planning
push_one tier candidate p =
    if contains_key p.seen candidate
    then p
    else record { planned = p.planned ++ (tier, candidate) ∷ []; seen = insert p.seen candidate tt }

pub push_candidates : Tier → List Bytes → Planning → Planning
push_candidates tier [] p = p
push_candidates tier (c ∷ cs) p = push_candidates tier cs (push_one tier c p)

-- The closure `push`.
pub push : Tier → Bytes → Planning → Planning
unfolding push_candidates
push tier hint p = push_candidates tier (server_url_candidates hint) p

pub push_all : Tier → List Bytes → Planning → Planning
unfolding push
push_all tier [] p = p
push_all tier (hint ∷ hints) p = push_all tier hints (push tier hint p)

abbrev pub or_default : Option (List Bytes) → List Bytes
or_default none = []
or_default (some xs) = xs

abbrev pub option_list : Option Bytes → List Bytes
option_list none = []
option_list (some origin) = origin ∷ []

pub plan : Option Bytes → Option (List Bytes) → List Bytes → List Hint
unfolding push_all
plan origin xs_servers servers =
    let p0 = push_all custom_origin (option_list origin) (record { planned = []; seen = [] }) in
    let p1 = push_all xs_server (or_default xs_servers) p0 in
    (push_all configured servers p1).planned

-- What a walk borrows.
pub record Context : Type 0 where
  pub net : Net
  pub filename : Bytes
  pub author_pubkey : Option ℕ
  pub fetch_user_server_list : ℕ → Option (List Bytes)

pub record Walk : Type 0 where
  pub pending : List Hint
  pub tried : Seen
  pub user_servers_pending : Bool

abbrev is_some {ℓ} : {A : Type ℓ} → Option A → Bool
is_some none = false
is_some (some a) = true

-- `Walk::new`
pub new : Context → Option Bytes → Option (List Bytes) → List Bytes → Walk
new ctx origin xs_servers servers = record {
  pending = plan origin xs_servers servers;
  tried = [];
  user_servers_pending = is_some ctx.author_pubkey;
}

pub candidate : Context → Tier → Bytes → Candidate
candidate ctx tier base = record {
  tier = tier;
  base = base;
  url = trim_end_matches b'/' base ++ b'/' ∷ ctx.filename;
}

-- A hint that is refused, or whose server was tried, is skipped.
try_hint :
    Context
    → Tier
    → List Hint
    → Seen
    → Option Candidate × List Hint × Seen
    → AppResult Bytes
    → Option Candidate × List Hint × Seen
unfolding candidate
try_hint ctx tier pending tried skip (err e) = skip
try_hint ctx tier pending tried skip (ok base) =
    if contains_key tried base
    then skip
    else (some (candidate ctx tier base), pending, insert tried base tt)

-- The loop of `next` while something is pending.
pub drain : Context → List Hint → Seen → Option Candidate × List Hint × Seen
unfolding try_hint
drain ctx [] tried = (none, [], tried)
drain ctx ((tier, hint) ∷ pending) tried =
    try_hint ctx tier pending tried (drain ctx pending tried) (validate_upstream_url ctx.net hint)

pub user_hints : List Bytes → List Hint
user_hints [] = []
user_hints (server ∷ servers) =
    map (λ c. (user_server, c)) (server_url_candidates server) ++ user_hints servers

-- The servers of the author, where there are any.
pub fetched : Context → Option (List Bytes)
fetched ctx = elim ctx.author_pubkey [
  | none ↦ none
  | some pubkey ↦ elim (ctx.fetch_user_server_list pubkey) [
    | none ↦ none
    | some [] ↦ none
    | some (s ∷ servers) ↦ some (s ∷ servers)
  ]
]

add_servers : Walk → Option (List Bytes) → Walk × Bool
unfolding user_hints
add_servers w none = (record w { user_servers_pending = false }, false)
add_servers w (some servers) =
    (record w { user_servers_pending = false; pending = w.pending ++ user_hints servers }, true)

pub take_user_servers : Context → Walk → Walk × Bool
unfolding add_servers
take_user_servers ctx w = if w.user_servers_pending then add_servers w (fetched ctx) else (w, false)

abbrev drained : Context → Walk → Walk × Option Candidate
drained ctx w =
    let (c, pending, tried) = drain ctx w.pending w.tried in
    (record w { pending = pending; tried = tried }, c)

-- With nothing pending, the author's servers are added; after that nothing can be added again.
abbrev next_drained : Context → Walk → Option Candidate → Walk × Option Candidate
next_drained ctx w (some c) = (w, some c)
next_drained ctx w none =
    let (w', added) = take_user_servers ctx w in if added then drained ctx w' else (w', none)

pub next : Context → Walk → Walk × Option Candidate
unfolding drain
next ctx w = let (w', c) = drained ctx w in next_drained ctx w' c

-- A caller's loop: all candidates, unless the fuel runs out.
abbrev pub and_rest : Candidate → Option (List Candidate) → Option (List Candidate)
and_rest c none = none
and_rest c (some cs) = some (c ∷ cs)

abbrev continue :
    Walk × Option Candidate → (Walk → Option (List Candidate)) → Option (List Candidate)
continue (w, none) rest = some []
continue (w, some c) rest = and_rest c (rest w)

pub walk : ℕ → Context → Walk → Option (List Candidate)
walk zero ctx w = none
walk (suc fuel) ctx w = continue (next ctx w) (walk fuel ctx)

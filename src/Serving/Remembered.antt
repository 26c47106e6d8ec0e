-- ===== src/Serving/Remembered.antt =====
-- src/handlers/file_serving.rs: a blob that is said to be missing was missed by a request.
use mathlib.Core.Logic.{inl, inr}
use mathlib.Core.Path.{subst}
use almond.Prelude.{
  ℕ, ◌-◌, ◌<◌, ◌≡◌, sym, Bool, none, some, List, [], ◌∷◌, text_eq, eq_of_text_eq, Bytes, get,
  insert, retain, text_eq_instance, Bool-cases,
}
use almond.Error.{ok}
use almond.Payments.{Cdk}
use almond.Storage.{Storage, Faults}
use almond.Serving.Sources.{
  UpstreamPlan, recently_missing, resolve_blob, upstream_plan, FileRequestQuery,
  cleanup_expired_failed_lookups,
}
use almond.Serving.Requests.{Server, Settings}
use almond.Serving.Misses.{
  Event, requested, cleaned, on_event, after_events, HasMiss, here, there, Memory, handle-Remembers,
}
use almond.Serving.KnownMisses.{resolve-IsKnownMiss}

-- Every entry of a memory is the miss of an event.
abbrev pub IsExplained : Settings → List Event → Memory → Type 0
IsExplained settings events [] = Unit
IsExplained settings events ((hash, at) ∷ m) =
    HasMiss settings hash at events × IsExplained settings events m

module _ (settings : Settings) where
  IsExplained-later :
      (e : Event) (es : List Event) (m : Memory)
      → IsExplained settings es m
      → IsExplained settings (e ∷ es) m
  IsExplained-later e es [] h = tt
  IsExplained-later e es ((hash, at) ∷ m) (h, hs) = (there h, IsExplained-later e es m hs)

  IsExplained-insert :
      (es : List Event) (m : Memory) (hash : Bytes) (at : ℕ)
      → HasMiss settings hash at es
      → IsExplained settings es m
      → IsExplained settings es (insert m hash at)
  unfolding insert
  IsExplained-insert es [] hash at new h = (new, tt)
  IsExplained-insert es ((j, t) ∷ m) hash at new (h, hs) = elim (Bool-cases (text_eq j hash)) [
    | inl same ↦ rw same (
        subst (λ k. HasMiss settings k at es × IsExplained settings es m)
          (sym (eq_of_text_eq j hash same)) (new, hs))
    | inr other ↦ rw other (h, IsExplained-insert es m hash at new hs)
  ]

  IsExplained-retain :
      (es : List Event) (p : Bytes → ℕ → Bool) (m : Memory)
      → IsExplained settings es m
      → IsExplained settings es (retain p m)
  unfolding retain
  IsExplained-retain es p [] h = tt
  IsExplained-retain es p ((j, t) ∷ m) (h, hs) = elim (Bool-cases (p j t)) [
    | inl keeps ↦ rw keeps (h, IsExplained-retain es p m hs)
    | inr drops ↦ rw drops (IsExplained-retain es p m hs)
  ]

  IsExplained-get :
      (es : List Event) (m : Memory) (hash : Bytes) (at : ℕ)
      → IsExplained settings es m
      → get m hash ≡ some at
      → HasMiss settings hash at es
  unfolding get
  IsExplained-get es [] hash at h found = cc
  IsExplained-get es ((j, t) ∷ m) hash at (h, hs) found = elim (Bool-cases (text_eq j hash)) [
    | inl same ↦
        let now : some t ≡ some at = rw same at found in
        let value : t ≡ at = cc now in
        subst (λ k. HasMiss settings k at es) (eq_of_text_eq j hash same)
          (subst (λ v. HasMiss settings j v es) value h)
    | inr other ↦ IsExplained-get es m hash at hs (rw other at found)
  ]

module _ {Token Wallet : Type 0} (cdk : Cdk Token Wallet) (settings : Settings) where
  after_events-IsExplained :
      (server : Server Wallet) (es : List Event)
      → server.failed_upstream_lookups ≡ []
      → IsExplained settings es (after_events cdk settings server es).failed_upstream_lookups
  unfolding after_events on_event cleanup_expired_failed_lookups
  after_events-IsExplained server [] empty = rw empty tt
  after_events-IsExplained server (cleaned now ∷ es) empty =
      IsExplained-retain settings (cleaned now ∷ es) _ _
        (IsExplained-later settings (cleaned now) es _ (after_events-IsExplained server es empty))
  after_events-IsExplained server (requested r ∷ es) empty =
      let before = after_events cdk settings server es in
      let known =
        IsExplained-later settings (requested r) es before.failed_upstream_lookups
          (after_events-IsExplained server es empty) in
      elim (handle-Remembers cdk settings before r) [
        | inl same ↦ subst (IsExplained settings (requested r ∷ es)) (sym same) known
        | inr (hash, miss, same) ↦ subst (IsExplained settings (requested r ∷ es)) (sym same) (
            IsExplained-insert settings (requested r ∷ es) before.failed_upstream_lookups hash
              r.answered_at (here miss) known)
      ]

  -- A server that began with an empty memory answers from it only what it has learnt: if a lookup says
  -- that a blob was missing recently, then its own plan names no servers, and among the requests so far
  -- there is one for this hash whose own plan also names no servers, and that the upstream servers
  -- failed with that plan less than an hour before. A plan names no servers when it has neither an
  -- origin nor a list of servers.
  pub recently_missing-HasMiss :
      (server : Server Wallet) (es : List Event) (io : Faults) (s : Storage) (now : ℕ)
      (hash : Bytes) (q : FileRequestQuery)
      → server.failed_upstream_lookups ≡ []
      → (resolve_blob settings.config io s
          (after_events cdk settings server es).failed_upstream_lookups
          now
          hash
          q).1
        ≡ ok recently_missing
      → (plan : UpstreamPlan) × (upstream_plan settings.config.lookups settings.config.app
            settings.config.feature_custom_upstream_origin_enabled q
          ≡ ok plan)
        × (plan.custom_origin ≡ none)
        × (plan.xs_servers ≡ none)
        × (at : ℕ) × HasMiss settings hash at es
        × (now - at < 3600)
  recently_missing-HasMiss server es io s now hash q empty h =
      let failed = (after_events cdk settings server es).failed_upstream_lookups in
      let k = resolve-IsKnownMiss settings failed now hash q io s h in
      (
        k.plan,
        k.planned_so,
        k.no_origin,
        k.no_servers,
        k.missed_at,
        IsExplained-get settings es failed hash k.missed_at
            (after_events-IsExplained server es empty) k.remembered,
        k.recent,
      )

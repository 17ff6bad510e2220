-- ===== src/Watch/Spec/Safe.antt =====
-- What a text can ask for: which watches may act on a service.
use mathlib.Core.Path.{subst}
use open_light.Base.{
  Bool, ap, ◌∙◌, ◌≡◌, ◌≢◌, ◌⊎◌, inl, inr, refl, true, false, Option, none, some, List, [], ◌∷◌,
  arith, Bool-cases,
}
use open_light.Base.Text.{Text, to_lower, trim_space, is_empty_text, fields}
use open_light.Errors.{ok, >>=-eq-ok}
use open_light.Models.{
  WatchKind, service_down, cpu_high, memory_high, disk_high, temperature_high, is_notify, is_auto,
}
use open_light.Watch.Numerics.{Numerics}
use open_light.Watch.Spec.{
  AddSpec, Change, noise, Word, plain, duration_or_restart, action_none, action_service_restart,
  with_restart, change, port_word, cert_word, service_word, metric_word, metric_spec,
  parse_threshold, options, parse_port, parse_cert, parse_service, port_start, cert_start,
  service_start, service_named,
}
use open_light.Watch.Spec.Loop.{options_keeps}
use open_light.Watch.Spec.Parse.{
  parse_metric, metric_parsed, metric_fields, metric_named, disk_target, skip_marker, parse_fields,
  parse_add_spec,
}

-- A service watch restarts exactly if it does not only notify.
record IsServiceSpec (s : AddSpec) : Type 0 where
  kind : s.kind ≡ service_down
  consent :
      ((is_notify s.reaction_mode ≡ true) × (s.action_type ≡ action_none))
      ⊎ ((is_notify s.reaction_mode ≡ false) × (s.action_type ≡ action_service_restart))

service_change :
    (t : Text) (c : Change) (s : AddSpec)
    → service_word t ≡ plain c
    → IsServiceSpec s
    → IsServiceSpec (change c s)
unfolding service_word change
service_change t noise s e p = p
service_change t c s e p = ground (arith, e)

service_restart :
    (t : Text) (s : AddSpec)
    → service_word t ≡ duration_or_restart
    → IsServiceSpec s
    → IsServiceSpec (with_restart s)
unfolding with_restart
service_restart t s e p = ground arith

-- The other watches take no action on a service, and never act by themselves.
record IsPassive (kind : WatchKind) (s : AddSpec) : Type 0 where
  kind_kept : s.kind ≡ kind
  no_action : s.action_type ≡ action_none
  not_auto : is_auto s.reaction_mode ≡ false

port_change :
    (kind : WatchKind) (t : Text) (c : Change) (s : AddSpec)
    → port_word t ≡ plain c
    → IsPassive kind s
    → IsPassive kind (change c s)
unfolding port_word change
port_change kind t noise s e p = p
port_change kind t c s e p = ground (arith, e)

cert_change :
    (kind : WatchKind) (t : Text) (c : Change) (s : AddSpec)
    → cert_word t ≡ plain c
    → IsPassive kind s
    → IsPassive kind (change c s)
unfolding cert_word change
cert_change kind t noise s e p = p
cert_change kind t c s e p = ground (arith, e)

-- Metric watches only notify.
record IsNotifyOnly (kind : WatchKind) (s : AddSpec) : Type 0 where
  kind_kept : s.kind ≡ kind
  no_action : s.action_type ≡ action_none
  notifies : is_notify s.reaction_mode ≡ true

metric_change :
    (kind : WatchKind) (t : Text) (c : Change) (s : AddSpec)
    → metric_word t ≡ plain c
    → IsNotifyOnly kind s
    → IsNotifyOnly kind (change c s)
unfolding metric_word change
metric_change kind t noise s e p = p
metric_change kind t c s e p = ground (arith, e)

abbrev pub is_metric : WatchKind → Bool
is_metric cpu_high = true
is_metric memory_high = true
is_metric disk_high = true
is_metric temperature_high = true
is_metric _ = false

-- What a new watch may do: the only action is the restart of a service, which only a service watch
-- that asks or acts by itself has; a watch that acts by itself is such a watch; metric watches
-- notify.
pub record IsSafe (s : AddSpec) : Type 0 where
  pub restarts :
      (s.action_type ≡ action_none)
      ⊎ ((s.action_type ≡ action_service_restart)
          × (s.kind ≡ service_down)
          × (is_notify s.reaction_mode ≡ false))
  pub automatic :
      (is_auto s.reaction_mode ≡ false)
      ⊎ ((s.action_type ≡ action_service_restart) × (s.kind ≡ service_down))
  pub metrics : (is_metric s.kind ≡ false) ⊎ (is_notify s.reaction_mode ≡ true)

IsServiceSpec-IsSafe : (s : AddSpec) → IsServiceSpec s → IsSafe s
IsServiceSpec-IsSafe s p = ground arith

IsPassive-IsSafe :
    (kind : WatchKind) (s : AddSpec) → is_metric kind ≡ false → IsPassive kind s → IsSafe s
IsPassive-IsSafe kind s m p = record {
  restarts = inl p.no_action;
  automatic = inl p.not_auto;
  metrics = inl (ap is_metric p.kind_kept ∙ m);
}

IsNotifyOnly-IsSafe : (kind : WatchKind) (s : AddSpec) → IsNotifyOnly kind s → IsSafe s
IsNotifyOnly-IsSafe kind s p = record {
  restarts = inl p.no_action;
  automatic = inl (let q = p.notifies in ground arith);
  metrics = inr p.notifies;
}

module _ (num : Numerics) where
  service_options :
      (target : Text) (rest : List Text) (s : AddSpec)
      → options num service_word (service_start num target) rest ≡ ok s
      → IsServiceSpec s
  service_options target rest s =
      options_keeps num service_word IsServiceSpec service_change service_restart
        (λ d x p. ground arith) (λ d x p. ground arith) (λ n x p. ground arith) rest
        (service_start num target) s (unfold service_start in ground arith)

  named-IsSafe : (t s : AddSpec) → IsServiceSpec t → service_named num t ≡ s → IsSafe s
  unfolding service_named
  named-IsSafe t s p e = subst IsSafe e (IsServiceSpec-IsSafe (service_named num t) (ground arith))

  service-IsSafe : (fs : List Text) (s : AddSpec) → parse_service num fs ≡ ok s → IsSafe s
  unfolding parse_service
  service-IsSafe (first ∷ target ∷ rest) s h =
      elim (Bool-cases (is_empty_text (trim_space target))) [
        | inl e ↦ absurd (ground (arith, h))
        | inr e ↦
            let (t, o, k) =
              >>=-eq-ok (options num service_word (service_start num target) rest) _ {s = s}
                (rw e at h) in
            named-IsSafe t s (service_options target rest t o) (ground (arith, k))
      ]
  service-IsSafe [] s h = cc
  service-IsSafe (first ∷ []) s h = cc

  passive_options :
      (kind : WatchKind) (word : Text → Word) (start s : AddSpec) (rest : List Text)
      → ((t : Text) (c : Change) (x : AddSpec)
          → word t ≡ plain c
          → IsPassive kind x
          → IsPassive kind (change c x))
      → ((t : Text) → word t ≢ duration_or_restart)
      → is_metric kind ≡ false
      → IsPassive kind start
      → options num word start rest ≡ ok s
      → IsSafe s
  passive_options kind word start s rest keep none_restarts m p h = IsPassive-IsSafe kind s m (
      options_keeps num word (IsPassive kind) keep (λ t x e q. absurd (none_restarts t e))
        (λ d x q. ground arith) (λ d x q. ground arith) (λ n x q. ground arith) rest start s p h)

  port-IsSafe : (fs : List Text) (s : AddSpec) → parse_port num fs ≡ ok s → IsSafe s
  port-IsSafe (first ∷ target ∷ rest) s h =
      passive_options WatchKind.port_down port_word (port_start num target) s rest
        (port_change WatchKind.port_down) (λ t. unfold port_word in ground arith) refl
        (unfold port_start in ground arith) (unfold parse_port in h)
  port-IsSafe [] s h = unfold parse_port in cc
  port-IsSafe (first ∷ []) s h = unfold parse_port in cc

  cert-IsSafe : (fs : List Text) (s : AddSpec) → parse_cert num fs ≡ ok s → IsSafe s
  cert-IsSafe (first ∷ target ∷ rest) s h =
      passive_options WatchKind.cert_expiring cert_word (cert_start num target) s rest
        (cert_change WatchKind.cert_expiring) (λ t. unfold cert_word in ground arith) refl
        (unfold cert_start in ground arith) (unfold parse_cert in h)
  cert-IsSafe [] s h = unfold parse_cert in cc
  cert-IsSafe (first ∷ []) s h = unfold parse_cert in cc

  -- What the switch on the metric gives.
  IsMetricSpec : AddSpec → Type 0
  IsMetricSpec s = IsNotifyOnly s.kind s × (is_metric s.kind ≡ true)

  metric_spec-IsMetricSpec :
      (metric : Text) (s : AddSpec) → metric_spec num metric ≡ some s → IsMetricSpec s
  unfolding metric_spec IsMetricSpec
  metric_spec-IsMetricSpec metric s h = ground (arith, h)

  metric_fields_safe :
      (spec s : AddSpec) (fs : List Text)
      → IsNotifyOnly spec.kind spec
      → metric_fields num spec fs ≡ ok s
      → IsNotifyOnly spec.kind s
  unfolding metric_fields
  metric_fields_safe spec s [] p h = cc
  metric_fields_safe spec s (f ∷ rest) p h =
      let (t, _, k) = >>=-eq-ok (parse_threshold num f) _ {s = s} h in
      options_keeps num metric_word (IsNotifyOnly spec.kind) (metric_change spec.kind)
        (λ w x e q. absurd (unfold metric_word in ground (arith, e))) (λ d x q. ground arith)
        (λ d x q. ground arith) (λ n x q. ground arith) rest (record spec { threshold = t }) s
        (ground arith) k

  disk_target_safe :
      (metric : Text) (spec : AddSpec) (fs : List Text)
      → IsMetricSpec spec
      → IsMetricSpec (disk_target metric spec fs).0
  unfolding disk_target IsMetricSpec
  disk_target_safe metric spec [] p = p
  disk_target_safe metric spec (f ∷ fs) p = ground arith

  metric_named-IsSafe :
      (metric : Text) (kind : WatchKind) (t s : AddSpec)
      → IsNotifyOnly kind t
      → metric_named metric t ≡ s
      → IsSafe s
  metric_named-IsSafe metric kind t s p e =
      subst IsSafe e
        (IsNotifyOnly-IsSafe kind (metric_named metric t) (unfold metric_named in ground arith))

  metric_parsed-IsSafe :
      (metric : Text) (rest : List Text) (o : Option AddSpec) (s : AddSpec)
      → metric_spec num metric ≡ o
      → metric_parsed num metric rest o ≡ ok s
      → IsSafe s
  unfolding metric_parsed
  metric_parsed-IsSafe metric rest none s e h = cc
  metric_parsed-IsSafe metric rest (some spec) s e h =
      let start : AddSpec = (disk_target metric spec rest).0 in
      let safe : IsMetricSpec start =
        disk_target_safe metric spec rest (metric_spec-IsMetricSpec metric spec e) in
      let (t, o, k) =
        >>=-eq-ok (metric_fields num start (skip_marker (disk_target metric spec rest).1)) _ {s = s}
          h in
      metric_named-IsSafe metric start.kind t s
        (metric_fields_safe start t (skip_marker (disk_target metric spec rest).1)
          (unfold IsMetricSpec in safe.0) o)
        (ground (arith, k))

  metric-IsSafe : (fs : List Text) (s : AddSpec) → parse_metric num fs ≡ ok s → IsSafe s
  metric-IsSafe [] s h = unfold parse_metric in cc
  metric-IsSafe (first ∷ rest) s h =
      metric_parsed-IsSafe (to_lower (trim_space first)) rest
        (metric_spec num (to_lower (trim_space first))) s refl (unfold parse_metric in h)

  fields-IsSafe : (fs : List Text) (s : AddSpec) → parse_fields num fs ≡ ok s → IsSafe s
  fields-IsSafe [] s h = unfold parse_fields in cc
  fields-IsSafe (first ∷ rest) s h =
      unfold parse_fields in
      ground (
        arith,
        h,
        service-IsSafe (first ∷ rest) s,
        metric-IsSafe (first ∷ rest) s,
        port-IsSafe (first ∷ rest) s,
        cert-IsSafe (first ∷ rest) s,
      )

  -- Every text that the parser accepts, whatever its words, asks for a watch that takes no action or
  -- restarts a service, and then it is a service watch that does more than notify; only such a watch
  -- acts by itself, and a watch of a metric only notifies.
  pub parse_add_spec-IsSafe : (raw : Text) {s : AddSpec} → parse_add_spec num raw ≡ ok s → IsSafe s
  parse_add_spec-IsSafe raw {s} h =
      fields-IsSafe (fields (trim_space raw)) s (unfold parse_add_spec in h)

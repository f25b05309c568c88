-- ===== src/Watch/Loop/Reports.antt =====
-- How often `watchService` of watch/watch.go calls `childReady`.
use consul_timeline.Common.{
  ℕ, ◌+◌, ◌≡◌, refl, sym, ap, ◌∙◌, Bool, true, false, ◌&&◌, Option, none, some, List, [], ◌∷◌,
  if◌then◌else◌, if_ind, arith, Bool-cases, inl, inr,
}
use consul_timeline.Common.Text.{Text, text_eq}
use consul_timeline.Common.Assoc.{RangeOrder}
use consul_timeline.Timeline.Status.{ConsulApi}
use consul_timeline.Consul.{HealthCheck, CheckServiceNode, Registration}
use consul_timeline.Watch.Compare.{InstanceKey, key_eq}
use consul_timeline.Watch.Service.{Watcher, Sink}
use consul_timeline.Watch.Loop.{
  Turn, stops, ends, fails, replies, has_reply, ServiceWatch, with_sink, service_sink, after_reply,
  service_round, watch_service,
}

module _ (api : ConsulApi) (order : RangeOrder Text HealthCheck)
    (instance_order : RangeOrder InstanceKey Registration) (w : Watcher) (count_ready : Bool) where
  with_sink-some :
      (s t : ServiceWatch) (o : Option Sink)
      → with_sink s o ≡ some t
      → (t.first ≡ s.first) × (t.reported ≡ s.reported) × (t.running ≡ s.running)
  with_sink-some s t none h = absurd (cc)
  with_sink-some s t (some k) h =
      let e : record s { sink = k } ≡ t = cc h in
      (ap (λ u. u.first) (sym e), ap (λ u. u.reported) (sym e), ap (λ u. u.running) (sym e))

  -- A running loop takes its first turn, and goes on from there.
  watch_service-cons :
      (s u : ServiceWatch) (t : Turn (List CheckServiceNode))
      (ts : List (Turn (List CheckServiceNode)))
      → s.running ≡ true
      → watch_service api order instance_order w count_ready s (t ∷ ts) ≡ some u
      → (v : ServiceWatch) × (service_round api order instance_order w count_ready s t ≡ some v)
        × (watch_service api order instance_order w count_ready v ts ≡ some u)
  unfolding watch_service
  watch_service-cons s u t ts r h =
      go (service_round api order instance_order w count_ready s t) refl (
        let q : (elim (service_round api order instance_order w count_ready s t) [
          | none ↦ none
          | some v ↦ watch_service api order instance_order w count_ready v ts
        ])
            ≡ some u =
          rw r at h in
        q)
    where
      go :
          (o : Option ServiceWatch)
          → service_round api order instance_order w count_ready s t ≡ o
          → (elim o [
            | none ↦ none
            | some v ↦ watch_service api order instance_order w count_ready v ts
          ])
            ≡ some u
          → (v : ServiceWatch) × (service_round api order instance_order w count_ready s t ≡ some v)
            × (watch_service api order instance_order w count_ready v ts ≡ some u)
      go none e k = absurd (cc)
      go (some v) e k = (v, e, k)

  watch_service-ended :
      (s u : ServiceWatch) (ts : List (Turn (List CheckServiceNode)))
      → s.running ≡ false
      → watch_service api order instance_order w count_ready s ts ≡ some u
      → u.reported ≡ s.reported
  unfolding watch_service
  watch_service-ended s u [] r h = let e : s ≡ u = cc h in ap (λ x. x.reported) (sym e)
  watch_service-ended s u (t ∷ ts) r h =
      if_ind (λ o. o ≡ some u → u.reported ≡ s.reported) s.running _ (some s) (λ k. absurd (cc))
        (λ _ k. let e : s ≡ u = cc k in ap (λ x. x.reported) (sym e)) h

  service_round-steady :
      (s u : ServiceWatch) (t : Turn (List CheckServiceNode))
      → s.first ≡ false
      → service_round api order instance_order w count_ready s t ≡ some u
      → (u.first ≡ false) × (u.reported ≡ s.reported)
  unfolding service_round
  service_round-steady s u (stops at) f h =
      let (a, b, c) = with_sink-some (record s { running = false }) u (some _) h in (a ∙ f, b)
  service_round-steady s u ends f h =
      let (a, b, c) = with_sink-some (record s { running = false }) u (some s.sink) h in (a ∙ f, b)
  service_round-steady s u (fails goes_on) f h =
      let (a, b, c) = with_sink-some (record s { running = goes_on }) u (some s.sink) h in
      (a ∙ f, b)
  service_round-steady s u (replies at index nodes) f h =
      let (a, b, c) =
        with_sink-some (after_reply api order instance_order w count_ready s index nodes) u
          (service_sink api order instance_order w count_ready s at index nodes) h in
      (a, b ∙ ground (arith, f))

  -- After the first successful fetch nothing is reported any more.
  watch_service-steady :
      (s u : ServiceWatch) (ts : List (Turn (List CheckServiceNode)))
      → s.first ≡ false
      → watch_service api order instance_order w count_ready s ts ≡ some u
      → u.reported ≡ s.reported
  unfolding watch_service
  watch_service-steady s u [] f h = let e : s ≡ u = cc h in ap (λ x. x.reported) (sym e)
  watch_service-steady s u (t ∷ ts) f h = elim (Bool-cases s.running) [
    | inr r ↦ watch_service-ended s u (t ∷ ts) r h
    | inl r ↦
        let (v, p, q) = watch_service-cons s u t ts r h in
        let (a, b) = service_round-steady s v t f p in watch_service-steady v u ts a q ∙ b
  ]

  -- However the fetches of a service go, as long as no entry makes the loop panic, a watch that has
  -- just started calls `childReady` once if it counts for readiness and a fetch succeeds before the
  -- loop ends, and not at all otherwise: a failed fetch does not count.
  pub watch_service-reports :
      (s u : ServiceWatch) (ts : List (Turn (List CheckServiceNode)))
      → s.first ≡ true
      → s.running ≡ true
      → watch_service api order instance_order w count_ready s ts ≡ some u
      → u.reported ≡ s.reported + (if count_ready && has_reply ts then 1 else 0)
  unfolding watch_service service_round
  watch_service-reports s u [] f r h =
      let e : s ≡ u = cc h in omega (arith, ap (λ x. x.reported) e, none_counts count_ready)
    where
      none_counts : (b : Bool) → ◌≡◌ {A = ℕ} (if b && false then 1 else 0) 0
      none_counts b = ground arith
  watch_service-reports s u (stops at ∷ ts) f r h =
      let (v, p, q) = watch_service-cons s u (stops at) ts r h in
      let (a, b, c) = with_sink-some (record s { running = false }) v (some _) p in
      ground (arith, b, watch_service-ended v u ts c q)
  watch_service-reports s u (ends ∷ ts) f r h =
      let (v, p, q) = watch_service-cons s u ends ts r h in
      let (a, b, c) = with_sink-some (record s { running = false }) v (some s.sink) p in
      ground (arith, b, watch_service-ended v u ts c q)
  watch_service-reports s u (fails true ∷ ts) f r h =
      let (v, p, q) = watch_service-cons s u (fails true) ts r h in
      let (a, b, c) = with_sink-some (record s { running = true }) v (some s.sink) p in
      watch_service-reports v u ts (a ∙ f) c q
      ∙ ap (λ (n : ℕ). n + (if count_ready && has_reply ts then 1 else 0)) b
  watch_service-reports s u (fails false ∷ ts) f r h =
      let (v, p, q) = watch_service-cons s u (fails false) ts r h in
      let (a, b, c) = with_sink-some (record s { running = false }) v (some s.sink) p in
      ground (arith, b, watch_service-ended v u ts c q)
  watch_service-reports s u (replies at index nodes ∷ ts) f r h =
      let (v, p, q) = watch_service-cons s u (replies at index nodes) ts r h in
      let (a, b, c) =
        with_sink-some (after_reply api order instance_order w count_ready s index nodes) v
          (service_sink api order instance_order w count_ready s at index nodes) p in
      ground (arith, b, f, watch_service-steady v u ts a q)

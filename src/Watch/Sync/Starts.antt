-- ===== src/Watch/Sync/Starts.antt =====
-- Which watches `syncServices` of watch/watch.go starts and stops.
use consul_timeline.Common.{
  ℕ, ◌+◌, ◌≡◌, refl, sym, ap, ◌∙◌, append-nil, append_assoc, true, false, ◌&&◌, not, List, [], ◌∷◌,
  ◌++◌, if◌then◌else◌, if_ind, keep, arith, Bool-cases, inl, inr,
}
use consul_timeline.Common.Text.{Text, text_eq, text_beq, text_beq_iff}
use consul_timeline.Watch.Sync.{
  Services, has, has-append, has-sync_services, start_services, stop_services, sync_services,
}

-- How often a name stands in a list.
abbrev pub count : Text → List Text → ℕ
count name [] = 0
count name (n ∷ ns) = (if text_beq n name then 1 else 0) + count name ns

count-append :
    (name : Text) (ns ms : List Text) → count name (ns ++ ms) ≡ count name ns + count name ms
count-append name [] ms = omega arith
count-append name (n ∷ ns) ms = omega (arith, count-append name ns ms)

-- Those that are not listed.
count-keep :
    (listed : List Text) (name : Text) (ns : List Text)
    → count name (keep (λ n. not (has listed n)) ns)
      ≡ (if has listed name then 0 else count name ns)
count-keep listed name [] = ground arith
count-keep listed name (n ∷ ns) = elim (Bool-cases (text_beq n name)) [
  | inl e ↦
      ground (arith, e, ap (has listed) ((text_beq_iff n name).0 e), count-keep listed name ns)
  | inr e ↦ ground (arith, e, count-keep listed name ns)
]

-- What the first loop starts: every name of the reply that the map does not hold, once.
abbrev Starts : List Text → Services → Services → Type 0
Starts ns s t =
    (starts : List Text) × ((t.started ≡ s.started ++ starts)
      × ((t.names ≡ s.names ++ starts)
          × ((t.stopped ≡ s.stopped)
              × ((name : Text)
                  → count name starts ≡ (if has ns name && not (has s.names name) then 1 else 0)))))

start_services-Starts :
    (ns : List Text) (s : Services) (added : ℕ) → Starts ns s (start_services ns s added).0
unfolding start_services has
start_services-Starts [] s added =
    ([], (sym (append-nil s.started), (sym (append-nil s.names), (refl, λ name. refl))))
start_services-Starts (n ∷ ns) s added =
    let t : Services = record s { names = s.names ++ (n ∷ []); started = s.started ++ (n ∷ []) } in
    if_ind (λ (p : Services × ℕ). Starts (n ∷ ns) s p.0) (has s.names n) (start_services ns s added)
      (start_services ns t (added + 1))
      (λ k.
        let (starts, (a, (b, (c, d)))) = start_services-Starts ns s added in
        (starts, (a, (b, (c, λ name. d name ∙ held k name)))))
      (λ k.
        let (starts, (a, (b, (c, d)))) = start_services-Starts ns t (added + 1) in
        (
          n ∷ starts,
          (
            a ∙ append_assoc s.started (n ∷ []) starts,
            (b ∙ append_assoc s.names (n ∷ []) starts, (c, λ name. fresh k name _ (d name))),
          ),
        ))
  where
    held :
        has s.names n ≡ true
        → (name : Text)
        → ◌≡◌ {A = ℕ}
            (if has ns name && not (has s.names name) then 1 else 0)
            (if has (n ∷ ns) name && not (has s.names name) then 1 else 0)
    held k name = elim (Bool-cases (text_beq n name)) [
      | inl e ↦ ground (arith, e, k, ap (has s.names) ((text_beq_iff n name).0 e))
      | inr e ↦ ground (arith, e)
    ]

    fresh :
        has s.names n ≡ false
        → (name : Text) (i : ℕ)
        → i ≡ (if has ns name && not (has (s.names ++ (n ∷ [])) name) then 1 else 0)
        → (if text_beq n name then 1 else 0) + i
          ≡ (if has (n ∷ ns) name && not (has s.names name) then 1 else 0)
    fresh k name i h = elim (Bool-cases (text_beq n name)) [
      | inl e ↦ ground (
        arith,
        e,
        k,
        h,
        ap (has s.names) ((text_beq_iff n name).0 e),
        has-append s.names (n ∷ []) name,
      )
      | inr e ↦ ground (arith, e, h, has-append s.names (n ∷ []) name)
    ]

-- When a service list is taken in: exactly the listed services have a watch then; a watch is started,
-- once, for each listed service that had none, and stopped for each service that is listed no more,
-- as often as the map held it; and no other watch is started or stopped.
pub sync_services-Starts :
    (listed : List Text) (s : Services)
    → (starts : List Text) × ((stops : List Text) × (((sync_services listed s).0.started
            ≡ s.started ++ starts)
          × (((sync_services listed s).0.stopped ≡ s.stopped ++ stops)
              × ((name : Text)
                  → (has (sync_services listed s).0.names name ≡ has listed name)
                    × ((count name starts
                          ≡ (if has listed name && not (has s.names name) then 1 else 0))
                        × (count name stops
                            ≡ (if has listed name then 0 else count name s.names)))))))
unfolding sync_services stop_services
sync_services-Starts listed s =
    let (starts, (a, (b, (c, d)))) = start_services-Starts listed s 0 in
    let names : List Text = (start_services listed s 0).0.names in
    (
      starts,
      (
        keep (λ n. not (has listed n)) names,
        (
          a,
          (
            ap (λ l. l ++ keep (λ n. not (has listed n)) names) c,
            λ name. (
              has-sync_services listed s name,
              (
                d name,
                ground (
                  arith,
                  count-keep listed name names,
                  ap (count name) b,
                  count-append name s.names starts,
                  d name,
                ),
              ),
            ),
          ),
        ),
      ),
    )

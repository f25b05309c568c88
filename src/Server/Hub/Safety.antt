-- ===== src/Server/Hub/Safety.antt =====
-- The hub of server/stream.go never sends on a closed channel and closes none twice.
use consul_timeline.Common.{
  ℕ, zero, suc, ◌≤◌, ◌≡◌, refl, ap, Bool, true, false, Option, some, List, [], ◌∷◌, ◌++◌, ltb,
  length, modify, All, All-append, length-append, arith, inl, inr, Bool-cases, if_ind,
}
use consul_timeline.Common.Text.{Text}
use consul_timeline.Timeline.Event.{Event}
use consul_timeline.Storage.Query.{Query}
use consul_timeline.Storage.Match.{matches}
use consul_timeline.Server.Hub.{
  Client, Hub, new_hub, client_buffer, for_all, deliver, publish, new_client, leave, cancel,
  read_channel, check_overflow, serve_client, close_client, close, Call, publishes, subscribes,
  serves, disconnects, closes, step, run,
}

-- A member of the hub has an open channel, and no member is left when the hub is closed. No channel
-- holds more than its capacity.
pub record IsSafeClient (closed : Bool) (c : Client) : Type 0 where
  pub open_member : c.member ≡ true → c.open_channel ≡ true
  pub left : closed ≡ true → c.member ≡ false
  pub bounded : length c.buffer ≤ client_buffer

abbrev pub IsSafe : Hub → Type 0
IsSafe h = All (IsSafeClient h.closed) h.clients

module _ (P Q : Client → Type 0) (f : Client → Option Client)
    (each : (c : Client) → P c → (d : Client) × (f c ≡ some d) × Q d) where
  for_all-All :
      (cs : List Client) → All P cs → (ds : List Client) × (for_all f cs ≡ some ds) × All Q ds
  unfolding for_all
  for_all-All [] h = ([], refl, tt)
  for_all-All (c ∷ cs) h =
      let (d, e, q) = each c h.0 in
      let (ds, es, qs) = for_all-All cs h.1 in (d ∷ ds, rw (e, es, for_all) refl, (q, qs))

modify-All :
    (P : Client → Type 0) (f : Client → Client) (each : (c : Client) → P c → P (f c))
    (cs : List Client) (i : ℕ)
    → All P cs
    → All P (modify cs i f)
modify-All P f each [] i h = tt
modify-All P f each (c ∷ cs) zero h = (each c h.0, h.1)
modify-All P f each (c ∷ cs) (suc i) h = (h.0, modify-All P f each cs i h.1)

leave-IsSafe : (closed : Bool) (c : Client) → IsSafeClient closed c → IsSafeClient closed (leave c)
unfolding leave
leave-IsSafe closed c v = record {
  open_member = λ h. absurd (cc);
  left = λ h. refl;
  bounded = v.bounded;
}

read_channel-IsSafe :
    (closed : Bool) (c : Client) (b : List Event)
    → IsSafeClient closed c
    → c.buffer ≡ b
    → IsSafeClient closed (read_channel c b)
unfolding read_channel
read_channel-IsSafe closed c [] v h =
    if_ind (IsSafeClient closed) c.open_channel c (leave c) (λ _. v) (λ _. leave-IsSafe closed c v)
read_channel-IsSafe closed c (e ∷ rest) v h =
    let bound : length rest ≤ client_buffer = omega (arith, v.bounded, ap length h) in
    record { open_member = v.open_member; left = v.left; bounded = bound }

check_overflow-IsSafe :
    (closed : Bool) (c : Client) → IsSafeClient closed c → IsSafeClient closed (check_overflow c)
unfolding check_overflow leave
check_overflow-IsSafe closed c v =
    if_ind (IsSafeClient closed) c.overflow _ _
      (λ _. record { open_member = λ h. absurd (cc); left = λ h. refl; bounded = v.bounded })
      (λ _. record { open_member = v.open_member; left = v.left; bounded = v.bounded })

cancel-IsSafe :
    (closed : Bool) (c : Client) → IsSafeClient closed c → IsSafeClient closed (cancel c)
unfolding cancel
cancel-IsSafe closed c v =
    if_ind (IsSafeClient closed) c.checking c (leave c) (λ _. v) (λ _. leave-IsSafe closed c v)

serve_client-IsSafe :
    (closed : Bool) (c : Client) → IsSafeClient closed c → IsSafeClient closed (serve_client c)
unfolding serve_client
serve_client-IsSafe closed c v =
    if_ind (IsSafeClient closed) c.serving _ c
      (λ _.
        if_ind (IsSafeClient closed) c.checking (check_overflow c) (read_channel c c.buffer)
          (λ _. check_overflow-IsSafe closed c v)
          (λ _. read_channel-IsSafe closed c c.buffer v refl))
      (λ _. v)

close_client-IsSafe :
    (closed : Bool) (c : Client)
    → IsSafeClient closed c
    → (d : Client) × (close_client c ≡ some d) × IsSafeClient true d
unfolding close_client
close_client-IsSafe closed c v = elim (Bool-cases c.member) [
  | inr m ↦
      (c, rw m refl, record { open_member = v.open_member; left = λ _. m; bounded = v.bounded })
  | inl m ↦ (
    record c { open_channel = false; member = false },
    rw (m, v.open_member m) refl,
    record { open_member = λ h. absurd (cc); left = λ _. refl; bounded = v.bounded },
  )
]

pub new_client-IsSafe : (q : Query) (closed : Bool) → IsSafeClient closed (new_client q closed)
new_client-IsSafe q closed = record {
  open_member = λ h. h;
  left = λ h. ground (arith, h);
  bounded = omega arith;
}

module _ (to_lower : Text → Text) where
  deliver-IsSafe :
      (e : Event) (c : Client)
      → IsSafeClient false c
      → (d : Client) × (deliver to_lower e c ≡ some d) × IsSafeClient false d
  unfolding deliver
  deliver-IsSafe e c v = elim (Bool-cases c.member) [
    | inr m ↦ (c, rw m refl, v)
    | inl m ↦ elim (Bool-cases (matches to_lower e c.query)) [
      | inr t ↦ (c, rw (m, t) refl, v)
      | inl t ↦ elim (Bool-cases (ltb (length c.buffer) client_buffer)) [
        | inl b ↦ (
          record c { buffer = c.buffer ++ (e ∷ []) },
          rw (m, t, v.open_member m, b) refl,
          record {
            open_member = v.open_member;
            left = v.left;
            bounded = rw (length-append c.buffer (e ∷ [])) (ground arith);
          },
        )
        | inr b ↦ (
          record c { overflow = true },
          rw (m, t, v.open_member m, b) refl,
          record { open_member = v.open_member; left = v.left; bounded = v.bounded },
        )
      ]
    ]
  ]

  publish-IsSafe :
      (e : Event) (closed : Bool) (cs : List Client)
      → All (IsSafeClient closed) cs
      → (g : Hub) × (publish to_lower e (record { clients = cs; closed = closed }) ≡ some g)
        × IsSafe g
  unfolding publish
  publish-IsSafe e true cs v = (record { clients = cs; closed = true }, refl, v)
  publish-IsSafe e false cs v =
      let (ds, p, q) =
        for_all-All (IsSafeClient false) (IsSafeClient false) (deliver to_lower e)
          (deliver-IsSafe e) cs v in
      (record { clients = ds; closed = false }, rw p refl, q)

  pub step-IsSafe :
      (h : Hub) (c : Call) → IsSafe h → (g : Hub) × (step to_lower h c ≡ some g) × IsSafe g
  unfolding step
  step-IsSafe h (publishes e) v = publish-IsSafe e h.closed h.clients v
  step-IsSafe h (subscribes q) v = (
    _,
    refl,
    All-append (IsSafeClient h.closed) h.clients (new_client q h.closed ∷ []) v
        (new_client-IsSafe q h.closed, tt),
  )
  step-IsSafe h (serves i) v = (
    _,
    refl,
    modify-All (IsSafeClient h.closed) serve_client (serve_client-IsSafe h.closed) h.clients i v,
  )
  step-IsSafe h (disconnects i) v =
      (_, refl, modify-All (IsSafeClient h.closed) cancel (cancel-IsSafe h.closed) h.clients i v)
  step-IsSafe h closes v =
      let (ds, p, q) =
        for_all-All (IsSafeClient h.closed) (IsSafeClient true) close_client
          (close_client-IsSafe h.closed) h.clients v in
      (record { clients = ds; closed = true }, rw (p, close) refl, q)

  run-IsSafe :
      (h : Hub) (cs : List Call) → IsSafe h → (g : Hub) × (run to_lower h cs ≡ some g) × IsSafe g
  unfolding run
  run-IsSafe h [] v = (h, refl, v)
  run-IsSafe h (c ∷ cs) v =
      let (g, p, w) = step-IsSafe h c v in
      let (k, q, u) = run-IsSafe g cs w in (k, rw (p, run) q, u)

  -- From a new hub on, no sequence of publications, subscriptions, stream steps, disconnections and closes
  -- sends on a closed channel or closes one twice, which would panic; no channel ever holds more
  -- than its capacity; every member's channel is open, and a closed hub has no member.
  pub run_never_panics :
      (cs : List Call) → (g : Hub) × (run to_lower new_hub cs ≡ some g) × IsSafe g
  run_never_panics cs = run-IsSafe new_hub cs tt

-- ===== src/Server/Hub/Delivery.antt =====
-- What a client of server/stream.go is sent: no matching event is lost unless the overflow is marked.
use consul_timeline.Common.{
  ℕ, zero, suc, ◌≡◌, ◌⊎◌, refl, sym, ap, subst, ◌∙◌, Bool, true, false, not, Option, none, some,
  List, [], ◌∷◌, ◌++◌, ltb, length, modify, get_elem?, keep, keep-append, All, arith, inl, inr,
  if_ind, append-nil, append_assoc,
}
use consul_timeline.Common.Text.{Text}
use consul_timeline.Timeline.Event.{Event}
use consul_timeline.Storage.Match.{matches}
use consul_timeline.Server.Hub.{
  Client, Hub, client_buffer, for_all, deliver, publish, subscribe, leave, cancel, disconnect, both,
  read_channel, check_overflow, serve_client, serve, close_client, close, Call, publishes,
  subscribes, serves, disconnects, closes, step, run,
}
use consul_timeline.Server.Hub.Safety.{IsSafe, IsSafeClient, step-IsSafe}

-- The events that some calls publish.
pub published : List Call → List Event
published [] = []
published (publishes e ∷ cs) = e ∷ published cs
published (subscribes q ∷ cs) = published cs
published (serves i ∷ cs) = published cs
published (disconnects i ∷ cs) = published cs
published (closes ∷ cs) = published cs

both-some :
    (o : Option Client) (p : Option (List Client)) (ds : List Client)
    → both o p ≡ some ds
    → (x : Client) × (xs : List Client) × (o ≡ some x) × (p ≡ some xs) × (ds ≡ x ∷ xs)
both-some none p ds h = absurd (cc)
both-some (some x) none ds h = absurd (cc)
both-some (some x) (some xs) ds h = (x, xs, refl, refl, cc)

get_elem?-for_all :
    (f : Client → Option Client) (cs ds : List Client) (i : ℕ) (c : Client)
    → for_all f cs ≡ some ds
    → get_elem? cs i ≡ some c
    → (d : Client) × (get_elem? ds i ≡ some d) × (f c ≡ some d)
unfolding for_all
get_elem?-for_all f [] ds i c h k = absurd (cc)
get_elem?-for_all f (x ∷ cs) ds zero c h k =
    let (y, ys, p, q, r) = both-some (f x) (for_all f cs) ds h in
    (y, ap (λ l. get_elem? l 0) r, ap f (let e : c ≡ x = cc k in e) ∙ p)
get_elem?-for_all f (x ∷ cs) ds (suc i) c h k =
    let (y, ys, p, q, r) = both-some (f x) (for_all f cs) ds h in
    let (d, u, v) = get_elem?-for_all f cs ys i c q k in (d, ap (λ l. get_elem? l (suc i)) r ∙ u, v)

get_elem?-modify :
    (f : Client → Client) (cs : List Client) (i j : ℕ) (c : Client)
    → get_elem? cs i ≡ some c
    → (get_elem? (modify cs j f) i ≡ some c) ⊎ (get_elem? (modify cs j f) i ≡ some (f c))
get_elem?-modify f [] i j c h = absurd (cc)
get_elem?-modify f (x ∷ cs) zero zero c h = inr (ground arith)
get_elem?-modify f (x ∷ cs) zero (suc j) c h = inl h
get_elem?-modify f (x ∷ cs) (suc i) zero c h = inl h
get_elem?-modify f (x ∷ cs) (suc i) (suc j) c h = get_elem?-modify f cs i j c h

get_elem?-append :
    (cs ds : List Client) (i : ℕ) (c : Client)
    → get_elem? cs i ≡ some c
    → get_elem? (cs ++ ds) i ≡ some c
get_elem?-append [] ds i c h = absurd (cc)
get_elem?-append (x ∷ cs) ds zero c h = h
get_elem?-append (x ∷ cs) ds (suc i) c h = get_elem?-append cs ds i c h

module _ (to_lower : Text → Text) where
  -- A later state of a client, some events after an earlier one.
  record Follows (es : List Event) (c d : Client) : Type 0 where
    same_query : d.query ≡ c.query
    was_member : d.member ≡ true → c.member ≡ true
    was_clear : d.overflow ≡ false → c.overflow ≡ false
    sent :
        d.member ≡ true
        → d.overflow ≡ false
        → d.written ++ d.buffer
          ≡ (c.written ++ c.buffer) ++ keep (λ e. matches to_lower e c.query) es

  same-Follows : (c : Client) → Follows [] c c
  same-Follows c = record {
    same_query = refl;
    was_member = λ h. h;
    was_clear = λ h. h;
    sent = λ _ _. sym (append-nil (c.written ++ c.buffer));
  }

  leave-Follows : (c : Client) → Follows [] c (leave c)
  unfolding leave
  leave-Follows c = record {
    same_query = refl;
    was_member = λ h. absurd (cc);
    was_clear = λ h. h;
    sent = λ h _. absurd (cc);
  }

  read_channel-Follows :
      (c : Client) (b : List Event) → c.buffer ≡ b → Follows [] c (read_channel c b)
  unfolding read_channel
  read_channel-Follows c [] h =
      if_ind (Follows [] c) c.open_channel c (leave c) (λ _. same-Follows c) (λ _. leave-Follows c)
  read_channel-Follows c (e ∷ rest) h = record {
    same_query = refl;
    was_member = λ m. m;
    was_clear = λ k. k;
    sent = λ m _.
        append_assoc c.written (e ∷ []) rest
        ∙ ap (◌++◌ c.written) (sym h)
        ∙ sym (append-nil (c.written ++ c.buffer));
  }

  check_overflow-Follows : (c : Client) → Follows [] c (check_overflow c)
  unfolding check_overflow leave
  check_overflow-Follows c =
      if_ind (Follows [] c) c.overflow _ _
        (λ _. record {
          same_query = refl;
          was_member = λ m. absurd (cc);
          was_clear = λ k. k;
          sent = λ m _. absurd (cc);
        })
        (λ _. record {
          same_query = refl;
          was_member = λ m. m;
          was_clear = λ k. k;
          sent = λ _ _. sym (append-nil (c.written ++ c.buffer));
        })

  cancel-Follows : (c : Client) → Follows [] c (cancel c)
  unfolding cancel
  cancel-Follows c =
      if_ind (Follows [] c) c.checking c (leave c) (λ _. same-Follows c) (λ _. leave-Follows c)

  serve_client-Follows : (c : Client) → Follows [] c (serve_client c)
  unfolding serve_client
  serve_client-Follows c =
      if_ind (Follows [] c) c.serving _ c
        (λ _.
          if_ind (Follows [] c) c.checking (check_overflow c) (read_channel c c.buffer)
            (λ _. check_overflow-Follows c) (λ _. read_channel-Follows c c.buffer refl))
        (λ _. same-Follows c)

  -- Of a round of a loop that gives a client.
  abbrev Gives : List Event → Client → Client → Option Client → Type 0
  Gives es c d o = o ≡ some d → Follows es c d

  gives : (es : List Event) (c d x : Client) → Follows es c x → Gives es c d (some x)
  gives es c d x f h = subst (Follows es c) (let e : x ≡ d = cc h in e) f

  close_client-Follows : (c d : Client) → close_client c ≡ some d → Follows [] c d
  unfolding close_client
  close_client-Follows c d =
      if_ind (Gives [] c d) (not c.member) _ _ (λ _. gives [] c d c (same-Follows c))
        (λ _.
          if_ind (Gives [] c d) c.open_channel _ _
            (λ _.
              gives [] c d (record c { open_channel = false; member = false })
                (record {
                  same_query = refl;
                  was_member = λ m. absurd (cc);
                  was_clear = λ k. k;
                  sent = λ m _. absurd (cc);
                }))
            (λ _ h. absurd (cc)))

  deliver-Follows :
      (e : Event) (c d : Client) → deliver to_lower e c ≡ some d → Follows (e ∷ []) c d
  unfolding deliver
  deliver-Follows e c d =
      if_ind (Gives (e ∷ []) c d) (not c.member) _ _
        (λ n. gives (e ∷ []) c d c (record {
          same_query = refl;
          was_member = λ m. m;
          was_clear = λ k. k;
          sent = λ m _. absurd (ground (arith, m, n));
        }))
        (λ _.
          if_ind (Gives (e ∷ []) c d) (not (matches to_lower e c.query)) _ _
            (λ n. gives (e ∷ []) c d c (record {
              same_query = refl;
              was_member = λ m. m;
              was_clear = λ k. k;
              sent = λ _ _. sym (
                  ap (◌++◌ (c.written ++ c.buffer)) (ground (arith, n))
                  ∙ append-nil (c.written ++ c.buffer));
            }))
            (λ n.
              if_ind (Gives (e ∷ []) c d) (not c.open_channel) _ _ (λ _ h. absurd (cc))
                (λ _.
                  if_ind (Gives (e ∷ []) c d) (ltb (length c.buffer) client_buffer) _ _
                    (λ _.
                      gives (e ∷ []) c d (record c { buffer = c.buffer ++ (e ∷ []) })
                        (record {
                          same_query = refl;
                          was_member = λ m. m;
                          was_clear = λ k. k;
                          sent = λ _ _.
                              sym (append_assoc c.written c.buffer (e ∷ []))
                              ∙ ap (◌++◌ (c.written ++ c.buffer)) (ground (arith, n));
                        }))
                    (λ _.
                      gives (e ∷ []) c d (record c { overflow = true })
                        (record {
                          same_query = refl;
                          was_member = λ m. m;
                          was_clear = λ k. absurd (cc);
                          sent = λ _ k. absurd (cc);
                        })))))

  compose :
      (es fs : List Event) (b c d : Client)
      → Follows es b c
      → Follows fs c d
      → Follows (es ++ fs) b d
  compose es fs b c d p q = record {
    same_query = q.same_query ∙ p.same_query;
    was_member = λ m. p.was_member (q.was_member m);
    was_clear = λ o. p.was_clear (q.was_clear o);
    sent = λ m o.
        q.sent m o
        ∙ ap (λ l. l ++ keep (λ e. matches to_lower e c.query) fs)
            (p.sent (q.was_member m) (q.was_clear o))
        ∙ append_assoc (b.written ++ b.buffer) (keep (λ e. matches to_lower e b.query) es) _
        ∙ ap (◌++◌ (b.written ++ b.buffer)) (
            ap
              (λ r.
                keep (λ e. matches to_lower e b.query) es ++ keep (λ e. matches to_lower e r) fs)
              p.same_query
            ∙ sym (keep-append (λ e. matches to_lower e b.query) es fs));
  }

  -- The client with a number, after a step or a run.
  abbrev Reaches : List Event → ℕ → Client → Hub → Type 0
  Reaches es i x g = (y : Client) × (get_elem? g.clients i ≡ some y) × Follows es x y

  abbrev FromStep : List Event → ℕ → Client → Hub → Option Hub → Type 0
  FromStep es i x g o = o ≡ some g → Reaches es i x g

  from_step :
      (es : List Event) (i : ℕ) (x y : Client) (g h : Hub)
      → get_elem? h.clients i ≡ some y
      → Follows es x y
      → FromStep es i x g (some h)
  from_step es i x y g h k f e =
      (y, ap (λ u. get_elem? u.clients i) (sym (let q : h ≡ g = cc e in q)) ∙ k, f)

  not_member :
      (closed : Bool) (cs : List Client) (i : ℕ) (x : Client)
      → All (IsSafeClient closed) cs
      → closed ≡ true
      → get_elem? cs i ≡ some x
      → x.member ≡ false
  not_member closed [] i x v t k = absurd (cc)
  not_member closed (c ∷ cs) zero x v t k =
      subst (λ y. y.member ≡ false) (let e : c ≡ x = cc k in e) (v.0.left t)
  not_member closed (c ∷ cs) (suc i) x v t k = not_member closed cs i x v.1 t k

  all_members :
      (es : List Event) (f : Client → Option Client) (closed : Bool)
      (each : (c d : Client) → f c ≡ some d → Follows es c d) (cs : List Client)
      (o : Option (List Client)) (i : ℕ) (x : Client) (g : Hub)
      → for_all f cs ≡ o
      → get_elem? cs i ≡ some x
      → FromStep es i x g
          (elim o [ none ↦ none | some ds ↦ some (record { clients = ds; closed = closed }) ])
  all_members es f closed each cs none i x g p k e = absurd (cc)
  all_members es f closed each cs (some ds) i x g p k e =
      let (y, u, v) = get_elem?-for_all f cs ds i x p k in
      from_step es i x y g (record { clients = ds; closed = closed }) u (each x y v) e

  modify_member :
      (f : Client → Client) (each : (c : Client) → Follows [] c (f c)) (h g : Hub) (i j : ℕ)
      (x : Client)
      → get_elem? h.clients i ≡ some x
      → FromStep [] i x g (some (record h { clients = modify h.clients j f }))
  modify_member f each h g i j x k = elim (get_elem?-modify f h.clients i j x k) [
    | inl e ↦ from_step [] i x x g (record h { clients = modify h.clients j f }) e (same-Follows x)
    | inr e ↦ from_step [] i x (f x) g (record h { clients = modify h.clients j f }) e (each x)
  ]

  step-Follows :
      (h g : Hub) (c : Call) (i : ℕ) (x : Client)
      → IsSafe h
      → get_elem? h.clients i ≡ some x
      → FromStep (published (c ∷ [])) i x g (step to_lower h c)
  unfolding step publish subscribe serve disconnect close published
  step-Follows h g (publishes e) i x v k =
      if_ind (FromStep (e ∷ []) i x g) h.closed _ _
        (λ t. from_step (e ∷ []) i x x g h k (record {
          same_query = refl;
          was_member = λ m. m;
          was_clear = λ o. o;
          sent = λ m _. absurd (ground (arith, m, not_member h.closed h.clients i x v t k));
        }))
        (λ _.
          all_members (e ∷ []) (deliver to_lower e) h.closed (deliver-Follows e) h.clients _ i x g
            refl k)
  step-Follows h g (subscribes q) i x v k =
      from_step [] i x x g _ (get_elem?-append h.clients _ i x k) (same-Follows x)
  step-Follows h g (serves j) i x v k = modify_member serve_client serve_client-Follows h g i j x k
  step-Follows h g (disconnects j) i x v k = modify_member cancel cancel-Follows h g i j x k
  step-Follows h g closes i x v k =
      all_members [] close_client true close_client-Follows h.clients _ i x g refl k

  published-cons :
      (c : Call) (cs : List Call) → published (c ∷ []) ++ published cs ≡ published (c ∷ cs)
  unfolding published
  published-cons (publishes e) cs = refl
  published-cons (subscribes q) cs = refl
  published-cons (serves i) cs = refl
  published-cons (disconnects i) cs = refl
  published-cons closes cs = refl

  run-Follows :
      (h g : Hub) (cs : List Call) (i : ℕ) (x : Client)
      → IsSafe h
      → get_elem? h.clients i ≡ some x
      → FromStep (published cs) i x g (run to_lower h cs)
  unfolding run published
  run-Follows h g [] i x v k = from_step [] i x x g h k (same-Follows x)
  run-Follows h g (c ∷ cs) i x v k =
      let (m, p, w) = step-IsSafe to_lower h c v in
      let (y, u, f) = step-Follows h m c i x v k p in
      λ e.
        let q : run to_lower m cs ≡ some g = rw (p, run) at e in
        let (z, t, r) = run-Follows m g cs i y w u q in
        (
          z,
          t,
          subst (λ l. Follows l x z) (published-cons c cs)
              (compose (published (c ∷ [])) (published cs) x y z f r),
        )

  -- Between two states of a hub, the first of which is safe, and for a client of the first that in
  -- the second is still subscribed and has not overflowed: it has been sent, in order, exactly the
  -- events published in between that match its query. What its stream has written, followed by what
  -- stands in its channel, has grown by those events.
  pub run-delivers :
      (h g : Hub) (cs : List Call) (i : ℕ) (c d : Client)
      → IsSafe h
      → run to_lower h cs ≡ some g
      → get_elem? h.clients i ≡ some c
      → get_elem? g.clients i ≡ some d
      → d.member ≡ true
      → d.overflow ≡ false
      → d.written ++ d.buffer
        ≡ (c.written ++ c.buffer) ++ keep (λ e. matches to_lower e c.query) (published cs)
  run-delivers h g cs i c d v e k l m o =
      let (y, u, f) = run-Follows h g cs i c v k e in
      let p : some y ≡ some d = sym u ∙ l in
      let q : y ≡ d = cc p in
      subst
        (λ z.
          z.written ++ z.buffer
          ≡ (c.written ++ c.buffer) ++ keep (λ x. matches to_lower x c.query) (published cs))
        q (f.sent (ap (λ z. z.member) q ∙ m) (ap (λ z. z.overflow) q ∙ o))

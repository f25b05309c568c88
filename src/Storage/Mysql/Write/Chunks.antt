-- ===== src/Storage/Mysql/Write/Chunks.antt =====
-- The loops over chunks of storage/mysql/storage.go: what is stored when they end, with or without an
-- error.
use consul_timeline.Common.{
  ℕ, zero, suc, ◌≤◌, ◌≡◌, refl, sym, ap, ◌∙◌, Option, none, some, List, [], ◌∷◌, ◌++◌, append_assoc,
  ◌⊎◌, inl, inr, length, take, drop, take-append-drop, length-take, length-drop, arith,
}
use consul_timeline.Common.Assoc.{RangeOrder}
use consul_timeline.Common.Text.{Text}
use consul_timeline.Storage.Mysql.Where.{Arg}
use consul_timeline.Timeline.Event.{Event}
use consul_timeline.Storage.Mysql.Tags.{Json}
use consul_timeline.Storage.Mysql.Write.{
  RollupKey, rollup_eq, Driver, insert_chunk, then_rest, in_chunks, insert_sql, rollup_sql, finish,
  store_chunk, store_events,
}

abbrev pub flatten : {A : Type 0} → List (List A) → List A
flatten [] = []
flatten (c ∷ cs) = c ++ flatten cs

module _ {A D E : Type 0} (size : ℕ) (write : List A → D → Option E × D) where
  -- Chunks that were written one after the other: none of them is empty or too large.
  abbrev pub Written : List (List A) → D → D → Type 0
  Written [] d d' = d ≡ d'
  Written (c ∷ cs) d d' =
      (1 ≤ length c)
      × ((length c ≤ size) × ((d1 : D) × ((write c d ≡ (none, d1)) × Written cs d1 d')))

  -- How a loop over `xs` ends: everything is written, or a chunk fails, and exactly what is before it
  -- is written.
  pub data Outcome (xs : List A) (d : D) (r : Option E × D) : Type 0 where
    all_written :
        (cs : List (List A)) (d' : D)
        → xs ≡ flatten cs
        → r ≡ (none, d')
        → Written cs d d'
        → Outcome xs d r
    stopped :
        (cs : List (List A)) (c rest : List A) (e : E) (d' : D)
        → xs ≡ flatten cs ++ (c ++ rest)
        → r ≡ (some e, d')
        → write c d' ≡ (some e, d')
        → Written cs d d'
        → Outcome xs d r

  extend :
      (xs : List A) (d d1 : D) (r : Option E × D)
      → 1 ≤ size
      → 1 ≤ length xs
      → write (take size xs) d ≡ (none, d1)
      → Outcome (drop size xs) d1 r
      → Outcome xs d r
  extend xs d d1 r s l h (all_written cs d' p q w) =
      all_written (take size xs ∷ cs) d'
        (sym (take-append-drop size xs) ∙ ap (λ ys. take size xs ++ ys) p) q
        (omega (arith, length-take size xs), (omega (arith, length-take size xs), (d1, (h, w))))
  extend xs d d1 r s l h (stopped cs c rest e d' p q k w) =
      stopped (take size xs ∷ cs) c rest e d'
        (sym (take-append-drop size xs)
          ∙ ap (λ ys. take size xs ++ ys) p
          ∙ sym (append_assoc (take size xs) (flatten cs) (c ++ rest)))
        q k (omega (arith, length-take size xs), (omega (arith, length-take size xs), (d1, (h, w))))

  -- Where a write that fails leaves everything as it was, the loop ends in one of these ways.
  pub in_chunks-Outcome :
      (fuel : ℕ) (xs : List A) (d : D)
      → 1 ≤ size
      → length xs ≤ fuel
      → ((c : List A) (b b' : D) (e : E) → write c b ≡ (some e, b') → b' ≡ b)
      → Outcome xs d (in_chunks fuel size write xs d)
  unfolding in_chunks
  in_chunks-Outcome zero [] d s l law = all_written [] d refl refl refl
  in_chunks-Outcome zero (x ∷ xs) d s l law = absurd (omega arith)
  in_chunks-Outcome (suc fuel) [] d s l law = all_written [] d refl refl refl
  in_chunks-Outcome (suc fuel) (x ∷ xs) d s l law =
      step
        (λ d1.
          in_chunks-Outcome fuel (drop size (x ∷ xs)) d1 s
            (omega (arith, length-drop size (x ∷ xs))) law)
        (write (take size (x ∷ xs)) d) refl
    where
      step :
          ((d1 : D)
            → Outcome (drop size (x ∷ xs)) d1 (in_chunks fuel size write (drop size (x ∷ xs)) d1))
          → (o : Option E × D) → write (take size (x ∷ xs)) d ≡ o
          → Outcome (x ∷ xs) d (then_rest o (in_chunks fuel size write (drop size (x ∷ xs))))
      step ih (some e, d') h =
          let same : d' ≡ d = law (take size (x ∷ xs)) d d' e h in
          stopped [] (take size (x ∷ xs)) (drop size (x ∷ xs)) e d'
            (sym (take-append-drop size (x ∷ xs))) refl (ap (write (take size (x ∷ xs))) same ∙ h)
            (sym same)
      step ih (none, d1) h =
          extend (x ∷ xs) d d1 (in_chunks fuel size write (drop size (x ∷ xs)) d1) s (omega arith) h
            (ih d1)

-- What the documentation of `database/sql` says of a transaction: other connections see the tables as
-- they were before it; and where it is rolled back, or fails to commit, they stay so.
pub record DriverLaws {D T E : Type 0} (db : Driver D T E) : Type 0 where
  pub before : T → D
  pub before-begin : (d : D) (t : T) → db.begin d ≡ inr t → before t ≡ d
  pub before-exec : (s : Text × List Arg) (t : T) → before (db.exec s t).1 ≡ before t
  pub rolled_back : (t : T) → db.rollback t ≡ before t
  pub not_committed : (t : T) (e : E) (d : D) → db.commit t ≡ (some e, d) → d ≡ before t

module _ {D T E : Type 0} (json : Json) (order : RangeOrder RollupKey ℕ) (db : Driver D T E)
    (laws : DriverLaws db) where
  finish-fails :
      (es : List Event) (t : T) (e : E) (d : D)
      → finish json order db es t ≡ (some e, d)
      → d ≡ laws.before t
  unfolding finish
  finish-fails es t e d h =
      step (db.exec (rollup_sql order es) t).0 (db.exec (rollup_sql order es) t).1 h
      ∙ laws.before-exec (rollup_sql order es) t
    where
      step :
          (r : Option E) (u : T)
          → (elim r [ some e ↦ (some e, db.rollback u) | none ↦ db.commit u ]) ≡ (some e, d)
          → d ≡ laws.before u
      step (some f) u k =
          (let p : db.rollback u ≡ d = ap (λ (o : Option E × D). o.1) k in sym p)
          ∙ laws.rolled_back u
      step none u k = laws.not_committed u e d k

  -- A chunk that fails leaves the tables as they were.
  pub store_chunk-fails :
      (es : List Event) (d d' : D) (e : E) → store_chunk json order db es d ≡ (some e, d') → d' ≡ d
  unfolding store_chunk
  store_chunk-fails es d d' e h = begun (db.begin d) refl h
    where
      inserted :
          (r : Option E) (u : T)
          → (elim r [ some e ↦ (some e, db.rollback u) | none ↦ finish json order db es u ])
            ≡ (some e, d')
          → d' ≡ laws.before u
      inserted (some f) u k =
          (let p : db.rollback u ≡ d' = ap (λ (o : Option E × D). o.1) k in sym p)
          ∙ laws.rolled_back u
      inserted none u k = finish-fails es u e d' k

      begun :
          (o : E ⊎ T)
          → db.begin d ≡ o
          → (◌≡◌ {A = Option E × D}
              (elim o [
                | inl e ↦ (some e, d)
                | inr t ↦
                    let (r, u) = db.exec (insert_sql json es) t in
                    elim r [ some e ↦ (some e, db.rollback u) | none ↦ finish json order db es u ]
              ])
              (some e, d'))
          → d' ≡ d
      begun (inl f) b k = let p : d ≡ d' = ap (λ (o : Option E × D). o.1) k in sym p
      begun (inr t) b k =
          inserted (db.exec (insert_sql json es) t).0 (db.exec (insert_sql json es) t).1 k
          ∙ laws.before-exec (insert_sql json es) t
          ∙ laws.before-begin d t b

  -- `StoreEvents` stores the events in chunks of 1 to 500, each in its own transaction: it returns no
  -- error where every chunk is committed; otherwise the error is that of one chunk, all chunks before
  -- it are committed, and neither it nor what follows it leaves a trace. The transactions behave as
  -- `database/sql` documents them.
  pub store_events-Outcome :
      (es : List Event) (d : D)
      → Outcome insert_chunk (store_chunk json order db) es d (store_events json order db es d)
  unfolding store_events
  store_events-Outcome es d =
      in_chunks-Outcome insert_chunk (store_chunk json order db) (length es) es d (omega arith)
        (omega arith) (λ c b b' e h. store_chunk-fails c b b' e h)

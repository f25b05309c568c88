-- ===== src/Storage/Mysql/Maintain/Latest.antt =====
-- The latest day that `ensurePartitions` of storage/mysql/storage.go finds among the partitions.
use consul_timeline.Common.{
  ◌%◌, ◌≤◌, ◌≡◌, refl, sym, ap, ◌∙◌, true, Option, none, some, List, [], ◌∷◌, ◌⊎◌, inl, inr, ltb,
  arith, Bool-cases, All, ◌==◌,
}
use consul_timeline.Common.Text.{Text, text_eq, text_beq_iff}
use consul_timeline.Timeline.Event.{Time}
use consul_timeline.Storage.Mysql.Maintain.{
  day_length, Calendar, partition_name, later_day, latest_of,
}
use consul_timeline.Storage.Mysql.Maintain.Names.{is_in}

-- The latest day among the names of partitions, which is Go's zero time if there is none.
pub record IsLatest (cal : Calendar) (ns : List Text) (b : Time) : Type 0 where
  pub bound : All (λ n. later_day b (cal.parse n) ≡ b) ns
  pub attained : (b ≡ 0) ⊎ ((n : Text) × ((is_in n ns ≡ true) × (cal.parse n ≡ some b)))

pub All-is_in :
    (P : Text → Type 0) (ns : List Text) → ((n : Text) → is_in n ns ≡ true → P n) → All P ns
All-is_in P [] h = tt
All-is_in P (n ∷ ns) h =
    (h n (ground (arith, text_beq_iff n n)), All-is_in P ns (λ m i. h m (ground (arith, i))))

pub not_later : (b : Time) (o : Option Time) → ((x : Time) → o ≡ some x → x ≤ b) → later_day b o ≡ b
not_later b none h = refl
not_later b (some x) h = ground (arith, h x refl)

-- `time` reads back the name of a day, as it documents for the years that have four digits.
abbrev pub ReadsBack : Calendar → Type 0
ReadsBack cal = (day : Time) → day % day_length ≡ 0 → cal.parse (partition_name cal day) ≡ some day

pub latest_of-bound :
    (cal : Calendar) (ns : List Text) (b : Time)
    → (b ≤ latest_of cal b ns)
      × ((n : Text) (x : Time) → is_in n ns ≡ true → cal.parse n ≡ some x → x ≤ latest_of cal b ns)
unfolding latest_of
latest_of-bound cal [] b = (omega arith, λ n x h p. absurd (cc))
latest_of-bound cal (m ∷ ns) b =
    let (above, rest) = latest_of-bound cal ns (later_day b (cal.parse m)) in
    (
      ground (arith, above),
      λ n x h p. elim (Bool-cases (m == n)) [
        | inl e ↦
            let q : cal.parse m ≡ some x = ap cal.parse ((text_beq_iff m n).0 e) ∙ p in
            ground (arith, above, q)
        | inr e ↦ rest n x (ground (arith, e)) p
      ],
    )

pub latest_of-attained :
    (cal : Calendar) (ns : List Text) (b : Time)
    → (latest_of cal b ns ≡ b)
      ⊎ ((n : Text) × ((is_in n ns ≡ true) × (cal.parse n ≡ some (latest_of cal b ns))))
unfolding latest_of
latest_of-attained cal [] b = inl refl
latest_of-attained cal (m ∷ ns) b = elim (latest_of-attained cal ns (later_day b (cal.parse m))) [
  | inr (n, (i, p)) ↦ inr (n, (ground (arith, i), p))
  | inl e ↦ own (cal.parse m) refl e
]
  where
    own :
        (o : Option Time)
        → cal.parse m ≡ o
        → latest_of cal (later_day b (cal.parse m)) ns ≡ later_day b (cal.parse m)
        → (latest_of cal (later_day b (cal.parse m)) ns ≡ b)
          ⊎ ((n : Text) × ((is_in n (m ∷ ns) ≡ true)
                × (cal.parse n ≡ some (latest_of cal (later_day b (cal.parse m)) ns))))
    own none h e = inl (e ∙ ap (later_day b) h)
    own (some x) h e = elim (Bool-cases (ltb b x)) [
      | inl t ↦
          let w : latest_of cal (later_day b (cal.parse m)) ns ≡ x =
            e ∙ ap (later_day b) h ∙ ground (arith, t) in
          inr (m, (ground (arith, text_beq_iff m m), h ∙ ap some (sym w)))
      | inr t ↦ inl (e ∙ ap (later_day b) h ∙ ground (arith, t))
    ]

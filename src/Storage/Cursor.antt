-- ===== src/Storage/Cursor.antt =====
-- storage/storage.go: `Cursor.String` and `ParseCursor`.
use consul_timeline.Common.{
  ℕ, suc, ◌+◌, ◌-◌, ◌*◌, ◌/◌, ◌%◌, ◌<◌, ◌≡◌, ◌≢◌, refl, sym, ap, ap₂, ◌∙◌, true, Option, none, some,
  List, [], ◌∷◌, ◌++◌, if◌then◌else◌, arith, Bool-cases, inl, inr,
}
use consul_timeline.Common.Text.{Text}
use consul_timeline.Common.Int.{ℤ, pos, negsuc, sub_ℕ}
use consul_timeline.Common.Decimal.{itoa_int, atoi, int_limit, in_int64, atoi-itoa_int}
use consul_timeline.Common.Split.{split_on, split_on-append, itoa_int-Lacks}
use consul_timeline.Timeline.Event.{Time}
use consul_timeline.Storage.Query.{Cursor, cursor_is_zero, zero_cursor}

-- `base64.RawURLEncoding`.
pub record Base64 : Type 0 where
  pub encode : Text → Text
  pub decode : Text → Option Text

-- What its documentation says: what was encoded decodes to itself, and nothing is encoded as nothing.
pub record Base64Laws (b : Base64) : Type 0 where
  pub decode_encode : (s : Text) → b.decode (b.encode s) ≡ some s
  pub encode_nil : b.encode [] ≡ []

-- A millisecond in nanoseconds, and the milliseconds from Go's zero time to the epoch of Unix.
abbrev pub millisecond : ℕ
millisecond = 1_000_000

abbrev pub unix_epoch : ℕ
unix_epoch = 62_135_596_800_000

-- `Time.UnixMilli`, and `time.UnixMilli`, which cuts off what is before Go's zero time.
unfoldable pub unix_milli : Time → ℤ
unix_milli t = sub_ℕ (t / millisecond) unix_epoch

unfoldable pub of_unix_milli : ℤ → Time
of_unix_milli (pos n) = (unix_epoch + n) * millisecond
of_unix_milli (negsuc n) = (unix_epoch - suc n) * millisecond

-- What is encoded of a cursor.
abbrev pub cursor_text : Cursor → Text
cursor_text c = itoa_int (unix_milli c.time) ++ (b':' ∷ itoa_int c.id)

-- `Cursor.String`.
unfoldable pub cursor_string : Base64 → Cursor → Text
unfolding unix_milli itoa_int
cursor_string b c = if cursor_is_zero c then [] else b.encode (cursor_text c)

abbrev both_numbers : Option ℤ → Option ℤ → Option Cursor
both_numbers (some ms) (some id) = some (record { time = of_unix_milli ms; id = id })
both_numbers (some ms) none = none
both_numbers none o = none

abbrev of_parts : List Text → Option Cursor
of_parts (ms ∷ id ∷ []) = both_numbers (atoi ms) (atoi id)
of_parts parts = none

abbrev of_bytes : Option Text → Option Cursor
of_bytes none = none
of_bytes (some s) = of_parts (split_on b':' s)

-- `ParseCursor`; `none` is its error.
unfoldable pub parse_cursor : Base64 → Text → Option Cursor
unfolding of_unix_milli atoi split_on
parse_cursor b [] = some zero_cursor
parse_cursor b (c ∷ s) = of_bytes (b.decode (c ∷ s))

-- What is left of a cursor in a URL: its time in whole milliseconds.
abbrev pub in_milliseconds : Cursor → Cursor
in_milliseconds c =
    if cursor_is_zero c then zero_cursor else record c { time = c.time - c.time % millisecond }

of_unix_milli-unix_milli : (t : Time) → of_unix_milli (unix_milli t) ≡ t - t % millisecond
unfolding of_unix_milli unix_milli
of_unix_milli-unix_milli t = ground arith

unix_milli-in_int64 : (t : Time) → t / millisecond < int_limit → in_int64 (unix_milli t) ≡ true
unfolding unix_milli
unix_milli-in_int64 t h = ground arith

of_parts-cursor_text :
    (c : Cursor)
    → c.time / millisecond < int_limit
    → in_int64 c.id ≡ true
    → of_parts (split_on b':' (cursor_text c))
      ≡ some (record c { time = c.time - c.time % millisecond })
of_parts-cursor_text c h k =
    ap of_parts (
      split_on-append b':' (itoa_int (unix_milli c.time)) (itoa_int c.id)
        (itoa_int-Lacks (unix_milli c.time)) (itoa_int-Lacks c.id))
    ∙ ap₂ both_numbers (atoi-itoa_int (unix_milli c.time) (unix_milli-in_int64 c.time h))
        (atoi-itoa_int c.id k)
    ∙ ap (λ t. some (record c { time = t })) (of_unix_milli-unix_milli c.time)

parse_cursor-encode :
    (b : Base64) (s : Text)
    → Base64Laws b
    → s ≢ []
    → parse_cursor b (b.encode s) ≡ of_parts (split_on b':' s)
unfolding parse_cursor
parse_cursor-encode b s laws n = step (b.encode s) refl
  where
    step : (t : Text) → b.encode s ≡ t → parse_cursor b t ≡ of_parts (split_on b':' s)
    step [] e =
        let p : some s ≡ some [] =
          sym (laws.decode_encode s)
          ∙ ap b.decode (e ∙ sym laws.encode_nil)
          ∙ laws.decode_encode [] in
        absurd (n (cc p))
    step (c ∷ t) e = ap of_bytes (ap b.decode (sym e) ∙ laws.decode_encode s)

-- A cursor is read back from its text with its time in whole milliseconds, and a zero cursor as one.
-- Its milliseconds and its id are integers of 64 bits, and base64 decodes what it encodes.
pub parse_cursor-cursor_string :
    (b : Base64) (c : Cursor)
    → Base64Laws b
    → c.time / millisecond < int_limit
    → in_int64 c.id ≡ true
    → parse_cursor b (cursor_string b c) ≡ some (in_milliseconds c)
unfolding cursor_string
parse_cursor-cursor_string b c laws h k = elim (Bool-cases (cursor_is_zero c)) [
  | inl z ↦ rw z (unfold parse_cursor in refl)
  | inr z ↦ rw z (
      parse_cursor-encode b (cursor_text c) laws
        (not_nil (itoa_int (unix_milli c.time)) (itoa_int c.id))
      ∙ of_parts-cursor_text c h k)
]
  where
    not_nil : (s t : Text) → s ++ (b':' ∷ t) ≢ []
    not_nil [] t e = absurd (cc)
    not_nil (d ∷ s) t e = absurd (cc)

-- ===== src/Storage/Mysql/Tags.antt =====
-- storage/mysql/: the tags column of an event, written by `tagsJSON` and read by `parseTags`.
use consul_timeline.Common.{
  ◌<◌, ◌≡◌, refl, ap, ◌∙◌, Option, none, some, List, [], ◌∷◌, if◌then◌else◌, leb, length, arith,
}
use consul_timeline.Common.Text.{Text, bytes}

-- `encoding/json` on arrays of texts: `encode` may fail, and so may `decode`.
pub record Json : Type 0 where
  pub encode : List Text → Option Text
  pub decode : Text → Option (List Text)

-- What its documentation says: what was encoded decodes to itself, and an array that is not empty is
-- longer than its brackets.
pub record JsonLaws (json : Json) : Type 0 where
  pub decode_encode :
      (ts : List Text) (s : Text) → json.encode ts ≡ some s → json.decode s ≡ some ts
  pub long : (t : Text) (ts : List Text) (s : Text) → json.encode (t ∷ ts) ≡ some s → 2 < length s

abbrev or_brackets : Option Text → Text
or_brackets none = bytes "[]"
or_brackets (some s) = s

-- `tagsJSON`.
unfoldable pub tags_json : Json → List Text → Text
tags_json json [] = bytes "[]"
tags_json json (t ∷ ts) = or_brackets (json.encode (t ∷ ts))

-- `parseTags`; `none` is its error.
unfoldable pub parse_tags : Json → Text → Option (List Text)
parse_tags json s = if leb (length s) 2 then some [] else json.decode s

-- Tags that the encoder accepts are read back as they were written.
pub parse_tags-tags_json :
    (json : Json) (ts : List Text)
    → JsonLaws json
    → ((s : Text) × (json.encode ts ≡ some s))
    → parse_tags json (tags_json json ts) ≡ some ts
unfolding parse_tags tags_json
parse_tags-tags_json json [] laws e = refl
parse_tags-tags_json json (t ∷ ts) laws (s, e) =
    ap (λ o. parse_tags json (or_brackets o)) e
    ∙ ground (arith, laws.long t ts s e, laws.decode_encode (t ∷ ts) s e)

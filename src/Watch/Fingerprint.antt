-- ===== src/Watch/Fingerprint.antt =====
-- watch/compare.go: the fingerprint of a registration, a 64-bit FNV-1a hash (Go's `hash/fnv`).
use Prim.Native.Nat.{bit_xor}
use consul_timeline.Common.{ℕ, ◌*◌, ◌%◌, List, [], ◌∷◌, ◌++◌, map}
use consul_timeline.Common.Text.{Text, text_eq, text_ltb, bytes}
use consul_timeline.Common.Decimal.{itoa_int}
use consul_timeline.Common.Sort.{sort}
use consul_timeline.Timeline.Derive.{meta_at}
use consul_timeline.Consul.{Registration}

-- `h.Write`: each byte is mixed in and the product taken modulo 2^64.
unfoldable pub fnv_write : ℕ → Text → ℕ
fnv_write h [] = h
fnv_write h (b ∷ s) = fnv_write (bit_xor h b * 1_099_511_628_211 % 18_446_744_073_709_551_616) s

-- The closure `w`: the text and a zero byte, for each text in order.
unfoldable pub write_all : ℕ → List Text → ℕ
unfolding fnv_write
write_all h [] = h
write_all h (s ∷ ss) = write_all (fnv_write (fnv_write h s) (0 ∷ [])) ss

-- `sort.Strings`.
unfoldable pub sort_texts : List Text → List Text
unfolding sort text_ltb
sort_texts = sort text_ltb

abbrev pub keys : List (Text × Text) → List Text
keys = map (λ p. p.0)

-- What `writeMap` writes: `k=m[k]` for the sorted keys.
unfoldable pub map_lines : List (Text × Text) → List Text
unfolding sort_texts meta_at
map_lines m = map (λ k. k ++ (bytes "=" ++ meta_at m k)) (sort_texts (keys m))

unfoldable pub fingerprint : Registration → ℕ
unfolding write_all map_lines
fingerprint r = write_all 14_695_981_039_346_656_037 (
    r.service.service
    ∷ r.service.address
    ∷ itoa_int r.service.port
    ∷ (sort_texts r.service.tags ++ (map_lines r.service.meta ++ map_lines r.node.meta)))

-- ===== src/Storage/Memory/Instances.antt =====
-- The instances of storage/memory/storage.go: an upsert keeps the time at which one was first seen.
use consul_timeline.Common.{
  ◌≡◌, refl, ap, ◌∙◌, Option, some, List, [], ◌∷◌, if◌then◌else◌, Bool-cases, inl, inr,
}
use consul_timeline.Common.Text.{Text, text_eq}
use consul_timeline.Common.Assoc.{lookup, lookup-insert}
use consul_timeline.Timeline.Event.{Instance}
use consul_timeline.Storage.Memory.{
  Store, InstanceKey, key_eq, key_beq, key_beq_iff, key_of, merged, upsert_one, upsert_instances,
  find_instance,
}

-- A record that has a given first time.
abbrev pub SeenSince : Instance → Option Instance → Type 0
SeenSince old o = (new : Instance) × (o ≡ some new) × (new.first_seen ≡ old.first_seen)

lookup-upsert_one :
    (s : Store) (i : Instance) (k : InstanceKey)
    → lookup k (upsert_one s i).instances ≡ (
        if key_beq (key_of i) k
        then some (merged (lookup (key_of i) s.instances) i)
        else lookup k s.instances)
unfolding upsert_one
lookup-upsert_one s i k =
    lookup-insert (key_of i) k (merged (lookup (key_of i) s.instances) i) s.instances

upsert_one-SeenSince :
    (s : Store) (i old : Instance) (k : InstanceKey)
    → lookup k s.instances ≡ some old
    → SeenSince old (lookup k (upsert_one s i).instances)
upsert_one-SeenSince s i old k h = elim (Bool-cases (key_beq (key_of i) k)) [
  | inl e ↦
      let p : key_of i ≡ k = (key_beq_iff (key_of i) k).0 e in
      (
        record i { first_seen = old.first_seen },
        lookup-upsert_one s i k
            ∙ ap
                (λ b.
                  if b
                  then some (merged (lookup (key_of i) s.instances) i)
                  else lookup k s.instances)
                e
            ∙ ap (λ o. some (merged o i)) (ap (λ j. lookup j s.instances) p ∙ h),
        refl,
      )
  | inr e ↦ (
    old,
    lookup-upsert_one s i k
        ∙ ap
            (λ b.
              if b then some (merged (lookup (key_of i) s.instances) i) else lookup k s.instances)
            e
        ∙ h,
    refl,
  )
]

lookup-upsert_instances :
    (s : Store) (is : List Instance) (old : Instance) (k : InstanceKey)
    → lookup k s.instances ≡ some old
    → SeenSince old (lookup k (upsert_instances s is).instances)
unfolding upsert_instances
lookup-upsert_instances s [] old k h = (old, h, refl)
lookup-upsert_instances s (i ∷ is) old k h =
    let (new, p, q) = upsert_one-SeenSince s i old k h in
    let (last, r, t) = lookup-upsert_instances (upsert_one s i) is new k p in (last, r, t ∙ q)

-- An instance that is known stays known through any upserts, and keeps the time at which it was
-- first seen.
pub find_instance-upsert_instances :
    (s : Store) (is : List Instance) (old : Instance) (dc node id : Text)
    → find_instance s dc node id ≡ some old
    → (new : Instance) × (find_instance (upsert_instances s is) dc node id ≡ some new)
      × (new.first_seen ≡ old.first_seen)
unfolding find_instance
find_instance-upsert_instances s is old dc node id h =
    lookup-upsert_instances s is old (record { dc = dc; node = node; id = id }) h

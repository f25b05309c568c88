-- ===== src/Watch/Service/Index.antt =====
-- The map of instances that `indexInstances` of watch/compare.go builds.
use consul_timeline.Common.{
  ◌≡◌, ◌≤◌, refl, sym, ap, ◌∙◌, Option, none, some, List, [], ◌∷◌, ◌==◌, ◌⊎◌, if◌then◌else◌, arith,
  inl, inr, Bool-cases, Option-cases, length,
}
use consul_timeline.Common.Assoc.{lookup, insert, lookup-insert, IsDistinct, insert-IsDistinct}
use consul_timeline.Timeline.Status.{ConsulApi}
use consul_timeline.Consul.{CheckServiceNode, Registration}
use consul_timeline.Watch.Compare.{InstanceKey, key_eq, key_beq, key_beq_iff, key_of, Instances}
use consul_timeline.Watch.Service.{registration, index_instances, count_healthy}

abbrev or_else : Option Registration → Option Registration → Option Registration
or_else none d = d
or_else (some c) d = some c

-- The registration of an entry, if it has the key.
abbrev if_key : InstanceKey → Option Registration → Option Registration
if_key key none = none
if_key key (some r) = if key_of r == key then some r else none

-- The last entry of a list that stands for an instance.
unfoldable pub last_instance : InstanceKey → List CheckServiceNode → Option Registration
last_instance key [] = none
last_instance key (c ∷ cs) = or_else (last_instance key cs) (if_key key (registration c))

lookup-index_instances :
    (key : InstanceKey) (cs : List CheckServiceNode) (m : Instances)
    → lookup key (index_instances m cs) ≡ or_else (last_instance key cs) (lookup key m)
unfolding index_instances last_instance
lookup-index_instances key [] m = refl
lookup-index_instances key (c ∷ cs) m = elim (Option-cases (registration c)) [
  | inl e ↦ rw (e, index_instances) (lookup-index_instances key cs m ∙ ground (arith, e))
  | inr (r, e) ↦
      rw (e, index_instances)
        (lookup-index_instances key cs (insert (key_of r) r m)
          ∙ ground (arith, e, lookup-insert (key_of r) key r m))
]

pub lookup-index :
    (key : InstanceKey) (cs : List CheckServiceNode)
    → lookup key (index_instances [] cs) ≡ last_instance key cs
unfolding lookup
lookup-index key cs = ground (arith, lookup-index_instances key cs [])

pub index_instances-IsDistinct :
    (cs : List CheckServiceNode) (m : Instances) → IsDistinct m → IsDistinct (index_instances m cs)
unfolding index_instances
index_instances-IsDistinct [] m d = d
index_instances-IsDistinct (c ∷ cs) m d = elim (Option-cases (registration c)) [
  | inl e ↦ rw (e, index_instances) (index_instances-IsDistinct cs m d)
  | inr (r, e) ↦
      rw (e, index_instances)
        (index_instances-IsDistinct cs (insert (key_of r) r m) (insert-IsDistinct (key_of r) r m d))
]

or_else-some :
    (a b : Option Registration) (r : Registration)
    → or_else a b ≡ some r
    → (a ≡ some r) ⊎ (b ≡ some r)
or_else-some none b r h = inr h
or_else-some (some c) b r h = inl h

key_of-if_key :
    (key : InstanceKey) (o : Option Registration) (r : Registration)
    → if_key key o ≡ some r
    → key_of r ≡ key
key_of-if_key key none r h = absurd (cc)
key_of-if_key key (some c) r h = elim (Bool-cases (key_beq (key_of c) key)) [
  | inl e ↦
      let k : some c ≡ some r = rw e at h in
      let q : c ≡ r = cc k in ap key_of (sym q) ∙ (key_beq_iff (key_of c) key).0 e
  | inr e ↦ absurd (let k : none ≡ some r = rw e at h in cc)
]

pub key_of-last_instance :
    (key : InstanceKey) (cs : List CheckServiceNode) (r : Registration)
    → last_instance key cs ≡ some r
    → key_of r ≡ key
unfolding last_instance
key_of-last_instance key [] r h = absurd (cc)
key_of-last_instance key (c ∷ cs) r h =
    elim (or_else-some (last_instance key cs) (if_key key (registration c)) r h) [
      | inl e ↦ key_of-last_instance key cs r e
      | inr e ↦ key_of-if_key key (registration c) r e
    ]

-- No more instances are healthy than are listed.
pub count_healthy-le-length :
    (api : ConsulApi) (cs : List CheckServiceNode) → count_healthy api cs ≤ length cs
unfolding count_healthy
count_healthy-le-length api [] = omega arith
count_healthy-le-length api (c ∷ cs) = ground (arith, count_healthy-le-length api cs)

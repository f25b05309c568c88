-- ===== src/Storage/Backend.antt =====
-- storage/storage.go: the interfaces `Writer`, `Reader` and `Maintainer`, which every backend fills,
-- and the types of their results.
use consul_timeline.Common.{ℕ, Bool, Option, none, some, List, ◌⊎◌, if◌then◌else◌, ◌==◌}
use consul_timeline.Common.Text.{Text, text_eq, bytes}
use consul_timeline.Common.Int.{ℤ}
use consul_timeline.Timeline.Status.{status_string}
use consul_timeline.Timeline.Event.{Event, Instance, Time, new_status}
use consul_timeline.Storage.Query.{Query, Page}

-- `Split`: what a histogram bucket is broken down by.
pub data Split : Type 0 where
  split_status split_datacenter : Split

-- `ParseSplit`; an unknown split is an error.
unfoldable pub parse_split : Text → Option Split
parse_split s =
    if s == bytes ""
    then some split_status
    else if s == bytes "status"
    then some split_status
    else if s == bytes "dc"
    then some split_datacenter
    else none

-- `BucketKey`.
unfoldable pub bucket_key : Event → Split → Text
bucket_key e split_datacenter = e.datacenter
bucket_key e split_status = status_string (new_status e)

pub record Bucket : Type 0 where
  pub start : Time
  pub total : ℕ
  pub by : List (Text × ℕ)

pub record FacetValue : Type 0 where
  pub value : Text
  pub count : ℕ

pub record Facets : Type 0 where
  pub values : List (Text × List FacetValue)
  pub sample_size : ℕ
  pub sampled : Bool

-- `Storage`: a backend with states in `S` and errors in `E`. A write returns an error or `none`,
-- and the state it leaves; a read returns an error or its result.
pub record Backend (S E : Type 0) : Type 0 where
  pub store_events : List Event → S → Option E × S
  pub upsert_instances : List Instance → S → Option E × S
  pub maintain : S → Option E × S
  pub events : Query → S → E ⊎ Page
  pub histogram : Query → ℤ → Split → S → E ⊎ (List Bucket × Bool)
  pub facets : Query → List Text → ℤ → S → E ⊎ Facets
  pub suggest : Text → Text → Text → ℤ → S → E ⊎ List Text
  pub instance_of : Text → Text → Text → S → E ⊎ Option Instance
  pub datacenters : S → E ⊎ List Text
  pub since : Text → Time → ℤ → S → E ⊎ List Event

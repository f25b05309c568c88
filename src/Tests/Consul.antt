-- ===== src/Tests/Consul.antt =====
-- Examples on consul/consul.go.
use consul_timeline.Common.{◌≡◌, List, [], ◌∷◌, some}
use consul_timeline.Common.Text.{bytes}
use consul_timeline.Common.Int.{pos}
use consul_timeline.Consul.Client.{
  Client, Address, Entry, new_client, failed, listed, Step, replies, calls, run, first_datacenter,
}
use consul_timeline.Consul.Client.Sound.{IsSound, run-IsSound}
use consul_timeline.Tests.Data.{same_case}

abbrev server : Entry
server = record { address = bytes "10.0.0.1"; datacenter = bytes "dc1"; port = pos 8300 }

-- A call waits through an error and an empty reply, and two servers are found.
abbrev discovery : List Step
discovery =
    calls
    ∷ replies failed
    ∷ replies (listed [] 1)
    ∷ replies (listed (server ∷ server ∷ []) 2)
    ∷ calls
    ∷ calls
    ∷ []

run-IsSound_example :
    (c : Client) × ((called : List Address) × ((run same_case new_client discovery
          ≡ some (c, called))
        × (IsSound c × (c.dc ≡ first_datacenter discovery))))
run-IsSound_example = run-IsSound same_case discovery

-- ===== src/Tests/Services.antt =====
-- Multicasts and the gateway at concrete inputs.
use network_engine_portfolio.Prelude.{
  ℕ, ◌*◌, ◌+◌, ◌^◌, ◌≡◌, true, if◌then◌else◌, ◌==◌, Option, none, List, [], ◌∷◌, some,
}
use network_engine_portfolio.App.Broadcaster.{multicast}
use network_engine_portfolio.App.Broadcaster.Buckets.{named_on, wanted_on, named-multicast}
use network_engine_portfolio.Trading.{PerfPacket, client, exchange}
use network_engine_portfolio.Trading.Relay.{GatewayEvent, hello, ends}

-- Two sessions of worker 1, one of worker 0, one of a worker that is not there, and no session.
abbrev sids : List ℕ
sids = (2 ^ 32 + 5) ∷ 6 ∷ (2 ^ 32 + 7) ∷ (9 * 2 ^ 32 + 1) ∷ 0 ∷ []

named-multicast_example : named_on 1 (multicast true (some 0) 2 sids 6) ≡ wanted_on 2 6 1 sids
named-multicast_example = named-multicast (some 0) 2 6 1 sids

abbrev ping : PerfPacket
ping = record { client_sid = 0; seq = 3; t1 = 100; t2 = 0; t3 = 0; t4 = 0 }

-- The exchange's connection is the session 8 of the gateway and the session 77 of the exchange.
abbrev far_end : ℕ → Option ℕ
far_end sid = if sid == 8 then some 77 else none

abbrev near_end : ℕ → Option ℕ
near_end sid = if sid == 77 then some 8 else none

-- Another exchange tries, and leaves, and two clients come.
abbrev events : List GatewayEvent
events = hello 9 exchange ∷ ends 9 ∷ hello 8 client ∷ hello 4 client ∷ []

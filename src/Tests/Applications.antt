-- ===== src/Tests/Applications.antt =====
-- The registry of sessions and the packets of the applications at concrete inputs.
use network_engine_portfolio.Prelude.{◌≡◌, refl, true, List, [], ◌∷◌, length, some, arith}
use network_engine_portfolio.App.Packet.{reset, eof}
use network_engine_portfolio.Prelude.{◌-◌, ◌^◌}
use network_engine_portfolio.Protocol.Codec.{ByteReader, skip_bytes, ensure}
use network_engine_portfolio.App.Packet.RoundTrip.{
  Field, u8, u64, text, write_all, read_all, advance, read-write,
}
use network_engine_portfolio.Map.{contains, insert, erase, find, put, erase_key, find_or}
use network_engine_portfolio.App.Registry.Index.{
  SubscriptionIndex, add_to_index, erase_from_index, uncount_scope, unsubscribe_from, remove_scopes,
  count_scope, subscribe, unsubscribe, is_subscribed,
}
use network_engine_portfolio.App.Registry.Index.Mirror.{Mirrors}
use network_engine_portfolio.App.Registry.Index.Subscribe.{subscribe-Mirrors}
use network_engine_portfolio.App.Registry.Index.Unsubscribe.{unsubscribe-Mirrors}

-- An order: a kind, a symbol and a price.
abbrev fields : List Field
fields = u8 1 ∷ text (65 ∷ 66 ∷ []) ∷ u64 1000 ∷ []

read-write_example :
    (read_all fields (reset (some (write_all fields [])))
      ≡ some (fields, advance (reset (some (write_all fields []))) (length (write_all fields []))))
    × (eof (advance (reset (some (write_all fields []))) (length (write_all fields []))) ≡ true)
read-write_example = read-write fields (omega arith, (omega arith, (omega arith, tt)))

abbrev nobody : SubscriptionIndex
nobody = record { states = []; scope_index = []; topic_index = [] }

nobody_listed : Mirrors nobody
unfolding is_subscribed find find_or contains
nobody_listed key sid = refl

-- Sessions 5 and 6 in the topic 2 of the scope 1.
abbrev two : SubscriptionIndex
two = (subscribe (subscribe nobody 5 1 2).1 6 1 2).1

subscribe-Mirrors_example : Mirrors (subscribe (subscribe nobody 5 1 2).1 6 1 2).1
subscribe-Mirrors_example =
    subscribe-Mirrors (subscribe nobody 5 1 2).1 6 1 2
      (subscribe-Mirrors nobody 5 1 2 nobody_listed)

unsubscribe-Mirrors_example : Mirrors (unsubscribe two 5 1 2).1
unsubscribe-Mirrors_example = unsubscribe-Mirrors two 5 1 2 (
    subscribe-Mirrors (subscribe nobody 5 1 2).1 6 1 2
      (subscribe-Mirrors nobody 5 1 2 nobody_listed))

-- Session 5 alone is left, in the topic and in the scope.
left_five :
    ((unsubscribe two 6 1 2).1.topic_index ≡ (record { scope = 1; topic = 2 }, 5 ∷ []) ∷ [])
    × ((unsubscribe two 6 1 2).1.scope_index ≡ (1, 5 ∷ []) ∷ [])
unfolding subscribe unsubscribe count_scope add_to_index erase_from_index uncount_scope
    unsubscribe_from remove_scopes find find_or contains insert erase put erase_key
left_five = (refl, refl)

-- A reader behind the first of two bytes.
abbrev behind_one : ByteReader
behind_one = record { bytes = 1 ∷ 2 ∷ []; off = 1 }

-- A length whose sum with the offset wraps passes the check, and the reader goes back.
skip_back : skip_bytes (2 ^ 64 - 1) behind_one ≡ some (record { bytes = 1 ∷ 2 ∷ []; off = 0 })
unfolding skip_bytes ensure
skip_back = refl

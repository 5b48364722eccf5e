-- ===== src/Tests/Protocols.antt =====
-- A channel with two requests, of which one is answered and one times out, and an address.
use traffic_emulator.Common.{ℕ, none, some, [], ◌∷◌, ◌++◌, List, ◌≡◌, ◌+◌, refl, false}
use traffic_emulator.Common.Dict.{lookup, contains}
use traffic_emulator.Distributed.Protocol.{
  Message, Channel, ChannelAction, elsewhere, request, time_out, finish, read, lose_connection,
  waiting, channel_act, channel_acts, new_channel, colon, parse_address, lost,
}
use traffic_emulator.Distributed.Protocol.Futures.{IsChannel, reads, ended}
use traffic_emulator.Distributed.Protocol.Channels.{
  Delivers, new_channel-IsChannel, channel_acts-IsChannel, lose_connection-ends,
}
use traffic_emulator.Distributed.Protocol.Addresses.{decimal, parse_address-decimal}

abbrev reply : ℕ → Message ℕ
reply k = record { req = some k; content = 7 }

abbrev unasked : Message ℕ
unasked = record { req = none; content = 8 }

abbrev requests : List (ChannelAction ℕ)
requests =
    request
    ∷ elsewhere
    ∷ request
    ∷ read unasked
    ∷ time_out 3
    ∷ read (reply 3)
    ∷ read (reply 1)
    ∷ finish 1
    ∷ finish 3
    ∷ request
    ∷ lose_connection
    ∷ []

channel_acts-IsChannel_example :
    IsChannel (0 + reads requests (new_channel 1)) (channel_acts requests (new_channel 1))
    × Delivers (channel_acts requests (new_channel 1))
channel_acts-IsChannel_example =
    channel_acts-IsChannel 0 requests (new_channel 1) (new_channel-IsChannel 1)

abbrev asking : Channel ℕ
asking = record {
  ids = 2;
  futures = (1, waiting) ∷ [];
  pending = (1, tt) ∷ [];
  inbox = [];
  closed = false;
}

lose_connection-ends_example :
    (lookup 1 (channel_act lose_connection asking).futures ≡ ended lost (lookup 1 asking.futures))
    × ((channel_act lose_connection asking).pending ≡ [])
unfolding contains
lose_connection-ends_example = lose_connection-ends 1 asking refl

parse_address-decimal_example :
    parse_address ((104 ∷ 49 ∷ []) ++ colon ∷ decimal 7100) 7000 ≡ (104 ∷ 49 ∷ [], 7100)
parse_address-decimal_example = parse_address-decimal (104 ∷ 49 ∷ []) 7100 7000 (λ h. cc h)

-- ===== src/Distributed/Protocol.antt =====
-- src/distributed/protocol.py: the addresses, the actors' seeds, and `Channel` with its requests. The
-- coroutines of a channel interleave where they await, so its history is a list of actions.
pub mod Channels
pub mod Addresses
pub mod Futures
use traffic_emulator.Common.{
  ℕ, zero, suc, ◌+◌, ◌*◌, ◌-◌, Bool, true, false, ◌&&◌, Option, none, some, List, [], ◌∷◌, ◌++◌,
  ltb, leb, ◌==◌, if◌then◌else◌, all, Result, ok, err, connection_error,
}
use traffic_emulator.Common.Dict.{Dict, lookup, contains, insert, erase}

-- `ROLE_CODES`
pub data Role : Type 0 where
  source_role broker_role : Role

abbrev pub role_code : Role → ℕ
role_code source_role = 1
role_code broker_role = 2

unfoldable pub actor_seed : ℕ → Role → ℕ → List ℕ
actor_seed root_seed role index = root_seed ∷ role_code role ∷ index ∷ []

-- A string is the list of its characters' codes.
abbrev pub colon : ℕ
colon = 58

-- `str.isdigit` of one character, of the ASCII digits
abbrev pub is_digit : ℕ → Bool
is_digit c = leb 48 c && leb c 57

-- `str.isdigit`, not of the empty string; of the digits those of ASCII are modelled
abbrev pub is_number : List ℕ → Bool
is_number [] = false
is_number (c ∷ cs) = all is_digit (c ∷ cs)

-- `int(text)` of digits, after those that gave `value`
abbrev pub int_from : ℕ → List ℕ → ℕ
int_from value [] = value
int_from value (c ∷ cs) = int_from (value * 10 + (c - 48)) cs

-- `text.rpartition(":")`, or none without a colon
abbrev pub rpartition : List ℕ → Option (List ℕ × List ℕ)
rpartition [] = none
rpartition (c ∷ cs) = elim (rpartition cs) [
  | some (before, after) ↦ some (c ∷ before, after)
  | none ↦ if c == colon then some ([], cs) else none
]

-- the host and the port after the last colon; without a colon the host is empty
abbrev pub host_and_port : List ℕ → List ℕ × List ℕ
host_and_port address = elim (rpartition address) [ some parts ↦ parts | none ↦ ([], address) ]

abbrev pub or_else : List ℕ → List ℕ → List ℕ
or_else [] other = other
or_else (c ∷ cs) other = c ∷ cs

abbrev pub parsed : List ℕ → ℕ → List ℕ × List ℕ → List ℕ × ℕ
parsed address default_port (host, port) =
    if is_number port then (or_else host address, int_from 0 port) else (address, default_port)

unfoldable pub parse_address : List ℕ → ℕ → List ℕ × ℕ
parse_address address default_port = parsed address default_port (host_and_port address)

-- `connect_with_retry`: `attempts` says of each attempt whether the peer is up; after each failure the
-- source sleeps for `delay`. The number of attempts made comes with the connection.
unfoldable pub connect_with_retry : ℕ → (ℕ → Bool) → ℕ → Result ℕ
connect_with_retry zero is_up made = err connection_error
connect_with_retry (suc attempts) is_up made =
    let rest = connect_with_retry attempts is_up (suc made) in
    if is_up made then ok (suc made) else rest

-- a message with its `req`, if it has one
pub record Message (C : Type 0) : Type 0 where
  pub req : Option ℕ
  pub content : C

pub data Future (C : Type 0) : Type 0 where
  waiting cancelled lost : Future C
  resolved : Message C → Future C

-- A future is known by the request that made it; `pending` holds those that a reply may resolve. The
-- numbers `_ids` are shared by all channels.
pub record Channel (C : Type 0) : Type 0 where
  pub ids : ℕ
  pub futures : Dict (Future C)
  pub pending : Dict (Unit {0})
  pub inbox : List (Message C)
  pub closed : Bool

pub data ChannelAction (C : Type 0) : Type 0 where
  -- another channel makes a request
  elsewhere : ChannelAction C
  -- `request` up to where it waits for its future
  request : ChannelAction C
  -- `wait_for` gives up on a request
  time_out : ℕ → ChannelAction C
  -- the `finally` of a request
  finish : ℕ → ChannelAction C
  -- `_read_loop` reads a message, or ends
  read : Message C → ChannelAction C
  lose_connection : ChannelAction C

module _ {C : Type 0} where
  abbrev pub to_inbox : Message C → Channel C → Channel C
  to_inbox m c = record c { inbox = c.inbox ++ m ∷ [] }

  -- `future.set_result` unless it is done, when the message goes to the inbox
  abbrev pub resolve : ℕ → Message C → Option (Future C) → Channel C → Channel C
  resolve k m (some waiting) c = record c { futures = insert k (resolved m) c.futures }
  resolve k m _ c = to_inbox m c

  abbrev pub read_reply : ℕ → Message C → Channel C → Channel C
  read_reply k m c =
      if contains k c.pending
      then resolve k m (lookup k c.futures) (record c { pending = erase k c.pending })
      else to_inbox m c

  abbrev pub read_message : Message C → Channel C → Channel C
  read_message m c = elim m.req [ none ↦ to_inbox m c | some k ↦ read_reply k m c ]

  -- a waiting future ends as `how`
  abbrev pub end_future : ℕ → Future C → Dict (Future C) → Dict (Future C)
  end_future k how fs = elim (lookup k fs) [ some waiting ↦ insert k how fs | _ ↦ fs ]

  -- the `finally` of `_read_loop`
  abbrev pub fail_pending : Dict (Unit {0}) → Dict (Future C) → Dict (Future C)
  fail_pending [] fs = fs
  fail_pending ((k, _) ∷ pending) fs = fail_pending pending (end_future k lost fs)

  unfoldable pub channel_act : ChannelAction C → Channel C → Channel C
  channel_act elsewhere c = record c { ids = suc c.ids }
  channel_act request c = record c {
    ids = suc c.ids;
    futures = insert c.ids waiting c.futures;
    pending = insert c.ids tt c.pending;
  }
  channel_act (time_out k) c = record c { futures = end_future k cancelled c.futures }
  channel_act (finish k) c = record c { pending = erase k c.pending }
  channel_act (read m) c = if c.closed then c else read_message m c
  channel_act lose_connection c = record c {
    futures = fail_pending c.pending c.futures;
    pending = [];
    closed = true;
  }

  pub channel_acts : List (ChannelAction C) → Channel C → Channel C
  unfolding channel_act
  channel_acts [] c = c
  channel_acts (a ∷ later) c = channel_acts later (channel_act a c)

  -- a channel before its first request, when `ids` requests were made on others
  pub new_channel : ℕ → Channel C
  new_channel ids = record { ids = ids; futures = []; pending = []; inbox = []; closed = false }

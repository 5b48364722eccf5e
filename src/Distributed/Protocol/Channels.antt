-- ===== src/Distributed/Protocol/Channels.antt =====
-- What a channel keeps in any history of its coroutines: a reply reaches the request that it answers,
-- and no message is lost.
use traffic_emulator.Common.{
  ap, subst, ℕ, ◌+◌, ◌≡◌, refl, sym, ◌∙◌, Bool, true, false, Option, none, some, List, [], ◌∷◌,
  ◌==◌, if◌then◌else◌, inl, inr, Bool-cases, arith, ==_iff,
}
use traffic_emulator.Common.Dict.{
  Dict, lookup, contains, lookup-insert, erase, insert, sum_of-insert,
}
use traffic_emulator.Distributed.Protocol.{
  Message, Future, waiting, cancelled, lost, resolved, Channel, ChannelAction, elsewhere, request,
  time_out, finish, read, lose_connection, read_message, end_future, fail_pending, channel_act,
  channel_acts, new_channel,
}
use traffic_emulator.Distributed.Protocol.Futures.{
  sum_assoc, is_resolved, ended, lookup-end, reads_by, reads, IsChannel, end_future-IsChannel,
  fail_pending-IsChannel, waiting-ne-resolved, read_message-IsChannel,
}

module _ {C : Type 0} where
  -- one action, after `count` messages
  channel_act-IsChannel :
      (count : ℕ) (a : ChannelAction C) (c : Channel C)
      → IsChannel count c
      → IsChannel (count + reads_by a c) (channel_act a c)
  unfolding channel_act
  channel_act-IsChannel count elsewhere c ch = record {
    fresh = λ k below. ch.fresh k (omega arith);
    matched = ch.matched;
    counted = omega (arith, ch.counted);
  }
  channel_act-IsChannel count request c ch =
      let fs = c.futures in
      let entry = λ (j : ℕ). lookup-insert j c.ids waiting fs in
      record {
        fresh = λ k below. elim (Bool-cases (k == c.ids)) [
          | inl same ↦ absurd (omega (arith, (==_iff k c.ids).0 same))
          | inr other ↦ entry k ∙ rw other (ch.fresh k (omega arith))
        ];
        matched = λ k m e. elim (Bool-cases (k == c.ids)) [
          | inl same ↦ absurd (waiting-ne-resolved m refl (rw same at (sym (entry k) ∙ e)))
          | inr other ↦ ch.matched k m (rw other at (sym (entry k) ∙ e))
        ];
        counted = omega (
          arith,
          ch.counted,
          rw (ch.fresh c.ids (omega arith)) at (sum_of-insert is_resolved c.ids waiting fs),
        );
      }
  channel_act-IsChannel count (time_out k) c ch =
      subst (λ n. IsChannel n (channel_act (time_out k) c)) (omega arith)
        (end_future-IsChannel count k cancelled c refl ch)
  channel_act-IsChannel count (finish k) c ch = record {
    fresh = ch.fresh;
    matched = ch.matched;
    counted = omega (arith, ch.counted);
  }
  channel_act-IsChannel count (read m) c ch = read_act m c.closed c ch refl
    where
      read_act :
          (m : Message C) (shut : Bool) (c : Channel C)
          → IsChannel count c
          → c.closed ≡ shut
          → IsChannel (count + (if shut then 0 else 1)) (if shut then c else read_message m c)
      read_act m true c ch e = subst (λ n. IsChannel n c) (omega arith) ch
      read_act m false c ch e =
          subst (λ n. IsChannel n (read_message m c)) (omega arith)
            (read_message-IsChannel count m m.req c refl ch)
  channel_act-IsChannel count lose_connection c ch =
      let failed = fail_pending-IsChannel count c.pending c ch in
      record {
        fresh = failed.fresh;
        matched = failed.matched;
        counted = omega (arith, failed.counted);
      }

  pub new_channel-IsChannel : (ids : ℕ) → IsChannel 0 (new_channel {C = C} ids)
  unfolding new_channel
  new_channel-IsChannel ids = record {
    fresh = λ k below. refl;
    matched = λ k m e. cc;
    counted = refl;
  }

  kept_by :
      (count : ℕ) (history : List (ChannelAction C)) (c : Channel C)
      → IsChannel count c
      → IsChannel (count + reads history c) (channel_acts history c)
  unfolding channel_acts
  kept_by count [] c ch = subst (λ n. IsChannel n c) (omega arith) ch
  kept_by count (a ∷ later) c ch =
      subst (λ n. IsChannel n (channel_acts later (channel_act a c)))
        (sum_assoc count (reads_by a c) (reads later (channel_act a c)))
        (kept_by (count + reads_by a c) later (channel_act a c)
          (channel_act-IsChannel count a c ch))

  -- A request that waits for its answer gets the reply with its number.
  abbrev pub Delivers : Channel C → Type 0
  Delivers c =
      (k : ℕ) (m : Message C)
      → c.closed ≡ false
      → contains k c.pending ≡ true
      → lookup k c.futures ≡ some waiting
      → m.req ≡ some k
      → let after = channel_act (read m) c in
        (lookup k after.futures ≡ some (resolved m)) × (after.inbox ≡ c.inbox)

  read-resolves :
      (k : ℕ) (m : Message C) (c : Channel C)
      → contains k c.pending ≡ true
      → lookup k c.futures ≡ some waiting
      → m.req ≡ some k
      → read_message m c
        ≡ record c { pending = erase k c.pending; futures = insert k (resolved m) c.futures }
  read-resolves k m c known waits replies = rw (replies, known, waits) refl

  every-Delivers : (c : Channel C) → Delivers c
  unfolding channel_act
  every-Delivers c k m open_now known waits replies =
      let step : channel_act (read m) c
          ≡ record c { pending = erase k c.pending; futures = insert k (resolved m) c.futures } =
        ap (λ (b : Bool). if b then c else read_message m c) open_now
        ∙ read-resolves k m c known waits replies in
      (
        ap (λ (after : Channel C). lookup k after.futures) step
            ∙ lookup-insert k k (resolved m) c.futures
            ∙ ap (λ (b : Bool). if b then some (resolved m) else lookup k c.futures)
                ((==_iff k k).1 refl),
        ap (λ (after : Channel C). after.inbox) step,
      )

  -- In any history of a channel, with any requests made on others, from a state in which this holds (as
  -- it does of a new channel): the number that the next `request` takes is new, a request that was
  -- answered got a reply with its own number, and each message that was read is in the inbox or answered
  -- exactly one request. A reply that is read next with the number of a request that waits is the
  -- answer of that request, and does not go to the inbox.
  pub channel_acts-IsChannel :
      (count : ℕ) (history : List (ChannelAction C)) (c : Channel C)
      → IsChannel count c
      → IsChannel (count + reads history c) (channel_acts history c)
        × Delivers (channel_acts history c)
  channel_acts-IsChannel count history c ch =
      (kept_by count history c ch, every-Delivers (channel_acts history c))

  -- When the connection ends, every request that still waits and may be answered is told so: its future
  -- ends as lost, and no request is pending. Futures that are done stay as they are.
  pub lose_connection-ends :
      (k : ℕ) (c : Channel C)
      → contains k c.pending ≡ true
      → let after = channel_act lose_connection c in
        (lookup k after.futures ≡ ended lost (lookup k c.futures)) × (after.pending ≡ [])
  unfolding channel_act contains
  lose_connection-ends k c h = (fails c.pending c.futures h, refl)
    where
      done_once : (o : Option (Future C)) → ended lost (ended lost o) ≡ ended lost o
      done_once none = refl
      done_once (some waiting) = refl
      done_once (some cancelled) = refl
      done_once (some lost) = refl
      done_once (some (resolved m)) = refl

      choice :
          (b : Bool) (o o' w : Option (Future C))
          → (b ≡ true → o ≡ o')
          → o' ≡ ended lost w
          → (if b then ended lost o else o') ≡ ended lost w
      choice false o o' w same e = e
      choice true o o' w same e = ap (ended lost) (same refl ∙ e) ∙ done_once w

      entry_of : (j : ℕ) (fs : Dict (Future C)) → (k == j) ≡ true → lookup j fs ≡ lookup k fs
      entry_of j fs b = ap (λ i. lookup i fs) (sym ((==_iff k j).0 b))

      stays :
          (pending : Dict (Unit {0})) (fs : Dict (Future C)) (w : Option (Future C))
          → lookup k fs ≡ ended lost w
          → lookup k (fail_pending pending fs) ≡ ended lost w
      stays [] fs w e = e
      stays ((j, done) ∷ pending) fs w e = stays pending (end_future j lost fs) w (
          lookup-end k j lost (lookup j fs) fs refl
          ∙ choice (k == j) (lookup j fs) (lookup k fs) w (entry_of j fs) e)

      fails :
          (pending : Dict (Unit {0})) (fs : Dict (Future C))
          → contains k pending ≡ true
          → lookup k (fail_pending pending fs) ≡ ended lost (lookup k fs)
      fails [] fs h = cc
      fails ((j, done) ∷ pending) fs h =
          let entry = lookup-end k j lost (lookup j fs) fs refl in
          elim (Bool-cases (k == j)) [
            | inl same ↦
                stays pending (end_future j lost fs) (lookup k fs)
                  (entry ∙ rw same (ap (ended lost) (entry_of j fs same)))
            | inr other ↦
                fails pending (end_future j lost fs) (rw other at h)
                ∙ ap (ended lost) (entry ∙ rw other refl)
          ]

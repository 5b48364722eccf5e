-- ===== src/Distributed/Protocol/Futures.antt =====
-- What a channel keeps when a future ends or a reply is read.
use traffic_emulator.Common.{
  ap, ◌≢◌, ℕ, suc, ◌+◌, ◌≤◌, ◌≡◌, refl, sym, ◌∙◌, Bool, true, false, Option, none, some, List, [],
  ◌∷◌, length, length-append, ◌==◌, if◌then◌else◌, inl, inr, Bool-cases, arith, ==_iff,
}
use traffic_emulator.Common.Sums.{sum_of}
use traffic_emulator.Common.Dict.{
  Dict, lookup, contains, insert, erase, lookup-insert, sum_of-insert,
}
use traffic_emulator.Distributed.Protocol.{
  Message, Future, waiting, cancelled, lost, resolved, Channel, ChannelAction, read, to_inbox,
  resolve, read_reply, end_future, fail_pending, channel_act,
}

pub sum_assoc : (a b k : ℕ) → a + b + k ≡ a + (b + k)
sum_assoc a b k = omega arith

module _ {C : Type 0} where
  abbrev pub is_resolved : Future C → ℕ
  is_resolved (resolved m) = 1
  is_resolved _ = 0

  abbrev pub answered : Dict (Future C) → ℕ
  answered = sum_of λ (entry : ℕ × Future C). is_resolved entry.1

  abbrev pub ended : Future C → Option (Future C) → Option (Future C)
  ended how (some waiting) = some how
  ended how o = o

  same_entry :
      (j k : ℕ) (o : Option (Future C)) (fs : Dict (Future C))
      → lookup k fs ≡ o
      → lookup j fs ≡ (if j == k then o else lookup j fs)
  same_entry j k o fs h = elim (Bool-cases (j == k)) [
    | inl same ↦ rw same (ap (λ i. lookup i fs) ((==_iff j k).0 same) ∙ h)
    | inr other ↦ rw other refl
  ]

  pub lookup-end :
      (j k : ℕ) (how : Future C) (o : Option (Future C)) (fs : Dict (Future C))
      → lookup k fs ≡ o
      → lookup j (elim o [ some waiting ↦ insert k how fs | _ ↦ fs ])
        ≡ (if j == k then ended how o else lookup j fs)
  lookup-end j k how (some waiting) fs h = lookup-insert j k how fs
  lookup-end j k how none fs h = same_entry j k none fs h
  lookup-end j k how (some cancelled) fs h = same_entry j k (some cancelled) fs h
  lookup-end j k how (some lost) fs h = same_entry j k (some lost) fs h
  lookup-end j k how (some (resolved m)) fs h = same_entry j k (some (resolved m)) fs h

  answered-end :
      (k : ℕ) (how : Future C) (o : Option (Future C)) (fs : Dict (Future C))
      → is_resolved how ≡ 0
      → lookup k fs ≡ o
      → answered (elim o [ some waiting ↦ insert k how fs | _ ↦ fs ]) ≡ answered fs
  answered-end k how (some waiting) fs h e =
      omega (arith, rw (e, h) at (sum_of-insert is_resolved k how fs))
  answered-end k how none fs h e = refl
  answered-end k how (some cancelled) fs h e = refl
  answered-end k how (some lost) fs h e = refl
  answered-end k how (some (resolved m)) fs h e = refl

  -- the messages that an action reads, and a history
  abbrev pub reads_by : ChannelAction C → Channel C → ℕ
  reads_by (read m) c = if c.closed then 0 else 1
  reads_by _ c = 0

  abbrev pub reads : List (ChannelAction C) → Channel C → ℕ
  reads [] c = 0
  reads (a ∷ later) c = reads_by a c + reads later (channel_act a c)

  -- After `count` messages were read: the next number is new, a request that was answered got the reply
  -- with its number, and each message is in the inbox or answered one request.
  pub record IsChannel (count : ℕ) (c : Channel C) : Type 0 where
    pub fresh : (k : ℕ) → c.ids ≤ k → lookup k c.futures ≡ none
    pub matched : (k : ℕ) (m : Message C) → lookup k c.futures ≡ some (resolved m) → m.req ≡ some k
    pub counted : length c.inbox + answered c.futures ≡ count

  ended_iff :
      (how : Future C) (b : Bool) (o o' : Option (Future C)) (m : Message C)
      → is_resolved how ≡ 0
      → (if b then ended how o else o') ≡ some (resolved m)
      → (b ≡ true → o ≡ o')
      → o' ≡ some (resolved m)
  ended_iff how false o o' m h e same = e
  ended_iff how true none o' m h e same = cc
  ended_iff (resolved w) true (some waiting) o' m h e same = absurd (omega arith)
  ended_iff waiting true (some waiting) o' m h e same = cc
  ended_iff lost true (some waiting) o' m h e same = cc
  ended_iff cancelled true (some waiting) o' m h e same = cc
  ended_iff how true (some cancelled) o' m h e same = cc
  ended_iff how true (some lost) o' m h e same = cc
  ended_iff how true (some (resolved w)) o' m h e same = sym (same refl) ∙ e

  some-ne-none : (f : Future C) → some f ≢ none
  some-ne-none f e = cc

  ended_none :
      (how : Future C) (b : Bool) {o' : Option (Future C)} (o : Option (Future C))
      → o' ≡ none
      → (b ≡ true → o ≡ o')
      → (if b then ended how o else o') ≡ none
  ended_none how false o e same = e
  ended_none how true none e same = refl
  ended_none how true (some f) e same = absurd (some-ne-none f (same refl ∙ e))

  -- Ending a future without an answer keeps what the channel keeps.
  pub end_future-IsChannel :
      (count k : ℕ) (how : Future C) (c : Channel C)
      → is_resolved how ≡ 0
      → IsChannel count c
      → IsChannel count (record c { futures = end_future k how c.futures })
  end_future-IsChannel count k how c h ch =
      let fs = c.futures in
      let same = λ (j : ℕ) (b : (j == k) ≡ true). ap (λ i. lookup i fs) (sym ((==_iff j k).0 b)) in
      record {
        fresh = λ j below.
            lookup-end j k how (lookup k fs) fs refl
            ∙ ended_none how (j == k) (lookup k fs) (ch.fresh j below) (same j);
        matched = λ j m e. ch.matched j m (
            ended_iff how (j == k) (lookup k fs) (lookup j fs) m h
              (sym (lookup-end j k how (lookup k fs) fs refl) ∙ e) (same j));
        counted =
            ap (λ a. length c.inbox + a) (answered-end k how (lookup k fs) fs h refl) ∙ ch.counted;
      }

  pub fail_pending-IsChannel :
      (count : ℕ) (pending : Dict (Unit {0})) (c : Channel C)
      → IsChannel count c
      → IsChannel count (record c { futures = fail_pending pending c.futures })
  fail_pending-IsChannel count [] c ch = ch
  fail_pending-IsChannel count ((k, done) ∷ pending) c ch =
      fail_pending-IsChannel count pending (record c { futures = end_future k lost c.futures })
        (end_future-IsChannel count k lost c refl ch)

  pub to_inbox-IsChannel :
      (count : ℕ) (m : Message C) (c : Channel C)
      → IsChannel count c
      → IsChannel (suc count) (to_inbox m c)
  to_inbox-IsChannel count m c ch = record {
    fresh = ch.fresh;
    matched = ch.matched;
    counted = omega (arith, length-append c.inbox (m ∷ []), ch.counted);
  }

  pub waiting-ne-resolved :
      {f : Future C} (m : Message C) → f ≡ waiting → some f ≢ some (resolved m)
  waiting-ne-resolved m w e = cc

  resolved_injective : {m m' : Message C} → some (resolved m) ≡ some (resolved m') → m ≡ m'
  resolved_injective e = cc

  resolve-IsChannel :
      (count k : ℕ) (m : Message C) (o : Option (Future C)) (c : Channel C)
      → m.req ≡ some k
      → lookup k c.futures ≡ o
      → IsChannel count c
      → IsChannel (suc count) (resolve k m o c)
  resolve-IsChannel count k m (some waiting) c r h ch =
      let fs = c.futures in
      record {
        fresh = λ j below. elim (Bool-cases (j == k)) [
          | inl same ↦ absurd (
              some-ne-none waiting
                (sym h ∙ ap (λ i. lookup i fs) (sym ((==_iff j k).0 same)) ∙ ch.fresh j below))
          | inr other ↦ lookup-insert j k (resolved m) fs ∙ rw other (ch.fresh j below)
        ];
        matched = λ j m' e. elim (Bool-cases (j == k)) [
          | inl same ↦
              let e' : some (resolved m) ≡ some (resolved m') =
                rw same at (sym (lookup-insert j k (resolved m) fs) ∙ e) in
              sym (ap Message.req (resolved_injective e')) ∙ r ∙ ap some (sym ((==_iff j k).0 same))
          | inr other ↦ ch.matched j m' (rw other at (sym (lookup-insert j k (resolved m) fs) ∙ e))
        ];
        counted = omega (arith, ch.counted, rw h at (sum_of-insert is_resolved k (resolved m) fs));
      }
  resolve-IsChannel count k m none c r h ch = to_inbox-IsChannel count m c ch
  resolve-IsChannel count k m (some cancelled) c r h ch = to_inbox-IsChannel count m c ch
  resolve-IsChannel count k m (some lost) c r h ch = to_inbox-IsChannel count m c ch
  resolve-IsChannel count k m (some (resolved w)) c r h ch = to_inbox-IsChannel count m c ch

  pub read_message-IsChannel :
      (count : ℕ) (m : Message C) (r : Option ℕ) (c : Channel C)
      → m.req ≡ r
      → IsChannel count c
      → IsChannel (suc count) (elim r [ none ↦ to_inbox m c | some k ↦ read_reply k m c ])
  read_message-IsChannel count m none c r ch = to_inbox-IsChannel count m c ch
  read_message-IsChannel count m (some k) c r ch = elim (Bool-cases (contains k c.pending)) [
    | inl known ↦ rw known (
        resolve-IsChannel count k m (lookup k c.futures) (record c { pending = erase k c.pending })
          r refl (record { fresh = ch.fresh; matched = ch.matched; counted = ch.counted }))
    | inr stale ↦ rw stale (to_inbox-IsChannel count m c ch)
  ]

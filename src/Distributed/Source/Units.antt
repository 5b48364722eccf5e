-- ===== src/Distributed/Source/Units.antt =====
-- No unit of a source is lost on its access links: what the actions of the
-- worker do to their number.
use traffic_emulator.Common.{
  ℕ, ◌+◌, ◌≡◌, refl, ap, sym, ◌∙◌, Option, none, some, List, [], ◌∷◌, ◌++◌, map, length,
  length-append, get_elem?, set, arith, ok, ◌<◌, All, Returns, Returns-total, returns, length-set,
  length-map, get_elem?_total,
}
use traffic_emulator.Common.Sums.{sum_of, sum_of-set}
use traffic_emulator.Num.{Num, IsOrdered}
use traffic_emulator.Num.Elementary.{Elementary, IsElementary}
use traffic_emulator.Control.Synchronous.Responses.{respond_total}
use traffic_emulator.Distributed.Source.{
  Link, Sent, Generated, SourceWorker, SourceAction, SourceOutcome, generate, take, send_on,
  best_response, routing, source_act, source_acts, source_metrics, in_link, enqueue, begin_access,
  end_access,
}

module _ {R : Type 0} where
  end_access-in_link :
      (l : Link R) (serving : Option (Sent R))
      → let before = record l { in_service = serving } in
        in_link (end_access before).1 + length (end_access before).0 ≡ in_link before
  end_access-in_link l (some v) = omega arith
  end_access-in_link l none = omega arith

  -- The link that is written holds one unit more.
  pub enqueue-in_link :
      (t : R) (j : ℕ) (l : Link R) (w : SourceWorker R)
      → get_elem? w.links j ≡ some l
      → sum_of in_link (enqueue t j l w).links ≡ sum_of in_link w.links + 1
  enqueue-in_link t j l w found =
      let u : Generated R = record { number = w.unit_ids; broker = j; generated = t } in
      let l' = record l { waiting = l.waiting ++ u ∷ []; routed = l.routed + 1 } in
      omega (arith, sum_of-set in_link w.links j l l' found, length-append l.waiting (u ∷ []))

  -- What a link finishes leaves it.
  pub sent-in_link :
      (j : ℕ) (l : Link R) (w : SourceWorker R)
      → get_elem? w.links j ≡ some l
      → sum_of in_link (set w.links j (end_access l).1) + length (end_access l).0
        ≡ sum_of in_link w.links
  sent-in_link j l w found = omega (
    arith,
    sum_of-set in_link w.links j l (end_access l).1 found,
    end_access-in_link l l.in_service,
  )

  reset-in_link :
      (links : List (Link R))
      → sum_of in_link (map (λ (l : Link R). record l { routed = 0 }) links) ≡ sum_of in_link links
  reset-in_link [] = refl
  reset-in_link (l ∷ links) = omega (arith, reset-in_link links)

  -- An action names a link that exists, and a request has a price for each link.
  abbrev pub Fitting : ℕ → SourceAction R → Type 0
  Fitting count (generate t j) = j < count
  Fitting count (take j drawn) = j < count
  Fitting count (send_on j) = j < count
  Fitting count (best_response prices) = length prices ≡ count
  Fitting count (routing row) = Unit

  -- Each unit that was generated was sent on or is on a link, and the links stay.
  pub record IsBalanced (count : ℕ) (w : SourceWorker R) (o : SourceOutcome R) : Type 0 where
    pub balance :
        sum_of in_link (o.source_worker).links + length o.sent + w.generated_total
        ≡ sum_of in_link w.links + (o.source_worker).generated_total
    pub links_same : length (o.source_worker).links ≡ count
    pub mu_same : (o.source_worker).mu_row ≡ w.mu_row

module _ {R : Type 0} ⦃n : Num R⦄ where
  begin_access-in_link :
      (drawn : R) (l : Link R) (serving : Option (Sent R)) (waiting : List (Generated R))
      → let before = record l { in_service = serving; waiting = waiting } in
        in_link (begin_access drawn before) ≡ in_link before
  begin_access-in_link drawn l (some v) waiting = refl
  begin_access-in_link drawn l none [] = refl
  begin_access-in_link drawn l none (u ∷ rest) = omega arith

  module _ ⦃e : Elementary R⦄ (laws : IsOrdered R) (elementary : IsElementary R) (count : ℕ) where
    source_act-IsBalanced :
        (a : SourceAction R) (w : SourceWorker R)
        → Fitting count a
        → length w.links ≡ count
        → length w.mu_row ≡ count
        → Returns (IsBalanced count w) (source_act a w)
    unfolding source_act source_metrics
    source_act-IsBalanced (generate t j) w fit wide mus =
        let (l, found) = get_elem?_total w.links j (omega (arith, fit, wide)) in
        rw found (record {
          balance = omega (arith, enqueue-in_link t j l w found);
          links_same = length-set w.links j _ ∙ wide;
          mu_same = refl;
        })
    source_act-IsBalanced (take j drawn) w fit wide mus =
        let (l, found) = get_elem?_total w.links j (omega (arith, fit, wide)) in
        rw found (record {
          balance = omega (
            arith,
            sum_of-set in_link w.links j l (begin_access drawn l) found,
            begin_access-in_link drawn l l.in_service l.waiting,
          );
          links_same = length-set w.links j _ ∙ wide;
          mu_same = refl;
        })
    source_act-IsBalanced (send_on j) w fit wide mus =
        let (l, found) = get_elem?_total w.links j (omega (arith, fit, wide)) in
        rw found (record {
          balance = omega (arith, sent-in_link j l w found);
          links_same = length-set w.links j _ ∙ wide;
          mu_same = refl;
        })
    source_act-IsBalanced (best_response prices) w fit wide mus =
        let (answer, responded) =
          respond_total laws elementary w.mu_row prices [] w.rate (fit ∙ sym mus) in
        rw responded (record {
          balance = omega (arith, reset-in_link w.links);
          links_same = length-map w.links _ ∙ wide;
          mu_same = refl;
        })
    source_act-IsBalanced (routing row) w fit wide mus = record {
      balance = omega arith;
      links_same = wide;
      mu_same = refl;
    }

    source_acts-cons :
        (a : SourceAction R) (later : List (SourceAction R)) (w : SourceWorker R)
        {first rest : SourceOutcome R}
        → source_act a w ≡ ok first
        → source_acts later first.source_worker ≡ ok rest
        → source_acts (a ∷ later) w
          ≡ ok (record {
            sent = first.sent ++ rest.sent;
            source_reports = first.source_reports ++ rest.source_reports;
            replies = first.replies ++ rest.replies;
            source_worker = rest.source_worker;
          })
    unfolding source_acts
    source_acts-cons a later w began ended = rw (began, ended)

    -- Every history of a source worker whose actions name its links, and whose requests have a price
    -- for each link, returns: a best response that fails is a reply, not an exception. The units
    -- generated in it and those that were on a link before it are the ones sent on in it and those
    -- that are on a link after it.
    pub source_acts-IsBalanced :
        (actions : List (SourceAction R)) (w : SourceWorker R)
        → All (Fitting count) actions
        → length w.links ≡ count
        → length w.mu_row ≡ count
        → Returns (IsBalanced count w) (source_acts actions w)
    unfolding source_acts
    source_acts-IsBalanced [] w fit wide mus = record {
      balance = omega arith;
      links_same = wide;
      mu_same = refl;
    }
    source_acts-IsBalanced (a ∷ later) w fit wide mus =
        let (first, began, h) =
          Returns-total (IsBalanced count w) (source_act a w)
            (source_act-IsBalanced a w fit.0 wide mus) in
        let (rest, ended, k) =
          Returns-total (IsBalanced count first.source_worker)
            (source_acts later first.source_worker)
            (source_acts-IsBalanced later first.source_worker fit.1 h.links_same
              (ap length h.mu_same ∙ mus)) in
        returns (IsBalanced count w)
          (record {
            sent = first.sent ++ rest.sent;
            source_reports = first.source_reports ++ rest.source_reports;
            replies = first.replies ++ rest.replies;
            source_worker = rest.source_worker;
          })
          (source_acts-cons a later w began ended)
          (record {
            balance = omega (arith, h.balance, k.balance, length-append first.sent rest.sent);
            links_same = k.links_same;
            mu_same = k.mu_same ∙ h.mu_same;
          })

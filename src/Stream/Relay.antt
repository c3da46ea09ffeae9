-- ===== src/Stream/Relay.antt =====
-- The pump loses, repeats and reorders nothing, whatever the endpoints accept.
use mathlib.Core.List.{append_assoc, append-nil}
use zigbee_gateway.Common.{
  ℕ, ◌+◌, ◌-◌, ◌*◌, ◌≤◌, ◌<◌, min, ◌≡◌, refl, ap, sym, ◌∙◌, arith, true, false, List, [], ◌∷◌, ◌++◌,
  ◌≢◌, ◌||◌, ltb, ◌==◌, if◌then◌else◌, length, take, drop, Bool-cases, inl, inr, ==→eq,
  length-append, length-take, length-drop, take-split, take-take, drop-drop, take-append_length,
}
use zigbee_gateway.Stream.Endpoint.{
  ZigbeeStreamIoState, progress, would_block, closed, error, ZigbeeStreamEndpoint, IsEndpoint,
}
use zigbee_gateway.Stream.Pump.{
  DirectionBuffer, buffer_size, loop_io_budget, Flow, Turn, go_on, finish, Codes, outgoing,
  sub_size, requested, after_write, after_read,
}

-- The bytes that a buffer holds back.
abbrev pub queued : DirectionBuffer → List ℕ
queued b = take b.count (drop b.offset b.bytes)

pub record IsBuffer (b : DirectionBuffer) : Type 0 where
  pub fits : b.offset + b.count ≤ buffer_size
  pub size : length b.bytes ≡ buffer_size

module _ {S T : Type 0} (received given : S → List ℕ) (taken sent : T → List ℕ) where
  -- `before` is what was to be sent ahead of all that the source delivers, and `work` bounds the
  -- bytes sent so far and the budget left together. What goes the other way, `gave` to the source
  -- and `took` from the target, stays.
  pub record IsRelayed (before gave took : List ℕ) (work : ℕ) (f : Flow S T) : Type 0 where
    pub buffer : IsBuffer f.buffer
    pub budget : f.budget ≤ loop_io_budget
    pub spent : length (sent f.target) + f.budget ≤ work
    pub relayed : before ++ received f.source ≡ sent f.target ++ queued f.buffer
    pub source_same : given f.source ≡ gave
    pub target_same : taken f.target ≡ took

-- Two units for each byte of the budget, and one if the next turn reads.
unfoldable pub measure : {S T : Type 0} → Flow S T → ℕ
measure f = 2 * f.budget + (if f.buffer.count == 0 then 1 else 0)

nil_of_length : (xs : List ℕ) → length xs ≡ 0 → xs ≡ []
nil_of_length [] h = refl
nil_of_length (x ∷ xs) h = absurd (omega arith)

-- What is left queued once `c` of the queued bytes are gone.
queued-split :
    (b : DirectionBuffer) (c : ℕ)
    → c ≤ b.count
    → queued b ≡ take c (drop b.offset b.bytes) ++ take (b.count - c) (drop (b.offset + c) b.bytes)
queued-split b c h =
    take-split c b.count (drop b.offset b.bytes) h
    ∙ ap (λ (t : List ℕ). take c (drop b.offset b.bytes) ++ take (b.count - c) t)
        (drop-drop b.offset c b.bytes)

module _ {S T : Type 0} (source : ZigbeeStreamEndpoint S) (target : ZigbeeStreamEndpoint T)
    (codes : Codes) (received given : S → List ℕ) (taken sent : T → List ℕ)
    (from : IsEndpoint source received given) (to : IsEndpoint target taken sent)
    (before gave took : List ℕ) (work : ℕ) where
  abbrev pub Holds : Flow S T → Type 0
  Holds f = IsRelayed received given taken sent before gave took work f

  -- What a turn leaves: the invariant, and less to do if the loop goes on.
  abbrev pub Kept : ℕ → Turn S T → Type 0
  Kept m (go_on f) = Holds f × (measure f < m)
  Kept m (finish f result) = Holds f

  -- A call that moves nothing.
  idle_write :
      (f : Flow S T) {t : T}
      → Holds f
      → taken t ≡ taken f.target
      → sent t ≡ sent f.target
      → Holds (record f { target = t })
  idle_write f h kept same = record {
    source_same = h.source_same;
    target_same = kept ∙ h.target_same;
    buffer = h.buffer;
    budget = h.budget;
    spent = rw same h.spent;
    relayed = rw same h.relayed;
  }

  -- A write that takes `c` bytes.
  module _ (f : Flow S T) (h : Holds f) (busy : (f.buffer.count == 0) ≡ false) (c : ℕ) (t : T)
      (t_kept : taken t ≡ taken f.target) (c_fits : c ≤ length (outgoing f))
      (t_sent : sent t ≡ sent f.target ++ take c (outgoing f)) where
    c_count : (c ≤ f.buffer.count) × (c ≤ f.budget)
    c_count =
        omega
          (arith, length-take (min f.buffer.count f.budget) (drop f.buffer.offset f.buffer.bytes))

    t_takes : sent t ≡ sent f.target ++ take c (drop f.buffer.offset f.buffer.bytes)
    t_takes =
        t_sent
        ∙ ap (λ (xs : List ℕ). sent f.target ++ xs)
            (take-take c (min f.buffer.count f.budget) (drop f.buffer.offset f.buffer.bytes)
              (omega (arith, c_count)))

    sent_length : length (sent t) ≤ length (sent f.target) + c
    sent_length = omega (
      arith,
      ap (λ (xs : List ℕ). length xs) t_takes,
      length-append (sent f.target) (take c (drop f.buffer.offset f.buffer.bytes)),
      length-take c (drop f.buffer.offset f.buffer.bytes),
    )

    -- What is sent and what stays queued make up what was queued.
    rest_relayed :
        before ++ received f.source
        ≡ sent t ++ take (f.buffer.count - c) (drop (f.buffer.offset + c) f.buffer.bytes)
    rest_relayed =
        h.relayed
        ∙ ap (λ (xs : List ℕ). sent f.target ++ xs) (queued-split f.buffer c c_count.0)
        ∙ sym (append_assoc (sent f.target) _ _)
        ∙ ap
            (λ (xs : List ℕ).
              xs ++ take (f.buffer.count - c) (drop (f.buffer.offset + c) f.buffer.bytes))
            (sym t_takes)

    left_count : sub_size f.buffer.count c ≡ f.buffer.count - c
    left_count = omega (arith, c_count, h.buffer.fits)

    left_budget : sub_size f.budget c ≡ f.budget - c
    left_budget = omega (arith, c_count, h.budget)

    abbrev resumed : ℕ → ℕ → ℕ → Flow S T
    resumed offset count budget = record {
      source = f.source;
      target = t;
      buffer = record { bytes = f.buffer.bytes; offset = offset; count = count };
      budget = budget;
    }

    resumed-Kept :
        0 < c
        → Holds (
            resumed
              (if f.buffer.count - c == 0 then 0 else f.buffer.offset + c)
              (f.buffer.count - c)
              (f.budget - c))
    resumed-Kept moved = elim (Bool-cases (f.buffer.count - c == 0)) [
      | inl done ↦ rw done (record {
        source_same = h.source_same;
        target_same = t_kept ∙ h.target_same;
        buffer = record { fits = ground (arith, h.buffer.fits); size = h.buffer.size };
        budget = omega (arith, h.budget);
        spent = omega (arith, h.spent, sent_length, c_count);
        relayed = rw (==→eq _ _ done) (rw (==→eq _ _ done) at rest_relayed);
      })
      | inr more ↦ rw more (record {
        source_same = h.source_same;
        target_same = t_kept ∙ h.target_same;
        buffer = record { fits = omega (arith, h.buffer.fits, c_count); size = h.buffer.size };
        budget = omega (arith, h.budget);
        spent = omega (arith, h.spent, sent_length, c_count);
        relayed = rest_relayed;
      })
    ]

  pub after_write-Kept :
      (f : Flow S T)
      → Holds f
      → (f.buffer.count == 0) ≡ false
      → (st : ZigbeeStreamIoState) → (target.write f.target (outgoing f)).result.state ≡ st
      → Kept (measure f) (after_write source target codes f st (target.write f.target (outgoing f)))
  unfolding after_write measure
  after_write-Kept f h busy progress e =
      let r = target.write f.target (outgoing f) in
      let c = r.result.count in
      let fits : c ≤ length (outgoing f) = to.write_counts f.target (outgoing f) e in
      let sends : sent r.endpoint ≡ sent f.target ++ take c (outgoing f) =
        to.write_sent f.target (outgoing f) e in
      let keeps = to.write_received f.target (outgoing f) in
      let within = c_count f h busy c r.endpoint keeps fits sends in
      elim (Bool-cases (c == 0 || ltb f.buffer.count c)) [
        | inl bad ↦
            let none_moved : c ≡ 0 = ground (arith, within) in
            rw bad (record {
              source_same = h.source_same;
              target_same = keeps ∙ h.target_same;
              buffer = h.buffer;
              budget = h.budget;
              spent =
                  omega (
                    arith,
                    h.spent,
                    none_moved,
                    sent_length f h busy c r.endpoint keeps fits sends,
                  );
              relayed =
                  h.relayed
                  ∙ ap (λ (xs : List ℕ). xs ++ queued f.buffer)
                      (sym (sends ∙ rw none_moved (append-nil (sent f.target))));
            })
        | inr good ↦
            rw
              (
                good,
                left_count f h busy c r.endpoint keeps fits sends,
                left_budget f h busy c r.endpoint keeps fits sends,
              )
              (
                resumed-Kept f h busy c r.endpoint keeps fits sends (ground arith),
                ground (arith, within),
              )
      ]
  after_write-Kept f h busy would_block e =
      idle_write f h (to.write_received f.target (outgoing f))
        (to.write_idle f.target (outgoing f) (λ p. cc))
  after_write-Kept f h busy closed e =
      idle_write f h (to.write_received f.target (outgoing f))
        (to.write_idle f.target (outgoing f) (λ p. cc))
  after_write-Kept f h busy error e =
      idle_write f h (to.write_received f.target (outgoing f))
        (to.write_idle f.target (outgoing f) (λ p. cc))

  -- A read that delivers nothing.
  idle_read :
      (f : Flow S T) {s : S}
      → Holds f
      → given s ≡ given f.source
      → received s ≡ received f.source
      → Holds (record f { source = s })
  idle_read f h kept same = record {
    source_same = kept ∙ h.source_same;
    target_same = h.target_same;
    buffer = h.buffer;
    budget = h.budget;
    spent = h.spent;
    relayed = rw same h.relayed;
  }

  nothing_read :
      (f : Flow S T) (st : ZigbeeStreamIoState)
      → st ≢ progress
      → (source.read f.source (requested f)).result.state ≡ st
      → received (source.read f.source (requested f)).endpoint ≡ received f.source
  nothing_read f st other e =
      from.read_received f.source (requested f)
      ∙ ap (λ (xs : List ℕ). received f.source ++ xs)
          (from.read_idle f.source (requested f) (λ p. other (sym e ∙ p)))
      ∙ append-nil (received f.source)

  pub after_read-Kept :
      (f : Flow S T)
      → Holds f
      → (f.buffer.count == 0) ≡ true
      → (f.budget == 0) ≡ false
      → (st : ZigbeeStreamIoState) → (source.read f.source (requested f)).result.state ≡ st
      → Kept (measure f) (after_read source target codes f st (source.read f.source (requested f)))
  unfolding after_read measure
  after_read-Kept f h free budgeted progress e =
      let r = source.read f.source (requested f) in
      let counts = from.read_counts f.source (requested f) e in
      let delivers : received r.endpoint ≡ received f.source ++ r.bytes =
        from.read_received f.source (requested f) in
      let empty : f.buffer.count ≡ 0 = ==→eq _ _ free in
      let start : before ++ received f.source ≡ sent f.target =
        h.relayed
        ∙ ap (λ (n : ℕ). sent f.target ++ take n (drop f.buffer.offset f.buffer.bytes)) empty
        ∙ append-nil (sent f.target) in
      let all_before : before ++ received r.endpoint ≡ sent f.target ++ r.bytes =
        ap (λ (xs : List ℕ). before ++ xs) delivers
        ∙ sym (append_assoc before (received f.source) r.bytes)
        ∙ ap (λ (xs : List ℕ). xs ++ r.bytes) start in
      let stored_size : length (r.bytes ++ drop (length r.bytes) f.buffer.bytes) ≡ 1024 = omega (
        arith,
        counts,
        h.buffer.size,
        length-append r.bytes (drop (length r.bytes) f.buffer.bytes),
        length-drop (length r.bytes) f.buffer.bytes,
      ) in
      elim (Bool-cases (r.result.count == 0 || ltb (requested f) r.result.count)) [
        | inl bad ↦
            let none_moved : length r.bytes ≡ 0 = ground (arith, counts) in
            rw bad (record {
              source_same = from.read_sent f.source (requested f) ∙ h.source_same;
              target_same = h.target_same;
              buffer = record { fits = h.buffer.fits; size = stored_size };
              budget = h.budget;
              spent = h.spent;
              relayed =
                  all_before
                  ∙ ap (λ (xs : List ℕ). sent f.target ++ xs)
                      (nil_of_length r.bytes none_moved
                        ∙ sym (
                            ap
                              (λ (n : ℕ). take n (
                                drop f.buffer.offset
                                  (r.bytes ++ drop (length r.bytes) f.buffer.bytes)))
                              empty));
            })
        | inr good ↦ rw good (
          record {
            source_same = from.read_sent f.source (requested f) ∙ h.source_same;
            target_same = h.target_same;
            buffer = record { fits = omega (arith, counts, h.buffer.size); size = stored_size };
            budget = h.budget;
            spent = h.spent;
            relayed =
                all_before
                ∙ ap (λ (xs : List ℕ). sent f.target ++ xs)
                    (sym (
                      ap (λ (n : ℕ). take n (r.bytes ++ drop (length r.bytes) f.buffer.bytes))
                        (sym counts.0)
                      ∙ take-append_length r.bytes _));
          },
          ground arith,
        )
      ]
  after_read-Kept f h free budgeted would_block e =
      idle_read f h (from.read_sent f.source (requested f)) (nothing_read f would_block (λ p. cc) e)
  after_read-Kept f h free budgeted closed e =
      idle_read f h (from.read_sent f.source (requested f)) (nothing_read f closed (λ p. cc) e)
  after_read-Kept f h free budgeted error e =
      idle_read f h (from.read_sent f.source (requested f)) (nothing_read f error (λ p. cc) e)

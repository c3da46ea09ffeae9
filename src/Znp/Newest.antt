-- ===== src/Znp/Newest.antt =====
-- The newest entries of the queue of observations.
use mathlib.Core.List.{append-nil}
use mathlib.Core.Option.{Option, none, some}
use zigbee_gateway.Common.{
  ℕ, zero, suc, ◌+◌, ◌-◌, ◌≤◌, ◌≡◌, refl, sym, ap, ◌∙◌, arith, Bool, true, false, List, [], ◌∷◌,
  ◌++◌, ◌==◌, length, drop, length-drop, length-append, drop-drop, Bool-cases, inl, inr,
}
use zigbee_gateway.Serial.Owner.{zigbee_serial_owner_allows_passive_znp_observation}
use zigbee_gateway.Znp.Observer.{ZnpObservation}
use zigbee_gateway.Znp.Sniffer.{Observed, tail_of, queue_znp_observation, queue_decoded, publish}

-- What a result of the decoder adds.
abbrev pub seen : Bool × Option ZnpObservation → List ZnpObservation
seen (true, some o) = o ∷ []
seen (true, none) = []
seen (false, r) = []

-- The last 8 entries.
abbrev pub newest : {A : Type 0} → List A → List A
newest xs = drop (length xs - 8) xs

module _ {A : Type 0} where
  drop-append : (n : ℕ) (xs ys : List A) → n ≤ length xs → drop n (xs ++ ys) ≡ drop n xs ++ ys
  drop-append zero xs ys h = refl
  drop-append (suc n) [] ys h = absurd (omega arith)
  drop-append (suc n) (x ∷ xs) ys h = drop-append n xs ys (omega arith)

  pub newest-newest : (xs ys : List A) → newest (newest xs ++ ys) ≡ newest (xs ++ ys)
  newest-newest xs ys =
      let k = length xs - 8 in
      let rest = length (drop k xs ++ ys) - 8 in
      let count : k + rest ≡ length (xs ++ ys) - 8 =
        omega (arith, length-append (drop k xs) ys, length-drop k xs, length-append xs ys) in
      ap (drop rest) (sym (drop-append k xs ys (omega arith)))
      ∙ drop-drop k rest (xs ++ ys)
      ∙ ap (λ (n : ℕ). drop n (xs ++ ys)) count

  tail-newest :
      (xs : List A) (o : A) → length xs ≡ 8 → tail_of xs ++ (o ∷ []) ≡ newest (xs ++ o ∷ [])
  tail-newest [] o h = absurd (omega arith)
  tail-newest (x ∷ xs) o h =
      let one : length ((x ∷ xs) ++ o ∷ []) - 8 ≡ 1 = omega (arith, length-append xs (o ∷ [])) in
      rw one refl

  all-newest : (xs : List A) → length xs ≤ 8 → xs ≡ newest xs
  all-newest xs h = let none_left : length xs - 8 ≡ 0 = omega arith in rw none_left refl

  pub all-newest_nil : (xs : List A) → length xs ≤ 8 → xs ≡ newest (xs ++ [])
  all-newest_nil xs h = rw (append-nil xs) (all-newest xs h)

-- The members that a sniffed frame leaves as they are.
abbrev pub Kept : Observed → Observed → Type 0
Kept g h =
    (h.sniffer_enabled ≡ g.sniffer_enabled) × (h.owner ≡ g.owner) × (h.tx_sniffer ≡ g.tx_sniffer)

pub queue_decoded-Kept :
    (g : Observed) (r : Bool × Option ZnpObservation) → Kept g (queue_decoded g r)
unfolding queue_znp_observation
queue_decoded-Kept g (true, some o) = ground arith
queue_decoded-Kept g (true, none) = (refl, refl, refl)
queue_decoded-Kept g (false, r) = (refl, refl, refl)

pub publish-Kept : (g : Observed) (r : Option ℕ) → Kept g (publish g r)
publish-Kept g none = (refl, refl, refl)
publish-Kept g (some d) = ground arith

pub queue_decoded-newest :
    (g : Observed) (r : Bool × Option ZnpObservation)
    → zigbee_serial_owner_allows_passive_znp_observation g.owner ≡ true
    → length g.pending_znp_observations ≤ 8
    → (queue_decoded g r).pending_znp_observations ≡ newest (g.pending_znp_observations ++ seen r)
unfolding queue_znp_observation
queue_decoded-newest g (true, some o) allowed few =
    let xs = g.pending_znp_observations in
    elim (Bool-cases (length xs == 8)) [
      | inl full ↦ rw (allowed, full) (tail-newest xs o (ground arith))
      | inr room ↦
          rw (allowed, room) (all-newest (xs ++ o ∷ []) (ground (arith, length-append xs (o ∷ []))))
    ]
queue_decoded-newest g (true, none) allowed few = all-newest_nil g.pending_znp_observations few
queue_decoded-newest g (false, r) allowed few = all-newest_nil g.pending_znp_observations few

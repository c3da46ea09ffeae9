-- ===== src/Znp/Bounds.antt =====
-- The observer reads nothing behind the payload, and what the role rests on.
use mathlib.Core.Option.{Option, none, some}
use zigbee_gateway.Common.{
  ℕ, zero, suc, ◌+◌, ◌%◌, ◌≤◌, ◌<◌, ◌≡◌, ◌↔◌, ◌⊎◌, refl, arith, List, [], ◌∷◌, get_or, take,
}
use zigbee_gateway.Common.Bits.{and_7}
use zigbee_gateway.Znp.Observer.{
  ZnpObservation, coordinator, router, end_device, znp_observed_role, observe_sys_version,
  observe_device_info, observe_ext_network_info, observe_state_change, decode_znp_observation,
  eight_bytes,
}

-- A running state decides the role; without one, a single capability does.
pub observed_role_iff :
    (capabilities state : ℕ)
    → let decided = (state ≡ 6) ⊎ (state ≡ 7) ⊎ (state ≡ 8) ⊎ (state ≡ 9) in
      ((znp_observed_role capabilities state ≡ coordinator)
        ↔ ((state ≡ 8) ⊎ (state ≡ 9) ⊎ ((¬ decided) × (capabilities % 8 ≡ 1))))
      × ((znp_observed_role capabilities state ≡ router)
          ↔ ((state ≡ 7) ⊎ ((¬ decided) × (capabilities % 8 ≡ 2))))
      × ((znp_observed_role capabilities state ≡ end_device)
          ↔ ((state ≡ 6) ⊎ ((¬ decided) × (capabilities % 8 ≡ 4))))
unfolding znp_observed_role
observed_role_iff capabilities state = ground (arith, and_7 capabilities)

get_or-take : (n i : ℕ) (xs : List ℕ) → i < n → get_or (take n xs) i 0 ≡ get_or xs i 0
get_or-take zero i xs h = absurd (omega arith)
get_or-take (suc n) i [] h = refl
get_or-take (suc n) zero (x ∷ xs) h = refl
get_or-take (suc n) (suc i) (x ∷ xs) h = get_or-take n i xs (omega arith)

module _ (n : ℕ) (p : List ℕ) where
  sys_version-take : 9 ≤ n → observe_sys_version (take n p) ≡ observe_sys_version p
  unfolding observe_sys_version
  sys_version-take h = rw (
    get_or-take n 2 p (omega arith),
    get_or-take n 3 p (omega arith),
    get_or-take n 4 p (omega arith),
    get_or-take n 5 p (omega arith),
    get_or-take n 6 p (omega arith),
    get_or-take n 7 p (omega arith),
    get_or-take n 8 p (omega arith),
  )

  eight_bytes-take : (i : ℕ) → i + 8 ≤ n → eight_bytes (take n p) i ≡ eight_bytes p i
  eight_bytes-take i h = rw (
    get_or-take n (i + 0) p (omega arith),
    get_or-take n (i + 1) p (omega arith),
    get_or-take n (i + 2) p (omega arith),
    get_or-take n (i + 3) p (omega arith),
    get_or-take n (i + 4) p (omega arith),
    get_or-take n (i + 5) p (omega arith),
    get_or-take n (i + 6) p (omega arith),
    get_or-take n (i + 7) p (omega arith),
  )

  device_info-take : 14 ≤ n → observe_device_info (take n p) ≡ observe_device_info p
  unfolding observe_device_info
  device_info-take h = rw (
    eight_bytes-take 1 (omega arith),
    get_or-take n 11 p (omega arith),
    get_or-take n 12 p (omega arith),
  )

  ext_network_info-take : n ≡ 24 → observe_ext_network_info (take n p) ≡ observe_ext_network_info p
  unfolding observe_ext_network_info
  ext_network_info-take h = rw (
    eight_bytes-take 7 (omega arith),
    eight_bytes-take 15 (omega arith),
    get_or-take n 2 p (omega arith),
    get_or-take n 3 p (omega arith),
    get_or-take n 4 p (omega arith),
    get_or-take n 23 p (omega arith),
  )

  state_change-take : n ≡ 1 → observe_state_change (take n p) ≡ observe_state_change p
  unfolding observe_state_change
  state_change-take h = rw (get_or-take n 0 p (omega arith))

  -- The decoder looks at no byte behind the `n` of the payload.
  pub decode-take :
      (cmd0 cmd1 : ℕ) (observation : Option ZnpObservation)
      → decode_znp_observation cmd0 cmd1 (some (take n p)) n observation
        ≡ decode_znp_observation cmd0 cmd1 (some p) n observation
  unfolding decode_znp_observation
  decode-take cmd0 cmd1 none = refl
  decode-take cmd0 cmd1 (some o) = ground (
    arith,
    sys_version-take,
    device_info-take,
    ext_network_info-take,
    state_change-take,
    get_or-take n 0 p,
  )

-- ===== src/Ssdp/Search.antt =====
-- A search reaches every device once.
use npupnp.Common.{
  ℕ, zero, suc, ◌+◌, ◌≡◌, ◌<◌, ◌≤◌, ap, subst, ◌∙◌, sym, none, some, [], ◌∷◌, map, length, ℤ, pos,
  arith, Option-cases, inl, inr,
}
use npupnp.Handles.{Handles, HandleInfo, num_handle, drop_slots, get_device_handle_info}
use npupnp.Handles.Devices.{devices_from, IsStep, get_device_handle_info-IsStep}
use npupnp.Ssdp.Device.{device_loop}

abbrev pub with_age : ℕ × HandleInfo → ℕ × ℤ
with_age (handle, info) = (handle, info.max_age)

device_loop-end :
    (fuel start : ℕ) (hs : Handles)
    → get_device_handle_info (pos start) hs ≡ none
    → device_loop (suc fuel) start hs ≡ []
unfolding device_loop
device_loop-end fuel start hs e = ground (arith, e)

device_loop-next :
    (fuel start handle : ℕ) (info : HandleInfo) (hs : Handles)
    → get_device_handle_info (pos start) hs ≡ some (handle, info)
    → device_loop (suc fuel) start hs ≡ (handle, info.max_age) ∷ device_loop fuel handle hs
unfolding device_loop
device_loop-next fuel start handle info hs e = ground (arith, e)

device_loop-devices :
    (fuel start : ℕ) (hs : Handles)
    → length hs ≡ num_handle
    → num_handle ≤ fuel + start
    → start < num_handle
    → device_loop fuel start hs
      ≡ map with_age (devices_from (suc start) (drop_slots (suc start) hs))
device_loop-devices zero start hs l enough inside = absurd (omega arith)
device_loop-devices (suc fuel) start hs l enough inside =
    elim (Option-cases (get_device_handle_info (pos start) hs)) [
      | inl over ↦
          let step : IsStep start hs none =
            subst (IsStep start hs) over (get_device_handle_info-IsStep start hs l) in
          device_loop-end fuel start hs over ∙ ap (map with_age) (sym step)
      | inr ((j, d), here) ↦
          let (behind, below, rest) : IsStep start hs (some (j, d)) =
            subst (IsStep start hs) here (get_device_handle_info-IsStep start hs l) in
          device_loop-next fuel start j d hs here
          ∙ ap (λ more. (j, d.max_age) ∷ more) (device_loop-devices fuel j hs l (omega arith) below)
          ∙ ap (map with_age) (sym rest)
    ]

-- In a table of 200 slots, the loop over the devices that a search reaches meets every device of
-- the table other than one in slot 0, each once, in the order of the handles, with its maximal
-- age; the fuel of 200 is enough.
pub device_loop-all :
    (hs : Handles)
    → length hs ≡ num_handle
    → device_loop num_handle 0 hs ≡ map with_age (devices_from 1 (drop_slots 1 hs))
device_loop-all hs l = device_loop-devices num_handle 0 hs l (omega arith) (omega arith)
